-- ===== src/Hostio/State/Laws.antt =====
-- Memory: a load sees what was stored.
use cargo_stylus.Common.{ℕ, ◌+◌, ◌<◌, ◌≡◌, refl, [], ◌∷◌, arith, length, if◌then◌else◌, ◌==◌}
use cargo_stylus.Common.Bytes.{Bytes}
use cargo_stylus.Hostio.State.{Memory, load, store}

-- What lies before the stored bytes stays.
store-before : (bs : Bytes) (ptr a : ℕ) (m : Memory) → a < ptr → store ptr bs m a ≡ m a
unfolding store
store-before [] ptr a m h = refl
store-before (b ∷ bs) ptr a m h =
    ground (arith, store-before bs (ptr + 1) a (λ x. if x == ptr then b else m x))

pub load-store_self :
    (bs : Bytes) (ptr : ℕ) (m : Memory) → load ptr (length bs) (store ptr bs m) ≡ bs
unfolding load store
load-store_self [] ptr m = refl
load-store_self (b ∷ bs) ptr m = ground (
  arith,
  store-before bs (ptr + 1) ptr (λ x. if x == ptr then b else m x),
  load-store_self bs (ptr + 1) (λ x. if x == ptr then b else m x),
)
