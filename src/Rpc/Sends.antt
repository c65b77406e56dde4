-- ===== src/Rpc/Sends.antt =====
-- What a command that succeeds has sent.
use cargo_stylus.Common.{
  ◌≡◌, refl, sym, ap, ◌∙◌, Bool, true, false, List, [], ◌∷◌, ◌++◌, if◌then◌else◌, arith,
}
use mathlib.Core.List.{append_assoc, append-nil}
use mathlib.Core.Path.{subst}
use cargo_stylus.Common.Outcome.{Outcome, ok}
use cargo_stylus.Rpc.{Tx, Failure, Provider, Command, ◌>>=◌, pure, bail, lift, send_transaction}
use cargo_stylus.Rpc.Keeps.{Keeps, bind_ok}

-- If the command succeeds, it has sent transactions of which, with its result, `Q` holds.
pub record Sends {A : Type 0} (m : Command A) (Q : A → List Tx → Type 0) : Type 0 where
  pub at :
      (sent : List Tx) (a : A) (after : List Tx)
      → ◌≡◌ {A = Outcome Failure A × List Tx} (m sent) (ok a, after)
      → (txs : List Tx) × (after ≡ sent ++ txs) × Q a txs

module _ {A B : Type 0} (Q : B → List Tx → Type 0) where
  pub Sends-bind :
      (m : Command A) (f : A → Command B) (R : A → List Tx → Type 0)
      → Sends m R
      → ((a : A) (txs : List Tx) → R a txs → Sends (f a) (λ b more. Q b (txs ++ more)))
      → Sends (m >>= f) Q
  Sends-bind m f R h k = record {
    at = λ sent b after e.
        let (a, between, e1, e2) = bind_ok m f sent b after e in
        let (txs, split, r) = h.at sent a between e1 in
        let (more, split', q) = (k a txs r).at between b after e2 in
        (txs ++ more, split' ∙ ap (λ l. l ++ more) split ∙ append_assoc sent txs more, q);
  }

  -- A first part that sends nothing does not count.
  pub Sends-after :
      (m : Command A) (f : A → Command B) → Keeps m → ((a : A) → Sends (f a) Q) → Sends (m >>= f) Q
  Sends-after m f h k = record {
    at = λ sent b after e.
        let (a, between, e1, e2) = bind_ok m f sent b after e in
        let same : between ≡ sent = cc (e1, h.at sent) in
        let (txs, split, q) = (k a).at between b after e2 in
        (txs, split ∙ ap (λ l. l ++ txs) same, q);
  }

  -- A first part that does not touch the node gives its result.
  pub Sends-lifted :
      (m : Outcome Failure A) (f : A → Command B)
      → ((a : A) → m ≡ ok a → Sends (f a) Q)
      → Sends (lift m >>= f) Q
  unfolding lift
  Sends-lifted m f k = record {
    at = λ sent b after e.
        let (a, between, e1, e2) = bind_ok (lift m) f sent b after e in
        let p : (m ≡ ok a) × (sent ≡ between) = (cc, cc) in
        let (txs, split, q) = (k a p.0).at between b after e2 in
        (txs, split ∙ ap (λ l. l ++ txs) (sym p.1), q);
  }

module _ {B : Type 0} (Q : B → List Tx → Type 0) where
  pub Sends-pure : (b : B) → Q b [] → Sends (pure b) Q
  unfolding pure
  Sends-pure b q = record {
    at = λ sent a after e.
        let p : (b ≡ a) × (sent ≡ after) = (cc, cc) in
        ([], cc (p.1, append-nil sent), subst (λ x. Q x []) p.0 q);
  }

  pub Sends-bail : (e : Failure) → Sends (bail e) Q
  unfolding bail
  Sends-bail e = record { at = λ sent a after h. cc }

  pub Sends-lift : (m : Outcome Failure B) → ((b : B) → m ≡ ok b → Q b []) → Sends (lift m) Q
  unfolding lift
  Sends-lift m q = record {
    at = λ sent a after e.
        let p : (m ≡ ok a) × (sent ≡ after) = (cc, cc) in ([], cc (p.1, append-nil sent), q a p.0);
  }

  pub Sends-if :
      (t : Bool) (m k : Command B)
      → (t ≡ true → Sends m Q)
      → (t ≡ false → Sends k Q)
      → Sends (if t then m else k) Q
  Sends-if true m k h h' = h refl
  Sends-if false m k h h' = h' refl

pub Sends-send_transaction :
    (P : Provider) (tx : Tx) → Sends (send_transaction P tx) (λ u txs. txs ≡ tx ∷ [])
unfolding send_transaction
Sends-send_transaction P tx = record { at = λ sent a after e. (tx ∷ [], ground arith, refl) }
