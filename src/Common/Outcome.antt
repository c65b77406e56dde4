-- ===== src/Common/Outcome.antt =====
-- What a Rust function with the result type `Result<A, E>` can do: return `Ok`, return `Err`,
-- panic, or (in a model that runs on fuel) not have returned yet.
use mathlib.Core.Path.{◌≡◌, refl}
use mathlib.Core.Bool.{Bool, true, false}
use mathlib.Core.Option.{Option, none, some}

pub data Outcome {ℓ} (E : Type ℓ) (A : Type ℓ) : Type ℓ where
  ok : A → Outcome E A
  err : E → Outcome E A
  panic : Outcome E A
  out_of_fuel : Outcome E A

infixl 5 ◌>>=◌ ◌>>◌
abbrev pub ◌>>=◌ {ℓ} : {E A B : Type ℓ} → Outcome E A → (A → Outcome E B) → Outcome E B
ok a >>= f = f a
err e >>= f = err e
panic >>= f = panic
out_of_fuel >>= f = out_of_fuel

abbrev pub ◌>>◌ {ℓ} : {E A B : Type ℓ} → Outcome E A → Outcome E B → Outcome E B
m >> k = m >>= λ _. k

-- `.ok_or(e)?`
abbrev pub ok_or {ℓ} : {E A : Type ℓ} → E → Option A → Outcome E A
ok_or e none = err e
ok_or e (some a) = ok a

-- `.unwrap()` of an option
abbrev pub unwrap {ℓ} : {E A : Type ℓ} → Option A → Outcome E A
unwrap none = panic
unwrap (some a) = ok a

-- `bail!(e)` unless the test holds
abbrev pub ensure : {E : Type 0} → Bool → E → Outcome E (Unit {0})
ensure true e = ok tt
ensure false e = err e

-- `assert!(test)`
abbrev pub assert : {E : Type 0} → Bool → Outcome E (Unit {0})
assert true = ok tt
assert false = panic

-- A chain that ends in `Ok`: its first part did, and so did what follows.
pub >>=-eq-ok {ℓ} :
    {E A B : Type ℓ} {last : B} (first : Outcome E A) (rest : A → Outcome E B)
    → (first >>= rest) ≡ ok last
    → (mid : A) × (first ≡ ok mid) × (rest mid ≡ ok last)
>>=-eq-ok out_of_fuel rest e = absurd (cc)
>>=-eq-ok panic rest e = absurd (cc)
>>=-eq-ok (err why) rest e = absurd (cc)
>>=-eq-ok (ok mid) rest e = (mid, refl, e)

pub >>=_assoc {ℓ} :
    {E A B C : Type ℓ} (m : Outcome E A) (f : A → Outcome E B) (g : B → Outcome E C)
    → ((m >>= f) >>= g) ≡ (m >>= λ a. f a >>= g)
>>=_assoc (ok a) f g = refl
>>=_assoc (err e) f g = refl
>>=_assoc panic f g = refl
>>=_assoc out_of_fuel f g = refl

-- Rests that agree on what there is
pub ok_or_cong {ℓ} :
    {E A B : Type ℓ} (e : E) (o : Option A) (f g : A → Outcome E B)
    → ((a : A) → o ≡ some a → f a ≡ g a)
    → (ok_or e o >>= f) ≡ (ok_or e o >>= g)
ok_or_cong e none f g h = refl
ok_or_cong e (some a) f g h = h a refl

pub ok_or-eq-ok {ℓ} : {E A : Type ℓ} (e : E) (o : Option A) (a : A) → ok_or e o ≡ ok a → o ≡ some a
ok_or-eq-ok e none a h = absurd (cc)
ok_or-eq-ok e (some b) a h = cc
