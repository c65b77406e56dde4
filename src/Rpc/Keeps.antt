-- ===== src/Rpc/Keeps.antt =====
-- Commands that send nothing, and the shape of a command that succeeds.
use cargo_stylus.Common.{
  ◌≡◌, refl, ◌∙◌, Bool, true, false, Option, some, List, if◌then◌else◌, arith,
}
use cargo_stylus.Common.Outcome.{Outcome, ok, err, panic, out_of_fuel}
use cargo_stylus.Rpc.{
  Tx, Failure, Command, continue, ◌>>=◌, pure, bail, lift, ask, expect, query, expecting,
}

-- The command sends nothing, whether it succeeds or not.
pub record Keeps {A : Type 0} (m : Command A) : Type 0 where
  pub at : (sent : List Tx) → (m sent).1 ≡ sent

continue-Keeps :
    {A B : Type 0} (o : Outcome Failure A) (sent : List Tx) (f : A → Command B)
    → ((a : A) → Keeps (f a))
    → (continue o sent f).1 ≡ sent
unfolding continue
continue-Keeps (ok a) sent f h = (h a).at sent
continue-Keeps (err e) sent f h = refl
continue-Keeps panic sent f h = refl
continue-Keeps out_of_fuel sent f h = refl

pub Keeps-bind :
    {A B : Type 0} (m : Command A) (f : A → Command B)
    → Keeps m
    → ((a : A) → Keeps (f a))
    → Keeps (m >>= f)
unfolding ◌>>=◌
Keeps-bind m f h k = record { at = λ sent. continue-Keeps (m sent).0 (m sent).1 f k ∙ h.at sent }

module _ {A : Type 0} where
  pub Keeps-pure : (a : A) → Keeps (pure a)
  unfolding pure
  Keeps-pure a = record { at = λ sent. refl }

  pub Keeps-bail : (e : Failure) → Keeps (bail {A = A} e)
  unfolding bail
  Keeps-bail e = record { at = λ sent. refl }

  pub Keeps-lift : (m : Outcome Failure A) → Keeps (lift m)
  unfolding lift
  Keeps-lift m = record { at = λ sent. refl }

  pub Keeps-ask : (e : Failure) (f : List Tx → Option A) → Keeps (ask e f)
  unfolding ask
  Keeps-ask e f = record { at = λ sent. refl }

  pub Keeps-expect : (f : List Tx → Option A) → Keeps (expect f)
  unfolding expect
  Keeps-expect f = record { at = λ sent. refl }

  pub Keeps-query : (f : List Tx → A) → Keeps (query f)
  unfolding query
  Keeps-query f = record { at = λ sent. refl }

  pub Keeps-expecting : (m : Command A) → Keeps m → Keeps (expecting m)
  unfolding expecting
  Keeps-expecting m h = record { at = λ sent. ground (arith, h.at sent) }

  pub Keeps-if : (t : Bool) (m k : Command A) → Keeps m → Keeps k → Keeps (if t then m else k)
  Keeps-if true m k h h' = h
  Keeps-if false m k h h' = h'

  pub Keeps-if_true : (t : Bool) (m k : Command A) → t ≡ true → Keeps m → Keeps (if t then m else k)
  Keeps-if_true true m k e h = h
  Keeps-if_true false m k e h = cc

pub ruleset keeps_rules = (
  Keeps-bind, Keeps-pure, Keeps-bail, Keeps-lift, Keeps-ask, Keeps-expect, Keeps-query,
  Keeps-expecting, Keeps-if,
)

-- A part that does not touch the node, or only asks it, gives its result to what follows.
pub Keeps-lifted :
    {A B : Type 0} (m : Outcome Failure A) (f : A → Command B)
    → ((a : A) → m ≡ ok a → Keeps (f a))
    → Keeps (lift m >>= f)
unfolding ◌>>=◌ continue lift
Keeps-lifted (ok a) f k = record { at = (k a refl).at }
Keeps-lifted (err e) f k = record { at = λ sent. refl }
Keeps-lifted panic f k = record { at = λ sent. refl }
Keeps-lifted out_of_fuel f k = record { at = λ sent. refl }

pub Keeps-queried :
    {A B : Type 0} (q : List Tx → A) (f : A → Command B)
    → ((sent : List Tx) → Keeps (f (q sent)))
    → Keeps (query q >>= f)
unfolding ◌>>=◌ continue query
Keeps-queried q f k = record { at = λ sent. (k sent).at sent }

continue-ok :
    {A B : Type 0} (o : Outcome Failure A) (sent : List Tx) (f : A → Command B) (q : B × List Tx)
    → continue o sent f ≡ (ok q.0, q.1)
    → (a : A) × (o ≡ ok a) × (f a sent ≡ (ok q.0, q.1))
unfolding continue
continue-ok (ok a) sent f q h = (a, refl, h)
continue-ok (err e) sent f q h = cc
continue-ok panic sent f q h = cc
continue-ok out_of_fuel sent f q h = cc

-- What a command that succeeds has done: its first part succeeded, then the rest did.
pub bind_ok :
    {A B : Type 0} (m : Command A) (f : A → Command B) (sent : List Tx) (b : B) (after : List Tx)
    → ◌≡◌ {A = Outcome Failure B × List Tx} ((m >>= f) sent) (ok b, after)
    → (a : A) × (between : List Tx) × ◌≡◌ {A = Outcome Failure A × List Tx} (m sent) (ok a, between)
      × ◌≡◌ {A = Outcome Failure B × List Tx} (f a between) (ok b, after)
unfolding ◌>>=◌
bind_ok m f sent b after h =
    let (a, e, k) = continue-ok (m sent).0 (m sent).1 f (b, after) h in (a, (m sent).1, cc e, k)

pub expecting_ok :
    {A : Type 0} (m : Command A) (sent : List Tx) (a : A) (after : List Tx)
    → ◌≡◌ {A = Outcome Failure A × List Tx} (expecting m sent) (ok a, after)
    → ◌≡◌ {A = Outcome Failure A × List Tx} (m sent) (ok a, after)
unfolding expecting
expecting_ok m sent a after h = ground arith

-- The same where the first part sends nothing
pub bind_keeps_ok :
    {A B : Type 0} (m : Command A) (f : A → Command B) (sent : List Tx) (b : B) (after : List Tx)
    → Keeps m
    → ◌≡◌ {A = Outcome Failure B × List Tx} ((m >>= f) sent) (ok b, after)
    → (a : A) × ◌≡◌ {A = Outcome Failure A × List Tx} (m sent) (ok a, sent)
      × ◌≡◌ {A = Outcome Failure B × List Tx} (f a sent) (ok b, after)
bind_keeps_ok m f sent b after k h =
    let (a, between, e1, e2) = bind_ok m f sent b after h in
    let same : between ≡ sent = cc (e1, k.at sent) in (a, rw same at e1, rw same at e2)

pub ask_ok :
    {A : Type 0} (e : Failure) (f : List Tx → Option A) (sent : List Tx) (a : A)
    → ◌≡◌ {A = Outcome Failure A × List Tx} (ask e f sent) (ok a, sent)
    → f sent ≡ some a
unfolding ask
ask_ok e f sent a h = ground arith

pub lift_ok :
    {A : Type 0} (m : Outcome Failure A) (sent : List Tx) (a : A)
    → ◌≡◌ {A = Outcome Failure A × List Tx} (lift m sent) (ok a, sent)
    → m ≡ ok a
unfolding lift
lift_ok m sent a h = cc h

pub query_ok :
    {A : Type 0} (f : List Tx → A) (sent : List Tx) (a : A)
    → ◌≡◌ {A = Outcome Failure A × List Tx} (query f sent) (ok a, sent)
    → f sent ≡ a
unfolding query
query_ok f sent a h = cc h
