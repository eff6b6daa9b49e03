-- ===== src/Poll/Ends.antt =====
-- Computations that never run out of rounds, put together step by step.
use async_tar_rs.Base.{◌≡◌, ◌≢◌, refl, Bool, true, false, if◌then◌else◌}
use async_tar_rs.Base.Result.{Result, ok, err, Error, Action, when}
use async_tar_rs.Poll.{
  Outcome, ready, pending, panicked, out_of_fuel, M, after, ◌>>=◌, ◌>>◌, return, wrap, attempt,
  caught, map_err,
}

pub record Ends {S A : Type 0} (m : M S A) : Type 0 where
  pub ends : (s : S) → (m s).1 ≢ out_of_fuel

ready-ne : {A : Type 0} (r : Result A) → ready r ≢ out_of_fuel
ready-ne r h = cc

pub after-ends :
    {S A B : Type 0} (f : A → M S B) (x : S × Outcome A)
    → x.1 ≢ out_of_fuel
    → ((a : A) (s : S) → (f a s).1 ≢ out_of_fuel)
    → (after f x).1 ≢ out_of_fuel
after-ends f (s, ready (ok a)) h next = next a s
after-ends f (s, ready (err e)) h next = ready-ne (err e)
after-ends f (s, pending) h next = λ e. cc
after-ends f (s, panicked) h next = λ e. cc
after-ends f (s, out_of_fuel) h next = λ e. h refl

pub map_err-ne :
    {A : Type 0} (f : Error → Error) (o : Outcome A) → o ≢ out_of_fuel → map_err f o ≢ out_of_fuel
map_err-ne f (ready (ok a)) h = ready-ne (ok a)
map_err-ne f (ready (err e)) h = ready-ne (err (f e))
map_err-ne f pending h = λ e. cc
map_err-ne f panicked h = λ e. cc
map_err-ne f out_of_fuel h = h

caught-ne : {A : Type 0} (o : Outcome A) → o ≢ out_of_fuel → caught o ≢ out_of_fuel
caught-ne (ready r) h = ready-ne (ok r)
caught-ne pending h = λ e. cc
caught-ne panicked h = λ e. cc
caught-ne out_of_fuel h = λ e. h refl

module _ {S A : Type 0} where
  pub ends_ready : (f : S → S) (r : S → Result A) → Ends (λ s. (f s, ready (r s)))
  ends_ready f r = record { ends = λ s. ready-ne (r s) }

  pub ends_if : (b : Bool) {m k : M S A} → Ends m → Ends k → Ends (if b then m else k)
  ends_if true hm hk = hm
  ends_if false hm hk = hk

  pub ends_bind :
      {B : Type 0} {m : M S A} {f : A → M S B} → Ends m → ((a : A) → Ends (f a)) → Ends (m >>= f)
  ends_bind {m = m} {f = f} hm hf = record {
    ends = λ s. after-ends f (m s) (hm.ends s) (λ a s'. (hf a).ends s');
  }

  pub ends_then : {B : Type 0} {m : M S A} {k : M S B} → Ends m → Ends k → Ends (m >> k)
  ends_then {m = m} {k = k} hm hk = record {
    ends = λ s. after-ends (λ _. k) (m s) (hm.ends s) (λ a s'. hk.ends s');
  }

  pub ends_wrap : (action : Action) {m : M S A} → Ends m → Ends (wrap action m)
  ends_wrap action {m} hm = record { ends = λ s. map_err-ne (when action) (m s).1 (hm.ends s) }

  pub ends_attempt : {m : M S A} → Ends m → Ends (attempt m)
  ends_attempt {m} hm = record { ends = λ s. caught-ne (m s).1 (hm.ends s) }

-- What holds of a result, where there is one; running out of rounds is excluded.
abbrev pub OnOutcome : {A : Type 0} → (A → Type 0) → Outcome A → Type 0
OnOutcome P (ready (ok a)) = P a
OnOutcome P (ready (err e)) = Unit {0}
OnOutcome P pending = Unit {0}
OnOutcome P panicked = Unit {0}
OnOutcome P out_of_fuel = ⊥

pub record Yields {S A : Type 0} (P : A → Type 0) (m : M S A) : Type 0 where
  pub yields : (s : S) → OnOutcome P (m s).1

pub after_yields :
    {S A B : Type 0} (P : A → Type 0) (Q : B → Type 0) (f : A → M S B) (x : S × Outcome A)
    → OnOutcome P x.1
    → ((a : A) (s : S) → P a → OnOutcome Q (f a s).1)
    → OnOutcome Q (after f x).1
after_yields P Q f (s, ready (ok a)) h next = next a s h
after_yields P Q f (s, ready (err e)) h next = tt
after_yields P Q f (s, pending) h next = tt
after_yields P Q f (s, panicked) h next = tt
after_yields P Q f (s, out_of_fuel) h next = elim h [ ]

yields_any : {A : Type 0} (o : Outcome A) → o ≢ out_of_fuel → OnOutcome (λ _. Unit {0}) o
yields_any (ready (ok a)) h = tt
yields_any (ready (err e)) h = tt
yields_any pending h = tt
yields_any panicked h = tt
yields_any out_of_fuel h = h refl

pub yields-ne : {A : Type 0} (P : A → Type 0) (o : Outcome A) → OnOutcome P o → o ≢ out_of_fuel
yields-ne P (ready r) h = ready-ne r
yields-ne P pending h = λ e. cc
yields-ne P panicked h = λ e. cc
yields-ne P out_of_fuel h = elim h [ ]

module _ {S A : Type 0} where
  pub Yields-from : (r : Result A) → Yields {S = S} (λ a. r ≡ ok a) (λ s. (s, ready r))
  Yields-from (ok a) = record { yields = λ s. refl }
  Yields-from (err e) = record { yields = λ s. tt }

  pub Yields-bind :
      {B : Type 0} (P : A → Type 0) (Q : B → Type 0) {m : M S A} {f : A → M S B}
      → Yields P m
      → ((a : A) → P a → Yields Q (f a))
      → Yields Q (m >>= f)
  Yields-bind P Q {m} {f} hm hf = record {
    yields = λ s. after_yields P Q f (m s) (hm.yields s) (λ a s' p. (hf a p).yields s');
  }

  pub Yields-return :
      {B : Type 0} (Q : B → Type 0) (b : B) {m : M S A} → Q b → Ends m → Yields Q (m >> return b)
  Yields-return Q b {m} q hm = record {
    yields = λ s.
        after_yields (λ _. Unit {0}) Q (λ _. return b) (m s) (yields_any (m s).1 (hm.ends s))
          (λ a s' p. q);
  }

  pub Yields-if :
      (P : A → Type 0) (b : Bool) {m k : M S A}
      → Yields P m
      → Yields P k
      → Yields P (if b then m else k)
  Yields-if P true hm hk = hm
  Yields-if P false hm hk = hk
