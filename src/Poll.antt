-- ===== src/Poll.antt =====
-- The outcome of one `poll`, and computations that poll, change a state and may stop early.
pub mod Ends
use async_tar_rs.Base.{◌≡◌, refl, ℕ, ◌+◌, ◌-◌, ◌^◌, ltb, if◌then◌else◌}
use async_tar_rs.Base.Result.{Result, ok, err, Error, Action, when}

-- `panicked` is a panic: a slice out of range, a failed assertion, or integer overflow where the
-- code uses `+` and `-` (in a build with overflow checks). `out_of_fuel` is no outcome of the
-- code: it marks that a bound on the rounds of a loop was too small.
pub data Outcome {ℓ} (A : Type ℓ) : Type ℓ where
  ready : Result A → Outcome A
  pending panicked out_of_fuel : Outcome A

abbrev pub M : Type 0 → Type 0 → Type 0
M S A = S → S × Outcome A

-- What was changed before an early return stays changed.
abbrev pub after : {S A B : Type 0} → (A → M S B) → S × Outcome A → S × Outcome B
after f (s, ready (ok a)) = f a s
after f (s, ready (err e)) = (s, ready (err e))
after f (s, pending) = (s, pending)
after f (s, panicked) = (s, panicked)
after f (s, out_of_fuel) = (s, out_of_fuel)

infixl 5 ◌>>=◌ ◌>>◌
abbrev pub ◌>>=◌ : {S A B : Type 0} → M S A → (A → M S B) → M S B
◌>>=◌ m f s = after f (m s)

abbrev pub ◌>>◌ : {S A B : Type 0} → M S A → M S B → M S B
◌>>◌ m k s = after (λ _. k) (m s)

abbrev pub return : {S A : Type 0} → A → M S A
return a s = (s, ready (ok a))

abbrev pub fail : {S A : Type 0} → Error → M S A
fail e s = (s, ready (err e))

-- `e?` on an `io::Result`.
abbrev pub from : {S A : Type 0} → Result A → M S A
from r s = (s, ready r)

abbrev pub read : {S A : Type 0} → (S → A) → M S A
read f s = (s, ready (ok (f s)))

abbrev pub modify : {S : Type 0} → (S → S) → M S (Unit {0})
modify f s = (f s, ready (ok tt))

-- `a + b` and `a - b` on u64.
abbrev pub add_u64 : {S : Type 0} → ℕ → ℕ → M S ℕ
add_u64 a b s = (s, if ltb (a + b) (2 ^ 64) then ready (ok (a + b)) else panicked)

abbrev pub sub_u64 : {S : Type 0} → ℕ → ℕ → M S ℕ
sub_u64 a b s = (s, if ltb a b then panicked else ready (ok (a - b)))

-- An error as a value, for code that goes on after it.
abbrev pub caught : {A : Type 0} → Outcome A → Outcome (Result A)
caught (ready r) = ready (ok r)
caught pending = pending
caught panicked = panicked
caught out_of_fuel = out_of_fuel

abbrev pub attempt : {S A : Type 0} → M S A → M S (Result A)
attempt m s = ((m s).0, caught (m s).1)

-- `Result::or_else` on what a computation gives.
abbrev pub otherwise : {S A : Type 0} → (Error → M S A) → S × Outcome A → S × Outcome A
otherwise f (s, ready (ok a)) = (s, ready (ok a))
otherwise f (s, ready (err e)) = f e s
otherwise f (s, pending) = (s, pending)
otherwise f (s, panicked) = (s, panicked)
otherwise f (s, out_of_fuel) = (s, out_of_fuel)

abbrev pub or_else : {S A : Type 0} → M S A → (Error → M S A) → M S A
or_else m f s = otherwise f (m s)

-- `Result::map_err` on the outcome.
abbrev pub map_err : {A : Type 0} → (Error → Error) → Outcome A → Outcome A
map_err f (ready (ok a)) = ready (ok a)
map_err f (ready (err e)) = ready (err (f e))
map_err f pending = pending
map_err f panicked = panicked
map_err f out_of_fuel = out_of_fuel

-- `Result::map_err` on what a computation gives.
abbrev pub wrap : {S A : Type 0} → Action → M S A → M S A
wrap action m s = ((m s).0, map_err (when action) (m s).1)

-- A failure stops what follows.
pub after-err :
    {S A B : Type 0} (f : A → M S B) (x : S × Outcome A) (e : Error)
    → x.1 ≡ ready (err e)
    → (after f x).1 ≡ ready (err e)
after-err f (s, o) e h = rw h refl

-- What a computation and what follows it keep, they keep together.
pub after_keeps :
    {S A B : Type 0} (P : S → Type 0) (f : A → M S B) (x : S × Outcome A)
    → P x.0
    → ((a : A) (s : S) → P s → P (f a s).0)
    → P (after f x).0
after_keeps P f (s, ready (ok a)) p next = next a s p
after_keeps P f (s, ready (err e)) p next = p
after_keeps P f (s, pending) p next = p
after_keeps P f (s, panicked) p next = p
after_keeps P f (s, out_of_fuel) p next = p

-- The same for what goes on from one state only.
pub after_from :
    {S A B : Type 0} (P : S → Type 0) (f : A → M S B) (x : S × Outcome A)
    → P x.0
    → ((a : A) → P (f a x.0).0)
    → P (after f x).0
after_from P f (s, ready (ok a)) p next = next a
after_from P f (s, ready (err e)) p next = p
after_from P f (s, pending) p next = p
after_from P f (s, panicked) p next = p
after_from P f (s, out_of_fuel) p next = p

pub otherwise_keeps :
    {S A : Type 0} (P : S → Type 0) (f : Error → M S A) (x : S × Outcome A)
    → P x.0
    → ((e : Error) (s : S) → P s → P (f e s).0)
    → P (otherwise f x).0
otherwise_keeps P f (s, ready (ok a)) p next = p
otherwise_keeps P f (s, ready (err e)) p next = next e s p
otherwise_keeps P f (s, pending) p next = p
otherwise_keeps P f (s, panicked) p next = p
otherwise_keeps P f (s, out_of_fuel) p next = p
