-- ===== src/Common/Errors.antt =====
-- Go's errors as values.
use Prim.Native.Nat.{ℕ}
use mathlib.Core.Path.{◌≡◌, refl}
use mathlib.Core.Option.{Option, none, some}
use distributed_kv.Common.Words.{Bytes}

-- The errors that the program tells apart, `other` for the rest with its text, and `wrapped` for
-- fmt.Errorf with %w.
-- `panicked` is a run-time panic of the goroutine.
pub data Error : Type 0 where
  not_found not_leader proposal_dropped read_index_timeout : Error
  deadline_exceeded canceled node_stopping panicked : Error
  compacted : ℕ → ℕ → Error
  other : Bytes → Error
  wrapped : Bytes → Error → Error

pub data Result {ℓ} (A : Type ℓ) : Type ℓ where
  err : Error → Result A
  ok : A → Result A

-- The value, or the given error where there is none.
abbrev pub or_error {ℓ} : {A : Type ℓ} → Error → Option A → Result A
or_error e none = err e
or_error e (some a) = ok a

abbrev pub wrap_error {ℓ} : {A : Type ℓ} → Bytes → Result A → Result A
wrap_error text (ok a) = ok a
wrap_error text (err e) = err (wrapped text e)

infixl 5 ◌>>=◌
-- Go's `if err != nil { return err }` between two calls.
abbrev pub ◌>>=◌ {ℓ κ} : {B : Type κ} {A : Type ℓ} → Result A → (A → Result B) → Result B
err failure >>= next = err failure
ok answer >>= next = next answer

module _ {ℓ κ} {A : Type ℓ} {B : Type κ} (next : A → Result B) where
  came_from :
      {b : B} (first : Result A)
      → (first >>= next) ≡ ok b
      → (a : A) × (first ≡ ok a) × (next a ≡ ok b)
  came_from (err e) same = cc
  came_from (ok a) same = (a, refl, same)

-- A chain that succeeds has succeeded at its first step.
pub >>=-eq-ok {ℓ κ} :
    {B : Type κ} {A : Type ℓ} (first : Result A) (next : A → Result B) {b : B}
    → (first >>= next) ≡ ok b
    → (a : A) × (first ≡ ok a) × (next a ≡ ok b)
>>=-eq-ok first next same = came_from next first same
