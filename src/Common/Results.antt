-- ===== src/Common/Results.antt =====
-- Calls that may raise an exception, as values.
use mathlib.Core.Path.{◌≡◌, refl}
use mathlib.Core.Bool.{Bool, true, false}
use mathlib.Core.Option.{Option, none, some}

-- A call answers, or raises an exception of the type `E`.
pub data Result (E A : Type 0) : Type 0 where
  ok : A → Result E A
  err : E → Result E A

abbrev pub ⊤ : Type 0
⊤ = Unit

module _ {E : Type 0} where
  -- `if c: raise e`
  abbrev pub refuse_if : Bool → E → Result E ⊤
  refuse_if false e = ok tt
  refuse_if true e = err e

  abbrev pub or_raise : {A : Type 0} → Option A → E → Result E A
  or_raise (some found) e = ok found
  or_raise none e = err e

  infixl 5 ◌>>=◌
  abbrev pub ◌>>=◌ : {A B : Type 0} → Result E A → (A → Result E B) → Result E B
  err exception >>= next = err exception
  ok answer >>= next = next answer

  infixl 5 ◌>>◌
  abbrev pub ◌>>◌ : {B : Type 0} → Result E ⊤ → Result E B → Result E B
  check >> next = check >>= λ done. next

  -- A check that stands before an answer did not refuse.
  pub refused-eq-ok :
      {B : Type 0} (c : Bool) (e : E) (next : Result E B) {b : B}
      → refuse_if c e >> next ≡ ok b
      → (c ≡ false) × (next ≡ ok b)
  refused-eq-ok true e next answers = cc
  refused-eq-ok false e next answers = (refl, answers)

  -- What an answer says of the call before it.
  pub >>=-eq-ok :
      {A B : Type 0} (call : Result E A) (next : A → Result E B) {b : B}
      → call >>= next ≡ ok b
      → (answer : A) × (call ≡ ok answer) × (next answer ≡ ok b)
  >>=-eq-ok (err exception) next answers = cc
  >>=-eq-ok (ok answer) next answers = (answer, refl, answers)

  pub ok_inj : {A : Type 0} {a b : A} → ◌≡◌ {A = Result E A} (ok a) (ok b) → a ≡ b
  ok_inj same = cc same
