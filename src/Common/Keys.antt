-- ===== src/Common/Keys.antt =====
-- Types whose values the program compares for equality.
use Prim.Native.Nat.{ℕ}
use Prim.Native.String.{String}
use mathlib.Core.Path.{◌≡◌, refl, ap}
use mathlib.Core.Logic.{◌↔◌}
use mathlib.Core.Bool.{Bool, true, false, ◌&&◌}
use mathlib.Core.List.{List, [], ◌∷◌}
use mathlib.Core.Option.{Option, none, some}
use native.Mathlib.Omega.{arith}
use text.Mathlib.Text.{◌==◌ as text_eqb}
use text.Mathlib.TextEquality.{eq_iff}
use sayfirst_control_plane.Common.Tests.{nat_eqb, nat_eqb_iff}

pub record Keyed {ℓ} (A : Type ℓ) : Type ℓ where
  pub same : A → A → Bool
  pub same_iff : (a b : A) → (same a b ≡ true) ↔ (a ≡ b)

infix 50 ◌==◌
abbrev pub ◌==◌ {ℓ} : {A : Type ℓ} ⦃k : Keyed A⦄ → A → A → Bool
◌==◌ ⦃k⦄ = k.same

pub ==_iff {ℓ} : {A : Type ℓ} ⦃k : Keyed A⦄ (a b : A) → ((a == b) ≡ true) ↔ (a ≡ b)
==_iff ⦃k⦄ a b = k.same_iff a b

pub ==_self {ℓ} : {A : Type ℓ} ⦃k : Keyed A⦄ (a : A) → (a == a) ≡ true
==_self ⦃k⦄ a = (k.same_iff a a).1 refl

instance abbrev pub nat_keyed : Keyed ℕ
nat_keyed = record { same = nat_eqb; same_iff = nat_eqb_iff }

instance abbrev pub text_keyed : Keyed String
text_keyed = record { same = text_eqb; same_iff = eq_iff }

module _ {ℓ κ} {A : Type ℓ} {B : Type κ} ⦃e : Keyed A⦄ ⦃f : Keyed B⦄ where
  abbrev pub pair_same : A × B → A × B → Bool
  pair_same (a, b) (c, d) = (a == c) && (b == d)

  pub pair_same_iff : (p q : A × B) → (pair_same p q ≡ true) ↔ (p ≡ q)
  pair_same_iff (a, b) (c, d) = (
    λ h. ground (arith, e.same_iff a c, f.same_iff b d),
    λ h. ground (arith, e.same_iff a c, f.same_iff b d),
  )

instance abbrev pub pair_keyed {ℓ κ} :
    {A : Type ℓ} {B : Type κ} ⦃e : Keyed A⦄ ⦃f : Keyed B⦄ → Keyed (A × B)
pair_keyed = record { same = pair_same; same_iff = pair_same_iff }

module _ {ℓ} {A : Type ℓ} ⦃e : Keyed A⦄ where
  abbrev pub option_same : Option A → Option A → Bool
  option_same none none = true
  option_same (some a) (some b) = a == b
  option_same _ _ = false

  pub option_same_iff : (p q : Option A) → (option_same p q ≡ true) ↔ (p ≡ q)
  option_same_iff none none = (λ h. refl, λ h. refl)
  option_same_iff none (some b) = (λ h. cc, λ h. cc)
  option_same_iff (some a) none = (λ h. cc, λ h. cc)
  option_same_iff (some a) (some b) =
      (λ h. ap some ((e.same_iff a b).0 h), λ h. ground (arith, e.same_iff a b))

instance abbrev pub option_keyed {ℓ} : {A : Type ℓ} ⦃e : Keyed A⦄ → Keyed (Option A)
option_keyed = record { same = option_same; same_iff = option_same_iff }

module _ {ℓ} {A : Type ℓ} ⦃e : Keyed A⦄ where
  unfoldable pub list_same : List A → List A → Bool
  list_same [] [] = true
  list_same (x ∷ xs) (y ∷ ys) = (x == y) && list_same xs ys
  list_same _ _ = false

  pub list_same_iff : (xs ys : List A) → (list_same xs ys ≡ true) ↔ (xs ≡ ys)
  unfolding list_same
  list_same_iff [] [] = (λ h. refl, λ h. refl)
  list_same_iff [] (y ∷ ys) = (λ h. cc, λ h. cc)
  list_same_iff (x ∷ xs) [] = (λ h. cc, λ h. cc)
  list_same_iff (x ∷ xs) (y ∷ ys) = (
    λ h. ground (arith, e.same_iff x y, list_same_iff xs ys),
    λ h. ground (arith, e.same_iff x y, list_same_iff xs ys),
  )

instance abbrev pub list_keyed {ℓ} : {A : Type ℓ} ⦃e : Keyed A⦄ → Keyed (List A)
list_keyed = record { same = list_same; same_iff = list_same_iff }
