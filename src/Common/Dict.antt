-- ===== src/Common/Dict.antt =====
-- A Python dict: its entries in insertion order.
use sayfirst_control_plane.Common.Keys.{Keyed, ◌==◌, ==_self}
use sayfirst_control_plane.Common.Tests.{if◌then◌else◌, Bool-cases, bit, leb}
use mathlib.Core.Path.{◌≡◌, refl}
use mathlib.Core.Logic.{inl, inr}
use mathlib.Core.Option.{Option, none, some}
use mathlib.Core.List.{List, [], ◌∷◌}
use Prim.Native.Nat.{ℕ, ◌+◌, ◌≤◌, ◌<◌}
use mathlib.Core.Bool.{Bool}
use native.Mathlib.Omega.{arith}

abbrev pub Dict {ℓ κ} : Type ℓ → Type κ → Type (ℓ ⊔ κ)
Dict K V = List (K × V)

module _ {ℓ κ} {K : Type ℓ} {V : Type κ} ⦃e : Keyed K⦄ where
  -- `d.get(k)`
  unfoldable pub lookup : K → Dict K V → Option V
  lookup k [] = none
  lookup k ((j, v) ∷ d) = let rest = lookup k d in if j == k then some v else rest

  -- `d[k] = v`: an entry keeps its place.
  unfoldable pub insert : K → V → Dict K V → Dict K V
  insert k v [] = (k, v) ∷ []
  insert k v ((j, w) ∷ d) = let rest = insert k v d in if j == k then (j, v) ∷ d else (j, w) ∷ rest

  -- `d.pop(k, None)` and `del d[k]`
  unfoldable pub erase : K → Dict K V → Dict K V
  erase k [] = []
  erase k ((j, w) ∷ d) = let rest = erase k d in if j == k then rest else (j, w) ∷ rest

  pub lookup-insert :
      (k j : K) (v : V) (d : Dict K V)
      → lookup j (insert k v d) ≡ (if k == j then some v else lookup j d)
  unfolding lookup insert
  lookup-insert k j v [] = refl
  lookup-insert k j v ((i, w) ∷ d) =
      ground (arith, e.same_iff k j, e.same_iff i k, e.same_iff i j, lookup-insert k j v d)

  pub lookup-insert_twice :
      (k j : K) (v w : V) (d : Dict K V)
      → lookup j (insert k w (insert k v d)) ≡ (if k == j then some w else lookup j d)
  lookup-insert_twice k j v w d = elim (Bool-cases (k == j)) [
    | inl h ↦ rw (lookup-insert k j w (insert k v d), h) refl
    | inr h ↦ rw (lookup-insert k j w (insert k v d), h) (rw (lookup-insert k j v d, h) refl)
  ]

  pub lookup-insert_self : (k : K) (v : V) (d : Dict K V) → lookup k (insert k v d) ≡ some v
  lookup-insert_self k v d = simp (lookup-insert, ==_self)

  pub lookup-erase :
      (k j : K) (d : Dict K V) → lookup j (erase k d) ≡ (if k == j then none else lookup j d)
  unfolding lookup erase
  lookup-erase k j [] = elim (Bool-cases (k == j)) [ inl h ↦ rw h | inr h ↦ rw h ]
  lookup-erase k j ((i, w) ∷ d) =
      ground (arith, e.same_iff k j, e.same_iff i k, e.same_iff i j, lookup-erase k j d)

-- How many entries of a dictionary have a value that passes a test.
unfoldable pub count : {K V : Type 0} → (V → Bool) → Dict K V → ℕ
count p [] = 0
count p ((k, v) ∷ d) = bit (p v) + count p d

abbrev pub bit_of : {V : Type 0} → (V → Bool) → Option V → ℕ
bit_of p none = 0
bit_of p (some v) = bit (p v)

module _ {K V : Type 0} ⦃e : Keyed K⦄ (p : V → Bool) where
  -- What an assignment does to a count: a value that was there no longer counts.
  pub count-insert :
      (k : K) (v : V) (d : Dict K V)
      → count p (insert k v d) + bit_of p (lookup k d) ≡ count p d + bit (p v)
  unfolding count insert lookup
  count-insert k v [] = omega arith
  count-insert k v ((i, w) ∷ d) = elim (Bool-cases (i == k)) [
    | inl h ↦ rw h (omega arith)
    | inr h ↦ rw h (omega (arith, count-insert k v d))
  ]

  pub count-insert_new :
      (k : K) (v : V) (d : Dict K V)
      → lookup k d ≡ none
      → count p (insert k v d) ≡ count p d + bit (p v)
  count-insert_new k v d new = omega (arith, rw new at (count-insert k v d))

  pub count-insert_over :
      (k : K) (v w : V) (d : Dict K V)
      → lookup k d ≡ some w
      → count p (insert k v d) + bit (p w) ≡ count p d + bit (p v)
  count-insert_over k v w d there = omega (arith, rw there at (count-insert k v d))

  pub count-erase : (k : K) (d : Dict K V) → count p (erase k d) + bit_of p (lookup k d) ≤ count p d
  unfolding count erase lookup
  count-erase k [] = omega arith
  count-erase k ((i, w) ∷ d) = elim (Bool-cases (i == k)) [
    | inl h ↦ rw h (omega (arith, count-erase k d))
    | inr h ↦ rw h (omega (arith, count-erase k d))
  ]

-- Tests that agree count alike.
pub count-agree :
    {K V : Type 0} (p q : V → Bool) (d : Dict K V) → ((v : V) → p v ≡ q v) → count p d ≡ count q d
unfolding count
count-agree p q [] h = refl
count-agree p q ((k, v) ∷ d) h = rw (h v, count-agree p q d h)

-- Tests need agree only on the numbers that are counted below a bound.
pub count-agree_below :
    {K : Type 0} (p q : ℕ → Bool) (n : ℕ) (d : Dict K ℕ)
    → ((v : ℕ) → v < n → p v ≡ q v)
    → count (λ v. leb n v) d ≡ 0
    → count p d ≡ count q d
unfolding count
count-agree_below p q n [] h none_above = refl
count-agree_below p q n ((k, v) ∷ d) h none_above =
    let below : v < n = ground (arith, none_above) in
    rw (h v below, count-agree_below p q n d h (omega (arith, none_above)))
