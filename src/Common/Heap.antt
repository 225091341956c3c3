-- ===== src/Common/Heap.antt =====
-- A `heapq` of pairs of an instant and a key, as the list of its entries in the order in which
-- `heappop` takes them out.
use sayfirst_control_plane.Common.Tests.{leb, Bool-cases, if◌then◌else◌}
use sayfirst_control_plane.Common.Lists.{length}
use Prim.Native.Nat.{ℕ, suc, ◌≤◌, ◌<◌}
use mathlib.Core.Path.{◌≡◌, refl}
use mathlib.Core.Logic.{◌⊎◌, inl, inr}
use mathlib.Core.List.{List, [], ◌∷◌}
use native.Mathlib.Omega.{arith}

abbrev pub Heap : Type 0 → Type 0
Heap K = List (ℕ × K)

module _ {K : Type 0} where
  -- `heappush`. Entries of one instant stay in the order of their insertion: which of them leaves
  -- first is seen by no operation.
  unfoldable pub push : ℕ → K → Heap K → Heap K
  push t k [] = (t, k) ∷ []
  push t k ((u, j) ∷ h) =
      let rest = push t k h in if leb u t then (u, j) ∷ rest else (t, k) ∷ (u, j) ∷ h

  -- Every entry is at `t` or later.
  abbrev pub From : ℕ → Heap K → Type 0
  From t [] = Unit
  From t ((u, j) ∷ h) = (t ≤ u) × From t h

  abbrev pub IsSorted : Heap K → Type 0
  IsSorted [] = Unit
  IsSorted ((u, j) ∷ h) = From u h × IsSorted h

  -- The key has an entry at `t` or earlier.
  abbrev pub Due : K → ℕ → Heap K → Type 0
  Due k t [] = ⊥
  Due k t ((u, j) ∷ h) = ((j ≡ k) × (u ≤ t)) ⊎ Due k t h

  -- How many entries are at `now` or earlier.
  abbrev pub overdue : ℕ → Heap K → ℕ
  overdue now [] = 0
  overdue now ((u, j) ∷ h) = let rest = overdue now h in if leb u now then suc rest else rest

  pub From-mono : {s t : ℕ} (h : Heap K) → s ≤ t → From t h → From s h
  From-mono [] le f = tt
  From-mono ((u, j) ∷ h) le f = (omega arith, From-mono h le f.1)

  push-From : (s t : ℕ) (k : K) (h : Heap K) → s ≤ t → From s h → From s (push t k h)
  unfolding push
  push-From s t k [] le f = (le, tt)
  push-From s t k ((u, j) ∷ h) le f = ground (arith, push-From s t k h le f.1)

  pub push-IsSorted : (t : ℕ) (k : K) (h : Heap K) → IsSorted h → IsSorted (push t k h)
  unfolding push
  push-IsSorted t k [] f = (tt, tt)
  push-IsSorted t k ((u, j) ∷ h) f =
      ground (arith, push-From u t k h, push-IsSorted t k h f.1, From-mono {s = t} {t = u} h)

  pub push-Due_self : (t : ℕ) (k : K) (h : Heap K) → Due k t (push t k h)
  unfolding push
  push-Due_self t k [] = inl (refl, omega arith)
  push-Due_self t k ((u, j) ∷ h) = elim (Bool-cases (leb u t)) [
    | inl e ↦ rw e (inr (push-Due_self t k h))
    | inr e ↦ rw e (inl (refl, omega arith))
  ]

  pub push-Due : (t s : ℕ) (k j : K) (h : Heap K) → Due j s h → Due j s (push t k h)
  unfolding push
  push-Due t s k j [] d = absurd d
  push-Due t s k j ((u, i) ∷ h) (inl here) = elim (Bool-cases (leb u t)) [
    | inl e ↦ rw e (inl here)
    | inr e ↦ rw e (inr (inl here))
  ]
  push-Due t s k j ((u, i) ∷ h) (inr there) = elim (Bool-cases (leb u t)) [
    | inl e ↦ rw e (inr (push-Due t s k j h there))
    | inr e ↦ rw e (inr (inr there))
  ]

  -- An entry is no earlier than all entries are.
  pub Due-From : (k : K) (t u : ℕ) (h : Heap K) → Due k t h → From u h → u ≤ t
  Due-From k t u [] d f = absurd d
  Due-From k t u ((v, j) ∷ h) (inl here) f = omega arith
  Due-From k t u ((v, j) ∷ h) (inr there) f = Due-From k t u h there f.1

  -- An entry pushed after `now` is not overdue.
  pub overdue-push :
      (now t : ℕ) (k : K) (h : Heap K) → now < t → overdue now (push t k h) ≡ overdue now h
  unfolding push
  overdue-push now t k [] lt = ground arith
  overdue-push now t k ((u, j) ∷ h) lt = ground (arith, overdue-push now t k h lt)

  pub overdue-le : (now : ℕ) (h : Heap K) → overdue now h ≤ length h
  overdue-le now [] = omega arith
  overdue-le now ((u, j) ∷ h) = ground (arith, overdue-le now h)
