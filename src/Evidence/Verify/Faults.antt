-- ===== src/Evidence/Verify/Faults.antt =====
-- The conditions of the faults that `verify` finds:
-- packages/control-plane/src/sayfirst_control_plane/domain/evidence_chain.py.
use sayfirst_control_plane.Common.{
  ℕ, ◌+◌, ◌≢◌, Bool, true, false, not, Option, none, some, List, [], ◌∷◌, String, ◌==◌, text_keyed,
  nat_keyed, option_keyed, ltb, if◌then◌else◌, Result, ok, err, ⊤,
}
use sayfirst_control_plane.Evidence.Records.{EvidenceEntry}
use sayfirst_control_plane.Evidence.Chain.{Primitives, preimage_version, recomputed}
use sayfirst_control_plane.Evidence.Verify.{
  intact, gap_at, broken_at, unverifiable, Fault, first_fault, gap_before, missing, unsound,
  unlinked, compared_hash, short_of, broken, unreadable,
}

-- No fault is called intact.
abbrev pub Named : Option Fault → Type 0
Named none = ⊤
Named (some f) = f.condition ≢ intact

pub first_fault-Named : (a b : Option Fault) → Named a → Named b → Named (first_fault a b)
first_fault-Named none b h k = k
first_fault-Named (some f) b h k = h

pub if-Named : (b : Bool) (x y : Option Fault) → Named x → Named y → Named (if b then x else y)
if-Named true x y h k = h
if-Named false x y h k = k

pub gap_named : gap_at ≢ intact
gap_named h = cc

broken_named : broken_at ≢ intact
broken_named h = cc

pub unverifiable_named : unverifiable ≢ intact
unverifiable_named h = cc

pub missing-Named : (index : ℕ) (es : List EvidenceEntry) → Named (missing index es)
unfolding missing
missing-Named index [] = tt
missing-Named index (e ∷ []) = tt
missing-Named index (e ∷ f ∷ rest) =
    first_fault-Named _ (missing (index + 1) (f ∷ rest))
      (if-Named (f.sequence == e.sequence + 1) none
        (some (gap_before (e.sequence + 1) (some index))) tt gap_named)
      (missing-Named (index + 1) (f ∷ rest))

pub unlinked-Named : (index : ℕ) (es : List EvidenceEntry) → Named (unlinked index es)
unfolding unlinked
unlinked-Named index [] = tt
unlinked-Named index (e ∷ []) = tt
unlinked-Named index (e ∷ f ∷ rest) =
    first_fault-Named _ (unlinked (index + 1) (f ∷ rest))
      (if-Named (f.previous_hash == some e.entry_hash) none
        (some (broken f.sequence e.entry_hash f.previous_hash index)) tt broken_named)
      (unlinked-Named (index + 1) (f ∷ rest))

pub short_of-Named : (to : Option ℕ) (last : ℕ) → Named (short_of to last)
short_of-Named none last = tt
short_of-Named (some to) last =
    if-Named (ltb last to) (some (gap_before (last + 1) none)) none gap_named tt

pub compared_hash-Named :
    (e : EvidenceEntry) (index : ℕ) (r : Result String String) → Named (compared_hash e index r)
compared_hash-Named e index (err m) = unverifiable_named
compared_hash-Named e index (ok found) =
    if-Named (found == e.entry_hash) none (some (broken e.sequence found (some e.entry_hash) index))
      tt broken_named

module _ (p : Primitives) where
  pub unsound-Named : (index : ℕ) (es : List EvidenceEntry) → Named (unsound p index es)
  unfolding unsound
  unsound-Named index [] = tt
  unsound-Named index (e ∷ es) =
      first_fault-Named _ (unsound p (index + 1) es)
        (if-Named (not (e.preimage_version == preimage_version)) (some (unreadable e index))
          (compared_hash e index (recomputed p e)) unverifiable_named
          (compared_hash-Named e index (recomputed p e)))
        (unsound-Named (index + 1) es)
