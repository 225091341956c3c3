-- ===== src/Evidence/Verify/Intact.antt =====
-- What an intact verdict stands for:
-- packages/control-plane/src/sayfirst_control_plane/domain/evidence_chain.py.
use sayfirst_control_plane.Common.{
  ℕ, ◌+◌, ◌≤◌, ◌≡◌, ◌↔◌, refl, sym, ap, ◌∙◌, not, Option, none, some, List, [], ◌∷◌, String, ◌==◌,
  ==_iff, text_keyed, nat_keyed, option_keyed, ltb, if◌then◌else◌, Result, ok, err, ⊤, any, arith,
  >>=-eq-ok, refused-eq-ok, Bool-cases, inl, inr,
}
use sayfirst_control_plane.Common.Dict.{Dict}
use sayfirst_control_plane.Evidence.Records.{EvidenceEntry}
use sayfirst_control_plane.Evidence.Chain.{Primitives, preimage_version, recomputed}
use sayfirst_control_plane.Evidence.Verify.{
  Grade, intact, ChainVerdict, Fault, first_fault, gap_before, missing, unsound, unlinked,
  hash_fault, compared_hash, fault_of, short_of, last_sequence, condition_of, verdict_on, verify,
  out_of_order, ends_before, grades, taken, of_fault,
}
use sayfirst_control_plane.Evidence.Verify.Faults.{
  Named, first_fault-Named, missing-Named, unlinked-Named, short_of-Named, gap_named,
  unverifiable_named, if-Named, unsound-Named,
}

-- Each entry has the number after its predecessor's.
abbrev pub Consecutive : List EvidenceEntry → Type 0
Consecutive [] = ⊤
Consecutive (e ∷ []) = ⊤
Consecutive (e ∷ f ∷ rest) = (f.sequence ≡ e.sequence + 1) × Consecutive (f ∷ rest)

-- Each entry names its predecessor's hash.
abbrev pub Linked : List EvidenceEntry → Type 0
Linked [] = ⊤
Linked (e ∷ []) = ⊤
Linked (e ∷ f ∷ rest) = (f.previous_hash ≡ some e.entry_hash) × Linked (f ∷ rest)

abbrev pub Reaches : Option ℕ → ℕ → Type 0
Reaches none last = ⊤
Reaches (some to) last = to ≤ last

first_fault-none_iff : (a b : Option Fault) → (first_fault a b ≡ none) ↔ ((a ≡ none) × (b ≡ none))
first_fault-none_iff none b = (λ h. (refl, h), λ h. h.1)
first_fault-none_iff (some f) b = (λ h. cc, λ h. h.0)

compared_hash_iff :
    (e : EvidenceEntry) (index : ℕ) (r : Result String String)
    → (compared_hash e index r ≡ none) ↔ (r ≡ ok e.entry_hash)
compared_hash_iff e index (err m) = (λ h. cc, λ h. cc)
compared_hash_iff e index (ok found) = elim (Bool-cases (found == e.entry_hash)) [
  | inl same ↦ rw same (λ h. ap ok ((==_iff found e.entry_hash).0 same), λ h. refl)
  | inr other ↦ rw other (λ h. cc, λ h. ground (arith, ==_iff found e.entry_hash))
]

module _ (p : Primitives) where
  -- The hash of an entry recomputes under the recipe that it declares.
  abbrev pub Sound : EvidenceEntry → Type 0
  Sound e = (e.preimage_version ≡ preimage_version) × (recomputed p e ≡ ok e.entry_hash)

  abbrev pub AllSound : List EvidenceEntry → Type 0
  AllSound [] = ⊤
  AllSound (e ∷ es) = Sound e × AllSound es

  -- A range that begins where it was asked to, reaches its end, misses no number, and whose entries
  -- each recompute and name their predecessor.
  abbrev pub IsIntact : ℕ → Option ℕ → List EvidenceEntry → Type 0
  IsIntact from_sequence to_sequence [] = ⊥
  IsIntact from_sequence to_sequence (e ∷ es) =
      (e.sequence ≡ from_sequence)
      × Consecutive (e ∷ es)
      × Reaches to_sequence (last_sequence e es)
      × AllSound (e ∷ es)
      × Linked (e ∷ es)

  missing_iff : (index : ℕ) (es : List EvidenceEntry) → (missing index es ≡ none) ↔ Consecutive es
  unfolding missing
  missing_iff index [] = (λ h. tt, λ h. refl)
  missing_iff index (e ∷ []) = (λ h. tt, λ h. refl)
  missing_iff index (e ∷ f ∷ rest) = elim (Bool-cases (f.sequence == e.sequence + 1)) [
    | inl next ↦ rw next (
      λ h. (
        ground (arith, ==_iff f.sequence (e.sequence + 1)),
        (missing_iff (index + 1) (f ∷ rest)).0 h,
      ),
      λ h. (missing_iff (index + 1) (f ∷ rest)).1 h.1,
    )
    | inr jump ↦ rw jump (λ h. cc, λ h. ground (arith, ==_iff f.sequence (e.sequence + 1)))
  ]

  unlinked_iff : (index : ℕ) (es : List EvidenceEntry) → (unlinked index es ≡ none) ↔ Linked es
  unfolding unlinked
  unlinked_iff index [] = (λ h. tt, λ h. refl)
  unlinked_iff index (e ∷ []) = (λ h. tt, λ h. refl)
  unlinked_iff index (e ∷ f ∷ rest) = elim (Bool-cases (f.previous_hash == some e.entry_hash)) [
    | inl named ↦ rw named (
      λ h. (
        (==_iff f.previous_hash (some e.entry_hash)).0 named,
        (unlinked_iff (index + 1) (f ∷ rest)).0 h,
      ),
      λ h. (unlinked_iff (index + 1) (f ∷ rest)).1 h.1,
    )
    | inr other ↦ rw other (λ h. cc, λ h. cc ((==_iff f.previous_hash (some e.entry_hash)).1 h.0))
  ]

  hash_fault_iff : (index : ℕ) (e : EvidenceEntry) → (hash_fault p index e ≡ none) ↔ Sound e
  unfolding hash_fault
  hash_fault_iff index e = elim (Bool-cases (e.preimage_version == preimage_version)) [
    | inl known ↦ rw known (
      λ h. (
        (==_iff e.preimage_version preimage_version).0 known,
        (compared_hash_iff e index (recomputed p e)).0 h,
      ),
      λ h. (compared_hash_iff e index (recomputed p e)).1 h.1,
    )
    | inr other ↦ rw other (λ h. cc, λ h. cc ((==_iff e.preimage_version preimage_version).1 h.0))
  ]

  unsound_iff : (index : ℕ) (es : List EvidenceEntry) → (unsound p index es ≡ none) ↔ AllSound es
  unfolding unsound
  unsound_iff index [] = (λ h. tt, λ h. refl)
  unsound_iff index (e ∷ es) = (
    λ h.
        let (here, later) =
          (first_fault-none_iff (hash_fault p index e) (unsound p (index + 1) es)).0 h in
        ((hash_fault_iff index e).0 here, (unsound_iff (index + 1) es).0 later),
    λ h.
        (first_fault-none_iff (hash_fault p index e) (unsound p (index + 1) es)).1
          ((hash_fault_iff index e).1 h.0, (unsound_iff (index + 1) es).1 h.1),
  )

  short_of_iff : (to : Option ℕ) (last : ℕ) → (short_of to last ≡ none) ↔ Reaches to last
  short_of_iff none last = (λ h. tt, λ h. refl)
  short_of_iff (some to) last = (λ h. ground arith, λ h. ground arith)

  -- The checks of a range that begins where it was asked to.
  abbrev checks : Option ℕ → EvidenceEntry → List EvidenceEntry → Option Fault
  checks to_sequence e es = first_fault (missing 1 (e ∷ es)) (
      first_fault (short_of to_sequence (last_sequence e es))
        (first_fault (unsound p 0 (e ∷ es)) (unlinked 1 (e ∷ es))))

  checks_iff :
      (to_sequence : Option ℕ) (e : EvidenceEntry) (es : List EvidenceEntry)
      → (checks to_sequence e es ≡ none) ↔ (
          Consecutive (e ∷ es)
          × Reaches to_sequence (last_sequence e es)
          × AllSound (e ∷ es)
          × Linked (e ∷ es))
  checks_iff to_sequence e es = (
    λ h.
        let (one, rest) = (first_fault-none_iff _ _).0 h in
        let (two, rest') = (first_fault-none_iff _ _).0 rest in
        let (three, four) = (first_fault-none_iff _ _).0 rest' in
        (
          (missing_iff 1 (e ∷ es)).0 one,
          (short_of_iff to_sequence (last_sequence e es)).0 two,
          (unsound_iff 0 (e ∷ es)).0 three,
          (unlinked_iff 1 (e ∷ es)).0 four,
        ),
    λ h. (first_fault-none_iff _ _).1 (
      (missing_iff 1 (e ∷ es)).1 h.0,
      (first_fault-none_iff _ _).1 (
        (short_of_iff to_sequence (last_sequence e es)).1 h.1,
        (first_fault-none_iff _ _).1
            ((unsound_iff 0 (e ∷ es)).1 h.2, (unlinked_iff 1 (e ∷ es)).1 h.3),
      ),
    ),
  )

  begun_iff :
      (from_sequence : ℕ) (to_sequence : Option ℕ) (e : EvidenceEntry) (es : List EvidenceEntry)
      → ((if not (e.sequence == from_sequence)
            then some (gap_before from_sequence (some 0))
            else checks to_sequence e es)
          ≡ none)
        ↔ IsIntact from_sequence to_sequence (e ∷ es)
  begun_iff from_sequence to_sequence e es = elim (Bool-cases (e.sequence == from_sequence)) [
    | inl begun ↦ rw begun (
      λ h.
          let (one, two, three, four) = (checks_iff to_sequence e es).0 h in
          ((==_iff e.sequence from_sequence).0 begun, one, two, three, four),
      λ h. (checks_iff to_sequence e es).1 (h.1, h.2, h.3, h.4),
    )
    | inr other ↦ rw other (λ h. cc, λ h. cc ((==_iff e.sequence from_sequence).1 h.0))
  ]

  pub fault_of_iff :
      (from_sequence : ℕ) (to_sequence : Option ℕ) (es : List EvidenceEntry)
      → (fault_of p from_sequence to_sequence es ≡ none) ↔ IsIntact from_sequence to_sequence es
  unfolding fault_of
  fault_of_iff from_sequence none [] = (λ h. cc, λ h. absurd h)
  fault_of_iff from_sequence (some to) [] = (λ h. cc, λ h. absurd h)
  fault_of_iff from_sequence none (e ∷ es) = begun_iff from_sequence none e es
  fault_of_iff from_sequence (some to) (e ∷ es) = begun_iff from_sequence (some to) e es

module _ (p : Primitives) where
  checks-Named :
      (from_sequence : ℕ) (to_sequence : Option ℕ) (e : EvidenceEntry) (es : List EvidenceEntry)
      → Named (
          if not (e.sequence == from_sequence)
          then some (gap_before from_sequence (some 0))
          else checks p to_sequence e es)
  checks-Named from_sequence to_sequence e es =
      if-Named (not (e.sequence == from_sequence)) (some (gap_before from_sequence (some 0)))
        (checks p to_sequence e es) gap_named
        (first_fault-Named _ _ (missing-Named 1 (e ∷ es)) (
          first_fault-Named _ _ (short_of-Named to_sequence (last_sequence e es))
            (first_fault-Named _ _ (unsound-Named p 0 (e ∷ es)) (unlinked-Named 1 (e ∷ es)))))

  fault_of-Named :
      (from_sequence : ℕ) (to_sequence : Option ℕ) (es : List EvidenceEntry)
      → Named (fault_of p from_sequence to_sequence es)
  unfolding fault_of
  fault_of-Named from_sequence none [] = unverifiable_named
  fault_of-Named from_sequence (some to) [] = gap_named
  fault_of-Named from_sequence none (e ∷ es) = checks-Named from_sequence none e es
  fault_of-Named from_sequence (some to) (e ∷ es) = checks-Named from_sequence (some to) e es

condition_of_iff : (o : Option Fault) → Named o → (condition_of o ≡ intact) ↔ (o ≡ none)
condition_of_iff none n = (λ h. refl, λ h. refl)
condition_of_iff (some f) n = (λ h. absurd (n h), λ h. cc)

-- A verdict has the condition of the fault that it was reached on.
verdict_on-condition :
    (es : List EvidenceEntry) (scope : String) (from_sequence : ℕ) (fault : Option Fault)
    (before : Dict String Grade) (v : ChainVerdict)
    → verdict_on es scope from_sequence fault before ≡ ok v
    → v.condition ≡ condition_of fault
unfolding verdict_on
verdict_on-condition es scope from_sequence fault before v h =
    let (found, _, same) =
      >>=-eq-ok (grades (taken (of_fault (λ f. f.covered) fault) es) before) _ h in
    cc same

-- When `verify` answers, it calls a range intact exactly when the range begins at the number asked
-- for, misses none, reaches the end asked for, and each of its entries declares the known recipe,
-- recomputes under it and names its predecessor's hash.
pub verify_intact_iff :
    (p : Primitives) (es : List EvidenceEntry) (scope : String) (from_sequence : ℕ)
    (to_sequence : Option ℕ) (before : Dict String Grade) (v : ChainVerdict)
    → verify p es scope from_sequence to_sequence before ≡ ok v
    → (v.condition ≡ intact) ↔ IsIntact p from_sequence to_sequence es
unfolding verify
verify_intact_iff p es scope from_sequence to_sequence before v h =
    let (_, h) = refused-eq-ok (scope == "") _ _ h in
    let (_, h) = refused-eq-ok (ltb from_sequence 1) _ _ h in
    let (_, h) = refused-eq-ok (ends_before to_sequence from_sequence) _ _ h in
    let (_, h) = refused-eq-ok (any (λ e. not (e.facts.scope == scope)) es) _ _ h in
    let (_, h) = refused-eq-ok (out_of_order es) _ _ h in
    let fault = fault_of p from_sequence to_sequence es in
    let named = verdict_on-condition es scope from_sequence fault before v h in
    let same = condition_of_iff fault (fault_of-Named p from_sequence to_sequence es) in
    let whole = fault_of_iff p from_sequence to_sequence es in
    (λ e. whole.0 (same.0 (sym named ∙ e)), λ i. named ∙ same.1 (whole.1 i))
