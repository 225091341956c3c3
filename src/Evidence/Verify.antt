-- ===== src/Evidence/Verify.antt =====
-- The verification of a range of a chain, `verify` of
-- packages/control-plane/src/sayfirst_control_plane/domain/evidence_chain.py, with the grades of
-- packages/control-plane/src/sayfirst_control_plane/domain/integrity_grade.py.
pub mod Faults
pub mod Intact
use sayfirst_control_plane.Common.{
  ℕ, zero, suc, ◌+◌, ◌≡◌, Bool, true, false, ◌&&◌, ◌||◌, not, Option, none, some, List, [], ◌∷◌,
  ◌++◌, map, String, ◌==◌, text_keyed, nat_keyed, option_keyed, leb, ltb, if◌then◌else◌, is_some,
  Result, ok, err, ⊤, refuse_if, or_raise, ◌>>=◌, ◌>>◌, any, take, select,
}
use sayfirst_control_plane.Common.Dict.{Dict, lookup, insert}
use sayfirst_control_plane.Common.Text.{sorted}
use sayfirst_control_plane.Evidence.Value.{Value, Body, value_at, text}
use sayfirst_control_plane.Evidence.Kinds.{text_or_empty, natural_or_zero}
use sayfirst_control_plane.Evidence.Records.{EvidenceRecord, EvidenceEntry}
use sayfirst_control_plane.Evidence.Chain.{Primitives, preimage_version, recomputed}

pub data Grade : Type 0 where
  unverified observability evidence : Grade

-- `GRADE_RANK`
abbrev pub grade_rank : Grade → ℕ
grade_rank unverified = 0
grade_rank observability = 1
grade_rank evidence = 2

-- `min(values, key=GRADE_RANK.__getitem__)`, after the first value.
unfoldable pub weakest_after : Grade → List Grade → Grade
weakest_after g [] = g
weakest_after g (h ∷ hs) = weakest_after (if ltb (grade_rank h) (grade_rank g) then h else g) hs

-- `weakest`
unfoldable pub weakest : List Grade → Grade
unfolding weakest_after
weakest [] = unverified
weakest (g ∷ gs) = weakest_after g gs

-- `Grade(…)`
abbrev pub grade_named : String → Option Grade
grade_named s =
    if s == "unverified"
    then some unverified
    else if s == "observability"
    then some observability
    else if s == "evidence"
    then some evidence
    else none

pub data ChainCondition : Type 0 where
  intact broken_at gap_at unverifiable : ChainCondition

pub record DeclaredGap : Type 0 where
  pub sequence : ℕ
  pub reason : String
  pub count : ℕ

pub record ConnectionGrade : Type 0 where
  pub connection_id : String
  pub grade : Grade

pub record ChainVerdict : Type 0 where
  pub scope : String
  pub condition : ChainCondition
  pub from_sequence : ℕ
  pub to_sequence : Option ℕ
  pub up_to : Option ℕ
  pub sequence : Option ℕ
  pub expected : Option String
  pub found : Option String
  pub version : Option String
  pub covers_an_entry : Bool
  pub declared_gaps : List DeclaredGap
  pub grades : List ConnectionGrade

abbrev pub grade_or : Grade → Option Grade → Grade
grade_or g none = g
grade_or g (some h) = h

abbrev pub listed : Option (List Grade) → List Grade
listed none = []
listed (some gs) = gs

-- The grades in force after an entry.
unfoldable pub graded : EvidenceEntry → Dict String Grade → Result String (Dict String Grade)
graded e current =
    if e.facts.kind == "grade"
    then (do
      g ← or_raise (grade_named (text_or_empty (value_at "grade" e.facts.body))) "not a valid Grade"
      ok (insert e.facts.connection_id g current))
    else ok current

-- The loop of `_grades`.
unfoldable pub grades_loop :
    List EvidenceEntry
    → Dict String Grade
    → Dict String (List Grade)
    → Result String (Dict String (List Grade))
unfolding graded
grades_loop [] current covered = ok covered
grades_loop (e ∷ es) current covered = do
  now ← graded e current
  grades_loop es now (
      insert e.facts.connection_id
        (listed (lookup e.facts.connection_id covered)
          ++ grade_or unverified (lookup e.facts.connection_id now) ∷ [])
        covered)

-- `_grades`
unfoldable pub grades :
    List EvidenceEntry → Dict String Grade → Result String (List ConnectionGrade)
unfolding grades_loop
grades es before = do
  covered ← grades_loop es before []
  ok (
      map (λ c. record { connection_id = c.0; grade = weakest c.1 })
        (sorted (λ c. (c.0, "")) covered))

-- What the checks of a range find, and how many of its entries are graded; all where it is `none`.
pub record Fault : Type 0 where
  pub condition : ChainCondition
  pub sequence : Option ℕ
  pub expected : Option String
  pub found : Option String
  pub version : Option String
  pub covered : Option ℕ

abbrev pub gap_before : ℕ → Option ℕ → Fault
gap_before sequence covered = record {
  condition = gap_at;
  sequence = some sequence;
  expected = none;
  found = none;
  version = none;
  covered = covered;
}

abbrev pub first_fault : Option Fault → Option Fault → Option Fault
first_fault (some f) rest = some f
first_fault none rest = rest

abbrev pub last_sequence : EvidenceEntry → List EvidenceEntry → ℕ
last_sequence e [] = e.sequence
last_sequence e (f ∷ fs) = last_sequence f fs

-- The loop over neighbours that looks for a missing number; `index` counts the entries before.
unfoldable pub missing : ℕ → List EvidenceEntry → Option Fault
missing index [] = none
missing index (e ∷ []) = none
missing index (e ∷ f ∷ rest) =
    first_fault
      (if f.sequence == e.sequence + 1
        then none
        else some (gap_before (e.sequence + 1) (some index)))
      (missing (index + 1) (f ∷ rest))

-- Entries that stop short of the end that was asked for.
abbrev pub short_of : Option ℕ → ℕ → Option Fault
short_of none last = none
short_of (some to) last = if ltb last to then some (gap_before (last + 1) none) else none

abbrev pub broken : ℕ → String → Option String → ℕ → Fault
broken sequence expected found index = record {
  condition = broken_at;
  sequence = some sequence;
  expected = some expected;
  found = found;
  version = none;
  covered = some index;
}

abbrev pub unreadable : EvidenceEntry → ℕ → Fault
unreadable e index = record {
  condition = unverifiable;
  sequence = some e.sequence;
  expected = none;
  found = some e.entry_hash;
  version = some e.preimage_version;
  covered = some index;
}

-- What a recomputed hash says of an entry.
abbrev pub compared_hash : EvidenceEntry → ℕ → Result String String → Option Fault
compared_hash e index (err m) = some (unreadable e index)
compared_hash e index (ok expected) =
    if expected == e.entry_hash
    then none
    else some (broken e.sequence expected (some e.entry_hash) index)

-- The loop over neighbours that compares the hash named with the predecessor's.
unfoldable pub unlinked : ℕ → List EvidenceEntry → Option Fault
unlinked index [] = none
unlinked index (e ∷ []) = none
unlinked index (e ∷ f ∷ rest) =
    first_fault
      (if f.previous_hash == some e.entry_hash
        then none
        else some (broken f.sequence e.entry_hash f.previous_hash index))
      (unlinked (index + 1) (f ∷ rest))

-- The refusals at the head of `verify`.
unfoldable pub out_of_order : List EvidenceEntry → Bool
out_of_order [] = false
out_of_order (e ∷ []) = false
out_of_order (e ∷ f ∷ rest) = leb f.sequence e.sequence || out_of_order (f ∷ rest)

abbrev pub ends_before : Option ℕ → ℕ → Bool
ends_before none from_sequence = false
ends_before (some to) from_sequence = ltb to from_sequence

module _ (p : Primitives) where
  unfoldable pub hash_fault : ℕ → EvidenceEntry → Option Fault
  hash_fault index e =
      if not (e.preimage_version == preimage_version)
      then some (unreadable e index)
      else compared_hash e index (recomputed p e)

  -- The loop over the entries that recomputes their hashes.
  unfoldable pub unsound : ℕ → List EvidenceEntry → Option Fault
  unfolding hash_fault
  unsound index [] = none
  unsound index (e ∷ es) = first_fault (hash_fault index e) (unsound (index + 1) es)

  -- The first fault of a range, in the order of the checks of `verify`.
  unfoldable pub fault_of : ℕ → Option ℕ → List EvidenceEntry → Option Fault
  unfolding missing unsound unlinked
  fault_of from_sequence none [] = some (record {
    condition = unverifiable;
    sequence = none;
    expected = none;
    found = none;
    version = none;
    covered = none;
  })
  fault_of from_sequence (some to) [] = some (gap_before from_sequence (some 0))
  fault_of from_sequence to_sequence (e ∷ es) =
      if not (e.sequence == from_sequence)
      then some (gap_before from_sequence (some 0))
      else first_fault (missing 1 (e ∷ es)) (
          first_fault (short_of to_sequence (last_sequence e es))
            (first_fault (unsound 0 (e ∷ es)) (unlinked 1 (e ∷ es))))

abbrev pub condition_of : Option Fault → ChainCondition
condition_of none = intact
condition_of (some f) = f.condition

abbrev pub of_fault : {A : Type 0} → (Fault → Option A) → Option Fault → Option A
of_fault get none = none
of_fault get (some f) = get f

abbrev pub taken : Option ℕ → List EvidenceEntry → List EvidenceEntry
taken none es = es
taken (some n) es = take n es

abbrev pub end_of : List EvidenceEntry → Option ℕ
end_of [] = none
end_of (e ∷ es) = some (last_sequence e es)

abbrev pub covers : List EvidenceEntry → Bool
covers [] = false
covers (e ∷ es) = true

abbrev pub gap_of : EvidenceEntry → DeclaredGap
gap_of e = record {
  sequence = e.sequence;
  reason = text_or_empty (value_at "reason" e.facts.body);
  count = natural_or_zero (value_at "count" e.facts.body);
}

-- `_verdict`, from the fault that ends the checks.
unfoldable pub verdict_on :
    List EvidenceEntry → String → ℕ → Option Fault → Dict String Grade → Result String ChainVerdict
unfolding grades
verdict_on es scope from_sequence fault before = do
  found_grades ← grades (taken (of_fault (λ f. f.covered) fault) es) before
  ok (record {
    scope = scope;
    condition = condition_of fault;
    from_sequence = from_sequence;
    to_sequence = end_of es;
    up_to = elim fault [ none ↦ end_of es | some f ↦ none ];
    sequence = of_fault (λ f. f.sequence) fault;
    expected = of_fault (λ f. f.expected) fault;
    found = of_fault (λ f. f.found) fault;
    version = of_fault (λ f. f.version) fault;
    covers_an_entry = covers es;
    declared_gaps = map gap_of (select (λ e. e.facts.kind == "gap") es);
    grades = found_grades;
  })

-- `verify`
unfoldable pub verify :
    Primitives
    → List EvidenceEntry
    → String
    → ℕ
    → Option ℕ
    → Dict String Grade
    → Result String ChainVerdict
unfolding out_of_order fault_of verdict_on
verify p es scope from_sequence to_sequence before = do
  refuse_if (scope == "") "scope is required"
  refuse_if (ltb from_sequence 1) "from_sequence is before the first sequence"
  refuse_if (ends_before to_sequence from_sequence) "to_sequence is before from_sequence"
  refuse_if (any (λ e. not (e.facts.scope == scope)) es)
      "entries from another scope cannot be verified here"
  refuse_if (out_of_order es) "entries are out of sequence order"
  verdict_on es scope from_sequence (fault_of p from_sequence to_sequence es) before
