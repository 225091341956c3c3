-- ===== src/Evidence/Grading.antt =====
-- The grade of a caller's access: `evaluate_grade` of
-- packages/control-plane/src/sayfirst_control_plane/domain/integrity_grade.py, with
-- packages/control-plane/src/sayfirst_control_plane/domain/write_reach.py and the facts of
-- packages/control-plane/src/sayfirst_control_plane/ports/path_access.py. A mode is a number, and a
-- mask of it is written with division.
pub mod Claims
use sayfirst_control_plane.Common.{
  ℕ, ◌+◌, ◌/◌, ◌%◌, ◌≤◌, ◌≡◌, ◌≢◌, ◌↔◌, ◌⊎◌, refl, sym, ap, ◌∙◌, Bool, true, false, not, ◌&&◌, ◌||◌,
  any, length, is_some, Option, none, some, List, [], ◌∷◌, String, ltb, if◌then◌else◌, ◌==◌, ==_iff,
  nat_keyed, option_keyed, arith, Bool-cases, Option-cases, inl, inr,
}
use mathlib.Core.Option.{some_inj}
use sayfirst_control_plane.Evidence.Verify.{
  Grade, unverified, observability, evidence, weakest, weakest_after, grade_rank,
}

pub record CallerAccess : Type 0 where
  pub uid : ℕ
  pub gids : List ℕ

-- What is known of a path; its name is not read.
pub record PathFacts : Type 0 where
  pub exists : Bool
  pub owner_uid : Option ℕ
  pub owner_gid : Option ℕ
  pub mode : Option ℕ
  pub acl_present : Option Bool

pub record GradeEvaluation : Type 0 where
  pub grade : Grade
  pub basis : String
  pub evaluated_at : ℕ
  pub paths_inspected : ℕ

abbrev pub mode_of : PathFacts → ℕ
mode_of f = elim f.mode [ none ↦ 0 | some m ↦ m ]

abbrev pub in_groups : Option ℕ → List ℕ → Bool
in_groups none gids = false
in_groups (some g) gids = any (λ h. g == h) gids

-- `caller.uid == fact.owner_uid`
abbrev pub owns : CallerAccess → PathFacts → Bool
owns caller f = f.owner_uid == some caller.uid

-- `_class_bits`
unfoldable pub class_bits : CallerAccess → PathFacts → ℕ
class_bits caller f =
    if owns caller f
    then mode_of f / 64 % 8
    else if in_groups f.owner_gid caller.gids
    then mode_of f / 8 % 8
    else mode_of f % 8

-- `write_reaches_the_entry_below`
unfoldable pub write_reaches_the_entry_below : ℕ → Bool → Bool → Bool → Bool
write_reaches_the_entry_below mode is_directory writer_owns_the_directory writer_owns_the_entry =
    if not is_directory
    then true
    else if mode / 512 % 2 == 0
    then true
    else writer_owns_the_directory || writer_owns_the_entry

abbrev pub is_false : Option Bool → Bool
is_false none = false
is_false (some b) = not b

abbrev pub is_established : PathFacts → Bool
is_established f =
    f.exists
    && (is_some f.owner_uid && (is_some f.owner_gid && (is_some f.mode && is_false f.acl_present)))

-- Whether a write of a path reaches what lies under it.
unfoldable pub reaches : CallerAccess → PathFacts → List PathFacts → Bool
unfolding write_reaches_the_entry_below
reaches caller f [] = true
reaches caller f (child ∷ rest) =
    not child.exists
    || write_reaches_the_entry_below (mode_of f) true (owns caller f) (owns caller child)

abbrev pub is_writable : CallerAccess → PathFacts → Bool
is_writable caller f = owns caller f || class_bits caller f / 2 % 2 == 1

abbrev pub is_searchable : CallerAccess → PathFacts → Bool
is_searchable caller f = class_bits caller f % 2 == 1

-- The loop over the paths: the number of those inspected, where a write reaches.
unfoldable pub inspect : CallerAccess → ℕ → Bool → List PathFacts → Option ℕ
unfolding reaches class_bits
inspect caller index reachable [] = none
inspect caller index reachable (f ∷ rest) =
    let later = inspect caller (index + 1) (reachable && is_searchable caller f) rest in
    if reachable && is_writable caller f && reaches caller f rest then some (index + 1) else later

abbrev pub evaluated : Grade → String → ℕ → ℕ → GradeEvaluation
evaluated grade basis at inspected = record {
  grade = grade;
  basis = basis;
  evaluated_at = at;
  paths_inspected = inspected;
}

abbrev pub is_empty : List PathFacts → Bool
is_empty [] = true
is_empty (f ∷ fs) = false

-- `evaluate_grade`
unfoldable pub evaluate_grade : CallerAccess → List PathFacts → ℕ → GradeEvaluation
unfolding inspect
evaluate_grade caller facts at =
    if caller.uid == 0
    then evaluated observability "caller_can_write" at (length facts)
    else if is_empty facts || any (λ f. not (is_established f)) facts
    then evaluated unverified "access_not_established" at (length facts)
    else elim (inspect caller 0 true facts) [
      | none ↦ evaluated unverified "caller_cannot_write" at (length facts)
      | some n ↦ evaluated observability "caller_can_write" at n
    ]
