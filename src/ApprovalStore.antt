-- ===== src/ApprovalStore.antt =====
-- `ApprovalStore` of packages/control-plane/src/sayfirst_control_plane/application/approvals.py.
-- The clock's answer is the argument `now` of the methods that read it.
pub mod Monad
pub mod Acts
pub mod Sweeps
pub mod Invariant
pub mod Update
pub mod Removal
pub mod Records
pub mod Expiry
pub mod Forgetting
pub mod Keeping
pub mod Opening
pub mod Evolution
pub mod Lookup
pub mod Histories
pub mod Executions
pub mod Spends
pub mod Provider
use sayfirst_control_plane.Common.{
  ℕ, zero, suc, ◌+◌, ◌-◌, ◌≡◌, refl, Bool, true, false, not, ◌&&◌, ◌||◌, Option, none, some, List,
  [], ◌∷◌, ◌++◌, String, arith, ltb, leb, if◌then◌else◌, is_some, ◌==◌, Result, ok, err, ⊤,
  or_raise, length, Keyed, nat_keyed, text_keyed, pair_keyed,
}
use sayfirst_control_plane.Common.Dict.{Dict, lookup, insert, erase}
use sayfirst_control_plane.Common.Heap.{push}
use sayfirst_control_plane.Common.Text.{sorted}
use mathlib.Core.List.{reverse}
use sayfirst_control_plane.Approval.{
  Approval, Question, Key, key_of, pending, approved, rejected, expired, ApprovalState, is_pending,
  is_approved, is_rejected, is_expired, checked, state_at, question_keyed,
}
use Monad.{
  Store, StoreError, unknown, already_exists, already_resolved, already_claimed, opened_published,
  opened_ended, published_ended, not_abandonable, not_approved, release_consumed, release_unclaimed,
  already_consumed, not_claimed, key_error, not_in_list, assertion, Action, pure, raise, gets, lift,
  ◌>>=◌, ◌>>◌, raise_if, modify, accepted,
}

-- `ApprovalStore.__init__`
abbrev pub empty : Store
empty = record { by_reference = []; by_question = []; due = []; lapsing = [] }

-- `self._by_reference[key] = replace(…)`
unfoldable pub keep : Key → Approval → Action Approval
keep key a = do
  kept ← lift (accepted (checked a))
  modify (λ s. record s { by_reference = insert key kept s.by_reference })
  pure kept

-- `_lapse_instant`. The wait's length is positive, since a deadline follows its request.
unfoldable pub lapse_instant : Approval → Result StoreError (Option ℕ)
lapse_instant kept =
    if is_pending kept.state
    then ok none
    else if is_approved kept.state && not kept.consumed
    then ok none
    else elim (if kept.consumed then kept.consumed_at else kept.resolved_at) [
      | none ↦ err assertion
      | some t ↦ ok (some (t + (kept.deadline - kept.requested_at)))
    ]

-- `_is_of_no_further_use`
unfoldable pub is_of_no_further_use : Approval → ℕ → Result StoreError Bool
unfolding lapse_instant
is_of_no_further_use kept now = elim (lapse_instant kept) [
  | ok none ↦ ok false
  | ok (some t) ↦ ok (leb t now)
  | err e ↦ err e
]

-- `_index_lapse`
unfoldable pub index_lapse : Key → Approval → Action ⊤
unfolding lapse_instant
index_lapse key kept = do
  lapses_at ← lift (lapse_instant kept)
  modify (λ s. elim lapses_at [ none ↦ s | some t ↦ record s { lapsing = push t key s.lapsing } ])

abbrev pub get_or_empty : Option (List Key) → List Key
get_or_empty none = []
get_or_empty (some ks) = ks

-- `self._by_question.get(question, ())`
abbrev pub references : Question → Store → List Key
references q s = get_or_empty (lookup q s.by_question)

-- `read`
unfoldable pub read : String → String → Action Approval
read scope approval_ref s = (or_raise (lookup (scope, approval_ref) s.by_reference) unknown, s)

-- `open`
unfoldable pub open_wait : Approval → Action Approval
open_wait a = do
  raise_if a.published opened_published
  raise_if (not (is_pending a.state)) opened_ended
  raise_if (← gets (λ s. is_some (lookup (key_of a) s.by_reference))) already_exists
  modify (λ s. record s {
    by_reference = insert (key_of a) a s.by_reference;
    by_question = insert a.question (references a.question s ++ key_of a ∷ []) s.by_question;
    due = push a.deadline (key_of a) s.due;
  })
  pure a

-- The tests of `_newest_live` that pass a record over.
unfoldable pub passed_over : Bool → ℕ → Approval → Bool
unfolding state_at
passed_over in_flight now kept =
    kept.consumed
    || ((kept.claimed || not kept.published) && not in_flight
        || (is_expired (state_at kept now) || is_rejected kept.state && leb kept.deadline now))

-- `_newest_live`, over the references in the order of the walk.
unfoldable pub newest_in :
    Bool → ℕ → Dict Key Approval → List Key → Result StoreError (Option Approval)
newest_in in_flight now refs [] = ok none
newest_in in_flight now refs (key ∷ keys) =
    let rest = newest_in in_flight now refs keys in
    elim (lookup key refs) [
      | none ↦ err key_error
      | some kept ↦ if passed_over in_flight now kept then rest else ok (some kept)
    ]

unfoldable pub newest_live : Question → ℕ → Bool → Action (Option Approval)
newest_live q now in_flight s =
    (newest_in in_flight now s.by_reference (reverse (references q s)), s)

-- `find_for_question`
unfoldable pub find_for_question : Question → ℕ → Action (Option Approval)
find_for_question q now = newest_live q now false

-- `open_if_absent`
unfoldable pub open_if_absent : Approval → ℕ → Action Approval
open_if_absent a now = do
  found ← newest_live a.question now true
  elim found [ none ↦ open_wait a | some kept ↦ pure kept ]

-- `publish`
unfoldable pub publish : String → String → Action Approval
publish scope approval_ref = do
  kept ← read scope approval_ref
  raise_if (not (is_pending kept.state)) published_ended
  if kept.published
      then pure kept
      else keep (scope, approval_ref) (record kept { published = true })

-- `list.remove`: the first occurrence.
unfoldable pub remove_key : Key → List Key → Option (List Key)
remove_key key [] = none
remove_key key (k ∷ ks) =
    let rest = remove_key key ks in
    if k == key then some ks else elim rest [ none ↦ none | some r ↦ some (k ∷ r) ]

abbrev pub put_references :
    Question → List Key → Dict Question (List Key) → Dict Question (List Key)
put_references q [] d = erase q d
put_references q (k ∷ ks) d = insert q (k ∷ ks) d

-- The deletion from both indexes that `abandon` and `forget_lapsed` make.
unfoldable pub drop_record : Key → Question → Action ⊤
unfolding remove_key
drop_record key q = do
  modify (λ s. record s { by_reference = erase key s.by_reference })
  kept_references ← gets (λ s. lookup q s.by_question)
  elim kept_references [
    | none ↦ pure tt
    | some keys ↦ elim (remove_key key keys) [
      | none ↦ raise not_in_list
      | some left ↦ modify (λ s. record s { by_question = put_references q left s.by_question })
    ]
  ]

-- `abandon`
unfoldable pub abandon : String → String → Action Approval
abandon scope approval_ref = do
  kept ← read scope approval_ref
  raise_if (not (is_pending kept.state) || (kept.claimed || kept.published)) not_abandonable
  drop_record (scope, approval_ref) kept.question
  pure kept
