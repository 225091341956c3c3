-- ===== src/ApprovalStore/Invariant.antt =====
-- The well-formedness of the store: its two indexes and its two heaps agree with the records.
use sayfirst_control_plane.Common.{
  ℕ, ◌≡◌, ◌≢◌, ◌⊎◌, inl, inr, Bool, true, false, ◌||◌, some, List, [], ◌∷◌, arith, Bool-cases, ok,
  ◌==◌, ==_iff, pair_keyed, text_keyed,
}
use sayfirst_control_plane.Common.Dict.{Dict, lookup, insert, lookup-insert}
use sayfirst_control_plane.Common.Heap.{Heap, IsSorted, Due}
use sayfirst_control_plane.Approval.{Approval, Question, Key, key_of, is_pending, question_keyed}
use sayfirst_control_plane.Approval.Validity.{IsValid}
use sayfirst_control_plane.ApprovalStore.Monad.{Store}
use sayfirst_control_plane.ApprovalStore.{lapse_instant, get_or_empty}

-- Whether the key is listed.
abbrev pub lists : Key → List Key → Bool
lists key [] = false
lists key (k ∷ ks) = (k == key) || lists key ks

abbrev pub IsDistinct : List Key → Type 0
IsDistinct [] = Unit
IsDistinct (k ∷ ks) = (lists k ks ≡ false) × IsDistinct ks

abbrev pub references_in : Question → Dict Question (List Key) → List Key
references_in q d = get_or_empty (lookup q d)

-- Every record is valid, and stands under its own key.
abbrev pub Filed : Dict Key Approval → Type 0
Filed refs = (k : Key) (a : Approval) → lookup k refs ≡ some a → (key_of a ≡ k) × IsValid a

-- Every record is listed under its question, once, and the lists hold nothing else.
abbrev pub Listed : Dict Key Approval → Dict Question (List Key) → Type 0
Listed refs by_question =
    (k : Key) (a : Approval)
    → lookup k refs ≡ some a
    → lists k (references_in a.question by_question) ≡ true

abbrev pub Holds : Dict Key Approval → Dict Question (List Key) → Type 0
Holds refs by_question =
    (q : Question) (k : Key)
    → lists k (references_in q by_question) ≡ true
    → (a : Approval) × (lookup k refs ≡ some a) × (a.question ≡ q)

abbrev pub Once : Dict Question (List Key) → Type 0
Once by_question = (q : Question) → IsDistinct (references_in q by_question)

-- Every pending wait has an entry that is due at its deadline or before.
abbrev pub CoversWaits : Dict Key Approval → Heap Key → Type 0
CoversWaits refs due =
    (k : Key) (a : Approval)
    → lookup k refs ≡ some a
    → is_pending a.state ≡ true
    → Due k a.deadline due

-- Every record that lapses has an entry at the instant it lapses or before.
abbrev pub CoversLapses : Dict Key Approval → Heap Key → Type 0
CoversLapses refs lapsing =
    (k : Key) (a : Approval) (t : ℕ)
    → lookup k refs ≡ some a
    → lapse_instant a ≡ ok (some t)
    → Due k t lapsing

pub record Inv (s : Store) : Type 0 where
  pub filed : Filed s.by_reference
  pub listed : Listed s.by_reference s.by_question
  pub holds : Holds s.by_reference s.by_question
  pub once : Once s.by_question
  pub waits : CoversWaits s.by_reference s.due
  pub lapses : CoversLapses s.by_reference s.lapsing
  pub due_sorted : IsSorted s.due
  pub lapsing_sorted : IsSorted s.lapsing

-- A lookup after a write finds the new record, or what was there at another key.
pub lookup-insert_cases :
    (key k : Key) (a b : Approval) (refs : Dict Key Approval)
    → lookup k (insert key b refs) ≡ some a
    → ((key ≡ k) × (b ≡ a)) ⊎ ((key ≢ k) × (lookup k refs ≡ some a))
lookup-insert_cases key k a b refs h = elim (Bool-cases (key == k)) [
  | inl e ↦ inl ((==_iff key k).0 e, ground (arith, lookup-insert key k b refs))
  | inr e ↦ inr (λ p. ground (arith, ==_iff key k), ground (arith, lookup-insert key k b refs))
]
