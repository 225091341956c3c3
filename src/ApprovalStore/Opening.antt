-- ===== src/ApprovalStore/Opening.antt =====
-- The well-formedness of the store at `open`, `open_if_absent` and `abandon`:
-- packages/control-plane/src/sayfirst_control_plane/application/approvals.py.
use sayfirst_control_plane.Common.{
  ℕ, ◌≡◌, ◌⊎◌, inl, inr, refl, ap, subst, true, false, not, ◌||◌, Option, none, some, List, [], ◌∷◌,
  ◌++◌, String, arith, if◌then◌else◌, Bool-cases, Option-cases, ok, err, pair_keyed, text_keyed,
  Result, ◌==◌, ==_iff, ==_self,
}
use sayfirst_control_plane.Common.Dict.{lookup, insert, lookup-insert}
use sayfirst_control_plane.Common.Heap.{push, push-IsSorted, push-Due, push-Due_self}
use mathlib.Core.List.{reverse}
use sayfirst_control_plane.Approval.{Approval, Question, Key, key_of, is_pending, question_keyed}
use sayfirst_control_plane.Approval.Validity.{IsValid}
use sayfirst_control_plane.ApprovalStore.Monad.{pure, Store, StoreError, ◌>>=◌, ◌>>◌, continue}
use sayfirst_control_plane.ApprovalStore.{
  lapse_instant, open_wait, open_if_absent, abandon, read, newest_live, newest_in, references,
  drop_record, empty,
}
use sayfirst_control_plane.ApprovalStore.Invariant.{
  Inv, lists, references_in, Listed, Holds, IsDistinct, lookup-insert_cases,
}
use sayfirst_control_plane.ApprovalStore.Records.{lapse-pending}
use sayfirst_control_plane.ApprovalStore.Removal.{lookup-erase_some, drop_record-run, drop-Inv}

pub empty-Inv : Inv empty
unfolding lookup
empty-Inv = record {
  filed = λ k a h. cc;
  listed = λ k a h. cc;
  holds = λ q k h. cc;
  once = λ q. tt;
  waits = λ k a h p. cc;
  lapses = λ k a t h p. cc;
  due_sorted = tt;
  lapsing_sorted = tt;
}

pub lists-append : (k j : Key) (ks : List Key) → lists k (ks ++ j ∷ []) ≡ (lists k ks || (j == k))
lists-append k j [] = ground arith
lists-append k j (i ∷ ks) = ground (arith, lists-append k j ks)

append-IsDistinct :
    (j : Key) (ks : List Key) → IsDistinct ks → lists j ks ≡ false → IsDistinct (ks ++ j ∷ [])
append-IsDistinct j [] d fresh = (refl, tt)
append-IsDistinct j (i ∷ ks) d fresh = (
  ground (arith, lists-append i j ks, ==_iff i j, ==_iff j i),
  append-IsDistinct j ks d.1 (ground arith),
)

-- The store after the opening of a new wait.
abbrev pub opened : Approval → Store → Store
opened a s = record s {
  by_reference = insert (key_of a) a s.by_reference;
  by_question = insert a.question (references a.question s ++ key_of a ∷ []) s.by_question;
  due = push a.deadline (key_of a) s.due;
}

module _ (a : Approval) (s : Store) (v : Inv s) (valid : IsValid a)
    (fresh : lookup (key_of a) s.by_reference ≡ none) (waiting : is_pending a.state ≡ true) where
  references-opened :
      (q : Question)
      → references_in q (opened a s).by_question
        ≡ (if a.question == q then references a.question s ++ key_of a ∷ [] else references q s)
  references-opened q = elim (Bool-cases (a.question == q)) [
    | inl e ↦
        rw (lookup-insert a.question q (references a.question s ++ key_of a ∷ []) s.by_question, e)
    | inr e ↦
        rw (lookup-insert a.question q (references a.question s ++ key_of a ∷ []) s.by_question, e)
  ]

  unlisted : (q : Question) → lists (key_of a) (references q s) ≡ false
  unlisted q = elim (Bool-cases (lists (key_of a) (references q s))) [
    | inr e ↦ e
    | inl e ↦ clash (v.holds q (key_of a) e)
  ]
    where
      clash :
          (b : Approval) × (lookup (key_of a) s.by_reference ≡ some b) × (b.question ≡ q)
          → lists (key_of a) (references q s) ≡ false
      clash (b, there, _) = cc

  opened-Listed : Listed (opened a s).by_reference (opened a s).by_question
  opened-Listed k b h = elim (lookup-insert_cases (key_of a) k b a s.by_reference h) [
    | inl (here, e) ↦
        rw (← e, ← here)
          (ground (
            arith,
            references-opened a.question,
            ==_self a.question,
            lists-append (key_of a) (key_of a) (references a.question s),
            ==_self (key_of a),
          ))
    | inr (_, there) ↦ elim (Bool-cases (a.question == b.question)) [
      | inl e ↦ rw (
        references-opened b.question,
        e,
        lists-append k (key_of a) (references a.question s),
        (==_iff a.question b.question).0 e,
        v.listed k b there,
      )
      | inr e ↦ rw (references-opened b.question, e) (v.listed k b there)
    ]
  ]

  still_held :
      (q : Question) (k : Key)
      → (b : Approval) × (lookup k s.by_reference ≡ some b) × (b.question ≡ q)
      → (b : Approval) × (lookup k (opened a s).by_reference ≡ some b) × (b.question ≡ q)
  still_held q k (b, there, asked) =
      (b, ground (arith, lookup-insert (key_of a) k a s.by_reference, ==_iff (key_of a) k), asked)

  opened-Holds : Holds (opened a s).by_reference (opened a s).by_question
  opened-Holds q k h = elim (Bool-cases (a.question == q)) [
    | inr e ↦ still_held q k (v.holds q k (ground (arith, references-opened q)))
    | inl e ↦ elim (Bool-cases (key_of a == k)) [
      | inl here ↦ (
        a,
        ground (arith, lookup-insert (key_of a) k a s.by_reference),
        (==_iff a.question q).0 e,
      )
      | inr other ↦ still_held q k (
          subst (λ r. (b : Approval) × (lookup k s.by_reference ≡ some b) × (b.question ≡ r))
            ((==_iff a.question q).0 e)
            (v.holds a.question k (
              ground
                (arith, references-opened q, lists-append k (key_of a) (references a.question s)))))
    ]
  ]

  opened-Inv : Inv (opened a s)
  opened-Inv = record {
    filed = λ k b h. elim (lookup-insert_cases (key_of a) k b a s.by_reference h) [
      | inl (here, e) ↦ rw (← e) (here, valid)
      | inr (_, there) ↦ v.filed k b there
    ];
    listed = opened-Listed;
    holds = opened-Holds;
    once = λ q. rw (references-opened q) (elim (Bool-cases (a.question == q)) [
      | inl e ↦ rw e (
          append-IsDistinct (key_of a) (references a.question s) (v.once a.question)
            (unlisted a.question))
      | inr e ↦ rw e (v.once q)
    ]);
    waits = λ k b h p. elim (lookup-insert_cases (key_of a) k b a s.by_reference h) [
      | inl (here, e) ↦ rw (← e, ← here) (push-Due_self a.deadline (key_of a) s.due)
      | inr (_, there) ↦ push-Due a.deadline b.deadline (key_of a) k s.due (v.waits k b there p)
    ];
    lapses = λ k b t h p. elim (lookup-insert_cases (key_of a) k b a s.by_reference h) [
      | inl (here, e) ↦
          cc (lapse-pending a waiting, ap {B = Result StoreError (Option ℕ)} lapse_instant e)
      | inr (_, there) ↦ v.lapses k b t there p
    ];
    due_sorted = push-IsSorted a.deadline (key_of a) s.due v.due_sorted;
    lapsing_sorted = v.lapsing_sorted;
  }

pub open_wait-cases :
    (a : Approval) (s : Store)
    → ((open_wait a s).1 ≡ s)
      ⊎ ((lookup (key_of a) s.by_reference ≡ none)
          × (is_pending a.state ≡ true)
          × (a.published ≡ false)
          × (open_wait a s ≡ (ok a, opened a s)))
unfolding open_wait
open_wait-cases a s = elim (Option-cases (lookup (key_of a) s.by_reference)) [
  | inr (b, taken) ↦ inl (ground arith)
  | inl fresh ↦ elim (Bool-cases (is_pending a.state)) [
    | inr ended ↦ inl (ground arith)
    | inl waiting ↦ elim (Bool-cases a.published) [
      | inl told ↦ inl (ground arith)
      | inr untold ↦ inr (fresh, waiting, untold, ground arith)
    ]
  ]
]

pub open_wait-Inv : (a : Approval) (s : Store) → Inv s → IsValid a → Inv (open_wait a s).1
open_wait-Inv a s v valid = elim (open_wait-cases a s) [
  | inl same ↦ rw same v
  | inr (fresh, waiting, _, run) ↦ rw run (opened-Inv a s v valid fresh waiting)
]

pub open_if_absent-Inv :
    (a : Approval) (now : ℕ) (s : Store) → Inv s → IsValid a → Inv (open_if_absent a now s).1
unfolding open_if_absent newest_live
open_if_absent-Inv a now s v valid =
    go (newest_in true now s.by_reference (reverse (references a.question s)))
  where
    go :
        (r : Result StoreError (Option Approval))
        → Inv (continue (elim [ none ↦ open_wait a | some kept ↦ pure kept ]) (r, s)).1
    go (err e) = v
    go (ok none) = open_wait-Inv a s v valid
    go (ok (some kept)) = v

pub abandon-Inv : (scope ref : String) (s : Store) → Inv s → Inv (abandon scope ref s).1
unfolding abandon read
abandon-Inv scope ref s v = elim (Option-cases (lookup (scope, ref) s.by_reference)) [
  | inl missing ↦ rw missing v
  | inr (kept, found) ↦
      rw found
        (elim (Bool-cases (not (is_pending kept.state) || (kept.claimed || kept.published))) [
          | inl refused ↦ rw refused v
          | inr free ↦ rw free (drop kept found)
        ])
]
  where
    drop :
        (kept : Approval)
        → lookup (scope, ref) s.by_reference ≡ some kept
        → Inv ((drop_record (scope, ref) kept.question >> pure kept) s).1
    drop kept found =
        let (left, without, run) = drop_record-run (scope, ref) kept s v.listed v.once found in
        rw (run, ◌>>◌, ◌>>=◌)
          (drop-Inv (scope, ref) kept s v found left without s.lapsing
            (λ k a t h p.
              v.lapses k a t (lookup-erase_some (scope, ref) kept s v found left without k a h).1 p)
            v.lapsing_sorted)
