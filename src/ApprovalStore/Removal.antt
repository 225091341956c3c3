-- ===== src/ApprovalStore/Removal.antt =====
-- The removal of a record from both indexes, which `abandon` and `forget_lapsed` make.
use sayfirst_control_plane.Common.{
  ◌≡◌, inl, inr, refl, subst, true, false, not, ◌||◌, ◌&&◌, Option, none, some, List, [], ◌∷◌,
  arith, if◌then◌else◌, Bool-cases, ok, pair_keyed, text_keyed, ◌==◌, ==_iff,
}
use sayfirst_control_plane.Common.Dict.{Dict, lookup, erase, lookup-insert, lookup-erase}
use sayfirst_control_plane.Common.Heap.{Heap, IsSorted}
use sayfirst_control_plane.Approval.{Approval, Question, Key, question_keyed}
use sayfirst_control_plane.ApprovalStore.Monad.{Store}
use sayfirst_control_plane.ApprovalStore.{remove_key, put_references, drop_record, get_or_empty}
use sayfirst_control_plane.ApprovalStore.Invariant.{
  Inv, Listed, Holds, Once, lists, IsDistinct, references_in, CoversLapses,
}

-- `left` is `keys` without `key`.
abbrev pub IsWithout : Key → List Key → List Key → Type 0
IsWithout key keys left =
    ((k : Key) → lists k left ≡ (lists k keys && not (key == k))) × IsDistinct left

remove_key-IsWithout :
    (key : Key) (keys : List Key)
    → IsDistinct keys
    → lists key keys ≡ true
    → (left : List Key) × (remove_key key keys ≡ some left) × IsWithout key keys left
unfolding remove_key
remove_key-IsWithout key [] d m = cc
remove_key-IsWithout key (j ∷ keys) d m = elim (Bool-cases (j == key)) [
  | inl here ↦ (keys, rw here, (λ k. gone k ((==_iff j key).0 here), d.1))
  | inr other ↦
      let (left, e, without) = remove_key-IsWithout key keys d.1 (ground arith) in
      (
        j ∷ left,
        ground arith,
        (λ k. kept_by left other k (without.0 k), (ground (arith, without.0 j), without.1)),
      )
]
  where
    gone : (k : Key) → j ≡ key → lists k keys ≡ (((j == k) || lists k keys) && not (key == k))
    gone k e = elim (Bool-cases (j == k)) [
      | inl h ↦ rw (← e, h) (subst (λ i. lists i keys ≡ false) ((==_iff j k).0 h) d.0)
      | inr h ↦ rw (← e, h) (ground arith)
    ]

    kept_by :
        (left : List Key)
        → (j == key) ≡ false
        → (k : Key) → lists k left ≡ (lists k keys && not (key == k))
        → ((j == k) || lists k left) ≡ (((j == k) || lists k keys) && not (key == k))
    kept_by left other k same = ground (arith, ==_iff j k, ==_iff key k, ==_iff j key)

references-put :
    (q r : Question) (left : List Key) (d : Dict Question (List Key))
    → references_in r (put_references q left d) ≡ (if q == r then left else references_in r d)
references-put q r [] d = elim (Bool-cases (q == r)) [
  | inl e ↦ rw (lookup-erase q r d, e)
  | inr e ↦ rw (lookup-erase q r d, e)
]
references-put q r (k ∷ left) d = elim (Bool-cases (q == r)) [
  | inl e ↦ rw (lookup-insert q r (k ∷ left) d, e)
  | inr e ↦ rw (lookup-insert q r (k ∷ left) d, e)
]

-- What the indexes are once a record is out of them.
module _ (key : Key) (kept : Approval) (s : Store) (v : Inv s)
    (found : lookup key s.by_reference ≡ some kept) (left : List Key)
    (without : IsWithout key (references_in kept.question s.by_question) left) where
  abbrev pub refs' : Dict Key Approval
  refs' = erase key s.by_reference

  abbrev pub by_question' : Dict Question (List Key)
  by_question' = put_references kept.question left s.by_question

  pub lookup-erase_some :
      (k : Key) (a : Approval)
      → lookup k refs' ≡ some a
      → ((key == k) ≡ false) × (lookup k s.by_reference ≡ some a)
  lookup-erase_some k a h = ground (arith, lookup-erase key k s.by_reference)

  drop-Listed : Listed refs' by_question'
  drop-Listed k a h =
      let (other, there) = lookup-erase_some k a h in
      rw (references-put kept.question a.question left s.by_question)
        (elim (Bool-cases (kept.question == a.question)) [
          | inl e ↦
              rw (e, without.0 k, (==_iff kept.question a.question).0 e, v.listed k a there, other)
          | inr e ↦ rw e (v.listed k a there)
        ])

  still_held :
      (q : Question) (k : Key)
      → (key == k) ≡ false
      → (a : Approval) × (lookup k s.by_reference ≡ some a) × (a.question ≡ q)
      → (a : Approval) × (lookup k refs' ≡ some a) × (a.question ≡ q)
  still_held q k other (a, there, asked) =
      (a, ground (arith, lookup-erase key k s.by_reference), asked)

  -- A key that another question lists is not the removed one.
  other_question :
      (q : Question) (k : Key)
      → (kept.question == q) ≡ false
      → (a : Approval) × (lookup k s.by_reference ≡ some a) × (a.question ≡ q)
      → (key == k) ≡ false
  other_question q k e (a, there, asked) = elim (Bool-cases (key == k)) [
    | inr h ↦ h
    | inl h ↦ absurd (clash ((==_iff key k).0 h))
  ]
    where
      clash : key ≡ k → ⊥
      clash here = ground (arith, ==_iff kept.question q)

  drop-Holds : Holds refs' by_question'
  drop-Holds q k h = elim (Bool-cases (kept.question == q)) [
    | inl e ↦
        let here = (==_iff kept.question q).0 e in
        let listed : lists k left ≡ true =
          ground (arith, references-put kept.question q left s.by_question) in
        still_held q k (ground (arith, without.0 k)) (
          v.holds q k (
            subst (λ r. lists k (references_in r s.by_question) ≡ true) here
              (ground (arith, without.0 k))))
    | inr e ↦
        let there =
          v.holds q k (ground (arith, references-put kept.question q left s.by_question)) in
        still_held q k (other_question q k e there) there
  ]

  drop-Once : Once by_question'
  drop-Once q =
      rw (references-put kept.question q left s.by_question)
        (elim (Bool-cases (kept.question == q)) [
          | inl e ↦ rw e without.1
          | inr e ↦ rw e (v.once q)
        ])

  -- The store without the record is well-formed, over any lapse index that covers what is left.
  pub drop-Inv :
      (lapsing : Heap Key)
      → CoversLapses refs' lapsing
      → IsSorted lapsing
      → Inv (record s { by_reference = refs'; by_question = by_question'; lapsing = lapsing })
  drop-Inv lapsing covers in_order = record {
    filed = λ k a h. v.filed k a (lookup-erase_some k a h).1;
    listed = drop-Listed;
    holds = drop-Holds;
    once = drop-Once;
    waits = λ k a h p. v.waits k a (lookup-erase_some k a h).1 p;
    lapses = covers;
    due_sorted = v.due_sorted;
    lapsing_sorted = in_order;
  }

abbrev pub without_record : Key → Approval → List Key → Store → Store
without_record key kept left s = record s {
  by_reference = erase key s.by_reference;
  by_question = put_references kept.question left s.by_question;
}

listed_keys :
    (key : Key) (o : Option (List Key))
    → lists key (get_or_empty o) ≡ true
    → o ≡ some (get_or_empty o)
listed_keys key none h = cc
listed_keys key (some ks) h = refl

-- The removal finds the key listed, so that it does not raise.
pub drop_record-run :
    (key : Key) (kept : Approval) (s : Store)
    → Listed s.by_reference s.by_question
    → Once s.by_question
    → lookup key s.by_reference ≡ some kept
    → (left : List Key) × IsWithout key (references_in kept.question s.by_question) left
      × (drop_record key kept.question s ≡ (ok tt, without_record key kept left s))
unfolding drop_record
drop_record-run key kept s all_listed once found =
    let listed = all_listed key kept found in
    let (left, e, without) =
      remove_key-IsWithout key (references_in kept.question s.by_question) (once kept.question)
        listed in
    let keys = listed_keys key (lookup kept.question s.by_question) listed in
    (left, without, ground arith)
