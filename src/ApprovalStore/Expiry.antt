-- ===== src/ApprovalStore/Expiry.antt =====
-- `expire_past` against its reference: a walk over every record that ends each overdue wait.
use sayfirst_control_plane.Common.{
  ℕ, zero, suc, ◌≤◌, ◌≡◌, inl, inr, refl, sym, ap, ◌∙◌, true, false, ◌&&◌, Option, none, some, List,
  [], ◌∷◌, arith, leb, ltb, if◌then◌else◌, Bool-cases, Option-cases, ok, pair_keyed, text_keyed,
  Result, ◌==◌, ==_iff, length,
}
use sayfirst_control_plane.Common.Dict.{Dict, lookup, insert, lookup-insert, lookup-insert_self}
use sayfirst_control_plane.Common.Text.{sorted}
use sayfirst_control_plane.Common.Heap.{
  From-mono, Heap, Due, From, push, push-IsSorted, push-Due, push-Due_self, Due-From, overdue,
  overdue-push, overdue-le,
}
use sayfirst_control_plane.Approval.{Approval, Key, key_of, is_pending}
use sayfirst_control_plane.Approval.Validity.{IsValid}
use sayfirst_control_plane.ApprovalStore.Monad.{Store, StoreError}
use sayfirst_control_plane.ApprovalStore.Acts.{ended_unread}
use sayfirst_control_plane.ApprovalStore.Sweeps.{
  cons_some, expire_record, expire_kept, expire_entry, expire_loop, expire_past,
}
use sayfirst_control_plane.ApprovalStore.Invariant.{Inv, CoversWaits}
use sayfirst_control_plane.ApprovalStore.Records.{
  index_lapse-some, with_lapse, with_lapse-Inv, keep-ok, lapse_after, ended_unread-IsValid,
  lapse-ended_unread,
}

-- The reference: what the sweep at `now` makes of one record.
abbrev pub expire_at : ℕ → Approval → Approval
expire_at now a = if is_pending a.state && leb a.deadline now then ended_unread a else a

abbrev pub revised : (Approval → Approval) → Option Approval → Option Approval
revised f none = none
revised f (some a) = some (f a)

expire_at_twice : (now : ℕ) (a : Approval) → expire_at now (expire_at now a) ≡ expire_at now a
expire_at_twice now a = ground arith

-- The records of `t` are what the reference makes of those of `s`.
abbrev pub Agrees : ℕ → Dict Key Approval → Dict Key Approval → Type 0
Agrees now before after =
    (k : Key) → revised (expire_at now) (lookup k after) ≡ revised (expire_at now) (lookup k before)

-- An entry that names no pending wait can go.
pop-Inv :
    (t : ℕ) (key : Key) (rest : Heap Key) (s : Store)
    → Inv (record s { due = (t, key) ∷ rest })
    → ((a : Approval) → lookup key s.by_reference ≡ some a → is_pending a.state ≡ false)
    → Inv (record s { due = rest })
pop-Inv t key rest s v idle = record {
  filed = v.filed;
  listed = v.listed;
  holds = v.holds;
  once = v.once;
  waits = still_due;
  lapses = v.lapses;
  due_sorted = v.due_sorted.1;
  lapsing_sorted = v.lapsing_sorted;
}
  where
    still_due : CoversWaits s.by_reference rest
    still_due k a h p = elim (v.waits k a h p) [
      | inl (here, _) ↦ cc (idle a (rw here h))
      | inr there ↦ there
    ]

-- An entry of a wait that is not over yet goes back at the wait's own deadline.
repush-Inv :
    (t : ℕ) (key : Key) (rest : Heap Key) (s : Store) (kept : Approval)
    → Inv (record s { due = (t, key) ∷ rest })
    → lookup key s.by_reference ≡ some kept
    → Inv (record s { due = push kept.deadline key rest })
repush-Inv t key rest s kept v found = record {
  filed = v.filed;
  listed = v.listed;
  holds = v.holds;
  once = v.once;
  waits = still_due;
  lapses = v.lapses;
  due_sorted = push-IsSorted kept.deadline key rest v.due_sorted.1;
  lapsing_sorted = v.lapsing_sorted;
}
  where
    here_due :
        (k : Key) (a : Approval)
        → key ≡ k
        → kept ≡ a
        → Due k a.deadline (push kept.deadline key rest)
    here_due k a e f = rw (← e, ← f) (push-Due_self kept.deadline key rest)

    still_due : CoversWaits s.by_reference (push kept.deadline key rest)
    still_due k a h p = elim (v.waits k a h p) [
      | inl (here, _) ↦
          here_due k a here (cc (ap {B = Option Approval} (λ j. lookup j s.by_reference) here))
      | inr there ↦ push-Due kept.deadline a.deadline key k rest there
    ]

-- What the sweep's store is after one entry.
abbrev After : ℕ → Heap Key → Store → Result StoreError (Option Approval) × Store → Type 0
After now rest s r =
    (ended : Option Approval) × (s' : Store) × (r ≡ (ok ended, s'))
    × Inv s'
    × (overdue now s'.due ≡ overdue now rest)
    × Agrees now s.by_reference s'.by_reference

insert-Agrees :
    (now : ℕ) (key : Key) (kept : Approval) (refs : Dict Key Approval)
    → lookup key refs ≡ some kept
    → Agrees now refs (insert key (expire_at now kept) refs)
insert-Agrees now key kept refs found k = elim (Bool-cases (key == k)) [
  | inl e ↦
      let here = (==_iff key k).0 e in
      rw (lookup-insert key k (expire_at now kept) refs, e)
        (ap some (expire_at_twice now kept)
          ∙ ap (revised (expire_at now)) (sym found ∙ ap (λ j. lookup j refs) here))
  | inr e ↦ rw (lookup-insert key k (expire_at now kept) refs, e)
]

expire_record-run :
    (key : Key) (kept : Approval) (s : Store)
    → IsValid kept
    → is_pending kept.state ≡ true
    → expire_record key kept s ≡ (ok (some (ended_unread kept)), with_lapse key kept s)
unfolding expire_record
expire_record-run key kept s valid p = ground (
  arith,
  keep-ok key (ended_unread kept) s (ended_unread-IsValid kept p valid),
  index_lapse-some key (ended_unread kept) (lapse_after kept.deadline kept)
      (record s { by_reference = insert key (ended_unread kept) s.by_reference })
      (lapse-ended_unread kept p valid),
)

expire_record-After :
    (now t : ℕ) (key : Key) (rest : Heap Key) (s : Store) (kept : Approval)
    → Inv (record s { due = (t, key) ∷ rest })
    → lookup key s.by_reference ≡ some kept
    → is_pending kept.state ≡ true
    → ltb now kept.deadline ≡ false
    → After now rest s (expire_record key kept (record s { due = rest }))
expire_record-After now t key rest s kept v found p over = (
  some (ended_unread kept),
  with_lapse key kept (record s { due = rest }),
  expire_record-run key kept (record s { due = rest }) (v.filed key kept found).1 p,
  pop-Inv t key rest (with_lapse key kept s)
      (with_lapse-Inv key kept (record s { due = (t, key) ∷ rest }) v found p) idle,
  refl,
  rw (← ended) at (insert-Agrees now key kept s.by_reference found),
)
  where
    ended : ended_unread kept ≡ expire_at now kept
    ended = ground arith

    idle :
        (a : Approval)
        → lookup key (insert key (ended_unread kept) s.by_reference) ≡ some a
        → is_pending a.state ≡ false
    idle a h = ground (arith, lookup-insert_self key (ended_unread kept) s.by_reference)

-- One entry of the heap, whatever record it names.
expire_entry-After :
    (now t : ℕ) (key : Key) (rest : Heap Key) (s : Store)
    → Inv (record s { due = (t, key) ∷ rest })
    → After now rest s (expire_entry now key (record s { due = rest }))
unfolding expire_entry expire_kept
expire_entry-After now t key rest s v = elim (Option-cases (lookup key s.by_reference)) [
  | inl missing ↦
      rw (missing, expire_kept)
        (none, record s { due = rest }, refl, pop-Inv t key rest s v (λ a h. cc), refl, λ k. refl)
  | inr (kept, found) ↦ elim (Bool-cases (is_pending kept.state)) [
    | inr idle ↦
        rw (found, expire_kept, idle)
          (
            none,
            record s { due = rest },
            refl,
            pop-Inv t key rest s v (λ a h. ground arith),
            refl,
            λ k. refl,
          )
    | inl waiting ↦ elim (Bool-cases (ltb now kept.deadline)) [
      | inl early ↦
          rw (found, expire_kept, waiting, early)
            (
              none,
              record s { due = push kept.deadline key rest },
              refl,
              repush-Inv t key rest s kept v found,
              overdue-push now kept.deadline key rest (ground arith),
              λ k. refl,
            )
      | inr over ↦
          rw (found, expire_kept, waiting, over)
            (expire_record-After now t key rest s kept v found waiting over)
    ]
  ]
]

-- Where no entry is due, no wait is over.
unchanged_later :
    (now : ℕ) (d : Heap Key) (s : Store)
    → Inv (record s { due = d })
    → From (suc now) d
    → (k : Key) → lookup k s.by_reference ≡ revised (expire_at now) (lookup k s.by_reference)
unchanged_later now d s v late k = elim (Option-cases (lookup k s.by_reference)) [
  | inl missing ↦ rw missing
  | inr (a, found) ↦ rw found (elim (Bool-cases (is_pending a.state)) [
    | inr idle ↦ rw idle
    | inl waiting ↦
        ground (arith, Due-From k a.deadline (suc now) d (v.waits k a found waiting) late)
  ])
]

-- What a sweep at `now` leaves: it answers, the store is well-formed, and every record is what the
-- reference makes of it.
abbrev pub Swept : ℕ → Store → Result StoreError (List Approval) × Store → Type 0
Swept now s r =
    (ended : List Approval) × (s' : Store) × (r ≡ (ok ended, s'))
    × Inv s'
    × ((k : Key) → lookup k s'.by_reference ≡ revised (expire_at now) (lookup k s.by_reference))

loop_stop :
    (fuel now t : ℕ) (key : Key) (rest : Heap Key) (s : Store)
    → leb t now ≡ false
    → expire_loop fuel now (record s { due = (t, key) ∷ rest })
      ≡ (ok [], record s { due = (t, key) ∷ rest })
unfolding expire_loop
loop_stop zero now t key rest s late = refl
loop_stop (suc fuel) now t key rest s late = ground arith

loop_step :
    (fuel now t : ℕ) (key : Key) (rest : Heap Key) (s s' s'' : Store) (ended : Option Approval)
    (others : List Approval)
    → leb t now ≡ true
    → expire_entry now key (record s { due = rest }) ≡ (ok ended, s')
    → expire_loop fuel now s' ≡ (ok others, s'')
    → expire_loop (suc fuel) now (record s { due = (t, key) ∷ rest })
      ≡ (ok (cons_some ended others), s'')
unfolding expire_loop
loop_step fuel now t key rest s s' s'' ended others soon run run' = ground arith

loop_nil :
    (fuel now : ℕ) (s : Store)
    → expire_loop fuel now (record s { due = [] }) ≡ (ok [], record s { due = [] })
unfolding expire_loop
loop_nil zero now s = refl
loop_nil (suc fuel) now s = refl

stopped-Swept :
    (fuel now t : ℕ) (key : Key) (rest : Heap Key) (s : Store)
    → Inv (record s { due = (t, key) ∷ rest })
    → leb t now ≡ false
    → Swept now
        (record s { due = (t, key) ∷ rest })
        (expire_loop fuel now (record s { due = (t, key) ∷ rest }))
stopped-Swept fuel now t key rest s v late = (
  [],
  record s { due = (t, key) ∷ rest },
  loop_stop fuel now t key rest s late,
  v,
  unchanged_later now ((t, key) ∷ rest) s v
      (ground arith, From-mono {s = suc now} {t = t} rest (ground arith) v.due_sorted.0),
)

-- Fuel for each due entry is enough.
loop-Swept :
    (fuel now : ℕ) (d : Heap Key) (s : Store)
    → Inv (record s { due = d })
    → overdue now d ≤ fuel
    → Swept now (record s { due = d }) (expire_loop fuel now (record s { due = d }))
loop-Swept fuel now [] s v le =
    ([], record s { due = [] }, loop_nil fuel now s, v, unchanged_later now [] s v tt)
loop-Swept zero now ((t, key) ∷ rest) s v le = stopped-Swept zero now t key rest s v (ground arith)
loop-Swept (suc fuel) now ((t, key) ∷ rest) s v le = elim (Bool-cases (leb t now)) [
  | inr late ↦ stopped-Swept (suc fuel) now t key rest s v late
  | inl soon ↦
      let (ended, s', run, v', fewer, agrees) = expire_entry-After now t key rest s v in
      let (others, s'', run', v'', same) = loop-Swept fuel now s'.due s' v' (ground arith) in
      (
        cons_some ended others,
        s'',
        loop_step fuel now t key rest s s' s'' ended others soon run run',
        v'',
        λ k. same k ∙ agrees k,
      )
]

-- On a well-formed store, `expire_past` answers, keeps it well-formed, and ends exactly the pending waits whose
-- deadline is at or before `now`, at their deadline, as a walk over every record would: the heap
-- misses none, and no other record changes.
pub expire_past-Swept : (now : ℕ) (s : Store) → Inv s → Swept now s (expire_past now s)
unfolding expire_past
expire_past-Swept now s v =
    let (ended, s', run, v', same) =
      loop-Swept (length s.due) now s.due s v (overdue-le now s.due) in
    (sorted key_of ended, s', ground arith, v', same)
