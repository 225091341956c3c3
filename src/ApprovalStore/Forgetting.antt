-- ===== src/ApprovalStore/Forgetting.antt =====
-- `forget_lapsed` against its reference: a walk over every record that drops the lapsed ones.
use sayfirst_control_plane.Common.{
  ℕ, zero, suc, ◌≤◌, ◌≡◌, inl, inr, refl, ap, ◌∙◌, subst, Bool, true, false, Option, none, some,
  List, [], ◌∷◌, arith, leb, if◌then◌else◌, Bool-cases, Option-cases, ok, pair_keyed, text_keyed,
  Result, ◌==◌, ==_iff, length,
}
use sayfirst_control_plane.Common.Dict.{Dict, lookup, erase, lookup-erase}
use sayfirst_control_plane.Common.Text.{sorted}
use sayfirst_control_plane.Common.Heap.{
  Heap, Due, From, From-mono, IsSorted, push, push-IsSorted, push-Due, push-Due_self, Due-From,
  overdue, overdue-push, overdue-le,
}
use sayfirst_control_plane.Approval.{Approval, Key, key_of}
use sayfirst_control_plane.ApprovalStore.Monad.{Store, StoreError}
use sayfirst_control_plane.ApprovalStore.{lapse_instant, is_of_no_further_use}
use sayfirst_control_plane.ApprovalStore.Sweeps.{
  cons_some, forget_kept, forget_entry, forget_loop, forget_lapsed,
}
use sayfirst_control_plane.ApprovalStore.Invariant.{Inv, CoversLapses}
use sayfirst_control_plane.ApprovalStore.Records.{
  lapse_instant_total, index_lapse-some, index_lapse-none,
}
use sayfirst_control_plane.ApprovalStore.Removal.{without_record, drop_record-run, drop-Inv}

-- The reference: whether the sweep at `now` drops a record.
abbrev pub lapsed : ℕ → Approval → Bool
lapsed now a = elim (lapse_instant a) [ ok (some t) ↦ leb t now | _ ↦ false ]

abbrev pub unlapsed : ℕ → Option Approval → Option Approval
unlapsed now none = none
unlapsed now (some a) = if lapsed now a then none else some a

unlapsed_twice : (now : ℕ) (o : Option Approval) → unlapsed now (unlapsed now o) ≡ unlapsed now o
unlapsed_twice now none = refl
unlapsed_twice now (some a) = elim (Bool-cases (lapsed now a)) [ inl e ↦ rw e | inr e ↦ rw (e, e) ]

abbrev Agrees : ℕ → Dict Key Approval → Dict Key Approval → Type 0
Agrees now before after = (k : Key) → unlapsed now (lookup k after) ≡ unlapsed now (lookup k before)

useless :
    (now : ℕ) (a : Approval) (lapse : Option ℕ)
    → lapse_instant a ≡ ok lapse
    → lapsed now a ≡ true
    → is_of_no_further_use a now ≡ ok true
unfolding is_of_no_further_use
useless now a none e over = ground arith
useless now a (some t) e over = ground arith

useful :
    (now : ℕ) (a : Approval) (lapse : Option ℕ)
    → lapse_instant a ≡ ok lapse
    → lapsed now a ≡ false
    → is_of_no_further_use a now ≡ ok false
unfolding is_of_no_further_use
useful now a none e early = ground arith
useful now a (some t) e early = ground arith

-- What one entry leaves.
abbrev After : ℕ → Heap Key → Store → Result StoreError (Option Approval) × Store → Type 0
After now rest s r =
    (forgotten : Option Approval) × (s' : Store) × (r ≡ (ok forgotten, s'))
    × Inv s'
    × (overdue now s'.lapsing ≡ overdue now rest)
    × Agrees now s.by_reference s'.by_reference

-- The lapse index after its entry for `key` went, where that record needs none or has another.
reindex-Inv :
    (t : ℕ) (key : Key) (rest lapsing : Heap Key) (s : Store)
    → Inv (record s { lapsing = (t, key) ∷ rest })
    → ((a : Approval) (u : ℕ)
        → lookup key s.by_reference ≡ some a
        → lapse_instant a ≡ ok (some u)
        → Due key u lapsing)
    → ((k : Key) (u : ℕ) → Due k u rest → Due k u lapsing)
    → IsSorted lapsing
    → Inv (record s { lapsing = lapsing })
reindex-Inv t key rest lapsing s v again old in_order = record {
  filed = v.filed;
  listed = v.listed;
  holds = v.holds;
  once = v.once;
  waits = v.waits;
  lapses = covers;
  due_sorted = v.due_sorted;
  lapsing_sorted = in_order;
}
  where
    covers : CoversLapses s.by_reference lapsing
    covers k a u h p = elim (v.lapses k a u h p) [
      | inl (here, _) ↦
          subst (λ j. Due j u lapsing) here
            (again a u (ap {B = Option Approval} (λ j. lookup j s.by_reference) here ∙ h) p)
      | inr there ↦ old k u there
    ]

-- An entry of a record that is still of use.
kept-After :
    (now t : ℕ) (key : Key) (rest : Heap Key) (s : Store) (kept : Approval) (lapse : Option ℕ)
    → Inv (record s { lapsing = (t, key) ∷ rest })
    → lookup key s.by_reference ≡ some kept
    → lapse_instant kept ≡ ok lapse
    → is_of_no_further_use kept now ≡ ok false
    → After now rest s (forget_kept now key (some kept) (record s { lapsing = rest }))
unfolding forget_kept is_of_no_further_use
kept-After now t key rest s kept none v found e useful = (
  none,
  record s { lapsing = rest },
  ground (arith, index_lapse-none key kept (record s { lapsing = rest }) e),
  reindex-Inv t key rest rest s v (λ a u h p. cc) (λ k u d. d) v.lapsing_sorted.1,
  refl,
  λ k. refl,
)
kept-After now t key rest s kept (some u) v found e useful = (
  none,
  record s { lapsing = push u key rest },
  ground (arith, index_lapse-some key kept u (record s { lapsing = rest }) e),
  reindex-Inv t key rest (push u key rest) s v
      (λ a w h p.
        subst (λ x. Due key x (push u key rest)) (same a w h p) (push-Due_self u key rest))
      (λ k w d. push-Due u w key k rest d) (push-IsSorted u key rest v.lapsing_sorted.1),
  overdue-push now u key rest (ground arith),
  λ k. refl,
)
  where
    same :
        (a : Approval) (w : ℕ)
        → lookup key s.by_reference ≡ some a
        → lapse_instant a ≡ ok (some w)
        → u ≡ w
    same a w h p =
        let here : kept ≡ a = cc in cc (ap {B = Result StoreError (Option ℕ)} lapse_instant here)

-- An entry of a lapsed record.
dropped-After :
    (now t : ℕ) (key : Key) (rest : Heap Key) (s : Store) (kept : Approval)
    → Inv (record s { lapsing = (t, key) ∷ rest })
    → lookup key s.by_reference ≡ some kept
    → lapsed now kept ≡ true
    → is_of_no_further_use kept now ≡ ok true
    → After now rest s (forget_kept now key (some kept) (record s { lapsing = rest }))
unfolding forget_kept
dropped-After now t key rest s kept v found over useless =
    let (left, without, run) =
      drop_record-run key kept (record s { lapsing = rest }) v.listed v.once found in
    (
      some kept,
      without_record key kept left (record s { lapsing = rest }),
      ground arith,
      drop-Inv key kept (record s { lapsing = (t, key) ∷ rest }) v found left without rest covers
          v.lapsing_sorted.1,
      refl,
      gone,
    )
  where
    still :
        (k : Key) (a : Approval)
        → lookup k (erase key s.by_reference) ≡ some a
        → ((key == k) ≡ false) × (lookup k s.by_reference ≡ some a)
    still k a h = ground (arith, lookup-erase key k s.by_reference)

    gone_at : (k : Key) → key ≡ k → none ≡ unlapsed now (lookup k s.by_reference)
    gone_at k here = rw (← here, found, over)

    covers : CoversLapses (erase key s.by_reference) rest
    covers k a u h p = elim (v.lapses k a u (still k a h).1 p) [
      | inl (here, _) ↦ absurd (ground (arith, still k a h, ==_iff key k))
      | inr there ↦ there
    ]

    gone : Agrees now s.by_reference (erase key s.by_reference)
    gone k = elim (Bool-cases (key == k)) [
      | inl e ↦ rw (lookup-erase key k s.by_reference, e) (gone_at k ((==_iff key k).0 e))
      | inr e ↦ rw (lookup-erase key k s.by_reference, e)
    ]

-- One entry of the heap, whatever record it names.
entry-After :
    (now t : ℕ) (key : Key) (rest : Heap Key) (s : Store)
    → Inv (record s { lapsing = (t, key) ∷ rest })
    → After now rest s (forget_entry now key (record s { lapsing = rest }))
unfolding forget_entry forget_kept
entry-After now t key rest s v = elim (Option-cases (lookup key s.by_reference)) [
  | inl missing ↦
      rw (missing, forget_kept)
        (
          none,
          record s { lapsing = rest },
          refl,
          reindex-Inv t key rest rest s v (λ a u h p. cc) (λ k u d. d) v.lapsing_sorted.1,
          refl,
          λ k. refl,
        )
  | inr (kept, found) ↦
      rw found (kept_entry kept found (lapse_instant_total kept (v.filed key kept found).1))
]
  where
    kept_entry :
        (kept : Approval)
        → lookup key s.by_reference ≡ some kept
        → (lapse : Option ℕ) × (lapse_instant kept ≡ ok lapse)
        → After now rest s (forget_kept now key (some kept) (record s { lapsing = rest }))
    kept_entry kept found (lapse, e) = elim (Bool-cases (lapsed now kept)) [
      | inl over ↦ dropped-After now t key rest s kept v found over (useless now kept lapse e over)
      | inr early ↦ kept-After now t key rest s kept lapse v found e (useful now kept lapse e early)
    ]

-- Where no entry is due, no record has lapsed.
unchanged_later :
    (now : ℕ) (d : Heap Key) (s : Store)
    → Inv (record s { lapsing = d })
    → From (suc now) d
    → (k : Key) → lookup k s.by_reference ≡ unlapsed now (lookup k s.by_reference)
unchanged_later now d s v late k = elim (Option-cases (lookup k s.by_reference)) [
  | inl missing ↦ rw missing
  | inr (a, found) ↦ rw found (at a found (lapse_instant_total a (v.filed k a found).1))
]
  where
    at :
        (a : Approval)
        → lookup k s.by_reference ≡ some a
        → (lapse : Option ℕ) × (lapse_instant a ≡ ok lapse)
        → some a ≡ unlapsed now (some a)
    at a found (none, e) = ground arith
    at a found (some t, e) = ground (arith, Due-From k t (suc now) d (v.lapses k a t found e) late)

-- What a sweep at `now` leaves.
abbrev pub Forgot : ℕ → Store → Result StoreError (List Approval) × Store → Type 0
Forgot now s r =
    (forgotten : List Approval) × (s' : Store) × (r ≡ (ok forgotten, s'))
    × Inv s'
    × ((k : Key) → lookup k s'.by_reference ≡ unlapsed now (lookup k s.by_reference))

loop_stop :
    (fuel now t : ℕ) (key : Key) (rest : Heap Key) (s : Store)
    → leb t now ≡ false
    → forget_loop fuel now (record s { lapsing = (t, key) ∷ rest })
      ≡ (ok [], record s { lapsing = (t, key) ∷ rest })
unfolding forget_loop
loop_stop zero now t key rest s late = refl
loop_stop (suc fuel) now t key rest s late = ground arith

loop_step :
    (fuel now t : ℕ) (key : Key) (rest : Heap Key) (s s' s'' : Store) (forgotten : Option Approval)
    (others : List Approval)
    → leb t now ≡ true
    → forget_entry now key (record s { lapsing = rest }) ≡ (ok forgotten, s')
    → forget_loop fuel now s' ≡ (ok others, s'')
    → forget_loop (suc fuel) now (record s { lapsing = (t, key) ∷ rest })
      ≡ (ok (cons_some forgotten others), s'')
unfolding forget_loop
loop_step fuel now t key rest s s' s'' forgotten others soon run run' = ground arith

loop_nil :
    (fuel now : ℕ) (s : Store)
    → forget_loop fuel now (record s { lapsing = [] }) ≡ (ok [], record s { lapsing = [] })
unfolding forget_loop
loop_nil zero now s = refl
loop_nil (suc fuel) now s = refl

stopped-Forgot :
    (fuel now t : ℕ) (key : Key) (rest : Heap Key) (s : Store)
    → Inv (record s { lapsing = (t, key) ∷ rest })
    → leb t now ≡ false
    → Forgot now
        (record s { lapsing = (t, key) ∷ rest })
        (forget_loop fuel now (record s { lapsing = (t, key) ∷ rest }))
stopped-Forgot fuel now t key rest s v late = (
  [],
  record s { lapsing = (t, key) ∷ rest },
  loop_stop fuel now t key rest s late,
  v,
  unchanged_later now ((t, key) ∷ rest) s v
      (ground arith, From-mono {s = suc now} {t = t} rest (ground arith) v.lapsing_sorted.0),
)

-- Fuel for each due entry is enough.
loop-Forgot :
    (fuel now : ℕ) (d : Heap Key) (s : Store)
    → Inv (record s { lapsing = d })
    → overdue now d ≤ fuel
    → Forgot now (record s { lapsing = d }) (forget_loop fuel now (record s { lapsing = d }))
loop-Forgot fuel now [] s v le =
    ([], record s { lapsing = [] }, loop_nil fuel now s, v, unchanged_later now [] s v tt)
loop-Forgot zero now ((t, key) ∷ rest) s v le =
    stopped-Forgot zero now t key rest s v (ground arith)
loop-Forgot (suc fuel) now ((t, key) ∷ rest) s v le = elim (Bool-cases (leb t now)) [
  | inr late ↦ stopped-Forgot (suc fuel) now t key rest s v late
  | inl soon ↦
      let (forgotten, s', run, v', fewer, agrees) = entry-After now t key rest s v in
      let (others, s'', run', v'', same) = loop-Forgot fuel now s'.lapsing s' v' (ground arith) in
      (
        cons_some forgotten others,
        s'',
        loop_step fuel now t key rest s s' s'' forgotten others soon run run',
        v'',
        λ k. same k ∙ agrees k,
      )
]

-- On a well-formed store, `forget_lapsed` answers, keeps it well-formed, and drops exactly the records whose lapse is
-- at or before `now`, as a walk over every record would: a pending wait and an approved one that
-- nobody has spent have no lapse and stay, and no other record changes.
pub forget_lapsed-Forgot : (now : ℕ) (s : Store) → Inv s → Forgot now s (forget_lapsed now s)
unfolding forget_lapsed
forget_lapsed-Forgot now s v =
    let (forgotten, s', run, v', same) =
      loop-Forgot (length s.lapsing) now s.lapsing s v (overdue-le now s.lapsing) in
    (sorted key_of forgotten, s', ground arith, v', same)
