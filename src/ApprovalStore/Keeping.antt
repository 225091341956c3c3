-- ===== src/ApprovalStore/Keeping.antt =====
-- The well-formedness of the store at every operation, answered or raised:
-- packages/control-plane/src/sayfirst_control_plane/application/approvals.py.
use sayfirst_control_plane.Common.{
  ℕ, ◌≡◌, ◌⊎◌, inl, inr, refl, sym, ap, ◌∙◌, subst, Bool, true, false, not, ◌||◌, Option, none,
  some, String, leb, if◌then◌else◌, Bool-cases, Option-cases, ok, err, pair_keyed, text_keyed,
  Result,
}
use sayfirst_control_plane.Common.Dict.{lookup, insert}
use sayfirst_control_plane.Common.Heap.{Due, push, push-IsSorted, push-Due, push-Due_self}
use sayfirst_control_plane.Approval.{
  Approval, ApprovalState, pending, approved, rejected, expired, Key, is_pending, is_approved,
  question_keyed, checked, Complaint,
}
use sayfirst_control_plane.Approval.Validity.{IsValid, checked-IsValid, checked-same}
use sayfirst_control_plane.ApprovalStore.Monad.{
  Store, StoreError, Action, ◌>>=◌, ◌>>◌, continue, already_resolved, invalid, raise_if, pure,
}
use sayfirst_control_plane.ApprovalStore.{keep, index_lapse, lapse_instant, publish, read}
use sayfirst_control_plane.ApprovalStore.Acts.{
  approve, reject, state_of, resolve, end_late, end_by_act, claim, release_claim, consume,
  Resolution, resolved_by, ended_unread,
}
use sayfirst_control_plane.ApprovalStore.Invariant.{Inv}
use sayfirst_control_plane.ApprovalStore.Update.{update-Inv}
use sayfirst_control_plane.ApprovalStore.Records.{
  keep-ok, index_lapse-some, index_lapse-none, lapse_instant_total,
}

-- `keep` and then `index_lapse`, of a new record for a kept one.
rewrite_record :
    (key : Key) (kept a : Approval) (s : Store)
    → Inv s
    → lookup key s.by_reference ≡ some kept
    → a.question ≡ kept.question
    → a.approval_ref ≡ kept.approval_ref
    → is_pending a.state ≡ false
    → IsValid a
    → (s' : Store) × (index_lapse key a (record s { by_reference = insert key a s.by_reference })
        ≡ (ok tt, s'))
      × Inv s'
rewrite_record key kept a s v found q r over valid = by_lapse (lapse_instant_total a valid)
  where
    by_lapse :
        (lapse : Option ℕ) × (lapse_instant a ≡ ok lapse)
        → (s' : Store) × (index_lapse key a
              (record s { by_reference = insert key a s.by_reference })
            ≡ (ok tt, s'))
          × Inv s'
    by_lapse (none, e) = (
      record s { by_reference = insert key a s.by_reference },
      index_lapse-none key a _ e,
      update-Inv key kept a s v found q r s.lapsing valid (λ p. cc) (λ t h. cc) (λ j t d. d)
          v.lapsing_sorted,
    )
    by_lapse (some u, e) = (
      record s { by_reference = insert key a s.by_reference; lapsing = push u key s.lapsing },
      index_lapse-some key a u _ e,
      update-Inv key kept a s v found q r (push u key s.lapsing) valid (λ p. cc)
          (λ t h.
            subst (λ w. Due key w (push u key s.lapsing)) (cc (e, h))
              (push-Due_self u key s.lapsing))
          (λ j t d. push-Due u t key j s.lapsing d)
          (push-IsSorted u key s.lapsing v.lapsing_sorted),
    )

-- A construction answers the record itself, and then it is valid, or it complains.
pub checked_cases :
    (a : Approval) → ((checked a ≡ ok a) × IsValid a) ⊎ ((c : Complaint) × (checked a ≡ err c))
checked_cases a = go (checked a) refl
  where
    go :
        (r : Result Complaint Approval)
        → checked a ≡ r
        → ((checked a ≡ ok a) × IsValid a) ⊎ ((c : Complaint) × (checked a ≡ err c))
    go (err c) e = inr (c, e)
    go (ok b) e =
        let same : checked a ≡ ok a = e ∙ ap ok (sym (checked-same a b e)) in
        inl (same, (checked-IsValid a).0 same)

-- The store after an action.
abbrev pub after : {A : Type 0} → Result StoreError A × Store → Store
after r = r.1

if-Inv :
    {A : Type 0} (b : Bool) (m n : Action A) (s : Store)
    → Inv (after (m s))
    → Inv (after (n s))
    → Inv ((if b then m else n) s).1
if-Inv true m n s h k = h
if-Inv false m n s h k = k

keep-Inv :
    (key : Key) (kept a : Approval) (s : Store)
    → Inv s
    → lookup key s.by_reference ≡ some kept
    → a.question ≡ kept.question
    → a.approval_ref ≡ kept.approval_ref
    → (is_pending a.state ≡ true → (is_pending kept.state ≡ true) × (a.deadline ≡ kept.deadline))
    → lapse_instant a ≡ lapse_instant kept
    → Inv (after (keep key a s))
unfolding keep
keep-Inv key kept a s v found q r still lapse = elim (checked_cases a) [
  | inr (c, e) ↦ rw e v
  | inl (e, valid) ↦ rw e (
      update-Inv key kept a s v found q r s.lapsing valid still
        (λ t h. v.lapses key kept t found (sym lapse ∙ h)) (λ j t d. d) v.lapsing_sorted)
]

pub >>=-run :
    {A B : Type 0} (m : Action A) (f : A → Action B) (s : Store) {a : A} {s' : Store}
    → m s ≡ (ok a, s')
    → (m >>= f) s ≡ f a s'
>>=-run m f s e = ap (continue f) e

pub >>=-raised :
    {A B : Type 0} (m : Action A) (f : A → Action B) (s : Store) {x : StoreError} {s' : Store}
    → m s ≡ (err x, s')
    → (m >>= f) s ≡ (err x, s')
>>=-raised m f s e = ap (continue f) e

pub keep-raised :
    (key : Key) (a : Approval) (s : Store) (c : Complaint)
    → checked a ≡ err c
    → keep key a s ≡ (err (invalid c), s)
unfolding keep
keep-raised key a s c e = rw e

abbrev pub then_indexed :
    {A : Type 0} → Key → (Approval → Result StoreError A) → Approval → Action A
then_indexed key last b = index_lapse key b >>= λ _ t. (last b, t)

-- `keep`, then `index_lapse`, then an end that writes nothing.
keep_indexed-Inv :
    {A : Type 0} (key : Key) (kept a : Approval) (last : Approval → Result StoreError A) (s : Store)
    → Inv s
    → lookup key s.by_reference ≡ some kept
    → a.question ≡ kept.question
    → a.approval_ref ≡ kept.approval_ref
    → is_pending a.state ≡ false
    → Inv ((keep key a >>= then_indexed key last) s).1
keep_indexed-Inv {A} key kept a last s v found q r over = elim (checked_cases a) [
  | inr (c, e) ↦
      subst (λ x. Inv (after {A = A} x))
        (sym (>>=-raised (keep key a) (then_indexed key last) s (keep-raised key a s c e))) v
  | inl (e, valid) ↦
      let (s', run, v') = rewrite_record key kept a s v found q r over valid in
      subst (λ x. Inv (after {A = A} x))
        (sym (
          >>=-run (keep key a) (then_indexed key last) s (keep-ok key a s valid)
          ∙ >>=-run (index_lapse key a) (λ _ t. (last a, t)) _ run))
        v'
]

module _ (scope ref : String) (s : Store) (v : Inv s) where
  abbrev key : Key
  key = (scope, ref)

  if_raised :
      (b c : Bool) (x y : StoreError) (m : Action Approval)
      → Inv (m s).1
      → Inv ((raise_if b x >> (raise_if (not c) y >> m)) s).1
  if_raised true c x y m h = v
  if_raised false true x y m h = h
  if_raised false false x y m h = v

  pub claim-Inv : Inv (after (claim scope ref s))
  unfolding claim read
  claim-Inv = elim (Option-cases (lookup key s.by_reference)) [
    | inl missing ↦ rw (missing, after) v
    | inr (kept, found) ↦
        rw (found, after)
          (elim (Bool-cases (is_approved kept.state)) [
            | inr no_act ↦ rw no_act v
            | inl yes_act ↦ rw yes_act (elim (Bool-cases (kept.consumed || kept.claimed)) [
              | inl held ↦ rw held v
              | inr free ↦ rw free (
                  keep-Inv key kept (record kept { claimed = true }) s v found refl refl
                    (λ p. (p, refl)) (unfold lapse_instant in refl))
            ])
          ])
  ]

  pub release_claim-Inv : Inv (after (release_claim scope ref s))
  unfolding release_claim read
  release_claim-Inv = elim (Option-cases (lookup key s.by_reference)) [
    | inl missing ↦ rw (missing, after) v
    | inr (kept, found) ↦
        rw (found, after)
          (if_raised kept.consumed kept.claimed _ _ _ (
            keep-Inv key kept (record kept { claimed = false }) s v found refl refl (λ p. (p, refl))
              (unfold lapse_instant in refl)))
  ]

  pub publish-Inv : Inv (after (publish scope ref s))
  unfolding publish read
  publish-Inv = elim (Option-cases (lookup key s.by_reference)) [
    | inl missing ↦ rw (missing, after) v
    | inr (kept, found) ↦
        rw (found, after)
          (elim (Bool-cases (is_pending kept.state)) [
            | inr ended ↦ rw ended v
            | inl waiting ↦ rw waiting (
                if-Inv kept.published (pure kept) (keep key (record kept { published = true })) s v
                  (keep-Inv key kept (record kept { published = true }) s v found refl refl
                    (λ p. (p, refl)) (unfold lapse_instant in refl)))
          ])
  ]

  pub consume-Inv : (now : ℕ) → Inv (after (consume scope ref now s))
  unfolding consume read
  consume-Inv now = elim (Option-cases (lookup key s.by_reference)) [
    | inl missing ↦ rw (missing, after) v
    | inr (kept, found) ↦
        rw (found, after)
          (elim (Bool-cases (is_approved kept.state)) [
            | inr no_act ↦ rw no_act v
            | inl yes_act ↦ rw yes_act (
                if_raised kept.consumed kept.claimed _ _ _ (
                  keep_indexed-Inv key kept
                    (record kept { consumed = true; consumed_at = some now }) ok s v found refl refl
                    (acted_on kept.state yes_act)))
          ])
  ]
    where
      acted_on : (t : ApprovalState) → is_approved t ≡ true → is_pending t ≡ false
      acted_on approved e = refl
      acted_on pending e = cc
      acted_on rejected e = refl
      acted_on expired e = refl

  pub resolve-Inv :
      (person : String) (resolution : Resolution) (reason : Option String) (now : ℕ)
      → Inv (after (resolve scope ref person resolution reason now s))
  unfolding resolve read end_late end_by_act
  resolve-Inv person resolution reason now = elim (Option-cases (lookup key s.by_reference)) [
    | inl missing ↦ rw (missing, after) v
    | inr (kept, found) ↦
        rw (found, after)
          (elim (Bool-cases (is_pending kept.state)) [
            | inr over ↦ rw over v
            | inl waiting ↦ rw waiting (
                if-Inv (leb kept.deadline now) (end_late key kept)
                  (end_by_act key kept person resolution reason now) s
                  (keep_indexed-Inv key kept (ended_unread kept) (λ _. err already_resolved) s v
                    found refl refl refl)
                  (keep_indexed-Inv key kept (resolved_by kept person resolution reason now) ok s v
                    found refl refl (ends resolution)))
          ])
  ]
    where
      ends : (r : Resolution) → is_pending (state_of r) ≡ false
      ends approve = refl
      ends reject = refl
