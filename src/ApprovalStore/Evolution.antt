-- ===== src/ApprovalStore/Evolution.antt =====
-- What an operation makes of the records that were kept before it:
-- packages/control-plane/src/sayfirst_control_plane/application/approvals.py.
use sayfirst_control_plane.Common.{
  ℕ, ◌≡◌, inl, inr, refl, sym, ◌∙◌, subst, Bool, true, false, not, ◌&&◌, ◌||◌, Option, none, some,
  String, arith, leb, ltb, if◌then◌else◌, Bool-cases, Option-cases, ok, err, pair_keyed, text_keyed,
  Result,
}
use sayfirst_control_plane.Common.Dict.{Dict, lookup, insert, erase, lookup-erase}
use sayfirst_control_plane.Approval.{
  is_expired, Approval, ApprovalState, pending, approved, rejected, expired, Key, is_pending,
  is_approved,
}
use sayfirst_control_plane.Approval.Validity.{IsValid}
use sayfirst_control_plane.ApprovalStore.Monad.{
  Store, StoreError, Action, pure, raise_if, ◌>>=◌, ◌>>◌, already_resolved,
}
use sayfirst_control_plane.ApprovalStore.{keep, index_lapse, publish, abandon, read, passed_over}
use sayfirst_control_plane.ApprovalStore.Acts.{
  resolve, end_late, end_by_act, claim, release_claim, consume, Resolution, resolved_by,
  ended_unread,
}
use sayfirst_control_plane.ApprovalStore.Invariant.{Inv, lookup-insert_cases}
use sayfirst_control_plane.ApprovalStore.Removal.{drop_record-run}
use sayfirst_control_plane.ApprovalStore.Keeping.{
  >>=-run, >>=-raised, keep-raised, checked_cases, then_indexed,
}
use sayfirst_control_plane.ApprovalStore.Records.{keep-ok}
use sayfirst_control_plane.ApprovalStore.Expiry.{expire_at, revised, expire_past-Swept}
use sayfirst_control_plane.ApprovalStore.Forgetting.{unlapsed, lapsed, forget_lapsed-Forgot}
use sayfirst_control_plane.ApprovalStore.Sweeps.{expire_past, forget_lapsed}

-- Whether a record still stands for its question at `now`: a wait that may be resolved, a rejection
-- in force or an execution not spent, in flight or not.
abbrev pub stands : ℕ → Approval → Bool
stands now a =
    not a.consumed && (is_approved a.state || not (is_expired a.state) && ltb now a.deadline)

-- A search in flight passes over exactly the records that do not stand for their question.
pub stands-passed_over : (now : ℕ) (a : Approval) → passed_over true now a ≡ not (stands now a)
unfolding passed_over
stands-passed_over now a = by_state a.state a
  where
    by_state :
        (t : ApprovalState) (a : Approval)
        → passed_over true now (record a { state = t }) ≡ not (stands now (record a { state = t }))
    by_state pending a = ground arith
    by_state approved a = ground arith
    by_state rejected a = ground arith
    by_state expired a = ground arith

-- `after` is what `before` may become at `now`.
abbrev pub Follows : ℕ → Approval → Approval → Type 0
Follows now before after =
    (after.question ≡ before.question)
    × (stands now after ≡ true → stands now before ≡ true)
    × (before.consumed ≡ true → after.consumed ≡ true)

abbrev pub Evolves : ℕ → Dict Key Approval → Dict Key Approval → Type 0
Evolves now before after =
    (k : Key) (b : Approval)
    → lookup k after ≡ some b
    → (a : Approval) × (lookup k before ≡ some a) × Follows now a b

Follows-refl : (now : ℕ) (a : Approval) → Follows now a a
Follows-refl now a = (refl, λ h. h, λ h. h)

pub Evolves-refl : (now : ℕ) (refs : Dict Key Approval) → Evolves now refs refs
Evolves-refl now refs k b h = (b, h, Follows-refl now b)

pub Evolves-trans :
    (now : ℕ) (r s t : Dict Key Approval) → Evolves now r s → Evolves now s t → Evolves now r t
Evolves-trans now r s t e f k c h =
    let (b, there, g) = f k c h in
    let (a, first, g') = e k b there in
    (a, first, (g.0 ∙ g'.0, λ h. g'.1 (g.1 h), λ h. g.2 (g'.2 h)))

Evolves-insert :
    (now : ℕ) (key : Key) (kept a : Approval) (refs : Dict Key Approval)
    → lookup key refs ≡ some kept
    → Follows now kept a
    → Evolves now refs (insert key a refs)
Evolves-insert now key kept a refs found f k b h = elim (lookup-insert_cases key k b a refs h) [
  | inl (here, e) ↦ (kept, rw (← here) found, rw (← e) f)
  | inr (_, there) ↦ (b, there, Follows-refl now b)
]

Evolves-erase : (now : ℕ) (key : Key) (refs : Dict Key Approval) → Evolves now refs (erase key refs)
Evolves-erase now key refs k b h = (b, ground (arith, lookup-erase key k refs), Follows-refl now b)

keep-Evolves :
    (now : ℕ) (key : Key) (kept a : Approval) (s : Store)
    → lookup key s.by_reference ≡ some kept
    → Follows now kept a
    → Evolves now s.by_reference (keep key a s).1.by_reference
keep-Evolves now key kept a s found f = elim (checked_cases a) [
  | inr (c, e) ↦ rw (keep-raised key a s c e) (Evolves-refl now s.by_reference)
  | inl (_, valid) ↦
      rw (keep-ok key a s valid) (Evolves-insert now key kept a s.by_reference found f)
]

index_lapse-refs :
    (key : Key) (a : Approval) (s : Store) → (index_lapse key a s).1.by_reference ≡ s.by_reference
unfolding index_lapse
index_lapse-refs key a s = ground arith

pub then_indexed-refs :
    {A : Type 0} (key : Key) (last : Approval → Result StoreError A) (a : Approval) (s : Store)
    → (then_indexed key last a s).1.by_reference ≡ s.by_reference
unfolding index_lapse
then_indexed-refs key last a s = ground arith

keep_indexed-Evolves :
    {A : Type 0} (now : ℕ) (key : Key) (kept a : Approval) (last : Approval → Result StoreError A)
    (s : Store)
    → lookup key s.by_reference ≡ some kept
    → Follows now kept a
    → Evolves now s.by_reference ((keep key a >>= then_indexed key last) s).1.by_reference
keep_indexed-Evolves now key kept a last s found f = elim (checked_cases a) [
  | inr (c, e) ↦
      rw (>>=-raised (keep key a) (then_indexed key last) s (keep-raised key a s c e))
        (Evolves-refl now s.by_reference)
  | inl (_, valid) ↦
      rw
        (
          >>=-run (keep key a) (then_indexed key last) s (keep-ok key a s valid),
          then_indexed-refs key last a _,
        )
        (Evolves-insert now key kept a s.by_reference found f)
]

module _ (now : ℕ) (scope ref : String) (s : Store) where
  abbrev key : Key
  key = (scope, ref)

  abbrev before : Dict Key Approval
  before = s.by_reference

  same : Evolves now before before
  same = Evolves-refl now before

  if_raised :
      (b c : Bool) (x y : StoreError) (m : Action Approval)
      → (b ≡ false → Evolves now before (m s).1.by_reference)
      → Evolves now before ((raise_if b x >> (raise_if (not c) y >> m)) s).1.by_reference
  if_raised true c x y m h = same
  if_raised false true x y m h = h refl
  if_raised false false x y m h = same

  pub claim-Evolves : Evolves now before (claim scope ref s).1.by_reference
  unfolding claim read
  claim-Evolves = elim (Option-cases (lookup key before)) [
    | inl missing ↦ rw missing same
    | inr (kept, found) ↦ rw found (elim (Bool-cases (is_approved kept.state)) [
      | inr no_act ↦ rw no_act same
      | inl yes_act ↦ rw yes_act (elim (Bool-cases (kept.consumed || kept.claimed)) [
        | inl held ↦ rw held same
        | inr free ↦ rw free (
            keep-Evolves now key kept (record kept { claimed = true }) s found
              (claimed_follows kept))
      ])
    ])
  ]
    where
      claimed_follows : (kept : Approval) → Follows now kept (record kept { claimed = true })
      claimed_follows kept = (refl, unfold passed_over in ground arith, λ h. h)

  pub release_claim-Evolves : Evolves now before (release_claim scope ref s).1.by_reference
  unfolding release_claim read
  release_claim-Evolves = elim (Option-cases (lookup key before)) [
    | inl missing ↦ rw missing same
    | inr (kept, found) ↦ rw found (
        if_raised kept.consumed kept.claimed _ _ _ (λ e.
          keep-Evolves now key kept (record kept { claimed = false }) s found
            (released_follows kept)))
  ]
    where
      released_follows : (kept : Approval) → Follows now kept (record kept { claimed = false })
      released_follows kept = (refl, unfold passed_over in ground arith, λ h. h)

  pub publish-Evolves : Evolves now before (publish scope ref s).1.by_reference
  unfolding publish read
  publish-Evolves = elim (Option-cases (lookup key before)) [
    | inl missing ↦ rw missing same
    | inr (kept, found) ↦ rw found (elim (Bool-cases (is_pending kept.state)) [
      | inr ended ↦ rw ended same
      | inl waiting ↦ rw waiting (
          either kept.published kept (record kept { published = true })
            (keep-Evolves now key kept (record kept { published = true }) s found
              (published_follows kept)))
    ])
  ]
    where
      published_follows : (kept : Approval) → Follows now kept (record kept { published = true })
      published_follows kept = (refl, unfold passed_over in ground arith, λ h. h)

      either :
          (b : Bool) (a a' : Approval)
          → Evolves now before (keep key a' s).1.by_reference
          → Evolves now before ((if b then pure a else keep key a') s).1.by_reference
      either true a a' h = same
      either false a a' h = h

  pub consume-Evolves : (at : ℕ) → Evolves now before (consume scope ref at s).1.by_reference
  unfolding consume read
  consume-Evolves at = elim (Option-cases (lookup key before)) [
    | inl missing ↦ rw missing same
    | inr (kept, found) ↦ rw found (elim (Bool-cases (is_approved kept.state)) [
      | inr no_act ↦ rw no_act same
      | inl yes_act ↦ rw yes_act (
          if_raised kept.consumed kept.claimed _ _ _ (λ e.
            keep_indexed-Evolves now key kept
              (record kept { consumed = true; consumed_at = some at }) ok s found
              (spent_follows kept)))
    ])
  ]
    where
      spent_follows :
          (kept : Approval)
          → Follows now kept (record kept { consumed = true; consumed_at = some at })
      spent_follows kept = (refl, unfold passed_over in ground arith, λ h. refl)

  pub abandon-Evolves : Inv s → Evolves now before (abandon scope ref s).1.by_reference
  unfolding abandon read
  abandon-Evolves v = elim (Option-cases (lookup key before)) [
    | inl missing ↦ rw missing same
    | inr (kept, found) ↦
        rw found
          (elim (Bool-cases (not (is_pending kept.state) || (kept.claimed || kept.published))) [
            | inl refused ↦ rw refused same
            | inr free ↦
                let (left, without, run) = drop_record-run key kept s v.listed v.once found in
                rw (free, run, ◌>>◌, ◌>>=◌) (Evolves-erase now key before)
          ])
  ]

  pub resolve-Evolves :
      (person : String) (resolution : Resolution) (reason : Option String)
      → Inv s
      → Evolves now before (resolve scope ref person resolution reason now s).1.by_reference
  unfolding resolve read end_late end_by_act
  resolve-Evolves person resolution reason v = elim (Option-cases (lookup key before)) [
    | inl missing ↦ rw missing same
    | inr (kept, found) ↦ rw found (elim (Bool-cases (is_pending kept.state)) [
      | inr over ↦ rw over same
      | inl waiting ↦ rw waiting (elim (Bool-cases (leb kept.deadline now)) [
        | inl late ↦ rw late (
            keep_indexed-Evolves now key kept (ended_unread kept) (λ _. err already_resolved) s
              found (refl, unfold passed_over in ground arith, λ h. h))
        | inr open_yet ↦ rw open_yet (
            keep_indexed-Evolves now key kept (resolved_by kept person resolution reason now) ok s
              found (acted_follows kept.state kept waiting open_yet (v.filed key kept found).1))
      ])
    ])
  ]
    where
      acted_follows :
          (t : ApprovalState) (kept : Approval)
          → is_pending t ≡ true
          → leb kept.deadline now ≡ false
          → IsValid (record kept { state = t })
          → Follows now (record kept { state = t }) (resolved_by kept person resolution reason now)
      acted_follows pending kept p e valid = (refl, λ h. unfold passed_over in ground arith, λ h. h)
      acted_follows approved kept p e valid = cc
      acted_follows rejected kept p e valid = cc
      acted_follows expired kept p e valid = cc

expire_at-Follows : (now : ℕ) (a : Approval) → Follows now a (expire_at now a)
unfolding passed_over
expire_at-Follows now a = (ground arith, ground arith, ground arith)

pub expire_past-Evolves :
    (now : ℕ) (s : Store) → Inv s → Evolves now s.by_reference (expire_past now s).1.by_reference
expire_past-Evolves now s v k b h =
    let (ended, s', run, v', swept) = expire_past-Swept now s v in
    from (lookup k s.by_reference) refl
      (sym (swept k) ∙ subst (λ r. lookup k (r.1).by_reference ≡ some b) run h)
  where
    from :
        (o : Option Approval)
        → lookup k s.by_reference ≡ o
        → revised (expire_at now) (lookup k s.by_reference) ≡ some b
        → (a : Approval) × (lookup k s.by_reference ≡ some a) × Follows now a b
    from none e h = cc (rw e at h)
    from (some a) e h =
        let same : expire_at now a ≡ b = cc (rw e at h) in
        (a, e, rw (← same) (expire_at-Follows now a))

pub forget_lapsed-Evolves :
    (now : ℕ) (s : Store) → Inv s → Evolves now s.by_reference (forget_lapsed now s).1.by_reference
forget_lapsed-Evolves now s v k b h =
    let (forgotten, s', run, v', forgot) = forget_lapsed-Forgot now s v in
    from (lookup k s.by_reference) refl
      (sym (forgot k) ∙ subst (λ r. lookup k (r.1).by_reference ≡ some b) run h)
  where
    from :
        (o : Option Approval)
        → lookup k s.by_reference ≡ o
        → unlapsed now (lookup k s.by_reference) ≡ some b
        → (a : Approval) × (lookup k s.by_reference ≡ some a) × Follows now a b
    from none e h = cc (rw e at h)
    from (some a) e h = (a, e, kept_follows (rw e at h))
      where
        kept_follows : unlapsed now (some a) ≡ some b → Follows now a b
        kept_follows h = elim (Bool-cases (lapsed now a)) [
          | inl over ↦ cc (rw over at h)
          | inr yet ↦ let same : a ≡ b = cc (rw yet at h) in rw (← same) (Follows-refl now a)
        ]
