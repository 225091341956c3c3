-- ===== src/Boundary/GrantStore/Orphans.antt =====
-- The readers of a boundary's grant store that are live, and those it holds:
-- packages/boundary/src/sayfirst_boundary/cache.py.
use sayfirst_control_plane.Common.{
  ℕ, ◌≡◌, ◌≢◌, refl, sym, ap, ◌∙◌, true, false, Option, none, some, List, [], ◌∷◌, map, String, any,
  arith, ◌==◌, ==_iff, text_keyed, option_keyed, nat_keyed, Bool-cases, Option-cases, inl, inr,
}
use mathlib.Core.Option.{some_inj}
use sayfirst_control_plane.Common.Dict.{
  Dict, lookup, insert, erase, lookup-insert, lookup-insert_self, lookup-erase,
}
use sayfirst_control_plane.Policy.{DecisionAsk}
use sayfirst_control_plane.Grants.{Grant, GrantConditions}
use sayfirst_control_plane.Boundary.Freshness.{ending, asked_conditions}
use sayfirst_control_plane.Boundary.Reader.{SignalReader, held, close_reader}
use sayfirst_control_plane.Boundary.GrantStore.{
  GrantStore, conditions_keyed, close_at, displace, put, take, close, close_each, is_still_live,
}

-- A reader with a live channel after a close had it before, and is not the one closed.
close_at-live :
    (id j : ℕ) (q : SignalReader) (readers : Dict ℕ SignalReader)
    → lookup j (close_at id readers) ≡ some q
    → q.connection_live ≡ true
    → (lookup j readers ≡ some q) × ((id == j) ≡ false)
unfolding close_at
close_at-live id j q readers h on = elim (Option-cases (lookup id readers)) [
  | inl e ↦
      let before : lookup j readers ≡ some q = rw (e, close_at) at h in
      (before, ground (arith, e, before, ==_iff id j))
  | inr (r, e) ↦
      let after : lookup j (insert id (close_reader r) readers) ≡ some q = rw (e, close_at) at h in
      elim (Bool-cases (id == j)) [
        | inl same ↦
            let it : close_reader r ≡ q =
              some_inj.0 (sym (rw same at (lookup-insert id j (close_reader r) readers)) ∙ after) in
            absurd (cc (ap (λ (x : SignalReader). x.connection_live) it ∙ on))
        | inr other ↦
            (sym (rw other at (lookup-insert id j (close_reader r) readers)) ∙ after, other)
      ]
]

-- A close keeps every reader's grant.
close_at-kept :
    (id j : ℕ) (q : SignalReader) (readers : Dict ℕ SignalReader)
    → lookup j readers ≡ some q
    → (r : SignalReader) × (lookup j (close_at id readers) ≡ some r) × (r.grant ≡ q.grant)
unfolding close_at
close_at-kept id j q readers h = elim (Option-cases (lookup id readers)) [
  | inl e ↦ rw (e, close_at) (q, h, refl)
  | inr (r, e) ↦ elim (Bool-cases (id == j)) [
    | inl same ↦
        let it : r ≡ q =
          some_inj.0 (sym e ∙ ap (λ k. lookup k readers) ((==_iff id j).0 same) ∙ h) in
        rw (e, close_at)
          (
            close_reader r,
            lookup-insert id j (close_reader r) readers ∙ rw same refl,
            ap (λ (x : SignalReader). x.grant) it,
          )
    | inr other ↦
        rw (e, close_at) (q, lookup-insert id j (close_reader r) readers ∙ rw other h, refl)
  ]
]

-- A live reader is held for its question, and what is held is a reader for that question.
pub record NoOrphans (s : GrantStore) : Type 0 where
  pub live_is_held :
      (id : ℕ) (r : SignalReader)
      → lookup id s.readers ≡ some r
      → r.connection_live ≡ true
      → lookup r.grant.conditions s.holdings ≡ some id
  pub held_is_known :
      (c : GrantConditions) (id : ℕ)
      → lookup c s.holdings ≡ some id
      → (r : SignalReader) × (lookup id s.readers ≡ some r) × (r.grant.conditions ≡ c)

displace-live :
    (existing : Option ℕ) (id j : ℕ) (q : SignalReader) (readers : Dict ℕ SignalReader)
    → (id == j) ≡ false
    → lookup j (displace existing id readers) ≡ some q
    → q.connection_live ≡ true
    → (lookup j readers ≡ some q) × (existing ≢ some j)
unfolding displace
displace-live none id j q readers other h on = (h, λ k. cc k)
displace-live (some e) id j q readers other h on = elim (Bool-cases (e == id)) [
  | inl same ↦ (
    rw same at h,
    λ k. cc (sym other ∙ (==_iff id j).1 (sym ((==_iff e id).0 same) ∙ some_inj.0 k)),
  )
  | inr differ ↦
      let (before, away) = close_at-live e j q readers (rw differ at h) on in
      (before, λ k. cc (sym away ∙ (==_iff e j).1 (some_inj.0 k)))
]

displace-kept :
    (existing : Option ℕ) (id j : ℕ) (q : SignalReader) (readers : Dict ℕ SignalReader)
    → lookup j readers ≡ some q
    → (r : SignalReader) × (lookup j (displace existing id readers) ≡ some r) × (r.grant ≡ q.grant)
unfolding displace
displace-kept none id j q readers h = (q, h, refl)
displace-kept (some e) id j q readers h = elim (Bool-cases (e == id)) [
  | inl same ↦ rw same (q, h, refl)
  | inr differ ↦ rw differ (close_at-kept e j q readers h)
]

-- A reader that is put for the first time is held, and the one it displaces is closed.
pub put-NoOrphans :
    (id : ℕ) (r : SignalReader) (s : GrantStore)
    → NoOrphans s
    → lookup id s.readers ≡ none
    → NoOrphans (put id r s)
unfolding put
put-NoOrphans id r s i new =
    let key = r.grant.conditions in
    let existing = lookup key s.holdings in
    let left = displace existing id s.readers in
    record {
      live_is_held = λ j q h on. elim (Bool-cases (id == j)) [
        | inl same ↦
            let it : r ≡ q = some_inj.0 (sym (rw same at (lookup-insert id j r left)) ∙ h) in
            ap (λ (x : SignalReader). lookup x.grant.conditions (insert key id s.holdings)) (sym it)
            ∙ lookup-insert_self key id s.holdings
            ∙ ap some ((==_iff id j).0 same)
        | inr other ↦
            let (before, away) =
              displace-live existing id j q s.readers other
                (sym (rw other at (lookup-insert id j r left)) ∙ h) on in
            let held_before = i.live_is_held j q before on in
            elim (Bool-cases (key == q.grant.conditions)) [
              | inl mine ↦ absurd (
                  away (
                    ap (λ k. lookup k s.holdings) ((==_iff key q.grant.conditions).0 mine)
                    ∙ held_before))
              | inr apart ↦
                  lookup-insert key q.grant.conditions id s.holdings ∙ rw apart held_before
            ]
      ];
      held_is_known = λ c j h. elim (Bool-cases (key == c)) [
        | inl mine ↦
            let it : id ≡ j =
              some_inj.0 (sym (rw mine at (lookup-insert key c id s.holdings)) ∙ h) in
            (r, lookup-insert id j r left ∙ rw ((==_iff id j).1 it) refl, (==_iff key c).0 mine)
        | inr apart ↦
            let (q, at, named) =
              i.held_is_known c j (sym (rw apart at (lookup-insert key c id s.holdings)) ∙ h) in
            let other : (id == j) ≡ false = ground (arith, new, at, ==_iff id j) in
            let (q', at', grant) = displace-kept existing id j q s.readers at in
            (
              q',
              lookup-insert id j r left ∙ rw other at',
              ap (λ (g : Grant). g.conditions) grant ∙ named,
            )
      ];
    }

-- A reader that is given up at a take is closed.
given_up-NoOrphans :
    (id : ℕ) (key : GrantConditions) (s : GrantStore)
    → NoOrphans s
    → lookup key s.holdings ≡ some id
    → NoOrphans (record { readers = close_at id s.readers; holdings = erase key s.holdings })
given_up-NoOrphans id key s i here = record {
  live_is_held = λ j q h on.
      let (before, away) = close_at-live id j q s.readers h on in
      let held_before = i.live_is_held j q before on in
      elim (Bool-cases (key == q.grant.conditions)) [
        | inl mine ↦
            let it : id ≡ j = some_inj.0 (
              sym here
              ∙ ap (λ k. lookup k s.holdings) ((==_iff key q.grant.conditions).0 mine)
              ∙ held_before) in
            absurd (cc (sym away ∙ (==_iff id j).1 it))
        | inr apart ↦ lookup-erase key q.grant.conditions s.holdings ∙ rw apart held_before
      ];
  held_is_known = λ c j h. elim (Bool-cases (key == c)) [
    | inl mine ↦ absurd (cc (sym (rw mine at (lookup-erase key c s.holdings)) ∙ h))
    | inr apart ↦
        let (q, at, named) =
          i.held_is_known c j (sym (rw apart at (lookup-erase key c s.holdings)) ∙ h) in
        let (q', at', grant) = close_at-kept id j q s.readers at in
        (q', at', ap (λ (g : Grant). g.conditions) grant ∙ named)
  ];
}

pub take-NoOrphans :
    (ask : DecisionAsk) (principal_reference : String) (now : ℕ) (s : GrantStore)
    → NoOrphans s
    → NoOrphans ((take ask principal_reference now s).1)
unfolding take
take-NoOrphans ask principal_reference now s i =
    elim (Option-cases (lookup (asked_conditions ask principal_reference) s.holdings)) [
      | inl e ↦ rw (e, take) i
      | inr (j, e) ↦ elim (Option-cases (lookup j s.readers)) [
        | inl f ↦ rw (e, f, take) i
        | inr (r, f) ↦
            elim (Bool-cases (is_still_live (ending (held r) ask principal_reference now))) [
              | inl l ↦ rw (e, f, l, take) i
              | inr l ↦
                  rw (e, f, l, take)
                    (given_up-NoOrphans j (asked_conditions ask principal_reference) s i e)
            ]
      ]
    ]

close_each-live :
    (ids : List ℕ) (j : ℕ) (q : SignalReader) (readers : Dict ℕ SignalReader)
    → lookup j (close_each ids readers) ≡ some q
    → q.connection_live ≡ true
    → (lookup j readers ≡ some q) × (any (λ id. id == j) ids ≡ false)
unfolding close_each
close_each-live [] j q readers h on = (h, refl)
close_each-live (id ∷ ids) j q readers h on =
    let (after, away) = close_each-live ids j q (close_at id readers) h on in
    let (before, other) = close_at-live id j q readers after on in (before, rw (other, away) refl)

among_holdings :
    (c : GrantConditions) (j : ℕ) (holdings : Dict GrantConditions ℕ)
    → lookup c holdings ≡ some j
    → any (λ id. id == j) (map (λ e. e.1) holdings) ≡ true
unfolding lookup
among_holdings c j [] h = cc h
among_holdings c j ((k, id) ∷ d) h = elim (Bool-cases (k == c)) [
  | inl same ↦ rw ((==_iff id j).1 (some_inj.0 (rw same at h))) refl
  | inr other ↦ ground (arith, among_holdings c j d (rw other at h))
]

pub close-closes :
    (s : GrantStore)
    → NoOrphans s
    → (id : ℕ) (r : SignalReader) → lookup id (close s).readers ≡ some r
    → r.connection_live ≡ false
unfolding close
close-closes s i id r h = elim (Bool-cases r.connection_live) [
  | inr off ↦ off
  | inl on ↦
      let (before, away) = close_each-live (map (λ e. e.1) s.holdings) id r s.readers h on in
      absurd (
        cc (
          sym away
          ∙ among_holdings r.grant.conditions id s.holdings (i.live_is_held id r before on)))
]
