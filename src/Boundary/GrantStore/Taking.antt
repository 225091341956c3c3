-- ===== src/Boundary/GrantStore/Taking.antt =====
-- The reader that `take` gives out, and the readers for its question:
-- packages/boundary/src/sayfirst_boundary/cache.py.
use sayfirst_control_plane.Common.{
  ℕ, ◌≡◌, ◌↔◌, ◌⊎◌, refl, sym, ap, ◌∙◌, true, Option, none, some, List, String, text_keyed,
  nat_keyed, option_keyed, ==_self, Bool-cases, Option-cases, inl, inr,
}
use mathlib.Core.Option.{some_inj}
use sayfirst_control_plane.Common.Dict.{lookup, lookup-erase}
use sayfirst_control_plane.Policy.{DecisionAsk}
use sayfirst_control_plane.Boundary.Freshness.{
  ending, ending_live_iff, still_live, asked_conditions,
}
use sayfirst_control_plane.Boundary.Reader.{SignalReader, held}
use sayfirst_control_plane.Boundary.GrantStore.{
  GrantStore, conditions_keyed, same_conditions_iff, take, is_still_live, live_of,
}
use sayfirst_control_plane.Boundary.GrantStore.Orphans.{NoOrphans, take-NoOrphans}
use sayfirst_control_plane.Boundary.GrantStore.Histories.{
  Act, AllNewActs, empty_store, run_acts, run_acts-NoOrphans, empty_store-NoOrphans,
}

module _ (ask : DecisionAsk) (principal_reference : String) (now : ℕ) where
  -- Nothing is taken and nothing is left for the question, or what was held for it is taken and the
  -- store stays as it was.
  take-cases :
      (s : GrantStore)
      → NoOrphans s
      → (((take ask principal_reference now s).0 ≡ none)
          × (lookup
                (asked_conditions ask principal_reference)
                (take ask principal_reference now s).1.holdings
              ≡ none))
        ⊎ ((id : ℕ) × (r : SignalReader) × (lookup
                (asked_conditions ask principal_reference)
                s.holdings
              ≡ some id)
            × (lookup id s.readers ≡ some r)
            × (ending (held r) ask principal_reference now ≡ still_live)
            × (take ask principal_reference now s ≡ (some id, s)))
  unfolding take
  take-cases s i =
      let key = asked_conditions ask principal_reference in
      elim (Option-cases (lookup key s.holdings)) [
        | inl e ↦ rw (e, take) (inl (refl, e))
        | inr (id, e) ↦
            let (r, f, _) = i.held_is_known key id e in
            elim (Bool-cases (is_still_live (ending (held r) ask principal_reference now))) [
              | inl l ↦
                  rw (e, take)
                    (rw (f, take)
                      (rw (l, take)
                        (inr (
                          id,
                          r,
                          refl,
                          f,
                          live_of (ending (held r) ask principal_reference now) l,
                          refl,
                        ))))
              | inr l ↦
                  rw (e, take)
                    (rw (f, take)
                      (rw (l, take)
                        (inl (refl, lookup-erase key key s.holdings ∙ rw (==_self key) refl))))
            ]
      ]

  -- What is taken is what is held, for the question asked, by a reader whose grant permits the act.
  take-held :
      (s : GrantStore) (id : ℕ) (q : SignalReader)
      → NoOrphans s
      → lookup id (take ask principal_reference now s).1.readers ≡ some q
      → (take ask principal_reference now s).0 ≡ some id
      → (q.grant.conditions ≡ asked_conditions ask principal_reference)
        × (ending (held q) ask principal_reference now ≡ still_live)
  take-held s id q i there taken = elim (take-cases s i) [
    | inl (nothing, _) ↦ cc (sym nothing ∙ taken)
    | inr (j, r, here, at, permits, same) ↦
        let it : j ≡ id = some_inj.0 (sym (ap (λ t. t.0) same) ∙ taken) in
        let (r', at', named) = i.held_is_known (asked_conditions ask principal_reference) j here in
        let before : lookup j s.readers ≡ some q =
          ap (λ k. lookup k s.readers) it
          ∙ sym (ap (λ (t : Option ℕ × GrantStore). lookup id t.1.readers) same)
          ∙ there in
        let one : r ≡ q = some_inj.0 (sym at ∙ before) in
        let two : r' ≡ q = some_inj.0 (sym at' ∙ before) in
        (
          ap (λ (x : SignalReader). x.grant.conditions) (sym two) ∙ named,
          ap (λ x. ending (held x) ask principal_reference now) (sym one) ∙ permits,
        )
  ]

  -- What is left for the question is taken.
  left-taken :
      (s : GrantStore) (id : ℕ)
      → NoOrphans s
      → lookup
          (asked_conditions ask principal_reference)
          (take ask principal_reference now s).1.holdings
        ≡ some id
      → (take ask principal_reference now s).0 ≡ some id
  left-taken s id i h = elim (take-cases s i) [
    | inl (_, nothing) ↦ cc (sym nothing ∙ h)
    | inr (j, _, here, _, _, same) ↦
        let it : j ≡ id = some_inj.0 (
          sym here
          ∙ ap
              (λ (t : Option ℕ × GrantStore).
                lookup (asked_conditions ask principal_reference) t.1.holdings)
              (sym same)
          ∙ h) in
        ap (λ t. t.0) same ∙ ap some it
  ]

-- From an empty store, after any puts of new readers, takes, and events that readers hear, and then
-- a take for an ask: of the readers that were put, the one taken is the only one for that question
-- whose channel is live, and the only one whose grant permits the act.
pub run_acts-take :
    (xs : List Act) (ask : DecisionAsk) (principal_reference : String) (now id : ℕ)
    (q : SignalReader)
    → AllNewActs xs empty_store
    → lookup id (take ask principal_reference now (run_acts xs empty_store)).1.readers ≡ some q
    → (((take ask principal_reference now (run_acts xs empty_store)).0 ≡ some id) ↔ (
        (q.connection_live ≡ true)
        × (q.grant.conditions ≡ asked_conditions ask principal_reference)))
      × (((take ask principal_reference now (run_acts xs empty_store)).0 ≡ some id)
          ↔ (ending (held q) ask principal_reference now ≡ still_live))
run_acts-take xs ask principal_reference now id q new there = (
  (
    (λ taken.
        let (named, permits) = take-held ask principal_reference now s id q i there taken in
        (((ending_live_iff (held q) ask principal_reference now).0 permits).0, named)),
    λ (on, named). is_taken on named,
  ),
  (
    (λ taken. (take-held ask principal_reference now s id q i there taken).1),
    λ permits.
        let (on, _, _, _, matching) =
          (ending_live_iff (held q) ask principal_reference now).0 permits in
        is_taken on (
          (same_conditions_iff q.grant.conditions (asked_conditions ask principal_reference)).0
            matching),
  ),
)
  where
    s : GrantStore
    s = run_acts xs empty_store

    i : NoOrphans s
    i = run_acts-NoOrphans xs empty_store empty_store-NoOrphans new

    is_taken :
        q.connection_live ≡ true
        → q.grant.conditions ≡ asked_conditions ask principal_reference
        → (take ask principal_reference now s).0 ≡ some id
    is_taken on named = left-taken ask principal_reference now s id i (
        ap (λ c. lookup c (take ask principal_reference now s).1.holdings) (sym named)
        ∙ (take-NoOrphans ask principal_reference now s i).live_is_held id q there on)
