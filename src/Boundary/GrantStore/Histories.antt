-- ===== src/Boundary/GrantStore/Histories.antt =====
-- Histories of a boundary's grant store and of the readers it is given:
-- packages/boundary/src/sayfirst_boundary/cache.py.
use sayfirst_control_plane.Common.{
  ℕ, ◌≡◌, ⊤, refl, sym, ap, ◌∙◌, true, false, none, some, List, [], ◌∷◌, String, ◌==◌, ==_iff,
  nat_keyed, Bool-cases, Option-cases, inl, inr,
}
use mathlib.Core.Option.{some_inj}
use sayfirst_control_plane.Common.Dict.{lookup, insert, lookup-insert}
use sayfirst_control_plane.Policy.{DecisionAsk}
use sayfirst_control_plane.Grants.{Grant}
use sayfirst_control_plane.Boundary.Reader.{
  SignalReader, Event, happened, apply_signal, signalled, channel_ended, closed,
}
use sayfirst_control_plane.Boundary.GrantStore.{GrantStore, conditions_keyed, put, take, close}
use sayfirst_control_plane.Boundary.GrantStore.Orphans.{
  NoOrphans, put-NoOrphans, take-NoOrphans, close-closes,
}

-- A reader is put under a new identity, an ask takes one, or a reader's channel tells it something.
pub data Act : Type 0 where
  puts : ℕ → SignalReader → Act
  takes : DecisionAsk → String → ℕ → Act
  hears : ℕ → Event → Act

-- A reader hears an event, whether it is held or not.
unfoldable pub heard : ℕ → Event → GrantStore → GrantStore
unfolding happened
heard id e s = elim (lookup id s.readers) [
  | none ↦ s
  | some r ↦ record s { readers = insert id (happened e r) s.readers }
]

unfoldable pub act : Act → GrantStore → GrantStore
unfolding put take heard
act (puts id r) s = put id r s
act (takes ask principal_reference now) s = (take ask principal_reference now s).1
act (hears id e) s = heard id e s

unfoldable pub run_acts : List Act → GrantStore → GrantStore
unfolding act
run_acts [] s = s
run_acts (x ∷ xs) s = run_acts xs (act x s)

abbrev pub IsNewAct : Act → GrantStore → Type 0
IsNewAct (puts id r) s = lookup id s.readers ≡ none
IsNewAct _ s = ⊤

-- No reader is put twice.
abbrev pub AllNewActs : List Act → GrantStore → Type 0
AllNewActs [] s = ⊤
AllNewActs (x ∷ xs) s = IsNewAct x s × AllNewActs xs (act x s)

abbrev pub empty_store : GrantStore
empty_store = record { readers = []; holdings = [] }

-- An event changes no grant, and revives no channel.
happened-kept :
    (e : Event) (r : SignalReader)
    → ((happened e r).grant ≡ r.grant)
      × ((happened e r).connection_live ≡ true → r.connection_live ≡ true)
unfolding happened apply_signal
happened-kept (signalled s) r = elim (Option-cases r.ended_by) [
  | inl e ↦ rw e (refl, λ h. h)
  | inr (why, e) ↦ rw e (refl, λ h. h)
]
happened-kept channel_ended r = (refl, λ h. cc h)
happened-kept closed r = (refl, λ h. cc h)

heard-NoOrphans : (id : ℕ) (e : Event) (s : GrantStore) → NoOrphans s → NoOrphans (heard id e s)
unfolding heard
heard-NoOrphans id e s i = elim (Option-cases (lookup id s.readers)) [
  | inl none_there ↦ rw (none_there, heard) i
  | inr (r, there) ↦
      let (grant, alive) = happened-kept e r in
      rw (there, heard)
        (record {
          live_is_held = λ j q h on. elim (Bool-cases (id == j)) [
            | inl same ↦
                let it : happened e r ≡ q =
                  some_inj.0 (sym (rw same at (lookup-insert id j (happened e r) s.readers)) ∙ h) in
                let before =
                  i.live_is_held id r there
                    (alive (ap (λ (x : SignalReader). x.connection_live) it ∙ on)) in
                ap (λ (g : Grant). lookup g.conditions s.holdings)
                  (sym (ap (λ (x : SignalReader). x.grant) it) ∙ grant)
                ∙ before
                ∙ ap some ((==_iff id j).0 same)
            | inr other ↦
                i.live_is_held j q
                  (sym (rw other at (lookup-insert id j (happened e r) s.readers)) ∙ h) on
          ];
          held_is_known = λ c j h.
              let (q, at, named) = i.held_is_known c j h in
              elim (Bool-cases (id == j)) [
                | inl same ↦
                    let it : r ≡ q =
                      some_inj.0
                        (sym there ∙ ap (λ k. lookup k s.readers) ((==_iff id j).0 same) ∙ at) in
                    (
                      happened e r,
                      lookup-insert id j (happened e r) s.readers ∙ rw same refl,
                      ap (λ (g : Grant). g.conditions)
                            (grant ∙ ap (λ (x : SignalReader). x.grant) it)
                          ∙ named,
                    )
                | inr other ↦ (q, lookup-insert id j (happened e r) s.readers ∙ rw other at, named)
              ];
        })
]

pub run_acts-NoOrphans :
    (xs : List Act) (s : GrantStore) → NoOrphans s → AllNewActs xs s → NoOrphans (run_acts xs s)
unfolding run_acts act
run_acts-NoOrphans [] s i new = i
run_acts-NoOrphans (puts id r ∷ xs) s i new =
    run_acts-NoOrphans xs (put id r s) (put-NoOrphans id r s i new.0) new.1
run_acts-NoOrphans (takes ask principal_reference now ∷ xs) s i new =
    run_acts-NoOrphans xs ((take ask principal_reference now s).1)
      (take-NoOrphans ask principal_reference now s i) new.1
run_acts-NoOrphans (hears id e ∷ xs) s i new =
    run_acts-NoOrphans xs (heard id e s) (heard-NoOrphans id e s i) new.1

pub empty_store-NoOrphans : NoOrphans empty_store
unfolding lookup
empty_store-NoOrphans = record { live_is_held = λ id r h on. cc h; held_is_known = λ c id h. cc h }

-- From an empty store, after any puts of new readers, takes, and events that readers hear, in any
-- order: a reader whose channel is live is held for its question, and closing the store leaves no
-- reader's channel live, those that were displaced included.
pub run_acts-close :
    (xs : List Act) (id : ℕ) (r : SignalReader)
    → AllNewActs xs empty_store
    → (lookup id (run_acts xs empty_store).readers ≡ some r
        → r.connection_live ≡ true
        → lookup r.grant.conditions (run_acts xs empty_store).holdings ≡ some id)
      × (lookup id (close (run_acts xs empty_store)).readers ≡ some r → r.connection_live ≡ false)
run_acts-close xs id r new =
    let i = run_acts-NoOrphans xs empty_store empty_store-NoOrphans new in
    ((λ h on. i.live_is_held id r h on), λ h. close-closes (run_acts xs empty_store) i id r h)
