-- ===== src/Boundary/GrantStore.antt =====
-- `GrantStore` of packages/boundary/src/sayfirst_boundary/cache.py: the readers that a boundary
-- holds, one for each question. Readers are shared objects, so `readers` is the store of objects, by
-- identity, and `holdings` keeps identities. Each method is one act.
pub mod Orphans
pub mod Histories
pub mod Taking
use sayfirst_control_plane.Common.{
  List, [], ◌∷◌, map, ℕ, ◌≡◌, ◌↔◌, Bool, true, false, not, Option, none, some, String, arith,
  if◌then◌else◌, ◌==◌, ==_iff, text_keyed, option_keyed, nat_keyed, Keyed, Bool-cases, Option-cases,
  inl, inr,
}
use sayfirst_control_plane.Common.Dict.{Dict, lookup, insert, erase}
use sayfirst_control_plane.Policy.{DecisionAsk}
use sayfirst_control_plane.Grants.{GrantConditions, same_conditions}
use sayfirst_control_plane.Boundary.Freshness.{Ending, ending, still_live, asked_conditions}
use sayfirst_control_plane.Boundary.Reader.{SignalReader, held, close_reader}

pub same_conditions_iff : (c d : GrantConditions) → (same_conditions c d ≡ true) ↔ (c ≡ d)
same_conditions_iff c d = (
  λ h. ground (
    arith,
    ==_iff c.scope d.scope,
    ==_iff c.capability d.capability,
    ==_iff c.principal_reference d.principal_reference,
    ==_iff c.arguments_digest d.arguments_digest,
  ),
  λ h. ground (
    arith,
    ==_iff c.scope d.scope,
    ==_iff c.capability d.capability,
    ==_iff c.principal_reference d.principal_reference,
    ==_iff c.arguments_digest d.arguments_digest,
  ),
)

instance abbrev pub conditions_keyed : Keyed GrantConditions
conditions_keyed = record { same = same_conditions; same_iff = same_conditions_iff }

pub record GrantStore : Type 0 where
  pub readers : Dict ℕ SignalReader
  pub holdings : Dict GrantConditions ℕ

-- `reader.close()`, on the reader of an identity.
unfoldable pub close_at : ℕ → Dict ℕ SignalReader → Dict ℕ SignalReader
close_at id readers = elim (lookup id readers) [
  | none ↦ readers
  | some r ↦ insert id (close_reader r) readers
]

-- The reader that is displaced is closed, unless it is the one put.
unfoldable pub displace : Option ℕ → ℕ → Dict ℕ SignalReader → Dict ℕ SignalReader
unfolding close_at
displace none id readers = readers
displace (some existing) id readers =
    if not (existing == id) then close_at existing readers else readers

-- `GrantStore.put`, of the reader of an identity.
unfoldable pub put : ℕ → SignalReader → GrantStore → GrantStore
unfolding displace
put id r s = record {
  readers = insert id r (displace (lookup r.grant.conditions s.holdings) id s.readers);
  holdings = insert r.grant.conditions id s.holdings;
}

abbrev pub is_still_live : Ending → Bool
is_still_live still_live = true
is_still_live _ = false

-- `GrantStore.take`
unfoldable pub take : DecisionAsk → String → ℕ → GrantStore → Option ℕ × GrantStore
unfolding close_at
take ask principal_reference now s =
    elim (lookup (asked_conditions ask principal_reference) s.holdings) [
      | none ↦ (none, s)
      | some id ↦ elim (lookup id s.readers) [
        | none ↦ (none, s)
        | some r ↦
            if is_still_live (ending (held r) ask principal_reference now) then (some id, s) else (
              none,
              record {
                readers = close_at id s.readers;
                holdings = erase (asked_conditions ask principal_reference) s.holdings;
              },
            )
      ]
    ]

pub live_of : (e : Ending) → is_still_live e ≡ true → e ≡ still_live
live_of e h = ground arith

-- `GrantStore.close`: every reader that was held is closed, after the lock is given up. The close of a
-- channel is taken not to raise, and no other act comes between two of the closes.
unfoldable pub close_each : List ℕ → Dict ℕ SignalReader → Dict ℕ SignalReader
unfolding close_at
close_each [] readers = readers
close_each (id ∷ ids) readers = close_each ids (close_at id readers)

unfoldable pub close : GrantStore → GrantStore
unfolding close_each
close s = record { readers = close_each (map (λ e. e.1) s.holdings) s.readers; holdings = [] }
