-- ===== src/Grants/Connections/Ticking.antt =====
-- The connections that are live after `tick` and after `policy_version_changed` of
-- packages/control-plane/src/sayfirst_control_plane/application/grants.py.
use sayfirst_control_plane.Common.{
  ℕ, ◌+◌, ◌<◌, ◌≡◌, ◌⊎◌, true, some, List, String, ◌==◌, ==_iff, text_keyed, nat_keyed, ok,
  Bool-cases, inl, inr,
}
use sayfirst_control_plane.Common.Dict.{lookup}
use sayfirst_control_plane.Grants.{seconds}
use sayfirst_control_plane.Grants.Connections.{
  GrantConnections, GrantConnection, new_connections, policy_version_changed,
}
use sayfirst_control_plane.Grants.Connections.Sweeps.{revoke_other, change_policy_version}
use sayfirst_control_plane.Grants.Connections.Steps.{Step, run}
use sayfirst_control_plane.Grants.Connections.Living.{AllNew}
use sayfirst_control_plane.Grants.Connections.Histories.{run_new-Listed}
use sayfirst_control_plane.Grants.Connections.Sweeping.{
  Settles, stay-Settled, end_connection-Settles, snapshot-settled,
}

-- A connection whose grant is of a version.
abbrev OfVersion : String → GrantConnection → Type 0
OfVersion version c = c.grant.policy_version ≡ version

revoke_other-Settles :
    (version : String) (clock : ℕ → ℕ) → Settles (OfVersion version) (revoke_other version clock)
unfolding revoke_other
revoke_other-Settles version clock id c s l there =
    elim (Bool-cases (c.grant.policy_version == version)) [
      | inl same ↦ rw same (
        l,
        stay-Settled (OfVersion version) id c s there
            (λ on. (==_iff c.grant.policy_version version).0 same),
      )
      | inr other ↦ rw other (
          end_connection-Settles (OfVersion version) policy_version_changed version clock id c s l
            there)
    ]

-- A connection whose grant is not over, and that heard a signal within its heartbeat or now.
abbrev pub InTime : ℕ → GrantConnection → Type 0
InTime now c =
    (now < c.grant.expires_at)
    × ((now < c.last_signal_at + seconds c.grant.heartbeat_seconds) ⊎ (c.last_signal_at ≡ now))

-- From a new registry, after any steps that give each grant once, and then a change of the policy's
-- version: the grant of every live connection is of that version.
pub run-change_policy_version :
    (each all : ℕ) (s : GrantConnections) (xs : List Step) (version : String) (clock : ℕ → ℕ)
    (id : ℕ) (c : GrantConnection)
    → new_connections each all ≡ ok s
    → AllNew xs s
    → lookup id (change_policy_version version clock (run xs s)).known ≡ some c
    → c.live ≡ true
    → c.grant.policy_version ≡ version
unfolding change_policy_version
run-change_policy_version each all s xs version clock id c made new h on =
    snapshot-settled (OfVersion version) (revoke_other version clock) (run xs s) id c
      (revoke_other-Settles version clock) (run_new-Listed each all s xs made new) h on
