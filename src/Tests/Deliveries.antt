-- ===== src/Tests/Deliveries.antt =====
-- A registry with room for one connection of each principal: one grant is delivered, ended by its
-- peer, and the registry is shut down.
use sayfirst_control_plane.Common.{
  ℕ, ◌+◌, ◌≤◌, ◌≡◌, ◌≢◌, ◌↔◌, refl, false, true, none, some, List, [], ◌∷◌, ok, err, text_keyed,
  nat_keyed,
}
use sayfirst_control_plane.Common.Dict.{count, lookup, insert}
use sayfirst_control_plane.Grants.{Grant}
use sayfirst_control_plane.Grants.Connections.{
  GrantConnection, new_connections, without_connections, heartbeat, anything, per_principal,
  no_such_key, reservation_inactive,
}
use sayfirst_control_plane.Grants.Connections.Openings.{open_reservation, delivered}
use sayfirst_control_plane.Grants.Connections.Sweeps.{shutdown, change_policy_version}
use sayfirst_control_plane.Grants.Connections.Steps.{Step, reserves, registers, run}
use sayfirst_control_plane.Grants.Connections.Limits.{run-bounded, open_reservation_iff}
use sayfirst_control_plane.Grants.Connections.Ticking.{run-change_policy_version}
use sayfirst_control_plane.Grants.Connections.Living.{AllNew}
use sayfirst_control_plane.Grants.Connections.Histories.{run-live_iff, run-shutdown}

abbrev first_grant : Grant
first_grant = record {
  grant_id = "g1";
  decision_ref = "d1";
  policy_version = "v1";
  issued_at = 0;
  lifetime_seconds = 60;
  expires_at = 60000000;
  heartbeat_seconds = 10;
  conditions = record {
    scope = "site";
    capability = "pump.start";
    principal_reference = "user:ann";
    arguments_digest = none;
  };
}

-- Two reservations are asked for, and the one that is granted is opened.
abbrev delivery : List Step
delivery = reserves 7 ∷ reserves 7 ∷ registers 0 first_grant none ∷ []

small : new_connections 1 8 ≡ ok (without_connections 1 8)
unfolding new_connections
small = refl

run-bounded_example :
    (count anything (run delivery (without_connections 1 8)).connections
        + (run delivery (without_connections 1 8)).reserved_total
      ≤ 8)
    × ((uid : ℕ) → per_principal uid (run delivery (without_connections 1 8)) ≤ 1)
run-bounded_example = run-bounded 1 8 (without_connections 1 8) delivery small

abbrev asked : List Step
asked = reserves 7 ∷ []

one_reserved :
    lookup 0 (run asked (without_connections 1 8)).reservations
    ≡ some (record { principal_uid = 7; active = true })
unfolding run lookup insert
one_reserved = refl

open_reservation_iff_example :
    (((open_reservation 0
          (record { principal_uid = 7; active = true })
          first_grant
          none
          5
          (run asked (without_connections 1 8))).0
        ≡ err reservation_inactive)
      ↔ (true ≡ false))
    × ((open_reservation 0
          (record { principal_uid = 7; active = true })
          first_grant
          none
          5
          (run asked (without_connections 1 8))).0
        ≢ err no_such_key)
open_reservation_iff_example =
    open_reservation_iff 1 8 (without_connections 1 8) asked 0
      (record { principal_uid = 7; active = true }) first_grant none 5 small one_reserved

one_grant : AllNew delivery (without_connections 1 8)
unfolding run lookup insert
one_grant = (tt, (tt, ((λ i c h. cc h), tt)))

one_known :
    lookup 0 (run delivery (without_connections 1 8)).known ≡ some (delivered first_grant 7 none)
unfolding run lookup insert
one_known = refl

run-live_iff_example :
    (true ≡ true) ↔ (lookup "g1" (run delivery (without_connections 1 8)).connections ≡ some 0)
run-live_iff_example =
    run-live_iff 1 8 (without_connections 1 8) delivery 0 (delivered first_grant 7 none) small
      one_grant one_known

abbrev at_nine : ℕ → ℕ
at_nine id = 9

run-shutdown_example :
    ((shutdown at_nine (run delivery (without_connections 1 8))).stopping ≡ true)
    × ((id : ℕ) (c : GrantConnection)
        → lookup id (shutdown at_nine (run delivery (without_connections 1 8))).known ≡ some c
        → c.live ≡ false)
run-shutdown_example = run-shutdown 1 8 (without_connections 1 8) delivery at_nine small one_grant

-- At eleven seconds the connection is told that it is alive.
abbrev told : GrantConnection
told = record (delivered first_grant 7 none) {
  signals =
      record {
        kind = heartbeat;
        grant_id = "g1";
        policy_version = "v1";
        at = 11000000;
        reason = none;
      }
      ∷ [];
  last_signal_at = 11000000;
}

kept_known :
    lookup 0 (change_policy_version "v1" at_nine (run delivery (without_connections 1 8))).known
    ≡ some (delivered first_grant 7 none)
unfolding run lookup insert change_policy_version
kept_known = refl

run-change_policy_version_example : first_grant.policy_version ≡ "v1"
run-change_policy_version_example =
    run-change_policy_version 1 8 (without_connections 1 8) delivery "v1" at_nine 0
      (delivered first_grant 7 none) small one_grant kept_known refl
