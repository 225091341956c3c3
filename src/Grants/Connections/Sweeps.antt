-- ===== src/Grants/Connections/Sweeps.antt =====
-- What is told to every connection: `policy_version_changed`, `tick` and `shutdown` of
-- packages/control-plane/src/sayfirst_control_plane/application/grants.py.
use sayfirst_control_plane.Common.{
  ℕ, ◌+◌, true, not, none, List, [], ◌∷◌, map, String, leb, if◌then◌else◌, ◌==◌, text_keyed,
  nat_keyed,
}
use sayfirst_control_plane.Grants.{seconds}
use sayfirst_control_plane.Grants.Connections.{
  GrantConnection, GrantConnections, daemon_stopping, expired, heartbeat, policy_version_changed,
}
use sayfirst_control_plane.Grants.Connections.Endings.{at_known, end_connection, write}

-- `_snapshot`
abbrev pub snapshot : GrantConnections → List ℕ
snapshot s = map (λ c. c.1) s.connections

-- A method's loop over a snapshot, whatever became of the connections meanwhile.
unfoldable pub for_each :
    (ℕ → GrantConnection → GrantConnections → GrantConnections)
    → List ℕ
    → GrantConnections
    → GrantConnections
for_each f [] s = s
for_each f (id ∷ ids) s = for_each f ids (at_known id (f id) s)

-- What `policy_version_changed` does to a connection; `clock` answers for each.
unfoldable pub revoke_other :
    String → (ℕ → ℕ) → ℕ → GrantConnection → GrantConnections → GrantConnections
unfolding end_connection
revoke_other policy_version clock id c s =
    if not (c.grant.policy_version == policy_version)
    then end_connection id c policy_version_changed policy_version (clock id) s
    else s

-- The method `policy_version_changed`
unfoldable pub change_policy_version : String → (ℕ → ℕ) → GrantConnections → GrantConnections
unfolding for_each revoke_other
change_policy_version policy_version clock s =
    for_each (revoke_other policy_version clock) (snapshot s) s

-- What `tick` does to a connection.
unfoldable pub tick_one :
    ℕ → String → (ℕ → ℕ) → ℕ → GrantConnection → GrantConnections → GrantConnections
unfolding end_connection write
tick_one now current_policy_version clock id c s =
    if leb c.grant.expires_at now
    then end_connection id c expired current_policy_version now s
    else if leb (c.last_signal_at + seconds c.grant.heartbeat_seconds) now
    then write id c
        (record {
          kind = heartbeat;
          grant_id = c.grant.grant_id;
          policy_version = current_policy_version;
          at = now;
          reason = none;
        })
        (clock id) s
    else s

-- `tick`
unfoldable pub tick : ℕ → String → (ℕ → ℕ) → GrantConnections → GrantConnections
unfolding for_each tick_one
tick now current_policy_version clock s =
    for_each (tick_one now current_policy_version clock) (snapshot s) s

-- `shutdown`
unfoldable pub shutdown : (ℕ → ℕ) → GrantConnections → GrantConnections
unfolding for_each end_connection
shutdown clock s =
    let t = record s { stopping = true } in
    for_each (λ id c. end_connection id c daemon_stopping c.grant.policy_version (clock id))
      (snapshot t) t
