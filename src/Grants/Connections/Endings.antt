-- ===== src/Grants/Connections/Endings.antt =====
-- How a connection is written to and how it ends: `GrantConnection`, `_peer_lost` and `_end` of
-- packages/control-plane/src/sayfirst_control_plane/application/grants.py.
use sayfirst_control_plane.Common.{
  ℕ, Bool, false, Option, none, some, List, [], ◌∷◌, ◌++◌, String, if◌then◌else◌, text_keyed,
  nat_keyed,
}
use sayfirst_control_plane.Common.Dict.{lookup, insert, erase}
use sayfirst_control_plane.Grants.Connections.{
  Writer, value_of, Event, GrantConnection, GrantConnections, GrantEndReason, GrantSignal,
  connection_lost, ended, expired, grant_ended,
}

-- `_peer_lost`
unfoldable pub peer_lost : ℕ → GrantConnection → String → ℕ → GrantConnections → GrantConnections
peer_lost id c reason now s = elim (lookup c.grant.grant_id s.connections) [
  | none ↦ s
  | some _ ↦ record s {
    connections = erase c.grant.grant_id s.connections;
    known = insert id (record c { live = false }) s.known;
    events = s.events ++ ended c.grant.grant_id reason now ∷ [];
  }
]

abbrev pub raised : Option Writer → GrantSignal → Bool
raised none signal = false
raised (some writer) signal = writer signal

-- `GrantConnection._write`; a writer that raises loses the connection, at the instant `now`.
unfoldable pub write : ℕ → GrantConnection → GrantSignal → ℕ → GrantConnections → GrantConnections
unfolding peer_lost
write id c signal now s =
    if raised c.signal_writer signal
    then peer_lost id c (value_of connection_lost) now s
    else record s {
      known =
          insert id (record c { signals = c.signals ++ signal ∷ []; last_signal_at = signal.at })
            s.known;
    }

-- The connection is taken out of the registry, and is not live.
abbrev pub unlisted : ℕ → GrantConnection → GrantConnections → GrantConnections
unlisted id c s = record s {
  connections = erase c.grant.grant_id s.connections;
  known = insert id (record c { live = false }) s.known;
}

abbrev pub recorded : Event → GrantConnections → GrantConnections
recorded e s = record s { events = s.events ++ e ∷ [] }

-- The signal of an end.
abbrev pub end_signal : GrantConnection → GrantEndReason → String → ℕ → GrantSignal
end_signal c reason policy_version at = record {
  kind = grant_ended;
  grant_id = c.grant.grant_id;
  policy_version = policy_version;
  at = at;
  reason = some reason;
}

-- `_end`
unfoldable pub end_connection :
    ℕ → GrantConnection → GrantEndReason → String → ℕ → GrantConnections → GrantConnections
unfolding write
end_connection id c reason policy_version at s = elim (lookup c.grant.grant_id s.connections) [
  | none ↦ s
  | some _ ↦ recorded (ended c.grant.grant_id (value_of reason) at) (
      write id (record c { live = false }) (end_signal c reason policy_version at) at
        (unlisted id c s))
]

-- `peer_closed` and `peer_wrote`, of a connection.
unfoldable pub peer_ended : ℕ → GrantConnection → String → ℕ → GrantConnections → GrantConnections
unfolding peer_lost
peer_ended id c reason now s = if c.live then peer_lost id c reason now s else s

-- `reached_its_lifetime`, with the registry's `_reached_its_lifetime`.
unfoldable pub reached_its_lifetime : ℕ → GrantConnection → ℕ → GrantConnections → GrantConnections
unfolding end_connection
reached_its_lifetime id c now s =
    if c.live then end_connection id c expired c.grant.policy_version now s else s

-- `drain`
unfoldable pub drain : ℕ → GrantConnection → GrantConnections → List GrantSignal × GrantConnections
drain id c s = (c.signals, record s { known = insert id (record c { signals = [] }) s.known })

-- What becomes of a connection by its identity.
abbrev pub at_known :
    ℕ
    → (GrantConnection → GrantConnections → GrantConnections)
    → GrantConnections
    → GrantConnections
at_known id f s = elim (lookup id s.known) [ none ↦ s | some c ↦ f c s ]
