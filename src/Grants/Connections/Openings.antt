-- ===== src/Grants/Connections/Openings.antt =====
-- How a reservation is opened: `_open_reserved`, `GrantReservation.open` and `open` of
-- packages/control-plane/src/sayfirst_control_plane/application/grants.py.
use sayfirst_control_plane.Common.{
  ℕ, ◌+◌, true, not, Option, none, some, [], ◌∷◌, ◌++◌, if◌then◌else◌, text_keyed, nat_keyed,
  Result, ok, err, ⊤,
}
use sayfirst_control_plane.Common.Dict.{lookup, insert}
use sayfirst_control_plane.Grants.{Grant}
use sayfirst_control_plane.Grants.Connections.{
  GrantConnection, Writer, release_reservation, reserve, spend, GrantConnections, GrantError,
  GrantReservation, daemon_stopping, issued, reservation_inactive,
}
use sayfirst_control_plane.Grants.Connections.Endings.{at_known, end_connection}

-- `GrantConnection.__init__`
abbrev pub delivered : Grant → ℕ → Option Writer → GrantConnection
delivered grant uid signal_writer = record {
  grant = grant;
  principal_uid = uid;
  live = true;
  last_signal_at = grant.issued_at;
  signals = [];
  signal_writer = signal_writer;
}

-- What `_open_reserved` does under the lock, and the record of the issue.
abbrev pub registered : Grant → ℕ → Option Writer → GrantConnections → GrantConnections
registered grant uid signal_writer s = record s {
  connections = insert grant.grant_id s.next s.connections;
  known = insert s.next (delivered grant uid signal_writer) s.known;
  next = s.next + 1;
  events = s.events ++ issued grant ∷ [];
}

-- A grant that registers after the stop is ended on arrival.
unfoldable pub arrived : Grant → ℕ → ℕ → GrantConnections → GrantConnections
unfolding end_connection
arrived grant id now s =
    if s.stopping
    then at_known id (λ c. end_connection id c daemon_stopping grant.policy_version now) s
    else s

-- The registration, where the slot was given back.
unfoldable pub registered_after :
    Grant
    → ℕ
    → Option Writer
    → Result GrantError ⊤ × GrantConnections
    → Result GrantError ℕ × GrantConnections
registered_after grant uid signal_writer (err e, t) = (err e, t)
registered_after grant uid signal_writer (ok _, t) =
    (ok t.next, registered grant uid signal_writer t)

-- What `_open_reserved` does before it looks at the stop, with the identity of the connection.
unfoldable pub register_reserved :
    Grant → ℕ → Option Writer → GrantConnections → Result GrantError ℕ × GrantConnections
unfolding release_reservation registered_after
register_reserved grant uid signal_writer s =
    registered_after grant uid signal_writer (release_reservation uid s)

-- What follows the registration.
unfoldable pub passed_on :
    Grant → ℕ → Result GrantError ℕ × GrantConnections → Result GrantError ℕ × GrantConnections
unfolding arrived
passed_on grant now (err e, t) = (err e, t)
passed_on grant now (ok id, t) = (ok id, arrived grant id now t)

-- `_open_reserved`; `now` is the clock's answer.
unfoldable pub open_reserved :
    Grant → ℕ → Option Writer → ℕ → GrantConnections → Result GrantError ℕ × GrantConnections
unfolding register_reserved passed_on
open_reserved grant uid signal_writer now s =
    passed_on grant now (register_reserved grant uid signal_writer s)

-- `GrantReservation.open`
unfoldable pub open_reservation :
    ℕ
    → GrantReservation
    → Grant
    → Option Writer
    → ℕ
    → GrantConnections
    → Result GrantError ℕ × GrantConnections
unfolding open_reserved
open_reservation id r grant signal_writer now s =
    if not r.active
    then (err reservation_inactive, s)
    else open_reserved grant r.principal_uid signal_writer now (spend id r s)

-- `open`, where `none` is a registry without capacity.
unfoldable pub open_connection :
    Grant
    → ℕ
    → Option Writer
    → ℕ
    → GrantConnections
    → Option (Result GrantError ℕ) × GrantConnections
unfolding reserve open_reservation
open_connection grant uid signal_writer now s =
    let (reservation, t) = reserve uid s in
    elim reservation [
      | none ↦ (none, t)
      | some id ↦ elim (lookup id t.reservations) [
        | none ↦ (none, t)
        | some r ↦
            let (answer, u) = open_reservation id r grant signal_writer now t in (some answer, u)
      ]
    ]
