-- ===== src/Grants/Connections/Keeping.antt =====
-- The limits of a registry, act by act:
-- packages/control-plane/src/sayfirst_control_plane/application/grants.py.
use sayfirst_control_plane.Common.{
  ℕ, ◌≡◌, refl, ap, Bool, false, Option, some, List, [], ◌∷◌, ◌++◌, String, text_keyed, nat_keyed,
  ok, Bool-cases, Option-cases, inl, inr,
}
use sayfirst_control_plane.Common.Dict.{lookup, insert, lookup-insert_self}
use sayfirst_control_plane.Grants.{Grant}
use sayfirst_control_plane.Grants.Connections.{
  Writer, GrantConnections, GrantConnection, GrantReservation, GrantSignal, GrantEndReason,
  release_reservation, spend, cancel, value_of, connection_lost, ended, Event,
}
use sayfirst_control_plane.Grants.Connections.Endings.{
  peer_lost, write, end_connection, raised, unlisted, end_signal,
}
use sayfirst_control_plane.Grants.Connections.Openings.{
  registered, registered_after, register_reserved,
}
use sayfirst_control_plane.Grants.Connections.Bounds.{
  Inv, Inv-lose, Inv-known, insert-Keeps, released, release-answers,
}
use sayfirst_control_plane.Grants.Connections.Reserving.{released-Inv, registered-Inv}
use sayfirst_control_plane.Grants.Connections.Steps.{registering}

-- The events and the stop are no part of the invariant.
pub Inv-aside :
    {each all : ℕ} (s : GrantConnections) (stopping : Bool) (events : List Event)
    → Inv each all s
    → Inv each all (record s { stopping = stopping; events = events })
Inv-aside s stopping events i = record {
  each_is = i.each_is;
  all_is = i.all_is;
  below = i.below;
  in_all = i.in_all;
  of_each = i.of_each;
  active = i.active;
  active_of = i.active_of;
  unused = i.unused;
}

unlisted-Inv :
    {each all : ℕ} (id : ℕ) (c : GrantConnection) (s : GrantConnections)
    → Inv each all s
    → lookup id s.known ≡ some c
    → Inv each all (unlisted id c s)
unlisted-Inv id c s i there =
    Inv-lose s c.grant.grant_id (insert id (record c { live = false }) s.known) i
      (insert-Keeps id c (record c { live = false }) s.known there refl)

pub peer_lost-Inv :
    {each all : ℕ} (id : ℕ) (c : GrantConnection) (reason : String) (now : ℕ) (s : GrantConnections)
    → Inv each all s
    → lookup id s.known ≡ some c
    → Inv each all (peer_lost id c reason now s)
unfolding peer_lost
peer_lost-Inv id c reason now s i there =
    elim (Option-cases (lookup c.grant.grant_id s.connections)) [
      | inl h ↦ rw (h, peer_lost) i
      | inr (j, h) ↦
          rw (h, peer_lost)
            (Inv-aside (unlisted id c s) s.stopping
              (s.events ++ ended c.grant.grant_id reason now ∷ []) (unlisted-Inv id c s i there))
    ]

pub write-Inv :
    {each all : ℕ} (id : ℕ) (c : GrantConnection) (signal : GrantSignal) (now : ℕ)
    (s : GrantConnections)
    → Inv each all s
    → lookup id s.known ≡ some c
    → Inv each all (write id c signal now s)
unfolding write
write-Inv id c signal now s i there = elim (Bool-cases (raised c.signal_writer signal)) [
  | inl h ↦ rw h (peer_lost-Inv id c (value_of connection_lost) now s i there)
  | inr h ↦ rw h (
      Inv-known s
        (insert id (record c { signals = c.signals ++ signal ∷ []; last_signal_at = signal.at })
          s.known)
        i
        (insert-Keeps id c
          (record c { signals = c.signals ++ signal ∷ []; last_signal_at = signal.at }) s.known
          there refl))
]

pub end_connection-Inv :
    {each all : ℕ} (id : ℕ) (c : GrantConnection) (reason : GrantEndReason) (version : String)
    (at : ℕ) (s : GrantConnections)
    → Inv each all s
    → lookup id s.known ≡ some c
    → Inv each all (end_connection id c reason version at s)
unfolding end_connection
end_connection-Inv id c reason version at s i there =
    elim (Option-cases (lookup c.grant.grant_id s.connections)) [
      | inl h ↦ rw (h, end_connection) i
      | inr (j, h) ↦
          let signal = end_signal c reason version at in
          let t = write id (record c { live = false }) signal at (unlisted id c s) in
          rw (h, end_connection)
            (Inv-aside t t.stopping (t.events ++ ended c.grant.grant_id (value_of reason) at ∷ []) (
              write-Inv id (record c { live = false }) signal at (unlisted id c s)
                (unlisted-Inv id c s i there)
                (lookup-insert_self id (record c { live = false }) s.known)))
    ]

pub cancel-Inv :
    {each all : ℕ} (id : ℕ) (r : GrantReservation) (s : GrantConnections)
    → Inv each all s
    → lookup id s.reservations ≡ some r
    → Inv each all ((cancel id r s).1)
unfolding cancel
cancel-Inv id r s i there = elim (Bool-cases r.active) [
  | inr off ↦ rw off i
  | inl on ↦
      let (n, number, _, answer) = release-answers id r s i there on in
      rw (on, answer) (released-Inv id r s i there on n number)
]

pub register_reserved-answers :
    (grant : Grant) (uid : ℕ) (writer : Option Writer) (s t : GrantConnections)
    → release_reservation uid s ≡ (ok tt, t)
    → register_reserved grant uid writer s ≡ (ok t.next, registered grant uid writer t)
unfolding register_reserved registered_after
register_reserved-answers grant uid writer s t h = ap (registered_after grant uid writer) h

pub registering-Inv :
    {each all : ℕ} (id : ℕ) (grant : Grant) (writer : Option Writer) (r : GrantReservation)
    (s : GrantConnections)
    → Inv each all s
    → lookup id s.reservations ≡ some r
    → Inv each all (registering id grant writer r s)
unfolding registering
registering-Inv id grant writer r s i there = elim (Bool-cases r.active) [
  | inr off ↦ rw off i
  | inl on ↦
      let (n, number, _, answer) = release-answers id r s i there on in
      rw
        (
          on,
          register_reserved-answers grant r.principal_uid writer (spend id r s)
              (released r.principal_uid n (spend id r s)) answer,
        )
        (registered-Inv id r s i there on n number grant writer)
]
