-- ===== src/Grants/Connections/Steps.antt =====
-- The steps that threads take on a registry:
-- packages/control-plane/src/sayfirst_control_plane/application/grants.py. A step is a section under the
-- lock together with what its thread does around it: the end of a connection with the signal of it, a
-- reservation's test and reset with the section they guard, since one thread has the reservation. The
-- write of a signal and the drain of a connection take no lock, and are steps of their own.
use sayfirst_control_plane.Common.{
  ℕ, true, Option, none, some, List, [], ◌∷◌, String, if◌then◌else◌, text_keyed, nat_keyed,
}
use sayfirst_control_plane.Common.Dict.{lookup}
use sayfirst_control_plane.Grants.{Grant}
use sayfirst_control_plane.Grants.Connections.{
  Writer, GrantConnections, GrantReservation, GrantSignal, GrantEndReason, reserve, spend, cancel,
}
use sayfirst_control_plane.Grants.Connections.Endings.{
  write, end_connection, peer_lost, peer_ended, reached_its_lifetime, drain, at_known,
}
use sayfirst_control_plane.Grants.Connections.Openings.{register_reserved}

-- `registers` is an opening without the end on arrival, `ends` an `_end`, `writes` a `_write` and
-- `loses` a `_peer_lost`, which other threads' steps may part from the test whether its connection is
-- live; `peer_ends` has the test too.
pub data Step : Type 0 where
  reserves : ℕ → Step
  cancels : ℕ → Step
  registers : ℕ → Grant → Option Writer → Step
  ends : ℕ → GrantEndReason → String → ℕ → Step
  writes : ℕ → GrantSignal → ℕ → Step
  peer_ends : ℕ → String → ℕ → Step
  loses : ℕ → String → ℕ → Step
  lives_out : ℕ → ℕ → Step
  drains : ℕ → Step
  stops : Step

-- What becomes of a reservation by its identity.
abbrev pub at_reservation :
    ℕ
    → (GrantReservation → GrantConnections → GrantConnections)
    → GrantConnections
    → GrantConnections
at_reservation id f s = elim (lookup id s.reservations) [ none ↦ s | some r ↦ f r s ]

-- `GrantReservation.open` up to the registration.
unfoldable pub registering :
    ℕ → Grant → Option Writer → GrantReservation → GrantConnections → GrantConnections
unfolding register_reserved
registering id grant writer r s =
    if r.active then (register_reserved grant r.principal_uid writer (spend id r s)).1 else s

unfoldable pub step : Step → GrantConnections → GrantConnections
unfolding reserve cancel registering end_connection write peer_lost peer_ended reached_its_lifetime
    drain
step (reserves uid) s = (reserve uid s).1
step (cancels id) s = at_reservation id (λ r t. (cancel id r t).1) s
step (registers id grant writer) s = at_reservation id (registering id grant writer) s
step (ends id reason policy_version at) s =
    at_known id (λ c. end_connection id c reason policy_version at) s
step (writes id signal now) s = at_known id (λ c. write id c signal now) s
step (peer_ends id reason now) s = at_known id (λ c. peer_ended id c reason now) s
step (loses id reason now) s = at_known id (λ c. peer_lost id c reason now) s
step (lives_out id now) s = at_known id (λ c. reached_its_lifetime id c now) s
step (drains id) s = at_known id (λ c t. (drain id c t).1) s
step stops s = record s { stopping = true }

unfoldable pub run : List Step → GrantConnections → GrantConnections
unfolding step
run [] s = s
run (x ∷ xs) s = run xs (step x s)
