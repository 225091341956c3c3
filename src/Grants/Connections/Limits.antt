-- ===== src/Grants/Connections/Limits.antt =====
-- The limits of a registry, step by step:
-- packages/control-plane/src/sayfirst_control_plane/application/grants.py.
use sayfirst_control_plane.Common.{
  ℕ, ◌+◌, ◌≤◌, ◌≡◌, ◌≢◌, ◌↔◌, refl, ap, subst, true, false, not, Option, some, List, [], ◌∷◌, leb,
  text_keyed, nat_keyed, ok, err, arith, Bool-cases, Option-cases, inl, inr, refused-eq-ok, ok_inj,
}
use sayfirst_control_plane.Common.Dict.{lookup, insert, count}
use sayfirst_control_plane.Grants.{Grant}
use sayfirst_control_plane.Grants.Connections.{
  expired, Writer, GrantConnections, GrantConnection, GrantReservation, anything, per_principal,
  spend, cancel, new_connections, without_connections, no_such_key, reservation_inactive,
}
use sayfirst_control_plane.Grants.Connections.Endings.{
  peer_lost, write, end_connection, peer_ended, reached_its_lifetime, drain, at_known,
}
use sayfirst_control_plane.Grants.Connections.Openings.{open_reservation, open_reserved, passed_on}
use sayfirst_control_plane.Grants.Connections.Bounds.{
  Inv, Inv-known, insert-Keeps, reserve-Inv, released, release-answers,
}
use sayfirst_control_plane.Grants.Connections.Steps.{
  Step, at_reservation, registering, step, run, reserves, cancels, registers, ends, writes,
  peer_ends, loses, lives_out, drains, stops,
}
use sayfirst_control_plane.Grants.Connections.Keeping.{
  Inv-aside, peer_lost-Inv, write-Inv, end_connection-Inv, cancel-Inv, register_reserved-answers,
  registering-Inv,
}

-- What is done with a connection or a reservation keeps the invariant, if it does so wherever there
-- is one.
at_known-Inv :
    {each all : ℕ} (id : ℕ) (f : GrantConnection → GrantConnections → GrantConnections)
    (s : GrantConnections)
    → Inv each all s
    → ((c : GrantConnection) → lookup id s.known ≡ some c → Inv each all (f c s))
    → Inv each all (at_known id f s)
at_known-Inv id f s i h = elim (Option-cases (lookup id s.known)) [
  | inl e ↦ rw (e, at_known) i
  | inr (c, e) ↦ rw (e, at_known) (h c e)
]

at_reservation-Inv :
    {each all : ℕ} (id : ℕ) (f : GrantReservation → GrantConnections → GrantConnections)
    (s : GrantConnections)
    → Inv each all s
    → ((r : GrantReservation) → lookup id s.reservations ≡ some r → Inv each all (f r s))
    → Inv each all (at_reservation id f s)
at_reservation-Inv id f s i h = elim (Option-cases (lookup id s.reservations)) [
  | inl e ↦ rw (e, at_reservation) i
  | inr (r, e) ↦ rw (e, at_reservation) (h r e)
]

step-Inv :
    {each all : ℕ} (x : Step) (s : GrantConnections) → Inv each all s → Inv each all (step x s)
unfolding step peer_ended reached_its_lifetime drain
step-Inv (reserves uid) s i = reserve-Inv uid s i
step-Inv (cancels id) s i =
    at_reservation-Inv id (λ r t. (cancel id r t).1) s i (λ r h. cancel-Inv id r s i h)
step-Inv (registers id grant writer) s i =
    at_reservation-Inv id (registering id grant writer) s i
      (λ r h. registering-Inv id grant writer r s i h)
step-Inv (ends id reason version at) s i =
    at_known-Inv id (λ c. end_connection id c reason version at) s i
      (λ c h. end_connection-Inv id c reason version at s i h)
step-Inv (writes id signal now) s i =
    at_known-Inv id (λ c. write id c signal now) s i (λ c h. write-Inv id c signal now s i h)
step-Inv (peer_ends id reason now) s i =
    at_known-Inv id (λ c. peer_ended id c reason now) s i
      (λ c h. elim (Bool-cases c.live) [
        | inl on ↦ rw on (peer_lost-Inv id c reason now s i h)
        | inr off ↦ rw off i
      ])
step-Inv (loses id reason now) s i =
    at_known-Inv id (λ c. peer_lost id c reason now) s i
      (λ c h. peer_lost-Inv id c reason now s i h)
step-Inv (lives_out id now) s i =
    at_known-Inv id (λ c. reached_its_lifetime id c now) s i
      (λ c h. elim (Bool-cases c.live) [
        | inl on ↦ rw on (end_connection-Inv id c expired c.grant.policy_version now s i h)
        | inr off ↦ rw off i
      ])
step-Inv (drains id) s i =
    at_known-Inv id (λ c t. (drain id c t).1) s i
      (λ c h.
        Inv-known s (insert id (record c { signals = [] }) s.known) i
          (insert-Keeps id c (record c { signals = [] }) s.known h refl))
step-Inv stops s i = Inv-aside s true s.events i

run-Inv :
    {each all : ℕ} (xs : List Step) (s : GrantConnections)
    → Inv each all s
    → Inv each all (run xs s)
unfolding run
run-Inv [] s i = i
run-Inv (x ∷ xs) s i = run-Inv xs (step x s) (step-Inv x s i)

without_connections-Inv : (each all : ℕ) → Inv each all (without_connections each all)
unfolding lookup count
without_connections-Inv each all = record {
  each_is = refl;
  all_is = refl;
  below = refl;
  in_all = omega arith;
  of_each = λ uid. omega arith;
  active = refl;
  active_of = λ uid. refl;
  unused = λ id h. refl;
}

pub new_connections-without :
    (each all : ℕ) (s : GrantConnections)
    → new_connections each all ≡ ok s
    → without_connections each all ≡ s
unfolding new_connections
new_connections-without each all s h =
    let (_, h) = refused-eq-ok (not (leb each 4096)) _ _ h in
    let (_, h) = refused-eq-ok (not (leb all 65536)) _ _ h in ok_inj h

-- From a new registry, whatever steps are taken on it: the connections kept and the slots reserved
-- are never more than the limit in all, and of no principal more than the limit of each.
pub run-bounded :
    (each all : ℕ) (s : GrantConnections) (xs : List Step)
    → new_connections each all ≡ ok s
    → (count anything (run xs s).connections + (run xs s).reserved_total ≤ all)
      × ((uid : ℕ) → per_principal uid (run xs s) ≤ each)
unfolding per_principal
run-bounded each all s xs made =
    let i = run-Inv xs s (
      subst (λ t. Inv each all t) (new_connections-without each all s made)
        (without_connections-Inv each all)) in
    (i.in_all, i.of_each)

-- An active reservation is opened.
open_reservation-opens :
    {each all : ℕ} (id : ℕ) (r : GrantReservation) (grant : Grant) (writer : Option Writer)
    (now : ℕ) (s : GrantConnections)
    → Inv each all s
    → lookup id s.reservations ≡ some r
    → r.active ≡ true
    → (open_reservation id r grant writer now s).0 ≡ ok s.next
unfolding open_reservation open_reserved passed_on
open_reservation-opens id r grant writer now s i there on =
    let (n, number, _, answer) = release-answers id r s i there on in
    rw on (
      ap (λ q. (passed_on grant now q).0)
        (register_reserved-answers grant r.principal_uid writer (spend id r s)
          (released r.principal_uid n (spend id r s)) answer))

-- After any steps on a new registry, opening a reservation answers with a connection or refuses one
-- that is spent; it refuses exactly those, and never misses a key.
pub open_reservation_iff :
    (each all : ℕ) (s : GrantConnections) (xs : List Step) (id : ℕ) (r : GrantReservation)
    (grant : Grant) (writer : Option Writer) (now : ℕ)
    → new_connections each all ≡ ok s
    → lookup id (run xs s).reservations ≡ some r
    → (((open_reservation id r grant writer now (run xs s)).0 ≡ err reservation_inactive)
        ↔ (r.active ≡ false))
      × ((open_reservation id r grant writer now (run xs s)).0 ≢ err no_such_key)
unfolding open_reservation open_reserved
open_reservation_iff each all s xs id r grant writer now made there =
    let i = run-Inv xs s (
      subst (λ t. Inv each all t) (new_connections-without each all s made)
        (without_connections-Inv each all)) in
    elim (Bool-cases r.active) [
      | inr off ↦ rw off ((λ h. refl, λ h. refl), λ h. cc h)
      | inl on ↦
          let opens = open_reservation-opens id r grant writer now (run xs s) i there on in
          ((λ h. cc (h, opens), λ h. cc (h, on)), λ h. cc (h, opens))
    ]
