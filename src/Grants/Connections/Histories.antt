-- ===== src/Grants/Connections/Histories.antt =====
-- The list of a registry, step by step:
-- packages/control-plane/src/sayfirst_control_plane/application/grants.py.
use sayfirst_control_plane.Common.{
  ℕ, ◌≡◌, ◌↔◌, refl, sym, ap, ◌∙◌, subst, true, false, Option, some, List, [], ◌∷◌, ◌++◌, String,
  text_keyed, nat_keyed, Result, ok, err, ⊤, Bool-cases, Option-cases, inl, inr,
}
use mathlib.Core.Option.{some_inj}
use sayfirst_control_plane.Common.Dict.{lookup, insert, lookup-insert}
use sayfirst_control_plane.Grants.{Grant}
use sayfirst_control_plane.Grants.Connections.{
  Writer, GrantConnections, GrantConnection, GrantReservation, GrantSignal, value_of,
  connection_lost, expired, reserve, release_reservation, has_capacity, cancel, spend,
  new_connections, without_connections, GrantError,
}
use sayfirst_control_plane.Grants.Connections.Endings.{
  peer_lost, write, peer_ended, reached_its_lifetime, drain, raised, at_known,
}
use sayfirst_control_plane.Grants.Connections.Openings.{register_reserved, registered_after}
use sayfirst_control_plane.Grants.Connections.Sweeps.{shutdown}
use sayfirst_control_plane.Grants.Connections.Listing.{Listed-changed, peer_lost-Ended}
use sayfirst_control_plane.Grants.Connections.Steps.{
  Step, reserves, cancels, registers, ends, writes, peer_ends, loses, lives_out, drains, stops,
  step, run, at_reservation, registering,
}
use sayfirst_control_plane.Grants.Connections.Limits.{new_connections-without}
use sayfirst_control_plane.Grants.Connections.Stopping.{
  ListedIn, Ended-Listed, filed_self, ends_at-left, shutdown-stops,
}
use sayfirst_control_plane.Grants.Connections.Living.{
  IsNew, IsNewIn, AllNew, Same, release_reservation-Same, Same-Listed, registered-Listed,
}

at_known-Listed :
    (id : ℕ) (f : GrantConnection → GrantConnections → GrantConnections) (s : GrantConnections)
    → ListedIn s
    → ((c : GrantConnection) → lookup id s.known ≡ some c → ListedIn (f c s))
    → ListedIn (at_known id f s)
at_known-Listed id f s l h = elim (Option-cases (lookup id s.known)) [
  | inl e ↦ rw (e, at_known) l
  | inr (c, e) ↦ rw (e, at_known) (h c e)
]

at_reservation-Listed :
    (id : ℕ) (f : GrantReservation → GrantConnections → GrantConnections) (s : GrantConnections)
    → ListedIn s
    → ((r : GrantReservation) → ListedIn (f r s))
    → ListedIn (at_reservation id f s)
at_reservation-Listed id f s l h = elim (Option-cases (lookup id s.reservations)) [
  | inl e ↦ rw (e, at_reservation) l
  | inr (r, e) ↦ rw (e, at_reservation) (h r)
]

peer_lost-Listed :
    (id : ℕ) (c : GrantConnection) (reason : String) (now : ℕ) (s : GrantConnections)
    → ListedIn s
    → lookup id s.known ≡ some c
    → ListedIn (peer_lost id c reason now s)
unfolding peer_lost
peer_lost-Listed id c reason now s l there =
    elim (Option-cases (lookup c.grant.grant_id s.connections)) [
      | inl off ↦ rw (off, peer_lost) l
      | inr (j, on) ↦
          Ended-Listed id c s (peer_lost id c reason now s) l there (filed_self id j c s l there on)
            (peer_lost-Ended id c reason now j s on)
    ]

write-Listed :
    (id : ℕ) (c : GrantConnection) (signal : GrantSignal) (now : ℕ) (s : GrantConnections)
    → ListedIn s
    → lookup id s.known ≡ some c
    → ListedIn (write id c signal now s)
unfolding write
write-Listed id c signal now s l there =
    let told : GrantConnection = record c {
      signals = c.signals ++ signal ∷ [];
      last_signal_at = signal.at;
    } in
    elim (Bool-cases (raised c.signal_writer signal)) [
      | inl failed ↦ rw failed (peer_lost-Listed id c (value_of connection_lost) now s l there)
      | inr written ↦ rw written (
          Listed-changed id c told s.known (insert id told s.known) there refl
            (λ i. lookup-insert id i told s.known) s.connections s.next l refl)
    ]

registered_after-Listed :
    (grant : Grant) (uid : ℕ) (writer : Option Writer) (q : Result GrantError ⊤ × GrantConnections)
    → ListedIn q.1
    → IsNew grant q.1
    → ListedIn (registered_after grant uid writer q).1
unfolding registered_after
registered_after-Listed grant uid writer (err e, t) l new = l
registered_after-Listed grant uid writer (ok _, t) l new =
    registered-Listed grant uid writer t l new

registering-Listed :
    (id : ℕ) (grant : Grant) (writer : Option Writer) (r : GrantReservation) (s : GrantConnections)
    → ListedIn s
    → IsNew grant s
    → ListedIn (registering id grant writer r s)
unfolding registering register_reserved
registering-Listed id grant writer r s l new = elim (Bool-cases r.active) [
  | inr off ↦ rw off l
  | inl on ↦
      let left = release_reservation r.principal_uid (spend id r s) in
      let same : Same (spend id r s) left.1 =
        release_reservation-Same r.principal_uid (spend id r s) in
      rw on (
        registered_after-Listed grant r.principal_uid writer left
          (Same-Listed (spend id r s) left.1 same l)
          (λ i c h. new i c (sym (ap (lookup i) same.1) ∙ h)))
]

reserve-Listed : (uid : ℕ) (s : GrantConnections) → ListedIn s → ListedIn ((reserve uid s).1)
unfolding reserve
reserve-Listed uid s l = elim (Bool-cases (has_capacity uid s)) [
  | inl room ↦ rw room l
  | inr full ↦ rw full l
]

step-Listed : (x : Step) (s : GrantConnections) → ListedIn s → IsNewIn x s → ListedIn (step x s)
unfolding step reserve cancel peer_ended reached_its_lifetime drain
step-Listed (reserves uid) s l new = reserve-Listed uid s l
step-Listed (cancels id) s l new =
    at_reservation-Listed id (λ r t. (cancel id r t).1) s l
      (λ r. elim (Bool-cases r.active) [
        | inr off ↦ rw off l
        | inl on ↦ rw on (
            Same-Listed (spend id r s) ((release_reservation r.principal_uid (spend id r s)).1)
              (release_reservation-Same r.principal_uid (spend id r s)) l)
      ])
step-Listed (registers id grant writer) s l new =
    at_reservation-Listed id (registering id grant writer) s l
      (λ r. registering-Listed id grant writer r s l new)
step-Listed (ends id reason version at) s l new = (ends_at-left id (λ c. version) reason at s l).0
step-Listed (writes id signal now) s l new =
    at_known-Listed id (λ c. write id c signal now) s l (λ c h. write-Listed id c signal now s l h)
step-Listed (peer_ends id reason now) s l new =
    at_known-Listed id (λ c. peer_ended id c reason now) s l
      (λ c h. elim (Bool-cases c.live) [
        | inl on ↦ rw on (peer_lost-Listed id c reason now s l h)
        | inr off ↦ rw off l
      ])
step-Listed (loses id reason now) s l new =
    at_known-Listed id (λ c. peer_lost id c reason now) s l
      (λ c h. peer_lost-Listed id c reason now s l h)
step-Listed (lives_out id now) s l new =
    at_known-Listed id (λ c. reached_its_lifetime id c now) s l
      (λ c h. elim (Bool-cases c.live) [
        | inr off ↦ rw off l
        | inl on ↦
            let version = λ (d : GrantConnection). d.grant.policy_version in
            rw on (rw (h, at_known) at (ends_at-left id version expired now s l).0)
      ])
step-Listed (drains id) s l new =
    at_known-Listed id (λ c t. (drain id c t).1) s l
      (λ c h.
        let emptied : GrantConnection = record c { signals = [] } in
        Listed-changed id c emptied s.known (insert id emptied s.known) h refl
          (λ i. lookup-insert id i emptied s.known) s.connections s.next l refl)
step-Listed stops s l new = l

run-Listed :
    (xs : List Step) (s : GrantConnections) → ListedIn s → AllNew xs s → ListedIn (run xs s)
unfolding run
run-Listed [] s l new = l
run-Listed (x ∷ xs) s l new = run-Listed xs (step x s) (step-Listed x s l new.0) new.1

without_connections-Listed : (each all : ℕ) → ListedIn (without_connections each all)
unfolding lookup
without_connections-Listed each all = record {
  filed = λ g i h. cc h;
  listed = λ i c h on. cc h;
  given = λ i h. refl;
  one_each = λ i j c d h k same. cc h;
}

pub run_new-Listed :
    (each all : ℕ) (s : GrantConnections) (xs : List Step)
    → new_connections each all ≡ ok s
    → AllNew xs s
    → ListedIn (run xs s)
run_new-Listed each all s xs made new =
    run-Listed xs s
      (subst ListedIn (new_connections-without each all s made)
        (without_connections-Listed each all))
      new

-- From a new registry, after any steps that give each grant once, in whatever order threads take
-- them: a connection is live exactly while the registry lists it under its grant.
pub run-live_iff :
    (each all : ℕ) (s : GrantConnections) (xs : List Step) (id : ℕ) (c : GrantConnection)
    → new_connections each all ≡ ok s
    → AllNew xs s
    → lookup id (run xs s).known ≡ some c
    → (c.live ≡ true) ↔ (lookup c.grant.grant_id (run xs s).connections ≡ some id)
run-live_iff each all s xs id c made new h =
    let l = run_new-Listed each all s xs made new in
    (
      λ on. l.listed id c h on,
      λ here.
          let (d, at, _, on) = l.filed c.grant.grant_id id here in
          let it : d ≡ c = some_inj.0 (sym at ∙ h) in
          sym (ap (λ (x : GrantConnection). x.live) it) ∙ on,
    )

-- From a new registry, after any steps that give each grant once, `shutdown` leaves the registry
-- stopping and none of its connections live.
pub run-shutdown :
    (each all : ℕ) (s : GrantConnections) (xs : List Step) (clock : ℕ → ℕ)
    → new_connections each all ≡ ok s
    → AllNew xs s
    → ((shutdown clock (run xs s)).stopping ≡ true)
      × ((id : ℕ) (c : GrantConnection)
          → lookup id (shutdown clock (run xs s)).known ≡ some c
          → c.live ≡ false)
run-shutdown each all s xs clock made new =
    shutdown-stops clock (run xs s) (run_new-Listed each all s xs made new)
