-- ===== src/Grants/Connections/Stopping.antt =====
-- The shutdown of a registry and the list it leaves:
-- packages/control-plane/src/sayfirst_control_plane/application/grants.py.
use sayfirst_control_plane.Common.{
  ℕ, ◌≡◌, ◌≢◌, refl, sym, ap, ◌∙◌, true, false, any, some, List, [], ◌∷◌, map, String, ◌==◌, ==_iff,
  text_keyed, nat_keyed, arith, Bool-cases, Option-cases, inl, inr,
}
use mathlib.Core.Option.{some_inj}
use sayfirst_control_plane.Common.Dict.{Dict, lookup, lookup-erase}
use sayfirst_control_plane.Grants.Connections.{
  GrantConnections, GrantConnection, GrantEndReason, daemon_stopping,
}
use sayfirst_control_plane.Grants.Connections.Endings.{end_connection, at_known}
use sayfirst_control_plane.Grants.Connections.Sweeps.{snapshot, for_each, shutdown}
use sayfirst_control_plane.Grants.Connections.Listing.{
  Listed, Listed-dies, Ended, end_connection-Ended,
}

abbrev pub ListedIn : GrantConnections → Type 0
ListedIn s = Listed s.connections s.known s.next

-- An end keeps the list right.
pub Ended-Listed :
    (id : ℕ) (c : GrantConnection) (s t : GrantConnections)
    → ListedIn s
    → lookup id s.known ≡ some c
    → lookup c.grant.grant_id s.connections ≡ some id
    → Ended id c s t
    → ListedIn t
Ended-Listed id c s t l there here (q, n, _, d, dead, grant, b) =
    rw (q, n) (Listed-dies id c d s.known t.known there grant b s.connections s.next l dead here)

-- What is filed under a known connection's grant is that connection.
pub filed_self :
    (id j : ℕ) (c : GrantConnection) (s : GrantConnections)
    → ListedIn s
    → lookup id s.known ≡ some c
    → lookup c.grant.grant_id s.connections ≡ some j
    → lookup c.grant.grant_id s.connections ≡ some id
filed_self id j c s l there h =
    let (e, at, same, _) = l.filed c.grant.grant_id j h in
    h ∙ ap some (l.one_each j id e c at there same)

-- A known connection is filed under its own grant only.
own_grant :
    (g : String) (id : ℕ) (c : GrantConnection) (s : GrantConnections)
    → ListedIn s
    → lookup g s.connections ≡ some id
    → lookup id s.known ≡ some c
    → c.grant.grant_id ≡ g
own_grant g id c s l h there =
    let (e, at, same, _) = l.filed g id h in
    let it : c ≡ e = some_inj.0 (sym there ∙ at) in
    ap (λ (x : GrantConnection). x.grant.grant_id) it ∙ same

pub differ : (i j : ℕ) → i ≢ j → (i == j) ≡ false
differ i j h = ground (arith, ==_iff i j, h)

-- What the end of a connection by its identity leaves listed.
abbrev pub ends_at :
    ℕ → (GrantConnection → String) → GrantEndReason → ℕ → GrantConnections → GrantConnections
ends_at id version reason at s = at_known id (λ c. end_connection id c reason (version c) at) s

-- The entries that are left are entries of before, and none is of the connection that ended.
pub ends_at-left :
    (id : ℕ) (version : GrantConnection → String) (reason : GrantEndReason) (at : ℕ)
    (s : GrantConnections)
    → ListedIn s
    → ListedIn (ends_at id version reason at s)
      × ((g : String) (j : ℕ)
          → lookup g (ends_at id version reason at s).connections ≡ some j
          → (lookup g s.connections ≡ some j) × ((j == id) ≡ false))
unfolding end_connection
ends_at-left id version reason at s l = elim (Option-cases (lookup id s.known)) [
  | inl e ↦
      rw (e, at_known)
        (
          l,
          λ g j h. (
            h,
            differ j id (λ same.
                let (f, at, _, _) = l.filed g j h in
                cc (sym e ∙ ap (λ k. lookup k s.known) (sym same) ∙ at)),
          ),
        )
  | inr (c, e) ↦ elim (Option-cases (lookup c.grant.grant_id s.connections)) [
    | inl off ↦
        rw (e, at_known)
          (rw (off, end_connection)
            (
              l,
              λ g j h. (
                h,
                differ j id (λ same.
                    let mine = own_grant g id c s l (h ∙ ap some same) e in
                    cc (sym off ∙ ap (λ k. lookup k s.connections) mine ∙ h)),
              ),
            ))
    | inr (i, on) ↦
        let here = filed_self id i c s l e on in
        let ended = end_connection-Ended id c reason (version c) at i s on in
        rw (e, at_known)
          (
            Ended-Listed id c s (end_connection id c reason (version c) at s) l e here ended,
            λ g j h. elim (Bool-cases (c.grant.grant_id == g)) [
              | inl same ↦ absurd (
                  cc (
                    sym (
                      ap (lookup g) ended.0
                      ∙ rw same at (lookup-erase c.grant.grant_id g s.connections))
                    ∙ h))
              | inr other ↦
                  let before =
                    sym (
                      ap (lookup g) ended.0
                      ∙ rw other at (lookup-erase c.grant.grant_id g s.connections))
                    ∙ h in
                  (
                    before,
                    differ j id (λ same.
                        let mine = own_grant g id c s l (before ∙ ap some same) e in
                        cc (sym other ∙ (==_iff c.grant.grant_id g).1 mine)),
                  )
            ],
          )
  ]
]

ends_at-stopping :
    (id : ℕ) (version : GrantConnection → String) (reason : GrantEndReason) (at : ℕ)
    (s : GrantConnections)
    → (ends_at id version reason at s).stopping ≡ s.stopping
unfolding end_connection
ends_at-stopping id version reason at s = elim (Option-cases (lookup id s.known)) [
  | inl e ↦ rw (e, at_known) refl
  | inr (c, e) ↦ elim (Option-cases (lookup c.grant.grant_id s.connections)) [
    | inl off ↦ rw (e, at_known) (rw (off, end_connection) refl)
    | inr (i, on) ↦ rw (e, at_known) (end_connection-Ended id c reason (version c) at i s on).2
  ]
]

-- The loop of `shutdown`.
abbrev stop_each : (ℕ → ℕ) → ℕ → GrantConnection → GrantConnections → GrantConnections
stop_each clock id c = end_connection id c daemon_stopping c.grant.policy_version (clock id)

stop_each-left :
    (clock : ℕ → ℕ) (ids : List ℕ) (s : GrantConnections)
    → ListedIn s
    → ListedIn (for_each (stop_each clock) ids s)
      × ((for_each (stop_each clock) ids s).stopping ≡ s.stopping)
      × ((g : String) (j : ℕ)
          → lookup g (for_each (stop_each clock) ids s).connections ≡ some j
          → (lookup g s.connections ≡ some j) × (any (λ i. j == i) ids ≡ false))
unfolding for_each
stop_each-left clock [] s l = (l, refl, λ g j h. (h, refl))
stop_each-left clock (id ∷ ids) s l =
    let version = λ (c : GrantConnection). c.grant.policy_version in
    let (l', left) = ends_at-left id version daemon_stopping (clock id) s l in
    let (l'', stop, rest) =
      stop_each-left clock ids (ends_at id version daemon_stopping (clock id) s) l' in
    (
      l'',
      stop ∙ ends_at-stopping id version daemon_stopping (clock id) s,
      λ g j h.
          let (h', away) = rest g j h in
          let (h'', other) = left g j h' in (h'', rw (other, away) refl),
    )

-- What is listed is in the snapshot.
pub in_snapshot :
    (g : String) (id : ℕ) (connections : Dict String ℕ)
    → lookup g connections ≡ some id
    → any (λ i. id == i) (map (λ c. c.1) connections) ≡ true
unfolding lookup
in_snapshot g id [] h = cc h
in_snapshot g id ((k, i) ∷ d) h = ground (arith, h, ==_iff id i, in_snapshot g id d)

-- After `shutdown`, where the registry listed what was live, the registry is stopping and no
-- connection is live.
pub shutdown-stops :
    (clock : ℕ → ℕ) (s : GrantConnections)
    → ListedIn s
    → ((shutdown clock s).stopping ≡ true)
      × ((id : ℕ) (c : GrantConnection)
          → lookup id (shutdown clock s).known ≡ some c
          → c.live ≡ false)
unfolding shutdown
shutdown-stops clock s l =
    let t : GrantConnections = record s { stopping = true } in
    let (l', stop, left) = stop_each-left clock (snapshot t) t l in
    (
      stop,
      λ id c h. elim (Bool-cases c.live) [
        | inr dead ↦ dead
        | inl alive ↦
            let (before, away) = left c.grant.grant_id id (l'.listed id c h alive) in
            absurd (cc (sym away ∙ in_snapshot c.grant.grant_id id s.connections before))
      ],
    )
