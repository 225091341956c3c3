-- ===== src/Grants/Connections/Sweeping.antt =====
-- What a sweep over the connections leaves live: `tick` and `policy_version_changed` of
-- packages/control-plane/src/sayfirst_control_plane/application/grants.py.
use sayfirst_control_plane.Common.{
  ℕ, ◌≡◌, ◌⊎◌, refl, sym, ap, ◌∙◌, subst, true, false, any, none, some, List, [], ◌∷◌, String, ◌==◌,
  ==_iff, text_keyed, nat_keyed, arith, Bool-cases, Option-cases, inl, inr,
}
use mathlib.Core.Option.{some_inj}
use sayfirst_control_plane.Common.Dict.{lookup}
use sayfirst_control_plane.Grants.Connections.{GrantConnections, GrantConnection, GrantEndReason}
use sayfirst_control_plane.Grants.Connections.Endings.{end_connection, peer_lost, at_known}
use sayfirst_control_plane.Grants.Connections.Sweeps.{snapshot, for_each}
use sayfirst_control_plane.Grants.Connections.Listing.{
  Ended, Becomes, end_connection-Ended, peer_lost-Ended,
}
use sayfirst_control_plane.Grants.Connections.Stopping.{
  ListedIn, Ended-Listed, filed_self, in_snapshot,
}

-- Of the connections that are live, each is as wanted, or is another and is as it was.
abbrev pub Settled : (GrantConnection → Type 0) → ℕ → GrantConnections → GrantConnections → Type 0
Settled P id s t =
    (j : ℕ) (c : GrantConnection)
    → lookup j t.known ≡ some c
    → c.live ≡ true
    → P c ⊎ (((j == id) ≡ false) × (lookup j s.known ≡ some c))

-- What is done with each connection settles it, and keeps the list right.
abbrev pub Settles :
    (GrantConnection → Type 0)
    → (ℕ → GrantConnection → GrantConnections → GrantConnections)
    → Type 0
Settles P f =
    (id : ℕ) (c : GrantConnection) (s : GrantConnections)
    → ListedIn s
    → lookup id s.known ≡ some c
    → ListedIn (f id c s) × Settled P id s (f id c s)

pub same_or_other :
    (P : GrantConnection → Type 0) (id : ℕ) (c d : GrantConnection) (s t : GrantConnections)
    → Becomes id d s.known t.known
    → (d.live ≡ true → P d)
    → Settled P id s t
same_or_other P id c d s t b wanted j e h on = elim (Bool-cases (id == j)) [
  | inl same ↦
      let it : d ≡ e = some_inj.0 (sym (rw same at (b j)) ∙ h) in
      inl (subst P it (wanted (ap (λ (x : GrantConnection). x.live) it ∙ on)))
  | inr other ↦ inr (ground (arith, other, ==_iff j id, ==_iff id j), sym (rw other at (b j)) ∙ h)
]

-- A connection that ended is not live.
Ended-Settled :
    (P : GrantConnection → Type 0) (id : ℕ) (c : GrantConnection) (s t : GrantConnections)
    → Ended id c s t
    → Settled P id s t
Ended-Settled P id c s t (_, _, _, d, dead, _, b) =
    same_or_other P id c d s t b (λ on. absurd (cc (sym dead ∙ on)))

-- What is as it was is settled, where it was as wanted.
pub stay-Settled :
    (P : GrantConnection → Type 0) (id : ℕ) (c : GrantConnection) (s : GrantConnections)
    → lookup id s.known ≡ some c
    → (c.live ≡ true → P c)
    → Settled P id s s
stay-Settled P id c s there wanted j e h on = elim (Bool-cases (j == id)) [
  | inl same ↦
      let it : c ≡ e =
        some_inj.0 (sym there ∙ ap (λ k. lookup k s.known) (sym ((==_iff j id).0 same)) ∙ h) in
      inl (subst P it (wanted (ap (λ (x : GrantConnection). x.live) it ∙ on)))
  | inr other ↦ inr (other, h)
]

-- What is not listed is not live.
unlisted_dead :
    (P : GrantConnection → Type 0) (id : ℕ) (c : GrantConnection) (s : GrantConnections)
    → ListedIn s
    → lookup id s.known ≡ some c
    → lookup c.grant.grant_id s.connections ≡ none
    → c.live ≡ true
    → P c
unlisted_dead P id c s l there off on = absurd (cc (sym off ∙ l.listed id c there on))

pub end_connection-Settles :
    (P : GrantConnection → Type 0) (reason : GrantEndReason) (version : String) (at : ℕ → ℕ)
    → Settles P (λ id c. end_connection id c reason version (at id))
unfolding end_connection
end_connection-Settles P reason version at id c s l there =
    elim (Option-cases (lookup c.grant.grant_id s.connections)) [
      | inl off ↦
          rw (off, end_connection)
            (l, stay-Settled P id c s there (unlisted_dead P id c s l there off))
      | inr (j, on) ↦
          let ended = end_connection-Ended id c reason version (at id) j s on in
          (
            Ended-Listed id c s (end_connection id c reason version (at id) s) l there
                (filed_self id j c s l there on) ended,
            Ended-Settled P id c s (end_connection id c reason version (at id) s) ended,
          )
    ]

pub peer_lost-Settles :
    (P : GrantConnection → Type 0) (reason : String) (at : ℕ → ℕ)
    → Settles P (λ id c. peer_lost id c reason (at id))
unfolding peer_lost
peer_lost-Settles P reason at id c s l there =
    elim (Option-cases (lookup c.grant.grant_id s.connections)) [
      | inl off ↦
          rw (off, peer_lost) (l, stay-Settled P id c s there (unlisted_dead P id c s l there off))
      | inr (j, on) ↦
          let ended = peer_lost-Ended id c reason (at id) j s on in
          (
            Ended-Listed id c s (peer_lost id c reason (at id) s) l there
                (filed_self id j c s l there on) ended,
            Ended-Settled P id c s (peer_lost id c reason (at id) s) ended,
          )
    ]

-- A connection that is not known settles nothing.
at_known-Settled :
    (P : GrantConnection → Type 0) (f : ℕ → GrantConnection → GrantConnections → GrantConnections)
    (id : ℕ) (s : GrantConnections)
    → Settles P f
    → ListedIn s
    → ListedIn (at_known id (f id) s) × Settled P id s (at_known id (f id) s)
at_known-Settled P f id s settles l = elim (Option-cases (lookup id s.known)) [
  | inl e ↦ rw (e, at_known) (l, λ j c h on. inr (ground (arith, e, h, ==_iff j id), h))
  | inr (d, e) ↦ rw (e, at_known) (settles id d s l e)
]

-- A loop over connections that settles each leaves what is live settled, or outside of its list.
for_each-left :
    (P : GrantConnection → Type 0) (f : ℕ → GrantConnection → GrantConnections → GrantConnections)
    (ids : List ℕ) (s : GrantConnections)
    → Settles P f
    → ListedIn s
    → ListedIn (for_each f ids s)
      × ((j : ℕ) (c : GrantConnection)
          → lookup j (for_each f ids s).known ≡ some c
          → c.live ≡ true
          → P c ⊎ ((any (λ i. j == i) ids ≡ false) × (lookup j s.known ≡ some c)))
unfolding for_each
for_each-left P f [] s settles l = (l, λ j c h on. inr (refl, h))
for_each-left P f (id ∷ ids) s settles l =
    let (l', settled) = at_known-Settled P f id s settles l in
    let (l'', left) = for_each-left P f ids (at_known id (f id) s) settles l' in
    (
      l'',
      λ j c h on. elim (left j c h on) [
        | inl wanted ↦ inl wanted
        | inr (away, between) ↦ elim (settled j c between on) [
          | inl wanted ↦ inl wanted
          | inr (other, before) ↦ inr (rw (other, away) refl, before)
        ]
      ],
    )

-- After a loop over the snapshot, every live connection is as wanted.
pub snapshot-settled :
    (P : GrantConnection → Type 0) (f : ℕ → GrantConnection → GrantConnections → GrantConnections)
    (s : GrantConnections) (j : ℕ) (c : GrantConnection)
    → Settles P f
    → ListedIn s
    → lookup j (for_each f (snapshot s) s).known ≡ some c
    → c.live ≡ true
    → P c
snapshot-settled P f s j c settles l h on =
    elim ((for_each-left P f (snapshot s) s settles l).1 j c h on) [
      | inl wanted ↦ wanted
      | inr (away, before) ↦
          absurd
            (cc (sym away ∙ in_snapshot c.grant.grant_id j s.connections (l.listed j c before on)))
    ]
