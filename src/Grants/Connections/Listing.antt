-- ===== src/Grants/Connections/Listing.antt =====
-- The list of a registry, its connections that are live, and the end of one:
-- packages/control-plane/src/sayfirst_control_plane/application/grants.py.
use sayfirst_control_plane.Common.{
  ℕ, ◌≤◌, ◌≡◌, ◌⊎◌, refl, sym, ap, ◌∙◌, subst, true, false, none, some, [], ◌∷◌, ◌++◌, String,
  if◌then◌else◌, ◌==◌, ==_iff, ==_self, text_keyed, nat_keyed, Bool-cases, Option-cases, inl, inr,
}
use mathlib.Core.Option.{some_inj}
use sayfirst_control_plane.Common.Dict.{
  Dict, lookup, erase, lookup-insert, lookup-insert_twice, lookup-erase,
}
use sayfirst_control_plane.Grants.{Grant}
use sayfirst_control_plane.Grants.Connections.{
  GrantConnections, GrantConnection, GrantSignal, GrantEndReason,
}
use sayfirst_control_plane.Grants.Connections.Endings.{
  peer_lost, write, end_connection, raised, unlisted, end_signal,
}

-- What is listed is known, live and filed under its grant; what is live is listed; no identity is
-- given twice, and no two connections carry one grant.
pub record Listed (connections : Dict String ℕ) (known : Dict ℕ GrantConnection) (next : ℕ)
    : Type 0 where
  pub filed :
      (g : String) (id : ℕ)
      → lookup g connections ≡ some id
      → (c : GrantConnection) × (lookup id known ≡ some c)
        × (c.grant.grant_id ≡ g)
        × (c.live ≡ true)
  pub listed :
      (id : ℕ) (c : GrantConnection)
      → lookup id known ≡ some c
      → c.live ≡ true
      → lookup c.grant.grant_id connections ≡ some id
  pub given : (id : ℕ) → next ≤ id → lookup id known ≡ none
  pub one_each :
      (i j : ℕ) (c d : GrantConnection)
      → lookup i known ≡ some c
      → lookup j known ≡ some d
      → c.grant.grant_id ≡ d.grant.grant_id
      → i ≡ j

-- One connection is another, and the rest are as they were.
abbrev pub Becomes : ℕ → GrantConnection → Dict ℕ GrantConnection → Dict ℕ GrantConnection → Type 0
Becomes id d known known' = (i : ℕ) → lookup i known' ≡ (if id == i then some d else lookup i known)

-- A connection that is known either is the one that changed or is as before.
pub became :
    (id i : ℕ) (d e : GrantConnection) (known known' : Dict ℕ GrantConnection)
    → Becomes id d known known'
    → lookup i known' ≡ some e
    → ((id ≡ i) × (d ≡ e)) ⊎ (((id == i) ≡ false) × (lookup i known ≡ some e))
became id i d e known known' b h = elim (Bool-cases (id == i)) [
  | inl same ↦ inl ((==_iff id i).0 same, some_inj.0 (rw same at (sym (b i)) ∙ h))
  | inr other ↦ inr (other, (rw other at (sym (b i))) ∙ h)
]

module _ (id : ℕ) (c d : GrantConnection) (known known' : Dict ℕ GrantConnection)
    (there : lookup id known ≡ some c) (grant : d.grant ≡ c.grant) (b : Becomes id d known known')
    (connections : Dict String ℕ) (next : ℕ) (l : Listed connections known next) where
  -- Every connection had its grant before.
  was :
      (i : ℕ) (e : GrantConnection)
      → lookup i known' ≡ some e
      → (f : GrantConnection) × (lookup i known ≡ some f) × (f.grant ≡ e.grant)
  was i e h = elim (became id i d e known known' b h) [
    | inl (same, it) ↦ (
      c,
      subst (λ j. lookup j known ≡ some c) same there,
      sym grant ∙ ap (λ (x : GrantConnection). x.grant) it,
    )
    | inr (other, before) ↦ (e, before, refl)
  ]

  still_given : (i : ℕ) → next ≤ i → lookup i known' ≡ none
  still_given i late = elim (Option-cases (lookup i known')) [
    | inl n ↦ n
    | inr (e, h) ↦ let (f, k, _) = was i e h in absurd (cc (k, l.given i late))
  ]

  still_one_each :
      (i j : ℕ) (e f : GrantConnection)
      → lookup i known' ≡ some e
      → lookup j known' ≡ some f
      → e.grant.grant_id ≡ f.grant.grant_id
      → i ≡ j
  still_one_each i j e f h k same =
      let (e', h', p) = was i e h in
      let (f', k', q) = was j f k in
      l.one_each i j e' f' h' k'
        (ap (λ (x : Grant). x.grant_id) p ∙ same ∙ sym (ap (λ (x : Grant). x.grant_id) q))

  -- A connection that changes otherwise than in its grant and its life changes no listing.
  pub Listed-changed : d.live ≡ c.live → Listed connections known' next
  Listed-changed live = record {
    filed = λ g i h.
        let (e, at, g_is, on) = l.filed g i h in
        elim (Bool-cases (id == i)) [
          | inl same ↦
              let it : c ≡ e =
                some_inj.0 (sym there ∙ ap (λ j. lookup j known) ((==_iff id i).0 same) ∙ at) in
              (
                d,
                b i ∙ rw same refl,
                ap (λ (x : Grant). x.grant_id) grant
                    ∙ ap (λ (x : GrantConnection). x.grant.grant_id) it
                    ∙ g_is,
                live ∙ ap (λ (x : GrantConnection). x.live) it ∙ on,
              )
          | inr other ↦ (e, b i ∙ rw other at, g_is, on)
        ];
    listed = λ i e h on. elim (became id i d e known known' b h) [
      | inl (same, it) ↦
          let alive : c.live ≡ true = sym live ∙ ap (λ (x : GrantConnection). x.live) it ∙ on in
          ap (λ (x : Grant). lookup x.grant_id connections)
            (sym (ap (λ (x : GrantConnection). x.grant) it) ∙ grant)
          ∙ l.listed id c there alive
          ∙ ap some same
      | inr (other, before) ↦ l.listed i e before on
    ];
    given = still_given;
    one_each = still_one_each;
  }

  -- A connection that dies is taken off the list.
  pub Listed-dies :
      d.live ≡ false
      → lookup c.grant.grant_id connections ≡ some id
      → Listed (erase c.grant.grant_id connections) known' next
  Listed-dies dead here = record {
    filed = λ g i h. elim (Bool-cases (c.grant.grant_id == g)) [
      | inl same ↦ absurd (cc (h, rw same at (lookup-erase c.grant.grant_id g connections)))
      | inr other ↦
          let before = sym (rw other at (lookup-erase c.grant.grant_id g connections)) ∙ h in
          let (e, at, g_is, on) = l.filed g i before in
          elim (Bool-cases (id == i)) [
            | inl same ↦
                let it : c ≡ e =
                  some_inj.0 (sym there ∙ ap (λ j. lookup j known) ((==_iff id i).0 same) ∙ at) in
                let clash : c.grant.grant_id ≡ g =
                  ap (λ (x : GrantConnection). x.grant.grant_id) it ∙ g_is in
                absurd (cc (other, (==_iff c.grant.grant_id g).1 clash))
            | inr elsewhere ↦ (e, b i ∙ rw elsewhere at, g_is, on)
          ]
    ];
    listed = λ i e h on. elim (became id i d e known known' b h) [
      | inl (same, it) ↦ absurd (cc (sym dead ∙ ap (λ (x : GrantConnection). x.live) it ∙ on))
      | inr (other, before) ↦ elim (Bool-cases (c.grant.grant_id == e.grant.grant_id)) [
        | inl same ↦
            let one : id ≡ i =
              l.one_each id i c e there before
                ((==_iff c.grant.grant_id e.grant.grant_id).0 same) in
            absurd (cc (other, (==_iff id i).1 one))
        | inr differ ↦
            rw differ at (lookup-erase c.grant.grant_id e.grant.grant_id connections)
            ∙ l.listed i e before on
      ]
    ];
    given = still_given;
    one_each = still_one_each;
  }

-- A registry after a connection of it ended.
abbrev pub Ended : ℕ → GrantConnection → GrantConnections → GrantConnections → Type 0
Ended id c s t =
    (t.connections ≡ erase c.grant.grant_id s.connections)
    × (t.next ≡ s.next)
    × (t.stopping ≡ s.stopping)
    × (d : GrantConnection) × (d.live ≡ false)
    × (d.grant ≡ c.grant)
    × Becomes id d s.known t.known

-- The signal of the end is written, or its writer raises.
write-Ended :
    (id : ℕ) (c : GrantConnection) (signal : GrantSignal) (now : ℕ) (s : GrantConnections)
    → Ended id c s (write id (record c { live = false }) signal now (unlisted id c s))
unfolding write
write-Ended id c signal now s =
    let dead : GrantConnection = record c { live = false } in
    let gone : lookup c.grant.grant_id (erase c.grant.grant_id s.connections) ≡ none =
      rw (lookup-erase c.grant.grant_id c.grant.grant_id s.connections, ==_self c.grant.grant_id)
        refl in
    elim (Bool-cases (raised c.signal_writer signal)) [
      | inl failed ↦
          rw (failed, gone, peer_lost)
            (refl, refl, refl, dead, refl, refl, λ i. lookup-insert id i dead s.known)
      | inr written ↦
          let told : GrantConnection = record c {
            live = false;
            signals = c.signals ++ signal ∷ [];
            last_signal_at = signal.at;
          } in
          rw written
            (refl, refl, refl, told, refl, refl, λ i. lookup-insert_twice id i dead told s.known)
    ]

pub end_connection-Ended :
    (id : ℕ) (c : GrantConnection) (reason : GrantEndReason) (version : String) (at j : ℕ)
    (s : GrantConnections)
    → lookup c.grant.grant_id s.connections ≡ some j
    → Ended id c s (end_connection id c reason version at s)
unfolding end_connection
end_connection-Ended id c reason version at j s h =
    rw (h, end_connection) (write-Ended id c (end_signal c reason version at) at s)

pub peer_lost-Ended :
    (id : ℕ) (c : GrantConnection) (reason : String) (now j : ℕ) (s : GrantConnections)
    → lookup c.grant.grant_id s.connections ≡ some j
    → Ended id c s (peer_lost id c reason now s)
unfolding peer_lost
peer_lost-Ended id c reason now j s h =
    let dead : GrantConnection = record c { live = false } in
    rw (h, peer_lost) (refl, refl, refl, dead, refl, refl, λ i. lookup-insert id i dead s.known)
