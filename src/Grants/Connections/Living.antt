-- ===== src/Grants/Connections/Living.antt =====
-- The arrival of a connection and the list of the registry:
-- packages/control-plane/src/sayfirst_control_plane/application/grants.py.
use sayfirst_control_plane.Common.{
  ℕ, ◌≡◌, ◌≢◌, refl, sym, ap, ◌∙◌, false, Option, some, List, [], ◌∷◌, ◌==◌, ==_iff, text_keyed,
  nat_keyed, ⊤, arith, Bool-cases, Option-cases, inl, inr,
}
use mathlib.Core.Option.{some_inj}
use sayfirst_control_plane.Common.Dict.{lookup, insert, lookup-insert, lookup-insert_self}
use sayfirst_control_plane.Grants.{Grant}
use sayfirst_control_plane.Grants.Connections.{
  Writer, GrantConnections, GrantConnection, release_reservation,
}
use sayfirst_control_plane.Grants.Connections.Openings.{registered, delivered}
use sayfirst_control_plane.Grants.Connections.Listing.{Becomes, became}
use sayfirst_control_plane.Grants.Connections.Steps.{Step, registers, step}
use sayfirst_control_plane.Grants.Connections.Stopping.{ListedIn, differ}

-- No known connection carries the grant.
abbrev pub IsNew : Grant → GrantConnections → Type 0
IsNew grant s =
    (i : ℕ) (c : GrantConnection) → lookup i s.known ≡ some c → c.grant.grant_id ≢ grant.grant_id

abbrev pub IsNewIn : Step → GrantConnections → Type 0
IsNewIn (registers id grant writer) s = IsNew grant s
IsNewIn _ s = ⊤

-- Each grant is given once.
abbrev pub AllNew : List Step → GrantConnections → Type 0
AllNew [] s = ⊤
AllNew (x ∷ xs) s = IsNewIn x s × AllNew xs (step x s)

-- What the list is read from is the same.
abbrev pub Same : GrantConnections → GrantConnections → Type 0
Same s t = (t.connections ≡ s.connections) × (t.known ≡ s.known) × (t.next ≡ s.next)

pub release_reservation-Same :
    (uid : ℕ) (s : GrantConnections) → Same s ((release_reservation uid s).1)
unfolding release_reservation
release_reservation-Same uid s = elim (Option-cases (lookup uid s.reserved_by_principal)) [
  | inl e ↦ rw (e, release_reservation) (refl, refl, refl)
  | inr (n, e) ↦ rw (e, release_reservation) (refl, refl, refl)
]

pub Same-Listed : (s t : GrantConnections) → Same s t → ListedIn s → ListedIn t
Same-Listed s t (p, q, r) l = rw (p, q, r) l

-- A connection for a new grant is listed.
pub registered-Listed :
    (grant : Grant) (uid : ℕ) (writer : Option Writer) (s : GrantConnections)
    → ListedIn s
    → IsNew grant s
    → ListedIn (registered grant uid writer s)
registered-Listed grant uid writer s l new =
    let c = delivered grant uid writer in
    let b : Becomes s.next c s.known (insert s.next c s.known) =
      λ i. lookup-insert s.next i c s.known in
    record {
      filed = λ g i h. elim (Bool-cases (grant.grant_id == g)) [
        | inl same ↦
            let it : s.next ≡ i =
              some_inj.0
                (sym (rw same at (lookup-insert grant.grant_id g s.next s.connections)) ∙ h) in
            (c, b i ∙ rw ((==_iff s.next i).1 it) refl, (==_iff grant.grant_id g).0 same, refl)
        | inr other ↦
            let before =
              sym (rw other at (lookup-insert grant.grant_id g s.next s.connections)) ∙ h in
            let (e, at, named, on) = l.filed g i before in
            let elsewhere = differ s.next i (λ same.
              cc (sym (l.given s.next (omega arith)) ∙ ap (λ k. lookup k s.known) same ∙ at)) in
            (e, b i ∙ rw elsewhere at, named, on)
      ];
      listed = λ i e h on. elim (became s.next i c e s.known (insert s.next c s.known) b h) [
        | inl (same, it) ↦
            ap
              (λ (x : GrantConnection).
                lookup x.grant.grant_id (insert grant.grant_id s.next s.connections))
              (sym it)
            ∙ lookup-insert_self grant.grant_id s.next s.connections
            ∙ ap some same
        | inr (other, before) ↦
            let differs : (grant.grant_id == e.grant.grant_id) ≡ false =
              ground (arith, new i e before, ==_iff grant.grant_id e.grant.grant_id) in
            lookup-insert grant.grant_id e.grant.grant_id s.next s.connections
            ∙ rw differs (l.listed i e before on)
      ];
      given = λ i late.
          let elsewhere = differ s.next i (λ same. omega (arith, late, same)) in
          b i ∙ rw elsewhere (l.given i (omega (arith, late)));
      one_each = λ i j e f h k same.
          elim (became s.next i c e s.known (insert s.next c s.known) b h) [
            | inl (p, it) ↦ elim (became s.next j c f s.known (insert s.next c s.known) b k) [
              | inl (q, it') ↦ sym p ∙ q
              | inr (q, before) ↦ absurd (
                  new j f before
                    (sym same ∙ sym (ap (λ (x : GrantConnection). x.grant.grant_id) it)))
            ]
            | inr (p, before) ↦ elim (became s.next j c f s.known (insert s.next c s.known) b k) [
              | inl (q, it) ↦
                  absurd (
                    new i e before (same ∙ sym (ap (λ (x : GrantConnection). x.grant.grant_id) it)))
              | inr (q, before') ↦ l.one_each i j e f before before' same
            ]
          ];
    }
