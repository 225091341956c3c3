-- ===== src/Grants/Connections/Reserving.antt =====
-- The slot of a reservation that is cancelled or opened:
-- packages/control-plane/src/sayfirst_control_plane/application/grants.py.
use sayfirst_control_plane.Common.{
  ℕ, ◌+◌, ◌≤◌, ◌<◌, ◌≡◌, refl, ap, true, false, Option, none, some, leb, ◌==◌, ==_iff, text_keyed,
  nat_keyed, arith, bit,
}
use sayfirst_control_plane.Common.Dict.{
  Dict, lookup, insert, count, count-insert, count-agree_below, lookup-insert, lookup-insert_self,
}
use sayfirst_control_plane.Grants.{Grant}
use sayfirst_control_plane.Grants.Connections.{
  Writer, GrantConnections, GrantConnection, GrantReservation, anything, is_of, spend, spent,
}
use sayfirst_control_plane.Grants.Connections.Openings.{delivered, registered}
use sayfirst_control_plane.Grants.Connections.Bounds.{
  Inv, reserved_for, is_active_of, spent-active, spent-active_of, released, reserved-released,
}

-- A connection that is new leaves the earlier ones as they are.
is_of-earlier :
    (next v uid : ℕ) (c : GrantConnection) (known : Dict ℕ GrantConnection)
    → v < next
    → is_of (insert next c known) uid v ≡ is_of known uid v
is_of-earlier next v uid c known h =
    let other : (next == v) ≡ false = ground (arith, h) in
    rw (lookup-insert next v c known, other) refl

is_of-added :
    (next uid : ℕ) (c : GrantConnection) (known : Dict ℕ GrantConnection)
    → is_of (insert next c known) uid next ≡ (c.principal_uid == uid)
is_of-added next uid c known = rw (lookup-insert_self next c known) refl

module _ {each all : ℕ} (id : ℕ) (r : GrantReservation) (s : GrantConnections) (i : Inv each all s)
    (there : lookup id s.reservations ≡ some r) (on : r.active ≡ true) (n : ℕ)
    (number : reserved_for r.principal_uid s.reserved_by_principal ≡ n) where
  spent-unused :
      (j : ℕ) → s.next_reservation ≤ j → lookup j (insert id (spent r) s.reservations) ≡ none
  spent-unused j h =
      unfold lookup in
      ground (arith, i.unused j h, lookup-insert id j (spent r) s.reservations, ==_iff id j, there)

  left_active_of :
      (uid : ℕ)
      → count (is_active_of uid) (insert id (spent r) s.reservations)
        ≡ reserved_for uid (released r.principal_uid n s).reserved_by_principal
  left_active_of uid = omega (
    arith,
    spent-active_of id uid r s.reservations there on,
    i.active_of uid,
    reserved-released r.principal_uid uid n s.reserved_by_principal number,
  )

  -- A cancelled reservation gives its slot back.
  pub released-Inv : Inv each all (released r.principal_uid n (spend id r s))
  released-Inv = record {
    each_is = i.each_is;
    all_is = i.all_is;
    below = i.below;
    in_all = omega (arith, i.in_all);
    of_each = λ uid. omega (
      arith,
      i.of_each uid,
      reserved-released r.principal_uid uid n s.reserved_by_principal number,
    );
    active = omega (arith, i.active, spent-active id r s.reservations there on);
    active_of = left_active_of;
    unused = spent-unused;
  }

  -- An opened one gives it to its connection.
  pub registered-Inv :
      (grant : Grant) (writer : Option Writer)
      → Inv each all
          (registered grant r.principal_uid writer (released r.principal_uid n (spend id r s)))
  registered-Inv grant writer =
      let not_below : bit (leb (s.next + 1) s.next) ≡ 0 = ground arith in
      let t = registered grant r.principal_uid writer (released r.principal_uid n (spend id r s)) in
      record {
        each_is = i.each_is;
        all_is = i.all_is;
        below = omega (
          arith,
          i.below,
          count-insert (λ v. leb (s.next + 1) v) grant.grant_id s.next s.connections,
          count-agree_below (λ v. leb (s.next + 1) v) (λ v. leb s.next v) s.next s.connections
              (λ v h. ground arith) i.below,
          not_below,
        );
        in_all = omega (
          arith,
          i.in_all,
          i.active,
          spent-active id r s.reservations there on,
          count-insert {V = ℕ} anything grant.grant_id s.next s.connections,
        );
        of_each = λ uid. omega (
          arith,
          i.of_each uid,
          i.active_of uid,
          spent-active_of id uid r s.reservations there on,
          reserved-released r.principal_uid uid n s.reserved_by_principal number,
          count-insert (is_of t.known uid) grant.grant_id s.next s.connections,
          count-agree_below (is_of t.known uid) (is_of s.known uid) s.next s.connections
              (λ v h. is_of-earlier s.next v uid (delivered grant r.principal_uid writer) s.known h)
              i.below,
          ap bit (is_of-added s.next uid (delivered grant r.principal_uid writer) s.known),
        );
        active = omega (arith, i.active, spent-active id r s.reservations there on);
        active_of = left_active_of;
        unused = spent-unused;
      }
