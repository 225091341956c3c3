-- ===== src/Grants/Connections/Bounds.antt =====
-- The invariant on the slots of a registry, kept and reserved:
-- packages/control-plane/src/sayfirst_control_plane/application/grants.py.
use sayfirst_control_plane.Common.{
  ℕ, ◌+◌, ◌-◌, ◌≤◌, ◌≡◌, refl, Bool, true, ◌&&◌, none, some, String, leb, if◌then◌else◌, ◌==◌,
  ==_iff, text_keyed, nat_keyed, ok, arith, bit, Bool-cases, Option-cases, inl, inr,
}
use sayfirst_control_plane.Common.Dict.{
  Dict, lookup, insert, erase, count, count-insert_new, count-insert_over, count-erase, count-agree,
  lookup-insert, lookup-erase,
}
use sayfirst_control_plane.Grants.Connections.{
  GrantConnections, GrantConnection, GrantReservation, anything, is_of, number_or_zero,
  per_principal, has_capacity, reserve, release_reservation, spend, spent,
}

abbrev pub reserved_for : ℕ → Dict ℕ ℕ → ℕ
reserved_for uid d = number_or_zero (lookup uid d)

abbrev pub is_active : GrantReservation → Bool
is_active r = r.active

abbrev pub is_active_of : ℕ → GrantReservation → Bool
is_active_of uid r = r.active && r.principal_uid == uid

-- The limits are `each` and `all` and hold, no identity is given twice, and the slots that are counted as reserved are the
-- active reservations, in all and of each principal.
pub record Inv (each all : ℕ) (s : GrantConnections) : Type 0 where
  pub each_is : s.max_connections_per_principal ≡ each
  pub all_is : s.max_connections ≡ all
  pub below : count (λ id. leb s.next id) s.connections ≡ 0
  pub in_all : count anything s.connections + s.reserved_total ≤ all
  pub of_each :
      (uid : ℕ)
      → count (is_of s.known uid) s.connections + reserved_for uid s.reserved_by_principal ≤ each
  pub active : count is_active s.reservations ≡ s.reserved_total
  pub active_of :
      (uid : ℕ) → count (is_active_of uid) s.reservations ≡ reserved_for uid s.reserved_by_principal
  pub unused : (id : ℕ) → s.next_reservation ≤ id → lookup id s.reservations ≡ none

-- The connections have the same principals.
abbrev pub Keeps : Dict ℕ GrantConnection → Dict ℕ GrantConnection → Type 0
Keeps known known' = (uid id : ℕ) → is_of known' uid id ≡ is_of known uid id

-- A connection that is written back keeps its principal.
pub insert-Keeps :
    (id : ℕ) (c d : GrantConnection) (known : Dict ℕ GrantConnection)
    → lookup id known ≡ some c
    → d.principal_uid ≡ c.principal_uid
    → Keeps known (insert id d known)
insert-Keeps id c d known there same uid j = elim (Bool-cases (id == j)) [
  | inl h ↦
      let here : id ≡ j = (==_iff id j).0 h in
      rw (lookup-insert id j d known, h, ← here, there, same) refl
  | inr h ↦ rw (lookup-insert id j d known, h) refl
]

-- A registry may lose an entry, and its connections change otherwise.
pub Inv-lose :
    {each all : ℕ} (s : GrantConnections) (id : String) (known : Dict ℕ GrantConnection)
    → Inv each all s
    → Keeps s.known known
    → Inv each all (record s { connections = erase id s.connections; known = known })
Inv-lose s id known i keeps = record {
  each_is = i.each_is;
  all_is = i.all_is;
  below = omega (arith, i.below, count-erase (λ v. leb s.next v) id s.connections);
  in_all = omega (arith, i.in_all, count-erase {V = ℕ} anything id s.connections);
  of_each = λ uid.
      let same =
        count-agree (is_of known uid) (is_of s.known uid) (erase id s.connections) (keeps uid) in
      omega (arith, i.of_each uid, same, count-erase (is_of s.known uid) id s.connections);
  active = i.active;
  active_of = i.active_of;
  unused = i.unused;
}

pub Inv-known :
    {each all : ℕ} (s : GrantConnections) (known : Dict ℕ GrantConnection)
    → Inv each all s
    → Keeps s.known known
    → Inv each all (record s { known = known })
Inv-known s known i keeps = record {
  each_is = i.each_is;
  all_is = i.all_is;
  below = i.below;
  in_all = i.in_all;
  of_each = λ uid. omega (
    arith,
    i.of_each uid,
    count-agree (is_of known uid) (is_of s.known uid) s.connections (keeps uid),
  );
  active = i.active;
  active_of = i.active_of;
  unused = i.unused;
}

-- What `reserve` leaves where there is capacity.
abbrev granted : ℕ → GrantConnections → GrantConnections
granted uid s = record s {
  reserved_total = s.reserved_total + 1;
  reserved_by_principal =
      insert uid (reserved_for uid s.reserved_by_principal + 1) s.reserved_by_principal;
  reservations =
      insert s.next_reservation (record { principal_uid = uid; active = true }) s.reservations;
  next_reservation = s.next_reservation + 1;
}

-- One more slot is reserved for a principal, and none for another.
reserved-insert :
    (uid other n : ℕ) (d : Dict ℕ ℕ)
    → reserved_for other (insert uid n d) ≡ (if uid == other then n else reserved_for other d)
reserved-insert uid other n d = elim (Bool-cases (uid == other)) [
  | inl h ↦ rw (lookup-insert uid other n d, h) refl
  | inr h ↦ rw (lookup-insert uid other n d, h) refl
]

granted-Inv :
    {each all : ℕ} (uid : ℕ) (s : GrantConnections)
    → has_capacity uid s ≡ true
    → Inv each all s
    → Inv each all (granted uid s)
unfolding has_capacity per_principal
granted-Inv uid s room i =
    let new = i.unused s.next_reservation (omega arith) in
    record {
      each_is = i.each_is;
      all_is = i.all_is;
      below = i.below;
      in_all = ground (arith, room, i.all_is);
      of_each = λ other. ground (
        arith,
        room,
        i.each_is,
        i.of_each other,
        reserved-insert uid other (reserved_for uid s.reserved_by_principal + 1)
            s.reserved_by_principal,
        ==_iff uid other,
      );
      active = omega (
        arith,
        i.active,
        count-insert_new is_active s.next_reservation
            (record { principal_uid = uid; active = true }) s.reservations new,
      );
      active_of = λ other. ground (
        arith,
        i.active_of other,
        i.active_of uid,
        ==_iff uid other,
        count-insert_new (is_active_of other) s.next_reservation
            (record { principal_uid = uid; active = true }) s.reservations new,
        reserved-insert uid other (reserved_for uid s.reserved_by_principal + 1)
            s.reserved_by_principal,
      );
      unused = λ id h.
          unfold lookup in
          ground (
            arith,
            i.unused id (omega (arith, h)),
            lookup-insert s.next_reservation id (record { principal_uid = uid; active = true })
                s.reservations,
          );
    }

-- A slot is reserved only where there is capacity.
pub reserve-Inv :
    {each all : ℕ} (uid : ℕ) (s : GrantConnections)
    → Inv each all s
    → Inv each all ((reserve uid s).1)
unfolding reserve
reserve-Inv uid s i = elim (Bool-cases (has_capacity uid s)) [
  | inr h ↦ rw h i
  | inl h ↦ rw h (granted-Inv uid s h i)
]

-- A reservation that is spent is no longer counted, in all and of its principal.
pub spent-active :
    (id : ℕ) (r : GrantReservation) (d : Dict ℕ GrantReservation)
    → lookup id d ≡ some r
    → r.active ≡ true
    → count is_active (insert id (spent r) d) + 1 ≡ count is_active d
spent-active id r d there on =
    ground (arith, on, count-insert_over is_active id (spent r) r d there)

pub spent-active_of :
    (id uid : ℕ) (r : GrantReservation) (d : Dict ℕ GrantReservation)
    → lookup id d ≡ some r
    → r.active ≡ true
    → count (is_active_of uid) (insert id (spent r) d) + bit (r.principal_uid == uid)
      ≡ count (is_active_of uid) d
spent-active_of id uid r d there on =
    ground (arith, on, count-insert_over (is_active_of uid) id (spent r) r d there)

-- The registry that a release leaves, where the count of the principal is `n`.
abbrev pub released : ℕ → ℕ → GrantConnections → GrantConnections
released uid n s = record s {
  reserved_total = s.reserved_total - 1;
  reserved_by_principal =
      if n - 1 == 0
      then erase uid s.reserved_by_principal
      else insert uid (n - 1) s.reserved_by_principal;
}

-- An active reservation is counted for its principal, so its release answers.
pub release-answers :
    {each all : ℕ} (id : ℕ) (r : GrantReservation) (s : GrantConnections)
    → Inv each all s
    → lookup id s.reservations ≡ some r
    → r.active ≡ true
    → (n : ℕ) × (reserved_for r.principal_uid s.reserved_by_principal ≡ n)
      × (1 ≤ n)
      × (release_reservation r.principal_uid (spend id r s)
          ≡ (ok tt, released r.principal_uid n (spend id r s)))
unfolding release_reservation
release-answers id r s i there on =
    elim (Option-cases (lookup r.principal_uid s.reserved_by_principal)) [
      | inl h ↦
          let counted = spent-active_of id r.principal_uid r s.reservations there on in
          let zeroed : reserved_for r.principal_uid s.reserved_by_principal ≡ 0 = rw h refl in
          absurd (
            ground (
              arith,
              counted,
              zeroed,
              i.active_of r.principal_uid,
              ==_iff r.principal_uid r.principal_uid,
            ))
      | inr (n, h) ↦
          let counted = spent-active_of id r.principal_uid r s.reservations there on in
          let number : reserved_for r.principal_uid s.reserved_by_principal ≡ n = rw h refl in
          (
            n,
            number,
            ground (
              arith,
              counted,
              number,
              i.active_of r.principal_uid,
              ==_iff r.principal_uid r.principal_uid,
            ),
            rw (h, release_reservation) refl,
          )
    ]

-- What a release leaves reserved.
pub reserved-released :
    (uid other n : ℕ) (d : Dict ℕ ℕ)
    → reserved_for uid d ≡ n
    → reserved_for other (if n - 1 == 0 then erase uid d else insert uid (n - 1) d)
      ≡ reserved_for other d - bit (uid == other)
reserved-released uid other n d e =
    ground (arith, lookup-erase uid other d, lookup-insert uid other (n - 1) d, ==_iff uid other, e)
