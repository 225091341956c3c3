-- ===== src/Grants/Connections.antt =====
-- The connections on which grants are delivered:
-- packages/control-plane/src/sayfirst_control_plane/application/grants.py. Connections and
-- reservations are shared objects, so a registry has the store of both, by identity. A method that
-- takes the lock more than once is the composition of the steps between.
pub mod Endings
pub mod Openings
pub mod Sweeps
pub mod Bounds
pub mod Reserving
pub mod Steps
pub mod Keeping
pub mod Limits
pub mod Listing
pub mod Stopping
pub mod Living
pub mod Histories
pub mod Sweeping
pub mod Ticking
use sayfirst_control_plane.Common.{
  ℕ, ◌+◌, ◌-◌, ◌*◌, Bool, true, false, not, ◌&&◌, ◌||◌, Option, none, some, List, [], ◌∷◌, ◌++◌,
  map, String, leb, ltb, if◌then◌else◌, ◌==◌, text_keyed, nat_keyed, Result, refuse_if, ◌>>=◌, ◌>>◌,
  ok, err, ⊤,
}
use sayfirst_control_plane.Common.Dict.{Dict, lookup, insert, erase, count}
use sayfirst_control_plane.Grants.{Grant, seconds}

pub data SignalKind : Type 0 where
  heartbeat grant_ended : SignalKind

pub data GrantEndReason : Type 0 where
  policy_version_changed expired daemon_stopping connection_lost : GrantEndReason

-- `GrantEndReason.value`
abbrev pub value_of : GrantEndReason → String
value_of policy_version_changed = "policy_version_changed"
value_of expired = "expired"
value_of daemon_stopping = "daemon_stopping"
value_of connection_lost = "connection_lost"

pub record GrantSignal : Type 0 where
  pub kind : SignalKind
  pub grant_id : String
  pub policy_version : String
  pub at : ℕ
  pub reason : Option GrantEndReason

-- A writer of signals says whether it raises.
abbrev pub Writer : Type 0
Writer = GrantSignal → Bool

pub record GrantConnection : Type 0 where
  pub grant : Grant
  pub principal_uid : ℕ
  pub live : Bool
  pub last_signal_at : ℕ
  pub signals : List GrantSignal
  pub signal_writer : Option Writer

pub record GrantReservation : Type 0 where
  pub principal_uid : ℕ
  pub active : Bool

-- What is recorded: a grant is issued, or it ended, why and when.
pub data Event : Type 0 where
  issued : Grant → Event
  ended : String → String → ℕ → Event

-- `next` and `next_reservation` are the identities not yet given; `known` and `reservations` are the
-- objects.
pub record GrantConnections : Type 0 where
  pub max_connections_per_principal : ℕ
  pub max_connections : ℕ
  pub connections : Dict String ℕ
  pub reserved_total : ℕ
  pub reserved_by_principal : Dict ℕ ℕ
  pub stopping : Bool
  pub known : Dict ℕ GrantConnection
  pub next : ℕ
  pub reservations : Dict ℕ GrantReservation
  pub next_reservation : ℕ
  pub events : List Event

pub data GrantError : Type 0 where
  principal_limit_out_of_range total_limit_out_of_range : GrantError
  reservation_inactive no_such_key : GrantError

-- A registry without connections.
abbrev pub without_connections : ℕ → ℕ → GrantConnections
without_connections max_connections_per_principal max_connections = record {
  max_connections_per_principal = max_connections_per_principal;
  max_connections = max_connections;
  connections = [];
  reserved_total = 0;
  reserved_by_principal = [];
  stopping = false;
  known = [];
  next = 0;
  reservations = [];
  next_reservation = 0;
  events = [];
}

-- `GrantConnections.__init__`
unfoldable pub new_connections : ℕ → ℕ → Result GrantError GrantConnections
new_connections max_connections_per_principal max_connections = do
  refuse_if (not (leb max_connections_per_principal 4096)) principal_limit_out_of_range
  refuse_if (not (leb max_connections 65536)) total_limit_out_of_range
  ok (without_connections max_connections_per_principal max_connections)

abbrev pub number_or_zero : Option ℕ → ℕ
number_or_zero none = 0
number_or_zero (some n) = n

abbrev pub is_delivered_to : ℕ → Option GrantConnection → Bool
is_delivered_to uid none = false
is_delivered_to uid (some c) = c.principal_uid == uid

abbrev pub is_of : Dict ℕ GrantConnection → ℕ → ℕ → Bool
is_of known uid id = is_delivered_to uid (lookup id known)

abbrev pub anything : {A : Type 0} → A → Bool
anything a = true

-- The connections of a principal, and the slots reserved for it.
unfoldable pub per_principal : ℕ → GrantConnections → ℕ
unfolding count
per_principal uid s =
    count (is_of s.known uid) s.connections + number_or_zero (lookup uid s.reserved_by_principal)

-- `has_capacity`
unfoldable pub has_capacity : ℕ → GrantConnections → Bool
unfolding per_principal count
has_capacity uid s =
    ltb (count anything s.connections + s.reserved_total) s.max_connections
    && ltb (per_principal uid s) s.max_connections_per_principal

-- `reserve`, with the identity of the reservation.
unfoldable pub reserve : ℕ → GrantConnections → Option ℕ × GrantConnections
unfolding has_capacity
reserve uid s = if not (has_capacity uid s) then (none, s) else (
  some s.next_reservation,
  record s {
    reserved_total = s.reserved_total + 1;
    reserved_by_principal =
        insert uid (number_or_zero (lookup uid s.reserved_by_principal) + 1)
          s.reserved_by_principal;
    reservations =
        insert s.next_reservation (record { principal_uid = uid; active = true }) s.reservations;
    next_reservation = s.next_reservation + 1;
  },
)

-- `_release_reservation`. The total is not below the count of a principal, so it is not 0 where the
-- count is not missing.
unfoldable pub release_reservation : ℕ → GrantConnections → Result GrantError ⊤ × GrantConnections
release_reservation uid s = elim (lookup uid s.reserved_by_principal) [
  | none ↦ (err no_such_key, record s { reserved_total = s.reserved_total - 1 })
  | some n ↦ (
    ok tt,
    record s {
      reserved_total = s.reserved_total - 1;
      reserved_by_principal =
          if n - 1 == 0
          then erase uid s.reserved_by_principal
          else insert uid (n - 1) s.reserved_by_principal;
    },
  )
]

-- The reservation is spent, as its `_active` says.
abbrev pub spent : GrantReservation → GrantReservation
spent r = record r { active = false }

abbrev pub spend : ℕ → GrantReservation → GrantConnections → GrantConnections
spend id r s = record s { reservations = insert id (spent r) s.reservations }

-- `GrantReservation.cancel`
unfoldable pub cancel :
    ℕ → GrantReservation → GrantConnections → Result GrantError ⊤ × GrantConnections
unfolding release_reservation
cancel id r s =
    if not r.active then (ok tt, s) else release_reservation r.principal_uid (spend id r s)
