-- ===== src/Boundary/Reader.antt =====
-- `SignalReader` of packages/boundary/src/sayfirst_boundary/signals.py: what a reader knows of its
-- grant. The channel is a parameter: it delivers signals, and it ends. Its thread applies them one at
-- a time, under the reader's lock, so a history is a list of events. An instant that a signal fails
-- to tell ends the reader, as the channel's end does.
use sayfirst_control_plane.Common.{
  ℕ, ◌≡◌, ◌≢◌, ◌⊎◌, inl, inr, refl, sym, ap, ◌∙◌, ⊤, ◌++◌, Option-cases, Bool, true, false, Option,
  none, some, List, [], ◌∷◌, String, arith, is_some,
}
use sayfirst_control_plane.Policy.{DecisionAsk}
use sayfirst_control_plane.Grants.{Grant}
use sayfirst_control_plane.Boundary.Freshness.{
  GrantEndReason, Held, ending, ending_live_iff, still_live,
}

pub data GrantSignalKind : Type 0 where
  heartbeat grant_ended : GrantSignalKind

-- The members of a `GrantSignal` that a reader takes up.
pub record GrantSignal : Type 0 where
  pub kind : GrantSignalKind
  pub at : ℕ
  pub reason : Option GrantEndReason

pub record SignalReader : Type 0 where
  pub grant : Grant
  pub last_heard_at : ℕ
  pub connection_live : Bool
  pub ended_by : Option GrantEndReason

-- `SignalReader.__init__`
abbrev pub new_reader : Grant → SignalReader
new_reader g = record {
  grant = g;
  last_heard_at = g.issued_at;
  connection_live = true;
  ended_by = none;
}

-- The reason that a signal ends a grant by.
abbrev pub ended_with : GrantSignalKind → Option GrantEndReason → Option GrantEndReason
ended_with heartbeat reason = none
ended_with grant_ended reason = reason

-- `SignalReader._apply`
unfoldable pub apply_signal : GrantSignal → SignalReader → SignalReader
apply_signal s r = elim r.ended_by [
  | some why ↦ r
  | none ↦ record r { last_heard_at = s.at; ended_by = ended_with s.kind s.reason }
]

-- `SignalReader.held`
abbrev pub held : SignalReader → Held
held r = record {
  grant = r.grant;
  last_heard_at = r.last_heard_at;
  connection_live = r.connection_live;
  ended_by = r.ended_by;
}

-- `SignalReader.close`, and the end of `_read_until_the_channel_ends`.
abbrev pub close_reader : SignalReader → SignalReader
close_reader r = record r { connection_live = false }

pub data Event : Type 0 where
  signalled : GrantSignal → Event
  channel_ended closed : Event

unfoldable pub happened : Event → SignalReader → SignalReader
unfolding apply_signal
happened (signalled s) r = apply_signal s r
happened channel_ended r = close_reader r
happened closed r = close_reader r

unfoldable pub read_all : List Event → SignalReader → SignalReader
read_all [] r = r
read_all (e ∷ es) r = read_all es (happened e r)

-- A reader whose channel is given up, or that recorded a reason for an ending.
abbrev pub Over : SignalReader → Type 0
Over r = (r.connection_live ≡ false) ⊎ (is_some r.ended_by ≡ true)

happened-Over : (e : Event) (r : SignalReader) → Over r → Over (happened e r)
unfolding happened
happened-Over (signalled s) r h = by_end r.ended_by r h
  where
    by_end :
        (o : Option GrantEndReason) (r : SignalReader)
        → Over (record r { ended_by = o })
        → Over (apply_signal s (record r { ended_by = o }))
    by_end (some why) r h = h
    by_end none r (inl lost) = inl lost
    by_end none r (inr h) = ground arith
happened-Over channel_ended r h = inl refl
happened-Over closed r h = inl refl

read_all-Over : (es : List Event) (r : SignalReader) → Over r → Over (read_all es r)
unfolding read_all
read_all-Over [] r h = h
read_all-Over (e ∷ es) r h = read_all-Over es (happened e r) (happened-Over e r h)

-- An event that ends what a reader holds: its channel is given up, or a signal ends the grant and
-- says why.
abbrev pub IsEnding : Event → Type 0
IsEnding (signalled s) = (s.kind ≡ grant_ended) × (is_some s.reason ≡ true)
IsEnding channel_ended = ⊤
IsEnding closed = ⊤

IsEnding-Over : (e : Event) (r : SignalReader) → IsEnding e → Over (happened e r)
unfolding happened apply_signal
IsEnding-Over (signalled s) r (kind, reason) = elim (Option-cases r.ended_by) [
  | inl e ↦ rw e (inr (rw kind reason))
  | inr (why, e) ↦ rw e (inr refl)
]
IsEnding-Over channel_ended r h = inl refl
IsEnding-Over closed r h = inl refl

read_all-append :
    (es fs : List Event) (r : SignalReader) → read_all (es ++ fs) r ≡ read_all fs (read_all es r)
unfolding read_all
read_all-append [] fs r = refl
read_all-append (e ∷ es) fs r = read_all-append es fs (happened e r)

-- An ending is final: once a reader's channel is given up, or a signal has ended its grant with a
-- reason, no later event makes the grant permit any act at any time, whatever came before.
pub read_all_final :
    (before after : List Event) (e : Event) (r : SignalReader) (ask : DecisionAsk)
    (principal_reference : String) (now : ℕ)
    → IsEnding e
    → ending (held (read_all (before ++ e ∷ after) r)) ask principal_reference now ≢ still_live
unfolding read_all
read_all_final before after e r ask principal_reference now h permits =
    let reader = read_all after (happened e (read_all before r)) in
    let (connected, unended, _, _, _) =
      (ending_live_iff (held reader) ask principal_reference now).0 (
        ap (λ x. ending (held x) ask principal_reference now)
          (sym (read_all-append before (e ∷ after) r))
        ∙ permits) in
    elim (read_all-Over after (happened e (read_all before r))
      (IsEnding-Over e (read_all before r) h)) [ inl lost ↦ cc | inr ended ↦ ground arith ]
