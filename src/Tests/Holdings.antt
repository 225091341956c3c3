-- ===== src/Tests/Holdings.antt =====
-- A grant that is minted, held and ended, and a log that loses records.
use sayfirst_control_plane.Common.{
  nat_keyed, ◌≤◌, ◌<◌, ◌+◌, ◌≡◌, ◌≢◌, ◌↔◌, refl, Bool, true, false, none, some, List, [], ◌∷◌,
  arith, ok,
}
use sayfirst_control_plane.Policy.{allow, DecisionAsk, DecisionQuestion}
use sayfirst_control_plane.Grants.{
  Grant, Decision, mint_grant, grant_state, grant_matches, seconds, live, same_conditions,
}
use sayfirst_control_plane.Grants.Minting.{AnsweredBy, mint_grant-AnsweredBy, mint_grant-live_iff}
use sayfirst_control_plane.Boundary.Freshness.{
  Held, ending, ending_live_iff, ending-grant_state, still_live, of_state, asked_conditions,
  lifetime_over,
}
use sayfirst_control_plane.Boundary.Reader.{
  new_reader, GrantSignal, heartbeat, grant_ended, signalled, held, read_all, read_all_final,
}
use sayfirst_control_plane.Common.Dict.{lookup, insert}
use sayfirst_control_plane.Boundary.GrantStore.{take}
use sayfirst_control_plane.Boundary.GrantStore.{conditions_keyed, close}
use sayfirst_control_plane.Boundary.GrantStore.Histories.{
  Act, puts, AllNewActs, empty_store, act, run_acts, run_acts-close,
}
use sayfirst_control_plane.Boundary.GrantStore.Taking.{run_acts-take}
use sayfirst_control_plane.Boundary.OutcomeLog.{new_log, Record}
use sayfirst_control_plane.Boundary.OutcomeLog.Gaps.{
  Counted, used, Use, record_one, flush_all, used-Counted, new_log-Counted,
}

abbrev allowed : Decision
allowed = record {
  decision_ref = "d1";
  scope = "site";
  capability = "pump.start";
  outcome = allow;
  policy_version = some "v1";
  principal_name = some "ann";
  arguments_digest = some none;
}

abbrev grant : Grant
grant = record {
  grant_id = "g1";
  decision_ref = "d1";
  policy_version = "v1";
  issued_at = 5;
  lifetime_seconds = 60;
  expires_at = 60000005;
  heartbeat_seconds = 10;
  conditions = record {
    scope = "site";
    capability = "pump.start";
    principal_reference = "user:ann";
    arguments_digest = none;
  };
}

abbrev ask : DecisionAsk
ask = record {
  capability = "pump.start";
  scope = "site";
  arguments_digest = none;
  correlation = none;
}

abbrev question : DecisionQuestion
question = record {
  ask = ask;
  principal = record {
    kind = "human";
    uid = 1000;
    user_name = "ann";
    gids = [];
    group_names = [];
    delegated_human = none;
  };
}

allowed-minted : mint_grant "g1" allowed 5 60 "v1" 10 ≡ ok grant
unfolding mint_grant
allowed-minted = refl

mint_grant-AnsweredBy_example :
    (allowed.outcome ≡ allow)
    × (allowed.policy_version ≡ some "v1")
    × (60 ≤ 86400)
    × (grant.expires_at ≡ 5 + seconds 60)
    × ((grant_matches grant question ≡ true) ↔ AnsweredBy allowed question)
mint_grant-AnsweredBy_example =
    mint_grant-AnsweredBy "g1" allowed 5 60 "v1" 10 grant question allowed-minted

mint_grant-live_iff_example :
    (grant_state grant 1000 "v1" true 700 ≡ live) ↔ (1000 < 5 + seconds 60)
mint_grant-live_iff_example =
    mint_grant-live_iff "g1" allowed 5 60 "v1" 10 grant 1000 700 allowed-minted (omega arith)

abbrev fresh : Held
fresh = held (new_reader grant)

ending_live_iff_example : (ending fresh ask "user:ann" 1000 ≡ still_live) ↔ (
    (true ≡ true)
    × (fresh.ended_by ≡ none)
    × (1000 < 60000005)
    × (1000 < 5 + seconds 60)
    × (same_conditions grant.conditions (asked_conditions ask "user:ann") ≡ true))
ending_live_iff_example = ending_live_iff fresh ask "user:ann" 1000

ending-grant_state_example :
    ending fresh ask "user:ann" 1000 ≡ of_state (grant_state grant 1000 "v1" true 5)
ending-grant_state_example = ending-grant_state fresh ask "user:ann" 1000 refl refl

abbrev over : GrantSignal
over = record { kind = grant_ended; at = 800; reason = some lifetime_over }

abbrev beat : GrantSignal
beat = record { kind = heartbeat; at = 900; reason = none }

read_all_final_example :
    ending
      (held (read_all (signalled beat ∷ signalled over ∷ signalled beat ∷ []) (new_reader grant)))
      ask
      "user:ann"
      1000
    ≢ still_live
read_all_final_example =
    read_all_final (signalled beat ∷ []) (signalled beat ∷ []) (signalled over) (new_reader grant)
      ask "user:ann" 1000 (refl, refl)

-- Three outcomes in a log of two, and a sink that takes nothing at first.
abbrev uses : List Use
uses =
    record_one "pump.start" "d1" none "t1"
    ∷ record_one "pump.start" "d2" none "t2"
    ∷ record_one "pump.stop" "d3" none "t3"
    ∷ flush_all
    ∷ []

abbrev first_only : List Record → Record → Bool
first_only [] r = true
first_only (x ∷ xs) r = false

used-Counted_example : Counted (used first_only uses (new_log 2))
used-Counted_example = used-Counted first_only uses (new_log 2) (new_log-Counted 2 (omega arith))

-- Two readers for one question: the second displaces the first.
abbrev two_puts : List Act
two_puts = puts 0 (new_reader grant) ∷ puts 1 (new_reader grant) ∷ []

two_new : AllNewActs two_puts empty_store
unfolding act lookup insert
two_new = (refl, (refl, tt))

run_acts-close_example :
    (lookup 0 (run_acts two_puts empty_store).readers ≡ some (new_reader grant)
      → true ≡ true
      → lookup grant.conditions (run_acts two_puts empty_store).holdings ≡ some 0)
    × (lookup 0 (close (run_acts two_puts empty_store)).readers ≡ some (new_reader grant)
        → true ≡ false)
run_acts-close_example = run_acts-close two_puts 0 (new_reader grant) two_new

second_left :
    lookup 1 (take ask "user:ann" 1000 (run_acts two_puts empty_store)).1.readers
    ≡ some (new_reader grant)
unfolding take act lookup insert ending run_acts
second_left = refl

run_acts-take_example :
    (((take ask "user:ann" 1000 (run_acts two_puts empty_store)).0 ≡ some 1)
      ↔ ((true ≡ true) × (grant.conditions ≡ asked_conditions ask "user:ann")))
    × (((take ask "user:ann" 1000 (run_acts two_puts empty_store)).0 ≡ some 1)
        ↔ (ending (held (new_reader grant)) ask "user:ann" 1000 ≡ still_live))
run_acts-take_example =
    run_acts-take two_puts ask "user:ann" 1000 1 (new_reader grant) two_new second_left
