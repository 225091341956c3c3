-- ===== src/ApprovalStore/Histories.antt =====
-- Histories of the store: what its callers may do to it, one operation after another, each at the
-- instant the clock gives. The clock does not go back.
use sayfirst_control_plane.Common.{
  ℕ, ◌≤◌, sym, subst, Bool, false, Option, List, [], ◌∷◌, String, pair_keyed, text_keyed, ◌==◌, ⊤,
}
use sayfirst_control_plane.Approval.{Approval, Key, key_of, question_keyed}
use sayfirst_control_plane.Approval.Validity.{IsValid}
use sayfirst_control_plane.ApprovalStore.Monad.{Store}
use sayfirst_control_plane.ApprovalStore.{open_if_absent, publish, abandon}
use sayfirst_control_plane.ApprovalStore.Acts.{Resolution, resolve, claim, release_claim, consume}
use sayfirst_control_plane.ApprovalStore.Sweeps.{expire_past, forget_lapsed}
use sayfirst_control_plane.ApprovalStore.Invariant.{Inv}
use sayfirst_control_plane.ApprovalStore.Keeping.{
  claim-Inv, release_claim-Inv, publish-Inv, consume-Inv, resolve-Inv,
}
use sayfirst_control_plane.ApprovalStore.Opening.{open_if_absent-Inv, abandon-Inv}
use sayfirst_control_plane.ApprovalStore.Expiry.{expire_past-Swept}
use sayfirst_control_plane.ApprovalStore.Forgetting.{forget_lapsed-Forgot}

pub data Command : Type 0 where
  open_one : Approval → Command
  publish_one abandon_one claim_one release_one consume_one : String → String → Command
  resolve_one : String → String → String → Resolution → Option String → Command
  expire_all forget_all : Command

unfoldable pub perform : ℕ → Command → Store → Store
perform now (open_one a) s = (open_if_absent a now s).1
perform now (publish_one scope ref) s = (publish scope ref s).1
perform now (abandon_one scope ref) s = (abandon scope ref s).1
perform now (claim_one scope ref) s = (claim scope ref s).1
perform now (release_one scope ref) s = (release_claim scope ref s).1
perform now (consume_one scope ref) s = (consume scope ref now s).1
perform now (resolve_one scope ref person resolution reason) s =
    (resolve scope ref person resolution reason now s).1
perform now expire_all s = (expire_past now s).1
perform now forget_all s = (forget_lapsed now s).1

unfoldable pub run : List (ℕ × Command) → Store → Store
run [] s = s
run ((now, c) ∷ cs) s = run cs (perform now c s)

-- The approvals that are opened are ones that could be constructed.
abbrev pub IsBuilt : Command → Type 0
IsBuilt (open_one a) = IsValid a
IsBuilt _ = ⊤

abbrev pub AreBuilt : List (ℕ × Command) → Type 0
AreBuilt [] = ⊤
AreBuilt ((now, c) ∷ cs) = IsBuilt c × AreBuilt cs

abbrev pub InOrder : ℕ → List (ℕ × Command) → Type 0
InOrder now [] = ⊤
InOrder now ((later, c) ∷ cs) = (now ≤ later) × InOrder later cs

pub perform-Inv : (now : ℕ) (c : Command) (s : Store) → IsBuilt c → Inv s → Inv (perform now c s)
unfolding perform
perform-Inv now (open_one a) s b v = open_if_absent-Inv a now s v b
perform-Inv now (publish_one scope ref) s b v = publish-Inv scope ref s v
perform-Inv now (abandon_one scope ref) s b v = abandon-Inv scope ref s v
perform-Inv now (claim_one scope ref) s b v = claim-Inv scope ref s v
perform-Inv now (release_one scope ref) s b v = release_claim-Inv scope ref s v
perform-Inv now (consume_one scope ref) s b v = consume-Inv scope ref s v now
perform-Inv now (resolve_one scope ref person resolution reason) s b v =
    resolve-Inv scope ref s v person resolution reason now
perform-Inv now expire_all s b v =
    let (ended, s', e, v', _) = expire_past-Swept now s v in subst (λ r. Inv r.1) (sym e) v'
perform-Inv now forget_all s b v =
    let (forgotten, s', e, v', _) = forget_lapsed-Forgot now s v in subst (λ r. Inv r.1) (sym e) v'

-- Any history of operations that opens approvals which can be constructed keeps a well-formed store
-- well-formed: its records are valid and filed under
-- their own keys, both of its indexes list what is kept and nothing else, and no heap misses a wait
-- that must end or a record that must lapse.
pub run-Inv : (cs : List (ℕ × Command)) (s : Store) → AreBuilt cs → Inv s → Inv (run cs s)
unfolding run
run-Inv [] s b v = v
run-Inv ((now, c) ∷ cs) s b v = run-Inv cs (perform now c s) b.1 (perform-Inv now c s b.0 v)

-- Whether a command opens a wait under this key.
abbrev pub opens : Key → Command → Bool
opens key (open_one a) = key_of a == key
opens key _ = false
