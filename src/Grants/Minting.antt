-- ===== src/Grants/Minting.antt =====
-- What a minted grant covers, and for how long.
use Prim.Native.String.{◌++◌ as join}
use text.Mathlib.TextLemmas.{append_cancel_left}
use sayfirst_control_plane.Common.{
  ℕ, ◌+◌, ◌≤◌, ◌<◌, ◌≡◌, true, Option, none, some, String, arith, ==_iff, text_keyed, option_keyed,
  nat_keyed, ◌↔◌, ok, refl,
}
use sayfirst_control_plane.Policy.{Outcome, allow, deny, suspend, DecisionQuestion, reference}
use sayfirst_control_plane.Grants.{
  Grant, Decision, mint_grant, grant_state, grant_matches, seconds, live,
}

-- The question that a decision answered.
abbrev pub AnsweredBy : Decision → DecisionQuestion → Type 0
AnsweredBy d q =
    (d.scope ≡ q.ask.scope)
    × (d.capability ≡ q.ask.capability)
    × (d.principal_name ≡ some q.principal.user_name)
    × (d.arguments_digest ≡ some q.ask.arguments_digest)

abbrev minted : String → Decision → ℕ → ℕ → String → ℕ → String → Option String → Grant
minted grant_id d now lifetime version heartbeat name digest = record {
  grant_id = grant_id;
  decision_ref = d.decision_ref;
  policy_version = version;
  issued_at = now;
  lifetime_seconds = lifetime;
  expires_at = now + seconds lifetime;
  heartbeat_seconds = heartbeat;
  conditions = record {
    scope = d.scope;
    capability = d.capability;
    principal_reference = join "user:" name;
    arguments_digest = digest;
  };
}

module _ (grant_id : String) (now lifetime : ℕ) (version : String) (heartbeat : ℕ) (g : Grant) where
  abbrev Minted : Decision → Type 0
  Minted d =
      (name : String) × (digest : Option String) × (d.principal_name ≡ some name)
      × (d.arguments_digest ≡ some digest)
      × (d.outcome ≡ allow)
      × (d.policy_version ≡ some version)
      × (1 ≤ lifetime)
      × (lifetime ≤ 86400)
      × (minted grant_id d now lifetime version heartbeat name digest ≡ g)

  mint_grant-by_members :
      (o : Outcome) (pn : Option String) (dg : Option (Option String)) (d : Decision)
      → mint_grant grant_id
          (record d { outcome = o; principal_name = pn; arguments_digest = dg })
          now
          lifetime
          version
          heartbeat
        ≡ ok g
      → Minted (record d { outcome = o; principal_name = pn; arguments_digest = dg })
  unfolding mint_grant
  mint_grant-by_members allow (some n) (some x) d h = (
    n,
    x,
    refl,
    refl,
    refl,
    ground (arith, ==_iff d.policy_version (some version)),
    ground arith,
    ground arith,
    ground (arith, ==_iff d.policy_version (some version)),
  )
  mint_grant-by_members o none x d h = ground arith
  mint_grant-by_members o n none d h = ground arith
  mint_grant-by_members deny n x d h = ground arith
  mint_grant-by_members suspend n x d h = ground arith

  mint_grant-Minted :
      (d : Decision) → mint_grant grant_id d now lifetime version heartbeat ≡ ok g → Minted d
  mint_grant-Minted d h = mint_grant-by_members d.outcome d.principal_name d.arguments_digest d h

-- A grant is minted from a decision that allowed, under the version in force, for a lifetime within
-- a day that it is given whole, and matches exactly the questions that the decision answered.
pub mint_grant-AnsweredBy :
    (grant_id : String) (d : Decision) (now lifetime : ℕ) (version : String) (heartbeat : ℕ)
    (g : Grant) (q : DecisionQuestion)
    → mint_grant grant_id d now lifetime version heartbeat ≡ ok g
    → (d.outcome ≡ allow)
      × (d.policy_version ≡ some version)
      × (lifetime ≤ 86400)
      × (g.expires_at ≡ now + seconds lifetime)
      × ((grant_matches g q ≡ true) ↔ AnsweredBy d q)
unfolding grant_matches
mint_grant-AnsweredBy grant_id d now lifetime version heartbeat g q h =
    let (n, x, named, pinned, allowed, current, _, bounded, e) =
      mint_grant-Minted grant_id now lifetime version heartbeat g d h in
    rw (← e) (
      allowed,
      current,
      bounded,
      refl,
      (
        λ m. ground (
          arith,
          named,
          pinned,
          ==_iff d.scope q.ask.scope,
          ==_iff d.capability q.ask.capability,
          ==_iff (join "user:" n) (reference q.principal),
          ==_iff x q.ask.arguments_digest,
          append_cancel_left "user:" n q.principal.user_name,
        ),
        λ m. ground (
          arith,
          named,
          pinned,
          ==_iff d.scope q.ask.scope,
          ==_iff d.capability q.ask.capability,
          ==_iff (join "user:" n) (reference q.principal),
          ==_iff x q.ask.arguments_digest,
        ),
      ),
    )

-- A minted grant whose connection is live, where the policy keeps its version and the last word
-- came no earlier than the grant, is live exactly until it expires.
pub mint_grant-live_iff :
    (grant_id : String) (d : Decision) (now lifetime : ℕ) (version : String) (heartbeat : ℕ)
    (g : Grant) (later heard : ℕ)
    → mint_grant grant_id d now lifetime version heartbeat ≡ ok g
    → now ≤ heard
    → (grant_state g later version true heard ≡ live) ↔ (later < now + seconds lifetime)
unfolding grant_state
mint_grant-live_iff grant_id d now lifetime version heartbeat g later heard h le =
    let (n, x, named, pinned, allowed, current, _, bounded, e) =
      mint_grant-Minted grant_id now lifetime version heartbeat g d h in
    rw (← e)
      (λ l. ground (arith, ==_iff version version), λ l. ground (arith, ==_iff version version))
