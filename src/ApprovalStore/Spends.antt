-- ===== src/ApprovalStore/Spends.antt =====
-- How often a history of the store spends the execution of an approval.
use sayfirst_control_plane.Common.{
  ℕ, ◌+◌, ◌≤◌, ◌≡◌, inl, inr, refl, Bool, true, false, not, ◌&&◌, Option, none, some, List, [], ◌∷◌,
  String, arith, if◌then◌else◌, Bool-cases, Option-cases, ok, err, pair_keyed, text_keyed, Result,
  ◌==◌, ==_iff, ⊤,
}
use sayfirst_control_plane.Common.Dict.{Dict, lookup, lookup-insert, lookup-insert_self}
use sayfirst_control_plane.Approval.{Approval, Key, key_of, is_approved, question_keyed}
use sayfirst_control_plane.ApprovalStore.Monad.{Store, StoreError, Action, ◌>>=◌, ◌>>◌, raise_if}
use sayfirst_control_plane.ApprovalStore.{open_if_absent, read, keep}
use sayfirst_control_plane.ApprovalStore.Acts.{consume}
use sayfirst_control_plane.ApprovalStore.Invariant.{Inv}
use sayfirst_control_plane.ApprovalStore.Evolution.{
  then_indexed-refs, Evolves, claim-Evolves, release_claim-Evolves, publish-Evolves,
  consume-Evolves, abandon-Evolves, resolve-Evolves, expire_past-Evolves, forget_lapsed-Evolves,
}
use sayfirst_control_plane.ApprovalStore.Keeping.{
  >>=-run, >>=-raised, keep-raised, checked_cases, then_indexed,
}
use sayfirst_control_plane.ApprovalStore.Records.{keep-ok}
use sayfirst_control_plane.ApprovalStore.Histories.{
  Command, open_one, publish_one, abandon_one, claim_one, release_one, consume_one, resolve_one,
  expire_all, forget_all, perform, AreBuilt, perform-Inv, opens,
}
use sayfirst_control_plane.ApprovalStore.Executions.{open_if_absent-cases}

-- Whether a command spends the execution of the approval under the key.
abbrev pub answered : {A : Type 0} → Result StoreError A → Bool
answered (ok a) = true
answered (err e) = false

abbrev pub spends : ℕ → Key → Command → Store → ℕ
spends now key (consume_one scope ref) s =
    if ((scope, ref) == key) && answered (consume scope ref now s).0 then 1 else 0
spends now key c s = 0

-- How many executions a history spends on the key.
abbrev pub spent_in : Key → List (ℕ × Command) → Store → ℕ
spent_in key [] s = 0
spent_in key ((now, c) ∷ cs) s = spends now key c s + spent_in key cs (perform now c s)

abbrev pub NeverOpens : Key → List (ℕ × Command) → Type 0
NeverOpens key [] = ⊤
NeverOpens key ((now, c) ∷ cs) = (opens key c ≡ false) × NeverOpens key cs

-- The executions that are left under the key.
abbrev pub unspent : Option Approval → ℕ
unspent none = 0
unspent (some a) = if a.consumed then 0 else 1

unspent-Evolves :
    (now : ℕ) (key : Key) (before after : Dict Key Approval)
    → Evolves now before after
    → 0 + unspent (lookup key after) ≤ unspent (lookup key before)
unspent-Evolves now key before after e = omega (arith, by_record (lookup key after) refl)
  where
    by_record :
        (o : Option Approval) → lookup key after ≡ o → unspent o ≤ unspent (lookup key before)
    by_record none h = omega arith
    by_record (some b) h = let (a, there, f) = e key b h in rw there (ground (arith, f.2))

-- An opening under another key leaves this one alone.
unspent-open :
    (now : ℕ) (key : Key) (a : Approval) (s : Store)
    → Inv s
    → (key_of a == key) ≡ false
    → unspent (lookup key (open_if_absent a now s).1.by_reference)
      ≡ unspent (lookup key s.by_reference)
unspent-open now key a s v other = elim (open_if_absent-cases a now s v) [
  | inl same ↦ rw same
  | inr (_, e, _) ↦ rw e (rw (lookup-insert (key_of a) key a s.by_reference, other))
]

-- A spend takes the one execution that was left.
abbrev Spends : Key → Option Approval → Result StoreError Approval × Store → Type 0
Spends key kept r =
    answered r.0 ≡ true → (unspent kept ≡ 1) × (unspent (lookup key (r.1).by_reference) ≡ 0)

module _ (scope ref : String) (now : ℕ) (s : Store) where
  abbrev at : Key
  at = (scope, ref)

  if_raised :
      (o : Option Approval) (b c : Bool) (x y : StoreError) (m : Action Approval)
      → (b ≡ false → Spends at o (m s))
      → Spends at o ((raise_if b x >> (raise_if (not c) y >> m)) s)
  if_raised o true c x y m h = λ e. cc
  if_raised o false true x y m h = h refl
  if_raised o false false x y m h = λ e. cc

  spend :
      (kept a : Approval)
      → kept.consumed ≡ false
      → a.consumed ≡ true
      → Spends at (some kept) ((keep at a >>= then_indexed at ok) s)
  spend kept a left spent = elim (checked_cases a) [
    | inr (c, e) ↦
        rw (>>=-raised (keep at a) (then_indexed at ok) s (keep-raised at a s c e)) (λ h. cc)
    | inl (_, valid) ↦
        rw
          (
            >>=-run (keep at a) (then_indexed at ok) s (keep-ok at a s valid),
            then_indexed-refs at ok a _,
          )
          (λ h. (ground arith, ground (arith, lookup-insert_self at a s.by_reference)))
  ]

  consume-Spends : Spends at (lookup at s.by_reference) (consume scope ref now s)
  unfolding consume read
  consume-Spends = elim (Option-cases (lookup at s.by_reference)) [
    | inl missing ↦ rw missing (λ h. cc)
    | inr (kept, found) ↦ rw found (elim (Bool-cases (is_approved kept.state)) [
      | inr no_act ↦ rw no_act (λ h. cc)
      | inl yes_act ↦ rw yes_act (
          if_raised (some kept) kept.consumed kept.claimed _ _ _ (λ left.
            spend kept (record kept { consumed = true; consumed_at = some now }) left refl))
    ])
  ]

-- What a command spends under a key and what it leaves there is no more than there was.
spends-unspent :
    (now : ℕ) (key : Key) (c : Command) (s : Store)
    → Inv s
    → opens key c ≡ false
    → spends now key c s + unspent (lookup key (perform now c s).by_reference)
      ≤ unspent (lookup key s.by_reference)
unfolding perform
spends-unspent now key (open_one a) s v n = omega (arith, unspent-open now key a s v n)
spends-unspent now key (publish_one scope ref) s v n =
    unspent-Evolves now key _ _ (publish-Evolves now scope ref s)
spends-unspent now key (abandon_one scope ref) s v n =
    unspent-Evolves now key _ _ (abandon-Evolves now scope ref s v)
spends-unspent now key (claim_one scope ref) s v n =
    unspent-Evolves now key _ _ (claim-Evolves now scope ref s)
spends-unspent now key (release_one scope ref) s v n =
    unspent-Evolves now key _ _ (release_claim-Evolves now scope ref s)
spends-unspent now key (resolve_one scope ref person resolution reason) s v n =
    unspent-Evolves now key _ _ (resolve-Evolves now scope ref s person resolution reason v)
spends-unspent now key expire_all s v n = unspent-Evolves now key _ _ (expire_past-Evolves now s v)
spends-unspent now key forget_all s v n =
    unspent-Evolves now key _ _ (forget_lapsed-Evolves now s v)
spends-unspent now key (consume_one scope ref) s v n =
    elim (Bool-cases (((scope, ref) == key) && answered (consume scope ref now s).0)) [
      | inr none_spent ↦
          rw none_spent (unspent-Evolves now key _ _ (consume-Evolves now scope ref s now))
      | inl one_spent ↦
          rw one_spent (at_key ((==_iff (scope, ref) key).0 (ground arith)) (ground arith))
    ]
  where
    at_key :
        (scope, ref) ≡ key
        → answered (consume scope ref now s).0 ≡ true
        → 1 + unspent (lookup key (consume scope ref now s).1.by_reference)
          ≤ unspent (lookup key s.by_reference)
    at_key here done = rw (← here) (omega (arith, consume-Spends scope ref now s done))

-- One resolution authorises one execution: in any history from a well-formed store that opens only
-- approvals that can be constructed, and never the key anew, whatever
-- asks, people and sweeps do in between, `consume` succeeds on the key no more often than its record
-- has an execution left, which is once at most, and never once the record is spent or gone.
pub spent_in-unspent :
    (key : Key) (cs : List (ℕ × Command)) (s : Store)
    → AreBuilt cs
    → NeverOpens key cs
    → Inv s
    → spent_in key cs s ≤ unspent (lookup key s.by_reference)
spent_in-unspent key [] s b n v = omega arith
spent_in-unspent key ((now, c) ∷ cs) s b n v = omega (
  arith,
  spends-unspent now key c s v n.0,
  spent_in-unspent key cs (perform now c s) b.1 n.1 (perform-Inv now c s b.0 v),
)
