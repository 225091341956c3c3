-- ===== src/Evidence/Tampering.antt =====
-- Ranges of a chain with one last hash:
-- packages/control-plane/src/sayfirst_control_plane/domain/evidence_chain.py.
use sayfirst_control_plane.Common.{
  ℕ, ◌≡◌, ◌≢◌, ◌⊎◌, refl, sym, ap, ◌∙◌, subst, Option, none, some, List, [], ◌∷◌, String, ◌==◌,
  ==_iff, text_keyed, nat_keyed, list_keyed, length, Result, ok, ⊤, or_raise, arith, >>=-eq-ok,
  ok_inj, Bool-cases, inl, inr,
}
use mathlib.Core.Option.{some_inj}
use sayfirst_control_plane.Evidence.Value.{members}
use sayfirst_control_plane.Evidence.Framing.{
  Bytes, framed, framed_injective, digits, digits_injective,
}
use sayfirst_control_plane.Evidence.Records.{EvidenceEntry, checked_record, members_of}
use sayfirst_control_plane.Evidence.Chain.{
  Primitives, preimage, hash_of, recomputed, encode, encoded, instant, preimage_version,
}
use sayfirst_control_plane.Evidence.Appending.{checked_record-same}
use sayfirst_control_plane.Evidence.Verify.Intact.{Linked, Sound, AllSound, IsIntact}

module _ (p : Primitives) where
  -- The preimage of an entry.
  abbrev pub preimage_of : EvidenceEntry → Result String Bytes
  preimage_of e = preimage p e.facts e.sequence e.previous_hash

  -- The preimages of two entries differ and have one digest.
  abbrev pub Collide : EvidenceEntry → EvidenceEntry → Type 0
  Collide e f =
      (b : Bytes) × (b' : Bytes) × (preimage_of e ≡ ok b)
      × (preimage_of f ≡ ok b')
      × (b ≢ b')
      × (p.sha256 b ≡ p.sha256 b')

  -- The preimages of two entries at the same place collide.
  abbrev pub SomeCollide : List EvidenceEntry → List EvidenceEntry → Type 0
  SomeCollide [] fs = ⊥
  SomeCollide (e ∷ es) [] = ⊥
  SomeCollide (e ∷ es) (f ∷ fs) = Collide e f ⊎ SomeCollide es fs

  -- Two entries say the same in every member that the recipe covers.
  abbrev pub SaysSame : EvidenceEntry → EvidenceEntry → Type 0
  SaysSame e f =
      (e.facts.scope ≡ f.facts.scope)
      × (e.sequence ≡ f.sequence)
      × (e.facts.kind ≡ f.facts.kind)
      × (p.instant_text e.facts.recorded_at ≡ p.instant_text f.facts.recorded_at)
      × (e.facts.connection_id ≡ f.facts.connection_id)
      × (p.canonical_json (members (members_of e.facts.principal))
          ≡ p.canonical_json (members (members_of f.facts.principal)))
      × (p.canonical_json e.facts.body ≡ p.canonical_json f.facts.body)
      × (e.previous_hash ≡ f.previous_hash)

  -- What a sound entry's hash was taken over.
  hashed :
      (e : EvidenceEntry)
      → Sound p e
      → (b : Bytes) × (preimage_of e ≡ ok b) × (p.sha256 b ≡ e.entry_hash)
  unfolding recomputed hash_of
  hashed e s =
      let (r, made, h) = >>=-eq-ok (checked_record e.facts) _ s.1 in
      let same : r ≡ e.facts = sym (checked_record-same e.facts r made) in
      let (bytes, framing, h') =
        >>=-eq-ok (preimage_of e) _
          (subst (λ q. hash_of p q e.sequence e.previous_hash ≡ ok e.entry_hash) same h) in
      (bytes, framing, ok_inj h')

  -- The bytes of the texts in a preimage.
  record Encoding : Type 0 where
    version : Bytes
    scope : Bytes
    kind : Bytes
    printed : Bytes
    connection_id : Bytes
    previous : Option Bytes

  abbrev parts : EvidenceEntry → Encoding → List (Option Bytes)
  parts e n =
      some n.version
      ∷ some n.scope
      ∷ some (digits e.sequence)
      ∷ some n.kind
      ∷ some n.printed
      ∷ some n.connection_id
      ∷ some (p.canonical_json (members (members_of e.facts.principal)))
      ∷ some (p.canonical_json e.facts.body)
      ∷ n.previous
      ∷ []

  -- The bytes are those of the entry's texts.
  abbrev Encodes : EvidenceEntry → Encoding → Type 0
  Encodes e n =
      (at : String) × (p.instant_text e.facts.recorded_at ≡ some at)
      × (p.utf8 e.facts.scope ≡ some n.scope)
      × (p.utf8 e.facts.kind ≡ some n.kind)
      × (p.utf8 at ≡ some n.printed)
      × (p.utf8 e.facts.connection_id ≡ some n.connection_id)
      × (encoded p e.previous_hash ≡ ok n.previous)

  raised : {A : Type 0} (o : Option A) (a : A) (e : String) → or_raise o e ≡ ok a → o ≡ some a
  raised none a e h = cc h
  raised (some s) a e h = ap some (ok_inj h)

  -- A preimage is framed from the bytes of its entry's texts.
  preimage_of-parts :
      (e : EvidenceEntry) (b : Bytes)
      → preimage_of e ≡ ok b
      → (n : Encoding) × Encodes e n × (framed (parts e n) ≡ b)
  unfolding preimage
  preimage_of-parts e b h =
      let (version, _, h) = >>=-eq-ok (encode p preimage_version) _ h in
      let (scope, scoped, h) = >>=-eq-ok (encode p e.facts.scope) _ h in
      let (kind, known, h) = >>=-eq-ok (encode p e.facts.kind) _ h in
      let (at, told, h) = >>=-eq-ok (instant p e.facts.recorded_at) _ h in
      let (printed, shown, h) = >>=-eq-ok (encode p at) _ h in
      let (connection_id, connected, h) = >>=-eq-ok (encode p e.facts.connection_id) _ h in
      let (previous, linked, h) = >>=-eq-ok (encoded p e.previous_hash) _ h in
      (
        record {
          version = version;
          scope = scope;
          kind = kind;
          printed = printed;
          connection_id = connection_id;
          previous = previous;
        },
        (
          at,
          raised (p.instant_text e.facts.recorded_at) at _ told,
          raised (p.utf8 e.facts.scope) scope _ scoped,
          raised (p.utf8 e.facts.kind) kind _ known,
          raised (p.utf8 at) printed _ shown,
          raised (p.utf8 e.facts.connection_id) connection_id _ connected,
          linked,
        ),
        ok_inj h,
      )

  encoded_injective :
      (a b : Option String) (q : Option Bytes) → encoded p a ≡ ok q → encoded p b ≡ ok q → a ≡ b
  encoded_injective none none q h k = refl
  encoded_injective none (some t) q h k =
      let (b, _, made) = >>=-eq-ok (encode p t) _ k in cc (ok_inj h ∙ sym (ok_inj made))
  encoded_injective (some s) none q h k =
      let (b, _, made) = >>=-eq-ok (encode p s) _ h in cc (ok_inj k ∙ sym (ok_inj made))
  encoded_injective (some s) (some t) q h k =
      let (b, here, made) = >>=-eq-ok (encode p s) _ h in
      let (b', there, made') = >>=-eq-ok (encode p t) _ k in
      let same : b ≡ b' = some_inj.0 (ok_inj made ∙ sym (ok_inj made')) in
      ap some (
        p.utf8_injective s t b (raised (p.utf8 s) b _ here)
          (raised (p.utf8 t) b' _ there ∙ ap some (sym same)))

  -- Entries with one preimage say the same.
  agree :
      (e f : EvidenceEntry) (b : Bytes) → preimage_of e ≡ ok b → preimage_of f ≡ ok b → SaysSame e f
  agree e f b h k =
      let (n, (at, told, scoped, known, shown, connected, linked), framing) =
        preimage_of-parts e b h in
      let (m, (at', told', scoped', known', shown', connected', linked'), framing') =
        preimage_of-parts f b k in
      let c : parts e n ≡ parts f m =
        framed_injective (parts e n) (parts f m) refl (framing ∙ sym framing') in
      (
        p.utf8_injective e.facts.scope f.facts.scope n.scope scoped (scoped' ∙ cc c),
        digits_injective e.sequence f.sequence (cc c),
        p.utf8_injective e.facts.kind f.facts.kind n.kind known (known' ∙ cc c),
        told ∙ ap some (p.utf8_injective at at' n.printed shown (shown' ∙ cc c)) ∙ sym told',
        p.utf8_injective e.facts.connection_id f.facts.connection_id n.connection_id connected
            (connected' ∙ cc c),
        cc c,
        cc c,
        encoded_injective e.previous_hash f.previous_hash n.previous linked (linked' ∙ cc c),
      )

  -- Entries with one hash say the same, or there is a collision.
  same_hash :
      (e f : EvidenceEntry)
      → Sound p e
      → Sound p f
      → e.entry_hash ≡ f.entry_hash
      → SaysSame e f ⊎ Collide e f
  same_hash e f s t h =
      let (b, made, over) = hashed e s in
      let (b', made', over') = hashed f t in
      elim (Bool-cases (b == b')) [
        | inr differ ↦
            inr (b, b', made, made', (λ q. cc (((==_iff b b').1 q))), over ∙ h ∙ sym over')
        | inl same ↦ inl (agree e f b made (made' ∙ ap ok (sym ((==_iff b b').0 same))))
      ]

  abbrev pub last_hash : EvidenceEntry → List EvidenceEntry → String
  last_hash e [] = e.entry_hash
  last_hash e (f ∷ fs) = last_hash f fs

  -- Two ranges say the same, entry by entry.
  abbrev pub AllSaySame : List EvidenceEntry → List EvidenceEntry → Type 0
  AllSaySame [] [] = ⊤
  AllSaySame [] (f ∷ fs) = ⊥
  AllSaySame (e ∷ es) [] = ⊥
  AllSaySame (e ∷ es) (f ∷ fs) = SaysSame e f × AllSaySame es fs

  same_last_hash :
      (e f : EvidenceEntry) (es fs : List EvidenceEntry)
      → length es ≡ length fs
      → AllSound p (e ∷ es)
      → AllSound p (f ∷ fs)
      → Linked (e ∷ es)
      → Linked (f ∷ fs)
      → last_hash e es ≡ last_hash f fs
      → AllSaySame (e ∷ es) (f ∷ fs) ⊎ SomeCollide (e ∷ es) (f ∷ fs)
  same_last_hash e f [] [] n s t l m h = elim (same_hash e f s.0 t.0 h) [
    | inl same ↦ inl (same, tt)
    | inr collision ↦ inr (inl collision)
  ]
  same_last_hash e f [] (f' ∷ fs) n s t l m h = absurd (omega (arith, n))
  same_last_hash e f (e' ∷ es) [] n s t l m h = absurd (omega (arith, n))
  same_last_hash e f (e' ∷ es) (f' ∷ fs) n s t l m h =
      earlier (same_last_hash e' f' es fs (omega (arith, n)) s.1 t.1 l.1 m.1 h)
    where
      joined :
          AllSaySame (e' ∷ es) (f' ∷ fs)
          → SaysSame e f ⊎ Collide e f
          → AllSaySame (e ∷ e' ∷ es) (f ∷ f' ∷ fs) ⊎ SomeCollide (e ∷ e' ∷ es) (f ∷ f' ∷ fs)
      joined rest (inl same) = inl (same, rest)
      joined rest (inr collision) = inr (inl collision)

      earlier :
          AllSaySame (e' ∷ es) (f' ∷ fs) ⊎ SomeCollide (e' ∷ es) (f' ∷ fs)
          → AllSaySame (e ∷ e' ∷ es) (f ∷ f' ∷ fs) ⊎ SomeCollide (e ∷ e' ∷ es) (f ∷ f' ∷ fs)
      earlier (inr collision) = inr (inr collision)
      earlier (inl rest) = joined rest (same_hash e f s.0 t.0 (cc (sym l.0 ∙ rest.0.7 ∙ m.0)))

-- The last hash of an intact range commits to all of it: two intact ranges of the same length with
-- the same last hash say the same in every member of every entry that the recipe covers, unless the
-- preimages that the hashes of two entries at the same place were taken over differ and have one
-- digest.
pub last_hash_commits :
    (p : Primitives) (from_e from_f : ℕ) (to_e to_f : Option ℕ) (e f : EvidenceEntry)
    (es fs : List EvidenceEntry)
    → IsIntact p from_e to_e (e ∷ es)
    → IsIntact p from_f to_f (f ∷ fs)
    → length es ≡ length fs
    → last_hash p e es ≡ last_hash p f fs
    → AllSaySame p (e ∷ es) (f ∷ fs) ⊎ SomeCollide p (e ∷ es) (f ∷ fs)
last_hash_commits p from_e from_f to_e to_f e f es fs i j n h =
    same_last_hash p e f es fs n i.3 j.3 i.4 j.4 h
