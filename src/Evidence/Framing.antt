-- ===== src/Evidence/Framing.antt =====
-- The framing of a preimage in
-- packages/control-plane/src/sayfirst_control_plane/domain/evidence_chain.py: `_component` writes
-- the length of a component before it, and `-` for one that is absent. A text of bytes is a list of
-- numbers.
use mathlib.Core.List.{append_assoc}
use mathlib.Core.Path.{Path}
use mathlib.Core.Option.{some_inj}
use sayfirst_control_plane.Common.{
  ℕ, zero, suc, ◌+◌, ◌-◌, ◌*◌, ◌/◌, ◌%◌, ◌<◌, ◌≡◌, refl, sym, ap, ◌∙◌, Bool, ◌&&◌, Option, none,
  some, List, [], ◌∷◌, ◌++◌, arith, leb, ltb, nat_keyed, ◌==◌, if◌then◌else◌, length, Bool-cases,
  inl, inr,
}

abbrev pub Bytes : Type 0
Bytes = List ℕ

-- The decimal digits of a number, before others: `str(n)`. One round writes one digit, so a number
-- has fewer rounds than its fuel.
unfoldable pub digits_before : ℕ → ℕ → Bytes → Bytes
digits_before zero n rest = rest
digits_before (suc fuel) n rest =
    let more = digits_before fuel (n / 10) ((b'0' + n % 10) ∷ rest) in
    if ltb n 10 then (b'0' + n) ∷ rest else more

unfoldable pub digits : ℕ → Bytes
unfolding digits_before
digits n = digits_before (suc n) n []

-- `_component`
unfoldable pub component : Option Bytes → Bytes
unfolding digits
component none = b'-' ∷ b':' ∷ []
component (some raw) = digits (length raw) ++ (b':' ∷ raw)

-- `b"".join(_component(value) for value in values)`
unfoldable pub framed : List (Option Bytes) → Bytes
unfolding component
framed [] = []
framed (c ∷ cs) = component c ++ framed cs

abbrev is_digit : ℕ → Bool
is_digit c = leb b'0' c && leb c b'9'

-- A reader of components, which the code does not have: the number that stands before a colon, and
-- what follows it.
read_number : ℕ → Bytes → Option (ℕ × Bytes)
read_number acc [] = none
read_number acc (c ∷ cs) =
    let rest = read_number (acc * 10 + (c - b'0')) cs in
    if c == b':' then some (acc, cs) else if is_digit c then rest else none

-- A run of the reader over the digits of a number holds the number where they end.
read_number-digits_before :
    (fuel n : ℕ) (rest tail : Bytes)
    → n < fuel
    → read_number 0 (digits_before fuel n rest ++ tail) ≡ read_number n (rest ++ tail)
unfolding digits_before read_number
read_number-digits_before zero n rest tail h = absurd (omega arith)
read_number-digits_before (suc fuel) n rest tail h = elim (Bool-cases (ltb n 10)) [
  | inl small ↦ rw small (ground arith)
  | inr large ↦ rw large (
      read_number-digits_before fuel (n / 10) ((b'0' + n % 10) ∷ rest) tail (ground arith)
      ∙ read_digit n (rest ++ tail))
]
  where
    read_digit :
        (n : ℕ) (bs : Bytes) → read_number (n / 10) ((b'0' + n % 10) ∷ bs) ≡ read_number n bs
    read_digit n bs = ground arith

read_number-digits :
    (n : ℕ) (tail : Bytes) → read_number 0 (digits n ++ (b':' ∷ tail)) ≡ some (n, tail)
unfolding digits read_number
read_number-digits n tail = read_number-digits_before (suc n) n [] (b':' ∷ tail) (omega arith)

pub digits_injective : (m n : ℕ) → digits m ≡ digits n → m ≡ n
digits_injective m n e =
    let back : Path (Option (ℕ × Bytes)) (some (m, [])) (some (n, [])) =
      sym (read_number-digits m [])
      ∙ ap (λ ds. read_number 0 (ds ++ (b':' ∷ []))) e
      ∙ read_number-digits n [] in
    ap (λ p. p.0) (some_inj.0 back)

-- The first bytes, as many as are asked for, and those behind them.
take_bytes : ℕ → Bytes → Option (Bytes × Bytes)
take_bytes zero bs = some ([], bs)
take_bytes (suc n) [] = none
take_bytes (suc n) (b ∷ bs) = elim (take_bytes n bs) [
  | none ↦ none
  | some (front, rest) ↦ some (b ∷ front, rest)
]

take_bytes-append : (raw tail : Bytes) → take_bytes (length raw) (raw ++ tail) ≡ some (raw, tail)
unfolding take_bytes
take_bytes-append [] tail = refl
take_bytes-append (b ∷ raw) tail = rw (take_bytes-append raw tail)

-- What a component was, and the bytes behind it.
read_component : Bytes → Option (Option Bytes × Bytes)
read_component bs = elim (read_number 0 bs) [
  | none ↦ elim bs [ (a ∷ b ∷ rest) ↦ some (none, rest) | _ ↦ none ]
  | some (n, rest) ↦ elim (take_bytes n rest) [
    | none ↦ none
    | some (raw, rest') ↦ some (some raw, rest')
  ]
]

read_present :
    (bs : Bytes) (n : ℕ) (raw rest rest' : Bytes)
    → read_number 0 bs ≡ some (n, rest)
    → take_bytes n rest ≡ some (raw, rest')
    → read_component bs ≡ some (some raw, rest')
unfolding read_component
read_present bs n raw rest rest' e f = rw (e, f, read_component)

read_component-component :
    (c : Option Bytes) (tail : Bytes) → read_component (component c ++ tail) ≡ some (c, tail)
unfolding read_component component read_number
read_component-component none tail = refl
read_component-component (some raw) tail =
    ap read_component (append_assoc (digits (length raw)) (b':' ∷ raw) tail)
    ∙ read_present (digits (length raw) ++ (b':' ∷ (raw ++ tail))) (length raw) raw (raw ++ tail)
        tail (read_number-digits (length raw) (raw ++ tail)) (take_bytes-append raw tail)

-- A reader of as many components as it is told of.
pub read_framed : ℕ → Bytes → Option (List (Option Bytes) × Bytes)
read_framed zero bs = some ([], bs)
read_framed (suc n) bs = elim (read_component bs) [
  | none ↦ none
  | some (c, rest) ↦ elim (read_framed n rest) [
    | none ↦ none
    | some (cs, rest') ↦ some (c ∷ cs, rest')
  ]
]

read_next :
    (bs : Bytes) (n : ℕ) (c : Option Bytes) (cs : List (Option Bytes)) (rest rest' : Bytes)
    → read_component bs ≡ some (c, rest)
    → read_framed n rest ≡ some (cs, rest')
    → read_framed (suc n) bs ≡ some (c ∷ cs, rest')
unfolding read_framed
read_next bs n c cs rest rest' e f = rw (e, f, read_framed)

-- Whatever components are framed, and whatever bytes follow them, a reader that knows how many they
-- are reads them back and stops where they end.
pub read_framed-framed :
    (cs : List (Option Bytes)) (tail : Bytes)
    → read_framed (length cs) (framed cs ++ tail) ≡ some (cs, tail)
unfolding read_framed framed
read_framed-framed [] tail = refl
read_framed-framed (c ∷ cs) tail =
    ap (read_framed (suc (length cs))) (append_assoc (component c) (framed cs) tail)
    ∙ read_next (component c ++ (framed cs ++ tail)) (length cs) c cs (framed cs ++ tail) tail
        (read_component-component c (framed cs ++ tail)) (read_framed-framed cs tail)

-- Two lists of as many components that are framed alike are one list: no component can be moved
-- into its neighbour, and an absent one is not an empty one.
pub framed_injective :
    (cs ds : List (Option Bytes)) → length cs ≡ length ds → framed cs ≡ framed ds → cs ≡ ds
framed_injective cs ds same e =
    let back : Path (Option (List (Option Bytes) × Bytes)) (some (cs, [])) (some (ds, [])) =
      sym (read_framed-framed cs []) ∙ rw (same, e) (read_framed-framed ds []) in
    ap (λ p. p.0) (some_inj.0 back)
