-- ===== src/Evidence/Value.antt =====
-- The values of a body: what JSON holds, floats left out. An object is a dictionary, as the code
-- reads it.
use sayfirst_control_plane.Common.{
  ◌||◌, ◌&&◌, all, ℕ, Bool, true, false, not, Option, none, some, List, [], ◌∷◌, map, String, ◌==◌,
  text_keyed, ltb, is_some, bit,
}
use sayfirst_control_plane.Common.Dict.{Dict, lookup}
use sayfirst_control_plane.Common.Int.{ℤ, pos, negsuc}

mutual
  pub data Value : Type 0 where
    null : Value
    boolean : Bool → Value
    integer : ℤ → Value
    text : String → Value
    array : Items → Value
    object : Members → Value

  pub data Items : Type 0 where
    nil : Items
    cons : Value → Items → Items

  pub data Members : Type 0 where
    end : Members
    member : String → Value → Members → Members

abbrev pub Body : Type 0
Body = Dict String Value

abbrev pub elements : Items → List Value
elements nil = []
elements (cons v vs) = v ∷ elements vs

abbrev pub members : Members → Body
members end = []
members (member name v ms) = (name, v) ∷ members ms

-- `isinstance(value, str)`
abbrev pub as_text : Value → Option String
as_text (text s) = some s
as_text _ = none

-- `isinstance(value, Mapping)`
abbrev pub as_object : Value → Option Body
as_object (object ms) = some (members ms)
as_object _ = none

-- `isinstance(value, list)`
abbrev pub as_array : Value → Option (List Value)
as_array (array vs) = some (elements vs)
as_array _ = none

-- `isinstance(value, int)`: a Boolean is an integer to Python.
abbrev pub as_integer : Value → Option ℤ
as_integer (integer n) = some n
as_integer (boolean b) = some (pos (bit b))
as_integer _ = none

abbrev pub is_boolean : Value → Bool
is_boolean (boolean b) = true
is_boolean _ = false

-- The natural number that an integer is.
abbrev pub natural_of : ℤ → Option ℕ
natural_of (pos n) = some n
natural_of (negsuc n) = none

-- `value < n`
abbrev pub is_below : ℤ → ℕ → Bool
is_below (pos m) n = ltb m n
is_below (negsuc m) n = true

-- An integer, not below `n`.
abbrev pub is_integer_from : ℕ → Option ℤ → Bool
is_integer_from n none = false
is_integer_from n (some z) = not (is_below z n)

-- `isinstance(value, str) and value`
abbrev pub is_named : Option String → Bool
is_named none = false
is_named (some s) = not (s == "")

-- `body.get(name)`, `null` where there is no such member.
abbrev pub get_or_null : Option Value → Value
get_or_null none = null
get_or_null (some v) = v

abbrev pub value_at : String → Body → Value
value_at name body = get_or_null (lookup name body)

-- `name in body`
abbrev pub has : Body → String → Bool
has body name = is_some (lookup name body)

abbrev pub names : Body → List String
names body = map (λ e. e.0) body

-- `value == s`
abbrev pub is_text : String → Value → Bool
is_text s (text t) = t == s
is_text s _ = false

abbrev pub is_null : Value → Bool
is_null null = true
is_null _ = false

-- `value in (…)`, for texts.
abbrev pub one_of : List String → Value → Bool
one_of [] v = false
one_of (x ∷ xs) v = is_text x v || one_of xs v

abbrev pub one_of_texts : List String → String → Bool
one_of_texts xs s = one_of xs (text s)

-- `names <= set(body)`, `set(body) <= names` and `set(body) == names`.
abbrev pub has_all : List String → Body → Bool
has_all wanted body = all (has body) wanted

abbrev pub has_only : List String → Body → Bool
has_only allowed body = all (one_of_texts allowed) (names body)

abbrev pub has_exactly : List String → Body → Bool
has_exactly wanted body = has_all wanted body && has_only wanted body
