-- ===== src/Value.antt =====
-- The values of a dynamically typed program: what `json.loads` gives, and the Python values that
-- JSON cannot hold. A `dict` is `obj`, its entries in order of insertion.
pub mod Json
pub mod Laws
pub mod Text
use Prim.Native.Nat.{◌^◌}
use polsia_build.Common.{
  Bool, List, Option, String, [], contains, eqb, false, if◌then◌else◌, is_empty, none, not, some,
  suc, true, ℕ, ◌&&◌, ◌*◌, ◌==◌, ◌||◌, ◌∷◌,
}

-- A finite number is `mantissa · 10^-scale`, with its sign apart.
pub record Number : Type 0 where
  pub negative : Bool
  pub mantissa : ℕ
  pub scale : ℕ

mutual
  pub data Value : Type 0 where
    null : Value
    bool : (b : Bool) → Value
    num : (n : Number) → Value
    -- `nan` is 0, and `inf` and `-inf` are 1 and 2
    nonfinite : ℕ → Value
    str : String → Value
    arr : Items → Value
    obj : Fields → Value
    -- any other object, known by its identity
    opaque : ℕ → Value

  pub data Items : Type 0 where
    nil : Items
    cons : (item : Value) (rest : Items) → Items

  pub data Fields : Type 0 where
    end : Fields
    field : (key : String) (v : Value) (rest : Fields) → Fields

abbrev pub int : ℕ → Value
int n = num (record { negative = false; mantissa = n; scale = 0 })

abbrev pub to_list : Items → List Value
to_list nil = []
to_list (cons v vs) = v ∷ to_list vs

abbrev pub of_list : List Value → Items
of_list [] = nil
of_list (v ∷ vs) = cons v (of_list vs)

-- A list of texts as a value, and `None` or a text.
abbrev pub texts : List String → Items
texts [] = nil
texts (s ∷ ss) = cons (str s) (texts ss)

abbrev pub optional : Option String → Value
optional none = null
optional (some s) = str s

-- `isinstance(v, str)`, `isinstance(v, list)`, `isinstance(v, dict)`, with what was tested for.
abbrev pub as_str : Value → Option String
as_str (str s) = some s
as_str _ = none

abbrev pub as_list : Value → Option (List Value)
as_list (arr vs) = some (to_list vs)
as_list _ = none

abbrev pub as_dict : Value → Option Fields
as_dict (obj d) = some d
as_dict _ = none

abbrev pub is_bool : Value → Bool
is_bool (bool _) = true
is_bool _ = false

abbrev pub is_null : Value → Bool
is_null null = true
is_null _ = false

-- `v is True`
abbrev pub is_true : Value → Bool
is_true (bool true) = true
is_true _ = false

-- A test of a text, or false of any other value.
abbrev pub str_and : (String → Bool) → Value → Bool
str_and p (str s) = p s
str_and p _ = false

-- `isinstance(v, str)`, and `isinstance(v, str) and v`
abbrev pub is_str : Value → Bool
is_str = str_and (λ _. true)

abbrev pub is_nonempty_str : Value → Bool
is_nonempty_str = str_and (λ s. not (is_empty s))

-- The texts of a list of texts.
abbrev pub strings : List Value → Option (List String)
strings [] = some []
strings (v ∷ vs) =
    let rest = strings vs in
    elim (as_str v) [ none ↦ none | some s ↦ elim rest [ none ↦ none | some ss ↦ some (s ∷ ss) ] ]

-- `isinstance(v, list)` with every item a text.
abbrev pub as_strings : Value → Option (List String)
as_strings v = elim (as_list v) [ none ↦ none | some vs ↦ strings vs ]

-- `d.get(k)` as an option, and as Python's value
abbrev pub find : String → Fields → Option Value
find k end = none
find k (field j v d) = if k == j then some v else find k d

abbrev pub get_or : Fields → String → Value → Value
get_or d k v = elim (find k d) [ none ↦ v | some w ↦ w ]

abbrev pub get : Fields → String → Value
get d k = get_or d k null

-- `d.keys()`
abbrev pub keys : Fields → List String
keys end = []
keys (field k _ d) = k ∷ keys d

abbrev pub size : Fields → ℕ
size end = 0
size (field _ _ d) = suc (size d)

-- `d[k] = v`
unfoldable pub set_item : Fields → String → Value → Fields
set_item end k v = field k v end
set_item (field j w d) k v = if k == j then field j v d else field j w (set_item d k v)

-- `d.pop(k, None)`
unfoldable pub pop : Fields → String → Fields
pop end k = end
pop (field j w d) k = let rest = pop d k in if k == j then rest else field j w rest

-- `bool(v)`
abbrev pub truthy : Value → Bool
truthy null = false
truthy (bool b) = b
truthy (num n) = not (eqb n.mantissa 0)
truthy (nonfinite _) = true
truthy (str s) = not (is_empty s)
truthy (arr nil) = false
truthy (arr (cons _ _)) = true
truthy (obj end) = false
truthy (obj (field _ _ _)) = true
truthy (opaque _) = true

-- Lists and dicts cannot be keys of a dict or members of a set.
abbrev pub hashable : Value → Bool
hashable (arr _) = false
hashable (obj _) = false
hashable _ = true

unfoldable pub same_sign : Bool → Bool → Bool
same_sign true b = b
same_sign false b = not b

unfoldable pub number_eq : Number → Number → Bool
unfolding same_sign
number_eq a b =
    eqb (a.mantissa * 10 ^ b.scale) (b.mantissa * 10 ^ a.scale)
    && (eqb a.mantissa 0 || same_sign a.negative b.negative)

of_bool : Bool → Number
of_bool true = record { negative = false; mantissa = 1; scale = 0 }
of_bool false = record { negative = false; mantissa = 0; scale = 0 }

-- A number against any value: `True == 1` holds in Python.
eq_number : Number → Value → Bool
unfolding number_eq of_bool
eq_number n (num m) = number_eq n m
eq_number n (bool b) = number_eq n (of_bool b)
eq_number n _ = false

eq_special : ℕ → Value → Bool
eq_special k (nonfinite j) = eqb k j && not (eqb k 0)
eq_special k _ = false

eq_opaque : ℕ → Value → Bool
eq_opaque k (opaque j) = eqb k j
eq_opaque k _ = false

-- `v == w`: dicts are equal when they have the same keys with equal values, in any order.
unfoldable mutual
  unfolding eq_number eq_special eq_opaque of_bool

  pub eq : Value → Value → Bool
  eq null w = is_null w
  eq (bool b) w = eq_number (of_bool b) w
  eq (num n) w = eq_number n w
  eq (nonfinite k) w = eq_special k w
  eq (str s) w = str_and (λ t. s == t) w
  eq (arr vs) w = elim w [ arr ws ↦ eq_items vs ws | _ ↦ false ]
  eq (obj d) w = elim w [ obj e ↦ eqb (size d) (size e) && eq_fields d e | _ ↦ false ]
  eq (opaque k) w = eq_opaque k w

  pub eq_items : Items → Items → Bool
  eq_items nil ws = elim ws [ nil ↦ true | _ ↦ false ]
  eq_items (cons v vs) ws = elim ws [ cons w ws' ↦ eq v w && eq_items vs ws' | nil ↦ false ]

  pub eq_fields : Fields → Fields → Bool
  eq_fields end e = true
  eq_fields (field k v d) e = elim (find k e) [ some w ↦ eq v w && eq_fields d e | none ↦ false ]

-- `v in ss`, for a list of texts.
abbrev pub in_list : Value → List String → Bool
in_list v ss = str_and (contains ss) v
