-- ===== src/Contract/JsonSchema.antt =====
-- What a JSON Schema asks of a value, for the keywords that `stage1_json_schema` of
-- app/agents/company_os_contract.py uses.
use Prim.Native.String.{count}
use polsia_build.Common.{
  Bool, List, Option, String, [], all, any, contains, false, if◌then◌else◌, is_nil, is_some, leb,
  minus, none, some, true, ◌&&◌, ◌==◌,
}
use polsia_build.Value.{
  Fields, Value, arr, as_dict, as_list, as_str, bool, end, eq, field, find, get, is_bool, is_str,
  keys, num, obj, str, to_list,
}

-- `type`, with the types that the schema uses
unfoldable pub has_type : Value → Value → Bool
has_type (str t) v =
    if t == "string"
    then is_str v
    else if t == "boolean"
    then is_bool v
    else if t == "array"
    then is_some (as_list v)
    else if t == "object"
    then is_some (as_dict v)
    else false
has_type _ v = false

-- `enum`, `minLength` and `required`
unfoldable pub in_enum : Value → Value → Bool
in_enum (arr ws) v = any (λ w. eq w v) (to_list ws)
in_enum _ v = false

unfoldable pub has_length : Value → Value → Bool
has_length (num n) (str s) = leb n.mantissa (count s)
has_length _ v = true

unfoldable pub has_keys : Value → Value → Bool
has_keys (arr ks) (obj d) =
    all (λ k. elim (as_str k) [ none ↦ false | some s ↦ contains (keys d) s ]) (to_list ks)
has_keys _ v = true

-- `additionalProperties: false`, where `names` are the properties that the schema declares
unfoldable pub is_closed : List String → Value → Value → Bool
is_closed names (bool false) (obj d) = is_nil (minus (keys d) names)
is_closed names _ v = true

abbrev pub items_of : Value → List Value
items_of (arr vs) = to_list vs
items_of _ = []

abbrev pub names_of : Value → List String
names_of (obj d) = keys d
names_of _ = []

-- The keywords that hold no schema
unfoldable pub accepts_keyword : String → Value → List String → Value → Bool
unfolding has_type in_enum has_length has_keys is_closed
accepts_keyword k w names v =
    if k == "type"
    then has_type w v
    else if k == "const"
    then eq w v
    else if k == "enum"
    then in_enum w v
    else if k == "minLength"
    then has_length w v
    else if k == "required"
    then has_keys w v
    else if k == "additionalProperties"
    then is_closed names w v
    else true

-- What is not there meets every schema.
abbrev pub met : (Value → Bool) → Option Value → Bool
met f none = true
met f (some w) = f w

-- Whether a value meets a schema: of JSON Schema the keywords that `stage1_json_schema` uses.
unfoldable mutual
  unfolding accepts_keyword

  pub accepts : Value → Value → Bool
  accepts (obj s) v = accepts_keywords s (names_of (get s "properties")) v
  accepts (bool b) v = b
  accepts _ v = false

  pub accepts_keywords : Fields → List String → Value → Bool
  accepts_keywords end names v = true
  accepts_keywords (field k w rest) names v =
      (if k == "items"
        then all (λ x. accepts w x) (items_of v)
        else if k == "properties"
        then accepts_declared w v
        else accepts_keyword k w names v)
      && accepts_keywords rest names v

  pub accepts_declared : Value → Value → Bool
  accepts_declared (obj ps) v = elim v [ obj d ↦ accepts_properties ps d | _ ↦ true ]
  accepts_declared _ v = true

  pub accepts_properties : Fields → Fields → Bool
  accepts_properties end d = true
  accepts_properties (field k s rest) d =
      met (λ w. accepts s w) (find k d) && accepts_properties rest d
