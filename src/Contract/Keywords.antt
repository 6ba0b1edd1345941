-- ===== src/Contract/Keywords.antt =====
-- What the parts of `stage1_json_schema` of app/agents/company_os_contract.py ask, keyword by keyword.
use Prim.Native.String.{count}
use Prim.Native.String.count
use polsia_build.Common.{
  Bool, Bool-cases, List, Option, Option-cases, String, [], inl, inr, arith, contains, eq_iff,
  false, is_nil, is_some, leb, minus, none, refl, some, sorted, true, ◌&&◌, ◌==◌, ◌||◌, ◌↔◌, ◌∷◌,
  ◌≡◌, sym, ap,
}
use polsia_build.Contract.{optional_fields, required_fields, risk_levels}
use polsia_build.Contract.Decision.{Among, is_text}
use polsia_build.Contract.Blank.{is_blank}
use polsia_build.Contract.Schema.{choice, schema_properties, text_list}
use polsia_build.Value.{
  Fields, Items, Value, arr, as_strings, bool, end, eq, field, find, get, in_list, cons, nil,
  is_bool, is_str, keys, obj, str, str_and, texts,
}
use polsia_build.Value.Laws.{str-eq}
use polsia_build.Contract.JsonSchema.{
  has_type, in_enum, has_length, has_keys, is_closed, accepts_keyword, met, accepts,
  accepts_keywords, accepts_declared, accepts_properties,
}

pub accepts_text : (v : Value) → accepts (obj (field "type" (str "string") end)) v ≡ is_str v
unfolding accepts accepts_keywords has_type accepts_keyword
accepts_text v = ground arith

pub accepts_boolean : (v : Value) → accepts (obj (field "type" (str "boolean") end)) v ≡ is_bool v
unfolding accepts accepts_keywords has_type accepts_keyword
accepts_boolean v = ground arith

pub accepts_const :
    (sid : String) (v : Value)
    → accepts (obj (field "type" (str "string") (field "const" (str sid) end))) v ≡ true
    → v ≡ str sid
unfolding accepts accepts_keywords has_type accepts_keyword
accepts_const sid v h = str-eq sid v (ground arith)

pub accepts_const_self :
    (sid : String)
    → accepts (obj (field "type" (str "string") (field "const" (str sid) end))) (str sid) ≡ true
unfolding accepts accepts_keywords has_type accepts_keyword eq
accepts_const_self sid = ground (arith, eq_iff sid sid)

pub same_back : (s t : String) → (s == t) ≡ (t == s)
same_back s t = ground (arith, eq_iff s t, eq_iff t s)

pub in_enum-texts : (ss : List String) (v : Value) → in_enum (arr (texts ss)) v ≡ in_list v ss
unfolding in_enum eq
in_enum-texts [] (str s) = refl
in_enum-texts (x ∷ xs) (str s) = ground (arith, same_back s x, in_enum-texts xs (str s))
in_enum-texts [] v = refl
in_enum-texts (x ∷ xs) v = in_enum-texts xs v

pub contains-risks : (s : String) → contains (sorted risk_levels) s ≡ contains risk_levels s
unfolding sorted
contains-risks s = ground arith

pub accepts_risk :
    (v : Value)
    → accepts
        (obj (field "type" (str "string") (field "enum" (arr (texts (sorted risk_levels))) end)))
        v
      ≡ in_list v risk_levels
unfolding accepts accepts_keywords has_type accepts_keyword
accepts_risk (str s) = ground (arith, in_enum-texts (sorted risk_levels) (str s), contains-risks s)
accepts_risk v = ground arith

pub accepts-text_list : (v : Value) → accepts text_list v ≡ is_some (as_strings v)
unfolding accepts accepts_keywords has_type accepts_keyword
accepts-text_list (arr vs) = items vs
  where
    items : (vs : Items) → accepts text_list (arr vs) ≡ is_some (as_strings (arr vs))
    items nil = refl
    items (cons v vs) = ground (arith, items vs)
accepts-text_list v = refl

-- A text of one character or more, among the choices
pub accepts-choice :
    (o : Option (List String)) (v : Value)
    → (accepts (choice o) v ≡ true) ↔ ((str_and (λ s. leb 1 (count s)) v ≡ true) × Among o v)
unfolding accepts accepts_keywords has_type accepts_keyword has_length
accepts-choice none v = (λ h. ground arith, λ h. ground arith)
accepts-choice (some []) v = (λ h. ground arith, λ h. ground arith)
accepts-choice (some (s ∷ ss)) v =
    (λ h. ground (arith, in_enum-texts (s ∷ ss) v), λ h. ground (arith, in_enum-texts (s ∷ ss) v))

pub nonblank_length : (s : String) → is_blank s ≡ false → leb 1 (count s) ≡ true
unfolding is_blank
nonblank_length String.[] h = cc
nonblank_length (String.◌∷◌ c s) h = ground (arith, count.cons c s)

pub is_text-length : (v : Value) → is_text v ≡ true → str_and (λ s. leb 1 (count s)) v ≡ true
is_text-length (str s) h = nonblank_length s (ground arith)
is_text-length v h = ground arith

-- Every property that is there meets its schema.
unfoldable pub Declared : Fields → Fields → Type 0
Declared end d = Unit
Declared (field k s rest) d = (met (λ w. accepts s w) (find k d) ≡ true) × Declared rest d

pub and_both : (a b : Bool) → (a && b) ≡ true → (a ≡ true) × (b ≡ true)
and_both true b h = (refl, h)
and_both false b h = cc

pub both_and : (a b : Bool) → a ≡ true → b ≡ true → (a && b) ≡ true
both_and a b h k = ground arith

pub accepts_properties-Declared : (ps d : Fields) → accepts_properties ps d ≡ true → Declared ps d
unfolding accepts_properties Declared
accepts_properties-Declared end d h = tt
accepts_properties-Declared (field k s rest) d h =
    let (first, others) =
      and_both (met (λ w. accepts s w) (find k d)) (accepts_properties rest d) h in
    (first, accepts_properties-Declared rest d others)

pub Declared-accepts_properties : (ps d : Fields) → Declared ps d → accepts_properties ps d ≡ true
unfolding accepts_properties Declared
Declared-accepts_properties end d h = refl
Declared-accepts_properties (field k s rest) d (first, others) =
    both_and (met (λ w. accepts s w) (find k d)) (accepts_properties rest d) first
      (Declared-accepts_properties rest d others)

pub met-get :
    (f : Value → Bool) (k : String) (d : Fields)
    → is_some (find k d) ≡ true
    → met f (find k d) ≡ f (get d k)
met-get f k d h = elim (Option-cases (find k d)) [
  | inl n ↦ absurd (ground arith)
  | inr (w, n) ↦ let e : get d k ≡ w = ground arith in rw n (sym (ap f e))
]

-- The three parts of the schema's object.
pub accepts_object :
    (ps : Fields) (ks : List String) (d : Fields)
    → accepts
        (obj (
          field "type" (str "object") (
            field "properties"
              (obj ps)
              (field "required" (arr (texts ks)) (field "additionalProperties" (bool false) end)))))
        (obj d)
      ≡ (accepts_properties ps d
          && (has_keys (arr (texts ks)) (obj d) && is_nil (minus (keys d) (keys ps))))
unfolding accepts accepts_keywords accepts_declared accepts_keyword has_type is_closed
accepts_object ps ks d = ground arith

pub has_keys-contains :
    (ks : List String) (d : Fields)
    → has_keys (arr (texts ks)) (obj d) ≡ true
    → (k : String) → contains ks k ≡ true
    → contains (keys d) k ≡ true
unfolding has_keys
has_keys-contains [] d h k c = cc
has_keys-contains (x ∷ xs) d h k c = elim (Bool-cases (k == x)) [
  | inl t ↦ rw ((eq_iff k x).0 t) (ground arith)
  | inr f ↦ has_keys-contains xs d (ground arith) k (ground arith)
]

pub contains-has_keys :
    (ks : List String) (d : Fields)
    → ((k : String) → contains ks k ≡ true → contains (keys d) k ≡ true)
    → has_keys (arr (texts ks)) (obj d) ≡ true
unfolding has_keys
contains-has_keys [] d h = refl
contains-has_keys (x ∷ xs) d h =
    ground (arith, h x, eq_iff x x, contains-has_keys xs d (λ k c. h k (ground arith)))

pub contains-sorted_required :
    (k : String) → contains (sorted required_fields) k ≡ contains required_fields k
unfolding sorted
contains-sorted_required k = ground arith

pub contains-schema_properties :
    (sid : String) (owners states : Option (List String)) (k : String)
    → contains (keys (schema_properties sid owners states)) k
      ≡ (contains required_fields k || contains optional_fields k)
unfolding schema_properties
contains-schema_properties sid owners states k = ground arith
