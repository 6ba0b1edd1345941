-- ===== src/Value/Laws.antt =====
-- Laws of dicts and of equality on texts.
use Prim.Native.Nat.{◌^◌}
use polsia_build.Common.{
  Bool-cases, String, ap, arith, contains, eq_iff, eqb_iff, if◌then◌else◌, inl, inr, is_some, none,
  refl, some, sym, true, ◌*◌, ◌==◌, ◌≡◌,
}
use polsia_build.Value.{
  Fields, Number, Value, as_dict, as_str, bool, end, eq, field, find, keys, null, num, number_eq,
  obj, pop, same_sign, set_item, str,
}

pub find-set_item :
    (d : Fields) (k j : String) (v : Value)
    → find j (set_item d k v) ≡ (if j == k then some v else find j d)
unfolding set_item
find-set_item end k j v = refl
find-set_item (field i w d) k j v =
    ground (arith, eq_iff k i, eq_iff j i, eq_iff j k, find-set_item d k j v)

pub find-pop : (d : Fields) (k j : String) → find j (pop d k) ≡ (if j == k then none else find j d)
unfolding pop
find-pop end k j = ground arith
find-pop (field i w d) k j = ground (arith, eq_iff k i, eq_iff j i, eq_iff j k, find-pop d k j)

-- A value that equals a text is that text.
pub eq-str : (v : Value) (s : String) → eq v (str s) ≡ true → v ≡ str s
unfolding eq
eq-str (str t) s h = ap str ((eq_iff t s).0 h)
eq-str (bool b) s h = cc
eq-str (num n) s h = cc
eq-str _ s h = cc

pub eq-str_self : (s : String) → eq (str s) (str s) ≡ true
unfolding eq
eq-str_self s = (eq_iff s s).1 refl

pub find-contains : (d : Fields) (k : String) → is_some (find k d) ≡ contains (keys d) k
find-contains end k = refl
find-contains (field j v d) k = ground (arith, find-contains d k, eq_iff j k, eq_iff k j)

pub as_dict-some : (v : Value) {d : Fields} → as_dict v ≡ some d → v ≡ obj d
as_dict-some (obj d) h = ground arith
as_dict-some null h = cc
as_dict-some _ h = cc

pub as_str-some : (v : Value) {s : String} → as_str v ≡ some s → v ≡ str s
as_str-some (str s) h = ground arith
as_str-some null h = cc
as_str-some _ h = cc

pub str-eq : (s : String) (v : Value) → eq (str s) v ≡ true → v ≡ str s
unfolding eq
str-eq s (str t) h = ap str (sym ((eq_iff s t).0 h))
str-eq s null h = cc
str-eq s _ h = cc

pub number_eq_self : (n : Number) → number_eq n n ≡ true
unfolding number_eq same_sign
number_eq_self n = elim (Bool-cases n.negative) [
  | inl t ↦
      ground (arith, t, (eqb_iff (n.mantissa * 10 ^ n.scale) (n.mantissa * 10 ^ n.scale)).1 refl)
  | inr t ↦
      ground (arith, t, (eqb_iff (n.mantissa * 10 ^ n.scale) (n.mantissa * 10 ^ n.scale)).1 refl)
]
