-- ===== src/Adapters/Tables.antt =====
-- Dicts as lists of their items, and sets of pairs of texts:
-- app/services/company_os_synthetic_adapters.py.
use polsia_build.Common.{
  Bool, List, Option, String, [], ap, ap₂, arith, eq_iff, false, if◌then◌else◌, none, refl, some,
  true, ◌&&◌, ◌==◌, ◌||◌, ◌↔◌, ◌∷◌, ◌≡◌,
}
use polsia_build.Raises.{item}

-- A pair of texts.
pub record Slot : Type 0 where
  pub kind : String
  pub key : String

abbrev pub same_name : String → String → Bool
same_name s t = s == t

abbrev slot : String → String → Slot
slot kind key = record { kind = kind; key = key }

abbrev pub same_slot : Slot → Slot → Bool
same_slot a b = a.kind == b.kind && a.key == b.key

pub same_slot_iff : (a b : Slot) → (same_slot a b ≡ true) ↔ (a ≡ b)
same_slot_iff a b = (
  λ h. ap₂ slot ((eq_iff a.kind b.kind).0 (ground arith)) ((eq_iff a.key b.key).0 (ground arith)),
  λ e. ground (
    arith,
    (eq_iff a.kind b.kind).1 (ap (λ (s : Slot). s.kind) e),
    (eq_iff a.key b.key).1 (ap (λ (s : Slot). s.key) e),
  ),
)

abbrev pub holds : List Slot → Slot → Bool
holds [] s = false
holds (x ∷ xs) s = same_slot s x || holds xs s

-- `xs.add(s)`
abbrev pub add : List Slot → Slot → List Slot
add xs s = if holds xs s then xs else s ∷ xs

-- `xs.remove(s)`, for a member `s`
abbrev pub remove : List Slot → Slot → List Slot
remove [] s = []
remove (x ∷ xs) s = let rest = remove xs s in if same_slot s x then rest else x ∷ rest

module _ {ℓ κ} {K : Type ℓ} {V : Type κ} (same : K → K → Bool) where
  -- `t.get(k)`
  abbrev pub lookup : K → List (K × V) → Option V
  lookup k [] = none
  lookup k (item ∷ t) = if same k item.0 then some item.1 else lookup k t

  -- `t[k] = v`
  unfoldable pub assign : List (K × V) → K → V → List (K × V)
  assign [] k v = (k, v) ∷ []
  assign (item ∷ t) k v = if same k item.0 then (item.0, v) ∷ t else item ∷ assign t k v

  pub lookup-assign :
      ((j k : K) → (same j k ≡ true) ↔ (j ≡ k))
      → (t : List (K × V)) (j k : K) (v : V)
      → lookup j (assign t k v) ≡ (if same j k then some v else lookup j t)
  unfolding assign
  lookup-assign sound [] j k v = refl
  lookup-assign sound (item ∷ t) j k v =
      ground (arith, sound k item.0, sound j item.0, sound j k, lookup-assign sound t j k v)

  pub lookup-just_assigned :
      ((j k : K) → (same j k ≡ true) ↔ (j ≡ k))
      → (t : List (K × V)) (k : K) (v : V) → lookup k (assign t k v) ≡ some v
  lookup-just_assigned sound t k v = ground (arith, lookup-assign sound t k k v, (sound k k).1 refl)
