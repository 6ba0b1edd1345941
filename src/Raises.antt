-- ===== src/Raises.antt =====
-- Exceptions as values. A message keeps the text of its f-string and the values put into it.
use polsia_build.Common.{
  Bool, List, Option, String, [], ap, false, inl, inr, none, not, refl, some, true, ◌∷◌, ◌≡◌, ◌⊎◌,
}
use polsia_build.Value.{Fields, Value, find, hashable, in_list, null}

pub data ErrorKind : Type 0 where
  contract_error policy_error workflow_error integration_error audit_error : ErrorKind
  persistence_error conflict_error coordinator_error approval_error capability_error : ErrorKind
  external_access_blocked type_error value_error key_error attribute_error : ErrorKind
  invalid_operation integrity_error : ErrorKind
  -- a class that the program does not declare
  other : String → ErrorKind

pub data Message : Type 0 where
  text : String → Message
  format : String → List Value → Message
  -- a text and, after it, another exception's message
  caused : String → Message → Message
  -- two messages with a separator between them
  joined : String → Message → Message → Message

-- `sep.join(ms)`
abbrev pub join : String → List Message → Message
join sep [] = text ""
join sep (m ∷ []) = m
join sep (m ∷ ms) = joined sep m (join sep ms)

pub record Exception : Type 0 where
  pub kind : ErrorKind
  pub message : Message
  -- `CompanyOSContractError.raw_output`
  pub raw_output : Value

abbrev pub raised : ErrorKind → Message → Exception
raised k m = record { kind = k; message = m; raw_output = null }

pub data Result {ℓ} (A : Type ℓ) : Type ℓ where
  -- what a call returns, or what it raises
  ok : (value : A) → Result A
  err : (exception : Exception) → Result A

infixl 5 ◌>>=◌
-- The value goes on to `next`; an exception does not.
abbrev pub ◌>>=◌ {ℓ κ} : {A : Type ℓ} {B : Type κ} (x : Result A) (next : A → Result B) → Result B
err e >>= next = err e
ok a >>= next = next a

-- A check, and what is done once it has passed.
abbrev pub ◌>>◌ {ℓ} : {B : Type ℓ} (check : Result (Unit {0})) (rest : Result B) → Result B
check >> rest = check >>= λ done. rest

infixl 5 ◌>>◌
-- `if b: raise ...`
abbrev pub raise_if : Bool → ErrorKind → Message → Result (Unit {0})
raise_if true k m = err (raised k m)
raise_if false k m = ok tt

abbrev pub or_raise {ℓ} : {A : Type ℓ} → Option A → ErrorKind → Message → Result A
or_raise none k m = err (raised k m)
or_raise (some a) _ _ = ok a

-- `d[k]`
abbrev pub item : Fields → String → Result Value
item d k = or_raise (find k d) key_error (text k)

-- `v in {...}` hashes `v`.
abbrev pub in_set : Value → List String → Result Bool
in_set v ss = raise_if (not (hashable v)) type_error (text "unhashable type") >> ok (in_list v ss)

module _ {ℓ κ} {A : Type ℓ} {B : Type κ} where
  -- What is returned came of a value that went on.
  pub >>=-eq-ok :
      (x : Result A) (next : A → Result B) {y : B}
      → (x >>= next) ≡ ok y
      → (v : A) × (x ≡ ok v) × (next v ≡ ok y)
  >>=-eq-ok (err raised_there) next h = cc
  >>=-eq-ok (ok v) next h = (v, refl, h)

module _ {ℓ} {B : Type ℓ} where
  pub raise_if-eq-ok :
      (b : Bool) (k : ErrorKind) (m : Message) (f : Result B) {a : B}
      → (raise_if b k m >> f) ≡ ok a
      → (b ≡ false) × (f ≡ ok a)
  raise_if-eq-ok true k m f h = cc
  raise_if-eq-ok false k m f h = (refl, h)

pub ok_or_err {ℓ} :
    {A : Type ℓ} (m : Result A) → ((a : A) × (m ≡ ok a)) ⊎ ((e : Exception) × (m ≡ err e))
ok_or_err (ok a) = inl (a, refl)
ok_or_err (err e) = inr (e, refl)

-- What the value of a result is, by default; it makes `ok` injective.
abbrev value_or {ℓ} : {A : Type ℓ} → A → Result A → A
value_or a (ok b) = b
value_or a (err _) = a

pub ok_injective {ℓ} : {A : Type ℓ} {a b : A} → ok a ≡ ok b → a ≡ b
ok_injective {a = a} h = ap (value_or a) h

pub or_raise-some {ℓ} :
    {A : Type ℓ} (o : Option A) (k : ErrorKind) (m : Message) {a : A}
    → or_raise o k m ≡ ok a
    → o ≡ some a
or_raise-some none k m h = cc
or_raise-some (some b) k m h = ap some (ok_injective h)
