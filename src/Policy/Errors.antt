-- ===== src/Policy/Errors.antt =====
-- How the evaluator fails.
use polsia_build.Common.{
  Bool-cases, Option, Option-cases, String, ap, arith, inl, inr, none, some, ◌∙◌, ◌≡◌, ◌⊎◌,
}
use polsia_build.Policy.{
  Decimals, Request, bound_reason, compare_total, evaluate_action_policy, evaluate_fields, in_dict,
  read_request, read_rules, risk_of, to_decimal, weigh, write_block,
}
use polsia_build.Raises.{
  Exception, Result, err, invalid_operation, ok, ok_or_err, policy_error, type_error,
}
use polsia_build.Value.{Fields, Value, as_dict, find, get, is_bool, is_null, obj}
use polsia_build.Value.Laws.{as_dict-some}

-- The errors that callers of the evaluator handle.
abbrev pub IsHandled : Exception → Type 0
IsHandled e = (e.kind ≡ policy_error) ⊎ (e.kind ≡ type_error)

abbrev OnlyHandled {ℓ} : {A : Type ℓ} → Result A → Type 0
OnlyHandled (ok _) = Unit
OnlyHandled (err e) = IsHandled e

read_request-OnlyHandled : (i : Fields) → OnlyHandled (read_request i)
unfolding read_request
read_request-OnlyHandled i = ground arith

read_rules-OnlyHandled : (i p : Fields) → OnlyHandled (read_rules i p)
unfolding read_rules
read_rules-OnlyHandled i p = ground arith

write_block-OnlyHandled : (i : Fields) → OnlyHandled (write_block i)
unfolding write_block
write_block-OnlyHandled i = ground arith

in_dict-OnlyHandled : (k : Value) (d : Fields) → OnlyHandled (in_dict k d)
unfolding in_dict
in_dict-OnlyHandled k d = ground arith

handled {ℓ} : {A : Type ℓ} (m : Result A) (e : Exception) → OnlyHandled m → m ≡ err e → IsHandled e
handled m e o h = rw h at o

module _ (lib : Decimals) where
  open lib use {Decimal, of_value, gt}

  -- Two numbers that have no order, as one of them is NaN.
  abbrev pub Unordered : Value → Value → Type 0
  Unordered total bound =
      (a : Decimal) × (b : Decimal) × (of_value total ≡ some a)
      × (of_value bound ≡ some b)
      × (gt a b ≡ none)

  -- The total that is requested and the bound that the intent names have no order.
  pub record IsUnordered (i p : Fields) : Type 0 where
    pub limits : Fields
    pub total : Value
    pub bound : Value
    pub declared : get p "limits" ≡ obj limits
    pub named : in_dict (get i "limit_name") limits ≡ ok (some bound)
    pub requested : find "requested_total" i ≡ some total
    pub unordered : Unordered total bound

  compare_total-fails :
      (n t b : Value) (e : Exception)
      → compare_total lib n t b ≡ err e
      → IsHandled e ⊎ ((e.kind ≡ invalid_operation) × Unordered t b)
  unfolding compare_total to_decimal
  compare_total-fails n t b e h = elim (Option-cases (of_value t)) [
    | inl f ↦ inl (inl (ground arith))
    | inr (x, f) ↦ elim (Option-cases (of_value b)) [
      | inl g ↦ inl (inl (ground arith))
      | inr (y, g) ↦ elim (Bool-cases (is_bool t)) [
        | inl u ↦ inl (inl (ground arith))
        | inr u ↦ elim (Bool-cases (is_bool b)) [
          | inl w ↦ inl (inl (ground arith))
          | inr w ↦ elim (Option-cases (gt x y)) [
            | inl k ↦ inr (ground arith, (x, y, f, g, k))
            | inr (z, k) ↦ absurd (ground arith)
          ]
        ]
      ]
    ]
  ]

  abbrev Fails : Fields → Fields → Exception → Type 0
  Fails i p e = IsHandled e ⊎ ((e.kind ≡ invalid_operation) × IsUnordered i p)

  bound_reason-Fails : (i p : Fields) (e : Exception) → bound_reason lib i p ≡ err e → Fails i p e
  unfolding bound_reason
  bound_reason-Fails i p e h = elim (Bool-cases (is_null (get i "limit_name"))) [
    | inl f ↦ absurd (ground arith)
    | inr f ↦ elim (Option-cases (as_dict (get p "limits"))) [
      | inl g ↦ absurd (ground arith)
      | inr (limits, g) ↦ elim (ok_or_err (in_dict (get i "limit_name") limits)) [
        | inr (x, k) ↦ inl (
            handled (in_dict (get i "limit_name") limits) e
              (in_dict-OnlyHandled (get i "limit_name") limits) (ground arith))
        | inl (found, k) ↦ elim (Option-cases found) [
          | inl u ↦ absurd (ground arith)
          | inr (bound, u) ↦ elim (Option-cases (find "requested_total" i)) [
            | inl w ↦ absurd (ground arith)
            | inr (total, w) ↦
                let compared : compare_total lib (get i "limit_name") total bound ≡ err e =
                  ground arith in
                elim (compare_total-fails (get i "limit_name") total bound e compared) [
                  | inl z ↦ inl z
                  | inr (kind, z) ↦ inr (
                    kind,
                    record {
                      limits = limits;
                      total = total;
                      bound = bound;
                      declared = as_dict-some (get p "limits") g;
                      named = k ∙ ap ok_of u;
                      requested = w;
                      unordered = z;
                    },
                  )
                ]
          ]
        ]
      ]
    ]
  ]
    where
      ok_of : Option Value → Result (Option Value)
      ok_of o = ok o

  weigh-Fails :
      (i p : Fields) (q : Request) (risk : String) (e : Exception)
      → weigh lib i p q risk ≡ err e
      → Fails i p e
  unfolding weigh
  weigh-Fails i p q risk e h = elim (ok_or_err (bound_reason lib i p)) [
    | inr (x, f) ↦ bound_reason-Fails i p e (ground arith)
    | inl (m, f) ↦ inl (ground (arith, write_block-OnlyHandled i))
  ]

  evaluate_fields-Fails :
      (i p : Fields) (e : Exception) → evaluate_fields lib i p ≡ err e → Fails i p e
  unfolding evaluate_fields
  evaluate_fields-Fails i p e h = elim (ok_or_err (read_request i)) [
    | inr (x, f) ↦ inl (handled (read_request i) e (read_request-OnlyHandled i) (ground arith))
    | inl (q, f) ↦ elim (ok_or_err (read_rules i p)) [
      | inr (x, g) ↦ inl (handled (read_rules i p) e (read_rules-OnlyHandled i p) (ground arith))
      | inl (r, g) ↦ weigh-Fails i p q (risk_of q r) e (ground arith)
    ]
  ]

  -- The evaluator raises a policy error, a `TypeError`, or `InvalidOperation`, and the last only where
  -- the intent and the policy are dicts and the requested total and the bound that the intent names
  -- are numbers that have no order.
  pub evaluate_action_policy_errors :
      (intent policy : Value) (e : Exception)
      → evaluate_action_policy lib intent policy ≡ err e
      → (e.kind ≡ policy_error)
        ⊎ ((e.kind ≡ type_error)
            ⊎ ((e.kind ≡ invalid_operation)
                × ((i : Fields) × (p : Fields) × (intent ≡ obj i)
                    × (policy ≡ obj p)
                    × IsUnordered i p)))
  unfolding evaluate_action_policy
  evaluate_action_policy_errors intent policy e h = elim (Option-cases (as_dict intent)) [
    | inl n ↦ inl (ground arith)
    | inr (i, f) ↦ elim (Option-cases (as_dict policy)) [
      | inl n ↦ inl (ground arith)
      | inr (p, g) ↦
          let failed : evaluate_fields lib i p ≡ err e = ground arith in
          elim (evaluate_fields-Fails i p e failed) [
            | inl (inl x) ↦ inl x
            | inl (inr x) ↦ inr (inl x)
            | inr (k, u) ↦ inr (inr (k, (i, p, as_dict-some intent f, as_dict-some policy g, u)))
          ]
    ]
  ]
