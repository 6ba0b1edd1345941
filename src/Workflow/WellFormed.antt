-- ===== src/Workflow/WellFormed.antt =====
-- What a workflow definition that passes the check is.
use mathlib.Core.Path.{subst, fun_ext}
use polsia_build.Common.{
  All, Bool, List, String, [], any, ap, arith, contains, contains-dedup, dedup, distinct, eq_iff,
  false, is_empty, is_nil, minus, minus_nil, not, refl, suc, true, ℕ, ◌∙◌, ◌∷◌, ◌≡◌,
}
use polsia_build.Contract.{risk_levels}
use polsia_build.Raises.{>>=-eq-ok, ok, or_raise, raise_if-eq-ok, workflow_error}
use polsia_build.Value.{Fields, Value, arr, as_dict, as_list, get, get_or, keys, nil}
use polsia_build.Workflow.{
  Definition, Transition, as_nonempty, read_fields, read_rest, read_transition, read_transitions,
  read_workflow, same_key, string_list,
}

-- A transition joins registered states, leaves no terminal one, and has an action and a risk level.
pub record IsRegistered (states terminals : List String) (t : Transition) : Type 0 where
  pub from_known : contains states t.source ≡ true
  pub to_known : contains states t.target ≡ true
  pub from_open : contains terminals t.source ≡ false
  pub has_action : is_empty t.action ≡ false
  pub canonical_risk : contains risk_levels t.risk_level ≡ true

-- No two transitions have the same source, action and target.
abbrev pub DistinctKeys : List Transition → Type 0
DistinctKeys [] = Unit
DistinctKeys (t ∷ ts) = (any (same_key t) ts ≡ false) × DistinctKeys ts

pub record IsWellFormed (w : Definition) : Type 0 where
  pub distinct_states : distinct w.states ≡ true
  pub known_terminals :
      (s : String) → contains w.terminal_states s ≡ true → contains w.states s ≡ true
  pub registered : All (IsRegistered w.states w.terminal_states) w.transitions
  pub unambiguous : DistinctKeys w.transitions

-- Nothing of `ts` has the key of something in `seen`.
abbrev Unseen : List Transition → List Transition → Type 0
Unseen seen ts = All (λ t. any (same_key t) seen ≡ false) ts

same_key_comm : (t u : Transition) → same_key t u ≡ same_key u t
same_key_comm t u = ground (
  arith,
  eq_iff t.source u.source,
  eq_iff u.source t.source,
  eq_iff t.action u.action,
  eq_iff u.action t.action,
  eq_iff t.target u.target,
  eq_iff u.target t.target,
)

Unseen-cons :
    (t : Transition) (seen ts : List Transition)
    → Unseen (t ∷ seen) ts
    → Unseen seen ts × (any (same_key t) ts ≡ false)
Unseen-cons t seen [] h = (tt, refl)
Unseen-cons t seen (u ∷ ts) h =
    let (a, b) = Unseen-cons t seen ts h.1 in ((ground arith, a), ground (arith, same_key_comm t u))

module _ (states terminals : List String) where
  read_fields-IsRegistered :
      (index : ℕ) (d : Fields) {t : Transition}
      → read_fields states terminals index d ≡ ok t
      → IsRegistered states terminals t
  unfolding read_fields
  read_fields-IsRegistered index d h = ground arith

  read_rest-IsRegistered :
      (index : ℕ) (d : Fields) (t : Transition) {u : Transition}
      → read_rest index d t ≡ ok u
      → IsRegistered states terminals t
      → IsRegistered states terminals u × ((v : Transition) → same_key u v ≡ same_key t v)
  unfolding read_rest
  read_rest-IsRegistered index d t h r = (ground arith, λ v. ground arith)

  read_transition-IsRegistered :
      (index : ℕ) (seen : List Transition) (v : Value) {t : Transition}
      → read_transition states terminals index seen v ≡ ok t
      → IsRegistered states terminals t × (any (same_key t) seen ≡ false)
  unfolding read_transition
  read_transition-IsRegistered index seen v h =
      let (d, _, h1) = >>=-eq-ok (or_raise (as_dict v) workflow_error _) _ h in
      let (t, e, h2) = >>=-eq-ok (read_fields states terminals index d) _ h1 in
      let (fresh, h3) = raise_if-eq-ok (any (same_key t) seen) workflow_error _ _ h2 in
      let (reg, same) = read_rest-IsRegistered index d t h3 (read_fields-IsRegistered index d e) in
      (reg, ap (λ (p : Transition → Bool). any p seen) (fun_ext same) ∙ fresh)

  read_transitions-IsRegistered :
      (index : ℕ) (seen : List Transition) (vs : List Value) {ts : List Transition}
      → read_transitions states terminals index seen vs ≡ ok ts
      → All (IsRegistered states terminals) ts × Unseen seen ts × DistinctKeys ts
  unfolding read_transitions
  read_transitions-IsRegistered index seen [] {ts} h =
      let e : [] ≡ ts = ground arith in
      subst (λ ts. All (IsRegistered states terminals) ts × Unseen seen ts × DistinctKeys ts) e
        (tt, tt, tt)
  read_transitions-IsRegistered index seen (v ∷ vs) {ts} h =
      let (t, e, h1) = >>=-eq-ok (read_transition states terminals index seen v) _ h in
      let (us, f, h2) =
        >>=-eq-ok (read_transitions states terminals (suc index) (t ∷ seen) vs) _ h1 in
      let (reg, fresh) = read_transition-IsRegistered index seen v e in
      let (regs, unseen, keys) = read_transitions-IsRegistered (suc index) (t ∷ seen) vs f in
      let (old, apart) = Unseen-cons t seen us unseen in
      let e : t ∷ us ≡ ts = ground arith in
      subst (λ ts. All (IsRegistered states terminals) ts × Unseen seen ts × DistinctKeys ts) e
        ((reg, regs), (fresh, old), (apart, keys))

-- A definition that the check lets through is well formed: its states are distinct, its terminal
-- states are states, its transitions are registered and leave no terminal state, and no two have
-- the same source, action and target.
pub read_workflow-IsWellFormed :
    (workflow : Value) {w : Definition} → read_workflow workflow ≡ ok w → IsWellFormed w
unfolding read_workflow
read_workflow-IsWellFormed workflow {w} h =
    let (d, _, h1) = >>=-eq-ok (or_raise (as_dict workflow) workflow_error _) _ h in
    let (id, _, h2) = >>=-eq-ok (or_raise (as_nonempty (get d "id")) workflow_error _) _ h1 in
    let (states, _, h3) = >>=-eq-ok (string_list (get d "states") _) _ h2 in
    let (apart, h4) = raise_if-eq-ok (not (distinct states)) workflow_error _ _ h3 in
    let (terminals, _, h5) =
      >>=-eq-ok (string_list (get_or d "terminal_states" (arr nil)) _) _ h4 in
    let (known, h6) =
      raise_if-eq-ok (not (is_nil (minus (dedup terminals) states))) workflow_error _ _ h5 in
    let (listed, _, h7) =
      >>=-eq-ok (or_raise (as_list (get d "transitions")) workflow_error _) _ h6 in
    let (ts, e, h8) = >>=-eq-ok (read_transitions states terminals 0 [] listed) _ h7 in
    let (regs, _, keys) = read_transitions-IsRegistered states terminals 0 [] listed e in
    let parts : record { id = id; states = states; terminal_states = terminals; transitions = ts }
        ≡ w =
      ground arith in
    subst IsWellFormed parts (record {
      distinct_states = ground arith;
      known_terminals =
          λ s c. minus_nil (dedup terminals) states s (ground arith) (rw contains-dedup c);
      registered = regs;
      unambiguous = keys;
    })
