-- ===== src/Workflow/Canonical.antt =====
-- A proposal is granted exactly when the definition registers it.
use polsia_build.Common.{
  All-In, Bool-cases, In, List, Option-cases, String, [], any-false, ap, arith, contains, eq_iff,
  false, first, first-none, first-some, inl, inr, refl, some, sym, true, ◌∙◌, ◌∷◌, ◌≡◌, ◌⊎◌,
}
use polsia_build.Raises.{>>=-eq-ok, ok}
use polsia_build.Value.{Value, null, str}
use polsia_build.Value.Laws.{eq-str, eq-str_self, str-eq}
use polsia_build.Workflow.{
  Definition, Transition, WorkflowTransition, find_transition, matches, read_workflow,
  require_valid_transition, same_key,
}
use polsia_build.Workflow.WellFormed.{
  DistinctKeys, IsRegistered, IsWellFormed, read_workflow-IsWellFormed,
}

abbrev pub granted : Definition → Transition → WorkflowTransition
granted w t = record {
  workflow_id = w.id;
  from_state = t.source;
  to_state = t.target;
  action = t.action;
  risk_level = t.risk_level;
  requirements = t.requirements;
  integration = t.integration;
}

-- What a granted transition says of the definition and of the proposal.
pub record IsCanonical (w : Definition) (current action proposed risk : Value)
    (x : WorkflowTransition) : Type 0 where
  pub current_state : current ≡ str x.from_state
  pub same_action : action ≡ str x.action
  pub proposed_state : proposed ≡ str x.to_state
  pub from_known : contains w.states x.from_state ≡ true
  pub to_known : contains w.states x.to_state ≡ true
  pub from_open : contains w.terminal_states x.from_state ≡ false
  pub same_risk : (risk ≡ null) ⊎ (risk ≡ str x.risk_level)

module _ (current action proposed : Value) where
  matches_parts :
      (t : Transition)
      → matches current action proposed t ≡ true
      → (current ≡ str t.source) × (action ≡ str t.action) × (proposed ≡ str t.target)
  unfolding matches
  matches_parts t h = (
    str-eq t.source current (ground arith),
    str-eq t.action action (ground arith),
    str-eq t.target proposed (ground arith),
  )

  matches-same_key :
      (t u : Transition)
      → matches current action proposed t ≡ true
      → matches current action proposed u ≡ true
      → same_key t u ≡ true
  matches-same_key t u h k =
      let (a, b, c) = matches_parts t h in
      let (x, y, z) = matches_parts u k in
      ground (arith, eq_iff t.source u.source, eq_iff t.action u.action, eq_iff t.target u.target)

  -- In a definition with distinct keys, what matches is the first that matches.
  only_match :
      (ts : List Transition) (t u : Transition)
      → DistinctKeys ts
      → first (matches current action proposed) ts ≡ some t
      → In u ts
      → matches current action proposed u ≡ true
      → u ≡ t
  only_match [] t u d h k m = elim k [ ]
  only_match (v ∷ vs) t u (fresh, d) h (inl e) m =
      e ∙ ground (arith, ap (matches current action proposed) e)
  only_match (v ∷ vs) t u (fresh, d) h (inr k) m =
      elim (Bool-cases (matches current action proposed v)) [
        | inl x ↦
            absurd (ground (arith, any-false (same_key v) vs u fresh k, matches-same_key v u x m))
        | inr x ↦ only_match vs t u d (ground arith) k m
      ]

  find_transition-IsCanonical :
      (w : Definition) (risk : Value) {x : WorkflowTransition}
      → find_transition w current action proposed risk ≡ ok x
      → (t : Transition) × (first (matches current action proposed) w.transitions ≡ some t)
        × (x ≡ granted w t)
        × IsCanonical w current action proposed risk x
  unfolding find_transition
  find_transition-IsCanonical w risk h =
      elim (Option-cases (first (matches current action proposed) w.transitions)) [
        | inl e ↦ absurd (ground arith)
        | inr (t, e) ↦
            let (a, b, c) = matches_parts t (first-some _ w.transitions t e).0 in
            (t, e, ground arith, ground (arith, eq-str risk t.risk_level))
      ]

-- What is granted is registered in a well-formed definition, for the state, action and target that
-- were proposed and at the risk level that was proposed, if one was; no other registered transition
-- matches.
pub require_valid_transition-IsCanonical :
    (workflow current action proposed risk : Value) {x : WorkflowTransition}
    → require_valid_transition workflow current action proposed risk ≡ ok x
    → (w : Definition) × (t : Transition) × (read_workflow workflow ≡ ok w)
      × IsWellFormed w
      × In t w.transitions
      × (x ≡ granted w t)
      × IsCanonical w current action proposed risk x
      × ((u : Transition) → In u w.transitions → matches current action proposed u ≡ true → u ≡ t)
unfolding require_valid_transition
require_valid_transition-IsCanonical workflow current action proposed risk h =
    let (w, e, h1) = >>=-eq-ok (read_workflow workflow) _ h in
    let (t, f, g, c) = find_transition-IsCanonical current action proposed w risk h1 in
    let wf = read_workflow-IsWellFormed workflow e in
    (
      w,
      t,
      e,
      wf,
      (first-some _ w.transitions t f).1,
      g,
      c,
      λ u. only_match current action proposed w.transitions t u wf.unambiguous f,
    )

IsRegistered-passes :
    (w : Definition) (t : Transition)
    → IsRegistered w.states w.terminal_states t
    → first (matches (str t.source) (str t.action) (str t.target)) w.transitions ≡ some t
    → find_transition w (str t.source) (str t.action) (str t.target) (str t.risk_level)
      ≡ ok (granted w t)
unfolding find_transition
IsRegistered-passes w t r h = ground (arith, eq-str_self t.risk_level)

-- Every transition that a well-formed definition registers is granted, as it is registered.
pub find_transition-granted :
    (w : Definition) (t : Transition)
    → IsWellFormed w
    → In t w.transitions
    → find_transition w (str t.source) (str t.action) (str t.target) (str t.risk_level)
      ≡ ok (granted w t)
find_transition-granted w t wf m =
    let p = matches (str t.source) (str t.action) (str t.target) in
    let passes : p t ≡ true = matches_self t in
    elim (Option-cases (first p w.transitions)) [
      | inl e ↦ absurd (true_false (sym passes ∙ first-none p w.transitions t e m))
      | inr (u, e) ↦
          let same : t ≡ u =
            only_match (str t.source) (str t.action) (str t.target) w.transitions u t wf.unambiguous
              e m passes in
          IsRegistered-passes w t (All-In _ w.transitions t wf.registered m)
            (e ∙ ap some (sym same))
    ]
  where
    true_false : true ≡ false → ⊥
    true_false h = cc

    matches_self : (t : Transition) → matches (str t.source) (str t.action) (str t.target) t ≡ true
    matches_self t =
        unfold matches in
        ground (arith, eq-str_self t.source, eq-str_self t.action, eq-str_self t.target)

-- A run of granted transitions from one state to another.
pub data Run (w : Definition) (s : String) : String → Type 0 where
  stay : Run w s s
  step :
      {t u : String} (action risk : Value) (x : WorkflowTransition)
      → Run w s t
      → find_transition w (str t) action (str u) risk ≡ ok x
      → Run w s u

Run-cases :
    {w : Definition} {s t : String} → Run w s t → contains w.terminal_states s ≡ true → t ≡ s
Run-cases stay h = refl
Run-cases {w} {s} (step {t} {u} action risk x r e) h =
    let (_, _, _, c) = find_transition-IsCanonical (str t) action (str u) w risk e in
    absurd (cc (c.current_state, c.from_open, h, ap (contains w.terminal_states) (Run-cases r h)))

-- No run leaves a terminal state.
pub Run-terminal :
    (w : Definition) (s t : String) → contains w.terminal_states s ≡ true → Run w s t → t ≡ s
Run-terminal w s t h r = Run-cases r h
