-- ===== src/Agent/Decision.antt =====
-- What the decision mode of app/agents/base_agent.py returns, and what it keeps when it fails.
use polsia_build.Common.{
  List, Option-cases, String, ap, arith, eq_iff, false, inl, inr, not, refl, some, subst, sym, true,
  ◌==◌, ◌∙◌, ◌≡◌,
}
use polsia_build.Agent.Prompt.{decision_prompt}
use polsia_build.Agent.Provider.{
  Assignment, Host, Process, command, completed, decide_structured, exited, read_assignment,
  read_envelope, run_claude_structured, run_company_os_decision, unstarted,
}
use polsia_build.Contract.{keep_raw, validate_stage1_decision, with_raw}
use polsia_build.Contract.Decision.{IsDecision, validate_stage1_decision_payload}
use polsia_build.Contract.Schema.{stage1_json_schema}
use polsia_build.Raises.{
  >>=-eq-ok, ErrorKind, Exception, Result, contract_error, err, ok, ok_injective, ok_or_err,
  raise_if-eq-ok, ◌>>=◌,
}
use polsia_build.Value.{Fields, Value, as_dict, end, get, obj, str}
use polsia_build.Value.Laws.{as_dict-some}

-- What the Claude command is run with for a task: the prompt and the schema.
abbrev pub asked : Host → Assignment → Value → Value → List String
asked host a task context =
    command host
      (decision_prompt host.dumps host.dumps_indented host.agent_type host.company_os_instructions
        a.scenario_id a.handoff_owners a.workflow_states task context)
      (stage1_json_schema a.scenario_id a.owners a.states)

-- A decision that the provider gave for a task: `raw` is what the command printed.
pub record IsNative (host : Host) (task : Fields) (context v : Value) : Type 0 where
  pub assignment : Assignment
  pub decision : Fields
  pub raw : String
  pub envelope : Fields
  pub assigned : read_assignment task ≡ ok assignment
  pub by_claude : host.llm_provider ≡ "claude"
  pub ran : host.run (asked host assignment (obj task) context) ≡ completed raw
  pub printed : host.loads raw ≡ some (obj envelope)
  pub answered : get envelope "structured_output" ≡ obj decision
  pub returned : v ≡ obj decision
  pub valid : IsDecision decision assignment.scenario_id assignment.owners assignment.states

keep_raw-ok : (raw : String) (r : Result Value) (v : Value) → keep_raw raw r ≡ ok v → r ≡ ok v
unfolding keep_raw
keep_raw-ok raw (ok w) v h = h
keep_raw-ok raw (err e) v h = absurd (ground arith)

-- An answer that was read.
pub record IsAnswer (host : Host) (d : Fields) (raw : String) : Type 0 where
  pub envelope : Fields
  pub printed : host.loads raw ≡ some (obj envelope)
  pub answered : get envelope "structured_output" ≡ obj d

read_envelope-ok :
    (host : Host) (stdout raw : String) (d : Fields)
    → read_envelope host stdout ≡ ok (d, raw)
    → IsAnswer host d raw
unfolding read_envelope
read_envelope-ok host stdout raw d h = elim (Option-cases (host.loads stdout)) [
  | inl n ↦ absurd (ground arith)
  | inr (v, f) ↦ elim (Option-cases (as_dict v)) [
    | inl n ↦ absurd (ground arith)
    | inr (e, g) ↦ elim (Option-cases (as_dict (get e "structured_output"))) [
      | inl n ↦ absurd (ground arith)
      | inr (p, k) ↦
          let same : (p, stdout) ≡ (d, raw) = ok_injective (ground arith) in
          record {
            envelope = e;
            printed =
                ap host.loads (sym (ap (λ (t : Fields × String). t.1) same))
                ∙ f
                ∙ ap some (as_dict-some v g);
            answered =
                as_dict-some (get e "structured_output") k
                ∙ ap obj (ap (λ (t : Fields × String). t.0) same);
          }
    ]
  ]
]

read_envelope-same :
    (host : Host) (stdout raw : String) (d : Fields)
    → read_envelope host stdout ≡ ok (d, raw)
    → raw ≡ stdout
unfolding read_envelope
read_envelope-same host stdout raw d h = elim (Option-cases (host.loads stdout)) [
  | inl n ↦ absurd (ground arith)
  | inr (v, f) ↦ elim (Option-cases (as_dict v)) [
    | inl n ↦ absurd (ground arith)
    | inr (e, g) ↦ elim (Option-cases (as_dict (get e "structured_output"))) [
      | inl n ↦ absurd (ground arith)
      | inr (p, q) ↦
          let same : ok (p, stdout) ≡ ok (d, raw) = ground arith in
          sym (ap (λ (t : Fields × String). t.1) (ok_injective same))
    ]
  ]
]

run_claude_structured-ok :
    (host : Host) (prompt raw : String) (schema : Value) (d : Fields) (p : Process)
    → host.run (command host prompt schema) ≡ p
    → run_claude_structured host prompt schema ≡ ok (d, raw)
    → (p ≡ completed raw) × IsAnswer host d raw
unfolding run_claude_structured
run_claude_structured-ok host prompt raw schema d (completed stdout) q h =
    let read : read_envelope host stdout ≡ ok (d, raw) = ground arith in
    (
      ap completed (sym (read_envelope-same host stdout raw d read)),
      read_envelope-ok host stdout raw d read,
    )
run_claude_structured-ok host prompt raw schema d (exited stdout stderr) q h = absurd (ground arith)
run_claude_structured-ok host prompt raw schema d (unstarted e) q h = absurd (ground arith)

abbrev fields_or : Value → Fields
fields_or (obj d) = d
fields_or _ = end

fields_same : {d e : Fields} → obj d ≡ obj e → d ≡ e
fields_same h = ap fields_or h

-- Outside of the mode for tests, the Claude command was run on the task's prompt and schema, what is
-- returned is the very object that its output gave as the structured output, it is a decision of the task's scenario as the contract describes it, and
-- its owner and its state are among the task's.
pub run_company_os_decision-IsNative :
    (host : Host) (task : Fields) (context v : Value)
    → host.mocked ≡ false
    → run_company_os_decision host task context ≡ ok v
    → IsNative host task context v
unfolding run_company_os_decision decide_structured
run_company_os_decision-IsNative host task context v real h =
    let (a, assigned, h1) = >>=-eq-ok (read_assignment task) _ h in
    let structured : decide_structured host a (obj task) context ≡ ok v = ground arith in
    let (claude, h2) = raise_if-eq-ok (not (host.llm_provider == "claude")) _ _ _ structured in
    let ((d, raw), answer, h3) = >>=-eq-ok (run_claude_structured host _ _) _ h2 in
    let (ran, i) = run_claude_structured-ok host _ raw _ d _ refl answer in
    let (payload, (d', is_d, valid)) =
      validate_stage1_decision_payload (obj d) a.scenario_id a.owners a.states
        (keep_raw-ok raw _ v h3) in
    record {
      assignment = a;
      decision = d;
      raw = raw;
      envelope = i.envelope;
      assigned = assigned;
      by_claude = (eq_iff host.llm_provider "claude").0 (ground arith);
      ran = ran;
      printed = i.printed;
      answered = i.answered;
      returned = payload;
      valid =
          subst (λ x. IsDecision x a.scenario_id a.owners a.states) (fields_same (sym is_d)) valid;
    }

abbrev exception_or : Exception → Result Value → Exception
exception_or e (ok v) = e
exception_or e (err x) = x

abbrev refused : Exception → Result Value
refused e = err e

err_same : {x y : Exception} → refused x ≡ refused y → x ≡ y
err_same {x = x} h = ap (exception_or x) h

with_raw-kept :
    (raw : String) (e : Exception)
    → (with_raw raw e).kind ≡ contract_error
    → (with_raw raw e).raw_output ≡ str raw
unfolding with_raw
with_raw-kept raw e h = by_kind e.kind refl
  where
    by_kind : (k : ErrorKind) → e.kind ≡ k → (with_raw raw e).raw_output ≡ str raw
    by_kind contract_error q = ground arith
    by_kind _ q = absurd (ground arith)

keep_raw-evidence :
    (raw : String) (r : Result Value) (e : Exception)
    → keep_raw raw r ≡ err e
    → e.kind ≡ contract_error
    → e.raw_output ≡ str raw
unfolding keep_raw
keep_raw-evidence raw (ok v) e h k = absurd (ground arith)
keep_raw-evidence raw (err x) e h k =
    let same : with_raw raw x ≡ e = err_same h in
    ap (λ (y : Exception). y.raw_output) (sym same)
    ∙ with_raw-kept raw x (ap (λ (y : Exception). y.kind) same ∙ k)

read_envelope-evidence :
    (host : Host) (stdout : String) (e : Exception)
    → read_envelope host stdout ≡ err e
    → e.kind ≡ contract_error
    → e.raw_output ≡ str stdout
unfolding read_envelope
read_envelope-evidence host stdout e h k = elim (Option-cases (host.loads stdout)) [
  | inl n ↦ ground arith
  | inr (v, f) ↦ elim (Option-cases (as_dict v)) [
    | inl n ↦ absurd (ground arith)
    | inr (d, g) ↦ elim (Option-cases (as_dict (get d "structured_output"))) [
      | inl n ↦ ground arith
      | inr (p, q) ↦ absurd (ground arith)
    ]
  ]
]

run_claude_structured-printed :
    (host : Host) (prompt stdout : String) (schema : Value)
    → host.structured_output_available ≡ true
    → ((c : List String) → host.run c ≡ completed stdout)
    → run_claude_structured host prompt schema ≡ read_envelope host stdout
unfolding run_claude_structured
run_claude_structured-printed host prompt stdout schema there prints =
    ground (arith, there, prints (command host prompt schema))

abbrev judged : Assignment → Fields × String → Result Value
judged a (d, raw) = keep_raw raw (validate_stage1_decision (obj d) a.scenario_id a.owners a.states)

-- What happens once the command has printed something.
decide_structured-printed :
    (host : Host) (a : Assignment) (task context : Value) (stdout : String)
    → host.llm_provider ≡ "claude"
    → host.structured_output_available ≡ true
    → ((c : List String) → host.run c ≡ completed stdout)
    → decide_structured host a task context ≡ (read_envelope host stdout >>= judged a)
unfolding decide_structured run_claude_structured
decide_structured-printed host a task context stdout claude there prints =
    rw
      (
        (eq_iff host.llm_provider "claude").1 claude,
        run_claude_structured-printed host
            (decision_prompt host.dumps host.dumps_indented host.agent_type
              host.company_os_instructions a.scenario_id a.handoff_owners a.workflow_states task
              context)
            stdout (stage1_json_schema a.scenario_id a.owners a.states) there prints,
      )
      refl

-- Once the Claude command has printed something, every contract error keeps what it printed.
pub run_company_os_decision-evidence :
    (host : Host) (task : Fields) (context : Value) (stdout : String) (e : Exception)
    (a : Assignment)
    → host.mocked ≡ false
    → host.llm_provider ≡ "claude"
    → host.structured_output_available ≡ true
    → ((c : List String) → host.run c ≡ completed stdout)
    → read_assignment task ≡ ok a
    → run_company_os_decision host task context ≡ err e
    → e.kind ≡ contract_error
    → e.raw_output ≡ str stdout
unfolding run_company_os_decision
run_company_os_decision-evidence host task context stdout e a real claude there prints assigned h
      k =
    let structured : decide_structured host a (obj task) context ≡ err e = ground arith in
    let read : (read_envelope host stdout >>= judged a) ≡ err e =
      sym (decide_structured-printed host a (obj task) context stdout claude there prints)
      ∙ structured in
    elim (ok_or_err (read_envelope host stdout)) [
      | inr (x, f) ↦
          let q : x ≡ e = err_same (sym (ap (λ r. r >>= judged a) f) ∙ read) in
          ap (λ (y : Exception). y.raw_output) (sym q)
          ∙ read_envelope-evidence host stdout x f (ap (λ (y : Exception). y.kind) q ∙ k)
      | inl ((d, raw), f) ↦
          keep_raw-evidence raw (validate_stage1_decision (obj d) a.scenario_id a.owners a.states) e
            (sym (ap (λ r. r >>= judged a) f) ∙ read) k
          ∙ ap str (read_envelope-same host stdout raw d f)
    ]
