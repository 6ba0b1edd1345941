-- ===== src/Sandbox/Constraints.antt =====
-- What the guards of the service leave to the constraints of the event table.
use Prim.Native.String.{count}
use polsia_build.Common.{
  Bool, Bool-cases, In, List, Option, String, [], any, any_weaken, ap, arith, eq_bool, eqb, false,
  if◌then◌else◌, inl, inr, is_some, none, refl, some, true, ℕ, ◌&&◌, ◌<◌, ◌==◌, ◌||◌, ◌↔◌, ◌∙◌, ◌∷◌,
  ◌≡◌, ◌≤◌, ◌⊎◌,
}
use polsia_build.Raises.{>>=-eq-ok, ok, raise_if-eq-ok}
use polsia_build.Sandbox.{
  Db, SandboxEvent, SandboxRun, WorkflowInstance, check_columns, check_event, max_sequence,
  same_run, same_terminal_key,
}
use polsia_build.Sandbox.Append.{IsRow}
use polsia_build.Sandbox.Columns.{
  IsText, check_boolean, check_boolean_iff, check_optional_text, check_optional_text_iff,
  check_text, check_text_iff,
}
use polsia_build.Sandbox.Log.{IsDerived, Progress, apply_event, replay, start}
use polsia_build.Sandbox.Service.{Delivery, check_state, is_duplicate, is_terminal_outcome}
use polsia_build.Value.{Fields, Value, bool, eq, is_null, null, optional, str}

le_max_sequence :
    (run : ℕ) (es : List SandboxEvent) (n : ℕ)
    → max_sequence run es < n
    → any (λ f. eqb f.sandbox_run_id run && eqb f.sequence n) es ≡ false
unfolding max_sequence
le_max_sequence run [] n h = refl
le_max_sequence run (e ∷ es) n h = elim (Bool-cases (eqb e.sandbox_run_id run)) [
  | inl t ↦ ground (arith, le_max_sequence run es n)
  | inr f ↦ ground (arith, le_max_sequence run es n)
]

replay_open :
    (k : ℕ) (p : Progress) (es : List SandboxEvent)
    → (replay k p es).terminal ≡ false
    → (p.terminal ≡ false)
      × (any (λ f. eqb f.workflow_instance_id k && is_some f.terminal_key) es ≡ false)
unfolding replay apply_event
replay_open k p [] h = (h, refl)
replay_open k p (e ∷ es) h =
    ground (arith, replay_open k (if eqb e.workflow_instance_id k then apply_event e p else p) es h)

check_state_open :
    (i : WorkflowInstance) (definition : Value) (payload : Fields)
    → check_state i definition payload ≡ ok tt
    → is_terminal_outcome payload ≡ true
    → i.terminal ≡ false
unfolding check_state
check_state_open i definition payload h t = ground arith

-- What the columns of the table of events take.
pub record FitsColumns (e : SandboxEvent) : Type 0 where
  pub effect :
      (eq e.external_side_effect (bool true) || eq e.external_side_effect (bool false)) ≡ true
  pub event_id : count e.event_id ≤ 160
  pub key : count e.idempotency_key ≤ 255
  pub classification : IsText 100 e.primary_classification
  pub event_type : IsText 100 e.event_type
  pub result : IsText 100 e.result
  pub risk : IsText 20 e.risk_level
  pub before : (e.state_before ≡ null) ⊎ IsText 160 e.state_before
  pub after : (e.state_after ≡ null) ⊎ IsText 160 e.state_after

check_text-count : (limit : ℕ) (s : String) → check_text limit (str s) ≡ ok tt → count s ≤ limit
unfolding check_text
check_text-count limit s h = ground arith

differ : (a b : Bool) → (a ≡ true) ↔ (b ≡ false) → eq_bool a b ≡ false
differ true b h = ground (arith, h.0 refl)
differ false true h = refl
differ false false h = cc (h.1 refl)

module _ {run : SandboxRun} {i : WorkflowInstance} {a : Delivery} {db : Db} {e : SandboxEvent}
    (r : IsRow run i a db e) where
  fresh_id :
      any (is_duplicate run.id e.event_id e.idempotency_key) db.events ≡ false
      → any (λ f. same_run e f && f.event_id == e.event_id) db.events ≡ false
  fresh_id n = any_weaken _ _ db.events (λ f h. ground (arith, r.of_run)) n

  fresh_key :
      any (is_duplicate run.id e.event_id e.idempotency_key) db.events ≡ false
      → any (λ f. same_run e f && f.idempotency_key == e.idempotency_key) db.events ≡ false
  fresh_key n = any_weaken _ _ db.events (λ f h. ground (arith, r.of_run)) n

  fresh_sequence : any (λ f. same_run e f && eqb f.sequence e.sequence) db.events ≡ false
  fresh_sequence =
      any_weaken _ _ db.events (λ f h. ground (arith, r.of_run))
        (le_max_sequence run.id db.events e.sequence (omega (arith, r.sequence)))

  fresh_terminal :
      (definition : Value)
      → IsDerived db
      → In i db.instances
      → check_state i definition e.payload ≡ ok tt
      → any
          (λ f.
            eqb f.workflow_instance_id e.workflow_instance_id
            && same_terminal_key f.terminal_key e.terminal_key)
          db.events
        ≡ false
  fresh_terminal definition d m s = elim (Bool-cases (is_terminal_outcome e.payload)) [
    | inl t ↦
        let (s0, p) = d.replayed i m in
        let still : i.terminal ≡ false = check_state_open i definition e.payload s t in
        any_weaken _ _ db.events (λ f h. ground (arith, r.of_instance))
          (replay_open i.id (start s0) db.events (ap (λ (q : Progress). q.terminal) p ∙ still)).1
    | inr f ↦ never e.terminal_key db.events (r.terminal ∙ f)
  ]
    where
      never :
          (k : Option String) (es : List SandboxEvent)
          → is_some k ≡ false
          → any
              (λ f.
                eqb f.workflow_instance_id e.workflow_instance_id
                && same_terminal_key f.terminal_key k)
              es
            ≡ false
      never (some s) es h = cc
      never none es h = any_weaken _ (λ _. false) es (λ f h. ground arith) (nothing es)
        where
          nothing : (es : List SandboxEvent) → any (λ _. false) es ≡ false
          nothing [] = refl
          nothing (f ∷ es) = nothing es

  terminal_fits : check_optional_text 32 (optional e.terminal_key) ≡ ok tt
  unfolding check_optional_text
  terminal_fits = elim (Bool-cases (is_terminal_outcome e.payload)) [
    | inl t ↦ rw (r.terminal_text, t) refl
    | inr f ↦ rw (r.terminal_text, f) refl
  ]

  check_columns_iff : (check_columns e ≡ ok tt) ↔ FitsColumns e
  unfolding check_columns
  check_columns_iff = (
    λ h.
        let (_, h0, h1) = >>=-eq-ok (check_boolean e.external_side_effect) _ h in
        let (_, i, h2) = >>=-eq-ok (check_text 160 (str e.event_id)) _ h1 in
        let (_, k, h3) = >>=-eq-ok (check_text 255 (str e.idempotency_key)) _ h2 in
        let (_, c, h4) = >>=-eq-ok (check_text 100 e.primary_classification) _ h3 in
        let (_, t, h5) = >>=-eq-ok (check_text 100 e.event_type) _ h4 in
        let (_, v, h6) = >>=-eq-ok (check_text 100 e.result) _ h5 in
        let (_, risk, h7) = >>=-eq-ok (check_text 20 e.risk_level) _ h6 in
        let (_, b, h8) = >>=-eq-ok (check_optional_text 160 e.state_before) _ h7 in
        let (_, a, h9) = >>=-eq-ok (check_optional_text 160 e.state_after) _ h8 in
        record {
          effect = (check_boolean_iff e.external_side_effect).0 h0;
          event_id = check_text-count 160 e.event_id i;
          key = check_text-count 255 e.idempotency_key k;
          classification = (check_text_iff 100 e.primary_classification).0 c;
          event_type = (check_text_iff 100 e.event_type).0 t;
          result = (check_text_iff 100 e.result).0 v;
          risk = (check_text_iff 20 e.risk_level).0 risk;
          before = (check_optional_text_iff 160 e.state_before).0 b;
          after = (check_optional_text_iff 160 e.state_after).0 a;
        },
    λ f.
        rw
          (
            (check_boolean_iff e.external_side_effect).1 f.effect,
            (check_text_iff 160 (str e.event_id)).1 (e.event_id, refl, f.event_id),
            (check_text_iff 255 (str e.idempotency_key)).1 (e.idempotency_key, refl, f.key),
            (check_text_iff 100 e.primary_classification).1 f.classification,
            (check_text_iff 100 e.event_type).1 f.event_type,
            (check_text_iff 100 e.result).1 f.result,
            (check_text_iff 20 e.risk_level).1 f.risk,
            (check_optional_text_iff 160 e.state_before).1 f.before,
            (check_optional_text_iff 160 e.state_after).1 f.after,
          )
          terminal_fits,
  )

  passes :
      (definition : Value)
      → IsDerived db
      → In i db.instances
      → any (is_duplicate run.id e.event_id e.idempotency_key) db.events ≡ false
      → check_state i definition e.payload ≡ ok tt
      → check_columns e ≡ ok tt
      → eq_bool (is_null e.native_decision) (is_null e.native_failure) ≡ false
      → check_event e db.events ≡ ok tt
  unfolding check_event
  passes definition d m n s c x =
      ground (
        arith,
        fresh_id n,
        fresh_key n,
        fresh_sequence,
        fresh_terminal definition d m s,
        r.sequence,
      )

  pub check_event_iff :
      (definition : Value)
      → IsDerived db
      → In i db.instances
      → any (is_duplicate run.id e.event_id e.idempotency_key) db.events ≡ false
      → check_state i definition e.payload ≡ ok tt
      → (check_event e db.events ≡ ok tt) ↔ (
          FitsColumns e × ((is_null e.native_decision ≡ true) ↔ (is_null e.native_failure ≡ false)))
  unfolding check_event
  check_event_iff definition d m n s = (
    λ h.
        let (_, c, h1) = >>=-eq-ok (check_columns e) _ h in
        let (_, h2) = raise_if-eq-ok (eqb e.sequence 0) _ _ _ h1 in
        let (x, _) =
          raise_if-eq-ok (eq_bool (is_null e.native_decision) (is_null e.native_failure)) _ _ _
            h2 in
        (check_columns_iff.0 c, (λ k. ground arith, λ k. ground arith)),
    λ (f, x).
        passes definition d m n s (check_columns_iff.1 f)
          (differ (is_null e.native_decision) (is_null e.native_failure) x),
  )
