-- ===== src/Sandbox/Log.antt =====
-- The event log determines the workflow instances: replaying it gives their state.
use mathlib.Core.Path.{subst}
use polsia_build.Common.{
  Bool, Bool-cases, In, In-append, List, [], ap, arith, eqb, false, if◌then◌else◌, inl, inr,
  is_some, length, not, refl, suc, sym, true, ℕ, ◌++◌, ◌||◌, ◌∙◌, ◌∷◌, ◌≡◌, ◌≤◌, ◌⊎◌,
}
use polsia_build.Sandbox.{Db, SandboxEvent, SandboxRun, WorkflowInstance, save_instance}
use polsia_build.Sandbox.Append.{IsRow}
use polsia_build.Sandbox.Service.{Delivery, advance, with_event}
use polsia_build.Value.{Fields, Value, eq}

-- What an instance has come to.
pub record Progress : Type 0 where
  pub state : Value
  pub version : ℕ
  pub terminal : Bool

abbrev pub progress_of : WorkflowInstance → Progress
progress_of i = record { state = i.current_state; version = i.version; terminal = i.terminal }

abbrev pub start : Value → Progress
start s = record { state = s; version = 0; terminal = false }

-- What an event does to the instance it is of.
unfoldable pub apply_event : SandboxEvent → Progress → Progress
apply_event e p =
    let moves = not (eq e.state_after e.state_before) in
    record {
      state = if moves then e.state_after else p.state;
      version = if moves then suc p.version else p.version;
      terminal = p.terminal || is_some e.terminal_key;
    }

-- The events of one instance, applied in the order of the log.
unfoldable pub replay : ℕ → Progress → List SandboxEvent → Progress
replay k p [] = p
replay k p (e ∷ es) = replay k (if eqb e.workflow_instance_id k then apply_event e p else p) es

pub replay-append :
    (k : ℕ) (p : Progress) (es : List SandboxEvent) (e : SandboxEvent)
    → replay k p (es ++ e ∷ [])
      ≡ (if eqb e.workflow_instance_id k then apply_event e (replay k p es) else replay k p es)
unfolding replay
replay-append k p [] e = refl
replay-append k p (f ∷ es) e =
    replay-append k (if eqb f.workflow_instance_id k then apply_event f p else p) es e

pub record IsDerived (db : Db) : Type 0 where
  pub ids : (i : WorkflowInstance) → In i db.instances → i.id ≤ length db.instances
  pub owners : (e : SandboxEvent) → In e db.events → e.workflow_instance_id ≤ length db.instances
  pub replayed :
      (i : WorkflowInstance)
      → In i db.instances
      → (s : Value) × (replay i.id (start s) db.events ≡ progress_of i)

length-save_instance :
    (x : WorkflowInstance) (is : List WorkflowInstance) → length (save_instance x is) ≡ length is
unfolding save_instance
length-save_instance x [] = refl
length-save_instance x (i ∷ is) = ap suc (length-save_instance x is)

pub In-save_instance :
    (x j : WorkflowInstance) (is : List WorkflowInstance)
    → In j (save_instance x is)
    → (j ≡ x) ⊎ (In j is × (eqb j.id x.id ≡ false))
unfolding save_instance
In-save_instance x j [] m = elim m [ ]
In-save_instance x j (i ∷ is) (inl e) = elim (Bool-cases (eqb i.id x.id)) [
  | inl t ↦ inl (ground arith)
  | inr f ↦ let same : j ≡ i = ground arith in inr (inl same, rw same f)
]
In-save_instance x j (i ∷ is) (inr m) = elim (In-save_instance x j is m) [
  | inl e ↦ inl e
  | inr (n, f) ↦ inr (inr n, f)
]

progress-advance :
    (run : SandboxRun) (i : WorkflowInstance) (a : Delivery) (db : Db) (e : SandboxEvent)
    → IsRow run i a db e
    → progress_of (advance i e.payload) ≡ apply_event e (progress_of i)
unfolding apply_event
progress-advance run i a db e r = ground (arith, r.before, r.after, r.terminal)

eqb_self : (a b : ℕ) → a ≡ b → eqb a b ≡ true
eqb_self a b h = ground arith

eqb_ne : (a b c d : ℕ) → a ≡ b → c ≡ b → eqb d c ≡ false → eqb a d ≡ false
eqb_ne a b c d h k n = ground arith

pub id-advance : (i : WorkflowInstance) (payload : Fields) → (advance i payload).id ≡ i.id
id-advance i payload = ground arith

module _ {run : SandboxRun} {i : WorkflowInstance} {a : Delivery} {db : Db} {e : SandboxEvent}
    (r : IsRow run i a db e) where
  -- The instance of the event is moved as the event says.
  replay_moved :
      (s : Value)
      → replay i.id (start s) db.events ≡ progress_of i
      → replay (advance i e.payload).id (start s) (db.events ++ e ∷ [])
        ≡ progress_of (advance i e.payload)
  replay_moved s p =
      ap (λ (k : ℕ). replay k (start s) (db.events ++ e ∷ [])) (id-advance i e.payload)
      ∙ (replay-append i.id (start s) db.events e
          ∙ (ap
                (λ (b : Bool).
                  if b
                  then apply_event e (replay i.id (start s) db.events)
                  else replay i.id (start s) db.events)
                (eqb_self e.workflow_instance_id i.id r.of_instance)
              ∙ (ap (apply_event e) p ∙ sym (progress-advance run i a db e r))))

  -- Every other instance stays as it is.
  replay_other :
      (j : WorkflowInstance) (s : Value)
      → eqb j.id (advance i e.payload).id ≡ false
      → replay j.id (start s) db.events ≡ progress_of j
      → replay j.id (start s) (db.events ++ e ∷ []) ≡ progress_of j
  replay_other j s f p =
      replay-append j.id (start s) db.events e
      ∙ (ap
            (λ (b : Bool).
              if b
              then apply_event e (replay j.id (start s) db.events)
              else replay j.id (start s) db.events)
            (eqb_ne e.workflow_instance_id i.id (advance i e.payload).id j.id r.of_instance
              (id-advance i e.payload) f)
          ∙ p)

-- An event of an instance extends the log and moves the instance alike.
pub with_event-IsDerived :
    (run : SandboxRun) (i : WorkflowInstance) (a : Delivery) (db : Db) (e : SandboxEvent)
    → IsDerived db
    → In i db.instances
    → IsRow run i a db e
    → IsDerived (with_event i e.payload db e)
with_event-IsDerived run i a db e d m r = record {
  ids = λ j n.
      subst (λ k. j.id ≤ k) (sym (length-save_instance x db.instances))
        (elim (In-save_instance x j db.instances n) [
          | inl s ↦
              subst (λ k. k ≤ length db.instances)
                (sym (ap (λ (y : WorkflowInstance). y.id) s ∙ id-advance i e.payload)) (d.ids i m)
          | inr (o, _) ↦ d.ids j o
        ]);
  owners = λ f n.
      subst (λ k. f.workflow_instance_id ≤ k) (sym (length-save_instance x db.instances))
        (elim (In-append f e db.events n) [
          | inl o ↦ d.owners f o
          | inr s ↦
              subst (λ k. k ≤ length db.instances)
                (sym (ap (λ (y : SandboxEvent). y.workflow_instance_id) s ∙ r.of_instance))
                (d.ids i m)
        ]);
  replayed = λ j n. elim (In-save_instance x j db.instances n) [
    | inl s ↦
        let (s0, p) = d.replayed i m in
        (
          s0,
          subst
              (λ (y : WorkflowInstance).
                replay y.id (start s0) (db.events ++ e ∷ []) ≡ progress_of y)
              (sym s) (replay_moved r s0 p),
        )
    | inr (o, f) ↦ let (s0, p) = d.replayed j o in (s0, replay_other r j s0 f p)
  ];
}
  where
    x : WorkflowInstance
    x = advance i e.payload
