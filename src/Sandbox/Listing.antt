-- ===== src/Sandbox/Listing.antt =====
-- Reading the log: `list_sandbox_events` and `export_sandbox_event` of
-- app/services/company_os_sandbox_service.py.
use polsia_build.Common.{
  Bool, Bool-cases, List, Option, [], ap, arith, eqb, if◌then◌else◌, inl, inr, ltb, refl, select,
  subst, suc, sym, ℕ, ◌∙◌, ◌∷◌, ◌≡◌,
}
use polsia_build.Raises.{Message}
use polsia_build.Sandbox.{Db, SandboxEvent}
use polsia_build.Sandbox.Numbering.{Numbered}
use polsia_build.Sandbox.Reachable.{Reachable, Reachable-IsSound}
use polsia_build.Value.{Fields, Value}

-- `where(sandbox_run_id == run)`
abbrev pub run_events : ℕ → List SandboxEvent → List SandboxEvent
run_events run es = select (λ e. eqb e.sandbox_run_id run) es

-- `order_by(sequence)`
insert_event : SandboxEvent → List SandboxEvent → List SandboxEvent
insert_event e [] = e ∷ []
insert_event e (f ∷ fs) =
    let rest = insert_event e fs in if ltb f.sequence e.sequence then f ∷ rest else e ∷ f ∷ fs

unfoldable pub by_sequence : List SandboxEvent → List SandboxEvent
unfolding insert_event
by_sequence [] = []
by_sequence (e ∷ es) = insert_event e (by_sequence es)

unfoldable pub list_sandbox_events : ℕ → Db → List SandboxEvent
unfolding by_sequence
list_sandbox_events run db = by_sequence (run_events run db.events)

abbrev pub export_sandbox_event : SandboxEvent → Fields
export_sandbox_event e = e.payload

-- The first event of a list, if there is one, has this number.
abbrev FirstIs : ℕ → List SandboxEvent → Type 0
FirstIs k [] = Unit
FirstIs k (e ∷ es) = e.sequence ≡ k

first_number :
    (run k : ℕ) (es : List SandboxEvent) → Numbered run k es → FirstIs (suc k) (run_events run es)
first_number run k [] h = tt
first_number run k (e ∷ es) h = elim (Bool-cases (eqb e.sandbox_run_id run)) [
  | inl t ↦ rw t (h.0 t)
  | inr f ↦
      rw f (
        first_number run k es
          (subst (λ (b : Bool). Numbered run (if b then suc k else k) es) f h.1))
]

insert_event-first :
    (e : SandboxEvent) (es : List SandboxEvent)
    → FirstIs (suc e.sequence) es
    → insert_event e es ≡ e ∷ es
unfolding insert_event
insert_event-first e [] h = refl
insert_event-first e (f ∷ fs) h = ground (arith, h)

by_sequence-Numbered :
    (run k : ℕ) (es : List SandboxEvent)
    → Numbered run k es
    → by_sequence (run_events run es) ≡ run_events run es
unfolding by_sequence
by_sequence-Numbered run k [] h = refl
by_sequence-Numbered run k (e ∷ es) h = elim (Bool-cases (eqb e.sandbox_run_id run)) [
  | inl t ↦
      let rest = subst (λ (b : Bool). Numbered run (if b then suc k else k) es) t h.1 in
      rw t (
        ap (insert_event e) (by_sequence-Numbered run (suc k) es rest)
        ∙ insert_event-first e (run_events run es) (
            subst (λ n. FirstIs (suc n) (run_events run es)) (sym (h.0 t))
              (first_number run (suc k) es rest)))
  | inr f ↦ rw f (
      by_sequence-Numbered run k es
        (subst (λ (b : Bool). Numbered run (if b then suc k else k) es) f h.1))
]

-- In the tables that the operations make, the events of a run are listed as they were appended.
pub list_sandbox_events-log :
    (invalid : Value → Value → Option Message) (run : ℕ) (db : Db)
    → Reachable invalid db
    → list_sandbox_events run db ≡ run_events run db.events
unfolding list_sandbox_events
list_sandbox_events-log invalid run db h =
    by_sequence-Numbered run 0 db.events ((Reachable-IsSound invalid db h).numbered.in_order run)
