-- ===== src/Sandbox/Numbering.antt =====
-- The events of each run are numbered from 1, with no gap, in the order of the log.
use Prim.Native.Nat.{max}
use mathlib.Core.Path.{subst}
use polsia_build.Common.{
  Bool, Bool-cases, List, [], ap, arith, eqb, if◌then◌else◌, inl, inr, suc, true, ℕ, ◌++◌, ◌+◌, ◌∙◌,
  ◌∷◌, ◌≡◌,
}
use polsia_build.Sandbox.{Db, SandboxEvent, SandboxRun, WorkflowInstance, max_sequence}
use polsia_build.Sandbox.Append.{IsRow}
use polsia_build.Sandbox.Service.{Delivery, with_event}

-- `es` continues the numbering of a run after the number `k`.
abbrev pub Numbered : ℕ → ℕ → List SandboxEvent → Type 0
Numbered run k [] = Unit
Numbered run k (e ∷ es) =
    (eqb e.sandbox_run_id run ≡ true → e.sequence ≡ suc k)
    × Numbered run (if eqb e.sandbox_run_id run then suc k else k) es

-- The number of events of a run.
abbrev pub count_of : ℕ → List SandboxEvent → ℕ
count_of run [] = 0
count_of run (e ∷ es) =
    let rest = count_of run es in if eqb e.sandbox_run_id run then suc rest else rest

-- In a numbered log the greatest number is the count.
max_sequence-Numbered :
    (run k : ℕ) (es : List SandboxEvent)
    → Numbered run k es
    → max k (max_sequence run es) ≡ k + count_of run es
unfolding max_sequence
max_sequence-Numbered run k [] h = omega arith
max_sequence-Numbered run k (e ∷ es) h = elim (Bool-cases (eqb e.sandbox_run_id run)) [
  | inl t ↦
      let rest =
        max_sequence-Numbered run (suc k) es
          (subst (λ (b : Bool). Numbered run (if b then suc k else k) es) t h.1) in
      rw t (omega (arith, rest, h.0 t))
  | inr f ↦
      let rest =
        max_sequence-Numbered run k es
          (subst (λ (b : Bool). Numbered run (if b then suc k else k) es) f h.1) in
      rw f rest
]

count_of-cons :
    (run k : ℕ) (f : SandboxEvent) (es : List SandboxEvent)
    → k + count_of run (f ∷ es) ≡ (if eqb f.sandbox_run_id run then suc k else k) + count_of run es
count_of-cons run k f es = ground arith

Numbered-append :
    (run k : ℕ) (es : List SandboxEvent) (e : SandboxEvent)
    → Numbered run k es
    → (eqb e.sandbox_run_id run ≡ true → e.sequence ≡ suc (k + count_of run es))
    → Numbered run k (es ++ e ∷ [])
Numbered-append run k [] e h n = (λ t. omega (arith, n t), tt)
Numbered-append run k (f ∷ es) e h n = (
  h.0,
  Numbered-append run (if eqb f.sandbox_run_id run then suc k else k) es e h.1
      (λ t. n t ∙ ap suc (count_of-cons run k f es)),
)

pub record IsNumbered (db : Db) : Type 0 where
  pub in_order : (run : ℕ) → Numbered run 0 db.events

-- The sequence that the service gives the next event of a run is the one after the last.
pub next_sequence :
    (db : Db) (run : ℕ) → IsNumbered db → max_sequence run db.events ≡ count_of run db.events
next_sequence db run n = omega (arith, max_sequence-Numbered run 0 db.events (n.in_order run))

eqb_same : (a b c : ℕ) → a ≡ b → eqb a c ≡ true → b ≡ c
eqb_same a b c h k = ground arith

pub with_event-IsNumbered :
    (run : SandboxRun) (i : WorkflowInstance) (a : Delivery) (db : Db) (e : SandboxEvent)
    → IsNumbered db
    → IsRow run i a db e
    → IsNumbered (with_event i e.payload db e)
with_event-IsNumbered run i a db e n r = record {
  in_order = λ k. Numbered-append k 0 db.events e (n.in_order k) (λ t.
      let same : run.id ≡ k = eqb_same e.sandbox_run_id run.id k r.of_run t in
      r.sequence
      ∙ (ap (λ (j : ℕ). suc (max_sequence j db.events)) same
          ∙ omega (arith, next_sequence db k n)));
}
