-- ===== src/Tasks.antt =====
-- The task table of app/models/task.py and what app/services/task_service.py reads and updates in it:
-- `get_task`, `list_tasks`, `update_task_status` and `get_tasks_today_summary`. The table is the list
-- of its rows, in the database's order, and times are numbers; `updated_at`, which the database sets,
-- is left out.
pub mod Updates
pub mod Summary
use polsia_build.Common.{
  Bool, List, Option, String, [], eqb, first, if◌then◌else◌, ltb, none, not, select, some, suc,
  true, ℕ, ◌&&◌, ◌==◌, ◌∷◌,
}
use polsia_build.Agent.Provider.{completed}
use polsia_build.Coordinator.Native.{failed}
use polsia_build.Value.{Value}

pub record Task : Type 0 where
  pub id : ℕ
  pub title : String
  pub description : Option String
  pub agent_type : String
  pub priority : ℕ
  pub status : String
  pub source : String
  pub scheduled_date : Option ℕ
  pub result_summary : Option String
  pub error_message : Option String
  pub task_metadata : Value
  pub created_at : ℕ

unfoldable pub get_task : ℕ → List Task → Option Task
get_task k ts = first (λ t. eqb t.id k) ts

abbrev has_status : Option String → Task → Bool
has_status none t = true
has_status (some s) t = t.status == s

unfoldable pub list_tasks : Option String → List Task → List Task
list_tasks status ts = select (has_status status) ts

-- What is given takes the place of what was there.
abbrev pub or_old : Option String → Option String → Option String
or_old none old = old
or_old (some s) old = some s

abbrev pub with_status : String → Option String → Option String → Task → Task
with_status status summary error t = record t {
  status = status;
  result_summary = or_old summary t.result_summary;
  error_message = or_old error t.error_message;
}

-- Writes a row back.
save_task : Task → List Task → List Task
save_task x [] = []
save_task x (t ∷ ts) = (if eqb t.id x.id then x else t) ∷ save_task x ts

unfoldable pub update_task_status :
    ℕ → String → Option String → Option String → List Task → Option Task × List Task
unfolding get_task save_task
update_task_status k status summary error ts = elim (get_task k ts) [
  | none ↦ (none, ts)
  | some t ↦ let x = with_status status summary error t in (some x, save_task x ts)
]

-- `_count`, for the tasks since `today_start`
unfoldable pub count_since : ℕ → Option String → List Task → ℕ
count_since today_start status [] = 0
count_since today_start status (t ∷ ts) =
    let rest = count_since today_start status ts in
    if not (ltb t.created_at today_start) && has_status status t then suc rest else rest

pub record DaySummary : Type 0 where
  pub total : ℕ
  pub completed : ℕ
  pub pending : ℕ
  pub failed : ℕ

-- What each of the four `SELECT`s finds: another session may commit between one and the next.
pub record Snapshots : Type 0 where
  pub for_total : List Task
  pub for_completed : List Task
  pub for_pending : List Task
  pub for_failed : List Task

-- Nothing is committed between the `SELECT`s.
abbrev pub unchanged : List Task → Snapshots
unchanged ts = record { for_total = ts; for_completed = ts; for_pending = ts; for_failed = ts }

unfoldable pub get_tasks_today_summary : ℕ → Snapshots → DaySummary
unfolding count_since
get_tasks_today_summary today_start seen = record {
  total = count_since today_start none seen.for_total;
  completed = count_since today_start (some "completed") seen.for_completed;
  pending = count_since today_start (some "pending") seen.for_pending;
  failed = count_since today_start (some "failed") seen.for_failed;
}
