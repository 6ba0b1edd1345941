-- ===== src/Examples/Tasks.antt =====
-- A day with two tasks, one of which is finished.
use polsia_build.Common.{List, Option, String, [], none, refl, some, ℕ, ◌+◌, ◌∷◌, ◌≡◌}
use polsia_build.Tasks.{
  DaySummary, Task, get_task, get_tasks_today_summary, unchanged, update_task_status,
}
use polsia_build.Tasks.Summary.{get_tasks_today_summary-update_task_status}
use polsia_build.Value.{null}

abbrev task : ℕ → String → Task
task id status = record {
  id = id;
  title = "Write to leads";
  description = none;
  agent_type = "email_outreach";
  priority = 3;
  status = status;
  source = "orchestrator";
  scheduled_date = none;
  result_summary = none;
  error_message = none;
  task_metadata = null;
  created_at = 100;
}

abbrev day : List Task
day = task 1 "pending" ∷ task 2 "pending" ∷ []

abbrev finished : Option Task × List Task
finished = update_task_status 1 "completed" (some "sent") none day

counted :
    get_tasks_today_summary 50 (unchanged finished.1)
    ≡ record { total = 2; completed = 1; pending = 1; failed = 0 }
unfolding get_tasks_today_summary update_task_status
counted = refl

abbrev before : DaySummary
before = get_tasks_today_summary 50 (unchanged day)

abbrev after : DaySummary
after = get_tasks_today_summary 50 (unchanged finished.1)

get_tasks_today_summary-update_task_status_example :
    (after.total ≡ before.total)
    × (after.completed + 0 ≡ before.completed + 1)
    × (after.pending + 1 ≡ before.pending + 0)
    × (after.failed + 0 ≡ before.failed + 0)
unfolding get_task
get_tasks_today_summary-update_task_status_example =
    get_tasks_today_summary-update_task_status 50 1 "completed" (some "sent") none day finished.1
      (task 1 "pending") finished.0 (refl, (refl, tt)) refl refl
