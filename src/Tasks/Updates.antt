-- ===== src/Tasks/Updates.antt =====
-- Reading a task after its status was updated: app/services/task_service.py.
use polsia_build.Common.{List, Option, String, eqb, eqb_iff, first-some, none, some, ℕ, ◌≡◌}
use polsia_build.Tasks.{Task, get_task}

pub found_id : (k : ℕ) (ts : List Task) (t : Task) → get_task k ts ≡ some t → t.id ≡ k
unfolding get_task
found_id k ts t h = (eqb_iff t.id k).0 (first-some (λ (x : Task). eqb x.id k) ts t h).0

-- What was given, or else what was there.
abbrev Replaced : Option String → Option String → Option String → Type 0
Replaced none old x = x ≡ old
Replaced (some s) old x = x ≡ some s

-- The row `x` that an update makes of the row `t`.
pub record IsUpdated (status : String) (summary error : Option String) (t x : Task) : Type 0 where
  pub id : x.id ≡ t.id
  pub title : x.title ≡ t.title
  pub description : x.description ≡ t.description
  pub agent_type : x.agent_type ≡ t.agent_type
  pub priority : x.priority ≡ t.priority
  pub source : x.source ≡ t.source
  pub scheduled_date : x.scheduled_date ≡ t.scheduled_date
  pub task_metadata : x.task_metadata ≡ t.task_metadata
  pub created_at : x.created_at ≡ t.created_at
  pub new_status : x.status ≡ status
  pub new_summary : Replaced summary t.result_summary x.result_summary
  pub new_error : Replaced error t.error_message x.error_message
