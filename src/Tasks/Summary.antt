-- ===== src/Tasks/Summary.antt =====
-- The summary of a day and the updates of tasks: app/services/task_service.py.
use polsia_build.Common.{
  Bool-cases, List, Option, String, [], any, ap, arith, eqb, eqb_iff, false, if◌then◌else◌, inl,
  inr, leb, none, refl, some, sym, true, ℕ, ◌&&◌, ◌+◌, ◌==◌, ◌∙◌, ◌∷◌, ◌≡◌,
}
use polsia_build.Tasks.{
  Task, count_since, get_task, get_tasks_today_summary, save_task, unchanged, update_task_status,
  with_status,
}
use polsia_build.Tasks.Updates.{found_id}

-- The ids are a primary key.
abbrev pub IsKeyed : List Task → Type 0
IsKeyed [] = Unit
IsKeyed (t ∷ ts) = (any (λ (u : Task). eqb u.id t.id) ts ≡ false) × IsKeyed ts

-- 1 for a task of the day that has the status
abbrev pub share : ℕ → Task → String → String → ℕ
share today_start t status s = if leb today_start t.created_at && status == s then 1 else 0

abbrev total_share : ℕ → Task → Option String → ℕ
total_share today_start t none = if leb today_start t.created_at then 1 else 0
total_share today_start t (some s) = share today_start t t.status s

count_since-cons :
    (today_start : ℕ) (q : Option String) (t : Task) (ts : List Task)
    → count_since today_start q (t ∷ ts)
      ≡ total_share today_start t q + count_since today_start q ts
unfolding count_since
count_since-cons today_start none t ts = ground arith
count_since-cons today_start (some s) t ts = ground arith

save_task-absent :
    (x : Task) (ts : List Task) → any (λ (u : Task). eqb u.id x.id) ts ≡ false → save_task x ts ≡ ts
unfolding save_task
save_task-absent x [] h = refl
save_task-absent x (t ∷ ts) h = ground (arith, save_task-absent x ts)

-- A row that is written back takes the place of one row in every count.
count_since-save_task :
    (today_start k : ℕ) (q : Option String) (t x : Task) (ts : List Task)
    → IsKeyed ts
    → get_task k ts ≡ some t
    → x.id ≡ k
    → count_since today_start q (save_task x ts) + total_share today_start t q
      ≡ count_since today_start q ts + total_share today_start x q
unfolding save_task get_task
count_since-save_task today_start k q t x [] u h e = cc
count_since-save_task today_start k q t x (s ∷ ts) (n, u) h e = elim (Bool-cases (eqb s.id k)) [
  | inl same ↦
      let first_is : s ≡ t = ground arith in
      let ids : s.id ≡ x.id = (eqb_iff s.id k).0 same ∙ sym e in
      let tested : eqb s.id x.id ≡ true = (eqb_iff s.id x.id).1 ids in
      let kept : save_task x ts ≡ ts =
        save_task-absent x ts (ap (λ k. any (λ (u : Task). eqb u.id k) ts) (sym ids) ∙ n) in
      rw (tested, kept)
        (omega (
          arith,
          count_since-cons today_start q x ts,
          count_since-cons today_start q s ts,
          ap (λ t. total_share today_start t q) first_is,
        ))
  | inr differ ↦
      let later : get_task k ts ≡ some t = ground arith in
      let tested : eqb s.id x.id ≡ false = ap (eqb s.id) e ∙ differ in
      rw tested (
        omega (
          arith,
          count_since-cons today_start q s (save_task x ts),
          count_since-cons today_start q s ts,
          count_since-save_task today_start k q t x ts u later e,
        ))
]

same_left : {a b : ℕ} (c : ℕ) → a + c ≡ b + c → a ≡ b
same_left c h = omega arith

-- Where nothing is committed between its four `SELECT`s, the summary after an update of a task's
-- status differs from the one before it in this alone: among the tasks of the day the task counts
-- under its new status where it counted under the old one. The total is the same, and a task from
-- before the day changes no count.
pub get_tasks_today_summary-update_task_status :
    (today_start k : ℕ) (status : String) (summary error : Option String) (ts ts' : List Task)
    (t : Task) (r : Option Task)
    → IsKeyed ts
    → get_task k ts ≡ some t
    → update_task_status k status summary error ts ≡ (r, ts')
    → ((get_tasks_today_summary today_start (unchanged ts')).total
        ≡ (get_tasks_today_summary today_start (unchanged ts)).total)
      × ((get_tasks_today_summary today_start (unchanged ts')).completed
            + share today_start t t.status "completed"
          ≡ (get_tasks_today_summary today_start (unchanged ts)).completed
            + share today_start t status "completed")
      × ((get_tasks_today_summary today_start (unchanged ts')).pending
            + share today_start t t.status "pending"
          ≡ (get_tasks_today_summary today_start (unchanged ts)).pending
            + share today_start t status "pending")
      × ((get_tasks_today_summary today_start (unchanged ts')).failed
            + share today_start t t.status "failed"
          ≡ (get_tasks_today_summary today_start (unchanged ts)).failed
            + share today_start t status "failed")
unfolding get_tasks_today_summary update_task_status
get_tasks_today_summary-update_task_status today_start k status summary error ts ts' t r keyed there
      h =
    let x : Task = with_status status summary error t in
    let same : (some x, save_task x ts) ≡ (r, ts') = ground arith in
    let saved : save_task x ts ≡ ts' = ap (λ (p : Option Task × List Task). p.1) same in
    let count = λ (q : Option String).
      ap (λ us. count_since today_start q us + total_share today_start t q) (sym saved)
      ∙ count_since-save_task today_start k q t x ts keyed there (found_id k ts t there) in
    let all : count_since today_start none ts' + total_share today_start t none
        ≡ count_since today_start none ts + total_share today_start t none =
      count none in
    (
      same_left (total_share today_start t none) all,
      count (some "completed"),
      count (some "pending"),
      count (some "failed"),
    )
