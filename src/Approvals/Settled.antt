-- ===== src/Approvals/Settled.antt =====
-- A resolution is made once: `resolve_sandbox_approval` of
-- app/services/company_os_sandbox_approval_service.py, called again.
use polsia_build.Common.{
  Bool, Bool-cases, Option, String, ap, arith, contains, eq_iff, eqb, eqb_iff, false, first,
  first-some, inl, inr, none, not, refl, some, subst, sym, true, ◌==◌, ◌∙◌, ◌≡◌, ◌⊎◌,
}
use polsia_build.Approvals.Binding.{bound_rows, need, refuse_if, statuses}
use polsia_build.Approvals.Resolve.{
  Checked, Resolution, check_unchanged, event_at, is_minutes, is_replay, read_resolution,
  resolve_pending, resolve_sandbox_approval, resolved_row, same_text, suits_resolution,
}
use polsia_build.Coordinator.Inputs.{Runtime}
use polsia_build.Raises.{>>=-eq-ok, item, ok, ok_injective, or_raise-some, raise_if-eq-ok, ◌>>◌}
use polsia_build.Sandbox.{Db, SandboxApproval, SandboxEvent, approval_by_id, update_approval}
use polsia_build.Sandbox.Log.{replay}
use polsia_build.Sandbox.Rows.{
  IsPlaced, append_sandbox_event-events, event_by_id-appended, update_approval-events,
  update_approval-found,
}
use polsia_build.Value.{Value, eq, null, num}
use polsia_build.Value.Laws.{number_eq_self}
use polsia_build.Workflow.{as_nonempty}

-- What a resolution that returned leaves: a row that is not pending, that names the event returned,
-- and that the same resolution is a replay of.
pub record IsSettled (c : Resolution) (x : Checked) (db : Db) (r : Option SandboxEvent)
    : Type 0 where
  pub row : SandboxApproval
  pub here : approval_by_id c.approval_id db ≡ some row
  pub status : row.status ≡ c.status
  pub settled : (row.status == "pending") ≡ false
  pub gives : r ≡ event_at row.resolution_event_id db
  pub same : eq c.corrected_decision c.corrected_decision ≡ true → is_replay c x row ≡ true

never_pending : (s : String) → contains statuses s ≡ true → (s == "pending") ≡ false
never_pending s h = elim (Bool-cases (s == "pending")) [
  | inl t ↦
      let no : contains statuses "pending" ≡ true =
        subst (λ x. contains statuses x ≡ true) ((eq_iff s "pending").0 t) h in
      absurd (ground (arith, no))
  | inr f ↦ f
]

same_text_self : (o : Option String) → same_text o o ≡ true
same_text_self none = refl
same_text_self (some s) = (eq_iff s s).1 refl

minutes_self : (v : Value) → is_minutes v ≡ true → eq v v ≡ true
unfolding eq
minutes_self (num n) h = number_eq_self n
minutes_self null h = cc
minutes_self _ h = cc

read_resolution-valid :
    (b : Bool) (c : Resolution) (x : Checked)
    → read_resolution b c ≡ ok x
    → (b ≡ true) × (contains statuses c.status ≡ true) × (is_minutes c.founder_minutes ≡ true)
unfolding read_resolution
read_resolution-valid b c x h =
    let (on, h1) = raise_if-eq-ok (not b) _ _ _ h in
    let (status, h2) = raise_if-eq-ok (not (contains statuses c.status)) _ _ _ h1 in
    let (_, _, h3) = >>=-eq-ok (need (as_nonempty c.founder_id) _) _ h2 in
    let (_, _, h4) = >>=-eq-ok (need (as_nonempty c.resolution_key) _) _ h3 in
    let (minutes, _) = raise_if-eq-ok (not (is_minutes c.founder_minutes)) _ _ _ h4 in
    (ground arith, ground arith, ground arith)

resolved_row-is_replay :
    (c : Resolution) (x : Checked) (a : SandboxApproval) (e : SandboxEvent)
    → is_minutes c.founder_minutes ≡ true
    → eq c.corrected_decision c.corrected_decision ≡ true
    → is_replay c x (resolved_row c x a e) ≡ true
unfolding is_replay
resolved_row-is_replay c x a e m h = ground (
  arith,
  (eq_iff c.status c.status).1 refl,
  (eq_iff x.founder_id x.founder_id).1 refl,
  (eq_iff x.resolution_key x.resolution_key).1 refl,
  minutes_self c.founder_minutes m,
  same_text_self x.manual_evidence_ref,
)

replay-status :
    (c : Resolution) (x : Checked) (a : SandboxApproval)
    → is_replay c x a ≡ true
    → a.status ≡ c.status
unfolding is_replay
replay-status c x a replay = (eq_iff a.status c.status).0 (ground arith)

replayed :
    (m : Bool) (c : Resolution) (x : Checked) (a : SandboxApproval)
    → read_resolution m c ≡ ok x
    → is_replay c x a ≡ true
    → (a.status == "pending") ≡ false
replayed m c x a read replay =
    let (_, status, _) = read_resolution-valid m c x read in
    ap (λ s. s == "pending") (replay-status c x a replay) ∙ never_pending c.status status

abbrev row_or : SandboxApproval → Option SandboxApproval → SandboxApproval
row_or a none = a
row_or a (some b) = b

some_row : {a b : SandboxApproval} → some a ≡ some b → a ≡ b
some_row {a = a} {b = b} h = ap (λ (o : Option SandboxApproval). row_or a o) h

module _ {W : Type 0} (lib : Runtime W) where
  resolve_pending-IsSettled :
      (c : Resolution) (x : Checked) (a : SandboxApproval) (db db' : Db) (r : Option SandboxEvent)
      → resolve_pending lib c x a db ≡ ok (r, db')
      → read_resolution lib.sandbox_mode c ≡ ok x
      → approval_by_id c.approval_id db ≡ some a
      → IsPlaced db
      → IsSettled c x db' r
  unfolding resolve_pending
  resolve_pending-IsSettled c x a db db' r h read f p =
      let (b, _, h1) = >>=-eq-ok (bound_rows a (suits_resolution a) _ db) _ h in
      let (_, _, h2) = >>=-eq-ok (check_unchanged c b) _ h1 in
      let (refs, _, h3) = >>=-eq-ok (item b.request.payload "evidence_refs") _ h2 in
      let (agent, _, h4) = >>=-eq-ok (item b.request.payload "agent_type") _ h3 in
      let ((e, after), stored, h5) = >>=-eq-ok _ _ h4 in
      let (done, updated, h6) = >>=-eq-ok (update_approval (resolved_row c x a e) after) _ h5 in
      let made = ok_injective h6 in
      let (_, rows, _) = append_sandbox_event-events lib.invalid _ db after e stored in
      let kept = update_approval-events (resolved_row c x a e) after done updated in
      let (hit, _) =
        first-some (λ (z : SandboxApproval). eqb z.id c.approval_id) db.approvals a f in
      let (_, status, minutes) = read_resolution-valid lib.sandbox_mode c x read in
      subst (λ (t : Option SandboxEvent × Db). IsSettled c x t.1 t.0) made
        (record {
          row = resolved_row c x a e;
          here =
              update_approval-found c.approval_id a (resolved_row c x a e) after done updated
                (ap (first (λ (z : SandboxApproval). eqb z.id c.approval_id)) rows ∙ f)
                ((eqb_iff a.id c.approval_id).0 hit);
          status = refl;
          settled = never_pending c.status status;
          gives = sym (
              ap (first (λ (f : SandboxEvent). eqb f.id e.id)) kept
              ∙ event_by_id-appended lib.invalid _ db after e stored p);
          same = resolved_row-is_replay c x a e minutes;
        })

  -- A resolution that returns either was made before, or is made now.
  pub resolve_of :
      (c : Resolution) (db db' : Db) (r : Option SandboxEvent)
      → resolve_sandbox_approval lib c db ≡ ok (r, db')
      → (x : Checked) × (a : SandboxApproval) × (read_resolution lib.sandbox_mode c ≡ ok x)
        × (approval_by_id c.approval_id db ≡ some a)
        × (((a.status == "pending") ≡ true) × (resolve_pending lib c x a db ≡ ok (r, db'))
            ⊎ ((is_replay c x a ≡ true) × (r ≡ event_at a.resolution_event_id db) × (db' ≡ db)))
  unfolding resolve_sandbox_approval
  resolve_of c db db' r h =
      let (x, read, h1) = >>=-eq-ok (read_resolution lib.sandbox_mode c) _ h in
      let (a, here, h2) = >>=-eq-ok (need (approval_by_id c.approval_id db) _) _ h1 in
      let found = or_raise-some (approval_by_id c.approval_id db) _ _ here in
      elim (Bool-cases (a.status == "pending")) [
        | inl t ↦ (x, a, read, found, inl (t, ground arith))
        | inr f ↦
            let replayed : (refuse_if (not (is_replay c x a))
                    "only pending approval may be resolved"
                  >> ok (event_at a.resolution_event_id db, db))
                ≡ ok (r, db') =
              ground arith in
            let passed = raise_if-eq-ok (not (is_replay c x a)) _ _ _ replayed in
            let same : not (is_replay c x a) ≡ false = passed.0 in
            let h3 : ok (event_at a.resolution_event_id db, db) ≡ ok (r, db') = passed.1 in
            let made = ok_injective h3 in
            (
              x,
              a,
              read,
              found,
              inr (
                ground arith,
                sym (ap (λ (t : Option SandboxEvent × Db). t.0) made),
                sym (ap (λ (t : Option SandboxEvent × Db). t.1) made),
              ),
            )
      ]

  pub resolve_sandbox_approval-IsSettled :
      (c : Resolution) (db db' : Db) (r : Option SandboxEvent)
      → resolve_sandbox_approval lib c db ≡ ok (r, db')
      → IsPlaced db
      → (x : Checked) × (read_resolution lib.sandbox_mode c ≡ ok x) × IsSettled c x db' r
  resolve_sandbox_approval-IsSettled c db db' r h p =
      let (x, a, read, here, rest) = resolve_of c db db' r h in
      elim rest [
        | inl (_, now) ↦ (x, read, resolve_pending-IsSettled c x a db db' r now read here p)
        | inr (replay, returns, kept) ↦ (
          x,
          read,
          record {
            row = a;
            here = ap (approval_by_id c.approval_id) kept ∙ here;
            status = replay-status c x a replay;
            settled = replayed lib.sandbox_mode c x a read replay;
            gives = returns ∙ ap (event_at a.resolution_event_id) (sym kept);
            same = λ _. replay;
          },
        )
      ]

-- An approval is resolved at most once. After a call has returned, a call of
-- `resolve_sandbox_approval` for the same approval, with whatever other arguments, that returns too
-- returns the same event and changes no table.
pub resolve_sandbox_approval-once :
    {W V : Type 0} (lib : Runtime W) (lib' : Runtime V) (c c' : Resolution) (db db' db'' : Db)
    (r r' : Option SandboxEvent)
    → resolve_sandbox_approval lib c db ≡ ok (r, db')
    → IsPlaced db
    → c'.approval_id ≡ c.approval_id
    → resolve_sandbox_approval lib' c' db' ≡ ok (r', db'')
    → (r' ≡ r) × (db'' ≡ db')
resolve_sandbox_approval-once lib lib' c c' db db' db'' r r' h p k g =
    let (x, _, done) = resolve_sandbox_approval-IsSettled lib c db db' r h p in
    let (x', a, _, here, rest) = resolve_of lib' c' db' db'' r' g in
    let e : some a ≡ some done.row = sym here ∙ ap (λ i. approval_by_id i db') k ∙ done.here in
    let same : a ≡ done.row = some_row e in
    elim rest [
      | inl (t, _) ↦
          absurd
            (ground (arith, done.settled, ap (λ (z : SandboxApproval). z.status == "pending") same))
      | inr (_, returns, kept) ↦ (
        returns
            ∙ ap (λ (z : SandboxApproval). event_at z.resolution_event_id db') same
            ∙ sym done.gives,
        kept,
      )
    ]

-- The same call made again returns the same event and changes no table, unless its correction holds
-- a value that is not equal to itself.
pub resolve_sandbox_approval-again :
    {W V : Type 0} (lib : Runtime W) (lib' : Runtime V) (c : Resolution) (db db' : Db)
    (r : Option SandboxEvent)
    → resolve_sandbox_approval lib c db ≡ ok (r, db')
    → IsPlaced db
    → lib'.sandbox_mode ≡ true
    → eq c.corrected_decision c.corrected_decision ≡ true
    → resolve_sandbox_approval lib' c db' ≡ ok (r, db')
unfolding resolve_sandbox_approval
resolve_sandbox_approval-again lib lib' c db db' r h p m self =
    let (x, read, done) = resolve_sandbox_approval-IsSettled lib c db db' r h p in
    let (on, _, _) = read_resolution-valid lib.sandbox_mode c x read in
    let again : read_resolution lib'.sandbox_mode c ≡ ok x =
      ap (λ b. read_resolution b c) (m ∙ sym on) ∙ read in
    ground (arith, again, done.here, done.settled, done.same self, done.gives)
