-- ===== src/Approval/Service.antt =====
-- src/operator-approval.ts: `OperatorApprovalService`. `hash` (SHA-256), the checks of files, Kernel
-- and task, and the start of a process enter as arguments; `now` is the time of each call.
use chatgpt_remote_mcp.Base.{
  ℕ, Bool, true, false, ◌&&◌, not, Option, none, some, List, String, str_eq, ◌==◌, if◌then◌else◌,
  any, filter, find, take,
}
use chatgpt_remote_mcp.Errors.{
  Result, ok, err, ◌>>=◌, ◌>>◌, guard, or_throw, approval_disabled, approval_auth_required,
  approval_not_found, approval_already_consumed, idempotency_conflict,
}
use chatgpt_remote_mcp.Approval.{
  ApprovalRecord, ApprovalStore, Status, pending, approved, denied, executing, succeeded, unknown,
  Outcome, execution_not_verified, printed, read_records, mutate,
}
use chatgpt_remote_mcp.Approval.Ledger.{
  ApprovalInput, Binding, Decision, find_record, is_request, is_unresolved, is_expired, new_record,
  add_request, decide_records, reserve, set_session, mark_uncertain, finish_records,
}

pub record ApprovalConfig : Type 0 where
  pub enabled : Bool
  pub ttl_seconds : ℕ

-- The status that is shown: a request that nobody acted on in time is expired.
pub data ShownStatus : Type 0 where
  shown : Status → ShownStatus
  expired : ShownStatus

-- `nextAction` and `nextCall`.
pub data NextStep : Type 0 where
  wait_for_operator execute_approved poll_approval : NextStep
  inspect_without_retry continue_workflow stop_request : NextStep

-- The parts of the answer that the state decides; `approval_url` is there where it is a link.
pub record ApprovalView : Type 0 where
  pub approval_request_id : String
  pub status : ShownStatus
  pub approval_url : Bool
  pub approval_ref : Option String
  pub operation_id : Option String
  pub session_id : Option String
  pub result : Option Outcome
  pub next_step : NextStep

abbrev pub shown_status : ℕ → ApprovalRecord → ShownStatus
shown_status now r = elim r.status [
  | pending ↦ if is_expired now r then expired else shown pending
  | approved ↦ if is_expired now r then expired else shown approved
  | other ↦ shown other
]

abbrev pub next_step_of : ShownStatus → NextStep
next_step_of expired = stop_request
next_step_of (shown pending) = wait_for_operator
next_step_of (shown approved) = execute_approved
next_step_of (shown executing) = poll_approval
next_step_of (shown unknown) = inspect_without_retry
next_step_of (shown succeeded) = continue_workflow
next_step_of (shown denied) = stop_request

abbrev pub is_waiting : ShownStatus → Bool
is_waiting (shown pending) = true
is_waiting _ = false

pub view : ℕ → ApprovalRecord → ApprovalView
view now r =
    let status = shown_status now r in
    record {
      approval_request_id = r.id;
      status = status;
      approval_url = is_waiting status;
      approval_ref = r.approval_ref;
      operation_id = r.operation_id;
      session_id = r.session_id;
      result = r.result;
      next_step = next_step_of status;
    }

pub has_unresolved_execution : ApprovalConfig → String → ApprovalStore → Result Bool
has_unresolved_execution config task_id s =
    if not config.enabled
    then ok false
    else read_records
        (λ records. ok (any (λ r. str_eq r.task_id task_id && is_unresolved r) records)) s

pub execution_context : String → ApprovalStore → Result (List ApprovalRecord)
execution_context task_id s =
    read_records
      (λ records. ok (take 20 (filter (λ r. str_eq r.task_id task_id && is_unresolved r) records)))
      s

-- `then` on the result of a store operation that leaves a new store.
infixl 5 ◌>>>◌
abbrev pub ◌>>>◌ {ℓ κ} :
    {A : Type ℓ} {B : Type κ}
    → ApprovalStore × Result A
    → (ApprovalStore → A → ApprovalStore × Result B)
    → ApprovalStore × Result B
(s, ok a) >>> f = f s a
(s, err e) >>> f = (s, err e)

-- A check that reads and may throw, before the rest.
abbrev pub check {ℓ κ} :
    {A : Type ℓ} {B : Type κ}
    → Result A
    → ApprovalStore
    → (A → ApprovalStore × Result B)
    → ApprovalStore × Result B
check (ok a) s f = f a
check (err e) s f = (s, err e)

module _ (hash : String → String) (config : ApprovalConfig) where
  pub owner_of : Option String → Result String
  owner_of principal = do
    guard config.enabled approval_disabled
    name ← or_throw principal approval_auth_required
    ok (hash name)

  -- `request`: `serialized` is the input as JSON, `binding` what the checks find or throw, `id` and
  -- `view_token` are random.
  pub request :
      ApprovalInput
      → String
      → Option String
      → Result Binding
      → String
      → String
      → Bool
      → ℕ
      → ApprovalStore
      → ApprovalStore × Result ApprovalView
  unfolding owner_of
  request input serialized principal binding id view_token persisted now s =
      check (owner_of principal) s λ owner.
        let digest = hash serialized in
        check (read_records (λ rs. ok (find (is_request owner input.request_id) rs)) s) s
          λ duplicate. elim duplicate [
            | some r ↦
                if str_eq r.input_digest digest
                then (s, ok (view now r))
                else (s, err idempotency_conflict)
            | none ↦ check binding s λ b.
                mutate
                  (add_request
                    (new_record input b owner digest id view_token now config.ttl_seconds))
                  persisted s
                >>> λ s' r. (s', ok (view now r))
          ]

  pub get : String → Option String → ℕ → ApprovalStore → Result ApprovalView
  unfolding owner_of
  get id principal now s = do
    owner ← owner_of principal
    read_records (λ rs. do r ← find_record rs id (some owner); ok (view now r)) s

  pub browser_record : String → String → ApprovalStore → Result ApprovalRecord
  browser_record id view_token s = do
    guard config.enabled approval_disabled
    read_records
        (λ rs. do
          r ← find_record rs id none
          guard (str_eq r.view_token view_token) approval_not_found
          ok r)
        s

  -- `decide`; `ref` is the random approval reference.
  pub decide :
      String
      → String
      → Decision
      → String
      → Bool
      → ℕ
      → ApprovalStore
      → ApprovalStore × Result (Unit {0})
  unfolding browser_record
  decide id view_token decision ref persisted now s =
      check (browser_record id view_token s) s
        λ _. mutate (decide_records id decision now ref) persisted s

  -- After the reservation: `session` is the started process, `none` where the start threw. The
  -- second write follows where the start or the first write failed.
  record_start :
      String → Option String → Bool → Bool → ApprovalStore → ApprovalStore × Result (Unit {0})
  record_start id none first second s = mutate (mark_uncertain id) second s
  record_start id (some session_id) first second s =
      let (s', written) = mutate (set_session id session_id) first s in
      elim written [ ok _ ↦ (s', ok tt) | err _ ↦ mutate (mark_uncertain id) second s' ]

  -- `execute`, under the workspace lock; `task` is the outcome of `activeTask`.
  pub execute :
      String
      → String
      → Option String
      → Result String
      → Option String
      → Bool
      → Bool
      → Bool
      → ℕ
      → ApprovalStore
      → ApprovalStore × Result ApprovalView
  unfolding owner_of record_start get
  execute id operation_id principal task session reserved first second now s =
      check (owner_of principal) s λ owner.
        check (read_records (λ rs. find_record rs id (some owner)) s) s λ existing.
          elim existing.operation_id [
            | some o ↦
                if str_eq o operation_id
                then (s, ok (view now existing))
                else (s, err approval_already_consumed)
            | none ↦ check task s λ _.
                mutate (reserve id owner operation_id now) reserved s >>> λ s' reservation.
                if not reservation.1
                then (s', ok (view now reservation.0))
                else record_start id session first second s' >>> λ s'' _.
                    (s'', get id principal now s'')
          ]

-- What `finish` reads of the process: its event and, unless reading or parsing threw, its output.
pub record WorkerEnd : Type 0 where
  pub exit_code : Option ℕ
  pub timed_out : Bool
  pub spawn_failed : Bool
  pub session_id : String
  pub ended_at : ℕ

pub record WorkerOutput : Type 0 where
  pub status : Option String
  pub has_more : Bool
  pub dropped_output_bytes : ℕ

-- The result is what was printed only if all of the output was read.
abbrev pub outcome_of : Option WorkerOutput → Outcome
outcome_of none = execution_not_verified
outcome_of (some o) =
    if not o.has_more && o.dropped_output_bytes == 0
    then printed o.status
    else execution_not_verified

abbrev pub is_exit_zero : Option ℕ → Bool
is_exit_zero none = false
is_exit_zero (some n) = n == 0

abbrev pub reports_success : Outcome → Bool
reports_success (printed (some status)) = str_eq status "succeeded"
reports_success _ = false

-- Where reading or parsing threw, `succeeded` keeps its first value, `false`.
pub is_success : WorkerEnd → Option WorkerOutput → Bool
is_success e none = false
is_success e (some o) =
    is_exit_zero e.exit_code
    && not e.timed_out
    && not e.spawn_failed
    && reports_success (outcome_of (some o))

pub finish :
    String
    → WorkerEnd
    → Option WorkerOutput
    → Bool
    → ApprovalStore
    → ApprovalStore × Result (Unit {0})
unfolding is_success
finish id e output persisted s =
    mutate (finish_records id (is_success e output) e.ended_at e.session_id (outcome_of output))
      persisted s
