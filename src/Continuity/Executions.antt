-- ===== src/Continuity/Executions.antt =====
-- src/continuity/execution-recorder.ts: the receipts of executions. Each operation runs under the lock
-- of its receipt, so it is one step; `written` says whether `writeExecution` succeeded.
use chatgpt_remote_mcp.Base.{
  same_option, ℕ, Bool, true, false, ◌&&◌, ◌||◌, not, Option, none, some, List, [], ◌∷◌, String,
  str_eq, Dict, lookup, put, if◌then◌else◌, mem, map,
}
use chatgpt_remote_mcp.Errors.{
  Result, ok, err, ◌>>=◌, unknown_task, task_closed, idempotency_conflict, state_corrupt,
  workspace_mismatch, persistence_unavailable,
}
use chatgpt_remote_mcp.Continuity.{
  active, prepared, running, exited, spawn_failed, unknown, EvidenceKind, receipt, artifact,
  EvidenceRef, Resolution, verified_no_retry, external_effect_unknown, superseded,
  ExecutionReconciliation, ToolKind, fine, degraded, ExecutionRecord, Workspace, same_status,
  same_tool, same_state,
}

pub record ExecutionPreparation : Type 0 where
  pub receipt_of : ExecutionRecord
  pub should_spawn : Bool

pub record ExecutionTerminalObservation : Type 0 where
  pub session_id : String
  pub exit_code : Option ℕ
  pub signal : Option String
  pub timed_out : Bool
  pub spawn_failure : Bool
  pub total_output_bytes : ℕ
  pub error_code : Option String

pub record PrepareInput : Type 0 where
  pub task_id : String
  pub operation_id : String
  pub tool_kind : ToolKind
  pub input_hmac : String

abbrev pub is_task : String → Option String → Bool
is_task id none = false
is_task id (some a) = str_eq a id

-- A step of a workspace: the new state, and the value returned or what was thrown.
abbrev pub Step {ℓ} : Type ℓ → Type ℓ
Step A = Workspace × Result A

-- Writing a receipt.
abbrev pub write_execution {ℓ} : {A : Type ℓ} → ExecutionRecord → A → Bool → Workspace → Step A
write_execution r a written w =
    if written
    then (record w { executions = put r.operation_id r w.executions }, ok a)
    else (w, err persistence_unavailable)

-- `require`, and what the caller does with the receipt.
abbrev pub with_execution {ℓ} :
    {A : Type ℓ} → String → (ExecutionRecord → Step A) → Workspace → Step A
with_execution operation_id f w = elim (lookup operation_id w.executions) [
  | none ↦ (w, err state_corrupt)
  | some r ↦ f r
]

-- Whether a known receipt is of the same execution.
abbrev pub is_same_execution : PrepareInput → String → ExecutionRecord → Bool
is_same_execution input workspace_id existing =
    str_eq existing.task_id input.task_id
    && str_eq existing.workspace_id workspace_id
    && same_tool existing.tool_kind input.tool_kind
    && str_eq existing.input_hmac input.input_hmac

abbrev pub new_execution : PrepareInput → String → String → ℕ → ExecutionRecord
new_execution input workspace_id boot_id now = record {
  operation_id = input.operation_id;
  task_id = input.task_id;
  workspace_id = workspace_id;
  boot_id = boot_id;
  session_id = none;
  state = prepared;
  tool_kind = input.tool_kind;
  input_hmac = input.input_hmac;
  prepared_at = now;
  started_at = none;
  ended_at = none;
  exit_code = none;
  signal = none;
  timed_out = none;
  output_bytes = none;
  persistence_state = fine;
  error_code = none;
  caller_resolution = none;
}

unfoldable pub prepare : PrepareInput → String → ℕ → Bool → Workspace → Step ExecutionPreparation
prepare input boot_id now written w =
    let workspace_id = w.state.workspace.workspace_id in
    elim (lookup input.task_id w.state.tasks) [
      | none ↦ (w, err unknown_task)
      | some task ↦
          if not (same_status task.status active && is_task input.task_id w.state.active_task_id)
          then (w, err task_closed)
          else elim (lookup input.operation_id w.executions) [
            | some existing ↦
                if is_same_execution input workspace_id existing
                then (w, ok (record { receipt_of = existing; should_spawn = false }))
                else (w, err idempotency_conflict)
            | none ↦
                let new = new_execution input workspace_id boot_id now in
                write_execution new (record { receipt_of = new; should_spawn = true }) written w
          ]
    ]

unfoldable pub mark_running : String → String → ℕ → Bool → Workspace → Step ExecutionRecord
mark_running operation_id session_id now written = λ w.
    with_execution operation_id
      (λ r.
        if same_state r.state running && is_task session_id r.session_id
        then (w, ok r)
        else if not (same_state r.state prepared)
        then (w, ok r)
        else let r' : ExecutionRecord = record r {
          session_id = some session_id;
          state = running;
          started_at = some now;
        } in
          write_execution r' r' written w)
      w

unfoldable pub mark_spawn_failed : String → String → ℕ → Bool → Workspace → Step ExecutionRecord
mark_spawn_failed operation_id error_code now written = λ w.
    with_execution operation_id
      (λ r.
        if not (same_state r.state prepared)
        then (w, ok r)
        else let r' : ExecutionRecord = record r {
          state = spawn_failed;
          ended_at = some now;
          error_code = some error_code;
        } in
          write_execution r' r' written w)
      w

-- `a ?? b`.
abbrev pub or_else {ℓ} : {A : Type ℓ} → Option A → Option A → Option A
or_else none b = b
or_else (some a) b = some a

abbrev pub write_terminal : ExecutionTerminalObservation → ℕ → ExecutionRecord → ExecutionRecord
write_terminal o now r = record r {
  session_id = some o.session_id;
  state = if o.spawn_failure then spawn_failed else exited;
  started_at = or_else r.started_at (some r.prepared_at);
  ended_at = some now;
  exit_code = o.exit_code;
  signal = o.signal;
  timed_out = some o.timed_out;
  output_bytes = some o.total_output_bytes;
  error_code = or_else o.error_code r.error_code;
}

unfoldable pub mark_terminal :
    String → String → ExecutionTerminalObservation → ℕ → Bool → Workspace → Step ExecutionRecord
mark_terminal boot_id operation_id o now written = λ w.
    with_execution operation_id
      (λ r.
        if same_state r.state exited || same_state r.state spawn_failed
        then (w, ok r)
        else if same_state r.state unknown && not (str_eq r.boot_id boot_id)
        then (w, ok r)
        else let r' = write_terminal o now r in write_execution r' r' written w)
      w

-- A receipt that is missing or cannot be written is left alone.
unfoldable pub mark_persistence_degraded : String → Bool → Workspace → Workspace
mark_persistence_degraded operation_id written w = elim (lookup operation_id w.executions) [
  | none ↦ w
  | some r ↦
      let step : Step (Unit {0}) =
        write_execution (record r { persistence_state = degraded }) tt written w in
      step.0
]

abbrev pub same_evidence_kind : EvidenceKind → EvidenceKind → Bool
same_evidence_kind receipt receipt = true
same_evidence_kind artifact artifact = true
same_evidence_kind _ _ = false

abbrev pub same_evidence : EvidenceRef → EvidenceRef → Bool
same_evidence a b =
    same_evidence_kind a.kind b.kind
    && same_option a.operation_id b.operation_id
    && same_option a.path b.path
    && same_option a.sha256 b.sha256
    && same_option a.workspace_fingerprint b.workspace_fingerprint

abbrev pub same_evidences : List EvidenceRef → List EvidenceRef → Bool
same_evidences [] [] = true
same_evidences (a ∷ as') (b ∷ bs) = same_evidence a b && same_evidences as' bs
same_evidences _ _ = false

abbrev pub same_resolution : Resolution → Resolution → Bool
same_resolution verified_no_retry verified_no_retry = true
same_resolution external_effect_unknown external_effect_unknown = true
same_resolution superseded superseded = true
same_resolution _ _ = false

-- The same resolution but for the time at which it was recorded.
abbrev pub is_same_reconciliation : ExecutionReconciliation → ExecutionReconciliation → Bool
is_same_reconciliation a b =
    same_resolution a.resolution b.resolution
    && same_option a.note b.note
    && same_evidences a.evidence_refs b.evidence_refs

unfoldable pub reconcile : String → ExecutionReconciliation → Bool → Workspace → Step (Unit {0})
reconcile task_id c written = λ w.
    with_execution c.operation_id
      (λ r.
        if not (str_eq r.task_id task_id)
        then (w, err workspace_mismatch)
        else if not (same_state r.state unknown)
        then (w, err idempotency_conflict)
        else elim r.caller_resolution [
          | some previous ↦
              if is_same_reconciliation previous c
              then (w, ok tt)
              else (w, err idempotency_conflict)
          | none ↦ write_execution (record r { caller_resolution = some c }) tt written w
        ])
      w

-- The check of one reconciliation of `withReconciliations`, and the receipt to commit.
unfoldable pub reconciled :
    String → ExecutionReconciliation → Dict ExecutionRecord → Result ExecutionRecord
reconciled task_id c executions = elim (lookup c.operation_id executions) [
  | none ↦ err state_corrupt
  | some r ↦
      if not (str_eq r.task_id task_id)
      then err workspace_mismatch
      else if not (same_state r.state unknown)
      then err idempotency_conflict
      else elim r.caller_resolution [
        | some previous ↦
            if is_same_reconciliation previous c then ok r else err idempotency_conflict
        | none ↦ ok (record r { caller_resolution = some c })
      ]
]

abbrev pub has_duplicate : List String → Bool
has_duplicate [] = false
has_duplicate (k ∷ ks) = mem k ks || has_duplicate ks

-- The order of the locks; `before` is `localeCompare`.
abbrev pub insert_by_id :
    (String → String → Bool)
    → ExecutionReconciliation
    → List ExecutionReconciliation
    → List ExecutionReconciliation
insert_by_id before c [] = c ∷ []
insert_by_id before c (d ∷ ds) =
    if before d.operation_id c.operation_id then d ∷ insert_by_id before c ds else c ∷ d ∷ ds

abbrev pub sort_by_id :
    (String → String → Bool) → List ExecutionReconciliation → List ExecutionReconciliation
sort_by_id before [] = []
sort_by_id before (c ∷ cs) = insert_by_id before c (sort_by_id before cs)

unfoldable pub collect :
    String → List ExecutionReconciliation → Dict ExecutionRecord → Result (List ExecutionRecord)
collect task_id [] executions = ok []
collect task_id (c ∷ cs) executions = do
  r ← reconciled task_id c executions
  rs ← collect task_id cs executions
  ok (r ∷ rs)

-- `withReconciliations`, up to the commit.
unfoldable pub with_reconciliations :
    (String → String → Bool)
    → String
    → List ExecutionReconciliation
    → Dict ExecutionRecord
    → Result (List ExecutionRecord)
with_reconciliations before task_id cs executions =
    if has_duplicate (map (λ c. c.operation_id) cs)
    then err idempotency_conflict
    else collect task_id (sort_by_id before cs) executions
