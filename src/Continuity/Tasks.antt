-- ===== src/Continuity/Tasks.antt =====
-- src/continuity/task-service.ts: creating, updating and completing the task of a workspace. The
-- mutation runs under the lock of the workspace, so it is one step; `written` says whether the commit
-- succeeded, and the HMAC of the input, the observation and the size of a checkpoint are given.
use chatgpt_remote_mcp.Base.{
  ℕ, suc, Bool, true, false, ◌&&◌, ◌||◌, not, Option, none, some, List, [], ◌∷◌, String, str_eq,
  ltb, ◌==◌, Dict, lookup, put, values, if◌then◌else◌, length, map, filter, is_some,
}
use chatgpt_remote_mcp.Errors.{
  Result, ok, err, ◌>>=◌, ◌>>◌, guard, storage_full, idempotency_conflict, unknown_task,
  task_closed, active_task_conflict, revision_conflict, unresolved_execution,
  completion_checkpoint_conflict, persistence_unavailable,
}
use chatgpt_remote_mcp.Continuity
use chatgpt_remote_mcp.Continuity.{
  TaskStatus, active, completed, abandoned, prepared, running, exited, spawn_failed, unknown,
  EvidenceRef, external_effect_unknown, Resolution, verified_no_retry, superseded,
  ExecutionReconciliation, WorkCheckpoint, WorkspaceObservation, TaskRecord, MutationKind, creates,
  updates, completes, MutationResult, MutationDedupeRecord, WorkspaceState, WorkspaceIdentityRecord,
  ExecutionRecord, Workspace, FinalCheckpoint, same_kind, same_state, same_status,
}
use chatgpt_remote_mcp.Continuity.Executions.{Step, is_task, with_reconciliations}

-- A checkpoint as the caller gives it; its reconciliations get their time when it is recorded.
pub record CheckpointInput : Type 0 where
  pub checkpoint : WorkCheckpoint
  pub bytes : ℕ

abbrev pub with_time : ℕ → ExecutionReconciliation → ExecutionReconciliation
with_time now c = record c { recorded_at = now }

abbrev pub normalize_checkpoint : ℕ → CheckpointInput → WorkCheckpoint
normalize_checkpoint now input = record input.checkpoint {
  execution_reconciliations = elim input.checkpoint.execution_reconciliations [
    | none ↦ none
    | some cs ↦ some (map (with_time now) cs)
  ];
}

-- What each mutation computes before the lock: the HMAC of its input, the observation, and the identity of
-- the workspace, which `create` writes.
pub record Mutation : Type 0 where
  pub request_id : String
  pub input_hmac : String
  pub observation : WorkspaceObservation
  pub identity : WorkspaceIdentityRecord
  pub now : ℕ
  pub written : Bool

abbrev pub check_dedupe :
    WorkspaceState → String → MutationKind → String → Result (Option MutationResult)
check_dedupe state request_id kind input_hmac = elim (lookup request_id state.mutation_dedupe) [
  | none ↦ ok none
  | some existing ↦
      if same_kind existing.kind kind && str_eq existing.input_hmac input_hmac
      then ok (some existing.result)
      else err idempotency_conflict
]

abbrev pub dedupe_record : Mutation → String → MutationKind → MutationResult → MutationDedupeRecord
dedupe_record mu task_id kind result = record {
  request_id = mu.request_id;
  task_id = task_id;
  kind = kind;
  input_hmac = mu.input_hmac;
  result = result;
  recorded_at = mu.now;
}

abbrev pub require_active_task : WorkspaceState → String → Result TaskRecord
require_active_task state task_id = elim (lookup task_id state.tasks) [
  | none ↦ err unknown_task
  | some task ↦
      if not (same_status task.status active) || not (is_task task_id state.active_task_id)
      then err task_closed
      else ok task
]

-- The mutation of a new request: a result, or what was thrown; a repeated one gives its first result.
abbrev pub once :
    Mutation → MutationKind → Workspace → Result (Workspace × MutationResult) → Step MutationResult
once mu kind w fresh = elim (check_dedupe w.state mu.request_id kind mu.input_hmac) [
  | err e ↦ (w, err e)
  | ok (some result) ↦ (w, ok result)
  | ok none ↦ elim fresh [
    | err e ↦ (w, err e)
    | ok (w', result) ↦ if mu.written then (w', ok result) else (w, err persistence_unavailable)
  ]
]

-- The state that a mutation writes.
abbrev pub record_mutation :
    Mutation
    → MutationKind
    → Option String
    → TaskRecord
    → MutationResult
    → WorkspaceState
    → WorkspaceState
record_mutation mu kind active_task_id task result state = record state {
  workspace_revision = suc state.workspace_revision;
  active_task_id = active_task_id;
  tasks = put task.task_id task state.tasks;
  mutation_dedupe =
      put mu.request_id (dedupe_record mu task.task_id kind result) state.mutation_dedupe;
}

abbrev pub result_of : WorkspaceState → TaskRecord → Option (List String) → MutationResult
result_of state task unresolved_unknown = record {
  task_id = task.task_id;
  workspace_id = state.workspace.workspace_id;
  revision = task.revision;
  workspace_revision = suc state.workspace_revision;
  status = task.status;
  unresolved_unknown = unresolved_unknown;
}

-- `create`; `task_id` is the new `randomUUID`.
abbrev pub new_task : Mutation → String → String → CheckpointInput → TaskRecord
new_task mu task_id objective input = record {
  task_id = task_id;
  objective = objective;
  status = active;
  revision = 1;
  created_at = mu.now;
  updated_at = mu.now;
  completed_at = none;
  summary = none;
  checkpoint = normalize_checkpoint mu.now input;
  last_observed_workspace = mu.observation;
}

unfoldable pub create_fresh :
    Mutation → String → String → CheckpointInput → Workspace → Result (Workspace × MutationResult)
create_fresh mu task_id objective input w = do
  guard (not (is_some w.state.active_task_id)) active_task_conflict
  let state = record w.state { workspace = mu.identity }
  let task = new_task mu task_id objective input
  let result = result_of state task none
  ok (record w { state = record_mutation mu creates (some task_id) task result state }, result)

unfoldable pub create :
    ℕ → Mutation → String → String → CheckpointInput → Workspace → Step MutationResult
unfolding create_fresh
create checkpoint_max_bytes mu task_id objective input w =
    if ltb checkpoint_max_bytes input.bytes
    then (w, err storage_full)
    else once mu creates w (create_fresh mu task_id objective input w)

-- `update`.
abbrev pub updated_task : Mutation → CheckpointInput → TaskRecord → TaskRecord
updated_task mu input task = record task {
  revision = suc task.revision;
  updated_at = mu.now;
  checkpoint = normalize_checkpoint mu.now input;
  last_observed_workspace = mu.observation;
}

abbrev pub put_all : List ExecutionRecord → Dict ExecutionRecord → Dict ExecutionRecord
put_all [] d = d
put_all (r ∷ rs) d = put_all rs (put r.operation_id r d)

abbrev pub reconciliations_of : WorkCheckpoint → List ExecutionReconciliation
reconciliations_of c = elim c.execution_reconciliations [ none ↦ [] | some cs ↦ cs ]

unfoldable pub update_fresh :
    (String → String → Bool)
    → Mutation
    → String
    → ℕ
    → CheckpointInput
    → Workspace
    → Result (Workspace × MutationResult)
update_fresh before mu task_id expected_revision input w = do
  task ← require_active_task w.state task_id
  guard (task.revision == expected_revision) revision_conflict
  let task' = updated_task mu input task
  let result = result_of w.state task' none
  receipts ← with_reconciliations before task_id (reconciliations_of task'.checkpoint) w.executions
  ok (
    record w {
      state = record_mutation mu updates w.state.active_task_id task' result w.state;
      executions = put_all receipts w.executions;
    },
    result,
  )

unfoldable pub update :
    (String → String → Bool)
    → ℕ
    → Mutation
    → String
    → ℕ
    → CheckpointInput
    → Workspace
    → Step MutationResult
unfolding update_fresh
update before checkpoint_max_bytes mu task_id expected_revision input w =
    if ltb checkpoint_max_bytes input.bytes
    then (w, err storage_full)
    else if not (is_some (lookup task_id w.state.tasks))
    then (w, err unknown_task)
    else once mu updates w (update_fresh before mu task_id expected_revision input w)

-- `complete`.
pub data CompletionOutcome : Type 0 where
  as_completed as_abandoned : CompletionOutcome

abbrev pub status_of : CompletionOutcome → TaskStatus
status_of as_completed = completed
status_of as_abandoned = abandoned

abbrev pub phase_of : CompletionOutcome → String
phase_of as_completed = "completed"
phase_of as_abandoned = "abandoned"

pub record CompleteInput : Type 0 where
  pub task_id : String
  pub expected_revision : ℕ
  pub outcome : CompletionOutcome
  pub summary : String
  pub evidence_refs : List EvidenceRef
  pub final_checkpoint : Option FinalCheckpoint

-- The executions that stand in the way of a completion.
abbrev pub is_unresolved : CompletionOutcome → ExecutionRecord → Bool
is_unresolved outcome r = elim r.state [
  | prepared ↦ true
  | running ↦ true
  | unknown ↦ elim outcome [
    | as_abandoned ↦ false
    | as_completed ↦ elim r.caller_resolution [
      | none ↦ true
      | some c ↦ elim c.resolution [ external_effect_unknown ↦ true | _ ↦ false ]
    ]
  ]
  | _ ↦ false
]

abbrev pub of_task : String → ExecutionRecord → Bool
of_task task_id r = str_eq r.task_id task_id

-- The checkpoint of the task as a candidate for the final one.
abbrev pub as_final : WorkCheckpoint → FinalCheckpoint
as_final c = record {
  phase = c.phase;
  done = c.done;
  current = c.current;
  remaining = c.remaining;
  changed_paths = c.changed_paths;
  blockers = c.blockers;
  has_evidence_refs = true;
  has_execution_reconciliations = is_some c.execution_reconciliations;
}

abbrev pub candidate_of : CompleteInput → TaskRecord → FinalCheckpoint
candidate_of input task = elim input.final_checkpoint [
  | none ↦ as_final task.checkpoint
  | some c ↦ c
]

abbrev pub is_bad_final : Option FinalCheckpoint → Bool
is_bad_final none = false
is_bad_final (some c) =
    ltb 2048 (length c.current) || c.has_evidence_refs || c.has_execution_reconciliations

abbrev pub terminal_checkpoint : CompleteInput → TaskRecord → WorkCheckpoint
terminal_checkpoint input task =
    let c = candidate_of input task in
    record {
      phase = phase_of input.outcome;
      done = c.done;
      current = c.current;
      remaining = c.remaining;
      changed_paths = c.changed_paths;
      evidence_refs = input.evidence_refs;
      blockers = c.blockers;
      execution_reconciliations = task.checkpoint.execution_reconciliations;
    }

abbrev pub completed_task : Mutation → CompleteInput → TaskRecord → TaskRecord
completed_task mu input task = record task {
  status = status_of input.outcome;
  revision = suc task.revision;
  updated_at = mu.now;
  completed_at = some mu.now;
  summary = some input.summary;
  checkpoint = terminal_checkpoint input task;
}

abbrev pub is_completed_outcome : CompletionOutcome → Bool
is_completed_outcome as_completed = true
is_completed_outcome as_abandoned = false

abbrev pub unknown_of : CompletionOutcome → List ExecutionRecord → List String
unknown_of as_completed rs = []
unknown_of as_abandoned rs = map (λ r. r.operation_id) (filter (λ r. same_state r.state unknown) rs)

-- `blocked` is the answer of `additionalCompletionBlocker`, `size` the bytes of a checkpoint.
unfoldable pub complete_fresh :
    (WorkCheckpoint → ℕ)
    → ℕ
    → Bool
    → Mutation
    → CompleteInput
    → Workspace
    → Result (Workspace × MutationResult)
complete_fresh size checkpoint_max_bytes blocked mu input w = do
  task ← require_active_task w.state input.task_id
  guard (task.revision == input.expected_revision) revision_conflict
  let receipts = filter (of_task input.task_id) (values w.executions)
  guard (not blocked) unresolved_execution
  guard (length (filter (is_unresolved input.outcome) receipts) == 0) unresolved_execution
  guard
      (not (
        is_completed_outcome input.outcome
        && Continuity.completion_checkpoint_conflict (candidate_of input task)))
      completion_checkpoint_conflict
  guard (not (is_bad_final input.final_checkpoint)) completion_checkpoint_conflict
  guard (not (ltb checkpoint_max_bytes (size (terminal_checkpoint input task)))) storage_full
  let task' = completed_task mu input task
  let result = result_of w.state task' (some (unknown_of input.outcome receipts))
  ok (record w { state = record_mutation mu completes none task' result w.state }, result)

unfoldable pub complete :
    (WorkCheckpoint → ℕ) → ℕ → Bool → Mutation → CompleteInput → Workspace → Step MutationResult
unfolding complete_fresh
complete size checkpoint_max_bytes blocked mu input w =
    if not (is_some (lookup input.task_id w.state.tasks))
    then (w, err unknown_task)
    else once mu completes w (complete_fresh size checkpoint_max_bytes blocked mu input w)
