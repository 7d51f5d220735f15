-- ===== src/Continuity.antt =====
-- src/continuity/task-types.ts and src/continuity/completion-checkpoint.ts: what is kept of the tasks
-- and executions of one workspace. Times are milliseconds, `current` is a text by its UTF-16 units.
-- Left out are the schema versions, which are constant, and the mark of a task that was migrated.
pub mod Executions
pub mod Tasks
pub mod Journal
pub mod Moves
pub mod Kept
pub mod Retry
pub mod Once
pub mod Invariant
pub mod Completion
use chatgpt_remote_mcp.Base.{
  ℕ, Bool, true, false, ◌&&◌, ◌||◌, not, Option, none, some, List, [], ◌∷◌, String, str_eq, leb,
  ltb, ◌==◌, length, all, Dict, if◌then◌else◌,
}

pub data TaskStatus : Type 0 where
  active completed abandoned : TaskStatus

pub data ExecutionState : Type 0 where
  prepared running exited spawn_failed unknown : ExecutionState

pub data EvidenceKind : Type 0 where
  receipt artifact : EvidenceKind

pub record EvidenceRef : Type 0 where
  pub kind : EvidenceKind
  pub operation_id : Option String
  pub path : Option String
  pub sha256 : Option String
  pub workspace_fingerprint : Option String

pub data Resolution : Type 0 where
  verified_no_retry external_effect_unknown superseded : Resolution

pub record ExecutionReconciliation : Type 0 where
  pub operation_id : String
  pub resolution : Resolution
  pub evidence_refs : List EvidenceRef
  pub note : Option String
  pub recorded_at : ℕ

pub record WorkCheckpoint : Type 0 where
  pub phase : String
  pub done : List String
  pub current : List ℕ
  pub remaining : List String
  pub changed_paths : List String
  pub evidence_refs : List EvidenceRef
  pub blockers : List String
  pub execution_reconciliations : Option (List ExecutionReconciliation)

pub record WorkspaceIdentityRecord : Type 0 where
  pub workspace_id : String
  pub execution_root : String
  pub git_root : Option String
  pub git_common_dir : Option String
  pub worktree_identity : String
  pub repository : Bool

-- An observation by its fingerprint: the operations on tasks only store it.
pub record WorkspaceObservation : Type 0 where
  pub observed_at : ℕ
  pub fingerprint : String

pub record TaskRecord : Type 0 where
  pub task_id : String
  pub objective : String
  pub status : TaskStatus
  pub revision : ℕ
  pub created_at : ℕ
  pub updated_at : ℕ
  pub completed_at : Option ℕ
  pub summary : Option String
  pub checkpoint : WorkCheckpoint
  pub last_observed_workspace : WorkspaceObservation

pub data MutationKind : Type 0 where
  creates updates completes : MutationKind

-- The `result` object of a mutation.
pub record MutationResult : Type 0 where
  pub task_id : String
  pub workspace_id : String
  pub revision : ℕ
  pub workspace_revision : ℕ
  pub status : TaskStatus
  pub unresolved_unknown : Option (List String)

pub record MutationDedupeRecord : Type 0 where
  pub request_id : String
  pub task_id : String
  pub kind : MutationKind
  pub input_hmac : String
  pub result : MutationResult
  pub recorded_at : ℕ

pub record WorkspaceState : Type 0 where
  pub workspace : WorkspaceIdentityRecord
  pub workspace_revision : ℕ
  pub active_task_id : Option String
  pub tasks : Dict TaskRecord
  pub mutation_dedupe : Dict MutationDedupeRecord

pub data ToolKind : Type 0 where
  exec_command run_script : ToolKind

pub data PersistenceState : Type 0 where
  fine degraded : PersistenceState

pub record ExecutionRecord : Type 0 where
  pub operation_id : String
  pub task_id : String
  pub workspace_id : String
  pub boot_id : String
  pub session_id : Option String
  pub state : ExecutionState
  pub tool_kind : ToolKind
  pub input_hmac : String
  pub prepared_at : ℕ
  pub started_at : Option ℕ
  pub ended_at : Option ℕ
  pub exit_code : Option ℕ
  pub signal : Option String
  pub timed_out : Option Bool
  pub output_bytes : Option ℕ
  pub persistence_state : PersistenceState
  pub error_code : Option String
  pub caller_resolution : Option ExecutionReconciliation

-- The files of one workspace: its state and the receipts of its executions by operation id.
pub record Workspace : Type 0 where
  pub state : WorkspaceState
  pub executions : Dict ExecutionRecord

abbrev pub same_status : TaskStatus → TaskStatus → Bool
same_status active active = true
same_status completed completed = true
same_status abandoned abandoned = true
same_status _ _ = false

abbrev pub same_kind : MutationKind → MutationKind → Bool
same_kind creates creates = true
same_kind updates updates = true
same_kind completes completes = true
same_kind _ _ = false

abbrev pub same_tool : ToolKind → ToolKind → Bool
same_tool exec_command exec_command = true
same_tool run_script run_script = true
same_tool _ _ = false

abbrev pub same_state : ExecutionState → ExecutionState → Bool
same_state prepared prepared = true
same_state running running = true
same_state exited exited = true
same_state spawn_failed spawn_failed = true
same_state unknown unknown = true
same_state _ _ = false

-- The characters that `trim` removes.
abbrev pub is_space : ℕ → Bool
is_space c =
    (leb 9 c && leb c 13)
    || c == 32
    || c == 160
    || c == 5760
    || (leb 8192 c && leb c 8202)
    || c == 8232
    || c == 8233
    || c == 8239
    || c == 8287
    || c == 12288
    || c == 65279

-- `finalCheckpoint` as it arrives: the two fields that it must not have are flags.
pub record FinalCheckpoint : Type 0 where
  pub phase : String
  pub done : List String
  pub current : List ℕ
  pub remaining : List String
  pub changed_paths : List String
  pub blockers : List String
  pub has_evidence_refs : Bool
  pub has_execution_reconciliations : Bool

abbrev pub completion_checkpoint_conflict : FinalCheckpoint → Bool
completion_checkpoint_conflict checkpoint =
    not (str_eq checkpoint.phase "completed")
    || all is_space checkpoint.current
    || ltb 0 (length checkpoint.remaining)
    || ltb 0 (length checkpoint.blockers)
