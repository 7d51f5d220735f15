-- ===== src/Process.antt =====
-- src/process-manager.ts, `ProcessManager`: the state of the manager and of a managed process.
-- The `ManagedProcess` objects live in a store, `objects`, by their session id, and stay there when
-- the manager forgets them, since timers and event handlers keep them alive; `processes` and
-- `output_recency` are the keys of the two maps, in insertion order. Session ids are not reused
-- (`randomUUID`). Times are milliseconds.
pub mod Consistency
pub mod Output
pub mod Invariant
pub mod Lifecycle
pub mod Reading
use chatgpt_remote_mcp.Base.{
  ℕ, ◌≡◌, Bool, true, false, Option, none, some, List, [], ◌∷◌, ◌++◌, String, Dict, lookup, put,
}
use chatgpt_remote_mcp.Output.{Stream, stdout, stderr, OutputBuffer}

-- The messages, as data.
pub data ProcessError : Type 0 where
  spawn_error stdin_write_failed cleanup_failed signal_failed : String → ProcessError
  exceeded_timeout : ℕ → ProcessError

pub record ProcessTracking : Type 0 where
  pub task_id : String
  pub operation_id : String
  pub workspace_id : String

pub data TerminalCode : Type 0 where
  spawn_failed timed_out process_error : TerminalCode

pub record ProcessTerminalEvent : Type 0 where
  pub session_id : String
  pub started_at : ℕ
  pub ended_at : ℕ
  pub exit_code : Option ℕ
  pub signal : Option String
  pub timed_out : Bool
  pub timeout_ms : ℕ
  pub spawn_failed : Bool
  pub total_output_bytes : ℕ
  pub error_code : Option TerminalCode

-- `exit_code` and `signal` are read only once `ended_at` is set. A waiter is the number of a promise.
pub record ManagedProcess : Type 0 where
  pub session_id : String
  pub tracking : Option ProcessTracking
  pub pid : Option ℕ
  pub command : String
  pub cwd : String
  pub started_at : ℕ
  pub ended_at : Option ℕ
  pub exit_code : Option ℕ
  pub signal : Option String
  pub error : Option ProcessError
  pub timed_out : Bool
  pub timeout_ms : ℕ
  pub spawn_failed : Bool
  pub output_buffer : OutputBuffer
  pub pending_stdout : List ℕ
  pub pending_stderr : List ℕ
  pub total_output_bytes : ℕ
  pub waiters : List ℕ
  pub exit_waiters : List ℕ
  pub timeout_armed : Bool
  pub retention_armed : Bool

pub record ProcessManagerOptions : Type 0 where
  pub max_retained_output_bytes : ℕ
  pub max_total_retained_output_bytes : ℕ
  pub process_retention_ms : ℕ
  pub max_processes : ℕ
  pub max_running_processes : ℕ
  pub default_read_output_bytes : ℕ
  pub max_read_output_bytes : ℕ

-- `resolved` are the waiters called, `terminal_events` the events handed to observers, and `signals`
-- the signals sent, each oldest first.
pub record ProcessManager : Type 0 where
  pub options : ProcessManagerOptions
  pub open options use *
  pub objects : Dict ManagedProcess
  pub processes : List String
  pub output_recency : List String
  pub running_processes : ℕ
  pub retained_output_bytes : ℕ
  pub dropped_output_bytes : ℕ
  pub peak_managed_processes : ℕ
  pub peak_running_processes : ℕ
  pub peak_retained_output_bytes : ℕ
  pub resolved : List ℕ
  pub terminal_events : List ProcessTerminalEvent
  pub signals : List (String × String)

abbrev pub new_manager : ProcessManagerOptions → ProcessManager
new_manager options = record {
  options = options;
  objects = [];
  processes = [];
  output_recency = [];
  running_processes = 0;
  retained_output_bytes = 0;
  dropped_output_bytes = 0;
  peak_managed_processes = 0;
  peak_running_processes = 0;
  peak_retained_output_bytes = 0;
  resolved = [];
  terminal_events = [];
  signals = [];
}

abbrev pub is_running : ManagedProcess → Bool
is_running p = elim p.ended_at [ none ↦ true | some _ ↦ false ]

abbrev pub pending_output : Stream → ManagedProcess → List ℕ
pending_output stdout p = p.pending_stdout
pending_output stderr p = p.pending_stderr

abbrev pub set_pending : Stream → List ℕ → ManagedProcess → ManagedProcess
set_pending stdout bytes p = record p { pending_stdout = bytes }
set_pending stderr bytes p = record p { pending_stderr = bytes }

-- `managed.error ??= e`.
abbrev pub or_error : ManagedProcess → ProcessError → ManagedProcess
or_error p e = elim p.error [ none ↦ record p { error = some e } | some _ ↦ p ]

-- Writing an object back to the store.
abbrev pub save : String → ManagedProcess → ProcessManager → ProcessManager
save id p m = record m { objects = put id p m.objects }

-- A handler runs on the object that it holds.
abbrev pub with_process :
    String → (ManagedProcess → ProcessManager) → ProcessManager → ProcessManager
with_process id f m = elim (lookup id m.objects) [ none ↦ m | some p ↦ f p ]

pub with_process_found :
    (id : String) (f : ManagedProcess → ProcessManager) (m : ProcessManager) {p : ManagedProcess}
    → lookup id m.objects ≡ some p
    → with_process id f m ≡ f p
with_process_found id f m e = rw (e, with_process)
