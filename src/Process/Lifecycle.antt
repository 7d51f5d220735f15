-- ===== src/Process/Lifecycle.antt =====
-- src/process-manager.ts: starting, ending and forgetting processes, and the event handlers.
pub mod Ends
pub mod Capacity
pub mod Start
pub mod Events
use chatgpt_remote_mcp.Base.{
  ℕ, zero, suc, ◌+◌, ◌-◌, max, Bool, true, false, ◌&&◌, Option, none, some, List, [], ◌∷◌, ◌++◌,
  String, lookup, put, mem, remove, add, ltb, leb, if◌then◌else◌, length,
}
use chatgpt_remote_mcp.Output.{new_buffer}
use chatgpt_remote_mcp.Process.{
  ManagedProcess, ProcessManager, ProcessTracking, ProcessTerminalEvent, ProcessError, spawn_error,
  stdin_write_failed, cleanup_failed, signal_failed, exceeded_timeout, TerminalCode, process_error,
  is_running, or_error, save, with_process,
}
use chatgpt_remote_mcp.Process
use chatgpt_remote_mcp.Process.Output.{notify, flush_pending_output}

pub record StartProcessRequest : Type 0 where
  pub session_id : String
  pub command_for_display : String
  pub cwd : String
  pub timeout_ms : ℕ
  pub tracking : Option ProcessTracking

-- What `child_process.spawn` does: a child, with its pid unless the spawn failed, or an exception.
pub data Spawn : Type 0 where
  spawned : Option ℕ → Spawn
  threw : String → Spawn

pub data StartResult : Type 0 where
  started : String → StartResult
  max_running_reached max_managed_reached : ℕ → StartResult
  spawn_threw : String → StartResult

-- `#forget`.
pub forget : String → ProcessManager → ProcessManager
forget id m =
    with_process id
      (λ p.
        let m' = save id (record p { retention_armed = false }) m in
        if mem id m.processes
        then record m' {
          retained_output_bytes = m.retained_output_bytes - p.output_buffer.retained_bytes;
          output_recency = remove id m.output_recency;
          processes = remove id m.processes;
        }
        else m')
      m

-- `endedAt !== undefined && endedAt < now - retention`.
abbrev pub has_expired : ℕ → ProcessManager → String → Bool
has_expired now m id = elim (lookup id m.objects) [
  | none ↦ false
  | some p ↦ elim p.ended_at [ none ↦ false | some t ↦ ltb (t + m.process_retention_ms) now ]
]

-- The loop of `prune`, over the processes that it found.
prune_loop : ℕ → List String → ProcessManager → ProcessManager
prune_loop now [] m = m
prune_loop now (id ∷ ids) m = prune_loop now ids (if has_expired now m id then forget id m else m)

pub prune : ℕ → ProcessManager → ProcessManager
unfolding prune_loop forget
prune now m = prune_loop now m.processes m

-- The completed processes with their end, in the order of `processes`.
completed : ProcessManager → List String → List (ℕ × String)
completed m [] = []
completed m (id ∷ ids) = elim (lookup id m.objects) [
  | none ↦ completed m ids
  | some p ↦ elim p.ended_at [ none ↦ completed m ids | some t ↦ (t, id) ∷ completed m ids ]
]

-- `sort` is stable: a new entry goes before the first that ended later.
insert_by_end : ℕ × String → List (ℕ × String) → List (ℕ × String)
insert_by_end e [] = e ∷ []
insert_by_end e (x ∷ xs) = if ltb x.0 e.0 then x ∷ insert_by_end e xs else e ∷ x ∷ xs

sort_by_end : List (ℕ × String) → List (ℕ × String)
sort_by_end [] = []
sort_by_end (e ∷ es) = insert_by_end e (sort_by_end es)

-- The loop of `#makeCapacity`.
evict_loop : List (ℕ × String) → ProcessManager → ProcessManager
evict_loop [] m = m
evict_loop (e ∷ es) m =
    let rest = evict_loop es (forget e.1 m) in
    if leb m.max_processes (length m.processes) then rest else m

-- `#makeCapacity`, without the exception at its end.
make_capacity : ProcessManager → ProcessManager
unfolding completed insert_by_end sort_by_end evict_loop forget
make_capacity m =
    if ltb (length m.processes) m.max_processes
    then m
    else evict_loop (sort_by_end (completed m m.processes)) m

-- The object that `start` makes.
abbrev pub new_process : StartProcessRequest → Option ℕ → ℕ → ManagedProcess
new_process request pid now = record {
  session_id = request.session_id;
  tracking = request.tracking;
  pid = pid;
  command = request.command_for_display;
  cwd = request.cwd;
  started_at = now;
  ended_at = none;
  exit_code = none;
  signal = none;
  error = none;
  timed_out = false;
  timeout_ms = request.timeout_ms;
  spawn_failed = false;
  output_buffer = new_buffer;
  pending_stdout = [];
  pending_stderr = [];
  total_output_bytes = 0;
  waiters = [];
  exit_waiters = [];
  timeout_armed = ltb 0 request.timeout_ms;
  retention_armed = false;
}

-- What `start` does once a child is there.
pub register : StartProcessRequest → Option ℕ → ℕ → ProcessManager → ProcessManager
register request pid now m =
    let processes = add request.session_id m.processes in
    let running = m.running_processes + 1 in
    record (save request.session_id (new_process request pid now) m) {
      processes = processes;
      running_processes = running;
      peak_managed_processes = max m.peak_managed_processes (length processes);
      peak_running_processes = max m.peak_running_processes running;
    }

-- `start`; the write of `request.stdin` fails by `record_stdin_error`.
unfoldable pub start :
    StartProcessRequest → Spawn → ℕ → ProcessManager → ProcessManager × StartResult
unfolding prune make_capacity register
start request spawn now m =
    let roomy = make_capacity (prune now m) in
    if leb m.max_processes (length roomy.processes)
    then (roomy, max_managed_reached m.max_processes)
    else if leb m.max_running_processes roomy.running_processes
    then (roomy, max_running_reached m.max_running_processes)
    else elim spawn [
      | threw message ↦ (roomy, spawn_threw message)
      | spawned pid ↦ (register request pid now roomy, started request.session_id)
    ]

-- `#recordStdinError`.
pub record_stdin_error : String → String → ProcessManager → ProcessManager
record_stdin_error id message m =
    with_process id (λ p. notify id (save id (or_error p (stdin_write_failed message)) m)) m

-- `errorCode` of the event of `#emitTerminal`.
abbrev pub terminal_code : ManagedProcess → Option TerminalCode
terminal_code p =
    if p.spawn_failed
    then some TerminalCode.spawn_failed
    else if p.timed_out
    then some TerminalCode.timed_out
    else elim p.error [ none ↦ none | some _ ↦ some process_error ]

abbrev pub terminal_event : String → ManagedProcess → ℕ → ProcessTerminalEvent
terminal_event id p ended_at = record {
  session_id = id;
  started_at = p.started_at;
  ended_at = ended_at;
  exit_code = p.exit_code;
  signal = p.signal;
  timed_out = p.timed_out;
  timeout_ms = p.timeout_ms;
  spawn_failed = p.spawn_failed;
  total_output_bytes = p.total_output_bytes;
  error_code = terminal_code p;
}

-- The object once its end is noted, its timeout cleared, and its waiters called.
abbrev pub ended_process : Option ℕ → Option String → ℕ → ManagedProcess → ManagedProcess
ended_process code signal now p = record p {
  ended_at = some now;
  exit_code = code;
  signal = signal;
  timeout_armed = false;
  waiters = [];
  exit_waiters = [];
  retention_armed = true;
}

-- The part of `#finish` after the flush, with `#notify`, `#emitTerminal` and `#scheduleRetention`.
pub settle :
    String → Option ℕ → Option String → ℕ → ManagedProcess → ProcessManager → ProcessManager
settle id code signal now p m =
    let ended = ended_process code signal now p in
    record (save id ended m) {
      running_processes = m.running_processes - 1;
      resolved = (m.resolved ++ p.waiters) ++ p.exit_waiters;
      terminal_events = m.terminal_events ++ terminal_event id ended now ∷ [];
    }

-- `#finish`.
pub finish : String → Option ℕ → Option String → ℕ → ProcessManager → ProcessManager
unfolding settle
finish id code signal now m =
    with_process id
      (λ p.
        if is_running p
        then (let flushed = flush_pending_output id m in
            with_process id (λ q. settle id code signal now q flushed) flushed)
        else m)
      m

-- The handlers of the child's `error` and `close`.
pub on_error : String → String → ℕ → ProcessManager → ProcessManager
unfolding finish
on_error id message now m =
    with_process id
      (λ p.
        finish id none none now
          (save id (record p { spawn_failed = true; error = some (spawn_error message) }) m))
      m

pub on_close : String → Option ℕ → Option String → ℕ → ProcessManager → ProcessManager
unfolding finish
on_close = finish

-- A rejected `cleanup`.
pub on_cleanup_failed : String → String → ProcessManager → ProcessManager
on_cleanup_failed id message m =
    with_process id (λ p. save id (or_error p (cleanup_failed message)) m) m

-- `#signal`, with the message of the exception, if it is not ESRCH.
pub send_signal : String → String → Option String → ProcessManager → ProcessManager
send_signal id name failure m =
    with_process id
      (λ p. elim p.pid [
        | none ↦ m
        | some _ ↦ elim failure [
          | none ↦ record m { signals = m.signals ++ (id, name) ∷ [] }
          | some message ↦ save id (or_error p (signal_failed message)) m
        ]
      ])
      m

-- The timer of the timeout, while it is armed.
pub on_timeout : String → Option String → ProcessManager → ProcessManager
unfolding send_signal
on_timeout id failure m =
    with_process id
      (λ p.
        if p.timeout_armed
        then send_signal id "SIGTERM" failure
            (save id (or_error (record p { timed_out = true }) (exceeded_timeout p.timeout_ms)) m)
        else m)
      m

-- The timer that is set after a signal.
pub on_force_timer : String → Option String → ProcessManager → ProcessManager
unfolding send_signal
on_force_timer id failure m =
    with_process id (λ p. if is_running p then send_signal id "SIGKILL" failure m else m) m

-- `expireOrReschedule` of `#scheduleRetention`, while its timer is armed.
pub on_retention_timer : String → ℕ → ProcessManager → ProcessManager
unfolding forget
on_retention_timer id now m =
    with_process id
      (λ p.
        let m' = save id (record p { retention_armed = false }) m in
        if p.retention_armed && mem id m.processes
        then elim p.ended_at [
          | none ↦ m'
          | some t ↦
              if leb (t + m.process_retention_ms) now
              then forget id m'
              else save id (record p { retention_armed = true }) m
        ]
        else m')
      m
