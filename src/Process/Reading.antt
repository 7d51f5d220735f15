-- ===== src/Process/Reading.antt =====
-- src/process-manager.ts: reading, listing, writing to and waiting for processes. A text is the bytes of
-- its UTF-8, and a wait adds the number of its promise to the waiters.
pub mod Lossless
use chatgpt_remote_mcp.Base.{
  or_default, ℕ, zero, suc, ◌+◌, ◌-◌, min, max, Bool, true, false, ◌&&◌, ◌||◌, not, Option, none,
  some, List, [], ◌∷◌, ◌++◌, String, lookup, mem, remove, ltb, leb, ◌==◌, if◌then◌else◌, length,
  map, filter, concat, str_eq,
}
use chatgpt_remote_mcp.Errors.{Result, ok, err, ◌>>=◌, process_session_unknown, invalid_state}
use chatgpt_remote_mcp.Output.{Stream, stdout, stderr, Chunk, Selection, select_after, latest_seq}
use chatgpt_remote_mcp.Files.Utf8.Text.{to_text}
use chatgpt_remote_mcp.Chunks.{output_chunk_bytes}
use chatgpt_remote_mcp.Process.{
  ManagedProcess, ProcessManager, ProcessTracking, ProcessError, is_running, save, with_process,
}
use chatgpt_remote_mcp.Process
use chatgpt_remote_mcp.Process.Lifecycle.{send_signal}

pub data WaitMode : Type 0 where
  output terminal : WaitMode

pub record ReadProcessRequest : Type 0 where
  pub after_seq : Option ℕ
  pub wait_ms : Option ℕ
  pub wait_mode : Option WaitMode
  pub max_output_bytes : Option ℕ

pub record ProcessReadResult : Type 0 where
  pub session_id : String
  pub tracking : Option ProcessTracking
  pub command : String
  pub cwd : String
  pub running : Bool
  pub pid : Option ℕ
  pub started_at : ℕ
  pub ended_at : Option ℕ
  pub wall_time_ms : ℕ
  pub exit_code : Option ℕ
  pub signal : Option String
  pub timed_out : Bool
  pub error : Option ProcessError
  pub stdout : List ℕ
  pub stderr : List ℕ
  pub output : List ℕ
  pub wait_mode : WaitMode
  pub next_seq : ℕ
  pub has_more : Bool
  pub total_output_bytes : ℕ
  pub dropped_output_bytes : ℕ

-- `#require`.
abbrev pub require : String → ProcessManager → Result ManagedProcess
require id m =
    if mem id m.processes
    then (elim (lookup id m.objects) [ none ↦ err process_session_unknown | some p ↦ ok p ])
    else err process_session_unknown

abbrev pub of_stdout : Chunk → Bool
of_stdout c = elim c.stream [ stdout ↦ true | stderr ↦ false ]

abbrev pub of_stderr : Chunk → Bool
of_stderr c = not (of_stdout c)

abbrev pub bytes_in : List Chunk → List ℕ
bytes_in cs = concat (map (λ c. c.bytes) cs)

abbrev pub read_budget : ReadProcessRequest → ProcessManager → ℕ
read_budget request m =
    max output_chunk_bytes (
      min (or_default request.max_output_bytes m.default_read_output_bytes) m.max_read_output_bytes)

-- `read` after its wait, at the time `now`.
pub read_process : ReadProcessRequest → ℕ → ManagedProcess → ProcessManager → ProcessReadResult
read_process request now p m =
    let selected =
      select_after (or_default request.after_seq 0) (read_budget request m) p.output_buffer in
    record {
      session_id = p.session_id;
      tracking = p.tracking;
      command = p.command;
      cwd = p.cwd;
      running = is_running p;
      pid = p.pid;
      started_at = p.started_at;
      ended_at = p.ended_at;
      wall_time_ms = or_default p.ended_at now - p.started_at;
      exit_code = p.exit_code;
      signal = p.signal;
      timed_out = p.timed_out;
      error = p.error;
      stdout = to_text (bytes_in (filter of_stdout selected.chunks));
      stderr = to_text (bytes_in (filter of_stderr selected.chunks));
      output = to_text (bytes_in selected.chunks);
      wait_mode = or_default request.wait_mode output;
      next_seq = selected.next_seq;
      has_more = selected.has_more;
      total_output_bytes = p.total_output_bytes;
      dropped_output_bytes = p.output_buffer.dropped_bytes;
    }

unfoldable pub read : String → ReadProcessRequest → ℕ → ProcessManager → Result ProcessReadResult
unfolding read_process
read id request now m = do p ← require id m; ok (read_process request now p m)

-- `#waitForOutput`: whether the promise is already resolved, or its waiter is added.
pub wait_for_output : String → ℕ → ℕ → ProcessManager → ProcessManager × Bool
wait_for_output id after_seq waiter m = elim (lookup id m.objects) [
  | none ↦ (m, true)
  | some p ↦
      if ltb after_seq (latest_seq p.output_buffer) || not (is_running p)
      then (m, true)
      else (save id (record p { waiters = p.waiters ++ waiter ∷ [] }) m, false)
]

-- `waitForExit`.
pub wait_for_exit : String → ℕ → ℕ → ProcessManager → Result (ProcessManager × Bool)
wait_for_exit id wait_ms waiter m = do
  p ← require id m
  if not (is_running p) || wait_ms == 0
      then ok (m, true)
      else ok (save id (record p { exit_waiters = p.exit_waiters ++ waiter ∷ [] }) m, false)

-- The wait of `read`.
pub begin_read : String → ReadProcessRequest → ℕ → ProcessManager → Result (ProcessManager × Bool)
unfolding wait_for_output wait_for_exit
begin_read id request waiter m = do
  _ ← require id m
  if or_default request.wait_ms 0 == 0
      then ok (m, true)
      else elim (or_default request.wait_mode output) [
        | terminal ↦ wait_for_exit id (or_default request.wait_ms 0) waiter m
        | output ↦ ok (wait_for_output id (or_default request.after_seq 0) waiter m)
      ]

abbrev pub drop_waiter : ℕ → List ℕ → List ℕ
drop_waiter waiter ws = filter (λ k. not (k == waiter)) ws

-- A wait that ends by its timer or by an abort.
pub end_wait : String → ℕ → ProcessManager → ProcessManager
end_wait id waiter m =
    with_process id
      (λ p.
        save id
          (record p {
            waiters = drop_waiter waiter p.waiters;
            exit_waiters = drop_waiter waiter p.exit_waiters;
          })
          m)
      m

-- `write`, given whether stdin is destroyed or no longer writable: what is written and whether stdin
-- is closed after it.
pub write : String → List ℕ → Bool → Bool → ProcessManager → Result (List ℕ × Bool)
write id input close_stdin stdin_closed m = do
  p ← require id m
  if length input == 0 && not close_stdin
      then ok ([], false)
      else if not (is_running p)
      then err invalid_state
      else if stdin_closed
      then err invalid_state
      else ok (input, close_stdin)

-- `terminate`, up to its read: the flag says whether the force timer is set.
pub terminate :
    String → String → ℕ → Option String → ProcessManager → Result (ProcessManager × Bool)
terminate id signal grace_ms failure m = do
  p ← require id m
  if is_running p
      then ok (send_signal id signal failure m, not (str_eq signal "SIGKILL") && ltb 0 grace_ms)
      else ok (m, false)

pub record ProcessManagerStats : Type 0 where
  pub managed_processes : ℕ
  pub running_processes : ℕ
  pub retained_output_bytes : ℕ
  pub dropped_output_bytes : ℕ
  pub peak_managed_processes : ℕ
  pub peak_running_processes : ℕ
  pub peak_retained_output_bytes : ℕ

pub stats : ProcessManager → ProcessManagerStats
stats m = record {
  managed_processes = length m.processes;
  running_processes = m.running_processes;
  retained_output_bytes = m.retained_output_bytes;
  dropped_output_bytes = m.dropped_output_bytes;
  peak_managed_processes = m.peak_managed_processes;
  peak_running_processes = m.peak_running_processes;
  peak_retained_output_bytes = m.peak_retained_output_bytes;
}

pub record ProcessListEntry : Type 0 where
  pub session_id : String
  pub pid : Option ℕ
  pub command : String
  pub cwd : String
  pub running : Bool
  pub started_at : ℕ
  pub ended_at : Option ℕ
  pub exit_code : Option ℕ
  pub tracking : Option ProcessTracking
  pub available_through_seq : ℕ
  pub total_output_bytes : ℕ
  pub dropped_output_bytes : ℕ

abbrev pub list_entry : ManagedProcess → ProcessListEntry
list_entry p = record {
  session_id = p.session_id;
  pid = p.pid;
  command = p.command;
  cwd = p.cwd;
  running = is_running p;
  started_at = p.started_at;
  ended_at = p.ended_at;
  exit_code = p.exit_code;
  tracking = p.tracking;
  available_through_seq = latest_seq p.output_buffer;
  total_output_bytes = p.total_output_bytes;
  dropped_output_bytes = p.output_buffer.dropped_bytes;
}

abbrev pub entries_of : List String → ProcessManager → List ProcessListEntry
entries_of [] m = []
entries_of (id ∷ ids) m = elim (lookup id m.objects) [
  | none ↦ entries_of ids m
  | some p ↦ list_entry p ∷ entries_of ids m
]

pub list : ProcessManager → List ProcessListEntry
list m = entries_of m.processes m
