-- ===== src/Telemetry/Events.antt =====
-- src/telemetry.ts, `UsageLog`: any history of events, timers, flushes and writes.
use chatgpt_remote_mcp.Base.{Bool, ℕ, ◌+◌, ◌≤◌, ◌<◌, ◌≡◌, true, false, List, [], ◌∷◌, length, All}
use chatgpt_remote_mcp.Telemetry.{
  Line, UsageLogOptions, UsageLog, Round, max_pending_events, batch_event_limit, batch_byte_limit,
  enqueue_buffered, record_line, on_timer, write_next, byte_length, current_file,
}
use chatgpt_remote_mcp.Telemetry.Rotation.{IsFile}
use chatgpt_remote_mcp.Telemetry.Writes.{AreLines}

-- An event that is recorded, the timer, `flush`, and the write of the next batch, with whether
-- `#initialize` works and what throws in its rounds.
pub data UsageStep : Type 0 where
  records : Line → UsageStep
  fires : UsageStep
  flushes : UsageStep
  writes : Bool → List Round → UsageStep

unfoldable pub step : UsageLogOptions → UsageStep → UsageLog → UsageLog
unfolding record_line on_timer write_next
step options (records line) s = record_line options line s
step options fires s = on_timer s
step options flushes s = enqueue_buffered s
step options (writes opens rounds) s = write_next options opens rounds s

unfoldable pub run : UsageLogOptions → List UsageStep → UsageLog → UsageLog
unfolding step
run options [] s = s
run options (e ∷ es) s = run options es (step options e s)

-- The lines of a step are lines.
abbrev pub IsLineStep : UsageStep → Type 0
IsLineStep (records line) = 1 ≤ length line
IsLineStep fires = Unit
IsLineStep flushes = Unit
IsLineStep (writes opens rounds) = Unit

abbrev pub queued : List (List Line) → ℕ
queued [] = 0
queued (batch ∷ batches) = length batch + queued batches

-- The counters agree, the buffer and the backlog are bounded, lines that wait in the buffer have a timer,
-- and no file is larger than it may be unless it has one line.
pub record IsLog (max_bytes : ℕ) (s : UsageLog) : Type 0 where
  pub counted : s.pending ≡ length s.buffer + queued s.queue
  pub bounded : s.pending ≤ max_pending_events
  pub few : length s.buffer < batch_event_limit
  pub bytes : s.buffer_bytes ≡ byte_length s.buffer
  pub small : s.buffer_bytes < batch_byte_limit
  pub timed : s.has_timer ≡ false → s.buffer ≡ []
  pub buffer_lines : AreLines s.buffer
  pub queue_lines : All AreLines s.queue
  pub files : All (IsFile max_bytes) s.disk
  pub known : s.initialized ≡ true → s.size ≡ byte_length (current_file s.disk)
