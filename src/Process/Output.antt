-- ===== src/Process/Output.antt =====
-- src/process-manager.ts: storing, trimming and flushing output.
pub mod Totals
pub mod Steps
use chatgpt_remote_mcp.Base.{
  ℕ, zero, suc, ◌+◌, ◌-◌, max, Bool, true, false, Option, none, some, List, [], ◌∷◌, ◌++◌, String,
  lookup, remove, ltb, ◌==◌, if◌then◌else◌, length,
}
use chatgpt_remote_mcp.Output.{Stream, stdout, stderr, OutputBuffer, append, trim_to}
use chatgpt_remote_mcp.Chunks.{split_output_chunks}
use chatgpt_remote_mcp.Process.{
  ManagedProcess, ProcessManager, pending_output, set_pending, save, with_process,
}

-- `#touchOutput`: the process becomes the most recent one, or leaves if it retains nothing.
pub touch_output : String → ManagedProcess → ProcessManager → ProcessManager
touch_output id p m =
    let others = remove id m.output_recency in
    record m {
      output_recency = if ltb 0 p.output_buffer.retained_bytes then others ++ id ∷ [] else others;
    }

-- `#storeOutputChunks`.
pub store_output_chunks :
    String → Stream → List (List ℕ) → ManagedProcess → ProcessManager → ProcessManager
unfolding touch_output
store_output_chunks id stream chunks p m =
    let before = p.output_buffer.retained_bytes in
    let buffer = append stream chunks p.output_buffer in
    let p' : ManagedProcess = record p { output_buffer = buffer } in
    let retained = m.retained_output_bytes + (buffer.retained_bytes - before) in
    touch_output id p' (
      save id p' (record m {
        retained_output_bytes = retained;
        peak_retained_output_bytes = max m.peak_retained_output_bytes retained;
      }))

-- A trim of one buffer, and what it does to the totals.
pub trim_buffer : String → ℕ → ManagedProcess → ProcessManager → ProcessManager
unfolding touch_output
trim_buffer id max_bytes p m =
    let (buffer, dropped) = trim_to max_bytes p.output_buffer in
    let p' : ManagedProcess = record p { output_buffer = buffer } in
    touch_output id p' (
      save id p' (record m {
        retained_output_bytes = m.retained_output_bytes - dropped;
        dropped_output_bytes = m.dropped_output_bytes + dropped;
      }))

-- One round of `#trimTotalRetainedOutput`, for the least recent process.
pub trim_oldest : String → ManagedProcess → ProcessManager → ProcessManager
unfolding trim_buffer
trim_oldest id oldest m =
    let excess = m.retained_output_bytes - m.max_total_retained_output_bytes in
    let target = oldest.output_buffer.retained_bytes - excess in
    let (buffer, dropped) = trim_to target oldest.output_buffer in
    if dropped == 0
    then record m { output_recency = remove id m.output_recency }
    else trim_buffer id target oldest m

-- `#trimTotalRetainedOutput`; a round ends the loop or takes a process off `output_recency`.
pub trim_total_loop : ℕ → ProcessManager → ProcessManager
trim_total_loop zero m = m
trim_total_loop (suc fuel) m =
    elim (ltb m.max_total_retained_output_bytes m.retained_output_bytes) [
      | false ↦ m
      | true ↦ elim m.output_recency [
        | [] ↦ m
        | id ∷ _ ↦ elim (lookup id m.objects) [
          | none ↦ m
          | some oldest ↦ trim_total_loop fuel (trim_oldest id oldest m)
        ]
      ]
    ]

pub trim_total_retained_output : ProcessManager → ProcessManager
unfolding trim_total_loop trim_oldest
trim_total_retained_output m = trim_total_loop (suc (length m.output_recency)) m

-- `#trimRetainedOutput`.
pub trim_retained_output : String → ProcessManager → ProcessManager
unfolding trim_buffer trim_total_retained_output
trim_retained_output id m =
    with_process id
      (λ p. trim_total_retained_output (trim_buffer id m.max_retained_output_bytes p m)) m

-- `#notify`.
unfoldable pub notify : String → ProcessManager → ProcessManager
notify id m =
    with_process id
      (λ p. record (save id (record p { waiters = [] }) m) { resolved = m.resolved ++ p.waiters }) m

-- The part of `#appendOutput` before the trim.
pub receive_output : String → Stream → List ℕ → ManagedProcess → ProcessManager → ProcessManager
unfolding store_output_chunks
receive_output id stream bytes p m =
    let combined = pending_output stream p ++ bytes in
    let split = split_output_chunks combined false in
    let counted : ManagedProcess = record p {
      total_output_bytes = p.total_output_bytes + length bytes;
    } in
    store_output_chunks id stream split.chunks (set_pending stream split.remainder counted) m

-- `#appendOutput`.
unfoldable pub append_output : String → Stream → List ℕ → ProcessManager → ProcessManager
unfolding receive_output trim_retained_output notify
append_output id stream bytes m =
    with_process id (λ p. notify id (trim_retained_output id (receive_output id stream bytes p m)))
      m

-- One round of the loop of `#flushPendingOutput`.
pub flush_stream : String → Stream → ProcessManager → ProcessManager
unfolding store_output_chunks
flush_stream id stream m =
    with_process id
      (λ p.
        let pending = pending_output stream p in
        if length pending == 0
        then m
        else store_output_chunks id stream (split_output_chunks pending true).chunks
            (set_pending stream [] p) m)
      m

-- `#flushPendingOutput`.
pub flush_pending_output : String → ProcessManager → ProcessManager
unfolding flush_stream trim_retained_output
flush_pending_output id m =
    trim_retained_output id (flush_stream id stderr (flush_stream id stdout m))
