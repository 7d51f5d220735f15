-- ===== src/Telemetry/Logged.antt =====
-- src/telemetry.ts, `UsageLog`: buffering, batches and the timer make no difference to the files.
use chatgpt_remote_mcp.Base.{
  ◌≡◌, refl, sym, ap, ◌∙◌, Bool, true, false, List, [], ◌∷◌, ◌++◌, append-nil, append_assoc, All,
  leb, ◌||◌, ◌+◌, length, if◌then◌else◌, inl, inr, Bool-cases,
}
use chatgpt_remote_mcp.Telemetry.{
  Line, UsageLogOptions, UsageLog, new_log, enqueue_buffered, record_line, on_timer, write_next,
  max_pending_events, batch_event_limit, batch_byte_limit,
}
use chatgpt_remote_mcp.Telemetry.Rotation.{IsFile}
use chatgpt_remote_mcp.Telemetry.Writes.{AreLines}
use chatgpt_remote_mcp.Telemetry.Each.{write_each, write_each-append, logged}
use chatgpt_remote_mcp.Telemetry.Order.{held, accepted, taken, all_accepted, step-held}
use chatgpt_remote_mcp.Telemetry.Events.{
  UsageStep, records, fires, flushes, writes, step, run, IsLineStep, IsLog,
}
use chatgpt_remote_mcp.Telemetry.Invariant.{step-IsLog, new_log-IsLog}
use chatgpt_remote_mcp.Telemetry.Drain.{
  next_write, write_next-IsNext, enqueue-same, flush, flush-written,
}

-- A step in which nothing throws, and whose line is not empty.
abbrev pub IsGoodStep : UsageStep → Type 0
IsGoodStep (writes opens rounds) = (opens ≡ true) × (rounds ≡ [])
IsGoodStep (records line) = IsLineStep (records line)
IsGoodStep fires = Unit
IsGoodStep flushes = Unit

IsGoodStep-IsLineStep : (e : UsageStep) → IsGoodStep e → IsLineStep e
IsGoodStep-IsLineStep (records line) h = h
IsGoodStep-IsLineStep fires h = tt
IsGoodStep-IsLineStep flushes h = tt
IsGoodStep-IsLineStep (writes opens rounds) h = tt

record_line-start :
    (options : UsageLogOptions) (line : Line) (s : UsageLog)
    → next_write (record_line options line s) ≡ next_write s
unfolding record_line
record_line-start options line s = elim (Bool-cases options.enabled) [
  | inr off ↦ rw off refl
  | inl on ↦ elim (Bool-cases (leb max_pending_events s.pending)) [
    | inl full ↦ rw (on, full) refl
    | inr room ↦
        elim (Bool-cases (
          leb batch_event_limit (length (s.buffer ++ line ∷ []))
          || leb batch_byte_limit (s.buffer_bytes + length line))) [
            | inl due ↦
                rw (on, room, due)
                  (enqueue-same (record s {
                    buffer = s.buffer ++ line ∷ [];
                    buffer_bytes = s.buffer_bytes + length line;
                    pending = s.pending + 1;
                  })).0
            | inr waits ↦ rw (on, room, waits) refl
          ]
  ]
]

-- What a step writes, it writes line by line.
step-start :
    (options : UsageLogOptions) (e : UsageStep) (s : UsageLog)
    → IsGoodStep e
    → IsLog options.max_bytes s
    → next_write (step options e s) ≡ write_each options (next_write s) (taken e s)
unfolding step taken write_each on_timer write_next
step-start options (records line) s h i = record_line-start options line s
step-start options flushes s h i = (enqueue-same s).0
step-start options fires s h i = go s.has_timer
  where
    go : (b : Bool) → next_write (if b then enqueue_buffered s else s) ≡ next_write s
    go true = (enqueue-same s).0
    go false = refl
step-start options (writes opens rounds) s h i = rw (h.0, h.1) (go s.queue i.queue_lines)
  where
    go :
        (queue : List (List Line))
        → All AreLines queue
        → next_write (write_next options true [] (record s { queue = queue }))
          ≡ write_each options
              (next_write s)
              (taken (writes opens rounds) (record s { queue = queue }))
    go [] q = refl
    go (lines ∷ batches) q =
        (write_next-IsNext options lines batches (record s { queue = lines ∷ batches }) refl
          q).written

run-start :
    (options : UsageLogOptions) (es : List UsageStep) (s : UsageLog)
    → All IsGoodStep es
    → IsLog options.max_bytes s
    → (flush options (run options es s)).disk
      ≡ (write_each options (next_write s) (held s ++ all_accepted options es s)).disk
unfolding run all_accepted
run-start options [] s h i =
    flush-written options s i
    ∙ ap (λ l. (write_each options (next_write s) l).disk) (sym (append-nil (held s)))
run-start options (e ∷ es) s h i =
    let next = step options e s in
    let more = all_accepted options es next in
    run-start options es next h.1 (step-IsLog options e s (IsGoodStep-IsLineStep e h.0) i)
    ∙ ap (λ w. w.disk)
        (ap (λ v. write_each options v (held next ++ more)) (step-start options e s h.0 i)
          ∙ sym (write_each-append options (next_write s) (taken e s) (held next ++ more))
          ∙ ap (λ l. write_each options (next_write s) l)
              (sym (append_assoc (taken e s) (held next) more)
                ∙ ap (λ l. l ++ more) (sym (step-held options e s))
                ∙ append_assoc (held s) (accepted options e s) more))

-- A history of lines that are not empty, on a disk whose files keep to their size, in which no write fails:
-- a flush after it leaves the files that writing every accepted line one by one, in order, makes of the disk.
-- An event is accepted if the log has a directory and fewer than a thousand events wait.
pub run-logged :
    (options : UsageLogOptions) (disk : List (List Line)) (es : List UsageStep)
    → All (IsFile options.max_bytes) disk
    → All IsGoodStep es
    → (flush options (run options es (new_log disk))).disk
      ≡ logged options disk (all_accepted options es (new_log disk))
unfolding logged new_log held
run-logged options disk es h good =
    run-start options es (new_log disk) good (new_log-IsLog options disk h)
