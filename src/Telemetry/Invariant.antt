-- ===== src/Telemetry/Invariant.antt =====
-- src/telemetry.ts, `UsageLog`: what every history of the log keeps.
use chatgpt_remote_mcp.Base.{
  ℕ, ◌+◌, ◌≤◌, ◌≡◌, refl, inl, inr, Bool, true, false, ◌||◌, List, [], ◌∷◌, ◌++◌, arith, length,
  leb, not, ◌&&◌, if◌then◌else◌, length-append, All, All-append, Bool-cases,
}
use chatgpt_remote_mcp.Telemetry.{
  Written, write_loop, Line, UsageLogOptions, UsageLog, Round, new_log, max_pending_events,
  batch_event_limit, batch_byte_limit, enqueue_buffered, record_line, on_timer, write_next,
  known_size, byte_length, current_file,
}
use chatgpt_remote_mcp.Telemetry.Rotation.{IsFile, byte_length-append}
use chatgpt_remote_mcp.Telemetry.Writes.{AreLines}
use chatgpt_remote_mcp.Telemetry.Rounds.{write_loop-IsKept}
use chatgpt_remote_mcp.Telemetry.Events.{
  UsageStep, records, fires, flushes, writes, step, run, IsLineStep, queued, IsLog,
}

queued-snoc :
    (batches : List (List Line)) (batch : List Line)
    → queued (batches ++ batch ∷ []) ≡ queued batches + length batch
queued-snoc [] batch = omega arith
queued-snoc (b ∷ batches) batch = omega (arith, queued-snoc batches batch)

-- The buffer goes to the queue.
record IsBuffered (max_bytes : ℕ) (s : UsageLog) : Type 0 where
  counted : s.pending ≡ length s.buffer + queued s.queue
  bounded : s.pending ≤ max_pending_events
  buffer_lines : AreLines s.buffer
  queue_lines : All AreLines s.queue
  files : All (IsFile max_bytes) s.disk
  known : s.initialized ≡ true → s.size ≡ byte_length (current_file s.disk)
  bytes : s.buffer_bytes ≡ byte_length s.buffer

enqueue-IsLog :
    (max_bytes : ℕ) (s : UsageLog) → IsBuffered max_bytes s → IsLog max_bytes (enqueue_buffered s)
enqueue-IsLog max_bytes s b = go s.buffer b.counted b.buffer_lines b.bytes
  where
    go :
        (buffer : List Line)
        → s.pending ≡ length buffer + queued s.queue
        → AreLines buffer
        → s.buffer_bytes ≡ byte_length buffer
        → IsLog max_bytes (enqueue_buffered (record s { buffer = buffer }))
    go [] c l z = record {
      counted = c;
      bounded = b.bounded;
      few = omega arith;
      bytes = z;
      small = omega (arith, z);
      timed = λ e. refl;
      buffer_lines = tt;
      queue_lines = b.queue_lines;
      files = b.files;
      known = b.known;
    }
    go (line ∷ lines) c l z = record {
      counted = omega (arith, c, queued-snoc s.queue (line ∷ lines));
      bounded = b.bounded;
      few = omega arith;
      bytes = refl;
      small = omega arith;
      timed = λ e. refl;
      buffer_lines = tt;
      queue_lines = All-append AreLines s.queue ((line ∷ lines) ∷ []) b.queue_lines (l, tt);
      files = b.files;
      known = b.known;
    }

IsLog-IsBuffered : (max_bytes : ℕ) (s : UsageLog) → IsLog max_bytes s → IsBuffered max_bytes s
IsLog-IsBuffered max_bytes s i = record {
  counted = i.counted;
  bounded = i.bounded;
  buffer_lines = i.buffer_lines;
  queue_lines = i.queue_lines;
  files = i.files;
  known = i.known;
  bytes = i.bytes;
}

record_line-IsLog :
    (options : UsageLogOptions) (line : Line) (s : UsageLog)
    → 1 ≤ length line
    → IsLog options.max_bytes s
    → IsLog options.max_bytes (record_line options line s)
unfolding record_line
record_line-IsLog options line s h i = elim (Bool-cases options.enabled) [
  | inr off ↦ rw off i
  | inl on ↦ elim (Bool-cases (leb max_pending_events s.pending)) [
    | inl full ↦
        rw (on, full)
          (record {
            counted = i.counted;
            bounded = i.bounded;
            few = i.few;
            bytes = i.bytes;
            small = i.small;
            timed = i.timed;
            buffer_lines = i.buffer_lines;
            queue_lines = i.queue_lines;
            files = i.files;
            known = i.known;
          })
    | inr room ↦
        let count = length-append s.buffer (line ∷ []) in
        let total = byte_length-append s.buffer (line ∷ []) in
        let lines = All-append (λ l. 1 ≤ length l) s.buffer (line ∷ []) i.buffer_lines (h, tt) in
        let counted : s.pending + 1 ≡ length (s.buffer ++ line ∷ []) + queued s.queue =
          omega (arith, count, i.counted) in
        let more : s.pending + 1 ≤ max_pending_events = ground (arith, room) in
        let size : s.buffer_bytes + length line ≡ byte_length (s.buffer ++ line ∷ []) =
          omega (arith, total, i.bytes) in
        elim (Bool-cases (
          leb batch_event_limit (length (s.buffer ++ line ∷ []))
          || leb batch_byte_limit (s.buffer_bytes + length line))) [
            | inl due ↦
                rw (on, room, due)
                  (enqueue-IsLog options.max_bytes
                    (record s {
                      buffer = s.buffer ++ line ∷ [];
                      buffer_bytes = s.buffer_bytes + length line;
                      pending = s.pending + 1;
                    })
                    (record {
                      counted = counted;
                      bounded = more;
                      buffer_lines = lines;
                      queue_lines = i.queue_lines;
                      files = i.files;
                      known = i.known;
                      bytes = size;
                    }))
            | inr waits ↦
                rw (on, room, waits)
                  (record {
                    counted = counted;
                    bounded = more;
                    few = ground (arith, waits);
                    bytes = size;
                    small = ground (arith, waits);
                    timed = λ e. cc e;
                    buffer_lines = lines;
                    queue_lines = i.queue_lines;
                    files = i.files;
                    known = i.known;
                  })
          ]
  ]
]

write_next-IsLog :
    (options : UsageLogOptions) (opens : Bool) (rounds : List Round) (s : UsageLog)
    → IsLog options.max_bytes s
    → IsLog options.max_bytes (write_next options opens rounds s)
unfolding write_next
write_next-IsLog options opens rounds s i = go s.queue i.counted i.queue_lines
  where
    known : (b : Bool) → s.initialized ≡ b → known_size s ≡ byte_length (current_file s.disk)
    known true e = rw e (i.known e)
    known false e = rw e refl

    written :
        (lines : List Line)
        → AreLines lines
        → (closed : Bool)
        → All
            (IsFile options.max_bytes)
            (if◌then◌else◌ {A = Written × Bool} closed
              (record { size = s.size; disk = s.disk }, false)
              (write_loop
                (length lines)
                options
                rounds
                (record { size = known_size s; disk = s.disk })
                lines)).0.disk
          × ((if◌then◌else◌ {A = Written × Bool} closed
                  (record { size = s.size; disk = s.disk }, false)
                  (write_loop
                    (length lines)
                    options
                    rounds
                    (record { size = known_size s; disk = s.disk })
                    lines)).1
                ≡ true
              → (if◌then◌else◌ {A = Written × Bool} closed
                  (record { size = s.size; disk = s.disk }, false)
                  (write_loop
                    (length lines)
                    options
                    rounds
                    (record { size = known_size s; disk = s.disk })
                    lines)).0.size
                ≡ byte_length (
                    current_file
                      (if◌then◌else◌ {A = Written × Bool} closed
                        (record { size = s.size; disk = s.disk }, false)
                        (write_loop
                          (length lines)
                          options
                          rounds
                          (record { size = known_size s; disk = s.disk })
                          lines)).0.disk))
    written lines h true = (i.files, λ e. cc e)
    written lines h false =
        let w =
          write_loop-IsKept options (length lines) rounds
            (record { size = known_size s; disk = s.disk }) lines
            (record { size = known s.initialized refl; files = i.files }) h in
        (w.files, λ e. w.size)

    go :
        (queue : List (List Line))
        → s.pending ≡ length s.buffer + queued queue
        → All AreLines queue
        → IsLog options.max_bytes (write_next options opens rounds (record s { queue = queue }))
    go [] c q = record {
      counted = c;
      bounded = i.bounded;
      few = i.few;
      bytes = i.bytes;
      small = i.small;
      timed = i.timed;
      buffer_lines = i.buffer_lines;
      queue_lines = tt;
      files = i.files;
      known = i.known;
    }
    go (lines ∷ batches) c q =
        let w = written lines q.0 (not opens && not s.initialized) in
        record {
          counted = omega (arith, c);
          bounded = omega (arith, i.bounded);
          few = i.few;
          bytes = i.bytes;
          small = i.small;
          timed = i.timed;
          buffer_lines = i.buffer_lines;
          queue_lines = q.1;
          files = w.0;
          known = w.1;
        }

pub step-IsLog :
    (options : UsageLogOptions) (e : UsageStep) (s : UsageLog)
    → IsLineStep e
    → IsLog options.max_bytes s
    → IsLog options.max_bytes (step options e s)
unfolding step on_timer
step-IsLog options (records line) s h i = record_line-IsLog options line s h i
step-IsLog options flushes s h i =
    enqueue-IsLog options.max_bytes s (IsLog-IsBuffered options.max_bytes s i)
step-IsLog options (writes opens rounds) s h i = write_next-IsLog options opens rounds s i
step-IsLog options fires s h i = go s.has_timer
  where
    go : (b : Bool) → IsLog options.max_bytes (if b then enqueue_buffered s else s)
    go true = enqueue-IsLog options.max_bytes s (IsLog-IsBuffered options.max_bytes s i)
    go false = i

pub new_log-IsLog :
    (options : UsageLogOptions) (disk : List (List Line))
    → All (IsFile options.max_bytes) disk
    → IsLog options.max_bytes (new_log disk)
unfolding new_log
new_log-IsLog options disk h = record {
  counted = refl;
  bounded = omega arith;
  few = omega arith;
  bytes = refl;
  small = omega arith;
  timed = λ e. refl;
  buffer_lines = tt;
  queue_lines = tt;
  files = h;
  known = λ e. cc e;
}

-- After any history of lines that are not empty, on a disk whose files keep to their size: the number of
-- events that wait is what the buffer and the queue hold and at most a thousand, the buffer is below the
-- limits of a batch and has a timer unless it is empty, and each file is at most as large as it may be or
-- has one line.
pub run-IsLog :
    (options : UsageLogOptions) (disk : List (List Line)) (es : List UsageStep)
    → All (IsFile options.max_bytes) disk
    → All IsLineStep es
    → IsLog options.max_bytes (run options es (new_log disk))
unfolding run
run-IsLog options disk es h l = go es (new_log disk) l (new_log-IsLog options disk h)
  where
    go :
        (es : List UsageStep) (s : UsageLog)
        → All IsLineStep es
        → IsLog options.max_bytes s
        → IsLog options.max_bytes (run options es s)
    go [] s l i = i
    go (e ∷ es) s l i = go es (step options e s) l.1 (step-IsLog options e s l.0 i)
