-- ===== src/Telemetry/Drain.antt =====
-- src/telemetry.ts, `UsageLog`: a flush writes all that waits.
use chatgpt_remote_mcp.Base.{
  ℕ, zero, suc, ◌+◌, ◌≡◌, refl, sym, ap, subst, ◌∙◌, Bool, true, false, List, [], ◌∷◌, ◌++◌, arith,
  length, if◌then◌else◌, concat, append-nil, All,
}
use chatgpt_remote_mcp.Telemetry.{
  Line, UsageLogOptions, UsageLog, enqueue_buffered, write_next, write_loop, Written, known_size,
  byte_length, current_file,
}
use chatgpt_remote_mcp.Telemetry.Writes.{AreLines}
use chatgpt_remote_mcp.Telemetry.Each.{write_each, write_each-append, write_loop-each, logged}
use chatgpt_remote_mcp.Telemetry.Order.{held, enqueue-held}
use chatgpt_remote_mcp.Telemetry.Events.{flushes, writes, step, IsLog, queued}
use chatgpt_remote_mcp.Telemetry.Invariant.{step-IsLog}

-- Writing what is queued, with nothing that fails.
pub write_all : ℕ → UsageLogOptions → UsageLog → UsageLog
write_all zero options s = s
write_all (suc n) options s = write_all n options (write_next options true [] s)

-- Where the next write begins.
abbrev pub next_write : UsageLog → Written
next_write s = record { size = known_size s; disk = s.disk }

-- The write of a batch that works.
pub record IsNext (options : UsageLogOptions) (lines : List Line) (batches : List (List Line))
    (s t : UsageLog) : Type 0 where
  pub queue : t.queue ≡ batches
  pub buffer : t.buffer ≡ s.buffer
  pub failures : t.write_failures ≡ s.write_failures
  pub written : next_write t ≡ write_each options (next_write s) lines

pub write_next-IsNext :
    (options : UsageLogOptions) (lines : List Line) (batches : List (List Line)) (s : UsageLog)
    → s.queue ≡ lines ∷ batches
    → All AreLines s.queue
    → IsNext options lines batches s (write_next options true [] s)
unfolding write_next
write_next-IsNext options lines batches s e q =
    subst
      (λ x. IsNext options lines batches s (write_next options true [] (record s { queue = x })))
      (sym e)
      (record {
        queue = refl;
        buffer = refl;
        failures = ap (λ r. s.write_failures + (if r.1 then 0 else 1)) result ∙ omega arith;
        written =
            ap
              (λ r. record {
                size = if r.1 then r.0.size else byte_length (current_file r.0.disk);
                disk = r.0.disk;
              })
              result;
      })
  where
    result :
        write_loop (length lines) options [] (next_write s) lines
        ≡ (write_each options (next_write s) lines, true)
    result =
        write_loop-each (length lines) options (next_write s) lines
          (subst (λ x. All AreLines x) e q).0 (omega arith)

-- What writing the queue does.
record IsDrained (options : UsageLogOptions) (s t : UsageLog) : Type 0 where
  log : IsLog options.max_bytes t
  queue : t.queue ≡ []
  buffer : t.buffer ≡ s.buffer
  failures : t.write_failures ≡ s.write_failures
  written : next_write t ≡ write_each options (next_write s) (concat s.queue)

write_all-IsDrained :
    (options : UsageLogOptions) (batches : List (List Line)) (s : UsageLog)
    → s.queue ≡ batches
    → IsLog options.max_bytes s
    → IsDrained options s (write_all (length batches) options s)
unfolding write_all step write_each
write_all-IsDrained options [] s e i = record {
  log = i;
  queue = e;
  buffer = refl;
  failures = refl;
  written = ap (λ q. write_each options (next_write s) (concat q)) (sym e);
}
write_all-IsDrained options (lines ∷ batches) s e i =
    let next = write_next options true [] s in
    let w = write_next-IsNext options lines batches s e i.queue_lines in
    let d =
      write_all-IsDrained options batches next w.queue
        (step-IsLog options (writes true []) s tt i) in
    record {
      log = d.log;
      queue = d.queue;
      buffer = d.buffer ∙ w.buffer;
      failures = d.failures ∙ w.failures;
      written =
          d.written
          ∙ ap (λ q. write_each options (next_write next) (concat q)) w.queue
          ∙ ap (λ v. write_each options v (concat batches)) w.written
          ∙ sym (write_each-append options (next_write s) lines (concat batches))
          ∙ ap (λ q. write_each options (next_write s) (concat q)) (sym e);
    }

-- `flush`: the buffer is queued, and all batches are written.
pub flush : UsageLogOptions → UsageLog → UsageLog
flush options s =
    let queued_log = enqueue_buffered s in write_all (length queued_log.queue) options queued_log

enqueue-buffer : (s : UsageLog) → (enqueue_buffered s).buffer ≡ []
enqueue-buffer s = go s.buffer
  where
    go : (buffer : List Line) → (enqueue_buffered (record s { buffer = buffer })).buffer ≡ []
    go [] = refl
    go (line ∷ lines) = refl

pub enqueue-same :
    (s : UsageLog)
    → (next_write (enqueue_buffered s) ≡ next_write s)
      × ((enqueue_buffered s).write_failures ≡ s.write_failures)
enqueue-same s = go s.buffer
  where
    go :
        (buffer : List Line)
        → (next_write (enqueue_buffered (record s { buffer = buffer })) ≡ next_write s)
          × ((enqueue_buffered (record s { buffer = buffer })).write_failures ≡ s.write_failures)
    go [] = (refl, refl)
    go (line ∷ lines) = (refl, refl)

-- The log after a flush, and where its next write begins.
record IsEmptied (options : UsageLogOptions) (s t : UsageLog) : Type 0 where
  queue : t.queue ≡ []
  buffer : t.buffer ≡ []
  pending : t.pending ≡ 0
  failures : t.write_failures ≡ s.write_failures
  written : next_write t ≡ write_each options (next_write s) (held s)

flush-IsEmptied :
    (options : UsageLogOptions) (s : UsageLog)
    → IsLog options.max_bytes s
    → IsEmptied options s (flush options s)
unfolding flush held step
flush-IsEmptied options s i =
    let queued_log = enqueue_buffered s in
    let d =
      write_all-IsDrained options queued_log.queue queued_log refl
        (step-IsLog options flushes s tt i) in
    let empty = d.buffer ∙ enqueue-buffer s in
    record {
      queue = d.queue;
      buffer = empty;
      pending = omega (arith, d.log.counted, ap length empty, ap queued d.queue);
      failures = d.failures ∙ (enqueue-same s).1;
      written =
          d.written
          ∙ ap (λ v. write_each options v (concat queued_log.queue)) (enqueue-same s).0
          ∙ ap (λ l. write_each options (next_write s) l)
              (sym (
                sym (enqueue-held s)
                ∙ ap (λ l. concat queued_log.queue ++ l) (enqueue-buffer s)
                ∙ append-nil (concat queued_log.queue)));
    }

pub flush-written :
    (options : UsageLogOptions) (s : UsageLog)
    → IsLog options.max_bytes s
    → (flush options s).disk ≡ (write_each options (next_write s) (held s)).disk
flush-written options s i = ap (λ w. w.disk) (flush-IsEmptied options s i).written

-- The log after a flush, and its files.
pub record IsFlushed (options : UsageLogOptions) (s t : UsageLog) : Type 0 where
  pub queue : t.queue ≡ []
  pub buffer : t.buffer ≡ []
  pub pending : t.pending ≡ 0
  pub failures : t.write_failures ≡ s.write_failures
  pub on_disk : t.disk ≡ logged options s.disk (held s)

-- A flush of a log in which the counters agree, with writes that work: nothing waits any more, no failure
-- is counted, and the files are what writing the lines that waited one by one, in order, makes of the files:
-- each to the end of the current file, after a rotation if that file has bytes and no room for the line.
pub flush-IsFlushed :
    (options : UsageLogOptions) (s : UsageLog)
    → IsLog options.max_bytes s
    → IsFlushed options s (flush options s)
unfolding logged
flush-IsFlushed options s i =
    let e = flush-IsEmptied options s i in
    record {
      queue = e.queue;
      buffer = e.buffer;
      pending = e.pending;
      failures = e.failures;
      on_disk =
          flush-written options s i
          ∙ ap (λ n. (write_each options (record { size = n; disk = s.disk }) (held s)).disk)
              (known s.initialized refl);
    }
  where
    known : (b : Bool) → s.initialized ≡ b → known_size s ≡ byte_length (current_file s.disk)
    known true z = rw z (i.known z)
    known false z = rw z refl
