-- ===== src/Telemetry/Order.antt =====
-- src/telemetry.ts, `UsageLog`: the lines that wait, and what a step adds to them or takes away.
use chatgpt_remote_mcp.Base.{
  ◌+◌, ◌≡◌, refl, sym, ◌∙◌, inl, inr, Bool, true, false, ◌&&◌, ◌||◌, List, [], ◌∷◌, ◌++◌, arith,
  length, ltb, leb, if◌then◌else◌, concat, concat-snoc, append_assoc, append-nil, Bool-cases,
}
use chatgpt_remote_mcp.Telemetry.{
  Line, UsageLogOptions, UsageLog, Round, max_pending_events, batch_event_limit, batch_byte_limit,
  enqueue_buffered, record_line, on_timer, write_next,
}
use chatgpt_remote_mcp.Telemetry.Events.{UsageStep, records, fires, flushes, writes, step}

-- The lines that wait, in order.
unfoldable pub held : UsageLog → List Line
held s = concat s.queue ++ s.buffer

-- The line of a step, unless it is dropped.
unfoldable pub accepted : UsageLogOptions → UsageStep → UsageLog → List Line
accepted options (records line) s =
    if options.enabled && ltb s.pending max_pending_events then line ∷ [] else []
accepted options fires s = []
accepted options flushes s = []
accepted options (writes opens rounds) s = []

-- The batch that a step takes to the disk.
unfoldable pub taken : UsageStep → UsageLog → List Line
taken (records line) s = []
taken fires s = []
taken flushes s = []
taken (writes opens rounds) s = elim s.queue [ [] ↦ [] | lines ∷ batches ↦ lines ]

unfoldable pub all_accepted : UsageLogOptions → List UsageStep → UsageLog → List Line
all_accepted options [] s = []
all_accepted options (e ∷ es) s = accepted options e s ++ all_accepted options es (step options e s)

pub enqueue-held : (s : UsageLog) → held (enqueue_buffered s) ≡ held s
unfolding held
enqueue-held s = go s.buffer
  where
    go :
        (buffer : List Line)
        → held (enqueue_buffered (record s { buffer = buffer })) ≡ concat s.queue ++ buffer
    go [] = refl
    go (line ∷ lines) =
        append-nil (concat (s.queue ++ (line ∷ lines) ∷ [])) ∙ concat-snoc s.queue (line ∷ lines)

record_line-held :
    (options : UsageLogOptions) (line : Line) (s : UsageLog)
    → held s ++ accepted options (records line) s ≡ held (record_line options line s)
unfolding accepted record_line held
record_line-held options line s = elim (Bool-cases options.enabled) [
  | inr off ↦ rw off (append-nil (held s))
  | inl on ↦ elim (Bool-cases (leb max_pending_events s.pending)) [
    | inl full ↦
        let no_room : ltb s.pending max_pending_events ≡ false = ground (arith, full) in
        rw (on, full, no_room) (append-nil (held s))
    | inr room ↦
        let has_room : ltb s.pending max_pending_events ≡ true = ground (arith, room) in
        let buffered : UsageLog = record s {
          buffer = s.buffer ++ line ∷ [];
          buffer_bytes = s.buffer_bytes + length line;
          pending = s.pending + 1;
        } in
        let longer : held s ++ line ∷ [] ≡ held buffered =
          append_assoc (concat s.queue) s.buffer (line ∷ []) in
        elim (Bool-cases (
          leb batch_event_limit (length buffered.buffer)
          || leb batch_byte_limit buffered.buffer_bytes)) [
            | inl due ↦ rw (on, room, has_room, due) (longer ∙ sym (enqueue-held buffered))
            | inr waits ↦ rw (on, room, has_room, waits) longer
          ]
  ]
]

write_next-held :
    (options : UsageLogOptions) (opens : Bool) (rounds : List Round) (s : UsageLog)
    → held s ≡ taken (writes opens rounds) s ++ held (write_next options opens rounds s)
unfolding taken write_next held
write_next-held options opens rounds s = go s.queue
  where
    go :
        (queue : List (List Line))
        → concat queue ++ s.buffer
          ≡ taken (writes opens rounds) (record s { queue = queue })
            ++ held (write_next options opens rounds (record s { queue = queue }))
    go [] = refl
    go (lines ∷ batches) = append_assoc lines (concat batches) s.buffer

pub step-held :
    (options : UsageLogOptions) (e : UsageStep) (s : UsageLog)
    → held s ++ accepted options e s ≡ taken e s ++ held (step options e s)
unfolding step accepted taken on_timer
step-held options flushes s = append-nil (held s) ∙ sym (enqueue-held s)
step-held options fires s = append-nil (held s) ∙ go s.has_timer
  where
    go : (b : Bool) → held s ≡ held (if b then enqueue_buffered s else s)
    go true = sym (enqueue-held s)
    go false = refl
step-held options (writes opens rounds) s =
    append-nil (held s) ∙ write_next-held options opens rounds s
step-held options (records line) s = record_line-held options line s
