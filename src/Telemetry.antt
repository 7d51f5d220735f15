-- ===== src/Telemetry.antt =====
-- src/telemetry.ts, `UsageLog`: the bounded buffer of usage events and the rotated files that it writes. A
-- line is its bytes. The chain of promises is the queue of the batches that were not written yet.
pub mod Writes
pub mod Rotation
pub mod Rounds
pub mod Each
pub mod Events
pub mod Invariant
pub mod Order
pub mod Drain
pub mod Logged
use chatgpt_remote_mcp.Base.{
  ℕ, zero, suc, ◌+◌, ◌-◌, ◌*◌, Bool, true, false, ◌&&◌, ◌||◌, not, List, [], ◌∷◌, ltb, leb,
  if◌then◌else◌, length, take, drop, Option, none, some, is_some, ◌++◌,
}

abbrev pub max_pending_events : ℕ
max_pending_events = 1000

abbrev pub batch_event_limit : ℕ
batch_event_limit = 100

abbrev pub batch_byte_limit : ℕ
batch_byte_limit = 64 * 1024

abbrev pub Line : Type 0
Line = List ℕ

-- `enabled` is false where there is no directory. `files` is one more than `older_files`: src/config.ts reads
-- a number that is at least one.
pub record UsageLogOptions : Type 0 where
  pub enabled : Bool
  pub max_bytes : ℕ
  pub older_files : ℕ

-- `disk` has the lines of `requests.jsonl`, then those of `requests.jsonl.1` and so on.
pub record UsageLog : Type 0 where
  pub buffer : List Line
  pub buffer_bytes : ℕ
  pub queue : List (List Line)
  pub pending : ℕ
  pub has_timer : Bool
  pub dropped_events : ℕ
  pub write_failures : ℕ
  pub initialized : Bool
  pub size : ℕ
  pub disk : List (List Line)

pub new_log : List (List Line) → UsageLog
new_log disk = record {
  buffer = [];
  buffer_bytes = 0;
  queue = [];
  pending = 0;
  has_timer = false;
  dropped_events = 0;
  write_failures = 0;
  initialized = false;
  size = 0;
  disk = disk;
}

-- `#enqueueBuffered`, which also clears the timer.
abbrev pub enqueue_buffered : UsageLog → UsageLog
enqueue_buffered s = elim s.buffer [
  | [] ↦ record s { has_timer = false }
  | line ∷ lines ↦ record s {
    buffer = [];
    buffer_bytes = 0;
    queue = s.queue ++ (line ∷ lines) ∷ [];
    has_timer = false;
  }
]

-- `record`, of an event that is serialized to this line.
unfoldable pub record_line : UsageLogOptions → Line → UsageLog → UsageLog
record_line options line s =
    let buffered : UsageLog = record s {
      buffer = s.buffer ++ line ∷ [];
      buffer_bytes = s.buffer_bytes + length line;
      pending = s.pending + 1;
    } in
    if not options.enabled
    then s
    else if leb max_pending_events s.pending
    then record s { dropped_events = s.dropped_events + 1 }
    else if leb batch_event_limit (length buffered.buffer)
        || leb batch_byte_limit buffered.buffer_bytes
    then enqueue_buffered buffered
    else record buffered { has_timer = true }

-- The flush timer fires.
unfoldable pub on_timer : UsageLog → UsageLog
on_timer s = if s.has_timer then enqueue_buffered s else s

-- `#rotate`, where all calls work: the oldest file of `files` is removed, and each other is renamed to the
-- next number. Files of larger numbers stay.
pub rotated : ℕ → List (List Line) → List (List Line)
rotated zero disk = disk
rotated (suc n) disk = [] ∷ (take n disk ++ drop (suc n) disk)

-- `#rotate`, where a call throws: so many of the newest files are not moved.
pub rotated_from : ℕ → ℕ → List (List Line) → List (List Line)
unfolding rotated
rotated_from zero files disk = rotated files disk
rotated_from (suc stays) zero disk = disk
rotated_from (suc stays) (suc files) [] = []
rotated_from (suc stays) (suc files) (file ∷ older) = file ∷ rotated_from stays files older

-- The call that throws is of the file of this number.
unfoldable pub rotate : ℕ → Option ℕ → List (List Line) → List (List Line)
unfolding rotated rotated_from
rotate files none disk = rotated files disk
rotate files (some index) disk = rotated_from (suc index) files disk

abbrev pub byte_length : List Line → ℕ
byte_length [] = 0
byte_length (line ∷ lines) = length line + byte_length lines

-- `appendFile` to the current file.
abbrev pub append_file : List Line → List (List Line) → List (List Line)
append_file batch [] = batch ∷ []
append_file batch (current ∷ older) = (current ++ batch) ∷ older

abbrev pub current_file : List (List Line) → List Line
current_file [] = []
current_file (current ∷ older) = current

-- The inner loop of `#writeLines`: the batch, its bytes and the lines that are left. `started` is whether
-- the batch has a line.
pub record Filled : Type 0 where
  pub batch : List Line
  pub batch_bytes : ℕ
  pub rest : List Line

pub fill_batch : ℕ → ℕ → ℕ → Bool → List Line → Filled
fill_batch max_bytes size batch_bytes started [] = record {
  batch = [];
  batch_bytes = batch_bytes;
  rest = [];
}
fill_batch max_bytes size batch_bytes started (line ∷ lines) =
    let total = batch_bytes + length line in
    let more = fill_batch max_bytes size total true lines in
    if started && ltb max_bytes (size + batch_bytes + length line)
    then record { batch = []; batch_bytes = batch_bytes; rest = line ∷ lines }
    else if leb max_bytes (size + total)
    then record { batch = line ∷ []; batch_bytes = total; rest = lines }
    else record { batch = line ∷ more.batch; batch_bytes = more.batch_bytes; rest = more.rest }

-- What the loop of `#writeLines` changes.
pub record Written : Type 0 where
  pub size : ℕ
  pub disk : List (List Line)

-- The size is set when the rotation is over.
abbrev pub rotate_if : Bool → Option ℕ → UsageLogOptions → Written → Written
rotate_if false fault options w = w
rotate_if true none options w = record {
  size = 0;
  disk = rotate (suc options.older_files) none w.disk;
}
rotate_if true (some index) options w = record {
  size = w.size;
  disk = rotate (suc options.older_files) (some index) w.disk;
}

abbrev pub is_left : List Line → Bool
is_left [] = false
is_left (line ∷ lines) = true

-- What the calls of a round do: where a rotation throws, and whether `appendFile` works.
pub record Round : Type 0 where
  pub first_rotation : Option ℕ
  pub appends : Bool
  pub last_rotation : Option ℕ

abbrev pub good_round : Round
good_round = record { first_rotation = none; appends = true; last_rotation = none }

-- One round: a batch is written, between two rotations that may be due.
abbrev pub is_due : UsageLogOptions → Line → Written → Bool
is_due options line w = ltb 0 w.size && ltb options.max_bytes (w.size + length line)

abbrev pub before_batch : UsageLogOptions → Option ℕ → Line → Written → Written
before_batch options fault line w = rotate_if (is_due options line w) fault options w

abbrev pub appended : Filled → Written → Written
appended f w = record { size = w.size + f.batch_bytes; disk = append_file f.batch w.disk }

abbrev pub is_due_after : UsageLogOptions → Filled → Written → Bool
is_due_after options f w = is_left f.rest && leb options.max_bytes (w.size + f.batch_bytes)

abbrev pub after_batch : UsageLogOptions → Option ℕ → Filled → Written → Written
after_batch options fault f w = rotate_if (is_due_after options f w) fault options (appended f w)

abbrev pub next_round : List Round → Round
next_round [] = good_round
next_round (round ∷ rounds) = round

abbrev pub later_rounds : List Round → List Round
later_rounds [] = []
later_rounds (round ∷ rounds) = rounds

-- The loop, with at most `fuel` rounds; what throws in a round ends it. All is well in the rounds after
-- those that are listed.
pub write_loop : ℕ → UsageLogOptions → List Round → Written → List Line → Written × Bool
unfolding fill_batch rotate
write_loop zero options rounds w lines = (w, true)
write_loop (suc fuel) options rounds w [] = (w, true)
write_loop (suc fuel) options rounds w (line ∷ lines) =
    let round = next_round rounds in
    let ready = before_batch options round.first_rotation line w in
    let f = fill_batch options.max_bytes ready.size 0 false (line ∷ lines) in
    let after = after_batch options round.last_rotation f ready in
    let rest = write_loop fuel options (later_rounds rounds) after f.rest in
    if is_due options line w && is_some round.first_rotation
    then (ready, false)
    else if not round.appends
    then (ready, false)
    else if is_due_after options f ready && is_some round.last_rotation
    then (after, false)
    else rest

-- `#initialize` reads the size of the current file.
abbrev pub known_size : UsageLog → ℕ
known_size s = if s.initialized then s.size else byte_length (current_file s.disk)

-- `opens` is false where `#initialize` throws, which it does not if it was done before.
abbrev pub write_lines : UsageLogOptions → Bool → List Round → UsageLog → List Line → Written × Bool
write_lines options opens rounds s lines =
    if not opens && not s.initialized
    then (record { size = s.size; disk = s.disk }, false)
    else write_loop (length lines) options rounds (record { size = known_size s; disk = s.disk })
        lines

-- The next batch of the queue is written, or its write fails.
unfoldable pub write_next : UsageLogOptions → Bool → List Round → UsageLog → UsageLog
unfolding write_loop
write_next options opens rounds s = elim s.queue [
  | [] ↦ s
  | lines ∷ batches ↦
      let result = write_lines options opens rounds s lines in
      record s {
        queue = batches;
        pending = s.pending - length lines;
        write_failures = s.write_failures + (if result.1 then 0 else 1);
        initialized = result.1;
        size = result.0.size;
        disk = result.0.disk;
      }
]
