-- ===== src/Telemetry/Each.antt =====
-- src/telemetry.ts, `#writeLines`, described line by line: each line goes to the end of the current file,
-- after a rotation if the file has bytes and no room for the line. The loop, which writes batches, does the same.
use chatgpt_remote_mcp.Base.{
  ℕ, zero, suc, ◌+◌, ◌≤◌, ◌≡◌, refl, sym, ap, subst, ◌∙◌, inl, inr, Bool, true, false, ◌&&◌, none,
  List, [], ◌∷◌, ◌++◌, arith, length, ltb, leb, append_assoc, append-nil, Bool-cases, if◌then◌else◌,
}
use chatgpt_remote_mcp.Telemetry.{
  Line, UsageLogOptions, append_file, byte_length, current_file, Filled, fill_batch, Written,
  is_left, rotate_if, is_due, is_due_after, before_batch, appended, after_batch, write_loop,
}
use chatgpt_remote_mcp.Telemetry.Writes.{
  AreLines, AreLines-split, fill_batch-IsFilled, fill_batch-first,
}
use chatgpt_remote_mcp.Telemetry.Rounds.{fill_batch-rest}

-- The line is written without a failure.
abbrev pub write_one : UsageLogOptions → Line → Written → Written
write_one options line w =
    let ready = before_batch options none line w in
    record { size = ready.size + length line; disk = append_file (line ∷ []) ready.disk }

unfoldable pub write_each : UsageLogOptions → Written → List Line → Written
write_each options w [] = w
write_each options w (line ∷ lines) = write_each options (write_one options line w) lines

pub write_each-append :
    (options : UsageLogOptions) (w : Written) (xs ys : List Line)
    → write_each options w (xs ++ ys) ≡ write_each options (write_each options w xs) ys
unfolding write_each
write_each-append options w [] ys = refl
write_each-append options w (x ∷ xs) ys = write_each-append options (write_one options x w) xs ys

-- The files after these lines are written one by one.
unfoldable pub logged : UsageLogOptions → List (List Line) → List Line → List (List Line)
unfolding write_each
logged options disk lines =
    (write_each options (record { size = byte_length (current_file disk); disk = disk }) lines).disk

-- The rest of the lines, after a batch was added to the current file.
abbrev finish : UsageLogOptions → ℕ → List Line → List (List Line) → Filled → Written
finish options size current older f =
    write_each options (record { size = size + f.batch_bytes; disk = (current ++ f.batch) ∷ older })
      f.rest

-- A line for which there is room.
write_one-room :
    (options : UsageLogOptions) (line : Line) (size : ℕ) (current : List Line)
    (older : List (List Line))
    → ltb options.max_bytes (size + length line) ≡ false
    → write_one options line (record { size = size; disk = current ∷ older })
      ≡ record { size = size + length line; disk = (current ++ line ∷ []) ∷ older }
write_one-room options line size current older room = elim (Bool-cases (ltb 0 size)) [
  | inl some_bytes ↦ rw (some_bytes, room) refl
  | inr no_bytes ↦ rw no_bytes refl
]

-- The inner loop, of a batch that was begun, against the lines one by one.
fill_batch-each :
    (options : UsageLogOptions) (size bytes : ℕ) (current : List Line) (older : List (List Line))
    (lines : List Line)
    → write_each options (record { size = size + bytes; disk = current ∷ older }) lines
      ≡ finish options size current older (fill_batch options.max_bytes size bytes true lines)
unfolding fill_batch write_each
fill_batch-each options size bytes current older [] =
    ap (λ c. record { size = size + bytes; disk = c ∷ older }) (sym (append-nil current))
fill_batch-each options size bytes current older (line ∷ lines) =
    go (ltb options.max_bytes (size + bytes + length line)) refl
      (leb options.max_bytes (size + (bytes + length line)))
      (fill_batch-each options size (bytes + length line) (current ++ line ∷ []) older lines)
  where
    wrote :
        ltb options.max_bytes (size + bytes + length line) ≡ false
        → write_each options (record { size = size + bytes; disk = current ∷ older }) (line ∷ lines)
          ≡ write_each options
              (record {
                size = size + (bytes + length line);
                disk = (current ++ line ∷ []) ∷ older;
              })
              lines
    wrote room =
        let sum : size + bytes + length line ≡ size + (bytes + length line) = omega arith in
        ap (λ v. write_each options v lines)
          (write_one-room options line (size + bytes) current older room)
        ∙ ap
            (λ n.
              write_each options (record { size = n; disk = (current ++ line ∷ []) ∷ older }) lines)
            sum

    go :
        (full : Bool)
        → ltb options.max_bytes (size + bytes + length line) ≡ full
        → (last : Bool)
        → write_each options
            (record { size = size + (bytes + length line); disk = (current ++ line ∷ []) ∷ older })
            lines
          ≡ finish options size
              (current ++ line ∷ [])
              older
              (fill_batch options.max_bytes size (bytes + length line) true lines)
        → write_each options (record { size = size + bytes; disk = current ∷ older }) (line ∷ lines)
          ≡ finish options size current older (
              if full
              then record { batch = []; batch_bytes = bytes; rest = line ∷ lines }
              else if last
              then record { batch = line ∷ []; batch_bytes = bytes + length line; rest = lines }
              else record {
                batch =
                    line
                    ∷ (fill_batch options.max_bytes size (bytes + length line) true lines).batch;
                batch_bytes =
                    (fill_batch options.max_bytes size
                      (bytes + length line)
                      true
                      lines).batch_bytes;
                rest = (fill_batch options.max_bytes size (bytes + length line) true lines).rest;
              })
    go true e last ih =
        ap
          (λ c.
            write_each options (record { size = size + bytes; disk = c ∷ older }) (line ∷ lines))
          (sym (append-nil current))
    go false e true ih = wrote e
    go false e false ih =
        let more = fill_batch options.max_bytes size (bytes + length line) true lines in
        wrote e
        ∙ ih
        ∙ ap
            (λ c.
              write_each options (record { size = size + more.batch_bytes; disk = c ∷ older })
                more.rest)
            (append_assoc current (line ∷ []) more.batch)

-- The inner loop from its first line.
batch-each :
    (options : UsageLogOptions) (size : ℕ) (disk : List (List Line)) (line : Line)
    (lines : List Line)
    → write_each options
        (record { size = size + length line; disk = append_file (line ∷ []) disk })
        lines
      ≡ write_each options
          (appended
            (fill_batch options.max_bytes size 0 false (line ∷ lines))
            (record { size = size; disk = disk }))
          (fill_batch options.max_bytes size 0 false (line ∷ lines)).rest
unfolding fill_batch
batch-each options size disk line lines = go (leb options.max_bytes (size + (0 + length line))) disk
  where
    sum : size + length line ≡ size + (0 + length line)
    sum = omega arith

    first :
        (last : Bool) (current : List Line) (older : List (List Line))
        → write_each options
            (record { size = size + length line; disk = (current ++ line ∷ []) ∷ older })
            lines
          ≡ finish options size current older (
              if last
              then record { batch = line ∷ []; batch_bytes = 0 + length line; rest = lines }
              else record {
                batch =
                    line ∷ (fill_batch options.max_bytes size (0 + length line) true lines).batch;
                batch_bytes =
                    (fill_batch options.max_bytes size (0 + length line) true lines).batch_bytes;
                rest = (fill_batch options.max_bytes size (0 + length line) true lines).rest;
              })
    first true current older =
        ap
          (λ n.
            write_each options (record { size = n; disk = (current ++ line ∷ []) ∷ older }) lines)
          sum
    first false current older =
        let more = fill_batch options.max_bytes size (0 + length line) true lines in
        ap
          (λ n.
            write_each options (record { size = n; disk = (current ++ line ∷ []) ∷ older }) lines)
          sum
        ∙ fill_batch-each options size (0 + length line) (current ++ line ∷ []) older lines
        ∙ ap
            (λ c.
              write_each options (record { size = size + more.batch_bytes; disk = c ∷ older })
                more.rest)
            (append_assoc current (line ∷ []) more.batch)

    go :
        (last : Bool) (disk : List (List Line))
        → write_each options
            (record { size = size + length line; disk = append_file (line ∷ []) disk })
            lines
          ≡ write_each options
              (appended
                (if last
                  then record { batch = line ∷ []; batch_bytes = 0 + length line; rest = lines }
                  else record {
                    batch =
                        line
                        ∷ (fill_batch options.max_bytes size (0 + length line) true lines).batch;
                    batch_bytes =
                        (fill_batch options.max_bytes size
                          (0 + length line)
                          true
                          lines).batch_bytes;
                    rest = (fill_batch options.max_bytes size (0 + length line) true lines).rest;
                  })
                (record { size = size; disk = disk }))
              (if◌then◌else◌ {A = Filled} last
                (record { batch = line ∷ []; batch_bytes = 0 + length line; rest = lines })
                (record {
                  batch =
                      line ∷ (fill_batch options.max_bytes size (0 + length line) true lines).batch;
                  batch_bytes =
                      (fill_batch options.max_bytes size (0 + length line) true lines).batch_bytes;
                  rest = (fill_batch options.max_bytes size (0 + length line) true lines).rest;
                })).rest
    go true [] = first true [] []
    go true (current ∷ older) = first true current older
    go false [] = first false [] []
    go false (current ∷ older) = first false current older

-- The last rotation of a round is the one that the next line would have made.
rotate-each :
    (options : UsageLogOptions) (w : Written) (due : Bool) (lines : List Line)
    → (is_left lines && leb options.max_bytes w.size) ≡ due
    → 1 ≤ w.size
    → AreLines lines
    → write_each options w lines ≡ write_each options (rotate_if due none options w) lines
unfolding write_each
rotate-each options w false lines e m h = refl
rotate-each options w true [] e m h = cc e
rotate-each options w true (line ∷ lines) e m h =
    let due : is_due options line w ≡ true = ground (arith, e, m, h.0) in
    ap
      (λ b.
        write_each options
          (record {
            size = (rotate_if b none options w).size + length line;
            disk = append_file (line ∷ []) (rotate_if b none options w).disk;
          })
          lines)
      due

byte_length-some : (lines : List Line) → AreLines lines → 1 ≤ length lines → 1 ≤ byte_length lines
byte_length-some [] h m = absurd (omega arith)
byte_length-some (line ∷ lines) h m = omega (arith, h.0)

-- One round.
round-each :
    (options : UsageLogOptions) (line : Line) (lines : List Line) (w : Written)
    → AreLines (line ∷ lines)
    → write_each options w (line ∷ lines)
      ≡ write_each options
          (after_batch options none
            (fill_batch options.max_bytes
              (before_batch options none line w).size
              0
              false
              (line ∷ lines))
            (before_batch options none line w))
          (fill_batch options.max_bytes
            (before_batch options none line w).size
            0
            false
            (line ∷ lines)).rest
unfolding write_each
round-each options line lines w h =
    let ready = before_batch options none line w in
    let f = fill_batch options.max_bytes ready.size 0 false (line ∷ lines) in
    let filled = fill_batch-IsFilled options.max_bytes ready.size 0 false (line ∷ lines) in
    let first = fill_batch-first options.max_bytes ready.size line lines in
    let of_batch =
      (AreLines-split f.batch f.rest (subst (λ l. AreLines l) (sym filled.joined) h)).0 in
    batch-each options ready.size ready.disk line lines
    ∙ rotate-each options (appended f ready) (is_due_after options f ready) f.rest refl
        (omega (arith, filled.counted, byte_length-some f.batch of_batch first.0))
        (fill_batch-rest options ready.size line lines h).0

pass : (b : Bool) (x y : Written × Bool) → (if b && false then x else y) ≡ y
pass true x y = refl
pass false x y = refl

-- The whole loop, where nothing throws.
pub write_loop-each :
    (fuel : ℕ) (options : UsageLogOptions) (w : Written) (lines : List Line)
    → AreLines lines
    → length lines ≤ fuel
    → write_loop fuel options [] w lines ≡ (write_each options w lines, true)
unfolding write_loop write_each
write_loop-each zero options w [] h m = refl
write_loop-each zero options w (line ∷ lines) h m = absurd (omega arith)
write_loop-each (suc fuel) options w [] h m = refl
write_loop-each (suc fuel) options w (line ∷ lines) h m =
    let ready = before_batch options none line w in
    let f = fill_batch options.max_bytes ready.size 0 false (line ∷ lines) in
    let rest = fill_batch-rest options ready.size line lines h in
    pass (is_due options line w) _ _
    ∙ pass (is_due_after options f ready) _ _
    ∙ write_loop-each fuel options _ f.rest rest.0 (omega (arith, rest.1))
    ∙ ap (λ v. (v, true)) (sym (round-each options line lines w h))
