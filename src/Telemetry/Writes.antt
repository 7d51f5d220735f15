-- ===== src/Telemetry/Writes.antt =====
-- src/telemetry.ts, `#writeLines`: one batch, and the size of the file that it is written to.
use chatgpt_remote_mcp.Base.{
  ℕ, ◌+◌, ◌≤◌, ◌≡◌, refl, sym, ap, subst, ◌∙◌, ◌⊎◌, inl, inr, Bool, true, false, ◌&&◌, List, [],
  ◌∷◌, ◌++◌, arith, length, ltb, leb, All, All-append, Bool-cases, length-append, Option, none,
  some, is_some,
}
use chatgpt_remote_mcp.Telemetry.{
  Line, UsageLogOptions, byte_length, append_file, current_file, Filled, fill_batch, Written,
  is_due, before_batch, is_due,
}
use chatgpt_remote_mcp.Telemetry.Rotation.{IsFile, byte_length-append, IsKept}

-- What the inner loop makes of the lines.
pub record IsFilled (size batch_bytes : ℕ) (lines : List Line) (f : Filled) : Type 0 where
  pub joined : f.batch ++ f.rest ≡ lines
  pub counted : f.batch_bytes ≡ batch_bytes + byte_length f.batch

pub fill_batch-IsFilled :
    (max_bytes size batch_bytes : ℕ) (started : Bool) (lines : List Line)
    → IsFilled size batch_bytes lines (fill_batch max_bytes size batch_bytes started lines)
unfolding fill_batch
fill_batch-IsFilled max_bytes size batch_bytes started [] = record {
  joined = refl;
  counted = omega arith;
}
fill_batch-IsFilled max_bytes size batch_bytes started (line ∷ lines) =
    let ih = fill_batch-IsFilled max_bytes size (batch_bytes + length line) true lines in
    elim (Bool-cases (started && ltb max_bytes (size + batch_bytes + length line))) [
      | inl full ↦ rw full (record { joined = refl; counted = omega arith })
      | inr room ↦ elim (Bool-cases (leb max_bytes (size + (batch_bytes + length line)))) [
        | inl last ↦ rw (room, last) (record { joined = refl; counted = omega arith })
        | inr more ↦
            rw (room, more)
              (record {
                joined = ap (λ l. line ∷ l) ih.joined;
                counted = omega (arith, ih.counted);
              })
      ]
    ]

-- A batch that was begun keeps to the size.
fill_batch-bound :
    (max_bytes size batch_bytes : ℕ) (lines : List Line)
    → size + batch_bytes ≤ max_bytes
    → size + (fill_batch max_bytes size batch_bytes true lines).batch_bytes ≤ max_bytes
unfolding fill_batch
fill_batch-bound max_bytes size batch_bytes [] h = h
fill_batch-bound max_bytes size batch_bytes (line ∷ lines) h =
    ground (arith, fill_batch-bound max_bytes size (batch_bytes + length line) lines)

-- A new batch has its first line, and keeps to the size unless that is all it has.
pub fill_batch-first :
    (max_bytes size : ℕ) (line : Line) (lines : List Line)
    → (1 ≤ length (fill_batch max_bytes size 0 false (line ∷ lines)).batch)
      × ((size + (fill_batch max_bytes size 0 false (line ∷ lines)).batch_bytes ≤ max_bytes)
          ⊎ ((fill_batch max_bytes size 0 false (line ∷ lines)).batch ≡ line ∷ []))
unfolding fill_batch
fill_batch-first max_bytes size line lines =
    elim (Bool-cases (leb max_bytes (size + (0 + length line)))) [
      | inl last ↦ rw last (omega arith, inr refl)
      | inr more ↦ rw more (
        omega arith,
        inl (fill_batch-bound max_bytes size (0 + length line) lines (ground (arith, more))),
      )
    ]

abbrev pub AreLines : List Line → Type 0
AreLines lines = All (λ line. 1 ≤ length line) lines

pub AreLines-split : (xs ys : List Line) → AreLines (xs ++ ys) → AreLines xs × AreLines ys
AreLines-split [] ys h = (tt, h)
AreLines-split (x ∷ xs) ys h = let (a, b) = AreLines-split xs ys h.1 in ((h.0, a), b)

empty_file : (file : List Line) → AreLines file → byte_length file ≡ 0 → length file ≡ 0
empty_file [] h e = refl
empty_file (line ∷ file) h e = absurd (omega (arith, h.0, e))

-- The first rotation does not fail.
pub before_size :
    (options : UsageLogOptions) (fault : Option ℕ) (line : Line) (w : Written)
    → (is_due options line w && is_some fault) ≡ false
    → ((before_batch options fault line w).size ≡ 0)
      ⊎ ((before_batch options fault line w).size + length line ≤ options.max_bytes)
before_size options (some index) line w h = elim (Bool-cases (is_due options line w)) [
  | inl due ↦ absurd (cc (rw due at h))
  | inr room ↦ rw room (ground (arith, room))
]
before_size options none line w h = elim (Bool-cases (is_due options line w)) [
  | inl due ↦ rw due (inl refl)
  | inr room ↦ rw room (ground (arith, room))
]

-- The current file with a batch at its end.
appended-IsFile :
    (options : UsageLogOptions) (current : List Line) (size : ℕ) (line : Line) (lines : List Line)
    → IsFile options.max_bytes current
    → size ≡ byte_length current
    → (size ≡ 0) ⊎ (size + length line ≤ options.max_bytes)
    → AreLines (line ∷ lines)
    → IsFile options.max_bytes
        (current ++ (fill_batch options.max_bytes size 0 false (line ∷ lines)).batch)
appended-IsFile options current size line lines file e room h =
    let f = fill_batch options.max_bytes size 0 false (line ∷ lines) in
    let filled = fill_batch-IsFilled options.max_bytes size 0 false (line ∷ lines) in
    let (some_line, bound) = fill_batch-first options.max_bytes size line lines in
    let total = byte_length-append current f.batch in
    let batch_lines =
      AreLines-split f.batch f.rest (subst (λ l. AreLines l) (sym filled.joined) h) in
    record {
      fits = elim bound [
        | inl small ↦ inl (omega (arith, small, total, e, filled.counted))
        | inr single ↦
            let one : byte_length f.batch ≡ length line + 0 = ap byte_length single in
            elim room [
              | inr enough ↦ inl (omega (arith, enough, one, total, e))
              | inl zero_size ↦ inr (
                  omega (
                    arith,
                    length-append current f.batch,
                    ap length single,
                    empty_file current file.whole (sym e ∙ zero_size),
                  ))
            ]
      ];
      whole = All-append (λ l. 1 ≤ length l) current f.batch file.whole batch_lines.0;
    }

pub appended-IsKept :
    (options : UsageLogOptions) (w : Written) (line : Line) (lines : List Line)
    → IsKept options w
    → (w.size ≡ 0) ⊎ (w.size + length line ≤ options.max_bytes)
    → AreLines (line ∷ lines)
    → IsKept options (record {
      size = w.size + (fill_batch options.max_bytes w.size 0 false (line ∷ lines)).batch_bytes;
      disk = append_file (fill_batch options.max_bytes w.size 0 false (line ∷ lines)).batch w.disk;
    })
appended-IsKept options w line lines k room h =
    let filled = fill_batch-IsFilled options.max_bytes w.size 0 false (line ∷ lines) in
    let f = fill_batch options.max_bytes w.size 0 false (line ∷ lines) in
    go w.disk k.size k.files filled.counted
  where
    go :
        (disk : List (List Line))
        → w.size ≡ byte_length (current_file disk)
        → All (IsFile options.max_bytes) disk
        → (fill_batch options.max_bytes w.size 0 false (line ∷ lines)).batch_bytes
          ≡ 0 + byte_length (fill_batch options.max_bytes w.size 0 false (line ∷ lines)).batch
        → IsKept options (record {
          size = w.size + (fill_batch options.max_bytes w.size 0 false (line ∷ lines)).batch_bytes;
          disk =
              append_file (fill_batch options.max_bytes w.size 0 false (line ∷ lines)).batch disk;
        })
    go [] e files c = record {
      size = omega (arith, e, c);
      files = (
        appended-IsFile options [] w.size line lines
            (record { fits = inr (omega arith); whole = tt }) e room h,
        tt,
      );
    }
    go (current ∷ older) e files c = record {
      size = omega (
        arith,
        e,
        c,
        byte_length-append current
            (fill_batch options.max_bytes w.size 0 false (line ∷ lines)).batch,
      );
      files = (appended-IsFile options current w.size line lines files.0 e room h, files.1);
    }
