-- ===== src/Chunks/Sequence.antt =====
-- What the length of a sequence can be.
use chatgpt_remote_mcp.Base.{
  ℕ, zero, suc, ◌+◌, ◌-◌, ◌≤◌, ◌<◌, ◌≡◌, Bool, false, Option, none, some, List, arith, length,
  get_or, leb, if◌then◌else◌, not, inl, inr, Bool-cases, Option-cases,
}
use chatgpt_remote_mcp.Chunks.{
  announced_length, tail_loop, utf8_sequence_length_at, is_continuation_byte,
}

-- A length found lies in the output and is 1 to 4; where none is found the output ends within three
-- bytes, and more of it may come.
abbrev pub Fits : List ℕ → ℕ → Bool → Option ℕ → Type 0
Fits bytes offset final none = (length bytes ≤ offset + 3) × (final ≡ false)
Fits bytes offset final (some n) = (1 ≤ n) × (n ≤ 4) × (offset + n ≤ length bytes)

tail_loop-Fits :
    (rounds : ℕ) (bytes : List ℕ) (offset index size : ℕ) (final : Bool)
    → index + rounds ≡ size
    → 2 ≤ index
    → size ≤ 4
    → offset + index ≤ length bytes
    → Fits bytes offset final (tail_loop rounds bytes offset index size final)
unfolding tail_loop
tail_loop-Fits zero bytes offset index size final e l u h = omega arith
tail_loop-Fits (suc rounds) bytes offset index size final e l u h =
    ground (
      arith,
      tail_loop-Fits rounds bytes offset (index + 1) size final (omega arith) (omega arith) u,
    )

announced_length-bounds : (first n : ℕ) → announced_length first ≡ some n → (2 ≤ n) × (n ≤ 4)
unfolding announced_length
announced_length-bounds first n h = ground arith

-- Once a length is announced.
announced-Fits :
    (bytes : List ℕ) (offset size : ℕ) (final bad : Bool)
    → offset < length bytes
    → (2 ≤ size) × (size ≤ 4)
    → Fits bytes offset final (
        if leb (length bytes) (offset + 1)
        then (if final then some 1 else none)
        else if not (is_continuation_byte (get_or bytes (offset + 1) 0))
        then some 1
        else if bad
        then some 1
        else tail_loop (size - 2) bytes offset 2 size final)
announced-Fits bytes offset size final bad h s =
    ground
      (arith, tail_loop-Fits (size - 2) bytes offset 2 size final (omega arith) (omega arith) s.1)

pub utf8_sequence_length_at-Fits :
    (bytes : List ℕ) (offset : ℕ) (final : Bool)
    → offset < length bytes
    → Fits bytes offset final (utf8_sequence_length_at bytes offset final)
unfolding utf8_sequence_length_at
utf8_sequence_length_at-Fits bytes offset final h =
    let first = get_or bytes offset 0 in
    elim (Bool-cases (leb first 0x7f)) [
      | inl ascii ↦ rw (ascii, utf8_sequence_length_at) (omega arith)
      | inr high ↦ elim (Option-cases (announced_length first)) [
        | inl lone ↦ rw (high, lone, utf8_sequence_length_at) (omega arith)
        | inr (size, e) ↦
            rw (high, e, utf8_sequence_length_at)
              (announced-Fits bytes offset size final _ h (announced_length-bounds first size e))
      ]
    ]
