-- ===== src/Chunks.antt =====
-- src/process-manager.ts, `utf8SequenceLengthAt` and `splitOutputChunks`: cutting a process's output
-- into pieces of at most 16 KiB that do not split a UTF-8 sequence.
pub mod Sequence
pub mod Loop
use chatgpt_remote_mcp.Base.{
  ℕ, zero, suc, ◌+◌, ◌-◌, ◌*◌, Bool, true, false, ◌&&◌, ◌||◌, not, Option, none, some, List, [],
  ◌∷◌, ◌++◌, ltb, leb, ◌==◌, if◌then◌else◌, length, get_or, drop, subarray, all,
}

abbrev pub output_chunk_bytes : ℕ
output_chunk_bytes = 16 * 1024

is_continuation_byte : ℕ → Bool
is_continuation_byte value = leb 0x80 value && leb value 0xbf

-- The length that a first byte above 0x7f announces; `none` where the code returns 1.
announced_length : ℕ → Option ℕ
announced_length first =
    if leb 0xc2 first && leb first 0xdf
    then some 2
    else if leb 0xe0 first && leb first 0xef
    then some 3
    else if leb 0xf0 first && leb first 0xf4
    then some 4
    else none

-- Second bytes that no sequence with this first byte has (overlong forms, surrogates, too large).
is_bad_second : ℕ → ℕ → Bool
is_bad_second first second =
    (first == 0xe0 && ltb second 0xa0)
    || (first == 0xed && ltb 0x9f second)
    || (first == 0xf0 && ltb second 0x90)
    || (first == 0xf4 && ltb 0x8f second)

-- The `for` loop over the bytes from the third on: `rounds` of them are left, and `length` is the
-- result if all are continuation bytes.
tail_loop : ℕ → List ℕ → ℕ → ℕ → ℕ → Bool → Option ℕ
tail_loop zero bytes offset index size final = some size
tail_loop (suc rounds) bytes offset index size final =
    let rest = tail_loop rounds bytes offset (index + 1) size final in
    if leb (length bytes) (offset + index)
    then (if final then some 1 else none)
    else if not (is_continuation_byte (get_or bytes (offset + index) 0))
    then some 1
    else rest

-- `undefined` is `none`: the sequence at `offset` may go on in the next piece of output.
pub utf8_sequence_length_at : List ℕ → ℕ → Bool → Option ℕ
unfolding is_continuation_byte announced_length is_bad_second tail_loop
utf8_sequence_length_at bytes offset final =
    let first = get_or bytes offset 0 in
    if leb first 0x7f then some 1 else elim (announced_length first) [
      | none ↦ some 1
      | some size ↦
          if leb (length bytes) (offset + 1)
          then (if final then some 1 else none)
          else let second = get_or bytes (offset + 1) 0 in
            if not (is_continuation_byte second)
            then some 1
            else if is_bad_second first second
            then some 1
            else tail_loop (size - 2) bytes offset 2 size final
    ]

pub record Split : Type 0 where
  pub chunks : List (List ℕ)
  pub remainder : List ℕ

-- The local variables of the loop.
pub record Scan : Type 0 where
  pub chunks : List (List ℕ)
  pub chunk_start : ℕ
  pub cursor : ℕ

cut : List ℕ → ℕ → Scan → Scan
cut bytes at s = record {
  chunks = s.chunks ++ subarray bytes s.chunk_start at ∷ [];
  chunk_start = at;
  cursor = at;
}

-- One round of the loop once the length of the sequence is known.
advance : List ℕ → ℕ → Scan → Scan
advance bytes sequence_length s =
    if ltb s.chunk_start s.cursor
      && ltb output_chunk_bytes (s.cursor + sequence_length - s.chunk_start)
    then cut bytes s.cursor s
    else if (s.cursor + sequence_length - s.chunk_start) == output_chunk_bytes
    then cut bytes (s.cursor + sequence_length) s
    else record s { cursor = s.cursor + sequence_length }

-- One round of the loop; `none` where its test fails or it breaks.
scan_step : List ℕ → Bool → Scan → Option Scan
scan_step bytes final s =
    if ltb s.cursor (length bytes)
    then elim (utf8_sequence_length_at bytes s.cursor final) [
      | none ↦ none
      | some sequence_length ↦ some (advance bytes sequence_length s)
    ]
    else none

scan_loop : ℕ → List ℕ → Bool → Scan → Scan
scan_loop zero bytes final s = s
scan_loop (suc fuel) bytes final s = elim (scan_step bytes final s) [
  | none ↦ s
  | some next ↦ scan_loop fuel bytes final next
]

-- The `for` loop over ASCII output.
ascii_loop : ℕ → List ℕ → ℕ → List (List ℕ)
ascii_loop zero bytes offset = []
ascii_loop (suc fuel) bytes offset = elim (ltb offset (length bytes)) [
  | true ↦
      subarray bytes offset (offset + output_chunk_bytes)
      ∷ ascii_loop fuel bytes (offset + output_chunk_bytes)
  | false ↦ []
]

is_ascii : List ℕ → Bool
is_ascii = all (λ b. leb b 0x7f)

finish_scan : List ℕ → Scan → Split
finish_scan bytes s = record {
  chunks =
      if ltb s.chunk_start s.cursor
      then s.chunks ++ subarray bytes s.chunk_start s.cursor ∷ []
      else s.chunks;
  remainder = drop s.cursor bytes;
}

-- A byte is looked at in two rounds at most.
abbrev scan_fuel : List ℕ → ℕ
scan_fuel bytes = 2 * length bytes + 1

abbrev scan_start : Scan
scan_start = record { chunks = []; chunk_start = 0; cursor = 0 }

unfoldable pub split_output_chunks : List ℕ → Bool → Split
unfolding is_ascii ascii_loop scan_loop scan_step advance cut finish_scan utf8_sequence_length_at
split_output_chunks bytes final =
    if is_ascii bytes
    then record { chunks = ascii_loop (length bytes) bytes 0; remainder = [] }
    else finish_scan bytes (scan_loop (scan_fuel bytes) bytes final scan_start)
