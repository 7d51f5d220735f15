-- ===== src/Output.antt =====
-- src/process-output-buffer.ts: the retained output of one process, an append-only array with a
-- logical head. Bytes are numbers, a `Buffer` is a list of them.
pub mod Invariant
pub mod Trim
pub mod Select
use chatgpt_remote_mcp.Base.{
  ℕ, zero, suc, ◌+◌, ◌-◌, ◌*◌, max, Bool, true, false, ◌&&◌, ◌||◌, Option, none, some, List, [],
  ◌∷◌, ◌++◌, ltb, leb, ◌==◌, if◌then◌else◌, length, get_elem?, drop,
}

pub data Stream : Type 0 where
  stdout stderr : Stream

pub record Chunk : Type 0 where
  pub seq : ℕ
  pub stream : Stream
  pub bytes : List ℕ

pub record Selection : Type 0 where
  pub chunks : List Chunk
  pub next_seq : ℕ
  pub has_more : Bool
  pub selected_bytes : ℕ

abbrev pub compact_head_threshold : ℕ
compact_head_threshold = 4096

pub record OutputBuffer : Type 0 where
  pub chunks : List Chunk
  pub head_index : ℕ
  pub base_seq : ℕ
  pub next_seq : ℕ
  pub retained_bytes : ℕ
  pub dropped_bytes : ℕ

abbrev pub new_buffer : OutputBuffer
new_buffer = record {
  chunks = [];
  head_index = 0;
  base_seq = 1;
  next_seq = 1;
  retained_bytes = 0;
  dropped_bytes = 0;
}

abbrev pub latest_seq : OutputBuffer → ℕ
latest_seq b = b.next_seq - 1

abbrev pub retained_chunk_count : OutputBuffer → ℕ
retained_chunk_count b = length b.chunks - b.head_index

-- One round of the loop of `append`.
push_chunk : Stream → List ℕ → OutputBuffer → OutputBuffer
push_chunk stream bytes b = record b {
  chunks = b.chunks ++ record { seq = b.next_seq; stream = stream; bytes = bytes } ∷ [];
  next_seq = b.next_seq + 1;
  retained_bytes = b.retained_bytes + length bytes;
}

unfoldable pub append : Stream → List (List ℕ) → OutputBuffer → OutputBuffer
unfolding push_chunk
append stream [] b = b
append stream (bytes ∷ rest) b = append stream rest (push_chunk stream bytes b)

-- The body of the loop of `trim_to`, at the chunk under the head.
evict : Chunk → OutputBuffer → OutputBuffer
evict removed b = record b {
  head_index = b.head_index + 1;
  base_seq = removed.seq + 1;
  retained_bytes = b.retained_bytes - length removed.bytes;
  dropped_bytes = b.dropped_bytes + length removed.bytes;
}

-- The loop of `trim_to`, with the bytes dropped so far; it needs a round for each retained chunk.
trim_loop : ℕ → ℕ → OutputBuffer → ℕ → OutputBuffer × ℕ
trim_loop zero max_bytes b dropped = (b, dropped)
trim_loop (suc fuel) max_bytes b dropped =
    elim (ltb max_bytes b.retained_bytes && ltb b.head_index (length b.chunks)) [
      | false ↦ (b, dropped)
      | true ↦ elim (get_elem? b.chunks b.head_index) [
        | none ↦ (b, dropped)
        | some removed ↦ trim_loop fuel max_bytes (evict removed b) (dropped + length removed.bytes)
      ]
    ]

compact_if_needed : OutputBuffer → OutputBuffer
compact_if_needed b =
    if b.head_index == 0
    then b
    else if b.head_index == length b.chunks
    then record b { chunks = []; head_index = 0; base_seq = b.next_seq }
    else if leb compact_head_threshold b.head_index || leb (length b.chunks) (b.head_index * 2)
    then record b { chunks = drop b.head_index b.chunks; head_index = 0 }
    else b

unfoldable pub trim_to : ℕ → OutputBuffer → OutputBuffer × ℕ
unfolding trim_loop evict compact_if_needed
trim_to max_bytes b =
    let (trimmed, dropped) = trim_loop (length b.chunks) max_bytes b 0 in
    (compact_if_needed trimmed, dropped)

-- The loop of `select_after`, over the chunks from `index` on: what is selected, its bytes, and
-- whether a chunk is left.
select_loop : ℕ → List Chunk → ℕ → List Chunk × ℕ × Bool
select_loop max_bytes [] selected_bytes = ([], selected_bytes, false)
select_loop max_bytes (chunk ∷ rest) selected_bytes =
    elim (ltb max_bytes (selected_bytes + length chunk.bytes)) [
      | true ↦ ([], selected_bytes, true)
      | false ↦
          let (selected, bytes, more) =
            select_loop max_bytes rest (selected_bytes + length chunk.bytes) in
          (chunk ∷ selected, bytes, more)
    ]

-- `selected.at(-1)?.seq ?? afterSeq`.
abbrev last_seq_or : List Chunk → ℕ → ℕ
last_seq_or [] d = d
last_seq_or (c ∷ cs) d = last_seq_or cs c.seq

abbrev nothing_after : ℕ → Selection
nothing_after after_seq = record {
  chunks = [];
  next_seq = after_seq;
  has_more = false;
  selected_bytes = 0;
}

unfoldable pub select_after : ℕ → ℕ → OutputBuffer → Selection
unfolding select_loop
select_after after_seq max_bytes b =
    if leb (length b.chunks) b.head_index || leb b.next_seq (after_seq + 1)
    then nothing_after after_seq
    else let requested_seq = max (after_seq + 1) b.base_seq in
      if leb b.next_seq requested_seq
      then nothing_after after_seq
      else let index = b.head_index + (requested_seq - b.base_seq) in
        let (selected, bytes, more) = select_loop max_bytes (drop index b.chunks) 0 in
        record {
          chunks = selected;
          next_seq = last_seq_or selected after_seq;
          has_more = more;
          selected_bytes = bytes;
        }
