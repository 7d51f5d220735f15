-- ===== src/Chunks/Loop.antt =====
-- The loop of `splitOutputChunks`: its invariant, its end, and what the function returns.
use chatgpt_remote_mcp.Base.{
  ℕ, zero, suc, ◌+◌, ◌-◌, ◌*◌, min, ◌≤◌, ◌<◌, ◌≡◌, refl, sym, ap, ◌∙◌, inl, inr, Bool, true, ◌&&◌,
  none, some, List, [], ◌∷◌, ◌++◌, arith, length, take, drop, subarray, concat, All, All-append,
  length-subarray, length-take, length-drop, take-subarray, take-append-drop, concat-snoc, drop-all,
  drop-drop, append-nil, ltb, ◌==◌, Bool-cases, Option-cases, if◌then◌else◌,
}
use chatgpt_remote_mcp.Chunks.{
  Split, Scan, output_chunk_bytes, utf8_sequence_length_at, cut, advance, scan_step, scan_loop,
  scan_fuel, scan_start, ascii_loop, is_ascii, finish_scan, split_output_chunks,
}
use chatgpt_remote_mcp.Chunks.Sequence.{utf8_sequence_length_at-Fits}

-- A piece is not empty and has at most 16 KiB.
abbrev pub IsPiece : List ℕ → Type 0
IsPiece c = (1 ≤ length c) × (length c ≤ output_chunk_bytes)

record IsScan (bytes : List ℕ) (s : Scan) : Type 0 where
  ordered : s.chunk_start ≤ s.cursor
  in_range : s.cursor ≤ length bytes
  joined : concat s.chunks ≡ take s.chunk_start bytes
  sized : All IsPiece s.chunks
  short : s.cursor < s.chunk_start + output_chunk_bytes

concat-slice :
    (bytes : List ℕ) (chunks : List (List ℕ)) (from to : ℕ)
    → concat chunks ≡ take from bytes
    → from ≤ to
    → concat (chunks ++ subarray bytes from to ∷ []) ≡ take to bytes
concat-slice bytes chunks from to e h =
    concat-snoc chunks (subarray bytes from to)
    ∙ ap (λ l. l ++ subarray bytes from to) e
    ∙ take-subarray from to bytes h

sized-slice :
    (bytes : List ℕ) (chunks : List (List ℕ)) (from to : ℕ)
    → All IsPiece chunks
    → from < to
    → to ≤ length bytes
    → to ≤ from + output_chunk_bytes
    → All IsPiece (chunks ++ subarray bytes from to ∷ [])
sized-slice bytes chunks from to a h k l =
    let e = length-subarray from to bytes (omega arith) k in
    All-append IsPiece chunks _ a ((omega (arith, e), omega (arith, e)), tt)

cut-IsScan :
    (bytes : List ℕ) (at : ℕ) (s : Scan)
    → IsScan bytes s
    → s.chunk_start < at
    → at ≤ length bytes
    → at ≤ s.chunk_start + output_chunk_bytes
    → IsScan bytes (cut bytes at s)
unfolding cut
cut-IsScan bytes at s v h k l = record {
  ordered = omega arith;
  in_range = k;
  joined = concat-slice bytes s.chunks s.chunk_start at v.joined (omega arith);
  sized = sized-slice bytes s.chunks s.chunk_start at v.sized h k l;
  short = omega arith;
}

-- How many rounds are left.
measure : List ℕ → Scan → ℕ
measure bytes s = 2 * (length bytes - s.cursor) + (if ltb s.chunk_start s.cursor then 1 else 0)

advance-IsScan :
    (bytes : List ℕ) (n : ℕ) (s : Scan)
    → IsScan bytes s
    → (1 ≤ n) × (n ≤ 4) × (s.cursor + n ≤ length bytes)
    → IsScan bytes (advance bytes n s) × (measure bytes (advance bytes n s) < measure bytes s)
unfolding advance measure
advance-IsScan bytes n s v f =
    elim (Bool-cases
      (ltb s.chunk_start s.cursor && ltb output_chunk_bytes (s.cursor + n - s.chunk_start))) [
        | inl full ↦ rw full (
          cut-IsScan bytes s.cursor s v (ground (arith, full)) v.in_range (omega (arith, v.short)),
          unfold cut in ground (arith, full),
        )
        | inr room ↦ elim (Bool-cases ((s.cursor + n - s.chunk_start) == output_chunk_bytes)) [
          | inl exact ↦
              rw (room, exact)
                (
                  cut-IsScan bytes (s.cursor + n) s v (omega (arith, v.ordered)) f.2
                      (ground (arith, exact)),
                  unfold cut in ground (arith, v.ordered),
                )
          | inr more ↦
              rw (room, more)
                (
                  record {
                    ordered = omega (arith, v.ordered);
                    in_range = f.2;
                    joined = v.joined;
                    sized = v.sized;
                    short = ground (arith, room, more, v.short, v.ordered);
                  },
                  ground (arith, v.ordered),
                )
        ]
      ]

-- With enough rounds the loop ends by its test or by its break.
scan_loop-ends :
    (fuel : ℕ) (bytes : List ℕ) (final : Bool) (s : Scan)
    → IsScan bytes s
    → measure bytes s < fuel
    → IsScan bytes (scan_loop fuel bytes final s)
      × (scan_step bytes final (scan_loop fuel bytes final s) ≡ none)
unfolding scan_loop
scan_loop-ends zero bytes final s v h = absurd (omega arith)
scan_loop-ends (suc fuel) bytes final s v h = elim (Bool-cases (ltb s.cursor (length bytes))) [
  | inr over ↦
      let stop : scan_step bytes final s ≡ none = unfold scan_step in rw over in
      rw (stop, scan_loop) (v, stop)
  | inl inside ↦ elim (Option-cases (utf8_sequence_length_at bytes s.cursor final)) [
    | inl open_end ↦
        let stop : scan_step bytes final s ≡ none =
          unfold scan_step in rw (inside, open_end, scan_step) in
        rw (stop, scan_loop) (v, stop)
    | inr (n, e) ↦
        let fits = utf8_sequence_length_at-Fits bytes s.cursor final (ground (arith, inside)) in
        let (valid, less) = advance-IsScan bytes n s v (rw e at fits) in
        let go : scan_step bytes final s ≡ some (advance bytes n s) =
          unfold scan_step in rw (inside, e, scan_step) in
        rw (go, scan_loop) (scan_loop-ends fuel bytes final (advance bytes n s) valid (omega arith))
  ]
]

-- Where no round is left, the output is used up but for an open end that only a piece of output
-- with more to come has.
stopped-cursor :
    (bytes : List ℕ) (final : Bool) (s : Scan)
    → s.cursor ≤ length bytes
    → scan_step bytes final s ≡ none
    → (length bytes ≤ s.cursor + 3) × (final ≡ true → s.cursor ≡ length bytes)
unfolding scan_step
stopped-cursor bytes final s h stop = elim (Bool-cases (ltb s.cursor (length bytes))) [
  | inr over ↦ (ground (arith, over), λ _. ground (arith, over))
  | inl inside ↦
      let fits = utf8_sequence_length_at-Fits bytes s.cursor final (ground (arith, inside)) in
      elim (Option-cases (utf8_sequence_length_at bytes s.cursor final)) [
        | inl e ↦ let f = rw e at fits in (f.0, λ t. cc (t, f.1))
        | inr (n, e) ↦ cc (rw (inside, e, scan_step) at stop)
      ]
]

-- What a split of `bytes` promises.
pub record IsSplit (bytes : List ℕ) (final : Bool) (s : Split) : Type 0 where
  pub joined : concat s.chunks ++ s.remainder ≡ bytes
  pub sized : All IsPiece s.chunks
  pub short : length s.remainder ≤ 3
  pub complete : final ≡ true → s.remainder ≡ []

finish-IsSplit :
    (bytes : List ℕ) (final : Bool) (s : Scan)
    → IsScan bytes s
    → scan_step bytes final s ≡ none
    → IsSplit bytes final (finish_scan bytes s)
unfolding finish_scan
finish-IsSplit bytes final s v stop =
    let (near, whole) = stopped-cursor bytes final s v.in_range stop in
    elim (Bool-cases (ltb s.chunk_start s.cursor)) [
      | inl rest ↦ rw rest (record {
        joined =
            ap (λ l. l ++ drop s.cursor bytes)
              (concat-slice bytes s.chunks s.chunk_start s.cursor v.joined v.ordered)
            ∙ take-append-drop s.cursor bytes;
        sized =
            sized-slice bytes s.chunks s.chunk_start s.cursor v.sized (ground (arith, rest))
              v.in_range (omega (arith, v.short));
        short = omega (arith, length-drop s.cursor bytes);
        complete = λ t. drop-all s.cursor bytes (omega (arith, whole t));
      })
      | inr cut_off ↦
          let same : s.chunk_start ≡ s.cursor = ground (arith, cut_off, v.ordered) in
          rw cut_off (record {
            joined =
                ap (λ l. l ++ drop s.cursor bytes) (rw same at v.joined)
                ∙ take-append-drop s.cursor bytes;
            sized = v.sized;
            short = omega (arith, length-drop s.cursor bytes);
            complete = λ t. drop-all s.cursor bytes (omega (arith, whole t));
          })
    ]

abbrev AsciiCut : List ℕ → ℕ → List (List ℕ) → Type 0
AsciiCut bytes offset chunks = (concat chunks ≡ drop offset bytes) × All IsPiece chunks

ascii_loop_lem :
    (fuel : ℕ) (bytes : List ℕ) (offset : ℕ)
    → length bytes ≤ fuel + offset
    → AsciiCut bytes offset (ascii_loop fuel bytes offset)
unfolding ascii_loop
ascii_loop_lem zero bytes offset h = (sym (drop-all offset bytes (omega arith)), tt)
ascii_loop_lem (suc fuel) bytes offset h = elim (Bool-cases (ltb offset (length bytes))) [
  | inr over ↦ rw (over, ascii_loop) (sym (drop-all offset bytes (ground (arith, over))), tt)
  | inl inside ↦
      let lt : offset < length bytes = ground (arith, inside) in
      let next = offset + output_chunk_bytes in
      let (rest, sized) = ascii_loop_lem fuel bytes next (omega arith) in
      let size : next - offset ≡ output_chunk_bytes = omega arith in
      let piece = take (next - offset) (drop offset bytes) in
      let len : length piece ≡ min (next - offset) (length bytes - offset) =
        length-take (next - offset) (drop offset bytes)
        ∙ ap (min (next - offset)) (length-drop offset bytes) in
      rw (inside, ascii_loop)
        (
          ap (λ l. piece ++ l)
                (rest
                  ∙ sym (drop-drop output_chunk_bytes offset bytes)
                  ∙ ap (λ k. drop k (drop offset bytes)) (sym size))
              ∙ take-append-drop (next - offset) (drop offset bytes),
          ((omega (arith, len), omega (arith, len)), sized),
        )
]

-- Splitting loses, adds and reorders no byte: the pieces and the remainder join to the output. Every
-- piece has 1 to 16384 bytes, at most three bytes are held back, and none at the end of the output.
pub split_output_chunks-IsSplit :
    (bytes : List ℕ) (final : Bool) → IsSplit bytes final (split_output_chunks bytes final)
unfolding split_output_chunks
split_output_chunks-IsSplit bytes final = elim (Bool-cases (is_ascii bytes)) [
  | inl ascii ↦
      let (joined, sized) = ascii_loop_lem (length bytes) bytes 0 (omega arith) in
      rw ascii (record {
        joined = append-nil _ ∙ joined;
        sized = sized;
        short = omega arith;
        complete = λ _. refl;
      })
  | inr mixed ↦
      let start : IsScan bytes scan_start = record {
        ordered = omega arith;
        in_range = omega arith;
        joined = refl;
        sized = tt;
        short = omega arith;
      } in
      let enough : measure bytes scan_start < scan_fuel bytes = unfold measure in ground arith in
      let (valid, stop) = scan_loop-ends (scan_fuel bytes) bytes final scan_start start enough in
      rw mixed (finish-IsSplit bytes final _ valid stop)
]
