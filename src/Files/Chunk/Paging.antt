-- ===== src/Files/Chunk/Paging.antt =====
-- src/file-service.ts, `readFileChunk`: the pages of a file, from the first to the one at its end.
use chatgpt_remote_mcp.Base.{
  ℕ, zero, suc, ◌+◌, ◌-◌, min, ◌≤◌, ◌<◌, ◌≡◌, refl, sym, ap, ◌∙◌, ◌⊎◌, inl, inr, Bool, true, false,
  List, [], ◌∷◌, ◌++◌, arith, ltb, leb, length, take, drop, subarray, Bool-cases, length-drop,
  length-take, take-append-drop, drop-all, take-add, All, All-drop,
}
use chatgpt_remote_mcp.Errors.{Result, ok, err, ◌>>=◌}
use chatgpt_remote_mcp.Files.{FileContentEncoding, utf8, base64, FileServiceOptions, StoredFile}
use chatgpt_remote_mcp.Files.Utf8.{is_utf8, is_utf8-append}
use chatgpt_remote_mcp.Files.Base64.{encode_base64, decode_base64}
use chatgpt_remote_mcp.Files.Base64.Digits.{IsByte}
use chatgpt_remote_mcp.Files.Base64.RoundTrip.{decode_base64-encode_base64}
use chatgpt_remote_mcp.Files.Chunk.{
  encode_content, decode_content, FileChunk, probe_bytes, whole_bytes, read_file_chunk,
}
use chatgpt_remote_mcp.Files.Chunk.Boundary.{
  IsBoundary, ChunkFacts, utf8_chunk_length-facts, take-append,
}

-- The page of `n` bytes.
abbrev pub page_at : List ℕ → ℕ → ℕ → FileContentEncoding → List ℕ → FileChunk
page_at bytes offset n encoding buffer = record {
  content = encode_content (take n buffer) encoding;
  offset = offset;
  next_offset = offset + n;
  bytes_read = n;
  total_bytes = length bytes;
  eof = leb (length bytes) (offset + n);
}

unfoldable pub requested_at : FileServiceOptions → List ℕ → ℕ → ℕ → ℕ
requested_at options bytes offset max_bytes =
    min max_bytes (min options.max_chunk_bytes (length bytes - offset))

unfoldable pub buffer_at : FileServiceOptions → List ℕ → ℕ → ℕ → FileContentEncoding → List ℕ
unfolding requested_at
buffer_at options bytes offset max_bytes encoding = subarray bytes offset (
    offset
    + probe_bytes options encoding (requested_at options bytes offset max_bytes)
        (length bytes - offset))

unfoldable pub bytes_at : FileServiceOptions → List ℕ → ℕ → ℕ → FileContentEncoding → Result ℕ
unfolding buffer_at requested_at
bytes_at options bytes offset max_bytes encoding =
    let buffer = buffer_at options bytes offset max_bytes encoding in
    whole_bytes encoding buffer (requested_at options bytes offset max_bytes)
      (leb (length bytes) (offset + length buffer))

pub read_file_chunk-eq :
    (options : FileServiceOptions) (file : StoredFile) (offset max_bytes : ℕ)
    (encoding : FileContentEncoding)
    → file.is_file ≡ true
    → offset ≤ length file.bytes
    → read_file_chunk options file offset max_bytes encoding ≡ (
        bytes_at options file.bytes offset max_bytes encoding >>= (λ n. ok (
          page_at file.bytes offset n encoding
            (buffer_at options file.bytes offset max_bytes encoding))))
unfolding read_file_chunk bytes_at
read_file_chunk-eq options file offset max_bytes encoding h k =
    let e : min offset (length file.bytes) ≡ offset = omega arith in rw (h, e) refl

pub probe-bounds :
    (max_chunk max_bytes available : ℕ)
    → (min max_chunk (min available (min max_bytes (min max_chunk available) + 3)) ≤ max_chunk)
      × (1 ≤ max_bytes
          → 4 ≤ max_chunk
          → min max_chunk (min available (min max_bytes (min max_chunk available) + 3)) < 4
          → min max_chunk (min available (min max_bytes (min max_chunk available) + 3)) ≡ available)
probe-bounds max_chunk max_bytes available = (omega arith, λ a b c. omega arith)

-- What is read from an offset is the beginning of what is there.
pub record SliceFacts (bytes : List ℕ) (offset amount : ℕ) (buffer : List ℕ) : Type 0 where
  pub size : length buffer ≡ min amount (length bytes - offset)
  pub tail : List ℕ
  pub joined : buffer ++ tail ≡ drop offset bytes
  pub ends : length bytes ≤ offset + length buffer → tail ≡ []

pub slice-facts :
    (bytes : List ℕ) (offset amount : ℕ)
    → offset ≤ length bytes
    → SliceFacts bytes offset amount (subarray bytes offset (offset + amount))
slice-facts bytes offset amount h =
    let rest = drop offset bytes in
    let k = offset + amount - offset in
    let size : length (take k rest) ≡ min amount (length bytes - offset) =
      omega (arith, length-take k rest, length-drop offset bytes) in
    record {
      size = size;
      tail = drop k rest;
      joined = take-append-drop k rest;
      ends = λ e. drop-all k rest (omega (arith, e, size, length-drop offset bytes));
    }

-- From a boundary in what was read to one in the file.
shift-IsBoundary :
    (bytes buffer : List ℕ) (offset amount n : ℕ)
    → SliceFacts bytes offset amount buffer
    → IsBoundary bytes offset
    → IsBoundary buffer n
    → IsBoundary bytes (offset + n)
shift-IsBoundary bytes buffer offset amount n s b c = record {
  in_range = omega (arith, b.in_range, c.in_range, s.size);
  whole =
      ap is_utf8 (take-add offset n bytes)
      ∙ is_utf8-append (take offset bytes) (take n (drop offset bytes)) b.whole
      ∙ ap (λ l. is_utf8 (take n l)) (sym s.joined)
      ∙ ap is_utf8 (take-append n buffer s.tail c.in_range)
      ∙ c.whole;
}

pub whole_bytes-facts :
    (buffer : List ℕ) (requested : ℕ) (reaches : Bool)
    → ChunkFacts buffer requested reaches (whole_bytes utf8 buffer requested reaches)
unfolding is_utf8
whole_bytes-facts buffer requested reaches = elim (Bool-cases (ltb 0 (length buffer))) [
  | inl some_bytes ↦ rw some_bytes (utf8_chunk_length-facts buffer requested reaches)
  | inr empty ↦
      let nothing : length buffer ≡ 0 = ground (arith, empty) in
      rw empty (
        record { in_range = omega arith; whole = ap (λ n. is_utf8 (take n buffer)) nothing },
        inr (omega (arith, nothing)),
        inr (inl nothing),
      )
]

-- What is true of the offsets that a reader of this encoding comes to.
pub data IsReadable (bytes : List ℕ) : FileContentEncoding → Type 0 where
  as_text : is_utf8 bytes ≡ true → IsReadable bytes utf8
  as_bytes : All IsByte bytes → IsReadable bytes base64

abbrev pub At : FileContentEncoding → List ℕ → ℕ → Type 0
At utf8 bytes offset = IsBoundary bytes offset
At base64 bytes offset = offset ≤ length bytes

-- A page that is read.
pub record IsPage (options : FileServiceOptions) (bytes : List ℕ) (offset max_bytes : ℕ)
    (encoding : FileContentEncoding) : Type 0 where
  pub count : ℕ
  pub read : bytes_at options bytes offset max_bytes encoding ≡ ok count
  pub decoded :
      decode_content
        (encode_content (take count (buffer_at options bytes offset max_bytes encoding)) encoding)
        encoding
      ≡ ok (take count (drop offset bytes))
  pub next : At encoding bytes (offset + count)
  pub moves : (1 ≤ count) ⊎ (length bytes ≡ offset)

text-result :
    (buffer : List ℕ) (requested : ℕ) (reaches : Bool) (r : Result ℕ)
    → ChunkFacts buffer requested reaches r
    → (tail : List ℕ) → is_utf8 (buffer ++ tail) ≡ true
    → (reaches ≡ true → tail ≡ [])
    → (n : ℕ) × (r ≡ ok n)
      × IsBoundary buffer n
      × ((1 ≤ n) ⊎ (length buffer ≡ 0) ⊎ ((reaches ≡ false) × (length buffer < 4)))
text-result buffer requested reaches (ok n) f tail valid ends = (n, refl, f.0, f.2)
text-result buffer requested reaches (err e) f tail valid ends = absurd (f tail valid ends)

text-IsPage :
    (options : FileServiceOptions) (bytes : List ℕ) (offset max_bytes : ℕ)
    → is_utf8 bytes ≡ true
    → IsBoundary bytes offset
    → 1 ≤ max_bytes
    → 4 ≤ options.max_chunk_bytes
    → IsPage options bytes offset max_bytes utf8
unfolding bytes_at buffer_at requested_at
text-IsPage options bytes offset max_bytes valid b some_bytes enough =
    let requested = requested_at options bytes offset max_bytes in
    let probe = probe_bytes options utf8 requested (length bytes - offset) in
    let buffer = subarray bytes offset (offset + probe) in
    let reaches = leb (length bytes) (offset + length buffer) in
    let s = slice-facts bytes offset probe b.in_range in
    let bounds = probe-bounds options.max_chunk_bytes max_bytes (length bytes - offset) in
    let rest : is_utf8 (buffer ++ s.tail) ≡ true =
      ap is_utf8 s.joined
      ∙ sym (is_utf8-append (take offset bytes) (drop offset bytes) b.whole)
      ∙ ap is_utf8 (take-append-drop offset bytes)
      ∙ valid in
    let ends : reaches ≡ true → s.tail ≡ [] = λ e. s.ends (ground (arith, e)) in
    let (n, result, c, p) =
      text-result buffer requested reaches (whole_bytes utf8 buffer requested reaches)
        (whole_bytes-facts buffer requested reaches) s.tail rest ends in
    record {
      count = n;
      read = result;
      decoded = ap ok (sym (take-append n buffer s.tail c.in_range) ∙ ap (λ l. take n l) s.joined);
      next = shift-IsBoundary bytes buffer offset probe n s b c;
      moves = elim p [
        | inl some_page ↦ inl some_page
        | inr q ↦ elim q [
          | inl empty ↦ inr (omega (arith, empty, s.size, b.in_range))
          | inr few ↦
              let short : probe < 4 → probe ≡ length bytes - offset = bounds.1 some_bytes enough in
              absurd (ground (arith, few, s.size, short, b.in_range))
        ]
      ];
    }

All-take : (n : ℕ) (bytes : List ℕ) → All IsByte bytes → All IsByte (take n bytes)
All-take zero bytes h = tt
All-take (suc n) [] h = tt
All-take (suc n) (x ∷ xs) h = (h.0, All-take n xs h.1)

bytes-IsPage :
    (options : FileServiceOptions) (bytes : List ℕ) (offset max_bytes : ℕ)
    → All IsByte bytes
    → offset ≤ length bytes
    → 1 ≤ max_bytes
    → 4 ≤ options.max_chunk_bytes
    → IsPage options bytes offset max_bytes base64
unfolding bytes_at buffer_at requested_at
bytes-IsPage options bytes offset max_bytes valid b some_bytes enough =
    let requested = requested_at options bytes offset max_bytes in
    let buffer = subarray bytes offset (offset + requested) in
    let s = slice-facts bytes offset requested b in
    let all_of : take (length buffer) buffer ≡ take (length buffer) (drop offset bytes) =
      sym (take-append (length buffer) buffer s.tail (omega arith))
      ∙ ap (λ l. take (length buffer) l) s.joined in
    record {
      count = length buffer;
      read = refl;
      decoded =
          ap (λ l. decode_base64 (encode_base64 l)) all_of
          ∙ (decode_base64-encode_base64 (take (length buffer) (drop offset bytes)) (
              All-take (length buffer) (drop offset bytes) (All-drop IsByte offset bytes valid))).0;
      next = omega (arith, s.size, b);
      moves = omega (arith, s.size, b, some_bytes, enough);
    }

-- A page at each offset that a reader comes to.
pub encoding-IsPage :
    (options : FileServiceOptions) (bytes : List ℕ) (offset max_bytes : ℕ)
    (encoding : FileContentEncoding)
    → IsReadable bytes encoding
    → At encoding bytes offset
    → 1 ≤ max_bytes
    → 4 ≤ options.max_chunk_bytes
    → IsPage options bytes offset max_bytes encoding
encoding-IsPage options bytes offset max_bytes encoding (as_text valid) b h k =
    text-IsPage options bytes offset max_bytes valid b h k
encoding-IsPage options bytes offset max_bytes encoding (as_bytes valid) b h k =
    bytes-IsPage options bytes offset max_bytes valid b h k
