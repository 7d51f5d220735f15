-- ===== src/Files/Chunk.antt =====
-- src/file-service.ts, `utf8ChunkLength`, `readFileChunk` and `downloadChunk`. The text of a page is
-- its bytes.
pub mod Boundary
pub mod Paging
pub mod Download
pub mod Bounds
use chatgpt_remote_mcp.Base.{
  ℕ, zero, suc, ◌+◌, ◌-◌, min, Bool, true, false, ◌&&◌, not, List, [], ◌∷◌, ltb, leb, ◌==◌,
  if◌then◌else◌, length, get_or, subarray, take,
}
use chatgpt_remote_mcp.Errors.{ToolError, Result, ok, err, ◌>>=◌, ◌>>◌, guard, other}
use chatgpt_remote_mcp.Files.{FileContentEncoding, utf8, base64, FileServiceOptions, StoredFile}
use chatgpt_remote_mcp.Files.Utf8.{is_utf8, utf8_sequence_length}
use chatgpt_remote_mcp.Files.Base64.{encode_base64, decode_base64}

-- `encodeContent` and `decodeContent`.
abbrev pub encode_content : List ℕ → FileContentEncoding → List ℕ
encode_content bytes base64 = encode_base64 bytes
encode_content bytes utf8 = bytes

abbrev pub decode_content : List ℕ → FileContentEncoding → Result (List ℕ)
decode_content content base64 = decode_base64 content
decode_content content utf8 = ok content

-- One round of the loop of `utf8ChunkLength`: it returns, throws, or goes on at the next boundary.
pub data ChunkStep : Type 0 where
  returns : ℕ → ChunkStep
  throws : ChunkStep
  goes_on : ℕ → ChunkStep

pub chunk_step : List ℕ → ℕ → Bool → ℕ → ℕ → ChunkStep
unfolding utf8_sequence_length is_utf8
chunk_step buffer requested_bytes reaches_end_of_file cursor last_boundary =
    let next_boundary = cursor + utf8_sequence_length (get_or buffer cursor 0) in
    if leb (length buffer) cursor
    then returns last_boundary
    else if leb requested_bytes cursor && ltb 0 last_boundary
    then returns last_boundary
    else if utf8_sequence_length (get_or buffer cursor 0) == 0
    then throws
    else if ltb (length buffer) next_boundary
    then (if reaches_end_of_file then throws else returns last_boundary)
    else if not (is_utf8 (subarray buffer cursor next_boundary))
    then throws
    else if ltb requested_bytes next_boundary
    then returns (if last_boundary == 0 then next_boundary else last_boundary)
    else goes_on next_boundary

-- The loop, with at most `fuel` rounds.
pub chunk_loop : ℕ → List ℕ → ℕ → Bool → ℕ → ℕ → Result ℕ
unfolding chunk_step
chunk_loop zero buffer requested_bytes reaches_end_of_file cursor last_boundary = ok last_boundary
chunk_loop (suc fuel) buffer requested_bytes reaches_end_of_file cursor last_boundary =
    elim (chunk_step buffer requested_bytes reaches_end_of_file cursor last_boundary) [
      | returns n ↦ ok n
      | throws ↦ err other
      | goes_on next ↦ chunk_loop fuel buffer requested_bytes reaches_end_of_file next next
    ]

pub utf8_chunk_length : List ℕ → ℕ → Bool → Result ℕ
unfolding chunk_loop
utf8_chunk_length buffer requested_bytes reaches_end_of_file =
    chunk_loop (suc (length buffer)) buffer requested_bytes reaches_end_of_file 0 0

pub record FileChunk : Type 0 where
  pub content : List ℕ
  pub offset : ℕ
  pub next_offset : ℕ
  pub bytes_read : ℕ
  pub total_bytes : ℕ
  pub eof : Bool

abbrev pub probe_bytes : FileServiceOptions → FileContentEncoding → ℕ → ℕ → ℕ
probe_bytes options utf8 requested available =
    min options.max_chunk_bytes (min available (requested + 3))
probe_bytes options base64 requested available = requested

-- `bytesRead`, once the buffer is read.
abbrev pub whole_bytes : FileContentEncoding → List ℕ → ℕ → Bool → Result ℕ
whole_bytes utf8 buffer requested reaches =
    if ltb 0 (length buffer) then utf8_chunk_length buffer requested reaches else ok (length buffer)
whole_bytes base64 buffer requested reaches = ok (length buffer)

unfoldable pub read_file_chunk :
    FileServiceOptions → StoredFile → ℕ → ℕ → FileContentEncoding → Result FileChunk
unfolding utf8_chunk_length encode_base64
read_file_chunk options file offset max_bytes encoding = do
  guard file.is_file other
  let size = length file.bytes
  let safe_offset = min offset size
  let available = size - safe_offset
  let requested = min max_bytes (min options.max_chunk_bytes available)
  let probe = probe_bytes options encoding requested available
  let buffer = subarray file.bytes safe_offset (safe_offset + probe)
  bytes_read ← whole_bytes encoding buffer requested (leb size (safe_offset + length buffer))
  ok (record {
    content = encode_content (take bytes_read buffer) encoding;
    offset = safe_offset;
    next_offset = safe_offset + bytes_read;
    bytes_read = bytes_read;
    total_bytes = size;
    eof = leb size (safe_offset + bytes_read);
  })

pub download_chunk : FileServiceOptions → StoredFile → ℕ → ℕ → Result FileChunk
unfolding read_file_chunk
download_chunk options file offset max_bytes = read_file_chunk options file offset max_bytes base64
