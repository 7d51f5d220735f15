-- ===== src/Files/Chunk/Bounds.antt =====
-- src/file-service.ts, `readFileChunk`: what a page holds, of whatever file.
use chatgpt_remote_mcp.Base.{
  ℕ, ◌+◌, ◌-◌, min, ◌≤◌, ◌≡◌, refl, sym, ap, subst, ◌∙◌, ◌⊎◌, ◌↔◌, inl, true, List, arith, leb,
  length, take, drop, subarray,
}
use chatgpt_remote_mcp.Errors.{ok, >>=-eq-ok, guard, guard-eq-ok, other}
use chatgpt_remote_mcp.Files.{FileContentEncoding, utf8, base64, FileServiceOptions, StoredFile}
use chatgpt_remote_mcp.Files.Utf8.{is_utf8}
use chatgpt_remote_mcp.Files.Base64.{encode_base64}
use chatgpt_remote_mcp.Files.Chunk.{encode_content, FileChunk, probe_bytes, read_file_chunk}
use chatgpt_remote_mcp.Files.Chunk.Boundary.{ChunkFacts, take-append}
use chatgpt_remote_mcp.Files.Chunk.Paging.{
  page_at, requested_at, buffer_at, bytes_at, read_file_chunk-eq, slice-facts, whole_bytes-facts,
  probe-bounds,
}

pub record IsBoundedPage (options : FileServiceOptions) (bytes : List ℕ) (max_bytes : ℕ)
    (encoding : FileContentEncoding) (c : FileChunk) : Type 0 where
  pub starts : c.offset ≤ length bytes
  pub follows : c.next_offset ≡ c.offset + c.bytes_read
  pub in_file : c.next_offset ≤ length bytes
  pub in_chunk : c.bytes_read ≤ options.max_chunk_bytes
  pub as_asked : (c.bytes_read ≤ max_bytes) ⊎ (c.bytes_read ≤ 4)
  pub content : c.content ≡ encode_content (subarray bytes c.offset c.next_offset) encoding
  pub at_end : (c.eof ≡ true) ↔ (c.next_offset ≡ length bytes)
  pub well_formed : encoding ≡ utf8 → is_utf8 c.content ≡ true

at_end_iff : (size next : ℕ) → next ≤ size → (leb size next ≡ true) ↔ (next ≡ size)
at_end_iff size next h = (λ e. ground (arith, e, h), λ e. ground (arith, e))

text-IsBoundedPage :
    (options : FileServiceOptions) (bytes : List ℕ) (offset max_bytes n : ℕ)
    → offset ≤ length bytes
    → bytes_at options bytes offset max_bytes utf8 ≡ ok n
    → IsBoundedPage options bytes max_bytes utf8
        (page_at bytes offset n utf8 (buffer_at options bytes offset max_bytes utf8))
unfolding bytes_at buffer_at requested_at
text-IsBoundedPage options bytes offset max_bytes n b e =
    let requested = requested_at options bytes offset max_bytes in
    let probe = probe_bytes options utf8 requested (length bytes - offset) in
    let buffer = subarray bytes offset (offset + probe) in
    let reaches = leb (length bytes) (offset + length buffer) in
    let s = slice-facts bytes offset probe b in
    let bounds = probe-bounds options.max_chunk_bytes max_bytes (length bytes - offset) in
    let facts : ChunkFacts buffer requested reaches (ok n) =
      subst (λ r. ChunkFacts buffer requested reaches r) e
        (whole_bytes-facts buffer requested reaches) in
    let amount : offset + n - offset ≡ n = omega arith in
    record {
      starts = b;
      follows = refl;
      in_file = omega (arith, s.size, facts.0.in_range, b);
      in_chunk = omega (arith, s.size, facts.0.in_range, bounds.0);
      as_asked = ground (arith, facts.1);
      content =
          sym (take-append n buffer s.tail facts.0.in_range)
          ∙ ap (λ l. take n l) s.joined
          ∙ ap (λ k. take k (drop offset bytes)) (sym amount);
      at_end = at_end_iff (length bytes) (offset + n) (omega (arith, s.size, facts.0.in_range, b));
      well_formed = λ u. facts.0.whole;
    }

bytes-IsBoundedPage :
    (options : FileServiceOptions) (bytes : List ℕ) (offset max_bytes n : ℕ)
    → offset ≤ length bytes
    → bytes_at options bytes offset max_bytes base64 ≡ ok n
    → IsBoundedPage options bytes max_bytes base64
        (page_at bytes offset n base64 (buffer_at options bytes offset max_bytes base64))
unfolding bytes_at buffer_at requested_at
bytes-IsBoundedPage options bytes offset max_bytes n b e =
    let requested = requested_at options bytes offset max_bytes in
    let buffer = subarray bytes offset (offset + requested) in
    let s = slice-facts bytes offset requested b in
    let count : length buffer ≡ n = cc e in
    let amount : offset + n - offset ≡ n = omega arith in
    record {
      starts = b;
      follows = refl;
      in_file = omega (arith, s.size, count, b);
      in_chunk = omega (arith, s.size, count);
      as_asked = inl (omega (arith, s.size, count));
      content = ap encode_base64 (
          sym (take-append n buffer s.tail (omega (arith, count)))
          ∙ ap (λ l. take n l) s.joined
          ∙ ap (λ k. take k (drop offset bytes)) (sym amount));
      at_end = at_end_iff (length bytes) (offset + n) (omega (arith, s.size, count, b));
      well_formed = λ u. cc u;
    }

-- Whatever a file holds: a page that is returned starts in the file and ends in it, has at most the bytes
-- allowed, at most the bytes asked for or four, and is what the file holds between its offsets; `eof` is
-- true where it ends at the end of the file, and nowhere else; a page of text is well-formed UTF-8.
pub read_file_chunk-IsBoundedPage :
    (options : FileServiceOptions) (file : StoredFile) (offset max_bytes : ℕ)
    (encoding : FileContentEncoding) (c : FileChunk)
    → read_file_chunk options file offset max_bytes encoding ≡ ok c
    → IsBoundedPage options file.bytes max_bytes encoding c
unfolding read_file_chunk
read_file_chunk-IsBoundedPage options file offset max_bytes encoding c h =
    let at = min offset (length file.bytes) in
    let (u, regular, h1) = >>=-eq-ok (guard file.is_file other) _ h in
    let clamp : read_file_chunk options file offset max_bytes encoding
        ≡ read_file_chunk options file at max_bytes encoding =
      let e : min at (length file.bytes) ≡ at = omega arith in rw e refl in
    let (n, count, h2) =
      >>=-eq-ok (bytes_at options file.bytes at max_bytes encoding)
        (λ n.
          ok
            (page_at file.bytes at n encoding (buffer_at options file.bytes at max_bytes encoding)))
        (sym (
            read_file_chunk-eq options file at max_bytes encoding
              (guard-eq-ok file.is_file other regular) (omega arith))
          ∙ sym clamp
          ∙ h) in
    let same : page_at file.bytes at n encoding (buffer_at options file.bytes at max_bytes encoding)
        ≡ c =
      cc h2 in
    subst (λ x. IsBoundedPage options file.bytes max_bytes encoding x) same
      (go at encoding n (omega arith) count)
  where
    go :
        (at : ℕ) (e : FileContentEncoding) (n : ℕ)
        → at ≤ length file.bytes
        → bytes_at options file.bytes at max_bytes e ≡ ok n
        → IsBoundedPage options file.bytes max_bytes e
            (page_at file.bytes at n e (buffer_at options file.bytes at max_bytes e))
    go at utf8 n b e = text-IsBoundedPage options file.bytes at max_bytes n b e
    go at base64 n b e = bytes-IsBoundedPage options file.bytes at max_bytes n b e
