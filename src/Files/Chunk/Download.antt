-- ===== src/Files/Chunk/Download.antt =====
-- src/file-service.ts, `readFileChunk`: a reader who asks for page after page.
use chatgpt_remote_mcp.Base.{
  ℕ, zero, suc, ◌+◌, ◌≤◌, ◌<◌, ◌≡◌, refl, sym, ap, ◌∙◌, inl, inr, true, false, List, ◌++◌, arith,
  leb, length, take, drop, Bool-cases, length-drop, take-append-drop, drop-drop, take-all,
}
use chatgpt_remote_mcp.Errors.{Result, ok, err, ◌>>=◌, other}
use chatgpt_remote_mcp.Files.{FileContentEncoding, utf8, base64, FileServiceOptions, StoredFile}
use chatgpt_remote_mcp.Files.Utf8.{is_utf8}
use chatgpt_remote_mcp.Files.Chunk.{decode_content, read_file_chunk}
use chatgpt_remote_mcp.Files.Chunk.Paging.{
  page_at, buffer_at, read_file_chunk-eq, IsReadable, At, encoding-IsPage,
}

-- A client that reads at `nextOffset` until `eof`, and joins what it gets; it gives up after `pages`
-- pages.
pub read_pages : ℕ → FileServiceOptions → StoredFile → ℕ → ℕ → FileContentEncoding → Result (List ℕ)
read_pages zero options file offset max_bytes encoding = err other
read_pages (suc pages) options file offset max_bytes encoding = do
  chunk ← read_file_chunk options file offset max_bytes encoding
  bytes ← decode_content chunk.content encoding
  elim chunk.eof [
    | true ↦ ok bytes
    | false ↦
        read_pages pages options file chunk.next_offset max_bytes encoding
        >>= (λ rest. ok (bytes ++ rest))
  ]

pages-from :
    (pages : ℕ) (options : FileServiceOptions) (file : StoredFile) (offset max_bytes : ℕ)
    (encoding : FileContentEncoding)
    → file.is_file ≡ true
    → IsReadable file.bytes encoding
    → 1 ≤ max_bytes
    → 4 ≤ options.max_chunk_bytes
    → At encoding file.bytes offset
    → offset ≤ length file.bytes
    → length file.bytes < offset + pages
    → read_pages pages options file offset max_bytes encoding ≡ ok (drop offset file.bytes)
unfolding read_pages
pages-from zero options file offset max_bytes encoding a r h k b l m = absurd (omega arith)
pages-from (suc pages) options file offset max_bytes encoding a r h k b l m =
    let p = encoding-IsPage options file.bytes offset max_bytes encoding r b h k in
    let read : read_file_chunk options file offset max_bytes encoding
        ≡ ok (
            page_at file.bytes offset p.count encoding
              (buffer_at options file.bytes offset max_bytes encoding)) =
      read_file_chunk-eq options file offset max_bytes encoding a l
      ∙ ap
          (λ n. n >>= (λ n'. ok (
            page_at file.bytes offset n' encoding
              (buffer_at options file.bytes offset max_bytes encoding))))
          p.read in
    elim (Bool-cases (leb (length file.bytes) (offset + p.count))) [
      | inl at_end ↦
          rw (read, p.decoded, at_end)
            (ap ok (
              take-all p.count (drop offset file.bytes)
                (ground (arith, at_end, length-drop offset file.bytes))))
      | inr more ↦
          let go =
            pages-from pages options file (offset + p.count) max_bytes encoding a r h k p.next
              (ground (arith, more)) (ground (arith, more, p.moves, m)) in
          let joined : take p.count (drop offset file.bytes) ++ drop (offset + p.count) file.bytes
              ≡ drop offset file.bytes =
            ap (λ l. take p.count (drop offset file.bytes) ++ l)
              (sym (drop-drop p.count offset file.bytes))
            ∙ take-append-drop p.count (drop offset file.bytes) in
          rw (read, p.decoded, more, go) (ap ok joined)
    ]

-- A regular file is read page by page from its beginning, as text if it is well-formed UTF-8, or as
-- base64, with at least one byte asked for and pages of at least four bytes allowed. However many bytes
-- are asked for, the reader comes to the end, after at most one page more than the file has bytes, and has
-- the file's bytes: no page fails, and none is cut in a sequence.
pub read_file_chunk-all_pages :
    (options : FileServiceOptions) (file : StoredFile) (max_bytes : ℕ)
    (encoding : FileContentEncoding)
    → file.is_file ≡ true
    → IsReadable file.bytes encoding
    → 1 ≤ max_bytes
    → 4 ≤ options.max_chunk_bytes
    → read_pages (suc (length file.bytes)) options file 0 max_bytes encoding ≡ ok file.bytes
unfolding is_utf8
read_file_chunk-all_pages options file max_bytes encoding a r h k =
    pages-from (suc (length file.bytes)) options file 0 max_bytes encoding a r h k (start encoding)
      (omega arith) (omega arith)
  where
    start : (e : FileContentEncoding) → At e file.bytes 0
    start utf8 = record { in_range = omega arith; whole = refl }
    start base64 = omega arith
