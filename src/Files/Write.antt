-- ===== src/Files/Write.antt =====
-- src/file-service.ts, `writeFileContent` and `uploadChunk`. The store maps a path to its file; parents and
-- the modes of files are not in it, and the digest of a chunk is an argument.
pub mod Upload
use chatgpt_remote_mcp.Base.{
  ℕ, zero, suc, ◌+◌, ◌-◌, Bool, true, false, not, Option, none, some, List, [], ◌∷◌, ◌++◌, String,
  Dict, lookup, put, ltb, if◌then◌else◌, length, take, drop,
}
use chatgpt_remote_mcp.Errors.{Result, ok, err, ◌>>=◌, ◌>>◌, guard, other}
use chatgpt_remote_mcp.Files.{FileContentEncoding, utf8, base64, FileServiceOptions, StoredFile}
use chatgpt_remote_mcp.Files.Base64.{decode_base64}
use chatgpt_remote_mcp.Files.Chunk.{decode_content}

pub data WriteMode : Type 0 where
  overwrite append : WriteMode

pub record WriteResult : Type 0 where
  pub store : Dict StoredFile
  pub bytes_written : ℕ
  pub total_bytes : ℕ

-- What opening a path for writing finds: a new file is empty, and a directory is refused.
abbrev pub opened : Option StoredFile → Result (List ℕ)
opened none = ok []
opened (some file) = if file.is_file then ok file.bytes else err other

abbrev pub with_bytes : List ℕ → StoredFile
with_bytes bytes = record { is_file = true; bytes = bytes }

abbrev pub written : List ℕ → List ℕ → WriteMode → List ℕ
written old decoded overwrite = decoded
written old decoded append = old ++ decoded

pub write_file_content :
    Dict StoredFile → String → List ℕ → FileContentEncoding → WriteMode → Result WriteResult
unfolding decode_base64
write_file_content store path content encoding mode = do
  decoded ← decode_content content encoding
  old ← opened (lookup path store)
  let bytes = written old decoded mode
  ok (record {
    store = put path (with_bytes bytes) store;
    bytes_written = length decoded;
    total_bytes = length bytes;
  })

-- `handle.write(data, 0, data.length, offset)`: a gap is filled with zeros, and no data fills no gap.
abbrev pub zeros : ℕ → List ℕ
zeros zero = []
zeros (suc n) = 0 ∷ zeros n

abbrev pub write_at : List ℕ → List ℕ → ℕ → List ℕ
write_at bytes [] offset = bytes
write_at bytes (d ∷ ds) offset =
    take offset bytes
    ++ (zeros (offset - length bytes) ++ ((d ∷ ds) ++ drop (offset + length (d ∷ ds)) bytes))

pub record UploadResult : Type 0 where
  pub store : Dict StoredFile
  pub offset : ℕ
  pub bytes_written : ℕ
  pub next_offset : ℕ
  pub total_bytes : ℕ
  pub chunk_sha256 : String

pub upload_chunk :
    (List ℕ → String)
    → FileServiceOptions
    → Dict StoredFile
    → String
    → List ℕ
    → ℕ
    → Bool
    → Result UploadResult
unfolding decode_base64
upload_chunk sha256 options store path data_base64 offset truncate = do
  decoded ← decode_base64 data_base64
  guard (not (ltb options.max_chunk_bytes (length decoded))) other
  old ← opened (lookup path store)
  let bytes = write_at (if truncate then [] else old) decoded offset
  ok (record {
    store = put path (with_bytes bytes) store;
    offset = offset;
    bytes_written = length decoded;
    next_offset = offset + length decoded;
    total_bytes = length bytes;
    chunk_sha256 = sha256 decoded;
  })
