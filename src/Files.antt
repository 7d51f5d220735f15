-- ===== src/Files.antt =====
-- src/file-service.ts: the file tools. A file is its bytes; a path is resolved before it comes here.
pub mod Utf8
pub mod Base64
pub mod Chunk
pub mod Replace
pub mod Move
pub mod Write
use chatgpt_remote_mcp.Base.{ℕ, Bool, List}

pub data FileContentEncoding : Type 0 where
  utf8 base64 : FileContentEncoding

-- The options that bound the sizes of what is read and written.
pub record FileServiceOptions : Type 0 where
  pub max_chunk_bytes : ℕ
  pub max_edit_file_bytes : ℕ

-- What `stat` says of a path and what its file holds.
pub record StoredFile : Type 0 where
  pub is_file : Bool
  pub bytes : List ℕ
