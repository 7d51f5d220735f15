-- ===== src/Files/Write/Upload.antt =====
-- src/file-service.ts: a file that is uploaded in pieces, and read back in pages.
use chatgpt_remote_mcp.Base.{
  ℕ, ◌≤◌, ◌≡◌, Bool, false, some, List, [], ◌∷◌, String, Dict, lookup, length, All, str_eq,
}
use chatgpt_remote_mcp.Errors.{Result, ok, ◌>>=◌}
use chatgpt_remote_mcp.Files.{FileServiceOptions, StoredFile}
use chatgpt_remote_mcp.Files.Base64.{encode_base64}
use chatgpt_remote_mcp.Files.Base64.Digits.{IsByte}
use chatgpt_remote_mcp.Files.Write.{with_bytes, upload_chunk}

-- A client that uploads piece after piece, each at the `nextOffset` of the last.
pub upload_pieces :
    (List ℕ → String)
    → FileServiceOptions
    → String
    → List (List ℕ)
    → ℕ
    → Bool
    → Dict StoredFile
    → Result (Dict StoredFile)
upload_pieces sha256 options path [] offset truncate store = ok store
upload_pieces sha256 options path (piece ∷ pieces) offset truncate store =
    upload_chunk sha256 options store path (encode_base64 piece) offset truncate
    >>= (λ r. upload_pieces sha256 options path pieces r.next_offset false r.store)

-- Bytes, and no more than a chunk may have.
abbrev pub IsPiece : FileServiceOptions → List ℕ → Type 0
IsPiece options piece = All IsByte piece × (length piece ≤ options.max_chunk_bytes)

-- A store whose path holds these bytes, and whose other paths are those of another.
record Holds (path : String) (bytes : List ℕ) (before after : Dict StoredFile) : Type 0 where
  there : lookup path after ≡ some (with_bytes bytes)
  others : (p : String) → str_eq path p ≡ false → lookup p after ≡ lookup p before
