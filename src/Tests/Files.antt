-- ===== src/Tests/Files.antt =====
-- The file tools on small files.
use chatgpt_remote_mcp.Base.{
  ℕ, ◌≡◌, refl, true, false, ◌⊎◌, none, some, List, [], ◌∷◌, String, Dict, arith,
}
use chatgpt_remote_mcp.Errors.{Result, ok, err}
use chatgpt_remote_mcp.Files.{FileServiceOptions, StoredFile, utf8}
use chatgpt_remote_mcp.Files.Utf8.{is_utf8}
use chatgpt_remote_mcp.Files.Base64.{encode_base64, decode_base64, strip_padding}
use chatgpt_remote_mcp.Files.Base64.RoundTrip.{decode_base64-encode_base64}
use chatgpt_remote_mcp.Files.Base64.Digits.{IsByte}
use chatgpt_remote_mcp.Files.Base64.Accepts.{decode_base64-accepts}
use chatgpt_remote_mcp.Files.Chunk.{FileChunk, read_file_chunk}
use chatgpt_remote_mcp.Files.Chunk.Paging.{as_text}
use chatgpt_remote_mcp.Files.Chunk.Download.{read_pages, read_file_chunk-all_pages}
use chatgpt_remote_mcp.Files.Chunk.Bounds.{IsBoundedPage, read_file_chunk-IsBoundedPage}
use chatgpt_remote_mcp.Files.Replace.{Replacement, replace_in_file, split}
use chatgpt_remote_mcp.Files.Replace.Modes.{replace_in_file-modes}
use chatgpt_remote_mcp.Files.Replace.Pieces.{IsReplacement, replace_in_file-IsReplacement}
use chatgpt_remote_mcp.Files.Move.{Faults, exdev, move_path, moved, thrown}
use chatgpt_remote_mcp.Files.Move.Outcome.{IsRestored, move_path-restores}
use chatgpt_remote_mcp.Files.Move.Success.{IsMoved, move_path-IsMoved}

-- "aé€": one, two and three bytes.
abbrev euro : List ℕ
euro = 0x61 ∷ 0xc3 ∷ 0xa9 ∷ 0xe2 ∷ 0x82 ∷ 0xac ∷ []

abbrev euro_file : StoredFile
euro_file = record { is_file = true; bytes = euro }

abbrev options : FileServiceOptions
options = record { max_chunk_bytes = 4; max_edit_file_bytes = 100 }

read_file_chunk-all_pages_example : read_pages 7 options euro_file 0 2 utf8 ≡ ok euro
read_file_chunk-all_pages_example =
    read_file_chunk-all_pages options euro_file 2 utf8 refl (as_text (unfold is_utf8 in refl))
      (omega arith) (omega arith)

-- Two bytes are asked for at the second character, and the third does not fit.
abbrev page : FileChunk
page = record {
  content = 0xc3 ∷ 0xa9 ∷ [];
  offset = 1;
  next_offset = 3;
  bytes_read = 2;
  total_bytes = 6;
  eof = false;
}

page_read : read_file_chunk options euro_file 1 3 utf8 ≡ ok page
unfolding read_file_chunk
page_read = refl

read_file_chunk-IsBoundedPage_example : IsBoundedPage options euro 3 utf8 page
read_file_chunk-IsBoundedPage_example =
    read_file_chunk-IsBoundedPage options euro_file 1 3 utf8 page page_read

abbrev two_bytes : List ℕ
two_bytes = 0xff ∷ 0x01 ∷ []

-- "/wE=".
abbrev two_bytes_text : List ℕ
two_bytes_text = 47 ∷ 119 ∷ 69 ∷ 61 ∷ []

decode_base64-encode_base64_example :
    (decode_base64 (encode_base64 two_bytes) ≡ ok two_bytes)
    × (decode_base64 (strip_padding (encode_base64 two_bytes)) ≡ ok two_bytes)
decode_base64-encode_base64_example =
    decode_base64-encode_base64 two_bytes (omega arith, (omega arith, tt))

two_bytes_decoded : decode_base64 two_bytes_text ≡ ok two_bytes
unfolding decode_base64
two_bytes_decoded = refl

decode_base64-accepts_example :
    (IsByte 0xff × (IsByte 0x01 × Unit {0}))
    × ((two_bytes_text ≡ encode_base64 two_bytes)
        ⊎ (two_bytes_text ≡ strip_padding (encode_base64 two_bytes)))
decode_base64-accepts_example = decode_base64-accepts two_bytes_text two_bytes two_bytes_decoded

-- "abab", where "b" becomes "cd".
abbrev abab : StoredFile
abab = record { is_file = true; bytes = 97 ∷ 98 ∷ 97 ∷ 98 ∷ [] }

abbrev replaced : Replacement
replaced = record {
  file = record { is_file = true; bytes = 97 ∷ 99 ∷ 100 ∷ 97 ∷ 99 ∷ 100 ∷ [] };
  replacements = 2;
  previous_bytes = 4;
  current_bytes = 6;
}

all_replaced : replace_in_file options abab (98 ∷ []) (99 ∷ 100 ∷ []) true none ≡ ok replaced
unfolding replace_in_file
all_replaced = refl

replace_in_file-IsReplacement_example : IsReplacement abab (98 ∷ []) (99 ∷ 100 ∷ []) none replaced
replace_in_file-IsReplacement_example =
    replace_in_file-IsReplacement options abab (98 ∷ []) (99 ∷ 100 ∷ []) none replaced all_replaced

replace_in_file-modes_example :
    replace_in_file options euro_file (0x61 ∷ []) (98 ∷ []) false none
    ≡ replace_in_file options euro_file (0x61 ∷ []) (98 ∷ []) true none
replace_in_file-modes_example =
    replace_in_file-modes options euro_file (0x61 ∷ []) (98 ∷ []) none (unfold split in refl)
      (refl, tt)

-- The pattern `$&` is expanded where the first match is replaced, and put as it is where all are.
abbrev bytes_of_result : Result Replacement → List ℕ
bytes_of_result (err e) = []
bytes_of_result (ok r) = r.file.bytes

pattern_expanded :
    bytes_of_result (replace_in_file options abab (97 ∷ 98 ∷ 97 ∷ []) (36 ∷ 38 ∷ []) false none)
    ≡ 97 ∷ 98 ∷ 97 ∷ 98 ∷ []
unfolding replace_in_file
pattern_expanded = refl

pattern_put :
    bytes_of_result (replace_in_file options abab (97 ∷ 98 ∷ 97 ∷ []) (36 ∷ 38 ∷ []) true none)
    ≡ 36 ∷ 38 ∷ 98 ∷ []
unfolding replace_in_file
pattern_put = refl

abbrev two_files : Dict String
two_files = ("/a", "one") ∷ ("/b", "two") ∷ []

abbrev beside : String → String → List String
beside parent candidate = ".." ∷ []

abbrev parents : String → List String
parents path = "/" ∷ []

abbrev works : Faults String
works = record {
  make_parents = none;
  rename_destination = none;
  rename_source = none;
  copy = none;
  remove_source = none;
  remove_copy = none;
  remove_partial = none;
  restore = none;
  remove_backup = none;
}

-- A copy to another device that stops half way.
abbrev half_copied : Faults String
half_copied = record works { rename_source = some exdev; copy = some (some "o") }

failed_move :
    (move_path beside parents "/backup" half_copied two_files [] "/a" "/b" true).0.1 ≡ thrown 0
unfolding move_path
failed_move = refl

move_path-restores_example :
    IsRestored parents half_copied two_files [] "/a" "/b"
      (move_path beside parents "/backup" half_copied two_files [] "/a" "/b" true)
move_path-restores_example =
    move_path-restores beside parents "/backup" half_copied two_files [] "/a" "/b" true 0 refl refl
      refl failed_move

good_move : (move_path beside parents "/backup" works two_files [] "/a" "/b" true).0.1 ≡ moved none
unfolding move_path
good_move = refl

move_path-IsMoved_example :
    IsMoved parents "/a" "/b" "/backup" none two_files []
      (move_path beside parents "/backup" works two_files [] "/a" "/b" true).0.0
      (move_path beside parents "/backup" works two_files [] "/a" "/b" true).1
move_path-IsMoved_example =
    move_path-IsMoved beside parents "/backup" works two_files [] "/a" "/b" true none refl refl
      good_move

-- To another device: the copy is whole, but the source is removed only in part.
abbrev half_removed : Faults String
half_removed = record works { rename_source = some exdev; remove_source = some (some "e") }

-- The copy is removed as well, so that what was removed from the source is nowhere.
data_loss :
    (move_path beside parents "/backup" half_removed two_files [] "/a" "/c" true).0
    ≡ (("/a", "e") ∷ ("/b", "two") ∷ [], thrown 0)
unfolding move_path
data_loss = refl

abbrev no_digest : List ℕ → String
no_digest bytes = ""

abbrev one_file : Dict StoredFile
one_file = ("/a", euro_file) ∷ []
