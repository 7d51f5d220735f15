-- ===== src/Files/Replace.antt =====
-- src/file-service.ts, `replaceInFile`. Texts are their UTF-8 bytes: a text stands in another where its
-- bytes do.
pub mod Split
pub mod Modes
pub mod Pieces
use chatgpt_remote_mcp.Base.{
  ℕ, zero, suc, ◌-◌, min, Bool, true, false, not, Option, none, some, List, [], ◌∷◌, ◌++◌, ltb,
  ◌==◌, if◌then◌else◌, length, or_default,
}
use chatgpt_remote_mcp.Errors.{
  ToolError, Result, ok, err, ◌>>=◌, ◌>>◌, guard, other, replacement_mismatch,
}
use chatgpt_remote_mcp.Files.{FileServiceOptions, StoredFile}
use chatgpt_remote_mcp.Files.Utf8.{is_utf8}

-- What follows `prefix` in the text, if the text starts with it.
abbrev pub strip_prefix : List ℕ → List ℕ → Option (List ℕ)
strip_prefix [] text = some text
strip_prefix (p ∷ ps) [] = none
strip_prefix (p ∷ ps) (c ∷ cs) = let rest = strip_prefix ps cs in if p == c then rest else none

abbrev pub starts_with : List ℕ → List ℕ → Bool
starts_with separator text = elim (strip_prefix separator text) [ none ↦ false | some rest ↦ true ]

-- `text.split(separator)`: `skip` bytes of a match are left, `piece` is what was read since the last.
pub split_loop : List ℕ → List ℕ → ℕ → List ℕ → List (List ℕ)
split_loop separator [] skip piece = piece ∷ []
split_loop separator (c ∷ cs) (suc skip) piece = split_loop separator cs skip piece
split_loop separator (c ∷ cs) zero piece = elim (starts_with separator (c ∷ cs)) [
  | true ↦ piece ∷ split_loop separator cs (length separator - 1) []
  | false ↦ split_loop separator cs zero (piece ++ c ∷ [])
]

unfoldable pub split : List ℕ → List ℕ → List (List ℕ)
unfolding split_loop
split text separator = split_loop separator text 0 []

-- `pieces.join(separator)`.
pub join : List (List ℕ) → List ℕ → List ℕ
join [] separator = []
join (piece ∷ []) separator = piece
join (piece ∷ next ∷ pieces) separator = piece ++ separator ++ join (next ∷ pieces) separator

-- What stands before the first match and after it.
pub first_match : List ℕ → List ℕ → Option (List ℕ × List ℕ)
first_match separator [] = none
first_match separator (c ∷ cs) = elim (strip_prefix separator (c ∷ cs)) [
  | some suffix ↦ some ([], suffix)
  | none ↦ elim (first_match separator cs) [
    | none ↦ none
    | some (prefix, suffix) ↦ some (c ∷ prefix, suffix)
  ]
]

-- The replacement patterns of `String.prototype.replace`: `$$`, `$&`, `` $` `` and `$'`.
abbrev pub dollar : ℕ
dollar = 36

pub expand : List ℕ → List ℕ → List ℕ → List ℕ → List ℕ
expand prefix matched suffix [] = []
expand prefix matched suffix (c ∷ []) = c ∷ []
expand prefix matched suffix (c ∷ d ∷ cs) =
    let after = expand prefix matched suffix cs in
    let rest = expand prefix matched suffix (d ∷ cs) in
    if not (c == dollar)
    then c ∷ rest
    else if d == dollar
    then dollar ∷ after
    else if d == 38
    then matched ++ after
    else if d == 96
    then prefix ++ after
    else if d == 39
    then suffix ++ after
    else c ∷ rest

-- `text.replace(old_text, new_text)`.
pub replace_first : List ℕ → List ℕ → List ℕ → List ℕ
unfolding first_match expand
replace_first text old_text new_text = elim (first_match old_text text) [
  | none ↦ text
  | some (prefix, suffix) ↦ prefix ++ expand prefix old_text suffix new_text ++ suffix
]

pub record Replacement : Type 0 where
  pub file : StoredFile
  pub replacements : ℕ
  pub previous_bytes : ℕ
  pub current_bytes : ℕ

abbrev pub occurrences_in : List ℕ → List ℕ → ℕ
occurrences_in text old_text = length (split text old_text) - 1

abbrev pub expected_count : Option ℕ → Bool → ℕ → ℕ
expected_count expected replace_all occurrences =
    or_default expected (if replace_all then occurrences else 1)

abbrev pub updated_text : List ℕ → List ℕ → List ℕ → Bool → List ℕ
updated_text text old_text new_text replace_all =
    if replace_all
    then join (split text old_text) new_text
    else replace_first text old_text new_text

unfoldable pub replace_in_file :
    FileServiceOptions → StoredFile → List ℕ → List ℕ → Bool → Option ℕ → Result Replacement
unfolding split join replace_first is_utf8
replace_in_file options file old_text new_text replace_all expected_occurrences = do
  guard (not (length old_text == 0)) other
  guard (not (ltb options.max_edit_file_bytes (length file.bytes))) other
  guard file.is_file other
  guard (is_utf8 file.bytes) other
  let occurrences = occurrences_in file.bytes old_text
  guard (occurrences == expected_count expected_occurrences replace_all occurrences)
      replacement_mismatch
  let updated = updated_text file.bytes old_text new_text replace_all
  ok (record {
    file = record { is_file = true; bytes = updated };
    replacements = if replace_all then occurrences else min occurrences 1;
    previous_bytes = length file.bytes;
    current_bytes = length updated;
  })
