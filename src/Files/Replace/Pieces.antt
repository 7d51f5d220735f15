-- ===== src/Files/Replace/Pieces.antt =====
-- src/file-service.ts, `replaceInFile`: what replacing all matches does.
use chatgpt_remote_mcp.Base.{
  ℕ, zero, suc, ◌-◌, ◌<◌, ◌≡◌, refl, sym, ap, ap₂, subst, ◌∙◌, inl, inr, true, false, not, Option,
  none, some, List, [], ◌∷◌, ◌++◌, arith, ◌==◌, ltb, length, Bool-cases, Option-cases, ==_iff,
  length-append, All,
}
use chatgpt_remote_mcp.Errors.{ok, >>=-eq-ok, guard, guard-eq-ok, other, replacement_mismatch}
use chatgpt_remote_mcp.Files.{FileServiceOptions, StoredFile}
use chatgpt_remote_mcp.Files.Utf8.{is_utf8}
use chatgpt_remote_mcp.Files.Replace.{
  strip_prefix, starts_with, split_loop, split, join, first_match, Replacement, occurrences_in,
  expected_count, updated_text, replace_in_file,
}
use chatgpt_remote_mcp.Files.Replace.Split.{strip_prefix-eq, split-cons, join-split}
use chatgpt_remote_mcp.Files.Replace.Modes.{
  here, later, nowhere, match_case, split_loop-none, split_loop-some,
}

strip_prefix-append :
    (prefix text more rest : List ℕ)
    → strip_prefix prefix text ≡ some rest
    → strip_prefix prefix (text ++ more) ≡ some (rest ++ more)
strip_prefix-append [] text more rest h = let e : text ≡ rest = cc in ap (λ l. some (l ++ more)) e
strip_prefix-append (p ∷ ps) [] more rest h = cc
strip_prefix-append (p ∷ ps) (c ∷ cs) more rest h = elim (Bool-cases (p == c)) [
  | inl same ↦ rw same (strip_prefix-append ps cs more rest (rw same at h))
  | inr differs ↦ cc (rw differs at h)
]

-- The text around its first match, and no match before it.
first_match-facts :
    (separator text prefix suffix : List ℕ)
    → 0 < length separator
    → first_match separator text ≡ some (prefix, suffix)
    → (text ≡ prefix ++ (separator ++ suffix)) × (first_match separator prefix ≡ none)
unfolding first_match
first_match-facts separator [] prefix suffix k h = cc
first_match-facts separator (c ∷ cs) prefix suffix k h = elim (match_case separator c cs) [
  | nowhere e f g ↦ cc (g, h)
  | here s e f ↦
      let empty : [] ≡ prefix = cc (f, h) in
      let same : s ≡ suffix = cc (f, h) in
      (
        strip_prefix-eq separator (c ∷ cs) s e ∙ ap₂ (λ l m. l ++ (separator ++ m)) empty same,
        subst (λ l. first_match separator l ≡ none) empty refl,
      )
  | later p s e f g ↦
      let longer : c ∷ p ≡ prefix = cc (g, h) in
      let same : s ≡ suffix = cc (g, h) in
      let (split_at, free) = first_match-facts separator cs p s k f in
      (
        ap (λ l. c ∷ l) split_at ∙ ap₂ (λ l m. l ++ (separator ++ m)) longer same,
        subst (λ l. first_match separator l ≡ none) longer (no_match p s e split_at free),
      )
]
  where
    no_match :
        (p s : List ℕ)
        → starts_with separator (c ∷ cs) ≡ false
        → cs ≡ p ++ (separator ++ s)
        → first_match separator p ≡ none
        → first_match separator (c ∷ p) ≡ none
    no_match p s e split_at free = elim (match_case separator c p) [
      | nowhere a b g ↦ g
      | later x y a b g ↦ cc (b, free)
      | here y a b ↦
          let more : strip_prefix separator (c ∷ cs) ≡ some (y ++ (separator ++ s)) =
            ap (λ l. strip_prefix separator (c ∷ l)) split_at
            ∙ strip_prefix-append separator (c ∷ p) (separator ++ s) y a in
          let found : starts_with separator (c ∷ cs) ≡ true = rw (more, starts_with) refl in
          cc (found, e)
    ]

-- No piece has a match.
abbrev pub AreFree : List ℕ → List (List ℕ) → Type 0
AreFree separator pieces = All (λ p. first_match separator p ≡ none) pieces

split_loop-AreFree :
    (size : ℕ) (separator text : List ℕ)
    → 0 < length separator
    → length text < size
    → AreFree separator (split_loop separator text 0 [])
split_loop-AreFree zero separator text k m = absurd (omega arith)
split_loop-AreFree (suc size) separator text k m =
    elim (Option-cases (first_match separator text)) [
      | inl e ↦ subst (λ l. AreFree separator l) (sym (split_loop-none separator text [] e)) (e, tt)
      | inr ((prefix, suffix), e) ↦
          let (around, free) = first_match-facts separator text prefix suffix k e in
          let shorter : length suffix < length text = omega (
            arith,
            k,
            ap length around,
            length-append prefix (separator ++ suffix),
            length-append separator suffix,
          ) in
          subst (λ l. AreFree separator l)
            (sym (split_loop-some separator text [] prefix suffix k e))
            (free, split_loop-AreFree size separator suffix k (omega (arith, shorter)))
    ]

-- The new file against the old.
pub record IsReplacement (file : StoredFile) (old_text new_text : List ℕ) (expected : Option ℕ)
    (r : Replacement) : Type 0 where
  pub pieces : List (List ℕ)
  pub before : file.bytes ≡ join pieces old_text
  pub free : AreFree old_text pieces
  pub after : r.file.bytes ≡ join pieces new_text
  pub count : length pieces ≡ suc r.replacements
  pub as_expected : (n : ℕ) → expected ≡ some n → r.replacements ≡ n

expected_count-all :
    (expected : Option ℕ) (occurrences n : ℕ)
    → (occurrences == expected_count expected true occurrences) ≡ true
    → expected ≡ some n
    → occurrences ≡ n
expected_count-all none occurrences n h e = cc
expected_count-all (some m) occurrences n h e =
    let same : m ≡ n = cc in (==_iff occurrences m).0 h ∙ same

-- `replaceInFile` over all matches, when it returns: the old file is pieces with the old text between them,
-- none of which has the old text in it; the new file is the same pieces with the new text between them;
-- the number of replacements is the number of gaps, and the expected number if one was given.
pub replace_in_file-IsReplacement :
    (options : FileServiceOptions) (file : StoredFile) (old_text new_text : List ℕ)
    (expected : Option ℕ) (r : Replacement)
    → replace_in_file options file old_text new_text true expected ≡ ok r
    → IsReplacement file old_text new_text expected r
unfolding replace_in_file
replace_in_file-IsReplacement options file old_text new_text expected r h =
    let text = file.bytes in
    let occurrences = occurrences_in text old_text in
    let (u1, some_text, h1) = >>=-eq-ok (guard (not (length old_text == 0)) other) _ h in
    let (u2, small, h2) =
      >>=-eq-ok (guard (not (ltb options.max_edit_file_bytes (length text))) other) _ h1 in
    let (u3, regular, h3) = >>=-eq-ok (guard file.is_file other) _ h2 in
    let (u4, valid, h4) = >>=-eq-ok (guard (is_utf8 text) other) _ h3 in
    let (u5, counted, h5) =
      >>=-eq-ok
        (guard (occurrences == expected_count expected true occurrences) replacement_mismatch) _
        h4 in
    let test = guard-eq-ok (not (length old_text == 0)) other some_text in
    let k : 0 < length old_text = ground (arith, test) in
    let made : Replacement = record {
      file = record { is_file = true; bytes = updated_text text old_text new_text true };
      replacements = occurrences;
      previous_bytes = length text;
      current_bytes = length (updated_text text old_text new_text true);
    } in
    let same : made ≡ r = cc h5 in
    subst (λ x. IsReplacement file old_text new_text expected x) same
      (record {
        pieces = split text old_text;
        before = sym (join-split text old_text k);
        free = free k;
        after = refl;
        count = gaps;
        as_expected = λ n e.
            expected_count-all expected occurrences n
              (guard-eq-ok (occurrences == expected_count expected true occurrences)
                replacement_mismatch counted)
              e;
      })
  where
    free : 0 < length old_text → AreFree old_text (split file.bytes old_text)
    free k =
        unfold split in
        split_loop-AreFree (suc (length file.bytes)) old_text file.bytes k (omega arith)

    gaps : length (split file.bytes old_text) ≡ suc (length (split file.bytes old_text) - 1)
    gaps = let (head, tail, e) = split-cons file.bytes old_text in omega (arith, ap length e)
