-- ===== src/Files/Replace/Modes.antt =====
-- src/file-service.ts, `replaceInFile`: the first match, and where replacing it is replacing all.
use chatgpt_remote_mcp.Base.{
  ℕ, suc, ◌-◌, ◌<◌, ◌≡◌, refl, sym, ap, ap₂, ◌∙◌, inl, inr, true, false, Option, none, some, List,
  [], ◌∷◌, ◌++◌, arith, ◌==◌, length, append-nil, append_assoc, Bool-cases, Option-cases, All,
}
use chatgpt_remote_mcp.Files.{FileServiceOptions, StoredFile}
use chatgpt_remote_mcp.Files.Replace.{
  strip_prefix, starts_with, split_loop, split, join, first_match, dollar, expand, replace_first,
  occurrences_in, replace_in_file,
}
use chatgpt_remote_mcp.Files.Replace.Split.{split_loop-drop, behind_match, split_loop-cons}

-- A match, as the code of `first_match` finds it.
pub data MatchCase (separator : List ℕ) (c : ℕ) (cs : List ℕ) : Type 0 where
  here :
      (suffix : List ℕ)
      → strip_prefix separator (c ∷ cs) ≡ some suffix
      → first_match separator (c ∷ cs) ≡ some ([], suffix)
      → MatchCase separator c cs
  later :
      (prefix suffix : List ℕ)
      → starts_with separator (c ∷ cs) ≡ false
      → first_match separator cs ≡ some (prefix, suffix)
      → first_match separator (c ∷ cs) ≡ some (c ∷ prefix, suffix)
      → MatchCase separator c cs
  nowhere :
      starts_with separator (c ∷ cs) ≡ false
      → first_match separator cs ≡ none
      → first_match separator (c ∷ cs) ≡ none
      → MatchCase separator c cs

pub match_case : (separator : List ℕ) (c : ℕ) (cs : List ℕ) → MatchCase separator c cs
unfolding first_match
match_case separator c cs = elim (Option-cases (strip_prefix separator (c ∷ cs))) [
  | inr (suffix, e) ↦ here suffix e (rw (e, first_match) refl)
  | inl e ↦ elim (Option-cases (first_match separator cs)) [
    | inl f ↦ nowhere (rw (e, starts_with) refl) f (rw (e, f, first_match) refl)
    | inr ((prefix, suffix), f) ↦
        later prefix suffix (rw (e, starts_with) refl) f (rw (e, f, first_match) refl)
  ]
]

missed-split :
    (separator : List ℕ) (c : ℕ) (cs piece : List ℕ)
    → starts_with separator (c ∷ cs) ≡ false
    → split_loop separator (c ∷ cs) 0 piece ≡ split_loop separator cs 0 (piece ++ c ∷ [])
unfolding split_loop
missed-split separator c cs piece e = rw (e, split_loop) refl

found-split :
    (separator : List ℕ) (c : ℕ) (cs piece : List ℕ)
    → starts_with separator (c ∷ cs) ≡ true
    → split_loop separator (c ∷ cs) 0 piece
      ≡ piece ∷ split_loop separator cs (length separator - 1) []
unfolding split_loop
found-split separator c cs piece e = rw (e, split_loop) refl

pub split_loop-none :
    (separator text piece : List ℕ)
    → first_match separator text ≡ none
    → split_loop separator text 0 piece ≡ (piece ++ text) ∷ []
unfolding split_loop
split_loop-none separator [] piece h = ap (λ l. l ∷ []) (sym (append-nil piece))
split_loop-none separator (c ∷ cs) piece h = elim (match_case separator c cs) [
  | here suffix e f ↦ cc (f, h)
  | later prefix suffix e f g ↦ cc (g, h)
  | nowhere e f g ↦
      missed-split separator c cs piece e
      ∙ split_loop-none separator cs (piece ++ c ∷ []) f
      ∙ ap (λ l. l ∷ []) (append_assoc piece (c ∷ []) cs)
]

pub split_loop-some :
    (separator text piece prefix suffix : List ℕ)
    → 0 < length separator
    → first_match separator text ≡ some (prefix, suffix)
    → split_loop separator text 0 piece ≡ (piece ++ prefix) ∷ split_loop separator suffix 0 []
unfolding first_match split_loop
split_loop-some separator [] piece prefix suffix k h = cc
split_loop-some separator (c ∷ cs) piece prefix suffix k h = elim (match_case separator c cs) [
  | here s e f ↦
      let found : starts_with separator (c ∷ cs) ≡ true = rw (e, starts_with) refl in
      let empty : [] ≡ prefix = cc (f, h) in
      let same : s ≡ suffix = cc (f, h) in
      let next : split_loop separator cs (length separator - 1) []
          ≡ split_loop separator suffix 0 [] =
        split_loop-drop separator cs (length separator - 1) []
        ∙ ap (λ l. split_loop separator l 0 []) (behind_match separator c cs s k e ∙ same) in
      found-split separator c cs piece found
      ∙ ap (λ l. l ∷ split_loop separator cs (length separator - 1) [])
          (sym (append-nil piece) ∙ ap (λ l. piece ++ l) empty)
      ∙ ap (λ l. (piece ++ prefix) ∷ l) next
  | later p s e f g ↦
      let longer : c ∷ p ≡ prefix = cc (g, h) in
      let same : s ≡ suffix = cc (g, h) in
      missed-split separator c cs piece e
      ∙ split_loop-some separator cs (piece ++ c ∷ []) p s k f
      ∙ ap₂ (λ x y. x ∷ split_loop separator y 0 [])
          (append_assoc piece (c ∷ []) p ∙ ap (λ l. piece ++ l) longer) same
  | nowhere e f g ↦ cc (g, h)
]

-- Without a `$` the new text is what is put.
pub expand-literal :
    (prefix matched suffix new_text : List ℕ)
    → All (λ c. (c == dollar) ≡ false) new_text
    → expand prefix matched suffix new_text ≡ new_text
unfolding expand
expand-literal prefix matched suffix [] h = refl
expand-literal prefix matched suffix (c ∷ []) h = refl
expand-literal prefix matched suffix (c ∷ d ∷ cs) h =
    rw h.0 (ap (λ l. c ∷ l) (expand-literal prefix matched suffix (d ∷ cs) h.1))

replace_first-eq :
    (text separator new_text prefix suffix : List ℕ)
    → first_match separator text ≡ some (prefix, suffix)
    → replace_first text separator new_text
      ≡ prefix ++ expand prefix separator suffix new_text ++ suffix
unfolding replace_first
replace_first-eq text separator new_text prefix suffix e = rw (e, replace_first) refl

-- Where one match is, it is the first.
single_match :
    (text separator new_text : List ℕ)
    → 0 < length separator
    → occurrences_in text separator ≡ 1
    → All (λ c. (c == dollar) ≡ false) new_text
    → replace_first text separator new_text ≡ join (split text separator) new_text
unfolding split join
single_match text separator new_text k once h = elim (Option-cases (first_match separator text)) [
  | inl e ↦ absurd (ground (arith, once, split_loop-none separator text [] e))
  | inr ((prefix, suffix), e) ↦
      let pieces = split_loop-some separator text [] prefix suffix k e in
      elim (Option-cases (first_match separator suffix)) [
        | inr ((p, s), f) ↦
            let more = split_loop-some separator suffix [] p s k f in
            let (head, tail, g) = split_loop-cons separator s 0 [] in
            let counted : length (split_loop separator text 0 []) ≡ suc (suc (suc (length tail))) =
              ap length (pieces ∙ ap (λ l. prefix ∷ l) (more ∙ ap (λ l. p ∷ l) g)) in
            absurd (omega (arith, once, counted))
        | inl f ↦
            let two : split_loop separator text 0 [] ≡ prefix ∷ suffix ∷ [] =
              pieces ∙ ap (λ l. prefix ∷ l) (split_loop-none separator suffix [] f) in
            let replaced : replace_first text separator new_text ≡ prefix ++ new_text ++ suffix =
              replace_first-eq text separator new_text prefix suffix e
              ∙ ap (λ l. prefix ++ l ++ suffix)
                  (expand-literal prefix separator suffix new_text h) in
            replaced ∙ sym (ap (λ l. join l new_text) two)
      ]
]

-- A new text without a `$`, for a text that stands once in the file: replacing the first match and
-- replacing all is the same, whatever count is expected.
pub replace_in_file-modes :
    (options : FileServiceOptions) (file : StoredFile) (old_text new_text : List ℕ)
    (expected : Option ℕ)
    → occurrences_in file.bytes old_text ≡ 1
    → All (λ c. (c == dollar) ≡ false) new_text
    → replace_in_file options file old_text new_text false expected
      ≡ replace_in_file options file old_text new_text true expected
unfolding replace_in_file
replace_in_file-modes options file old_text new_text expected once h =
    elim (Bool-cases (length old_text == 0)) [
      | inl empty ↦ rw empty refl
      | inr some_text ↦
          let same = single_match file.bytes old_text new_text (ground (arith, some_text)) once h in
          rw (once, same) refl
    ]
