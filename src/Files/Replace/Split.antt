-- ===== src/Files/Replace/Split.antt =====
-- src/file-service.ts, `replaceInFile`: the pieces between the matches.
use chatgpt_remote_mcp.Base.{
  ℕ, zero, suc, ◌-◌, ◌<◌, ◌≡◌, refl, sym, ap, ◌∙◌, inl, inr, true, false, Option, none, some, List,
  [], ◌∷◌, ◌++◌, arith, ◌==◌, length, drop, append-nil, append_assoc, Bool-cases, ==_iff,
}
use chatgpt_remote_mcp.Files.Replace.{strip_prefix, starts_with, split_loop, split, join}

-- A prefix that is found stands before the rest.
pub strip_prefix-eq :
    (prefix text rest : List ℕ) → strip_prefix prefix text ≡ some rest → text ≡ prefix ++ rest
strip_prefix-eq [] text rest h = cc
strip_prefix-eq (p ∷ ps) [] rest h = cc
strip_prefix-eq (p ∷ ps) (c ∷ cs) rest h = elim (Bool-cases (p == c)) [
  | inl same ↦
      let e : p ≡ c = (==_iff p c).0 same in
      rw e (ap (λ l. c ∷ l) (strip_prefix-eq ps cs rest (rw same at h)))
  | inr differs ↦ cc (rw differs at h)
]

pub split_loop-cons :
    (separator text : List ℕ) (skip : ℕ) (piece : List ℕ)
    → (head : List ℕ) × (tail : List (List ℕ)) × (split_loop separator text skip piece
        ≡ head ∷ tail)
unfolding split_loop
split_loop-cons separator [] skip piece = (piece, [], refl)
split_loop-cons separator (c ∷ cs) (suc skip) piece = split_loop-cons separator cs skip piece
split_loop-cons separator (c ∷ cs) zero piece = elim (Bool-cases (starts_with separator (c ∷ cs))) [
  | inl found ↦
      (piece, split_loop separator cs (length separator - 1) [], rw (found, split_loop) refl)
  | inr missed ↦
      let (head, tail, e) = split_loop-cons separator cs zero (piece ++ c ∷ []) in
      (head, tail, rw (missed, split_loop) e)
]

pub split-cons :
    (text separator : List ℕ)
    → (head : List ℕ) × (tail : List (List ℕ)) × (split text separator ≡ head ∷ tail)
unfolding split
split-cons text separator = split_loop-cons separator text 0 []

-- The joint of a piece with the pieces that follow.
pub join-split_loop :
    (piece sep separator text : List ℕ) (skip : ℕ) (next : List ℕ)
    → join (piece ∷ split_loop separator text skip next) sep
      ≡ piece ++ sep ++ join (split_loop separator text skip next) sep
unfolding join
join-split_loop piece sep separator text skip next =
    let (head, tail, e) = split_loop-cons separator text skip next in rw e refl

-- Skipping is dropping.
pub split_loop-drop :
    (separator text : List ℕ) (skip : ℕ) (piece : List ℕ)
    → split_loop separator text skip piece ≡ split_loop separator (drop skip text) 0 piece
unfolding split_loop
split_loop-drop separator text zero piece = refl
split_loop-drop separator [] (suc skip) piece = refl
split_loop-drop separator (c ∷ cs) (suc skip) piece = split_loop-drop separator cs skip piece

pub starts_with-eq :
    (separator text : List ℕ)
    → starts_with separator text ≡ true
    → (rest : List ℕ) × (strip_prefix separator text ≡ some rest)
starts_with-eq separator text h = go (strip_prefix separator text) h
  where
    go :
        (o : Option (List ℕ))
        → elim o [ none ↦ false | some rest ↦ true ] ≡ true
        → (rest : List ℕ) × (o ≡ some rest)
    go none e = cc
    go (some rest) e = (rest, refl)

drop-prefix : (prefix rest : List ℕ) → drop (length prefix) (prefix ++ rest) ≡ rest
drop-prefix [] rest = refl
drop-prefix (p ∷ ps) rest = drop-prefix ps rest

-- After a match the text goes on behind it.
pub behind_match :
    (separator : List ℕ) (c : ℕ) (cs rest : List ℕ)
    → 0 < length separator
    → strip_prefix separator (c ∷ cs) ≡ some rest
    → drop (length separator - 1) cs ≡ rest
behind_match [] c cs rest h e = absurd (omega (arith, h))
behind_match (s ∷ ss) c cs rest h e =
    let same : c ∷ cs ≡ s ∷ (ss ++ rest) = strip_prefix-eq (s ∷ ss) (c ∷ cs) rest e in
    let tail : cs ≡ ss ++ rest = cc same in
    let size : suc (length ss) - 1 ≡ length ss = omega arith in
    rw (size, tail) (drop-prefix ss rest)

split_loop-join :
    (separator : List ℕ)
    → 0 < length separator
    → (text : List ℕ) (skip : ℕ) (piece : List ℕ)
    → join (split_loop separator text skip piece) separator ≡ piece ++ drop skip text
unfolding split_loop join
split_loop-join separator h [] zero piece = sym (append-nil piece)
split_loop-join separator h [] (suc skip) piece = sym (append-nil piece)
split_loop-join separator h (c ∷ cs) (suc skip) piece = split_loop-join separator h cs skip piece
split_loop-join separator h (c ∷ cs) zero piece =
    elim (Bool-cases (starts_with separator (c ∷ cs))) [
      | inl found ↦
          let (rest, e) = starts_with-eq separator (c ∷ cs) found in
          rw (found, split_loop)
            (join-split_loop piece separator separator cs (length separator - 1) []
              ∙ ap (λ l. piece ++ separator ++ l)
                  (split_loop-join separator h cs (length separator - 1) []
                    ∙ behind_match separator c cs rest h e)
              ∙ append_assoc piece separator rest
              ∙ ap (λ l. piece ++ l) (sym (strip_prefix-eq separator (c ∷ cs) rest e)))
      | inr missed ↦
          rw (missed, split_loop)
            (split_loop-join separator h cs zero (piece ++ c ∷ []) ∙ append_assoc piece (c ∷ []) cs)
    ]

-- The pieces of a text, joined with what stood between them, are the text.
pub join-split :
    (text separator : List ℕ) → 0 < length separator → join (split text separator) separator ≡ text
unfolding split
join-split text separator h = split_loop-join separator h text 0 []
