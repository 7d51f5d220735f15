-- ===== src/Files/Base64/Accepts.antt =====
-- src/file-service.ts, `decodeBase64`: which texts it accepts.
use chatgpt_remote_mcp.Base.{
  ℕ, zero, suc, ◌-◌, ◌%◌, ◌≡◌, refl, sym, ap, ap₂, subst, ◌∙◌, ◌⊎◌, inl, inr, true, ◌&&◌, not, some,
  List, [], ◌∷◌, ◌++◌, arith, ltb, ◌==◌, length, All, Bool-cases, Option-cases, append-nil, ==_iff,
  length-append,
}
use chatgpt_remote_mcp.Errors.{ok, >>=-eq-ok, guard-eq-ok, guard, other}
use chatgpt_remote_mcp.Files.Base64.{
  padding_char, char_digit, encode_base64, digits_of, bytes_of, is_base64_text, strip_padding,
  cons_unless_padding, padding, same_bytes, required_padding, decode_canonical, decode_base64,
}
use chatgpt_remote_mcp.Files.Base64.Digits.{sextets, IsByte, IsDigit, sextets-IsDigit, chars}
use chatgpt_remote_mcp.Files.Base64.RoundTrip.{
  length-chars, length-padding, encode_base64-chars, strip_padding-chars, decode_text,
  decode_base64-decode_text,
}

same_bytes-eq : (xs ys : List ℕ) → same_bytes xs ys ≡ true → xs ≡ ys
same_bytes-eq [] [] h = refl
same_bytes-eq [] (y ∷ ys) h = cc
same_bytes-eq (x ∷ xs) [] h = cc
same_bytes-eq (x ∷ xs) (y ∷ ys) h =
    let e : x ≡ y = ground (arith, h) in
    rw e (ap (λ l. y ∷ l) (same_bytes-eq xs ys (ground (arith, h))))

char_digit-IsDigit : (c d : ℕ) → char_digit c ≡ some d → IsDigit d
unfolding char_digit
char_digit-IsDigit c d h = ground (arith, h)

digits_of-IsDigit : (cs : List ℕ) → All IsDigit (digits_of cs)
unfolding digits_of
digits_of-IsDigit [] = tt
digits_of-IsDigit (c ∷ cs) = elim (Option-cases (char_digit c)) [
  | inl bad ↦ rw (bad, digits_of) (digits_of-IsDigit cs)
  | inr (d, e) ↦ rw (e, digits_of) (char_digit-IsDigit c d e, digits_of-IsDigit cs)
]

bytes_of-IsByte : (ds : List ℕ) → All IsDigit ds → All IsByte (bytes_of ds)
unfolding bytes_of
bytes_of-IsByte [] h = tt
bytes_of-IsByte (p ∷ []) h = tt
bytes_of-IsByte (p ∷ q ∷ []) h = (omega (arith, h.0, h.1.0), tt)
bytes_of-IsByte (p ∷ q ∷ r ∷ []) h =
    (omega (arith, h.0, h.1.0), (omega (arith, h.1.0, h.1.1.0), tt))
bytes_of-IsByte (p ∷ q ∷ r ∷ s ∷ rest) h = (
  omega (arith, h.0, h.1.0),
  (
    omega (arith, h.1.0, h.1.1.0),
    (omega (arith, h.1.1.0, h.1.1.1.0), bytes_of-IsByte rest h.1.1.1.1),
  ),
)

padding-allowed :
    (n required : ℕ) → not (ltb 0 n && not (n == required)) ≡ true → (n ≡ 0) ⊎ (n ≡ required)
padding-allowed zero required h = inl refl
padding-allowed (suc n) required h = elim (Bool-cases (suc n == required)) [
  | inl same ↦ inr ((==_iff (suc n) required).0 same)
  | inr other_count ↦ absurd (ground (arith, h, other_count))
]

-- A text is what is left of it and its padding.
strip_padding-split : (cs : List ℕ) → (n : ℕ) × (cs ≡ strip_padding cs ++ padding n)
unfolding strip_padding padding
strip_padding-split [] = (0, refl)
strip_padding-split (c ∷ cs) = let (n, e) = strip_padding-split cs in go (strip_padding cs) n e
  where
    go :
        (l : List ℕ) (n : ℕ)
        → cs ≡ l ++ padding n
        → (m : ℕ) × (c ∷ cs ≡ cons_unless_padding c l ++ padding m)
    go [] n e = elim (Bool-cases (c == padding_char)) [
      | inl is_pad ↦
          let same : c ≡ padding_char = (==_iff c padding_char).0 is_pad in
          (suc n, rw is_pad (ap₂ (λ x l. x ∷ l) same e))
      | inr digit ↦ (n, rw digit (ap (λ l. c ∷ l) e))
    ]
    go (d ∷ ds) n e = (n, ap (λ l. c ∷ l) e)

decode_canonical-facts :
    (content bytes : List ℕ)
    → decode_canonical content ≡ ok bytes
    → All IsByte bytes × (strip_padding (encode_base64 bytes) ≡ content)
unfolding decode_canonical
decode_canonical-facts content bytes h =
    let decoded = bytes_of (digits_of (content ++ padding (required_padding content))) in
    let (u, test, h1) =
      >>=-eq-ok (guard (same_bytes (strip_padding (encode_base64 decoded)) content) other) _ h in
    let same : decoded ≡ bytes = cc in
    let valid : All IsByte decoded =
      bytes_of-IsByte _ (digits_of-IsDigit (content ++ padding (required_padding content))) in
    (
      subst (λ bs. All IsByte bs) same valid,
      ap (λ bs. strip_padding (encode_base64 bs)) (sym same)
          ∙ same_bytes-eq _ content (guard-eq-ok _ other test),
    )

-- `decodeBase64` accepts nothing but the text of the bytes that it returns, with its padding or without
-- it, and what it returns are bytes.
pub decode_base64-accepts :
    (text bytes : List ℕ)
    → decode_base64 text ≡ ok bytes
    → All IsByte bytes
      × ((text ≡ encode_base64 bytes) ⊎ (text ≡ strip_padding (encode_base64 bytes)))
unfolding decode_text
decode_base64-accepts text bytes h =
    let content = strip_padding text in
    let (t, legal, h1) =
      >>=-eq-ok (guard (is_base64_text text) other) _ (sym (decode_base64-decode_text text) ∙ h) in
    let (u, size, h2) = >>=-eq-ok (guard (not (length content % 4 == 1)) other) _ h1 in
    let supplied = length text - length content in
    let (v, pads, h3) =
      >>=-eq-ok (guard (not (ltb 0 supplied && not (supplied == required_padding content))) other) _
        h2 in
    let (valid, stripped) = decode_canonical-facts content bytes h3 in
    let (n, split) = strip_padding-split text in
    let count : supplied ≡ n =
      omega (arith, ap length split, length-append content (padding n), length-padding n) in
    let allowed : (n ≡ 0) ⊎ (n ≡ required_padding content) =
      padding-allowed n (required_padding content) (rw count at (guard-eq-ok _ other pads)) in
    (
      valid,
      elim allowed [
        | inl none_left ↦
            inr (split ∙ ap (λ k. content ++ padding k) none_left ∙ bare content ∙ sym stripped)
        | inr full ↦ inl (
            split
            ∙ ap (λ k. content ++ padding k) full
            ∙ ap (λ l. l ++ padding (required_padding l)) (digits_left valid stripped)
            ∙ ap (λ k. chars (sextets bytes) ++ padding ((4 - k % 4) % 4))
                (length-chars (sextets bytes))
            ∙ sym (encode_base64-chars bytes))
      ],
    )
  where
    digits_left :
        All IsByte bytes
        → strip_padding (encode_base64 bytes) ≡ strip_padding text
        → strip_padding text ≡ chars (sextets bytes)
    digits_left valid stripped =
        sym stripped
        ∙ ap strip_padding (encode_base64-chars bytes)
        ∙ strip_padding-chars (sextets bytes) (required_padding (sextets bytes))
            (sextets-IsDigit bytes valid)

    bare : (l : List ℕ) → l ++ padding 0 ≡ l
    bare l = unfold padding in append-nil l
