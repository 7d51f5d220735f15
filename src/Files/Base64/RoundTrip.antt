-- ===== src/Files/Base64/RoundTrip.antt =====
-- src/file-service.ts, `decodeBase64`: it reads back what was written, with its padding or without.
use chatgpt_remote_mcp.Base.{
  ℕ, zero, suc, ◌+◌, ◌-◌, ◌*◌, ◌/◌, ◌%◌, ◌≤◌, ◌≡◌, refl, sym, ap, ◌∙◌, ◌⊎◌, inl, inr, true, false,
  ◌&&◌, not, List, [], ◌∷◌, ◌++◌, arith, ltb, ◌==◌, length, All, append-nil, ==_iff, length-append,
}
use chatgpt_remote_mcp.Errors.{Result, ok, ◌>>◌, guard, other}
use chatgpt_remote_mcp.Files.Base64.{
  padding_char, digit_char, encode_base64, digits_of, bytes_of, is_padding, is_base64_text,
  strip_padding, cons_unless_padding, padding, same_bytes, required_padding, decode_canonical,
  decode_base64,
}
use chatgpt_remote_mcp.Files.Base64.Digits.{
  char_digit-digit_char, digit_char-not_padding, sextets, IsByte, IsDigit, sextets-IsDigit,
  bytes_of-sextets, chars, digits_of-chars, digits_of-padding,
}

pub length-chars : (ds : List ℕ) → length (chars ds) ≡ length ds
unfolding chars
length-chars [] = refl
length-chars (d ∷ ds) = ap suc (length-chars ds)

pub length-padding : (n : ℕ) → length (padding n) ≡ n
unfolding padding
length-padding zero = refl
length-padding (suc n) = ap suc (length-padding n)

required-next : (n : ℕ) → (4 - suc (suc (suc (suc n))) % 4) % 4 ≡ (4 - n % 4) % 4
required-next n = omega arith

-- The digits and their padding are the text.
pub encode_base64-chars :
    (bytes : List ℕ)
    → encode_base64 bytes ≡ chars (sextets bytes) ++ padding (required_padding (sextets bytes))
unfolding encode_base64 chars sextets padding
encode_base64-chars [] = refl
encode_base64-chars (a ∷ []) = refl
encode_base64-chars (a ∷ b ∷ []) = refl
encode_base64-chars (a ∷ b ∷ c ∷ rest) =
    let again : required_padding (sextets (a ∷ b ∷ c ∷ rest)) ≡ required_padding (sextets rest) =
      required-next (length (sextets rest)) in
    ap
      (λ l.
        digit_char (a / 4)
        ∷ digit_char (a % 4 * 16 + b / 16)
        ∷ digit_char (b % 16 * 4 + c / 64)
        ∷ digit_char (c % 64)
        ∷ l)
      (encode_base64-chars rest ∙ ap (λ n. chars (sextets rest) ++ padding n) (sym again))

strip_padding-padding : (n : ℕ) → strip_padding (padding n) ≡ []
unfolding strip_padding padding
strip_padding-padding zero = refl
strip_padding-padding (suc n) = rw (strip_padding-padding n) refl

strip_padding-cons :
    (c : ℕ) (cs : List ℕ)
    → (c == padding_char) ≡ false
    → strip_padding (c ∷ cs) ≡ c ∷ strip_padding cs
unfolding strip_padding
strip_padding-cons c cs h = go (strip_padding cs)
  where
    go : (l : List ℕ) → cons_unless_padding c l ≡ c ∷ l
    go [] = rw h refl
    go (d ∷ ds) = refl

pub strip_padding-chars :
    (ds : List ℕ) (n : ℕ) → All IsDigit ds → strip_padding (chars ds ++ padding n) ≡ chars ds
unfolding chars
strip_padding-chars [] n h = strip_padding-padding n
strip_padding-chars (d ∷ ds) n h =
    strip_padding-cons (digit_char d) (chars ds ++ padding n) (digit_char-not_padding d h.0)
    ∙ ap (λ l. digit_char d ∷ l) (strip_padding-chars ds n h.1)

is_base64_text-padding : (n : ℕ) → n ≤ 2 → is_base64_text (padding n) ≡ true
unfolding is_base64_text padding is_padding
is_base64_text-padding zero h = refl
is_base64_text-padding (suc zero) h = refl
is_base64_text-padding (suc (suc zero)) h = refl
is_base64_text-padding (suc (suc (suc n))) h = absurd (omega arith)

is_base64_text-chars :
    (ds : List ℕ) (n : ℕ) → All IsDigit ds → n ≤ 2 → is_base64_text (chars ds ++ padding n) ≡ true
unfolding chars is_base64_text
is_base64_text-chars [] n h k = is_base64_text-padding n k
is_base64_text-chars (d ∷ ds) n h k =
    rw (is_base64_text, char_digit-digit_char d h.0) (is_base64_text-chars ds n h.1 k)

same_bytes_refl : (xs : List ℕ) → same_bytes xs xs ≡ true
same_bytes_refl [] = refl
same_bytes_refl (x ∷ xs) = rw ((==_iff x x).1 refl) (same_bytes_refl xs)

-- The statements of `decodeBase64` on any text.
unfoldable pub decode_text : List ℕ → Result (List ℕ)
decode_text text = do
  guard (is_base64_text text) other
  let content = strip_padding text
  let supplied = length text - length content
  guard (not (length content % 4 == 1)) other
  guard (not (ltb 0 supplied && not (supplied == required_padding content))) other
  decode_canonical content

pub decode_base64-decode_text : (text : List ℕ) → decode_base64 text ≡ decode_text text
unfolding decode_base64 decode_text
decode_base64-decode_text [] = refl
decode_base64-decode_text (c ∷ cs) = refl

decode_text-content :
    (text content : List ℕ) (supplied : ℕ)
    → is_base64_text text ≡ true
    → strip_padding text ≡ content
    → length text - length content ≡ supplied
    → (length content % 4 == 1) ≡ false
    → (ltb 0 supplied && not (supplied == required_padding content)) ≡ false
    → decode_text text ≡ decode_canonical content
unfolding decode_text
decode_text-content text content supplied a b c d e = rw (a, b, c, d, e) refl

-- No group of digits has one digit.
length-sextets : (bytes : List ℕ) → (length (sextets bytes) % 4 == 1) ≡ false
unfolding sextets
length-sextets [] = refl
length-sextets (a ∷ []) = refl
length-sextets (a ∷ b ∷ []) = refl
length-sextets (a ∷ b ∷ c ∷ rest) = ground (arith, length-sextets rest)

decode_canonical-chars :
    (bytes : List ℕ) → All IsByte bytes → decode_canonical (chars (sextets bytes)) ≡ ok bytes
unfolding decode_canonical
decode_canonical-chars bytes h =
    let ds = sextets bytes in
    let digits = sextets-IsDigit bytes h in
    let read : bytes_of (digits_of (chars ds ++ padding (required_padding (chars ds)))) ≡ bytes =
      ap bytes_of (
        digits_of-chars ds (padding (required_padding (chars ds))) digits
        ∙ ap (λ l. ds ++ l) (digits_of-padding (required_padding (chars ds)))
        ∙ append-nil ds)
      ∙ bytes_of-sextets bytes h in
    let written : strip_padding (encode_base64 bytes) ≡ chars ds =
      ap strip_padding (encode_base64-chars bytes)
      ∙ strip_padding-chars ds (required_padding ds) digits in
    rw (read, written, same_bytes_refl (chars ds)) refl

decode-chars :
    (bytes : List ℕ) (n : ℕ)
    → All IsByte bytes
    → (n ≡ 0) ⊎ (n ≡ required_padding (sextets bytes))
    → decode_base64 (chars (sextets bytes) ++ padding n) ≡ ok bytes
decode-chars bytes n h k =
    let ds = sextets bytes in
    let digits = sextets-IsDigit bytes h in
    let same = length-chars ds in
    let whole = length-sextets bytes in
    let few : n ≤ 2 = ground (arith, whole, k) in
    let size : length (chars ds ++ padding n) - length (chars ds) ≡ n =
      omega (arith, length-append (chars ds) (padding n), length-padding n) in
    decode_base64-decode_text (chars ds ++ padding n)
    ∙ decode_text-content (chars ds ++ padding n) (chars ds) n
        (is_base64_text-chars ds n digits few) (strip_padding-chars ds n digits) size
        (rw same whole) (rw same (ground (arith, k)))
    ∙ decode_canonical-chars bytes h

-- Bytes that are written as base64 are read back, from the text with its padding and from the text
-- without it.
pub decode_base64-encode_base64 :
    (bytes : List ℕ)
    → All IsByte bytes
    → (decode_base64 (encode_base64 bytes) ≡ ok bytes)
      × (decode_base64 (strip_padding (encode_base64 bytes)) ≡ ok bytes)
decode_base64-encode_base64 bytes h =
    let ds = sextets bytes in
    let padded = encode_base64-chars bytes in
    let bare : strip_padding (encode_base64 bytes) ≡ chars ds ++ padding 0 =
      ap strip_padding padded
      ∙ strip_padding-chars ds (required_padding ds) (sextets-IsDigit bytes h)
      ∙ sym (unfold padding in append-nil (chars ds)) in
    (
      ap decode_base64 padded ∙ decode-chars bytes (required_padding ds) h (inr refl),
      ap decode_base64 bare ∙ decode-chars bytes 0 h (inl refl),
    )
