-- ===== src/Files/Base64/Digits.antt =====
-- The digits of base64, and its groups of four digits and three bytes.
use chatgpt_remote_mcp.Base.{
  ℕ, zero, suc, ◌+◌, ◌*◌, ◌/◌, ◌%◌, ◌<◌, ◌≡◌, refl, ap, ◌∙◌, false, some, List, [], ◌∷◌, ◌++◌,
  arith, ◌==◌, All,
}
use chatgpt_remote_mcp.Files.Base64.{
  padding_char, digit_char, char_digit, digits_of, bytes_of, padding,
}

pub char_digit-digit_char : (d : ℕ) → d < 64 → char_digit (digit_char d) ≡ some d
unfolding char_digit digit_char
char_digit-digit_char d h = ground arith

pub digit_char-not_padding : (d : ℕ) → d < 64 → (digit_char d == padding_char) ≡ false
unfolding digit_char
digit_char-not_padding d h = ground arith

-- The digits that three bytes are written with.
unfoldable pub sextets : List ℕ → List ℕ
sextets [] = []
sextets (a ∷ []) = (a / 4) ∷ (a % 4 * 16) ∷ []
sextets (a ∷ b ∷ []) = (a / 4) ∷ (a % 4 * 16 + b / 16) ∷ (b % 16 * 4) ∷ []
sextets (a ∷ b ∷ c ∷ rest) =
    (a / 4) ∷ (a % 4 * 16 + b / 16) ∷ (b % 16 * 4 + c / 64) ∷ (c % 64) ∷ sextets rest

abbrev pub IsByte : ℕ → Type 0
IsByte b = b < 256

abbrev pub IsDigit : ℕ → Type 0
IsDigit d = d < 64

pub sextets-IsDigit : (bytes : List ℕ) → All IsByte bytes → All IsDigit (sextets bytes)
unfolding sextets
sextets-IsDigit [] h = tt
sextets-IsDigit (a ∷ []) h = (omega (arith, h.0), (omega (arith, h.0), tt))
sextets-IsDigit (a ∷ b ∷ []) h =
    (omega (arith, h.0), (omega (arith, h.0, h.1.0), (omega (arith, h.1.0), tt)))
sextets-IsDigit (a ∷ b ∷ c ∷ rest) h = (
  omega (arith, h.0),
  (
    omega (arith, h.0, h.1.0),
    (omega (arith, h.1.0, h.1.1.0), (omega (arith, h.1.1.0), sextets-IsDigit rest h.1.1.1)),
  ),
)

pub bytes_of-sextets : (bytes : List ℕ) → All IsByte bytes → bytes_of (sextets bytes) ≡ bytes
unfolding sextets bytes_of
bytes_of-sextets [] h = refl
bytes_of-sextets (a ∷ []) h = let e : a / 4 * 4 + a % 4 * 16 / 16 ≡ a = omega arith in rw e refl
bytes_of-sextets (a ∷ b ∷ []) h =
    let e : a / 4 * 4 + (a % 4 * 16 + b / 16) / 16 ≡ a = omega (arith, h.1.0) in
    let f : (a % 4 * 16 + b / 16) % 16 * 16 + b % 16 * 4 / 4 ≡ b = omega (arith, h.1.0) in
    rw (e, f) refl
bytes_of-sextets (a ∷ b ∷ c ∷ rest) h =
    let e : a / 4 * 4 + (a % 4 * 16 + b / 16) / 16 ≡ a = omega (arith, h.1.0) in
    let f : (a % 4 * 16 + b / 16) % 16 * 16 + (b % 16 * 4 + c / 64) / 4 ≡ b =
      omega (arith, h.1.0, h.1.1.0) in
    let g : (b % 16 * 4 + c / 64) % 4 * 64 + c % 64 ≡ c = omega (arith, h.1.1.0) in
    rw (e, f, g, bytes_of-sextets rest h.1.1.1) refl

-- The text of digits.
unfoldable pub chars : List ℕ → List ℕ
chars [] = []
chars (d ∷ ds) = digit_char d ∷ chars ds

digits_of-cons :
    (c d : ℕ) (cs : List ℕ) → char_digit c ≡ some d → digits_of (c ∷ cs) ≡ d ∷ digits_of cs
unfolding digits_of
digits_of-cons c d cs e = rw (e, digits_of) refl

pub digits_of-chars :
    (ds tail : List ℕ) → All IsDigit ds → digits_of (chars ds ++ tail) ≡ ds ++ digits_of tail
unfolding chars digits_of
digits_of-chars [] tail h = refl
digits_of-chars (d ∷ ds) tail h =
    digits_of-cons (digit_char d) d (chars ds ++ tail) (char_digit-digit_char d h.0)
    ∙ ap (λ l. d ∷ l) (digits_of-chars ds tail h.1)

pub digits_of-padding : (n : ℕ) → digits_of (padding n) ≡ []
unfolding digits_of padding char_digit
digits_of-padding zero = refl
digits_of-padding (suc n) = digits_of-padding n
