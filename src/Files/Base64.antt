-- ===== src/Files/Base64.antt =====
-- src/file-service.ts, `decodeBase64` and Node's base64: texts are the codes of their characters.
pub mod Digits
pub mod RoundTrip
pub mod Accepts
use chatgpt_remote_mcp.Base.{
  ℕ, zero, suc, ◌+◌, ◌-◌, ◌*◌, ◌/◌, ◌%◌, Bool, true, false, ◌&&◌, ◌||◌, not, Option, none, some,
  List, [], ◌∷◌, ◌++◌, ltb, leb, ◌==◌, if◌then◌else◌, length,
}
use chatgpt_remote_mcp.Errors.{Result, ok, err, ◌>>=◌, ◌>>◌, guard, other}

-- The codes of `=`, and of the digits.
abbrev pub padding_char : ℕ
padding_char = 61

pub digit_char : ℕ → ℕ
digit_char d =
    if ltb d 26
    then 65 + d
    else if ltb d 52
    then 97 + (d - 26)
    else if ltb d 62
    then 48 + (d - 52)
    else if d == 62
    then 43
    else 47

pub char_digit : ℕ → Option ℕ
char_digit c =
    if leb 65 c && leb c 90
    then some (c - 65)
    else if leb 97 c && leb c 122
    then some (c - 97 + 26)
    else if leb 48 c && leb c 57
    then some (c - 48 + 52)
    else if c == 43
    then some 62
    else if c == 47
    then some 63
    else none

-- `buffer.toString("base64")`.
unfoldable pub encode_base64 : List ℕ → List ℕ
unfolding digit_char
encode_base64 [] = []
encode_base64 (a ∷ []) =
    digit_char (a / 4) ∷ digit_char (a % 4 * 16) ∷ padding_char ∷ padding_char ∷ []
encode_base64 (a ∷ b ∷ []) =
    digit_char (a / 4)
    ∷ digit_char (a % 4 * 16 + b / 16)
    ∷ digit_char (b % 16 * 4)
    ∷ padding_char
    ∷ []
encode_base64 (a ∷ b ∷ c ∷ rest) =
    digit_char (a / 4)
    ∷ digit_char (a % 4 * 16 + b / 16)
    ∷ digit_char (b % 16 * 4 + c / 64)
    ∷ digit_char (c % 64)
    ∷ encode_base64 rest

-- `Buffer.from(text, "base64")`: characters that are no digits are skipped.
pub digits_of : List ℕ → List ℕ
unfolding char_digit
digits_of [] = []
digits_of (c ∷ cs) =
    let rest = digits_of cs in elim (char_digit c) [ none ↦ rest | some d ↦ d ∷ rest ]

pub bytes_of : List ℕ → List ℕ
bytes_of [] = []
bytes_of (p ∷ []) = []
bytes_of (p ∷ q ∷ []) = (p * 4 + q / 16) ∷ []
bytes_of (p ∷ q ∷ r ∷ []) = (p * 4 + q / 16) ∷ (q % 16 * 16 + r / 4) ∷ []
bytes_of (p ∷ q ∷ r ∷ s ∷ rest) =
    (p * 4 + q / 16) ∷ (q % 16 * 16 + r / 4) ∷ (r % 4 * 64 + s) ∷ bytes_of rest

-- `/^[A-Za-z0-9+/]*={0,2}$/`.
pub is_padding : List ℕ → Bool
is_padding [] = true
is_padding (c ∷ []) = c == padding_char
is_padding (c ∷ d ∷ []) = (c == padding_char) && (d == padding_char)
is_padding (c ∷ d ∷ e ∷ cs) = false

pub is_base64_text : List ℕ → Bool
unfolding char_digit is_padding
is_base64_text [] = true
is_base64_text (c ∷ cs) =
    let rest = is_base64_text cs in
    elim (char_digit c) [ none ↦ is_padding (c ∷ cs) | some d ↦ rest ]

-- `.replace(/=+$/, "")`.
abbrev cons_unless_padding : ℕ → List ℕ → List ℕ
cons_unless_padding c [] = if c == padding_char then [] else c ∷ []
cons_unless_padding c (d ∷ ds) = c ∷ d ∷ ds

pub strip_padding : List ℕ → List ℕ
strip_padding [] = []
strip_padding (c ∷ cs) = cons_unless_padding c (strip_padding cs)

-- `"=".repeat(n)`.
pub padding : ℕ → List ℕ
padding zero = []
padding (suc n) = padding_char ∷ padding n

abbrev pub same_bytes : List ℕ → List ℕ → Bool
same_bytes [] [] = true
same_bytes [] (y ∷ ys) = false
same_bytes (x ∷ xs) [] = false
same_bytes (x ∷ xs) (y ∷ ys) = (x == y) && same_bytes xs ys

abbrev pub required_padding : List ℕ → ℕ
required_padding content = (4 - length content % 4) % 4

-- The end of `decodeBase64`, from the text without its padding.
pub decode_canonical : List ℕ → Result (List ℕ)
unfolding digits_of bytes_of encode_base64 strip_padding padding
decode_canonical content = do
  let decoded = bytes_of (digits_of (content ++ padding (required_padding content)))
  guard (same_bytes (strip_padding (encode_base64 decoded)) content) other
  ok decoded

unfoldable pub decode_base64 : List ℕ → Result (List ℕ)
unfolding is_base64_text strip_padding decode_canonical
decode_base64 [] = ok []
decode_base64 (c ∷ cs) = do
  guard (is_base64_text (c ∷ cs)) other
  let content = strip_padding (c ∷ cs)
  let supplied = length (c ∷ cs) - length content
  guard (not (length content % 4 == 1)) other
  guard (not (ltb 0 supplied && not (supplied == required_padding content))) other
  decode_canonical content
