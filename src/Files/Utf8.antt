-- ===== src/Files/Utf8.antt =====
-- Well-formed UTF-8 (the Unicode standard's table 3-7), which Node's `isUtf8` tests, and the lengths that
-- src/file-service.ts reads from first bytes.
pub mod Text
use chatgpt_remote_mcp.Base.{
  ℕ, zero, suc, ◌≤◌, ◌≡◌, refl, sym, ap, ◌∙◌, inl, inr, Bool, true, false, ◌&&◌, Option, none, some,
  List, [], ◌∷◌, ◌++◌, arith, ltb, leb, ◌==◌, if◌then◌else◌, length, take, Bool-cases, Option-cases,
}

-- Between two sequences, or in one: `more` bytes follow the next, which lies between `low` and `high`.
pub data Utf8State : Type 0 where
  between : Utf8State
  inside : ℕ → ℕ → ℕ → Utf8State

pub first_byte : ℕ → Option Utf8State
first_byte b =
    if leb b 0x7f
    then some between
    else if ltb b 0xc2
    then none
    else if leb b 0xdf
    then some (inside 0 0x80 0xbf)
    else if b == 0xe0
    then some (inside 1 0xa0 0xbf)
    else if b == 0xed
    then some (inside 1 0x80 0x9f)
    else if leb b 0xef
    then some (inside 1 0x80 0xbf)
    else if b == 0xf0
    then some (inside 2 0x90 0xbf)
    else if leb b 0xf3
    then some (inside 2 0x80 0xbf)
    else if b == 0xf4
    then some (inside 2 0x80 0x8f)
    else none

-- The state after the next byte but the first of a sequence.
abbrev pub later : ℕ → Utf8State
later zero = between
later (suc more) = inside more 0x80 0xbf

pub next_byte : Utf8State → ℕ → Option Utf8State
unfolding first_byte
next_byte between b = first_byte b
next_byte (inside more low high) b = if leb low b && leb b high then some (later more) else none

pub utf8_state : Utf8State → List ℕ → Option Utf8State
unfolding next_byte
utf8_state s [] = some s
utf8_state s (b ∷ bs) = elim (next_byte s b) [ none ↦ none | some t ↦ utf8_state t bs ]

abbrev pub ends_between : Option Utf8State → Bool
ends_between (some between) = true
ends_between (some (inside more low high)) = false
ends_between none = false

-- `isUtf8`.
unfoldable pub is_utf8 : List ℕ → Bool
unfolding utf8_state
is_utf8 bytes = ends_between (utf8_state between bytes)

unfoldable pub utf8_sequence_length : ℕ → ℕ
utf8_sequence_length first =
    if leb first 0x7f
    then 1
    else if leb 0xc2 first && leb first 0xdf
    then 2
    else if leb 0xe0 first && leb first 0xef
    then 3
    else if leb 0xf0 first && leb first 0xf4
    then 4
    else 0

utf8_state-cons :
    (s t : Utf8State) (b : ℕ) (bs : List ℕ)
    → next_byte s b ≡ some t
    → utf8_state s (b ∷ bs) ≡ utf8_state t bs
unfolding utf8_state
utf8_state-cons s t b bs e = rw (e, utf8_state) refl

utf8_state-none :
    (s : Utf8State) (b : ℕ) (bs : List ℕ) → next_byte s b ≡ none → utf8_state s (b ∷ bs) ≡ none
unfolding utf8_state
utf8_state-none s b bs e = rw (e, utf8_state) refl

pub utf8_state-append :
    (s t : Utf8State) (xs ys : List ℕ)
    → utf8_state s xs ≡ some t
    → utf8_state s (xs ++ ys) ≡ utf8_state t ys
unfolding utf8_state
utf8_state-append s t [] ys h = let e : s ≡ t = cc in rw e refl
utf8_state-append s t (b ∷ xs) ys h = elim (Option-cases (next_byte s b)) [
  | inl bad ↦ cc (h, utf8_state-none s b xs bad)
  | inr (u, e) ↦
      utf8_state-cons s u b (xs ++ ys) e
      ∙ utf8_state-append u t xs ys (sym (utf8_state-cons s u b xs e) ∙ h)
]

ends_between-eq : (o : Option Utf8State) → ends_between o ≡ true → o ≡ some between
ends_between-eq none e = cc
ends_between-eq (some between) e = refl
ends_between-eq (some (inside more low high)) e = cc

-- What follows a well-formed text is well formed if the whole is.
pub is_utf8-append : (xs ys : List ℕ) → is_utf8 xs ≡ true → is_utf8 (xs ++ ys) ≡ is_utf8 ys
unfolding is_utf8
is_utf8-append xs ys h =
    rw (utf8_state-append between between xs ys (ends_between-eq (utf8_state between xs) h)) refl

-- How many bytes a state still takes.
abbrev needs : Utf8State → ℕ
needs between = 0
needs (inside more low high) = suc more

first_byte-length :
    (b : ℕ) (s : Utf8State) → first_byte b ≡ some s → utf8_sequence_length b ≡ suc (needs s)
unfolding first_byte utf8_sequence_length
first_byte-length b s h = ground (arith, h)

needs-later : (more : ℕ) → needs (later more) ≡ more
needs-later zero = refl
needs-later (suc more) = refl

-- A sequence that was begun ends.
inside-ends :
    (s : Utf8State) (bs : List ℕ)
    → utf8_state s bs ≡ some between
    → (needs s ≤ length bs) × (utf8_state s (take (needs s) bs) ≡ some between)
unfolding utf8_state next_byte
inside-ends between bs h = (omega arith, refl)
inside-ends (inside more low high) [] h = cc
inside-ends (inside more low high) (b ∷ bs) h = elim (Bool-cases (leb low b && leb b high)) [
  | inr out ↦ cc (h, utf8_state-none (inside more low high) b bs (refuses out))
  | inl fits ↦
      let step = takes fits in
      let (enough, ends) =
        inside-ends (later more) bs
          (sym (utf8_state-cons (inside more low high) (later more) b bs step) ∙ h) in
      let e = needs-later more in
      let enough_left : more ≤ length bs = rw e at enough in
      (
        omega (arith, enough_left),
        utf8_state-cons (inside more low high) (later more) b (take more bs) step ∙ (rw e at ends),
      )
]
  where
    takes :
        (leb low b && leb b high) ≡ true → next_byte (inside more low high) b ≡ some (later more)
    takes e = rw e refl

    refuses : (leb low b && leb b high) ≡ false → next_byte (inside more low high) b ≡ none
    refuses e = rw e refl

-- The first sequence of a well-formed text.
pub first_sequence :
    (b : ℕ) (bs : List ℕ)
    → is_utf8 (b ∷ bs) ≡ true
    → (1 ≤ utf8_sequence_length b)
      × (utf8_sequence_length b ≤ length (b ∷ bs))
      × (is_utf8 (take (utf8_sequence_length b) (b ∷ bs)) ≡ true)
unfolding is_utf8
first_sequence b bs h = elim (Option-cases (first_byte b)) [
  | inl bad ↦ cc (ap ends_between (utf8_state-none between b bs (unfold next_byte in bad)), h)
  | inr (s, e) ↦
      let size = first_byte-length b s e in
      let step : next_byte between b ≡ some s = unfold next_byte in e in
      let (enough, ends) = inside-ends s bs (
        sym (utf8_state-cons between s b bs step)
        ∙ ends_between-eq (utf8_state between (b ∷ bs)) h) in
      let whole : is_utf8 (b ∷ take (needs s) bs) ≡ true =
        ap ends_between (utf8_state-cons between s b (take (needs s) bs) step ∙ ends) in
      rw size (omega arith, omega (arith, enough), whole)
]
