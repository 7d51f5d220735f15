-- ===== src/Files/Utf8/Text.antt =====
-- `Buffer.toString("utf8")`, with which src/process-manager.ts makes texts of the output's bytes. A text is
-- the bytes of its UTF-8: a sequence that is not well formed becomes the replacement character U+FFFD, one
-- for each longest beginning of a sequence.
use chatgpt_remote_mcp.Base.{
  ℕ, ◌≡◌, refl, sym, ap, ◌∙◌, inl, inr, true, Option, none, some, List, [], ◌∷◌, ◌++◌, append-nil,
  append_assoc, Option-cases,
}
use chatgpt_remote_mcp.Files.Utf8.{
  Utf8State, between, inside, next_byte, utf8_state, is_utf8, utf8_state-cons, utf8_state-none,
  ends_between-eq,
}

abbrev pub replacement : List ℕ
replacement = 0xef ∷ 0xbf ∷ 0xbd ∷ []

-- What one byte adds to the text, and the bytes that are held until their sequence ends.
pub record TextStep : Type 0 where
  pub text : List ℕ
  pub state : Utf8State
  pub held : List ℕ

abbrev pub taken : Utf8State → List ℕ → ℕ → TextStep
taken between held b = record { text = held ++ b ∷ []; state = between; held = [] }
taken (inside more low high) held b = record {
  text = [];
  state = inside more low high;
  held = held ++ b ∷ [];
}

abbrev pub begun : Option Utf8State → ℕ → TextStep
begun none b = record { text = replacement; state = between; held = [] }
begun (some s) b = taken s [] b

-- A byte that does not go on with a sequence is the first byte of the next.
abbrev pub broken : Utf8State → ℕ → TextStep
broken between b = begun none b
broken (inside more low high) b =
    let next = begun (next_byte between b) b in
    record { text = replacement ++ next.text; state = next.state; held = next.held }

abbrev pub text_step : Utf8State → List ℕ → ℕ → Option Utf8State → TextStep
text_step s held b none = broken s b
text_step s held b (some t) = taken t held b

abbrev pub text_end : Utf8State → List ℕ
text_end between = []
text_end (inside more low high) = replacement

pub to_text_from : Utf8State → List ℕ → List ℕ → List ℕ
unfolding next_byte
to_text_from s held [] = text_end s
to_text_from s held (b ∷ bs) =
    let next = text_step s held b (next_byte s b) in
    next.text ++ to_text_from next.state next.held bs

unfoldable pub to_text : List ℕ → List ℕ
unfolding to_text_from
to_text bytes = to_text_from between [] bytes

abbrev IsHeld : Utf8State → List ℕ → Type 0
IsHeld between held = held ≡ []
IsHeld (inside more low high) held = Unit

to_text_from-cons :
    (s t : Utf8State) (held : List ℕ) (b : ℕ) (bs : List ℕ)
    → next_byte s b ≡ some t
    → to_text_from s held (b ∷ bs)
      ≡ (taken t held b).text ++ to_text_from (taken t held b).state (taken t held b).held bs
unfolding to_text_from
to_text_from-cons s t held b bs e =
    ap
      (λ o.
        (text_step s held b o).text
        ++ to_text_from (text_step s held b o).state (text_step s held b o).held bs)
      e

to_text_from-keeps :
    (bs : List ℕ) (s : Utf8State) (held : List ℕ)
    → IsHeld s held
    → utf8_state s bs ≡ some between
    → to_text_from s held bs ≡ held ++ bs
unfolding to_text_from utf8_state
to_text_from-keeps [] between held h e = sym (append-nil held ∙ h)
to_text_from-keeps [] (inside more low high) held h e = cc
to_text_from-keeps (b ∷ bs) s held h e = elim (Option-cases (next_byte s b)) [
  | inl bad ↦ cc (e, utf8_state-none s b bs bad)
  | inr (t, next) ↦
      to_text_from-cons s t held b bs next
      ∙ go t (sym (utf8_state-cons s t b bs next) ∙ e) (to_text_from-keeps bs)
      ∙ append_assoc held (b ∷ []) bs
]
  where
    go :
        (t : Utf8State)
        → utf8_state t bs ≡ some between
        → ((s : Utf8State) (held : List ℕ)
            → IsHeld s held
            → utf8_state s bs ≡ some between
            → to_text_from s held bs ≡ held ++ bs)
        → (taken t held b).text ++ to_text_from (taken t held b).state (taken t held b).held bs
          ≡ held ++ b ∷ [] ++ bs
    go between k ih = ap (λ l. held ++ b ∷ [] ++ l) (ih between [] refl k)
    go (inside more low high) k ih = ih (inside more low high) (held ++ b ∷ []) tt k

-- The text of well-formed bytes has these bytes.
pub to_text-is_utf8 : (bytes : List ℕ) → is_utf8 bytes ≡ true → to_text bytes ≡ bytes
unfolding to_text is_utf8
to_text-is_utf8 bytes h =
    to_text_from-keeps bytes between [] refl (ends_between-eq (utf8_state between bytes) h)
