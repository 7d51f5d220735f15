-- ===== src/Files/Chunk/Boundary.antt =====
-- src/file-service.ts, `utf8ChunkLength`: where a page of text ends.
use chatgpt_remote_mcp.Base.{
  ℕ, zero, suc, ◌+◌, ◌-◌, ◌≤◌, ◌<◌, ◌≡◌, refl, sym, ap, ◌∙◌, ◌⊎◌, inl, inr, Bool, true, false, ◌&&◌,
  List, [], ◌∷◌, ◌++◌, arith, ltb, leb, ◌==◌, length, get_or, take, drop, subarray, Bool-cases,
  take-subarray, List-cases, length-drop, length-append, append_assoc, take-append-drop,
}
use chatgpt_remote_mcp.Errors.{Result, ok, err, other}
use chatgpt_remote_mcp.Files.Utf8.{is_utf8, is_utf8-append, utf8_sequence_length, first_sequence}
use chatgpt_remote_mcp.Files.Chunk.{
  ChunkStep, returns, throws, goes_on, chunk_step, chunk_loop, utf8_chunk_length,
}

-- A prefix of the buffer that is well formed.
pub record IsBoundary (buffer : List ℕ) (n : ℕ) : Type 0 where
  pub in_range : n ≤ length buffer
  pub whole : is_utf8 (take n buffer) ≡ true

next-IsBoundary :
    (buffer : List ℕ) (cursor next : ℕ)
    → IsBoundary buffer cursor
    → cursor ≤ next
    → next ≤ length buffer
    → is_utf8 (subarray buffer cursor next) ≡ true
    → IsBoundary buffer next
next-IsBoundary buffer cursor next b h k valid = record {
  in_range = k;
  whole =
      ap is_utf8 (sym (take-subarray cursor next buffer h))
      ∙ is_utf8-append (take cursor buffer) (subarray buffer cursor next) b.whole
      ∙ valid;
}

drop-get_or : (n : ℕ) (xs : List ℕ) (b d : ℕ) (bs : List ℕ) → drop n xs ≡ b ∷ bs → get_or xs n d ≡ b
drop-get_or zero [] b d bs h = cc
drop-get_or zero (x ∷ xs) b d bs h = ground (arith, h)
drop-get_or (suc n) [] b d bs h = cc
drop-get_or (suc n) (x ∷ xs) b d bs h = drop-get_or n xs b d bs h

pub take-append : (n : ℕ) (xs ys : List ℕ) → n ≤ length xs → take n (xs ++ ys) ≡ take n xs
take-append zero xs ys h = refl
take-append (suc n) [] ys h = absurd (omega arith)
take-append (suc n) (x ∷ xs) ys h = ap (λ l. x ∷ l) (take-append n xs ys (omega arith))

-- No sequence of a well-formed text is refused, of which the buffer is the beginning.
sequence-facts :
    (buffer tail : List ℕ) (cursor : ℕ)
    → IsBoundary buffer cursor
    → cursor < length buffer
    → is_utf8 (buffer ++ tail) ≡ true
    → (1 ≤ utf8_sequence_length (get_or buffer cursor 0))
      × (cursor + utf8_sequence_length (get_or buffer cursor 0) ≤ length buffer + length tail)
      × (cursor + utf8_sequence_length (get_or buffer cursor 0) ≤ length buffer
          → is_utf8
              (subarray buffer cursor (cursor + utf8_sequence_length (get_or buffer cursor 0)))
            ≡ true)
sequence-facts buffer tail cursor b h valid = elim (List-cases (drop cursor buffer)) [
  | inl empty ↦ absurd (omega (arith, h, length-drop cursor buffer, ap length empty))
  | inr (first, bs, e) ↦
      let rest : is_utf8 (first ∷ (bs ++ tail)) ≡ true =
        ap (λ l. is_utf8 (l ++ tail)) (sym e)
        ∙ sym (is_utf8-append (take cursor buffer) (drop cursor buffer ++ tail) b.whole)
        ∙ ap is_utf8 (
            sym (append_assoc (take cursor buffer) (drop cursor buffer) tail)
            ∙ ap (λ l. l ++ tail) (take-append-drop cursor buffer))
        ∙ valid in
      let (some_byte, fits, whole) = first_sequence first (bs ++ tail) rest in
      let size = utf8_sequence_length first in
      let counts : length (drop cursor buffer) ≡ suc (length bs) = ap length e in
      rw (drop-get_or cursor buffer first 0 bs e) (
        some_byte,
        omega (arith, fits, counts, length-append bs tail, length-drop cursor buffer),
        λ k.
            let amount : cursor + size - cursor ≡ size = omega arith in
            let same : take (cursor + size - cursor) (drop cursor buffer)
                ≡ take size (first ∷ (bs ++ tail)) =
              ap (λ n. take n (drop cursor buffer)) amount
              ∙ ap (λ l. take size l) e
              ∙ sym (
                  take-append size (first ∷ bs) tail
                    (omega (arith, k, counts, length-drop cursor buffer))) in
            ap is_utf8 same ∙ whole,
      )
]

-- No well-formed text begins with the buffer, and is the buffer where the buffer reaches its end.
abbrev pub IsMalformed : List ℕ → Bool → Type 0
IsMalformed buffer reaches =
    (tail : List ℕ) → is_utf8 (buffer ++ tail) ≡ true → (reaches ≡ true → tail ≡ []) → ⊥

-- What a round does at a boundary.
abbrev StepFacts : List ℕ → ℕ → Bool → ℕ → ChunkStep → Type 0
StepFacts buffer requested reaches cursor (returns n) =
    IsBoundary buffer n
    × (cursor ≤ n)
    × ((n ≤ requested) ⊎ (n ≤ 4))
    × ((1 ≤ n) ⊎ (length buffer ≤ cursor) ⊎ ((reaches ≡ false) × (length buffer < cursor + 4)))
StepFacts buffer requested reaches cursor throws = IsMalformed buffer reaches
StepFacts buffer requested reaches cursor (goes_on next) =
    IsBoundary buffer next × (next ≤ requested) × (cursor < next)

utf8_sequence_length-small : (b : ℕ) → utf8_sequence_length b ≤ 4
unfolding utf8_sequence_length
utf8_sequence_length-small b = ground arith

chunk_step-facts :
    (buffer : List ℕ) (requested : ℕ) (reaches : Bool) (cursor : ℕ)
    → IsBoundary buffer cursor
    → cursor ≤ requested
    → StepFacts buffer requested reaches cursor (chunk_step buffer requested reaches cursor cursor)
unfolding chunk_step
chunk_step-facts buffer requested reaches cursor b h =
    let first = get_or buffer cursor 0 in
    let size = utf8_sequence_length first in
    let small = utf8_sequence_length-small first in
    elim (Bool-cases (leb (length buffer) cursor)) [
      | inl over ↦ rw over (b, omega arith, inl h, inr (inl (ground (arith, over))))
      | inr inside ↦ elim (Bool-cases (leb requested cursor && ltb 0 cursor)) [
        | inl full ↦ rw (inside, full) (b, omega arith, inl h, inl (ground (arith, full)))
        | inr room ↦ elim (Bool-cases (size == 0)) [
          | inl bad ↦
              rw (inside, room, bad)
                (λ tail valid ends.
                  let f = sequence-facts buffer tail cursor b (ground (arith, inside)) valid in
                  absurd (ground (arith, bad, f.0)))
          | inr sized ↦ elim (Bool-cases (ltb (length buffer) (cursor + size))) [
            | inl cut ↦ elim (Bool-cases reaches) [
              | inl at_end ↦
                  rw (inside, room, sized, cut, at_end)
                    (λ tail valid ends.
                      let f = sequence-facts buffer tail cursor b (ground (arith, inside)) valid in
                      let none_left : length tail ≡ 0 = ap length (ends refl) in
                      absurd (ground (arith, cut, f.1, none_left)))
              | inr more ↦
                  rw (inside, room, sized, cut, more)
                    (b, omega arith, inl h, inr (inr (refl, ground (arith, cut, small))))
            ]
            | inr fits ↦ elim (Bool-cases (is_utf8 (subarray buffer cursor (cursor + size)))) [
              | inr bad ↦
                  rw (inside, room, sized, fits, bad)
                    (λ tail valid ends.
                      let f = sequence-facts buffer tail cursor b (ground (arith, inside)) valid in
                      absurd (cc (bad, f.2 (ground (arith, fits)))))
              | inl valid ↦
                  let next =
                    next-IsBoundary buffer cursor (cursor + size) b (omega arith)
                      (ground (arith, fits)) valid in
                  elim (Bool-cases (ltb requested (cursor + size))) [
                    | inr small_enough ↦
                        rw (inside, room, sized, fits, valid, small_enough)
                          (next, ground (arith, small_enough), ground (arith, sized))
                    | inl large ↦ elim (Bool-cases (cursor == 0)) [
                      | inl start ↦
                          rw (inside, room, sized, fits, valid, large, start)
                            (
                              next,
                              omega arith,
                              inr (ground (arith, start, small)),
                              inl (ground (arith, sized)),
                            )
                      | inr later ↦
                          rw (inside, room, sized, fits, valid, large, later)
                            (b, omega arith, inl h, inl (ground (arith, later)))
                    ]
                  ]
            ]
          ]
        ]
      ]
    ]

-- What the loop makes of the buffer.
abbrev pub ChunkFacts : List ℕ → ℕ → Bool → Result ℕ → Type 0
ChunkFacts buffer requested reaches (ok n) =
    IsBoundary buffer n
    × ((n ≤ requested) ⊎ (n ≤ 4))
    × ((1 ≤ n) ⊎ (length buffer ≡ 0) ⊎ ((reaches ≡ false) × (length buffer < 4)))
ChunkFacts buffer requested reaches (err e) = IsMalformed buffer reaches

chunk_loop-facts :
    (fuel : ℕ) (buffer : List ℕ) (requested : ℕ) (reaches : Bool) (cursor : ℕ)
    → IsBoundary buffer cursor
    → cursor ≤ requested
    → length buffer < cursor + fuel
    → ChunkFacts buffer requested reaches (chunk_loop fuel buffer requested reaches cursor cursor)
unfolding chunk_loop
chunk_loop-facts zero buffer requested reaches cursor b h k = absurd (omega (arith, b.in_range))
chunk_loop-facts (suc fuel) buffer requested reaches cursor b h k =
    go (chunk_step buffer requested reaches cursor cursor)
      (chunk_step-facts buffer requested reaches cursor b h)
      (λ next f l m. chunk_loop-facts fuel buffer requested reaches next f l (omega (arith, m)))
  where
    go :
        (step : ChunkStep)
        → StepFacts buffer requested reaches cursor step
        → ((next : ℕ)
            → IsBoundary buffer next
            → next ≤ requested
            → cursor < next
            → ChunkFacts buffer requested reaches
                (chunk_loop fuel buffer requested reaches next next))
        → ChunkFacts buffer requested reaches (elim step [
          | returns n ↦ ok n
          | throws ↦ err other
          | goes_on next ↦ chunk_loop fuel buffer requested reaches next next
        ])
    go (returns n) f again = (f.0, f.2, ground (arith, f.1, f.3))
    go throws f again = f
    go (goes_on next) f again = again next f.0 f.1 f.2

pub utf8_chunk_length-facts :
    (buffer : List ℕ) (requested : ℕ) (reaches : Bool)
    → ChunkFacts buffer requested reaches (utf8_chunk_length buffer requested reaches)
unfolding utf8_chunk_length is_utf8
utf8_chunk_length-facts buffer requested reaches =
    chunk_loop-facts (suc (length buffer)) buffer requested reaches 0
      (record { in_range = omega arith; whole = refl }) (omega arith) (omega arith)
