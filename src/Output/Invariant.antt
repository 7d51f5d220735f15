-- ===== src/Output/Invariant.antt =====
-- The invariant of the buffer, and that `append` keeps it and extends the log.
use chatgpt_remote_mcp.Base.{
  ℕ, suc, ◌+◌, ◌≤◌, ◌≡◌, refl, sym, ap, ◌∙◌, List, [], ◌∷◌, ◌++◌, arith, length, drop,
  length-append, drop-append, append-nil, append_assoc,
}
use chatgpt_remote_mcp.Output.{Stream, Chunk, OutputBuffer, new_buffer, push_chunk, append}

-- The retained chunks, oldest first: what clients see of the array.
abbrev pub live : OutputBuffer → List Chunk
live b = drop b.head_index b.chunks

abbrev pub bytes_of : List Chunk → ℕ
bytes_of [] = 0
bytes_of (c ∷ cs) = length c.bytes + bytes_of cs

-- The sequence numbers of the chunks run from `first` up to, and without, `next`.
abbrev pub Contiguous : ℕ → List Chunk → ℕ → Type 0
Contiguous first [] next = first ≡ next
Contiguous first (c ∷ cs) next = (c.seq ≡ first) × Contiguous (suc first) cs next

pub record IsValid (b : OutputBuffer) : Type 0 where
  pub head_in_range : b.head_index ≤ length b.chunks
  pub contiguous : Contiguous b.base_seq (live b) b.next_seq
  pub counted : b.retained_bytes ≡ bytes_of (live b)
  pub started : 1 ≤ b.base_seq

pub bytes_of-append : (xs ys : List Chunk) → bytes_of (xs ++ ys) ≡ bytes_of xs + bytes_of ys
bytes_of-append [] ys = omega arith
bytes_of-append (x ∷ xs) ys = omega (arith, bytes_of-append xs ys)

Contiguous-snoc :
    (first : ℕ) (cs : List Chunk) (next : ℕ) (c : Chunk)
    → Contiguous first cs next
    → c.seq ≡ next
    → Contiguous first (cs ++ c ∷ []) (next + 1)
Contiguous-snoc first [] next c h e = (omega arith, omega arith)
Contiguous-snoc first (x ∷ cs) next c h e = (h.0, Contiguous-snoc (suc first) cs next c h.1 e)

pub Contiguous-length :
    (first : ℕ) (cs : List Chunk) (next : ℕ) → Contiguous first cs next → first + length cs ≡ next
Contiguous-length first [] next h = omega arith
Contiguous-length first (c ∷ cs) next h = omega (arith, Contiguous-length (suc first) cs next h.1)

pub new_buffer-IsValid : IsValid new_buffer
new_buffer-IsValid = record {
  head_in_range = omega arith;
  contiguous = refl;
  counted = refl;
  started = omega arith;
}

-- The chunks that `append` makes of the pieces, from the sequence number `next` on.
abbrev pub numbered : Stream → ℕ → List (List ℕ) → List Chunk
numbered stream next [] = []
numbered stream next (bytes ∷ rest) =
    record { seq = next; stream = stream; bytes = bytes } ∷ numbered stream (next + 1) rest

module _ (stream : Stream) (bytes : List ℕ) (b : OutputBuffer) (v : IsValid b) where
  abbrev chunk : Chunk
  chunk = record { seq = b.next_seq; stream = stream; bytes = bytes }

  live-push : live (push_chunk stream bytes b) ≡ live b ++ chunk ∷ []
  unfolding push_chunk
  live-push = drop-append b.head_index b.chunks (chunk ∷ []) v.head_in_range

  push-IsValid : IsValid (push_chunk stream bytes b)
  unfolding push_chunk
  push-IsValid = record {
    head_in_range = omega (arith, length-append b.chunks (chunk ∷ []), v.head_in_range);
    contiguous =
        rw live-push (Contiguous-snoc b.base_seq (live b) b.next_seq chunk v.contiguous refl);
    counted = rw live-push (omega (arith, bytes_of-append (live b) (chunk ∷ []), v.counted));
    started = v.started;
  }

-- Appending keeps the buffer valid, adds the pieces behind the retained chunks under the next
-- sequence numbers, and loses none: base and dropped count stay.
pub append-extends :
    (stream : Stream) (pieces : List (List ℕ)) (b : OutputBuffer)
    → IsValid b
    → IsValid (append stream pieces b)
      × (live (append stream pieces b) ≡ live b ++ numbered stream b.next_seq pieces)
      × ((append stream pieces b).base_seq ≡ b.base_seq)
      × ((append stream pieces b).dropped_bytes ≡ b.dropped_bytes)
unfolding append
append-extends stream [] b v = (v, sym (append-nil _), refl, refl)
append-extends stream (bytes ∷ rest) b v =
    let b' = push_chunk stream bytes b in
    let (valid, same, base, dropped) =
      append-extends stream rest b' (push-IsValid stream bytes b v) in
    (
      valid,
      same
          ∙ ap (λ l. l ++ numbered stream b'.next_seq rest) (live-push stream bytes b v)
          ∙ append_assoc (live b) _ _,
      base,
      dropped,
    )
