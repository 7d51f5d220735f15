-- ===== src/Output/Trim.antt =====
-- `trimTo`: what is evicted, and that the invariant is kept.
use chatgpt_remote_mcp.Base.{
  ℕ, zero, suc, ◌+◌, ◌-◌, ◌*◌, ◌≤◌, ◌<◌, ◌≡◌, refl, sym, ap, subst, ◌∙◌, ◌⊎◌, inl, inr, ◌||◌, some,
  List, [], ◌∷◌, arith, length, take, drop, get_elem?, get_elem?-lt, drop-cons, drop-all, ltb, leb,
  ◌==◌, Bool-cases,
}
use chatgpt_remote_mcp.Output.{
  Chunk, OutputBuffer, evict, trim_loop, trim_to, compact_if_needed, compact_head_threshold,
}
use chatgpt_remote_mcp.Output.Invariant.{live, bytes_of, Contiguous, IsValid}

-- What a trim to `max_bytes` makes of `b`: `evicted` chunks go from the old end, no more than needed.
pub record IsTrimmed (max_bytes : ℕ) (b after : OutputBuffer) (dropped : ℕ) : Type 0 where
  pub evicted : ℕ
  pub valid : IsValid after
  pub kept : live after ≡ drop evicted (live b)
  pub reported : dropped ≡ bytes_of (take evicted (live b))
  pub recorded : after.dropped_bytes ≡ b.dropped_bytes + dropped
  pub within : after.retained_bytes ≤ max_bytes
  pub needed : (evicted ≡ 0) ⊎ (max_bytes < bytes_of (drop (evicted - 1) (live b)))
  pub same_next : after.next_seq ≡ b.next_seq

module _ (b : OutputBuffer) (v : IsValid b) (removed : Chunk)
    (at_head : get_elem? b.chunks b.head_index ≡ some removed) where
  live-evict : live b ≡ removed ∷ live (evict removed b)
  unfolding evict
  live-evict =
      let e : b.head_index + 1 ≡ suc b.head_index = omega arith in
      rw e (drop-cons b.head_index b.chunks at_head)

  evict-Contiguous :
      (removed.seq ≡ b.base_seq) × Contiguous (suc b.base_seq) (live (evict removed b)) b.next_seq
  evict-Contiguous = rw live-evict at v.contiguous

  evict-counted : b.retained_bytes ≡ length removed.bytes + bytes_of (live (evict removed b))
  evict-counted = rw live-evict at v.counted

  evict-IsValid : b.head_index < length b.chunks → IsValid (evict removed b)
  evict-IsValid h =
      let e : suc b.base_seq ≡ (evict removed b).base_seq =
        unfold evict in omega (arith, evict-Contiguous.0) in
      record {
        head_in_range = unfold evict in omega arith;
        contiguous =
            unfold evict in
            subst (λ s. Contiguous s (live (evict removed b)) b.next_seq) e evict-Contiguous.1;
        counted = unfold evict in omega (arith, evict-counted);
        started = unfold evict in omega arith;
      }

  needed_step :
      (m k : ℕ)
      → m < b.retained_bytes
      → (k ≡ 0) ⊎ (m < bytes_of (drop (k - 1) (live (evict removed b))))
      → m < bytes_of (drop k (live b))
  needed_step m zero h n = omega (arith, v.counted)
  needed_step m (suc k) h (inl e) = absurd (omega arith)
  needed_step m (suc k) h (inr p) = let e : suc k - 1 ≡ k = omega arith in rw live-evict (rw e at p)

  IsTrimmed-evict :
      {after : OutputBuffer} {m dropped : ℕ}
      → m < b.retained_bytes
      → IsTrimmed m (evict removed b) after dropped
      → IsTrimmed m b after (length removed.bytes + dropped)
  IsTrimmed-evict {m} h t = record {
    evicted = suc t.evicted;
    valid = t.valid;
    kept = rw live-evict t.kept;
    reported = rw live-evict (omega (arith, t.reported));
    recorded = unfold evict in omega (arith, t.recorded);
    within = t.within;
    needed =
        let e : suc t.evicted - 1 ≡ t.evicted = omega arith in
        inr (rw e (needed_step m t.evicted h t.needed));
    same_next = unfold evict in t.same_next;
  }

IsTrimmed-stop :
    (m : ℕ) (b : OutputBuffer)
    → IsValid b
    → (b.retained_bytes ≤ m) ⊎ (length b.chunks ≤ b.head_index)
    → IsTrimmed m b b 0
IsTrimmed-stop m b v stop = record {
  evicted = 0;
  valid = v;
  kept = refl;
  reported = refl;
  recorded = omega arith;
  within = small stop;
  needed = inl refl;
  same_next = refl;
}
  where
    small : (b.retained_bytes ≤ m) ⊎ (length b.chunks ≤ b.head_index) → b.retained_bytes ≤ m
    small (inl h) = h
    small (inr h) = omega (arith, v.counted, ap bytes_of (drop-all b.head_index b.chunks h))

abbrev LoopEnds : ℕ → OutputBuffer → ℕ → OutputBuffer × ℕ → Type 0
LoopEnds m b d r = (x : ℕ) × IsTrimmed m b r.0 x × (r.1 ≡ d + x)

-- With a round for each retained chunk the loop ends by its own test.
trim_loop_lem :
    (fuel m : ℕ) (b : OutputBuffer) (d : ℕ)
    → IsValid b
    → length b.chunks ≤ fuel + b.head_index
    → LoopEnds m b d (trim_loop fuel m b d)
unfolding trim_loop
trim_loop_lem zero m b d v enough = (0, IsTrimmed-stop m b v (inr (omega arith)), omega arith)
trim_loop_lem (suc fuel) m b d v enough = elim (Bool-cases (ltb m b.retained_bytes)) [
  | inr small ↦ rw (small, trim_loop) (0, IsTrimmed-stop m b v (inl (ground arith)), omega arith)
  | inl large ↦ elim (Bool-cases (ltb b.head_index (length b.chunks))) [
    | inr over ↦
        rw (large, over, trim_loop) (0, IsTrimmed-stop m b v (inr (ground arith)), omega arith)
    | inl here ↦
        let (c, at) = get_elem?-lt b.chunks b.head_index (ground arith) in
        let inner =
          trim_loop_lem fuel m (evict c b) (d + length c.bytes)
            (evict-IsValid b v c at (ground arith)) (unfold evict in omega arith) in
        rw (large, here, at, trim_loop)
          (
            length c.bytes + inner.0,
            IsTrimmed-evict b v c at (ground arith) inner.1,
            omega (arith, inner.2),
          )
  ]
]

record IsSameLog (b after : OutputBuffer) : Type 0 where
  valid : IsValid after
  same_live : live after ≡ live b
  same_next : after.next_seq ≡ b.next_seq
  same_retained : after.retained_bytes ≡ b.retained_bytes
  same_dropped : after.dropped_bytes ≡ b.dropped_bytes

compact-IsSameLog : (b : OutputBuffer) → IsValid b → IsSameLog b (compact_if_needed b)
unfolding compact_if_needed
compact-IsSameLog b v = elim (Bool-cases (b.head_index == 0)) [
  | inl none_gone ↦ rw (none_gone, compact_if_needed) (unchanged b v)
  | inr some_gone ↦ elim (Bool-cases (b.head_index == length b.chunks)) [
    | inl all_gone ↦ rw (some_gone, all_gone, compact_if_needed) (cleared b v (ground arith))
    | inr some_left ↦
        elim (Bool-cases
          (leb compact_head_threshold b.head_index || leb (length b.chunks) (b.head_index * 2))) [
            | inl due ↦ rw (some_gone, some_left, due, compact_if_needed) (sliced b v)
            | inr early ↦ rw (some_gone, some_left, early, compact_if_needed) (unchanged b v)
          ]
  ]
]
  where
    unchanged : (b : OutputBuffer) → IsValid b → IsSameLog b b
    unchanged b v = record {
      valid = v;
      same_live = refl;
      same_next = refl;
      same_retained = refl;
      same_dropped = refl;
    }

    cleared :
        (b : OutputBuffer)
        → IsValid b
        → b.head_index ≡ length b.chunks
        → IsSameLog b (record b { chunks = []; head_index = 0; base_seq = b.next_seq })
    cleared b v e =
        let gone : live b ≡ [] = drop-all b.head_index b.chunks (omega arith) in
        let run : b.base_seq ≡ b.next_seq = rw gone at v.contiguous in
        record {
          valid = record {
            head_in_range = omega arith;
            contiguous = refl;
            counted = omega (arith, v.counted, ap bytes_of gone);
            started = omega (arith, v.started, run);
          };
          same_live = sym gone;
          same_next = refl;
          same_retained = refl;
          same_dropped = refl;
        }

    sliced :
        (b : OutputBuffer)
        → IsValid b
        → IsSameLog b (record b { chunks = drop b.head_index b.chunks; head_index = 0 })
    sliced b v = record {
      valid = record {
        head_in_range = omega arith;
        contiguous = v.contiguous;
        counted = v.counted;
        started = v.started;
      };
      same_live = refl;
      same_next = refl;
      same_retained = refl;
      same_dropped = refl;
    }

-- A trim of a valid buffer leaves a valid buffer that holds at most `max_bytes`. The chunks that go
-- are the oldest, no more of them than the bound needs, the result and the dropped count record
-- their bytes, and the numbering goes on where it was.
pub trim_to-IsTrimmed :
    (max_bytes : ℕ) (b : OutputBuffer)
    → IsValid b
    → IsTrimmed max_bytes b (trim_to max_bytes b).0 (trim_to max_bytes b).1
unfolding trim_to
trim_to-IsTrimmed m b v =
    let (x, t, e) = trim_loop_lem (length b.chunks) m b 0 v (omega arith) in
    let r = trim_loop (length b.chunks) m b 0 in
    let c = compact-IsSameLog r.0 t.valid in
    let ex : r.1 ≡ x = omega (arith, e) in
    record {
      evicted = t.evicted;
      valid = c.valid;
      kept = c.same_live ∙ t.kept;
      reported = ex ∙ t.reported;
      recorded = omega (arith, c.same_dropped, t.recorded, ex);
      within = omega (arith, c.same_retained, t.within);
      needed = t.needed;
      same_next = c.same_next ∙ t.same_next;
    }

bytes_of-take-drop :
    (k : ℕ) (cs : List Chunk) → bytes_of (take k cs) + bytes_of (drop k cs) ≡ bytes_of cs
bytes_of-take-drop zero cs = omega arith
bytes_of-take-drop (suc k) [] = omega arith
bytes_of-take-drop (suc k) (c ∷ cs) = omega (arith, bytes_of-take-drop k cs)

-- The bytes dropped are those that the buffer retains no more.
pub trim_to-conserves :
    (max_bytes : ℕ) (b : OutputBuffer)
    → IsValid b
    → (trim_to max_bytes b).0.retained_bytes + (trim_to max_bytes b).1 ≡ b.retained_bytes
trim_to-conserves m b v =
    let t = trim_to-IsTrimmed m b v in
    omega (
      arith,
      v.counted,
      t.valid.counted,
      ap bytes_of t.kept,
      t.reported,
      bytes_of-take-drop t.evicted (live b),
    )
