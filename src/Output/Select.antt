-- ===== src/Output/Select.antt =====
-- `selectAfter`: the indexed lookup against a scan of the retained chunks, and paging.
use chatgpt_remote_mcp.Base.{
  ℕ, suc, ◌+◌, ◌-◌, ◌≤◌, ◌<◌, max, ◌≡◌, refl, sym, ap, subst, inl, inr, true, false, ◌||◌, List, [],
  ◌∷◌, ◌++◌, arith, length, drop, drop-all, drop-drop, length-drop, filter, ltb, leb, Bool-cases,
  if◌then◌else◌,
}
use chatgpt_remote_mcp.Output.{
  Chunk, OutputBuffer, Selection, select_loop, select_after, last_seq_or,
}
use chatgpt_remote_mcp.Output.Invariant.{live, bytes_of, Contiguous, Contiguous-length, IsValid}

-- What a reader with the cursor `after_seq` has not seen, by a scan.
abbrev pub newer : ℕ → List Chunk → List Chunk
newer after_seq = filter (λ c. ltb after_seq c.seq)

-- The longest prefix of at most `budget` bytes.
pub take_within : ℕ → List Chunk → List Chunk
take_within budget [] = []
take_within budget (c ∷ cs) =
    if leb (length c.bytes) budget then c ∷ take_within (budget - length c.bytes) cs else []

newer-eq-drop :
    (a first : ℕ) (cs : List Chunk) (next : ℕ)
    → Contiguous first cs next
    → newer a cs ≡ drop (a + 1 - first) cs
newer-eq-drop a first [] next h = sym (drop-all _ [] (omega arith))
newer-eq-drop a first (c ∷ cs) next h = elim (Bool-cases (ltb a c.seq)) [
  | inl seen_later ↦
      let here : a + 1 - first ≡ 0 = ground (arith, h.0) in
      let there : a + 1 - suc first ≡ 0 = omega (arith, here) in
      rw (seen_later, here)
        (ap (λ l. c ∷ l) (rw there at (newer-eq-drop a (suc first) cs next h.1)))
  | inr seen ↦
      let e : a + 1 - first ≡ suc (a + 1 - suc first) = ground (arith, h.0) in
      rw (seen, e) (newer-eq-drop a (suc first) cs next h.1)
]

-- What the loop makes of the chunks that it scans.
select_from : ℕ → ℕ → List Chunk → Selection
select_from after_seq max_bytes cs =
    let (selected, bytes, more) = select_loop max_bytes cs 0 in
    record {
      chunks = selected;
      next_seq = last_seq_or selected after_seq;
      has_more = more;
      selected_bytes = bytes;
    }

select_after-eq-scan :
    (a m : ℕ) (b : OutputBuffer)
    → IsValid b
    → select_after a m b ≡ select_from a m (newer a (live b))
unfolding select_after select_from
select_after-eq-scan a m b v =
    elim (Bool-cases (leb (length b.chunks) b.head_index || leb b.next_seq (a + 1))) [
      | inl early ↦
          let gone : drop (a + 1 - b.base_seq) (live b) ≡ [] =
            drop-all _ (live b) (ground (arith, total, length-drop b.head_index b.chunks)) in
          rw (early, scan, gone, select_loop)
      | inr late ↦ elim (Bool-cases (leb b.next_seq (max (a + 1) b.base_seq))) [
        | inl early ↦
            let gone : drop (a + 1 - b.base_seq) (live b) ≡ [] =
              drop-all _ (live b) (ground (arith, total)) in
            rw (late, early, scan, gone, select_loop)
        | inr found ↦
            let e : max (a + 1) b.base_seq - b.base_seq ≡ a + 1 - b.base_seq = omega arith in
            rw (late, found, scan, e, drop-drop (a + 1 - b.base_seq) b.head_index b.chunks)
      ]
    ]
  where
    scan : newer a (live b) ≡ drop (a + 1 - b.base_seq) (live b)
    scan = newer-eq-drop a b.base_seq (live b) b.next_seq v.contiguous

    total : b.base_seq + length (live b) ≡ b.next_seq
    total = Contiguous-length b.base_seq (live b) b.next_seq v.contiguous

-- The three results of the loop, from its running total.
select_loop_lem :
    (m : ℕ) (cs : List Chunk) (sum : ℕ)
    → sum ≤ m
    → ((select_loop m cs sum).0 ≡ take_within (m - sum) cs)
      × ((select_loop m cs sum).1 ≡ sum + bytes_of (select_loop m cs sum).0)
      × ((select_loop m cs sum).2 ≡ ltb (length (select_loop m cs sum).0) (length cs))
      × ((select_loop m cs sum).1 ≤ m)
unfolding select_loop take_within
select_loop_lem m [] sum h = (refl, omega arith, refl, h)
select_loop_lem m (c ∷ cs) sum h = elim (Bool-cases (ltb m (sum + length c.bytes))) [
  | inl full ↦
      let e : leb (length c.bytes) (m - sum) ≡ false = ground (arith, full) in
      rw (full, e, select_loop) (refl, omega arith, ground arith, h)
  | inr fits ↦
      let e : leb (length c.bytes) (m - sum) ≡ true = ground (arith, fits) in
      let s : m - sum - length c.bytes ≡ m - (sum + length c.bytes) = omega arith in
      let (same, bytes, more, bound) =
        select_loop_lem m cs (sum + length c.bytes) (ground (arith, fits)) in
      rw (fits, e, s, select_loop)
        (ap (λ l. c ∷ l) same, omega (arith, bytes), ground (arith, more), bound)
]

-- On a valid buffer the indexed lookup returns the longest prefix of at most `max_bytes` bytes of
-- the chunks that a scan for numbers above the cursor finds, says whether one of these is left, and
-- counts the bytes of the prefix.
pub select_after-refines-scan :
    (after_seq max_bytes : ℕ) (b : OutputBuffer)
    → IsValid b
    → let s = select_after after_seq max_bytes b in
      let unseen = newer after_seq (live b) in
      (s.chunks ≡ take_within max_bytes unseen)
      × (s.has_more ≡ ltb (length s.chunks) (length unseen))
      × (s.selected_bytes ≡ bytes_of s.chunks)
      × (s.selected_bytes ≤ max_bytes)
unfolding select_from
select_after-refines-scan a m b v =
    let (same, bytes, more, bound) = select_loop_lem m (newer a (live b)) 0 (omega arith) in
    let e : m - 0 ≡ m = omega arith in
    rw (select_after-eq-scan a m b v) (rw e at same, more, omega (arith, bytes), bound)

newer-all :
    (a first : ℕ) (cs : List Chunk) (next : ℕ)
    → Contiguous first cs next
    → a < first
    → newer a cs ≡ cs
newer-all a first cs next h lt =
    let e : a + 1 - first ≡ 0 = omega arith in rw e at (newer-eq-drop a first cs next h)

last-ge :
    (a m first : ℕ) (cs : List Chunk) (next : ℕ)
    → Contiguous first cs next
    → a < first
    → a ≤ last_seq_or (take_within m cs) a
unfolding take_within
last-ge a m first [] next h lt = omega arith
last-ge a m first (c ∷ cs) next h lt = elim (Bool-cases (leb (length c.bytes) m)) [
  | inl fits ↦
      let ih = last-ge c.seq (m - length c.bytes) (suc first) cs next h.1 (omega (arith, h.0)) in
      rw fits (omega (arith, ih, h.0))
  | inr full ↦ rw full (omega arith)
]

-- In a run beyond the cursor, what follows the selected prefix is newer than its last chunk.
newer-last :
    (a m first : ℕ) (cs : List Chunk) (next : ℕ)
    → Contiguous first cs next
    → a < first
    → cs ≡ take_within m cs ++ newer (last_seq_or (take_within m cs) a) cs
unfolding take_within
newer-last a m first [] next h lt = refl
newer-last a m first (c ∷ cs) next h lt = elim (Bool-cases (leb (length c.bytes) m)) [
  | inr full ↦
      let e : take_within m (c ∷ cs) ≡ [] = rw full in
      subst (λ p. c ∷ cs ≡ p ++ newer (last_seq_or p a) (c ∷ cs)) (sym e)
        (sym (newer-all a first (c ∷ cs) next h lt))
  | inl fits ↦
      let below : c.seq < suc first = omega (arith, h.0) in
      let rest = take_within (m - length c.bytes) cs in
      let ih = newer-last c.seq (m - length c.bytes) (suc first) cs next h.1 below in
      let past : ltb (last_seq_or rest c.seq) c.seq ≡ false =
        ground (arith, last-ge c.seq (m - length c.bytes) (suc first) cs next h.1 below) in
      let e : take_within m (c ∷ cs) ≡ c ∷ rest = rw fits in
      subst (λ p. c ∷ cs ≡ p ++ newer (last_seq_or p a) (c ∷ cs)) (sym e)
        (rw past (ap (λ l. c ∷ l) ih))
]

newer-Contiguous :
    (a first : ℕ) (cs : List Chunk) (next : ℕ)
    → Contiguous first cs next
    → (s : ℕ) × (end : ℕ) × (a < s) × Contiguous s (newer a cs) end
newer-Contiguous a first [] next h = (suc a, suc a, omega arith, refl)
newer-Contiguous a first (c ∷ cs) next h = elim (Bool-cases (ltb a c.seq)) [
  | inr seen ↦ rw seen (newer-Contiguous a (suc first) cs next h.1)
  | inl unseen ↦
      let lt : a < suc first = ground (arith, h.0) in
      rw (unseen, newer-all a (suc first) cs next h.1 lt)
        (first, next, ground (arith, h.0), (h.0, h.1))
]

newer-newer : (a z : ℕ) (cs : List Chunk) → a ≤ z → newer z (newer a cs) ≡ newer z cs
newer-newer a z [] h = refl
newer-newer a z (c ∷ cs) h = ground (arith, newer-newer a z cs h)

-- Reading on from the returned cursor neither skips nor repeats a chunk: what was unseen is the
-- selection, followed by what is unseen after `next_seq`.
pub select_after-paging :
    (after_seq max_bytes : ℕ) (b : OutputBuffer)
    → IsValid b
    → let s = select_after after_seq max_bytes b in
      newer after_seq (live b) ≡ s.chunks ++ newer s.next_seq (live b)
unfolding select_from
select_after-paging a m b v =
    let (s, end, lt, run) = newer-Contiguous a b.base_seq (live b) b.next_seq v.contiguous in
    let unseen = newer a (live b) in
    let same : (select_loop m unseen 0).0 ≡ take_within m unseen =
      let e : m - 0 ≡ m = omega arith in rw e at (select_loop_lem m unseen 0 (omega arith)).0 in
    rw
      (
        select_after-eq-scan a m b v,
        same,
        ← newer-newer a _ (live b) (last-ge a m s unseen end run lt),
      )
      (newer-last a m s unseen end run lt)
