-- ===== src/Telemetry/Rounds.antt =====
-- src/telemetry.ts, `#writeLines`: the whole loop, whatever throws in it.
use chatgpt_remote_mcp.Base.{
  ℕ, zero, suc, ◌≤◌, ◌≡◌, refl, sym, ap, subst, inl, inr, Bool, true, false, ◌&&◌, not, List, [],
  ◌∷◌, arith, length, length-append, Bool-cases, if◌then◌else◌, is_some,
}
use chatgpt_remote_mcp.Telemetry.{
  Line, UsageLogOptions, Round, next_round, later_rounds, fill_batch, Written, is_due, before_batch,
  is_due_after, appended, after_batch, write_loop,
}
use chatgpt_remote_mcp.Telemetry.Rotation.{IsKept, rotate_if-IsKept}
use chatgpt_remote_mcp.Telemetry.Writes.{
  AreLines, AreLines-split, before_size, appended-IsKept, fill_batch-IsFilled, fill_batch-first,
}

-- The lines that a batch leaves.
pub fill_batch-rest :
    (options : UsageLogOptions) (size : ℕ) (line : Line) (lines : List Line)
    → AreLines (line ∷ lines)
    → AreLines (fill_batch options.max_bytes size 0 false (line ∷ lines)).rest
      × (length (fill_batch options.max_bytes size 0 false (line ∷ lines)).rest ≤ length lines)
fill_batch-rest options size line lines h =
    let f = fill_batch options.max_bytes size 0 false (line ∷ lines) in
    let filled = fill_batch-IsFilled options.max_bytes size 0 false (line ∷ lines) in
    let first = fill_batch-first options.max_bytes size line lines in
    (
      (AreLines-split f.batch f.rest (subst (λ l. AreLines l) (sym filled.joined) h)).1,
      omega (arith, ap length filled.joined, length-append f.batch f.rest, first.0),
    )

module _ (options : UsageLogOptions) where
  -- What a round leaves, wherever it ends.
  round-IsKept :
      (bad_first : Bool) (round : Round) (line : Line) (lines : List Line) (w : Written)
      (result : Written × Bool)
      → (is_due options line w && is_some round.first_rotation) ≡ bad_first
      → IsKept options w
      → AreLines (line ∷ lines)
      → (IsKept options (
            after_batch options round.last_rotation
              (fill_batch options.max_bytes
                (before_batch options round.first_rotation line w).size
                0
                false
                (line ∷ lines))
              (before_batch options round.first_rotation line w))
          → IsKept options result.0)
      → IsKept options
          (if bad_first
            then (before_batch options round.first_rotation line w, false)
            else if not round.appends
            then (before_batch options round.first_rotation line w, false)
            else if is_due_after options
                  (fill_batch options.max_bytes
                    (before_batch options round.first_rotation line w).size
                    0
                    false
                    (line ∷ lines))
                  (before_batch options round.first_rotation line w)
                && is_some round.last_rotation
            then (
              after_batch options round.last_rotation
                  (fill_batch options.max_bytes
                    (before_batch options round.first_rotation line w).size
                    0
                    false
                    (line ∷ lines))
                  (before_batch options round.first_rotation line w),
              false,
            )
            else result).0
  round-IsKept true round line lines w result e k h next =
      rotate_if-IsKept (is_due options line w) round.first_rotation options w k
  round-IsKept false round line lines w result e k h next =
      let ready = before_batch options round.first_rotation line w in
      let f = fill_batch options.max_bytes ready.size 0 false (line ∷ lines) in
      let k1 = rotate_if-IsKept (is_due options line w) round.first_rotation options w k in
      let k2 =
        appended-IsKept options ready line lines k1
          (before_size options round.first_rotation line w e) h in
      let k3 =
        rotate_if-IsKept (is_due_after options f ready) round.last_rotation options
          (appended f ready) k2 in
      elim (Bool-cases (not round.appends)) [
        | inl lost ↦ rw lost k1
        | inr wrote ↦
            elim (Bool-cases (is_due_after options f ready && is_some round.last_rotation)) [
              | inl failed ↦ rw (wrote, failed) k3
              | inr fine ↦ rw (wrote, fine) (next k3)
            ]
      ]

  pub write_loop-IsKept :
      (fuel : ℕ) (rounds : List Round) (w : Written) (lines : List Line)
      → IsKept options w
      → AreLines lines
      → IsKept options (write_loop fuel options rounds w lines).0
  unfolding write_loop
  write_loop-IsKept zero rounds w lines k h = k
  write_loop-IsKept (suc fuel) rounds w [] k h = k
  write_loop-IsKept (suc fuel) rounds w (line ∷ lines) k h =
      let round = next_round rounds in
      let ready = before_batch options round.first_rotation line w in
      let f = fill_batch options.max_bytes ready.size 0 false (line ∷ lines) in
      let after = after_batch options round.last_rotation f ready in
      round-IsKept (is_due options line w && is_some round.first_rotation) round line lines w
        (write_loop fuel options (later_rounds rounds) after f.rest) refl k h
        (λ kept.
          write_loop-IsKept fuel (later_rounds rounds) after f.rest kept
            (fill_batch-rest options ready.size line lines h).0)
