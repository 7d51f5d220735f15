-- ===== src/Process/Lifecycle/Capacity.antt =====
-- Making room: `#forget`, `prune`, `#makeCapacity` and `start`.
use chatgpt_remote_mcp.Base.{
  ℕ, ◌-◌, ◌≡◌, refl, sym, ◌∙◌, inl, inr, true, false, Option, none, some, List, [], ◌∷◌, String,
  arith, lookup, put, lookup-put, mem, mem-remove, remove, Distinct-remove, length-remove, str_eq,
  eq_iff, Bool-cases, Option-cases, subst, sum_over-remove,
}
use chatgpt_remote_mcp.Process.{
  ManagedProcess, ProcessManager, is_running, with_process, with_process_found,
}
use chatgpt_remote_mcp.Process.Consistency.{retained, running}
use chatgpt_remote_mcp.Process.Output.Totals.{end_of}
use chatgpt_remote_mcp.Process.Invariant.{IsInvariant, save-IsInvariant}
use chatgpt_remote_mcp.Process.Lifecycle.{forget, has_expired, prune_loop, prune}
use chatgpt_remote_mcp.Process.Lifecycle.Ends.{with_process-IsInvariant}

-- Taking an ended process off the maps.
module _ {m : ProcessManager} (v : IsInvariant m) (id : String) {p : ManagedProcess}
    (stored : lookup id m.objects ≡ some p) (managed : mem id m.processes ≡ true)
    (over : is_running p ≡ false) where
  abbrev dropped : ProcessManager
  dropped = record m {
    retained_output_bytes = m.retained_output_bytes - p.output_buffer.retained_bytes;
    output_recency = remove id m.output_recency;
    processes = remove id m.processes;
  }

  still_managed :
      (j : String) → end_of m.objects j ≡ some none → mem j (remove id m.processes) ≡ true
  still_managed j e = elim (Bool-cases (str_eq id j)) [
    | inl here ↦
        let at : end_of m.objects id ≡ some none =
          subst (λ i. end_of m.objects i ≡ some none) (sym ((eq_iff id j).0 here)) e in
        let open_end : some p.ended_at ≡ some none = rw (stored, end_of) at at in
        let none_yet : p.ended_at ≡ none = cc open_end in cc (rw (none_yet, is_running) at over)
    | inr other ↦ rw (mem-remove id j m.processes, other) (v.running_managed j e)
  ]

  drop-IsInvariant : IsInvariant dropped
  drop-IsInvariant =
      let c = v.consistent in
      let sum = λ (f : ManagedProcess → ℕ).
        sum_over-remove f id m.objects m.processes c.distinct_processes managed in
      record {
        consistent = record {
          distinct_processes = Distinct-remove id m.processes c.distinct_processes;
          distinct_recency = Distinct-remove id m.output_recency c.distinct_recency;
          present = λ j h. c.present j (ground (arith, mem-remove id j m.processes, h));
          valid = c.valid;
          tracked = λ j.
              ground
                (arith, mem-remove id j m.processes, mem-remove id j m.output_recency, c.tracked j);
          counted = omega (arith, rw stored at (sum retained), c.counted);
          counted_running =
              let none_runs : running p ≡ 0 = rw (over, running) in
              omega (arith, rw stored at (sum running), none_runs, c.counted_running);
        };
        reported = v.reported;
        running_managed = still_managed;
        output_within = omega (arith, v.output_within);
        processes_within =
            omega (
              arith,
              length-remove id m.processes c.distinct_processes managed,
              v.processes_within,
            );
        running_within = v.running_within;
      }

-- Ended, or not there.
abbrev pub HasEnded : Option (Option ℕ) → Type 0
HasEnded none = Unit
HasEnded (some none) = ⊥
HasEnded (some (some t)) = Unit

ended-over : (p : ManagedProcess) → HasEnded (some p.ended_at) → is_running p ≡ false
ended-over p h = elim (Option-cases p.ended_at) [
  | inl e ↦ absurd (rw e at h)
  | inr (t, e) ↦ rw (e, is_running)
]

pub forget-IsInvariant :
    {m : ProcessManager} (id : String)
    → IsInvariant m
    → HasEnded (end_of m.objects id)
    → IsInvariant (forget id m)
unfolding forget
forget-IsInvariant {m} id v ended = with_process-IsInvariant id _ m v λ p stored.
    let p' : ManagedProcess = record p { retention_armed = false } in
    let w = save-IsInvariant v id stored p' refl refl in
    let at : lookup id (put id p' m.objects) ≡ some p' =
      rw (lookup-put id id p' m.objects, (eq_iff id id).1 refl) in
    elim (Bool-cases (mem id m.processes)) [
      | inl managed ↦
          rw managed
            (drop-IsInvariant w id at managed (ended-over p (rw (stored, end_of) at ended)))
      | inr gone ↦ rw gone w
    ]

-- Forgetting changes no end.
forget-ends :
    (id j : String) (m : ProcessManager) → end_of (forget id m).objects j ≡ end_of m.objects j
unfolding forget
forget-ends id j m = elim (Option-cases (lookup id m.objects)) [
  | inl missing ↦ rw (missing, with_process)
  | inr (p, stored) ↦
      let p' : ManagedProcess = record p { retention_armed = false } in
      let kept : end_of (put id p' m.objects) j ≡ end_of m.objects j =
        elim (Bool-cases (str_eq id j)) [
          | inl here ↦
              let at : lookup j m.objects ≡ some p = rw (← (eq_iff id j).0 here) stored in
              rw (lookup-put id j p' m.objects, here, at, end_of)
          | inr other ↦ rw (lookup-put id j p' m.objects, other, end_of)
        ] in
      subst (λ (r : ProcessManager). end_of r.objects j ≡ end_of m.objects j)
        (sym (with_process_found id _ m stored))
        (elim (Bool-cases (mem id m.processes)) [
          | inl managed ↦ rw managed kept
          | inr gone ↦ rw gone kept
        ])
]

forget-options : (id : String) (m : ProcessManager) → (forget id m).options ≡ m.options
unfolding forget
forget-options id m = ground arith

-- What making room does.
pub record IsRoomier (m m' : ProcessManager) : Type 0 where
  pub invariant : IsInvariant m'
  pub ends : (j : String) → end_of m'.objects j ≡ end_of m.objects j
  pub options : m'.options ≡ m.options

pub IsRoomier-refl : {m : ProcessManager} → IsInvariant m → IsRoomier m m
IsRoomier-refl v = record { invariant = v; ends = λ _. refl; options = refl }

pub IsRoomier-trans : {m n o : ProcessManager} → IsRoomier m n → IsRoomier n o → IsRoomier m o
IsRoomier-trans r s = record {
  invariant = s.invariant;
  ends = λ j. s.ends j ∙ r.ends j;
  options = s.options ∙ r.options;
}

pub forget-IsRoomier :
    {m : ProcessManager} (id : String)
    → IsInvariant m
    → HasEnded (end_of m.objects id)
    → IsRoomier m (forget id m)
forget-IsRoomier {m} id v ended = record {
  invariant = forget-IsInvariant id v ended;
  ends = λ j. forget-ends id j m;
  options = forget-options id m;
}

expired-ended :
    (now : ℕ) (m : ProcessManager) (id : String)
    → has_expired now m id ≡ true
    → HasEnded (end_of m.objects id)
expired-ended now m id h = elim (Option-cases (lookup id m.objects)) [
  | inl missing ↦ rw (missing, end_of) tt
  | inr (p, stored) ↦ elim (Option-cases p.ended_at) [
    | inl open_end ↦ cc (rw (stored, open_end, has_expired) at h)
    | inr (t, at) ↦ rw (stored, at, end_of) tt
  ]
]

prune_loop-IsRoomier :
    (now : ℕ) (ids : List String) (m : ProcessManager)
    → IsInvariant m
    → IsRoomier m (prune_loop now ids m)
unfolding prune_loop
prune_loop-IsRoomier now [] m v = IsRoomier-refl v
prune_loop-IsRoomier now (id ∷ ids) m v = elim (Bool-cases (has_expired now m id)) [
  | inl old ↦
      let r = forget-IsRoomier id v (expired-ended now m id old) in
      rw old (IsRoomier-trans r (prune_loop-IsRoomier now ids (forget id m) r.invariant))
  | inr recent ↦ rw recent (prune_loop-IsRoomier now ids m v)
]

pub prune-IsRoomier : {m : ProcessManager} (now : ℕ) → IsInvariant m → IsRoomier m (prune now m)
unfolding prune
prune-IsRoomier {m} now v = prune_loop-IsRoomier now m.processes m v
