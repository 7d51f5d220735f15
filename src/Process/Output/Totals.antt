-- ===== src/Process/Output/Totals.antt =====
-- Storing and trimming output keep the counters, and the trim keeps to the budgets.
use chatgpt_remote_mcp.Base.{
  ℕ, zero, suc, ◌-◌, ◌≤◌, ◌<◌, ◌≡◌, refl, sym, ap, ◌∙◌, ◌⊎◌, inl, inr, true, false, Option, none,
  some, List, [], ◌∷◌, String, arith, Dict, lookup, put, lookup-put, mem, length, length-remove,
  str_eq, eq_iff, ltb, ◌==◌, Bool-cases, Option-cases, List-cases, is_some, ◌≢◌, sum_over,
  sum_over-remove, ltb→lt, &&-split,
}
use chatgpt_remote_mcp.Output.{Stream, stdout, stderr, OutputBuffer, append, trim_to}
use chatgpt_remote_mcp.Output.Invariant.{IsValid, append-extends, bytes_of, bytes_of-append, live}
use chatgpt_remote_mcp.Output.Trim.{trim_to-IsTrimmed, trim_to-conserves}
use chatgpt_remote_mcp.Process.{ManagedProcess, ProcessManager, ProcessManagerOptions, set_pending}
use chatgpt_remote_mcp.Process.Consistency.{
  retained, retains, IsConsistent, Distinct-touched, mem-touched, IsConsistent-update,
}
use chatgpt_remote_mcp.Process.Output.{
  touch_output, store_output_chunks, trim_buffer, trim_oldest, trim_total_loop,
  trim_total_retained_output,
}

-- When an object of the store ended; `none` where there is no object.
abbrev pub end_of : Dict ManagedProcess → String → Option (Option ℕ)
end_of objects id = elim (lookup id objects) [ none ↦ none | some p ↦ some p.ended_at ]

-- What every operation on output leaves alone.
pub record IsOutputStep (m m' : ProcessManager) : Type 0 where
  pub consistent : IsConsistent m'
  pub options : m'.options ≡ m.options
  pub processes : m'.processes ≡ m.processes
  pub ends : (id : String) → end_of m'.objects id ≡ end_of m.objects id
  pub running : m'.running_processes ≡ m.running_processes
  pub events : m'.terminal_events ≡ m.terminal_events

pub IsOutputStep-refl : {m : ProcessManager} → IsConsistent m → IsOutputStep m m
IsOutputStep-refl c = record {
  consistent = c;
  options = refl;
  processes = refl;
  ends = λ _. refl;
  running = refl;
  events = refl;
}

pub IsOutputStep-trans :
    {m n o : ProcessManager} → IsOutputStep m n → IsOutputStep n o → IsOutputStep m o
IsOutputStep-trans s t = record {
  consistent = t.consistent;
  options = t.options ∙ s.options;
  processes = t.processes ∙ s.processes;
  ends = λ id. t.ends id ∙ s.ends id;
  running = t.running ∙ s.running;
  events = t.events ∙ s.events;
}

pub retained-set_pending :
    (stream : Stream) (bytes : List ℕ) (p : ManagedProcess)
    → (set_pending stream bytes p).output_buffer ≡ p.output_buffer
retained-set_pending stdout bytes p = refl
retained-set_pending stderr bytes p = refl

pub ended-set_pending :
    (stream : Stream) (bytes : List ℕ) (p : ManagedProcess)
    → (set_pending stream bytes p).ended_at ≡ p.ended_at
ended-set_pending stdout bytes p = refl
ended-set_pending stderr bytes p = refl

append-grows :
    (stream : Stream) (pieces : List (List ℕ)) (b : OutputBuffer)
    → IsValid b
    → b.retained_bytes ≤ (append stream pieces b).retained_bytes
append-grows stream pieces b v =
    let (v', same, _, _) = append-extends stream pieces b v in
    omega (arith, v.counted, v'.counted, ap bytes_of same, bytes_of-append (live b) _)

module _ {m : ProcessManager} (c : IsConsistent m) (id : String) {p : ManagedProcess}
    (managed : mem id m.processes ≡ true) (stored : lookup id m.objects ≡ some p) where
  pub ends_update :
      (p' : ManagedProcess)
      → p'.ended_at ≡ p.ended_at
      → (j : String) → end_of (put id p' m.objects) j ≡ end_of m.objects j
  ends_update p' e j = elim (Bool-cases (str_eq id j)) [
    | inl same ↦
        let at : lookup j m.objects ≡ some p = rw (← (eq_iff id j).0 same) stored in
        rw (lookup-put id j p' m.objects, same, at, end_of) (ap some e)
    | inr other ↦ rw (lookup-put id j p' m.objects, other, end_of)
  ]

  -- Storing pieces, in an object `q` that differs from the stored one elsewhere only.
  pub store_output_chunks-IsOutputStep :
      (stream : Stream) (chunks : List (List ℕ)) (q : ManagedProcess)
      → q.output_buffer ≡ p.output_buffer
      → q.ended_at ≡ p.ended_at
      → IsOutputStep m (store_output_chunks id stream chunks q m)
  unfolding store_output_chunks touch_output
  store_output_chunks-IsOutputStep stream chunks q same ends =
      let v : IsValid q.output_buffer = rw same (c.valid id p stored) in
      let p' : ManagedProcess = record q { output_buffer = append stream chunks q.output_buffer } in
      record {
        consistent =
            IsConsistent-update c id managed stored p'
              (append-extends stream chunks q.output_buffer v).0
              (record {
                objects = refl;
                processes = refl;
                distinct_recency = Distinct-touched id p' m.output_recency c.distinct_recency;
                recency = λ j. mem-touched id j p' m.output_recency;
                retains = omega (
                  arith,
                  append-grows stream chunks q.output_buffer v,
                  ap (λ (b : OutputBuffer). b.retained_bytes) same,
                );
                runs = rw ends;
              });
        options = refl;
        processes = refl;
        ends = ends_update p' ends;
        running = refl;
        events = refl;
      }

  -- A managed process retains no more than the total.
  retained-le-total : retained p ≤ m.retained_output_bytes
  retained-le-total =
      let e = sum_over-remove retained id m.objects m.processes c.distinct_processes managed in
      omega (arith, rw stored at e, c.counted)

  pub trim_buffer-IsOutputStep : (max_bytes : ℕ) → IsOutputStep m (trim_buffer id max_bytes p m)
  unfolding trim_buffer touch_output
  trim_buffer-IsOutputStep max_bytes =
      let v = c.valid id p stored in
      let p' : ManagedProcess = record p {
        output_buffer = (trim_to max_bytes p.output_buffer).0;
      } in
      record {
        consistent =
            IsConsistent-update c id managed stored p'
              (trim_to-IsTrimmed max_bytes p.output_buffer v).valid
              (record {
                objects = refl;
                processes = refl;
                distinct_recency = Distinct-touched id p' m.output_recency c.distinct_recency;
                recency = λ j. mem-touched id j p' m.output_recency;
                retains =
                    omega (arith, retained-le-total, trim_to-conserves max_bytes p.output_buffer v);
                runs = refl;
              });
        options = refl;
        processes = refl;
        ends = ends_update p' refl;
        running = refl;
        events = refl;
      }

-- The oldest process retains output and is managed.
module _ {m : ProcessManager} (c : IsConsistent m) {id : String} {others : List String}
    (first : m.output_recency ≡ id ∷ others) {oldest : ManagedProcess}
    (stored : lookup id m.objects ≡ some oldest)
    (over : m.max_total_retained_output_bytes < m.retained_output_bytes) where
  recent : mem id m.output_recency ≡ true
  recent = rw first (ground (arith, eq_iff id id))

  managed : (mem id m.processes ≡ true) × (retains m.objects id ≡ true)
  managed = &&-split _ _ (sym (c.tracked id) ∙ recent)

  holds_some : 0 < retained oldest
  holds_some =
      let e : retains m.objects id ≡ true = managed.1 in
      let f : ltb 0 (retained oldest) ≡ true = rw stored at e in ltb→lt _ _ f

  abbrev target : ℕ
  target = retained oldest - (m.retained_output_bytes - m.max_total_retained_output_bytes)

  abbrev outcome : OutputBuffer × ℕ
  outcome = trim_to target oldest.output_buffer

  drops_some : (outcome.1 == 0) ≡ false
  drops_some =
      let v = c.valid id oldest stored in
      let t = trim_to-IsTrimmed target oldest.output_buffer v in
      let k = trim_to-conserves target oldest.output_buffer v in
      ground (arith, t.within, k, holds_some, over)

  trim_oldest-eq : trim_oldest id oldest m ≡ trim_buffer id target oldest m
  unfolding trim_oldest
  trim_oldest-eq = rw drops_some

  trim_oldest-IsOutputStep : IsOutputStep m (trim_oldest id oldest m)
  trim_oldest-IsOutputStep =
      rw trim_oldest-eq (trim_buffer-IsOutputStep c id managed.0 stored target)

  -- The budget is met, or one process less retains output.
  trim_oldest-progress :
      ((trim_oldest id oldest m).retained_output_bytes ≤ m.max_total_retained_output_bytes)
      ⊎ (length (trim_oldest id oldest m).output_recency < length m.output_recency)
  unfolding trim_buffer touch_output
  trim_oldest-progress =
      let v = c.valid id oldest stored in
      let t = trim_to-IsTrimmed target oldest.output_buffer v in
      let k = trim_to-conserves target oldest.output_buffer v in
      rw trim_oldest-eq (elim (Bool-cases (ltb 0 outcome.0.retained_bytes)) [
        | inl some_left ↦ inl (ground (arith, t.within, k, some_left, over))
        | inr none_left ↦ inr (
            rw none_left
              (omega (arith, length-remove id m.output_recency c.distinct_recency recent)))
      ])

-- Where no process retains output the total is 0.
sum_over-silent :
    (objects : Dict ManagedProcess) (ids : List String)
    → ((j : String) → mem j ids ≡ true → retains objects j ≡ false)
    → sum_over retained objects ids ≡ 0
sum_over-silent objects [] h = refl
sum_over-silent objects (i ∷ ids) h =
    ground (arith, h i, eq_iff i i, sum_over-silent objects ids (λ j k. h j (ground (arith, k))))

total-empty :
    {m : ProcessManager} → IsConsistent m → m.output_recency ≡ [] → m.retained_output_bytes ≡ 0
total-empty {m} c e =
    c.counted
    ∙ sum_over-silent m.objects m.processes λ j k. ground (arith, rw e at (c.tracked j), k)

abbrev pub EndsWithin : ProcessManager → ProcessManager → Type 0
EndsWithin m m' = IsOutputStep m m' × (m'.retained_output_bytes ≤ m.max_total_retained_output_bytes)

trim_total_loop-stop :
    (fuel : ℕ) (m : ProcessManager)
    → ltb m.max_total_retained_output_bytes m.retained_output_bytes ≡ false
    → trim_total_loop fuel m ≡ m
unfolding trim_total_loop
trim_total_loop-stop zero m h = refl
trim_total_loop-stop (suc fuel) m h = rw (h, trim_total_loop)

max_total-same :
    {m n : ProcessManager}
    → IsOutputStep m n
    → n.max_total_retained_output_bytes ≡ m.max_total_retained_output_bytes
max_total-same s = ap (λ (x : ProcessManagerOptions). x.max_total_retained_output_bytes) s.options

pub EndsWithin-after : {m n o : ProcessManager} → IsOutputStep m n → EndsWithin n o → EndsWithin m o
EndsWithin-after s e = (IsOutputStep-trans s e.0, rw (← max_total-same s) e.1)

EndsWithin-met :
    (fuel : ℕ) {m : ProcessManager}
    → IsConsistent m
    → m.retained_output_bytes ≤ m.max_total_retained_output_bytes
    → EndsWithin m (trim_total_loop fuel m)
EndsWithin-met fuel {m} c h =
    rw (trim_total_loop-stop fuel m (ground arith)) (IsOutputStep-refl c, h)

head_present :
    {m : ProcessManager} {id : String} {others : List String}
    → IsConsistent m
    → m.output_recency ≡ id ∷ others
    → lookup id m.objects ≢ none
head_present {m} {id} c e missing =
    let here : mem id m.output_recency ≡ true = rw e (ground (arith, eq_iff id id)) in
    cc (c.present id (&&-split _ _ (sym (c.tracked id) ∙ here)).0, ap is_some missing)

-- With a round for each process that retains output the loop ends within the budget.
trim_total_loop-within :
    (fuel : ℕ) (m : ProcessManager)
    → IsConsistent m
    → length m.output_recency < fuel
    → EndsWithin m (trim_total_loop fuel m)
unfolding trim_total_loop
trim_total_loop-within zero m c h = absurd (omega arith)
trim_total_loop-within (suc fuel) m c h =
    elim (Bool-cases (ltb m.max_total_retained_output_bytes m.retained_output_bytes)) [
      | inr small ↦ rw (small, trim_total_loop) (IsOutputStep-refl c, ground (arith, small))
      | inl large ↦ elim (List-cases m.output_recency) [
        | inl e ↦
            let nothing : m.retained_output_bytes ≡ 0 = total-empty c e in
            absurd (ground (arith, large, nothing))
        | inr (id, others, e) ↦ elim (Option-cases (lookup id m.objects)) [
          | inl missing ↦ absurd (head_present c e missing)
          | inr (oldest, stored) ↦
              let over = ltb→lt _ _ large in
              let s = trim_oldest-IsOutputStep c e stored over in
              let round : trim_total_loop (suc fuel) m
                  ≡ trim_total_loop fuel (trim_oldest id oldest m) =
                ground (arith, large, e, stored) in
              rw round (
                EndsWithin-after s (elim (trim_oldest-progress c e stored over) [
                  | inl met ↦ EndsWithin-met fuel s.consistent (rw (max_total-same s) met)
                  | inr fewer ↦
                      trim_total_loop-within fuel (trim_oldest id oldest m) s.consistent
                        (omega arith)
                ]))
        ]
      ]
    ]

pub trim_total-within :
    {m : ProcessManager} → IsConsistent m → EndsWithin m (trim_total_retained_output m)
unfolding trim_total_retained_output
trim_total-within {m} c = trim_total_loop-within (suc (length m.output_recency)) m c (omega arith)
