-- ===== src/Process/Consistency.antt =====
-- The counters of the manager against its maps and its objects.
use chatgpt_remote_mcp.Base.{
  ℕ, ◌+◌, ◌≡◌, ◌∙◌, inl, inr, Bool, true, ◌&&◌, some, List, [], ◌∷◌, String, arith, Dict, lookup,
  put, lookup-put, mem, mem-remove, mem-snoc, remove, Distinct, Distinct-remove, Distinct-snoc,
  count_of, sum_over, sum_over-put, str_eq, eq_iff, ltb, is_some, Bool-cases, if◌then◌else◌, ◌++◌,
}
use chatgpt_remote_mcp.Output.Invariant.{IsValid}
use chatgpt_remote_mcp.Process.{ManagedProcess, ProcessManager, is_running}

abbrev pub retained : ManagedProcess → ℕ
retained p = p.output_buffer.retained_bytes

-- 1 while it runs.
abbrev pub running : ManagedProcess → ℕ
running p = if is_running p then 1 else 0

abbrev pub retains : Dict ManagedProcess → String → Bool
retains objects id = ltb 0 (count_of retained (lookup id objects))

-- Every object has a valid buffer and every key an object; `output_recency` holds the managed
-- processes that retain output; the counters are the sums over the managed processes.
pub record IsConsistent (m : ProcessManager) : Type 0 where
  pub distinct_processes : Distinct m.processes
  pub distinct_recency : Distinct m.output_recency
  pub present : (id : String) → mem id m.processes ≡ true → is_some (lookup id m.objects) ≡ true
  pub valid :
      (id : String) (p : ManagedProcess) → lookup id m.objects ≡ some p → IsValid p.output_buffer
  pub tracked :
      (id : String) → mem id m.output_recency ≡ (mem id m.processes && retains m.objects id)
  pub counted : m.retained_output_bytes ≡ sum_over retained m.objects m.processes
  pub counted_running : m.running_processes ≡ sum_over running m.objects m.processes

-- The keys after `#touchOutput`.
abbrev pub touched : String → ManagedProcess → List String → List String
touched id p ids = if ltb 0 (retained p) then remove id ids ++ id ∷ [] else remove id ids

pub Distinct-touched :
    (id : String) (p : ManagedProcess) (ids : List String)
    → Distinct ids
    → Distinct (touched id p ids)
Distinct-touched id p ids d = elim (Bool-cases (ltb 0 (retained p))) [
  | inl some_left ↦ rw some_left (
      Distinct-snoc id (remove id ids) (Distinct-remove id ids d)
        (ground (arith, mem-remove id id ids, eq_iff id id)))
  | inr none_left ↦ rw none_left (Distinct-remove id ids d)
]

pub mem-touched :
    (id j : String) (p : ManagedProcess) (ids : List String)
    → mem j (touched id p ids) ≡ (if str_eq id j then ltb 0 (retained p) else mem j ids)
mem-touched id j p ids =
    ground (arith, mem-remove id j ids, mem-snoc id j (remove id ids), eq_iff id j)

-- What an operation may do to a managed process: the maps and counters follow the object.
pub record IsUpdate (id : String) (p p' : ManagedProcess) (m m' : ProcessManager) : Type 0 where
  pub objects : m'.objects ≡ put id p' m.objects
  pub processes : m'.processes ≡ m.processes
  pub distinct_recency : Distinct m'.output_recency
  pub recency :
      (j : String)
      → mem j m'.output_recency
        ≡ (if str_eq id j then ltb 0 (retained p') else mem j m.output_recency)
  pub retains : m'.retained_output_bytes + retained p ≡ m.retained_output_bytes + retained p'
  pub runs : m'.running_processes + running p ≡ m.running_processes + running p'

pub IsValid-put :
    {m : ProcessManager} (c : IsConsistent m) (id : String) (p' : ManagedProcess)
    → IsValid p'.output_buffer
    → (j : String) (q : ManagedProcess) → lookup j (put id p' m.objects) ≡ some q
    → IsValid q.output_buffer
IsValid-put {m} c id p' v j q e = elim (Bool-cases (str_eq id j)) [
  | inl same ↦ let found : p' ≡ q = cc (e, lookup-put id j p' m.objects, same) in rw found at v
  | inr other ↦ c.valid j q (cc (e, lookup-put id j p' m.objects, other))
]

module _ {m : ProcessManager} (c : IsConsistent m) (id : String) {p : ManagedProcess}
    (managed : mem id m.processes ≡ true) (stored : lookup id m.objects ≡ some p)
    (p' : ManagedProcess) (v : IsValid p'.output_buffer) where
  lookup_update :
      (j : String)
      → lookup j (put id p' m.objects) ≡ (if str_eq id j then some p' else lookup j m.objects)
  lookup_update j = lookup-put id j p' m.objects

  present_update :
      (j : String) → mem j m.processes ≡ true → is_some (lookup j (put id p' m.objects)) ≡ true
  present_update j h = ground (arith, lookup_update j, c.present j)

  tracked_update :
      (j : String) (b : Bool)
      → b ≡ (if str_eq id j then ltb 0 (retained p') else mem j m.output_recency)
      → b ≡ (mem j m.processes && retains (put id p' m.objects) j)
  tracked_update j b e = elim (Bool-cases (str_eq id j)) [
    | inl same ↦
        let here : mem j m.processes ≡ true = rw (← (eq_iff id j).0 same) managed in
        rw (here, lookup_update j, same) (rw same at e)
    | inr other ↦ rw (lookup_update j, other) ((rw other at e) ∙ c.tracked j)
  ]

  sum_update :
      (f : ManagedProcess → ℕ)
      → sum_over f (put id p' m.objects) m.processes + f p ≡ sum_over f m.objects m.processes + f p'
  sum_update f =
      let e = sum_over-put f id p' m.objects m.processes c.distinct_processes managed in
      rw stored at e

  pub IsConsistent-update : {m' : ProcessManager} → IsUpdate id p p' m m' → IsConsistent m'
  IsConsistent-update {m'} u = record {
    distinct_processes = rw u.processes c.distinct_processes;
    distinct_recency = u.distinct_recency;
    present = rw (u.processes, u.objects) present_update;
    valid = rw u.objects (IsValid-put c id p' v);
    tracked = λ j. rw (u.processes, u.objects) (tracked_update j _ (u.recency j));
    counted =
        rw (u.processes, u.objects) (omega (arith, sum_update retained, c.counted, u.retains));
    counted_running =
        rw (u.processes, u.objects) (omega (arith, sum_update running, c.counted_running, u.runs));
  }

  -- A change of an object that leaves its buffer alone needs no change of the recency.
  pub recency_kept :
      p'.output_buffer ≡ p.output_buffer
      → (j : String)
      → mem j m.output_recency
        ≡ (if str_eq id j then ltb 0 (retained p') else mem j m.output_recency)
  recency_kept same j = elim (Bool-cases (str_eq id j)) [
    | inl at ↦
        let e = (eq_iff id j).0 at in
        let here : mem j m.processes ≡ true = rw (← e) managed in
        let found : lookup j m.objects ≡ some p = rw (← e) stored in
        rw (at, same) (rw (here, found) at (c.tracked j))
    | inr other ↦ rw other
  ]
