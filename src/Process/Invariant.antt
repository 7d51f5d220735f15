-- ===== src/Process/Invariant.antt =====
-- What holds of the process manager between two events.
use chatgpt_remote_mcp.Base.{
  ℕ, ◌+◌, ◌≤◌, ◌≡◌, refl, sym, ap, ◌∙◌, inl, inr, true, false, ◌&&◌, Option, none, some, List, [],
  ◌∷◌, ◌++◌, String, arith, lookup, put, lookup-put, mem, length, str_eq, eq_iff, Bool-cases,
  if◌then◌else◌, sum_over-put_absent, is_some, ltb, count_of,
}
use chatgpt_remote_mcp.Output.{Stream}
use chatgpt_remote_mcp.Output.Invariant.{IsValid}
use chatgpt_remote_mcp.Process.{
  ManagedProcess, ProcessManager, ProcessManagerOptions, ProcessTerminalEvent, save, new_manager,
}
use chatgpt_remote_mcp.Process.Consistency.{retained, running, IsConsistent, IsValid-put}
use chatgpt_remote_mcp.Process.Output.{append_output}
use chatgpt_remote_mcp.Process.Output.Totals.{EndsWithin, end_of}
use chatgpt_remote_mcp.Process.Output.Steps.{quiet_update, append_output-EndsWithin}

-- How many terminal events name a session.
abbrev pub events_of : String → List ProcessTerminalEvent → ℕ
events_of id [] = 0
events_of id (e ∷ es) = (if str_eq e.session_id id then 1 else 0) + events_of id es

-- How many it should have: one once it has ended.
abbrev pub ends_of : Option (Option ℕ) → ℕ
ends_of none = 0
ends_of (some none) = 0
ends_of (some (some t)) = 1

-- The limits of the options hold, the counters agree with the maps, running processes are managed,
-- and every process that ended was reported once.
pub record IsInvariant (m : ProcessManager) : Type 0 where
  pub consistent : IsConsistent m
  pub reported : (id : String) → events_of id m.terminal_events ≡ ends_of (end_of m.objects id)
  pub running_managed : (id : String) → end_of m.objects id ≡ some none → mem id m.processes ≡ true
  pub output_within : m.retained_output_bytes ≤ m.max_total_retained_output_bytes
  pub processes_within : length m.processes ≤ m.max_processes
  pub running_within : m.running_processes ≤ m.max_running_processes

pub events_of-append :
    (id : String) (xs ys : List ProcessTerminalEvent)
    → events_of id (xs ++ ys) ≡ events_of id xs + events_of id ys
events_of-append id [] ys = omega arith
events_of-append id (x ∷ xs) ys = omega (arith, events_of-append id xs ys)

pub new_manager-IsInvariant : (o : ProcessManagerOptions) → IsInvariant (new_manager o)
new_manager-IsInvariant o = record {
  consistent = record {
    distinct_processes = tt;
    distinct_recency = tt;
    present = λ id h. cc;
    valid = λ id p e. cc;
    tracked = λ id. refl;
    counted = refl;
    counted_running = refl;
  };
  reported = λ id. refl;
  running_managed = λ id e. cc;
  output_within = omega arith;
  processes_within = omega arith;
  running_within = omega arith;
}

-- A step on output that ends within the budget.
pub IsInvariant-output : {m m' : ProcessManager} → IsInvariant m → EndsWithin m m' → IsInvariant m'
IsInvariant-output {m} {m'} v (s, within) =
    let limit = λ (f : ProcessManagerOptions → ℕ). ap f s.options in
    record {
      consistent = s.consistent;
      reported = λ id. rw (s.events, s.ends id) (v.reported id);
      running_managed = λ id e. rw s.processes (v.running_managed id (sym (s.ends id) ∙ e));
      output_within = rw (limit (λ o. o.max_total_retained_output_bytes)) within;
      processes_within = rw (limit (λ o. o.max_processes), s.processes) v.processes_within;
      running_within = rw (limit (λ o. o.max_running_processes), s.running) v.running_within;
    }

-- Output of a managed process.
pub append_output-IsInvariant :
    {m : ProcessManager} (id : String) (stream : Stream) (bytes : List ℕ)
    → IsInvariant m
    → mem id m.processes ≡ true
    → IsInvariant (append_output id stream bytes m)
append_output-IsInvariant id stream bytes v managed =
    IsInvariant-output v (append_output-EndsWithin v.consistent id managed stream bytes)

-- A change of an object that is not managed.
unmanaged_update :
    {m : ProcessManager} (c : IsConsistent m) (id : String) (p' : ManagedProcess)
    → mem id m.processes ≡ false
    → IsValid p'.output_buffer
    → IsConsistent (save id p' m)
unmanaged_update {m} c id p' gone v = record {
  distinct_processes = c.distinct_processes;
  distinct_recency = c.distinct_recency;
  present = λ j h. elsewhere j (λ o. is_some o ≡ true) h (c.present j h);
  valid = IsValid-put c id p' v;
  tracked = λ j. elim (Bool-cases (mem j m.processes)) [
    | inl here ↦
        elsewhere j
          (λ o. mem j m.output_recency ≡ (mem j m.processes && ltb 0 (count_of retained o))) here
          (c.tracked j)
    | inr away ↦ rw away (rw away at (c.tracked j))
  ];
  counted = rw (sum_over-put_absent retained id p' m.objects m.processes gone) c.counted;
  counted_running =
      rw (sum_over-put_absent running id p' m.objects m.processes gone) c.counted_running;
}
  where
    elsewhere :
        (j : String) (P : Option ManagedProcess → Type 0)
        → mem j m.processes ≡ true
        → P (lookup j m.objects)
        → P (lookup j (put id p' m.objects))
    elsewhere j P here h =
        let other : str_eq id j ≡ false = ground (arith, eq_iff id j, here, gone) in
        rw (lookup-put id j p' m.objects, other) h

-- A change of an object that leaves its buffer and its end alone, managed or not.
module _ {m : ProcessManager} (v : IsInvariant m) (id : String) {p : ManagedProcess}
    (stored : lookup id m.objects ≡ some p) (p' : ManagedProcess)
    (same : p'.output_buffer ≡ p.output_buffer) (ends : p'.ended_at ≡ p.ended_at) where
  pub end_of-save : (j : String) → end_of (put id p' m.objects) j ≡ end_of m.objects j
  end_of-save j = elim (Bool-cases (str_eq id j)) [
    | inl here ↦
        let at : lookup j m.objects ≡ some p = rw (← (eq_iff id j).0 here) stored in
        rw (lookup-put id j p' m.objects, here, at, end_of) (ap some ends)
    | inr other ↦ rw (lookup-put id j p' m.objects, other, end_of)
  ]

  pub save-IsInvariant : IsInvariant (save id p' m)
  save-IsInvariant = record {
    consistent = elim (Bool-cases (mem id m.processes)) [
      | inl managed ↦ (quiet_update v.consistent id managed stored p' same ends).consistent
      | inr gone ↦
          unmanaged_update v.consistent id p' gone (rw same (v.consistent.valid id p stored))
    ];
    reported = λ j. rw (end_of-save j) (v.reported j);
    running_managed = λ j e. v.running_managed j (sym (end_of-save j) ∙ e);
    output_within = v.output_within;
    processes_within = v.processes_within;
    running_within = v.running_within;
  }

-- The waiters called and the signals sent are no part of the invariant.
pub IsInvariant-log :
    {m : ProcessManager}
    → IsInvariant m
    → (resolved : List ℕ) (signals : List (String × String))
    → IsInvariant (record m { resolved = resolved; signals = signals })
IsInvariant-log v resolved signals = record {
  consistent = record {
    distinct_processes = v.consistent.distinct_processes;
    distinct_recency = v.consistent.distinct_recency;
    present = v.consistent.present;
    valid = v.consistent.valid;
    tracked = v.consistent.tracked;
    counted = v.consistent.counted;
    counted_running = v.consistent.counted_running;
  };
  reported = v.reported;
  running_managed = v.running_managed;
  output_within = v.output_within;
  processes_within = v.processes_within;
  running_within = v.running_within;
}
