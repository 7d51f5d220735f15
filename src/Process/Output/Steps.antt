-- ===== src/Process/Output/Steps.antt =====
-- `#appendOutput` and `#flushPendingOutput` as a whole.
use chatgpt_remote_mcp.Base.{
  ℕ, ◌≡◌, refl, sym, ap, inl, inr, true, some, List, String, arith, lookup, mem, length, ◌==◌,
  Bool-cases, Option-cases, is_some, subst, [],
}
use chatgpt_remote_mcp.Output.{Stream, stdout, stderr}
use chatgpt_remote_mcp.Process.{
  ManagedProcess, ProcessManager, save, with_process_found, pending_output,
}
use chatgpt_remote_mcp.Process.Consistency.{IsConsistent, IsConsistent-update, recency_kept}
use chatgpt_remote_mcp.Process.Output.{
  trim_retained_output, notify, receive_output, append_output, flush_stream, flush_pending_output,
}
use chatgpt_remote_mcp.Process.Output.Totals.{
  IsOutputStep, IsOutputStep-refl, IsOutputStep-trans, EndsWithin, EndsWithin-after, ends_update,
  store_output_chunks-IsOutputStep, trim_buffer-IsOutputStep, trim_total-within,
  retained-set_pending, ended-set_pending,
}

-- The object of a managed process.
pub object_of :
    {m : ProcessManager} (id : String)
    → IsConsistent m
    → mem id m.processes ≡ true
    → (p : ManagedProcess) × (lookup id m.objects ≡ some p)
object_of {m} id c managed = elim (Option-cases (lookup id m.objects)) [
  | inl missing ↦ cc (c.present id managed, ap is_some missing)
  | inr found ↦ found
]

-- A change of an object that leaves its buffer and its end alone.
pub quiet_update :
    {m : ProcessManager} (c : IsConsistent m) (id : String) {p : ManagedProcess}
    → mem id m.processes ≡ true
    → lookup id m.objects ≡ some p
    → (p' : ManagedProcess) → p'.output_buffer ≡ p.output_buffer
    → p'.ended_at ≡ p.ended_at
    → IsOutputStep m (save id p' m)
quiet_update {m} c id {p} managed stored p' same ends =
    let v = c.valid id p stored in
    record {
      consistent = IsConsistent-update c id managed stored p' (rw same v) (record {
        objects = refl;
        processes = refl;
        distinct_recency = c.distinct_recency;
        recency = recency_kept c id managed stored p' (rw same v) same;
        retains = rw same;
        runs = rw ends;
      });
      options = refl;
      processes = refl;
      ends = ends_update c id managed stored p' ends;
      running = refl;
      events = refl;
    }

notify-retained :
    (id : String) (m : ProcessManager)
    → (notify id m).retained_output_bytes ≡ m.retained_output_bytes
unfolding notify
notify-retained id m = ground arith

-- The waiters called are no part of what the counters say.
pub same_counters :
    {m : ProcessManager}
    → IsConsistent m
    → (resolved : List ℕ) → IsConsistent (record m { resolved = resolved })
same_counters c resolved = record {
  distinct_processes = c.distinct_processes;
  distinct_recency = c.distinct_recency;
  present = c.present;
  valid = c.valid;
  tracked = c.tracked;
  counted = c.counted;
  counted_running = c.counted_running;
}

module _ {m : ProcessManager} (c : IsConsistent m) (id : String)
    (managed : mem id m.processes ≡ true) where
  pub trim_retained-EndsWithin : EndsWithin m (trim_retained_output id m)
  unfolding trim_retained_output
  trim_retained-EndsWithin =
      let (p, stored) = object_of id c managed in
      let s = trim_buffer-IsOutputStep c id managed stored m.max_retained_output_bytes in
      subst (EndsWithin m) (sym (with_process_found id _ m stored))
        (EndsWithin-after s (trim_total-within s.consistent))

  -- Waking the waiters changes neither keys nor counters.
  pub notify-IsOutputStep : IsOutputStep m (notify id m)
  unfolding notify
  notify-IsOutputStep =
      let (p, stored) = object_of id c managed in
      let q = quiet_update c id managed stored (record p { waiters = [] }) refl refl in
      subst (IsOutputStep m) (sym (with_process_found id _ m stored)) (record {
        consistent = same_counters q.consistent _;
        options = refl;
        processes = refl;
        ends = q.ends;
        running = refl;
        events = refl;
      })

module _ {m : ProcessManager} (c : IsConsistent m) (id : String)
    (managed : mem id m.processes ≡ true) where
  pub receive-IsOutputStep :
      (stream : Stream) (bytes : List ℕ) {p : ManagedProcess}
      → lookup id m.objects ≡ some p
      → IsOutputStep m (receive_output id stream bytes p m)
  unfolding receive_output
  receive-IsOutputStep stream bytes {p} stored =
      store_output_chunks-IsOutputStep c id managed stored stream _ _
        (retained-set_pending stream _ _) (ended-set_pending stream _ _)

  -- After output of a managed process the counters agree with the objects and the retained output is
  -- within the budget of the manager.
  pub append_output-EndsWithin :
      (stream : Stream) (bytes : List ℕ) → EndsWithin m (append_output id stream bytes m)
  unfolding append_output
  append_output-EndsWithin stream bytes =
      let (p, stored) = object_of id c managed in
      let s = receive-IsOutputStep stream bytes stored in
      let t = trim_retained-EndsWithin s.consistent id (rw s.processes managed) in
      let n = notify-IsOutputStep t.0.consistent id (rw (t.0.processes, s.processes) managed) in
      subst (EndsWithin m) (sym (with_process_found id _ m stored))
        (EndsWithin-after s (IsOutputStep-trans t.0 n, rw (notify-retained id _) t.1))

  flush_stream-IsOutputStep : (stream : Stream) → IsOutputStep m (flush_stream id stream m)
  unfolding flush_stream
  flush_stream-IsOutputStep stream =
      let (p, stored) = object_of id c managed in
      subst (IsOutputStep m) (sym (with_process_found id _ m stored))
        (elim (Bool-cases (length (pending_output stream p) == 0)) [
          | inl nothing ↦ rw nothing (IsOutputStep-refl c)
          | inr pending ↦ rw pending (
              store_output_chunks-IsOutputStep c id managed stored stream _ _
                (retained-set_pending stream _ _) (ended-set_pending stream _ _))
        ])

module _ {m : ProcessManager} (c : IsConsistent m) (id : String)
    (managed : mem id m.processes ≡ true) where
  pub flush-EndsWithin : EndsWithin m (flush_pending_output id m)
  unfolding flush_pending_output
  flush-EndsWithin =
      let s = flush_stream-IsOutputStep c id managed stdout in
      let t = flush_stream-IsOutputStep s.consistent id (rw s.processes managed) stderr in
      let u = IsOutputStep-trans s t in
      EndsWithin-after u (trim_retained-EndsWithin u.consistent id (rw u.processes managed))
