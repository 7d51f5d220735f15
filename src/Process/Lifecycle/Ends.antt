-- ===== src/Process/Lifecycle/Ends.antt =====
-- `#finish` and the handlers of a process that is there.
use chatgpt_remote_mcp.Base.{
  ℕ, ◌≤◌, ◌≡◌, refl, sym, ap, ◌∙◌, inl, inr, true, Option, none, some, [], ◌∷◌, ◌++◌, String, arith,
  lookup, put, lookup-put, mem, str_eq, eq_iff, Bool-cases, Option-cases, if◌then◌else◌, subst,
  sum_over-remove,
}
use chatgpt_remote_mcp.Process.{
  ManagedProcess, ProcessManager, ProcessError, or_error, is_running, save, with_process,
  with_process_found, stdin_write_failed, cleanup_failed, signal_failed, exceeded_timeout,
}
use chatgpt_remote_mcp.Process.Consistency.{running, IsConsistent-update, recency_kept}
use chatgpt_remote_mcp.Process.Output.{notify, flush_pending_output}
use chatgpt_remote_mcp.Process.Output.Totals.{end_of}
use chatgpt_remote_mcp.Process.Output.Steps.{flush-EndsWithin}
use chatgpt_remote_mcp.Process.Invariant.{
  IsInvariant, events_of, ends_of, events_of-append, IsInvariant-output, save-IsInvariant,
  IsInvariant-log,
}
use chatgpt_remote_mcp.Process.Lifecycle.{
  terminal_event, ended_process, settle, finish, record_stdin_error, on_error, on_cleanup_failed,
  send_signal, on_timeout, on_force_timer,
}

pub with_process-IsInvariant :
    (id : String) (f : ManagedProcess → ProcessManager) (m : ProcessManager)
    → IsInvariant m
    → ((p : ManagedProcess) → lookup id m.objects ≡ some p → IsInvariant (f p))
    → IsInvariant (with_process id f m)
with_process-IsInvariant id f m v each = elim (Option-cases (lookup id m.objects)) [
  | inl missing ↦ rw (missing, with_process) v
  | inr (p, stored) ↦ subst IsInvariant (sym (with_process_found id f m stored)) (each p stored)
]

running-end : (p : ManagedProcess) → is_running p ≡ true → p.ended_at ≡ none
running-end p h = elim (Option-cases p.ended_at) [
  | inl e ↦ e
  | inr (t, e) ↦ cc (rw (e, is_running) at h)
]

module _ {m : ProcessManager} (v : IsInvariant m) (id : String) {p : ManagedProcess}
    (stored : lookup id m.objects ≡ some p) (live : is_running p ≡ true) where
  still_open : end_of m.objects id ≡ some none
  still_open = rw (stored, end_of) (ap some (running-end p live))

  managed : mem id m.processes ≡ true
  managed = v.running_managed id still_open

  one_runs : 1 ≤ m.running_processes
  one_runs =
      let c = v.consistent in
      let e = sum_over-remove running id m.objects m.processes c.distinct_processes managed in
      let one : running p ≡ 1 = rw (live, running) in
      omega (arith, rw stored at e, one, c.counted_running)

  module _ (code : Option ℕ) (signal : Option String) (now : ℕ) where
    abbrev ended : ManagedProcess
    ended = ended_process code signal now p

    end_of-settle :
        (j : String)
        → end_of (put id ended m.objects) j
          ≡ (if str_eq id j then some (some now) else end_of m.objects j)
    end_of-settle j = elim (Bool-cases (str_eq id j)) [
      | inl here ↦ rw (lookup-put id j ended m.objects, here, end_of)
      | inr other ↦ rw (lookup-put id j ended m.objects, other, end_of)
    ]

    settle_reported :
        (j : String)
        → events_of j (settle id code signal now p m).terminal_events
          ≡ ends_of (end_of (put id ended m.objects) j)
    unfolding settle
    settle_reported j =
        let now_event = terminal_event id ended now in
        let before = v.reported j in
        let e = events_of-append j m.terminal_events (now_event ∷ []) in
        elim (Bool-cases (str_eq id j)) [
          | inl here ↦
              let open_end : end_of m.objects j ≡ some none =
                subst (λ i. end_of m.objects i ≡ some none) ((eq_iff id j).0 here) still_open in
              let zero_before : events_of j m.terminal_events ≡ 0 = before ∙ ap ends_of open_end in
              rw (e, end_of-settle j, here) (omega (arith, zero_before))
          | inr other ↦ rw (e, end_of-settle j, other) (omega (arith, before))
        ]

    settle_managed :
        (j : String) → end_of (put id ended m.objects) j ≡ some none → mem j m.processes ≡ true
    settle_managed j e = elim (Bool-cases (str_eq id j)) [
      | inl here ↦ let f = rw (end_of-settle j, here) at e in cc (f)
      | inr other ↦ v.running_managed j (rw (end_of-settle j, other) at e)
    ]

    settle-IsInvariant : IsInvariant (settle id code signal now p m)
    unfolding settle
    settle-IsInvariant =
        let valid = v.consistent.valid id p stored in
        let one : running p ≡ 1 = rw (live, running) in
        record {
          consistent = IsConsistent-update v.consistent id managed stored ended valid (record {
            objects = refl;
            processes = refl;
            distinct_recency = v.consistent.distinct_recency;
            recency = recency_kept v.consistent id managed stored ended valid refl;
            retains = refl;
            runs = omega (arith, one, one_runs);
          });
          reported = settle_reported;
          running_managed = settle_managed;
          output_within = v.output_within;
          processes_within = v.processes_within;
          running_within = omega (arith, v.running_within);
        }

-- A process that is running when the flush begins is running when it ends.
flush_running :
    {m : ProcessManager} (v : IsInvariant m) (id : String) {p q : ManagedProcess}
    → lookup id m.objects ≡ some p
    → is_running p ≡ true
    → lookup id (flush_pending_output id m).objects ≡ some q
    → is_running q ≡ true
flush_running {m} v id {p} {q} stored live found =
    let f = (flush-EndsWithin v.consistent id (managed v id stored live)).0 in
    let e : some q.ended_at ≡ some p.ended_at = rw (found, stored, end_of) at (f.ends id) in
    let none_yet : q.ended_at ≡ none = cc (e, running-end p live) in rw (none_yet, is_running)

-- The end of a process keeps the invariant: with the flush, the counters, the one event.
pub finish-IsInvariant :
    {m : ProcessManager} (id : String) (code : Option ℕ) (signal : Option String) (now : ℕ)
    → IsInvariant m
    → IsInvariant (finish id code signal now m)
unfolding finish
finish-IsInvariant {m} id code signal now v = with_process-IsInvariant id _ m v λ p stored.
    elim (Bool-cases (is_running p)) [
      | inr over ↦ rw over v
      | inl live ↦
          let f = flush-EndsWithin v.consistent id (managed v id stored live) in
          let w = IsInvariant-output v f in
          rw live (
            with_process-IsInvariant id _ (flush_pending_output id m) w λ q found.
              settle-IsInvariant w id found (flush_running v id stored live found) code signal now)
    ]

or_error-keeps :
    (p : ManagedProcess) (e : ProcessError)
    → ((or_error p e).output_buffer ≡ p.output_buffer) × ((or_error p e).ended_at ≡ p.ended_at)
or_error-keeps p e = elim (Option-cases p.error) [
  | inl fresh ↦ rw (fresh, or_error) (refl, refl)
  | inr (old, at) ↦ rw (at, or_error) (refl, refl)
]

-- Noting an error on an object, other fields of which may have changed.
note_error-IsInvariant :
    {m : ProcessManager} (id : String) {p : ManagedProcess} (q : ManagedProcess) (e : ProcessError)
    → IsInvariant m
    → lookup id m.objects ≡ some p
    → q.output_buffer ≡ p.output_buffer
    → q.ended_at ≡ p.ended_at
    → IsInvariant (save id (or_error q e) m)
note_error-IsInvariant id q e v stored same ends =
    let (keeps_buffer, keeps_end) = or_error-keeps q e in
    save-IsInvariant v id stored (or_error q e) (keeps_buffer ∙ same) (keeps_end ∙ ends)

notify-IsInvariant : {m : ProcessManager} (id : String) → IsInvariant m → IsInvariant (notify id m)
unfolding notify
notify-IsInvariant {m} id v = with_process-IsInvariant id _ m v λ p stored.
    IsInvariant-log (save-IsInvariant v id stored (record p { waiters = [] }) refl refl)
      (m.resolved ++ p.waiters) m.signals

pub record_stdin_error-IsInvariant :
    {m : ProcessManager} (id message : String)
    → IsInvariant m
    → IsInvariant (record_stdin_error id message m)
unfolding record_stdin_error
record_stdin_error-IsInvariant {m} id message v = with_process-IsInvariant id _ m v λ p stored.
    notify-IsInvariant id
      (note_error-IsInvariant id p (stdin_write_failed message) v stored refl refl)

pub on_error-IsInvariant :
    {m : ProcessManager} (id message : String) (now : ℕ)
    → IsInvariant m
    → IsInvariant (on_error id message now m)
unfolding on_error
on_error-IsInvariant {m} id message now v =
    with_process-IsInvariant id _ m v
      λ p stored. finish-IsInvariant id none none now (save-IsInvariant v id stored _ refl refl)

pub on_cleanup_failed-IsInvariant :
    {m : ProcessManager} (id message : String)
    → IsInvariant m
    → IsInvariant (on_cleanup_failed id message m)
unfolding on_cleanup_failed
on_cleanup_failed-IsInvariant {m} id message v =
    with_process-IsInvariant id _ m v
      λ p stored. note_error-IsInvariant id p (cleanup_failed message) v stored refl refl

pub send_signal-IsInvariant :
    {m : ProcessManager} (id name : String) (failure : Option String)
    → IsInvariant m
    → IsInvariant (send_signal id name failure m)
unfolding send_signal
send_signal-IsInvariant {m} id name failure v = with_process-IsInvariant id _ m v λ p stored.
    elim (Option-cases p.pid) [
      | inl no_pid ↦ rw no_pid v
      | inr (pid, at) ↦ rw at (sent p stored failure)
    ]
  where
    sent :
        (p : ManagedProcess)
        → lookup id m.objects ≡ some p
        → (failure : Option String)
        → IsInvariant (elim failure [
          | none ↦ record m { signals = m.signals ++ (id, name) ∷ [] }
          | some message ↦ save id (or_error p (signal_failed message)) m
        ])
    sent p stored none = IsInvariant-log v m.resolved _
    sent p stored (some message) =
        note_error-IsInvariant id p (signal_failed message) v stored refl refl

pub on_timeout-IsInvariant :
    {m : ProcessManager} (id : String) (failure : Option String)
    → IsInvariant m
    → IsInvariant (on_timeout id failure m)
unfolding on_timeout
on_timeout-IsInvariant {m} id failure v = with_process-IsInvariant id _ m v λ p stored.
    elim (Bool-cases p.timeout_armed) [
      | inl armed ↦ rw armed (
          send_signal-IsInvariant id "SIGTERM" failure (
            note_error-IsInvariant id (record p { timed_out = true })
              (exceeded_timeout p.timeout_ms) v stored refl refl))
      | inr cleared ↦ rw cleared v
    ]

pub on_force_timer-IsInvariant :
    {m : ProcessManager} (id : String) (failure : Option String)
    → IsInvariant m
    → IsInvariant (on_force_timer id failure m)
unfolding on_force_timer
on_force_timer-IsInvariant {m} id failure v = with_process-IsInvariant id _ m v λ p stored.
    elim (Bool-cases (is_running p)) [
      | inl live ↦ rw live (send_signal-IsInvariant id "SIGKILL" failure v)
      | inr over ↦ rw over v
    ]
