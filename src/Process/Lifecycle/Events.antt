-- ===== src/Process/Lifecycle/Events.antt =====
-- The process manager under any sequence of events: calls of `start`, `prune` and `terminate`, and
-- what the children and the timers do.
use chatgpt_remote_mcp.Base.{
  ℕ, ◌+◌, ◌≡◌, refl, inl, inr, true, false, ◌&&◌, Option, some, List, [], ◌∷◌, String, lookup, put,
  mem, leb, Bool-cases, Option-cases, lookup-put, eq_iff,
}
use chatgpt_remote_mcp.Output.{Stream}
use chatgpt_remote_mcp.Process.{ManagedProcess, ProcessManager, ProcessManagerOptions, new_manager}
use chatgpt_remote_mcp.Process.Output.{append_output}
use chatgpt_remote_mcp.Process.Output.Totals.{end_of}
use chatgpt_remote_mcp.Process.Invariant.{
  IsInvariant, save-IsInvariant, append_output-IsInvariant, new_manager-IsInvariant,
}
use chatgpt_remote_mcp.Process.Lifecycle.{
  StartProcessRequest, Spawn, start, prune, record_stdin_error, on_error, on_close,
  on_cleanup_failed, send_signal, on_timeout, on_force_timer, on_retention_timer,
}
use chatgpt_remote_mcp.Process.Lifecycle.Ends.{
  with_process-IsInvariant, finish-IsInvariant, record_stdin_error-IsInvariant,
  on_error-IsInvariant, on_cleanup_failed-IsInvariant, send_signal-IsInvariant,
  on_timeout-IsInvariant, on_force_timer-IsInvariant,
}
use chatgpt_remote_mcp.Process.Lifecycle.Capacity.{HasEnded, forget-IsInvariant, prune-IsRoomier}
use chatgpt_remote_mcp.Process.Lifecycle.Start.{IsFresh, start-IsInvariant}

pub data Event : Type 0 where
  starts : StartProcessRequest → Spawn → ℕ → Event
  outputs : String → Stream → List ℕ → Event
  stdin_fails : String → String → Event
  errors : String → String → ℕ → Event
  closes : String → Option ℕ → Option String → ℕ → Event
  cleanup_fails : String → String → Event
  signals : String → String → Option String → Event
  times_out : String → Option String → Event
  forces : String → Option String → Event
  retention_elapses : String → ℕ → Event
  prunes : ℕ → Event

unfoldable pub step : Event → ProcessManager → ProcessManager
step (starts request spawn now) m = (start request spawn now m).0
step (outputs id stream bytes) m = append_output id stream bytes m
step (stdin_fails id message) m = record_stdin_error id message m
step (errors id message now) m = on_error id message now m
step (closes id code signal now) m = on_close id code signal now m
step (cleanup_fails id message) m = on_cleanup_failed id message m
step (signals id name failure) m = send_signal id name failure m
step (times_out id failure) m = on_timeout id failure m
step (forces id failure) m = on_force_timer id failure m
step (retention_elapses id now) m = on_retention_timer id now m
step (prunes now) m = prune now m

pub run : List Event → ProcessManager → ProcessManager
run [] m = m
run (e ∷ es) m = run es (step e m)

-- What Node promises of the events: `randomUUID` gives a new id, and a child's streams are closed
-- (no more output) before its process can be forgotten.
abbrev pub IsPossible : Event → ProcessManager → Type 0
IsPossible (starts request spawn now) m = IsFresh request.session_id m
IsPossible (outputs id stream bytes) m = mem id m.processes ≡ true
IsPossible _ m = Unit

abbrev pub ArePossible : List Event → ProcessManager → Type 0
ArePossible [] m = Unit
ArePossible (e ∷ es) m = IsPossible e m × ArePossible es (step e m)

on_retention_timer-IsInvariant :
    {m : ProcessManager} (id : String) (now : ℕ)
    → IsInvariant m
    → IsInvariant (on_retention_timer id now m)
unfolding on_retention_timer
on_retention_timer-IsInvariant {m} id now v = with_process-IsInvariant id _ m v λ p stored.
    let idle : ManagedProcess = record p { retention_armed = false } in
    let w = save-IsInvariant v id stored idle refl refl in
    elim (Bool-cases (p.retention_armed && mem id m.processes)) [
      | inr off ↦ rw off w
      | inl due ↦ elim (Option-cases p.ended_at) [
        | inl open_end ↦ rw (due, open_end) w
        | inr (t, at) ↦ elim (Bool-cases (leb (t + m.process_retention_ms) now)) [
          | inr early ↦ rw (due, at, early) (save-IsInvariant v id stored _ refl refl)
          | inl elapsed ↦
              let found : lookup id (put id idle m.objects) ≡ some idle =
                rw (lookup-put id id idle m.objects, (eq_iff id id).1 refl) in
              let ended : HasEnded (end_of (put id idle m.objects) id) =
                rw (found, end_of, at) tt in
              rw (due, at, elapsed) (forget-IsInvariant id w ended)
        ]
      ]
    ]

-- Every event keeps the invariant.
pub step-IsInvariant :
    {m : ProcessManager} (e : Event) → IsInvariant m → IsPossible e m → IsInvariant (step e m)
unfolding step on_close
step-IsInvariant (starts request spawn now) v h = start-IsInvariant request spawn now v h
step-IsInvariant (outputs id stream bytes) v h = append_output-IsInvariant id stream bytes v h
step-IsInvariant (stdin_fails id message) v h = record_stdin_error-IsInvariant id message v
step-IsInvariant (errors id message now) v h = on_error-IsInvariant id message now v
step-IsInvariant (closes id code signal now) v h = finish-IsInvariant id code signal now v
step-IsInvariant (cleanup_fails id message) v h = on_cleanup_failed-IsInvariant id message v
step-IsInvariant (signals id name failure) v h = send_signal-IsInvariant id name failure v
step-IsInvariant (times_out id failure) v h = on_timeout-IsInvariant id failure v
step-IsInvariant (forces id failure) v h = on_force_timer-IsInvariant id failure v
step-IsInvariant (retention_elapses id now) v h = on_retention_timer-IsInvariant id now v
step-IsInvariant (prunes now) v h = (prune-IsRoomier now v).invariant

run-IsInvariant :
    (es : List Event) {m : ProcessManager}
    → IsInvariant m
    → ArePossible es m
    → IsInvariant (run es m)
unfolding run
run-IsInvariant [] v h = v
run-IsInvariant (e ∷ es) v h = run-IsInvariant es (step-IsInvariant e v h.0) h.1

-- After any possible history of a new manager its counters equal the sums over the managed
-- processes, the output retained, the processes managed and those running are within the options'
-- limits, every running process is managed, and every process that ended gave one terminal event.
pub run-new_manager-IsInvariant :
    (o : ProcessManagerOptions) (es : List Event)
    → ArePossible es (new_manager o)
    → IsInvariant (run es (new_manager o))
run-new_manager-IsInvariant o es h = run-IsInvariant es (new_manager-IsInvariant o) h
