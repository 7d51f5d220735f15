-- ===== src/Continuity/Once.antt =====
-- src/continuity/execution-recorder.ts, `prepare`: an operation id starts one execution.
use chatgpt_remote_mcp.Base.{
  ℕ, ◌≡◌, refl, inl, inr, Bool, false, some, List, String, arith, eq_iff, lookup, put, lookup-put,
  Option-cases,
}
use chatgpt_remote_mcp.Errors.{ok}
use chatgpt_remote_mcp.Continuity.{Workspace}
use chatgpt_remote_mcp.Continuity.Executions.{
  PrepareInput, ExecutionPreparation, prepare, new_execution,
}
use chatgpt_remote_mcp.Continuity.Moves.{Move, run, Has}
use chatgpt_remote_mcp.Continuity.Kept.{run-Keeps}

prepare-receipt :
    (input : PrepareInput) (boot_id : String) (now : ℕ) (written : Bool) (w : Workspace)
    {w' : Workspace} {p : ExecutionPreparation}
    → prepare input boot_id now written w ≡ (w', ok p)
    → Has input.operation_id w'.executions
unfolding prepare
prepare-receipt input boot_id now written w {w'} {p} h =
    elim (Option-cases (lookup input.task_id w.state.tasks)) [
      | inl missing ↦ ground (arith, rw (missing, prepare) at h)
      | inr (task, known) ↦ elim (Option-cases (lookup input.operation_id w.executions)) [
        | inr (r, e) ↦
            let h' = rw (known, e, prepare) at h in
            let same : w ≡ w' = ground (arith, h') in
            let there : Has input.operation_id w.executions = rw e refl in rw same at there
        | inl new ↦
            let h' = rw (known, new, prepare) at h in
            let r = new_execution input w.state.workspace.workspace_id boot_id now in
            let same : put r.operation_id r w.executions ≡ w'.executions = ground (arith, h') in
            let there : Has r.operation_id (put r.operation_id r w.executions) =
              rw
                (
                  lookup-put r.operation_id r.operation_id r w.executions,
                  (eq_iff r.operation_id r.operation_id).1 refl,
                )
                refl in
            rw same at there
      ]
    ]

-- An operation id starts at most one execution: after a `prepare` that returned, whatever operations
-- follow, a `prepare` of the same operation id never again tells its caller to spawn.
pub prepare-once :
    (input input' : PrepareInput) (boot_id boot_id' : String) (now now' : ℕ)
    (written written' : Bool) (w : Workspace) {w' w'' : Workspace} {p p' : ExecutionPreparation}
    → prepare input boot_id now written w ≡ (w', ok p)
    → (ms : List Move) → input'.operation_id ≡ input.operation_id
    → prepare input' boot_id' now' written' (run ms w') ≡ (w'', ok p')
    → p'.should_spawn ≡ false
unfolding prepare
prepare-once input input' boot_id boot_id' now now' written written' w {w'} {w''} {p} {p'} h ms same
      h' =
    let there =
      (run-Keeps ms w').receipts input.operation_id
        (prepare-receipt input boot_id now written w h) in
    elim (Option-cases (lookup input'.task_id (run ms w').state.tasks)) [
      | inl missing ↦ ground (arith, rw (missing, prepare) at h')
      | inr (task, known) ↦ elim (Option-cases (lookup input.operation_id (run ms w').executions)) [
        | inl lost ↦ cc (rw lost at there)
        | inr (r, e) ↦
            let e' : lookup input'.operation_id (run ms w').executions ≡ some r = rw same e in
            ground (arith, rw (known, e', prepare) at h')
      ]
    ]
