-- ===== src/Continuity/Kept.antt =====
-- Every operation on the tasks and executions of a workspace keeps the receipts, the tasks and the
-- results of past requests.
use chatgpt_remote_mcp.Base.{
  ℕ, ◌≡◌, refl, inl, inr, Bool, true, not, Option, none, some, List, [], ◌∷◌, String, arith, eq_iff,
  ltb, ◌==◌, lookup, lookup-put, is_some, Bool-cases, Option-cases,
}
use chatgpt_remote_mcp.Errors.{Result, ok, err, >>=-eq-ok, guard}
use chatgpt_remote_mcp.Continuity.{
  WorkCheckpoint, MutationKind, creates, updates, completes, MutationResult, Workspace,
  MutationDedupeRecord, WorkspaceState, TaskRecord, same_kind,
}
use chatgpt_remote_mcp.Continuity.Executions.{with_reconciliations}
use chatgpt_remote_mcp.Continuity.Tasks.{
  Mutation, CheckpointInput, CompleteInput, create, update, complete, create_fresh, update_fresh,
  complete_fresh, once, put_all, require_active_task, record_mutation, dedupe_record, new_task,
  updated_task, completed_task, result_of, reconciliations_of,
}
use chatgpt_remote_mcp.Continuity.Moves.{
  TaskMove, creates_task, updates_task, completes_task, apply_task, Move, step, run, Has, Keeps,
  mutates, prepares, runs, fails, ends, degrades, reconciles, Keeps-refl, Keeps-trans, Has-put,
  Has-put_all, prepare-IsKeeping, mark_running-IsKeeping, mark_spawn_failed-IsKeeping,
  mark_terminal-IsKeeping, reconcile-IsKeeping, mark_persistence_degraded-IsKeeping,
}

-- What a new mutation makes of the workspace, once its request id is known to be new.
abbrev pub Writes : Mutation → MutationKind → Workspace → Workspace → MutationResult → Type 0
Writes mu kind w w' result =
    (lookup mu.request_id w.state.mutation_dedupe ≡ none → Keeps w w')
    × ((d : MutationDedupeRecord) × (lookup mu.request_id w'.state.mutation_dedupe ≡ some d)
        × (same_kind d.kind kind ≡ true)
        × (d.input_hmac ≡ mu.input_hmac)
        × (d.result ≡ result))

once-Keeps :
    (mu : Mutation) (kind : MutationKind) (w : Workspace)
    (fresh : Result (Workspace × MutationResult))
    → ((w' : Workspace) (result : MutationResult)
        → fresh ≡ ok (w', result)
        → Writes mu kind w w' result)
    → Keeps w (once mu kind w fresh).0
once-Keeps mu kind w (err e) h = ground (arith, Keeps-refl w)
once-Keeps mu kind w (ok (w', result)) h =
    elim (Option-cases (lookup mu.request_id w.state.mutation_dedupe)) [
      | inl new ↦ rw (new, once) (ground (arith, Keeps-refl w, (h w' result refl).0 new))
      | inr (d, e) ↦ rw (e, once) (ground (arith, Keeps-refl w))
    ]

-- The write of a mutation to the state.
record_mutation-Writes :
    (mu : Mutation) (kind : MutationKind) (active : Option String) (task : TaskRecord)
    (result : MutationResult) (w w' : Workspace) (s : WorkspaceState)
    → s.tasks ≡ w.state.tasks
    → s.mutation_dedupe ≡ w.state.mutation_dedupe
    → same_kind kind kind ≡ true
    → w'.state ≡ record_mutation mu kind active task result s
    → ((id : String) → Has id w.executions → Has id w'.executions)
    → Writes mu kind w w' result
record_mutation-Writes mu kind active task result w w' s same_tasks same_dedupe k e h = (
  λ new. record {
    receipts = h;
    tasks = λ id t. rw (e, same_tasks) (Has-put task.task_id task w.state.tasks id t);
    results = λ id {d} at.
        rw
          (
            e,
            same_dedupe,
            lookup-put mu.request_id id (dedupe_record mu task.task_id kind result)
                w.state.mutation_dedupe,
          )
          (ground (arith, eq_iff mu.request_id id, new, at));
  },
  (
    dedupe_record mu task.task_id kind result,
    rw
        (
          e,
          same_dedupe,
          lookup-put mu.request_id mu.request_id (dedupe_record mu task.task_id kind result)
              w.state.mutation_dedupe,
          (eq_iff mu.request_id mu.request_id).1 refl,
        )
        refl,
    k,
    refl,
    refl,
  ),
)

pub create_fresh-Writes :
    (mu : Mutation) (task_id objective : String) (input : CheckpointInput) (w w' : Workspace)
    (result : MutationResult)
    → create_fresh mu task_id objective input w ≡ ok (w', result)
    → Writes mu creates w w' result
unfolding create_fresh
create_fresh-Writes mu task_id objective input w w' result h =
    let (u, free, e) = >>=-eq-ok (guard (not (is_some w.state.active_task_id)) _) _ h in
    let task = new_task mu task_id objective input in
    let state = record w.state { workspace = mu.identity } in
    let made = result_of state task none in
    let same : made ≡ result = ground (arith, e) in
    let state_is : w'.state ≡ record_mutation mu creates (some task_id) task result state =
      ground (arith, e) in
    let receipts_are : w.executions ≡ w'.executions = ground (arith, e) in
    record_mutation-Writes mu creates _ task result w w' state refl refl refl state_is
      λ id r. rw receipts_are at r

pub update_fresh-Writes :
    (before : String → String → Bool) (mu : Mutation) (task_id : String) (revision : ℕ)
    (input : CheckpointInput) (w w' : Workspace) (result : MutationResult)
    → update_fresh before mu task_id revision input w ≡ ok (w', result)
    → Writes mu updates w w' result
unfolding update_fresh
update_fresh-Writes before mu task_id revision input w w' result h =
    let (task, found, h1) = >>=-eq-ok (require_active_task w.state task_id) _ h in
    let (u, current, h2) = >>=-eq-ok (guard (task.revision == revision) _) _ h1 in
    let task' = updated_task mu input task in
    let (receipts, collected, e) =
      >>=-eq-ok
        (with_reconciliations before task_id (reconciliations_of task'.checkpoint) w.executions) _
        h2 in
    let made = result_of w.state task' none in
    let same : made ≡ result = ground (arith, e) in
    let state_is : w'.state
        ≡ record_mutation mu updates w.state.active_task_id task' result w.state =
      ground (arith, e) in
    let receipts_are : put_all receipts w.executions ≡ w'.executions = ground (arith, e) in
    record_mutation-Writes mu updates _ task' result w w' w.state refl refl refl state_is
      λ id r. rw receipts_are at (Has-put_all receipts w.executions id r)

pub complete_fresh-Writes :
    (size : WorkCheckpoint → ℕ) (max_bytes : ℕ) (blocked : Bool) (mu : Mutation)
    (input : CompleteInput) (w w' : Workspace) (result : MutationResult)
    → complete_fresh size max_bytes blocked mu input w ≡ ok (w', result)
    → Writes mu completes w w' result
unfolding complete_fresh
complete_fresh-Writes size max_bytes blocked mu input w w' result h =
    let (task, found, h1) = >>=-eq-ok (require_active_task w.state input.task_id) _ h in
    let task' = completed_task mu input task in
    let state_is : w'.state ≡ record_mutation mu completes none task' result w.state =
      ground (arith, h1) in
    let receipts_are : w.executions ≡ w'.executions = ground (arith, h1) in
    record_mutation-Writes mu completes _ task' result w w' w.state refl refl refl state_is
      λ id r. rw receipts_are at r

pub apply_task-Keeps :
    (mv : TaskMove) (mu : Mutation) (w : Workspace) → Keeps w (apply_task mv mu w).0
unfolding apply_task create update complete
apply_task-Keeps (creates_task max_bytes task_id objective input) mu w =
    elim (Bool-cases (ltb max_bytes input.bytes)) [
      | inl big ↦ rw (big, create) (Keeps-refl w)
      | inr fits ↦
          rw (fits, create)
            (once-Keeps mu creates w _ (create_fresh-Writes mu task_id objective input w))
    ]
apply_task-Keeps (updates_task before max_bytes task_id revision input) mu w =
    elim (Bool-cases (ltb max_bytes input.bytes)) [
      | inl big ↦ rw (big, update) (Keeps-refl w)
      | inr fits ↦ elim (Bool-cases (is_some (lookup task_id w.state.tasks))) [
        | inr missing ↦ rw (fits, missing, update) (Keeps-refl w)
        | inl known ↦
            rw (fits, known, update)
              (once-Keeps mu updates w _ (update_fresh-Writes before mu task_id revision input w))
      ]
    ]
apply_task-Keeps (completes_task size max_bytes blocked input) mu w =
    elim (Bool-cases (is_some (lookup input.task_id w.state.tasks))) [
      | inr missing ↦ rw (missing, complete) (Keeps-refl w)
      | inl known ↦
          rw (known, complete)
            (once-Keeps mu completes w _ (complete_fresh-Writes size max_bytes blocked mu input w))
    ]

-- Every move keeps the receipts, the tasks and the results of past requests.
step-Keeps : (m : Move) (w : Workspace) → Keeps w (step m w)
unfolding step
step-Keeps (mutates mv mu) w = apply_task-Keeps mv mu w
step-Keeps (prepares input boot_id now written) w =
    (prepare-IsKeeping input boot_id now written w).keeps
step-Keeps (runs id session_id now written) w =
    (mark_running-IsKeeping id session_id now written w).keeps
step-Keeps (fails id error_code now written) w =
    (mark_spawn_failed-IsKeeping id error_code now written w).keeps
step-Keeps (ends boot_id id o now written) w =
    (mark_terminal-IsKeeping boot_id id o now written w).keeps
step-Keeps (degrades id written) w = (mark_persistence_degraded-IsKeeping id written w).keeps
step-Keeps (reconciles task_id c written) w = (reconcile-IsKeeping task_id c written w).keeps

pub run-Keeps : (ms : List Move) (w : Workspace) → Keeps w (run ms w)
unfolding run
run-Keeps [] w = Keeps-refl w
run-Keeps (m ∷ ms) w = Keeps-trans (step-Keeps m w) (run-Keeps ms (step m w))
