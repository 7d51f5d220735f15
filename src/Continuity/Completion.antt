-- ===== src/Continuity/Completion.antt =====
-- src/continuity/task-service.ts, `complete`: what a completion needs and what it does.
use chatgpt_remote_mcp.Base.{
  ℕ, suc, ◌≡◌, refl, inl, inr, Bool, true, false, none, some, List, [], ◌∷◌, String, arith, eq_iff,
  ◌==◌, lookup, put, values, lookup-put, is_some, Bool-cases, length, filter, All,
}
use chatgpt_remote_mcp.Errors.{Result, ok, err, >>=-eq-ok}
use chatgpt_remote_mcp.Continuity.{
  WorkCheckpoint, completes, MutationResult, Workspace, TaskRecord, ExecutionRecord,
  completion_checkpoint_conflict,
}
use chatgpt_remote_mcp.Continuity.Tasks.{
  Mutation, CompleteInput, CompletionOutcome, complete, complete_fresh, once, require_active_task,
  is_unresolved, of_task, completed_task, candidate_of, status_of, is_completed_outcome,
}
use chatgpt_remote_mcp.Continuity.Invariant.{is_active, IsConsistent, require_active_task-eq-ok}

-- The conditions and the effect of a completion.
pub record IsCompletion (input : CompleteInput) (blocked : Bool) (w w' : Workspace) : Type 0 where
  pub task : TaskRecord
  pub at : lookup input.task_id w.state.tasks ≡ some task
  pub was_active : is_active task ≡ true
  pub current : (task.revision == input.expected_revision) ≡ true
  pub unblocked : blocked ≡ false
  pub resolved :
      All
        (λ r. of_task input.task_id r ≡ true → is_unresolved input.outcome r ≡ false)
        (values w.executions)
  pub checkpoint_done :
      is_completed_outcome input.outcome ≡ true
      → completion_checkpoint_conflict (candidate_of input task) ≡ false
  pub closed_task : TaskRecord
  pub closed_at : lookup input.task_id w'.state.tasks ≡ some closed_task
  pub closed_status : closed_task.status ≡ status_of input.outcome
  pub closed_revision : closed_task.revision ≡ suc task.revision
  pub none_active : w'.state.active_task_id ≡ none

-- No selected receipt is left by the filter.
filter-none :
    (id : String) (o : CompletionOutcome) (rs : List ExecutionRecord)
    → (length (filter (is_unresolved o) (filter (of_task id) rs)) == 0) ≡ true
    → All (λ r. of_task id r ≡ true → is_unresolved o r ≡ false) rs
filter-none id o [] h = tt
filter-none id o (r ∷ rs) h = elim (Bool-cases (of_task id r)) [
  | inr other ↦ (λ its. cc (its, other), filter-none id o rs (rw other at h))
  | inl its ↦ elim (Bool-cases (is_unresolved o r)) [
    | inr done_with ↦ (λ _. done_with, filter-none id o rs (rw (its, done_with) at h))
    | inl open_still ↦ ground (arith, rw (its, open_still) at h)
  ]
]

complete_fresh-IsCompletion :
    (size : WorkCheckpoint → ℕ) (max_bytes : ℕ) (blocked : Bool) (mu : Mutation)
    (input : CompleteInput) (w w' : Workspace) (result : MutationResult)
    → complete_fresh size max_bytes blocked mu input w ≡ ok (w', result)
    → IsConsistent w.state
    → IsCompletion input blocked w w'
unfolding complete_fresh
complete_fresh-IsCompletion size max_bytes blocked mu input w w' result h c =
    let (task, found, h1) = >>=-eq-ok (require_active_task w.state input.task_id) _ h in
    let (at, on, here) = require_active_task-eq-ok w.state input.task_id found in
    let its_id = c.named input.task_id at in
    let task' = completed_task mu input task in
    let tasks_are : put task.task_id task' w.state.tasks ≡ w'.state.tasks = ground (arith, h1) in
    let put_at : lookup input.task_id (put task.task_id task' w.state.tasks) ≡ some task' =
      rw
        (
          lookup-put task.task_id input.task_id task' w.state.tasks,
          (eq_iff task.task_id input.task_id).1 its_id,
        )
        refl in
    record {
      task = task;
      at = at;
      was_active = on;
      current = ground (arith, h1);
      unblocked = ground (arith, h1);
      resolved = filter-none input.task_id input.outcome (values w.executions) (ground (arith, h1));
      checkpoint_done = λ o. ground (arith, h1, o);
      closed_task = task';
      closed_at = rw tasks_are at put_at;
      closed_status = refl;
      closed_revision = refl;
      none_active = ground (arith, h1);
    }

-- A new request that completes or abandons a task of a consistent workspace finds the task active, at
-- the expected revision, with every execution of it resolved, no approved operation under way and,
-- when it completes the task, a finished checkpoint; it leaves the task closed, one revision later, and
-- no task active.
pub complete-IsCompletion :
    (size : WorkCheckpoint → ℕ) (max_bytes : ℕ) (blocked : Bool) (mu : Mutation)
    (input : CompleteInput) (w : Workspace) {w' : Workspace} {result : MutationResult}
    → IsConsistent w.state
    → lookup mu.request_id w.state.mutation_dedupe ≡ none
    → complete size max_bytes blocked mu input w ≡ (w', ok result)
    → IsCompletion input blocked w w'
unfolding complete
complete-IsCompletion size max_bytes blocked mu input w {w'} {result} c new h =
    elim (Bool-cases (is_some (lookup input.task_id w.state.tasks))) [
      | inr missing ↦ ground (arith, rw (missing, complete) at h)
      | inl known ↦
          go (complete_fresh size max_bytes blocked mu input w) refl (rw (known, complete) at h)
    ]
  where
    go :
        (fresh : Result (Workspace × MutationResult))
        → complete_fresh size max_bytes blocked mu input w ≡ fresh
        → once mu completes w fresh ≡ (w', ok result)
        → IsCompletion input blocked w w'
    go (err e) at k = ground (arith, rw (new, once) at k)
    go (ok (v, r)) at k =
        let same : v ≡ w' = ground (arith, rw (new, once) at k) in
        complete_fresh-IsCompletion size max_bytes blocked mu input w w' r (rw same at at) c
