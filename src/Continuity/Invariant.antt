-- ===== src/Continuity/Invariant.antt =====
-- src/continuity/task-service.ts: a workspace has at most one active task, the one that it names.
use chatgpt_remote_mcp.Base.{
  ℕ, ◌≡◌, refl, sym, inl, inr, Bool, true, not, Option, none, some, List, [], ◌∷◌, String, arith,
  str_eq, eq_iff, lookup, lookup-put, is_some, Bool-cases, Option-cases, if◌then◌else◌,
}
use chatgpt_remote_mcp.Errors.{Result, ok, err, >>=-eq-ok, guard, guard-eq-ok}
use chatgpt_remote_mcp.Continuity.{
  active, WorkCheckpoint, MutationKind, creates, updates, completes, MutationResult, WorkspaceState,
  Workspace, TaskRecord, same_status,
}
use chatgpt_remote_mcp.Continuity.Tasks.{
  Mutation, CheckpointInput, CompleteInput, CompletionOutcome, as_completed, as_abandoned, create,
  update, complete, create_fresh, update_fresh, complete_fresh, once, require_active_task,
  record_mutation, new_task, updated_task, completed_task, result_of, status_of,
}
use chatgpt_remote_mcp.Continuity.Moves.{
  TaskMove, creates_task, updates_task, completes_task, apply_task, Move, mutates, prepares, runs,
  fails, ends, degrades, reconciles, step, run, prepare-IsKeeping, mark_running-IsKeeping,
  mark_spawn_failed-IsKeeping, mark_terminal-IsKeeping, reconcile-IsKeeping,
  mark_persistence_degraded-IsKeeping,
}

abbrev pub is_active : TaskRecord → Bool
is_active t = same_status t.status active

pub record IsConsistent (s : WorkspaceState) : Type 0 where
  pub named : (id : String) {t : TaskRecord} → lookup id s.tasks ≡ some t → t.task_id ≡ id
  pub active_known :
      (id : String)
      → s.active_task_id ≡ some id
      → (t : TaskRecord) × (lookup id s.tasks ≡ some t) × (is_active t ≡ true)
  pub only_active :
      (id : String) {t : TaskRecord}
      → lookup id s.tasks ≡ some t
      → is_active t ≡ true
      → s.active_task_id ≡ some id

-- The write of a mutation when no other task is active.
record_mutation-IsConsistent :
    (mu : Mutation) (kind : MutationKind) (chosen : Option String) (task : TaskRecord)
    (result : MutationResult) (s : WorkspaceState)
    → IsConsistent s
    → ((id : String) (t : TaskRecord)
        → lookup id s.tasks ≡ some t
        → is_active t ≡ true
        → id ≡ task.task_id)
    → chosen ≡ (if is_active task then some task.task_id else none)
    → IsConsistent (record_mutation mu kind chosen task result s)
record_mutation-IsConsistent mu kind chosen task result s c others e = record {
  named = λ id {t} h.
      let found = rw (lookup-put task.task_id id task s.tasks) at h in
      elim (Bool-cases (str_eq task.task_id id)) [
        | inl same ↦
            let it_is : task ≡ t = ground (arith, same, found) in
            let its_id : task.task_id ≡ id = (eq_iff task.task_id id).0 same in rw it_is at its_id
        | inr different ↦ c.named id (rw different at found)
      ];
  active_known = λ id h. elim (Bool-cases (is_active task)) [
    | inl on ↦
        let its_id : task.task_id ≡ id = ground (arith, e, on, h) in
        (
          task,
          rw (lookup-put task.task_id id task s.tasks, (eq_iff task.task_id id).1 its_id) refl,
          on,
        )
    | inr off ↦ ground (arith, e, off, h)
  ];
  only_active = λ id {t} h on.
      let found = rw (lookup-put task.task_id id task s.tasks) at h in
      elim (Bool-cases (str_eq task.task_id id)) [
        | inl same ↦
            let it_is : task ≡ t = ground (arith, same, found) in
            let still : is_active task ≡ true = rw it_is on in
            let its_id : task.task_id ≡ id = (eq_iff task.task_id id).0 same in
            ground (arith, e, still, its_id)
        | inr different ↦
            let its_id : id ≡ task.task_id = others id t (rw different at found) on in
            let same : str_eq task.task_id id ≡ true = (eq_iff task.task_id id).1 (sym its_id) in
            cc (same, different)
      ];
}

pub require_active_task-eq-ok :
    (s : WorkspaceState) (id : String) {t : TaskRecord}
    → require_active_task s id ≡ ok t
    → (lookup id s.tasks ≡ some t) × (is_active t ≡ true) × (s.active_task_id ≡ some id)
require_active_task-eq-ok s id {t} h = elim (Option-cases (lookup id s.tasks)) [
  | inl missing ↦ ground (arith, rw (missing, require_active_task) at h)
  | inr (u, e) ↦ elim (Option-cases s.active_task_id) [
    | inl none_active ↦ ground (arith, rw (e, none_active, require_active_task) at h)
    | inr (a, at) ↦
        let h' = rw (e, at, require_active_task) at h in
        let same : u ≡ t = ground (arith, h') in
        let on : is_active t ≡ true = ground (arith, h') in
        let here : a ≡ id = ground (arith, h', eq_iff a id) in (rw same at e, on, rw here at at)
  ]
]

create_fresh-IsConsistent :
    (mu : Mutation) (task_id objective : String) (input : CheckpointInput) (w w' : Workspace)
    (result : MutationResult)
    → create_fresh mu task_id objective input w ≡ ok (w', result)
    → IsConsistent w.state
    → IsConsistent w'.state
unfolding create_fresh
create_fresh-IsConsistent mu task_id objective input w w' result h c =
    let (u, free, e) = >>=-eq-ok (guard (not (is_some w.state.active_task_id)) _) _ h in
    let task = new_task mu task_id objective input in
    let state = record w.state { workspace = mu.identity } in
    let state_is : record_mutation mu creates (some task_id) task (result_of state task none) state
        ≡ w'.state =
      ground (arith, e) in
    rw state_is at (
      record_mutation-IsConsistent mu creates (some task_id) task (result_of state task none) state
        (record { named = c.named; active_known = c.active_known; only_active = c.only_active })
        (λ id t at on. let a = c.only_active id at on in cc (rw a at (guard-eq-ok _ _ free))) refl)

update_fresh-IsConsistent :
    (before : String → String → Bool) (mu : Mutation) (task_id : String) (revision : ℕ)
    (input : CheckpointInput) (w w' : Workspace) (result : MutationResult)
    → update_fresh before mu task_id revision input w ≡ ok (w', result)
    → IsConsistent w.state
    → IsConsistent w'.state
unfolding update_fresh
update_fresh-IsConsistent before mu task_id revision input w w' result h c =
    let (task, found, h1) = >>=-eq-ok (require_active_task w.state task_id) _ h in
    let (at, on, here) = require_active_task-eq-ok w.state task_id found in
    let its_id = c.named task_id at in
    let task' = updated_task mu input task in
    let state_is : record_mutation mu updates w.state.active_task_id task'
          (result_of w.state task' none) w.state
        ≡ w'.state =
      ground (arith, h1) in
    rw state_is at (
      record_mutation-IsConsistent mu updates w.state.active_task_id task'
        (result_of w.state task' none) w.state c
        (λ id t at' on'. ground (arith, c.only_active id at' on', here, its_id))
        (ground (arith, on, here, its_id)))

complete_fresh-IsConsistent :
    (size : WorkCheckpoint → ℕ) (max_bytes : ℕ) (blocked : Bool) (mu : Mutation)
    (input : CompleteInput) (w w' : Workspace) (result : MutationResult)
    → complete_fresh size max_bytes blocked mu input w ≡ ok (w', result)
    → IsConsistent w.state
    → IsConsistent w'.state
unfolding complete_fresh
complete_fresh-IsConsistent size max_bytes blocked mu input w w' result h c =
    let (task, found, h1) = >>=-eq-ok (require_active_task w.state input.task_id) _ h in
    let (at, on, here) = require_active_task-eq-ok w.state input.task_id found in
    let its_id = c.named input.task_id at in
    let task' = completed_task mu input task in
    let state_is : w'.state ≡ record_mutation mu completes none task' result w.state =
      ground (arith, h1) in
    rw (sym state_is) at (
      record_mutation-IsConsistent mu completes none task' result w.state c
        (λ id t at' on'. ground (arith, c.only_active id at' on', here, its_id))
        (sym (closed input.outcome task.task_id)))
  where
    closed :
        (o : CompletionOutcome) (id : String)
        → (if same_status (status_of o) active then some id else none) ≡ none
    closed as_completed id = refl
    closed as_abandoned id = refl

once-IsConsistent :
    (mu : Mutation) (kind : MutationKind) (w : Workspace)
    (fresh : Result (Workspace × MutationResult))
    → IsConsistent w.state
    → ((w' : Workspace) (result : MutationResult) → fresh ≡ ok (w', result) → IsConsistent w'.state)
    → IsConsistent (once mu kind w fresh).0.state
once-IsConsistent mu kind w (err e) c h = ground (arith, c)
once-IsConsistent mu kind w (ok (w', result)) c h = ground (arith, c, h w' result refl)

apply_task-IsConsistent :
    (mv : TaskMove) (mu : Mutation) (w : Workspace)
    → IsConsistent w.state
    → IsConsistent (apply_task mv mu w).0.state
unfolding apply_task create update complete
apply_task-IsConsistent (creates_task max_bytes task_id objective input) mu w c = ground (
  arith,
  c,
  once-IsConsistent mu creates w (create_fresh mu task_id objective input w) c
      (λ w' r e. create_fresh-IsConsistent mu task_id objective input w w' r e c),
)
apply_task-IsConsistent (updates_task before max_bytes task_id revision input) mu w c = ground (
  arith,
  c,
  once-IsConsistent mu updates w (update_fresh before mu task_id revision input w) c
      (λ w' r e. update_fresh-IsConsistent before mu task_id revision input w w' r e c),
)
apply_task-IsConsistent (completes_task size max_bytes blocked input) mu w c = ground (
  arith,
  c,
  once-IsConsistent mu completes w (complete_fresh size max_bytes blocked mu input w) c
      (λ w' r e. complete_fresh-IsConsistent size max_bytes blocked mu input w w' r e c),
)

step-IsConsistent :
    (m : Move) (w : Workspace) → IsConsistent w.state → IsConsistent (step m w).state
unfolding step
step-IsConsistent (mutates mv mu) w c = apply_task-IsConsistent mv mu w c
step-IsConsistent (prepares input boot_id now written) w c =
    rw (prepare-IsKeeping input boot_id now written w).unchanged c
step-IsConsistent (runs id session_id now written) w c =
    rw (mark_running-IsKeeping id session_id now written w).unchanged c
step-IsConsistent (fails id error_code now written) w c =
    rw (mark_spawn_failed-IsKeeping id error_code now written w).unchanged c
step-IsConsistent (ends boot_id id o now written) w c =
    rw (mark_terminal-IsKeeping boot_id id o now written w).unchanged c
step-IsConsistent (degrades id written) w c =
    rw (mark_persistence_degraded-IsKeeping id written w).unchanged c
step-IsConsistent (reconciles task_id r written) w c =
    rw (reconcile-IsKeeping task_id r written w).unchanged c

-- From a consistent workspace, a new one for example, whatever operations run on its tasks and
-- executions, in any order and with any failure to write, every task stays under its own id, and the
-- task that the workspace names is its one active task.
pub run-IsConsistent :
    (ms : List Move) (w : Workspace) → IsConsistent w.state → IsConsistent (run ms w).state
unfolding run
run-IsConsistent [] w c = c
run-IsConsistent (m ∷ ms) w c = run-IsConsistent ms (step m w) (step-IsConsistent m w c)
