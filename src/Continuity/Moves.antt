-- ===== src/Continuity/Moves.antt =====
-- The operations on the tasks and executions of one workspace as the moves of a state machine, in any
-- order of calls, and what every move keeps.
use chatgpt_remote_mcp.Base.{
  ℕ, ◌≡◌, refl, inl, inr, Bool, true, false, some, List, [], ◌∷◌, String, arith, Dict, lookup, put,
  lookup-put, is_some, Option-cases, if◌then◌else◌,
}
use chatgpt_remote_mcp.Errors.{Result, ok}
use chatgpt_remote_mcp.Continuity.{
  degraded, WorkCheckpoint, MutationResult, ExecutionRecord, ExecutionReconciliation, Workspace,
  MutationDedupeRecord,
}
use chatgpt_remote_mcp.Continuity.Executions.{
  Step, PrepareInput, ExecutionTerminalObservation, prepare, mark_running, mark_spawn_failed,
  mark_terminal, mark_persistence_degraded, reconcile, write_execution, with_execution,
}
use chatgpt_remote_mcp.Continuity.Tasks.{
  Mutation, CheckpointInput, CompleteInput, create, update, complete, put_all,
}

pub data TaskMove : Type 0 where
  creates_task : ℕ → String → String → CheckpointInput → TaskMove
  updates_task : (String → String → Bool) → ℕ → String → ℕ → CheckpointInput → TaskMove
  completes_task : (WorkCheckpoint → ℕ) → ℕ → Bool → CompleteInput → TaskMove

unfoldable pub apply_task : TaskMove → Mutation → Workspace → Step MutationResult
apply_task (creates_task max_bytes task_id objective input) mu w =
    create max_bytes mu task_id objective input w
apply_task (updates_task before max_bytes task_id revision input) mu w =
    update before max_bytes mu task_id revision input w
apply_task (completes_task size max_bytes blocked input) mu w =
    complete size max_bytes blocked mu input w

pub data Move : Type 0 where
  mutates : TaskMove → Mutation → Move
  prepares : PrepareInput → String → ℕ → Bool → Move
  runs : String → String → ℕ → Bool → Move
  fails : String → String → ℕ → Bool → Move
  ends : String → String → ExecutionTerminalObservation → ℕ → Bool → Move
  degrades : String → Bool → Move
  reconciles : String → ExecutionReconciliation → Bool → Move

unfoldable pub step : Move → Workspace → Workspace
unfolding apply_task
step (mutates mv mu) w = (apply_task mv mu w).0
step (prepares input boot_id now written) w = (prepare input boot_id now written w).0
step (runs id session_id now written) w = (mark_running id session_id now written w).0
step (fails id error_code now written) w = (mark_spawn_failed id error_code now written w).0
step (ends boot_id id o now written) w = (mark_terminal boot_id id o now written w).0
step (degrades id written) w = mark_persistence_degraded id written w
step (reconciles task_id c written) w = (reconcile task_id c written w).0

unfoldable pub run : List Move → Workspace → Workspace
unfolding step
run [] w = w
run (m ∷ ms) w = run ms (step m w)

abbrev pub Has {ℓ} : {V : Type ℓ} → String → Dict V → Type 0
Has k d = is_some (lookup k d) ≡ true

-- What is never lost: receipts, tasks and the results of past requests.
pub record Keeps (w w' : Workspace) : Type 0 where
  pub receipts : (id : String) → Has id w.executions → Has id w'.executions
  pub tasks : (id : String) → Has id w.state.tasks → Has id w'.state.tasks
  pub results :
      (id : String) {d : MutationDedupeRecord}
      → lookup id w.state.mutation_dedupe ≡ some d
      → lookup id w'.state.mutation_dedupe ≡ some d

pub Keeps-refl : (w : Workspace) → Keeps w w
Keeps-refl w = record { receipts = λ id h. h; tasks = λ id h. h; results = λ id h. h }

pub Keeps-trans : {a b c : Workspace} → Keeps a b → Keeps b c → Keeps a c
Keeps-trans f g = record {
  receipts = λ id h. g.receipts id (f.receipts id h);
  tasks = λ id h. g.tasks id (f.tasks id h);
  results = λ id h. g.results id (f.results id h);
}

pub Has-put {ℓ} :
    {V : Type ℓ} (k : String) (v : V) (d : Dict V) (j : String) → Has j d → Has j (put k v d)
Has-put k v d j h = rw (lookup-put k j v d) (ground (arith, h))

pub Has-put_all :
    (rs : List ExecutionRecord) (d : Dict ExecutionRecord) (j : String)
    → Has j d
    → Has j (put_all rs d)
Has-put_all [] d j h = h
Has-put_all (r ∷ rs) d j h =
    Has-put_all rs (put r.operation_id r d) j (Has-put r.operation_id r d j h)

-- A step on the receipts: it loses nothing and leaves the tasks alone.
pub record IsKeeping {ℓ} {A : Type ℓ} (w : Workspace) (s : Step A) : Type 0 where
  pub keeps : Keeps w s.0
  pub unchanged : s.0.state ≡ w.state

pub stays {ℓ} : {A : Type ℓ} (w : Workspace) (r : Result A) → IsKeeping {A = A} w (w, r)
stays w r = record { keeps = Keeps-refl w; unchanged = refl }

-- Writing a receipt loses none.
write_execution-IsKeeping {ℓ} :
    {A : Type ℓ} (r : ExecutionRecord) (a : A) (written : Bool) (w : Workspace)
    → IsKeeping w (write_execution r a written w)
write_execution-IsKeeping r a false w = stays w _
write_execution-IsKeeping r a true w = record {
  keeps = record {
    receipts = λ id h. Has-put r.operation_id r w.executions id h;
    tasks = λ id h. h;
    results = λ id h. h;
  };
  unchanged = refl;
}

-- A test with both outcomes kept.
either-IsKeeping {ℓ} :
    {A : Type ℓ} (b : Bool) (w : Workspace) {x y : Step A}
    → IsKeeping w x
    → IsKeeping w y
    → IsKeeping w (if b then x else y)
either-IsKeeping true w f g = f
either-IsKeeping false w f g = g

with_execution-IsKeeping {ℓ} :
    {A : Type ℓ} (id : String) (f : ExecutionRecord → Step A) (w : Workspace)
    → ((r : ExecutionRecord) → IsKeeping w (f r))
    → IsKeeping w (with_execution id f w)
with_execution-IsKeeping id f w h = elim (Option-cases (lookup id w.executions)) [
  | inl missing ↦ rw (missing, with_execution) (stays w _)
  | inr (r, e) ↦ rw (e, with_execution) (h r)
]

ruleset keeping = (either-IsKeeping, stays, write_execution-IsKeeping)

pub prepare-IsKeeping :
    (input : PrepareInput) (boot_id : String) (now : ℕ) (written : Bool) (w : Workspace)
    → IsKeeping w (prepare input boot_id now written w)
unfolding prepare
prepare-IsKeeping input boot_id now written w =
    elim (Option-cases (lookup input.task_id w.state.tasks)) [
      | inl missing ↦ rw (missing, prepare) (stays w _)
      | inr (task, known) ↦ elim (Option-cases (lookup input.operation_id w.executions)) [
        | inl new ↦ rw (known, new, prepare) (search keeping)
        | inr (r, e) ↦ rw (known, e, prepare) (search keeping)
      ]
    ]

pub mark_running-IsKeeping :
    (id session_id : String) (now : ℕ) (written : Bool) (w : Workspace)
    → IsKeeping w (mark_running id session_id now written w)
unfolding mark_running
mark_running-IsKeeping id session_id now written w =
    with_execution-IsKeeping id _ w λ r. search keeping

pub mark_spawn_failed-IsKeeping :
    (id error_code : String) (now : ℕ) (written : Bool) (w : Workspace)
    → IsKeeping w (mark_spawn_failed id error_code now written w)
unfolding mark_spawn_failed
mark_spawn_failed-IsKeeping id error_code now written w =
    with_execution-IsKeeping id _ w λ r. search keeping

pub mark_terminal-IsKeeping :
    (boot_id id : String) (o : ExecutionTerminalObservation) (now : ℕ) (written : Bool)
    (w : Workspace)
    → IsKeeping w (mark_terminal boot_id id o now written w)
unfolding mark_terminal
mark_terminal-IsKeeping boot_id id o now written w =
    with_execution-IsKeeping id _ w λ r. search keeping

pub reconcile-IsKeeping :
    (task_id : String) (c : ExecutionReconciliation) (written : Bool) (w : Workspace)
    → IsKeeping w (reconcile task_id c written w)
unfolding reconcile
reconcile-IsKeeping task_id c written w = with_execution-IsKeeping c.operation_id _ w λ r.
    elim (Option-cases r.caller_resolution) [
      | inl unresolved ↦ rw unresolved (search keeping)
      | inr (previous, e) ↦ rw e (search keeping)
    ]

pub mark_persistence_degraded-IsKeeping :
    (id : String) (written : Bool) (w : Workspace)
    → IsKeeping {A = Unit {0}} w (mark_persistence_degraded id written w, ok tt)
unfolding mark_persistence_degraded
mark_persistence_degraded-IsKeeping id written w = elim (Option-cases (lookup id w.executions)) [
  | inl missing ↦ rw (missing, mark_persistence_degraded) (stays w _)
  | inr (r, e) ↦
      let wrote =
        write_execution-IsKeeping (record r { persistence_state = degraded }) tt written w in
      rw (e, mark_persistence_degraded)
        (record { keeps = wrote.keeps; unchanged = wrote.unchanged })
]
