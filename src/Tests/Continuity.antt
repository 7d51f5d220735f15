-- ===== src/Tests/Continuity.antt =====
-- A workspace with one task and one execution.
use chatgpt_remote_mcp.Base.{some, lookup, ℕ, ◌≡◌, refl, true, false, none, [], ◌∷◌}
use chatgpt_remote_mcp.Errors.{ok}
use chatgpt_remote_mcp.Continuity.{
  abandoned, Workspace, active, MutationResult, WorkspaceIdentityRecord, exec_command,
  ExecutionRecord,
}
use chatgpt_remote_mcp.Continuity.Executions.{
  PrepareInput, ExecutionPreparation, prepare, new_execution,
}
use chatgpt_remote_mcp.Continuity.Tasks.{
  CompleteInput, as_abandoned, complete, Mutation, CheckpointInput, create,
}
use chatgpt_remote_mcp.Continuity.Moves.{
  step, TaskMove, creates_task, apply_task, prepares, runs, mutates, run,
}
use chatgpt_remote_mcp.Continuity.Retry.{apply_task-retry}
use chatgpt_remote_mcp.Continuity.Once.{prepare-once}
use chatgpt_remote_mcp.Continuity.Completion.{IsCompletion, complete-IsCompletion}
use chatgpt_remote_mcp.Continuity.Invariant.{IsConsistent, run-IsConsistent}

abbrev identity : WorkspaceIdentityRecord
identity = record {
  workspace_id = "w1";
  execution_root = "/w1";
  git_root = none;
  git_common_dir = none;
  worktree_identity = "w1";
  repository = false;
}

abbrev empty : Workspace
empty = record {
  state = record {
    workspace = identity;
    workspace_revision = 0;
    active_task_id = none;
    tasks = [];
    mutation_dedupe = [];
  };
  executions = [];
}

abbrev first_checkpoint : CheckpointInput
first_checkpoint = record {
  checkpoint = record {
    phase = "start";
    done = [];
    current = 65 ∷ [];
    remaining = [];
    changed_paths = [];
    evidence_refs = [];
    blockers = [];
    execution_reconciliations = none;
  };
  bytes = 90;
}

abbrev creation : TaskMove
creation = creates_task 1000 "t1" "build" first_checkpoint

abbrev request : ℕ → Mutation
request now = record {
  request_id = "r1";
  input_hmac = "h1";
  observation = record { observed_at = now; fingerprint = "f1" };
  identity = identity;
  now = now;
  written = true;
}

abbrev created : Workspace
created = (apply_task creation (request 5) empty).0

abbrev creation_result : MutationResult
creation_result = record {
  task_id = "t1";
  workspace_id = "w1";
  revision = 1;
  workspace_revision = 1;
  status = active;
  unresolved_unknown = none;
}

creation_succeeds : apply_task creation (request 5) empty ≡ (created, ok creation_result)
unfolding apply_task create
creation_succeeds = refl

abbrev build_input : PrepareInput
build_input = record {
  task_id = "t1";
  operation_id = "op1";
  tool_kind = exec_command;
  input_hmac = "h2";
}

apply_task-retry_example :
    apply_task creation (request 8) (run (prepares build_input "b1" 6 true ∷ []) created)
    ≡ (run (prepares build_input "b1" 6 true ∷ []) created, ok creation_result)
apply_task-retry_example =
    apply_task-retry creation (request 5) (request 8) empty creation_succeeds refl refl
      (prepares build_input "b1" 6 true ∷ [])

abbrev build : ExecutionRecord
build = new_execution build_input "w1" "b1" 6

abbrev first_preparation : ExecutionPreparation
first_preparation = record { receipt_of = build; should_spawn = true }

abbrev second_preparation : ExecutionPreparation
second_preparation = record { receipt_of = build; should_spawn = false }

abbrev prepared_build : Workspace
prepared_build = (prepare build_input "b1" 6 true created).0

build_prepared : prepare build_input "b1" 6 true created ≡ (prepared_build, ok first_preparation)
unfolding prepare apply_task create
build_prepared = refl

build_prepared_again :
    prepare build_input "b1" 9 true (run [] prepared_build)
    ≡ (run [] prepared_build, ok second_preparation)
unfolding prepare apply_task create run
build_prepared_again = refl

prepare-once_example : second_preparation.should_spawn ≡ false
prepare-once_example =
    prepare-once build_input build_input "b1" "b1" 6 9 true true created build_prepared [] refl
      build_prepared_again

empty-IsConsistent : IsConsistent empty.state
empty-IsConsistent = record {
  named = λ id h. cc h;
  active_known = λ id h. cc h;
  only_active = λ id h on. cc h;
}

run-IsConsistent_example :
    IsConsistent (run (mutates creation (request 5) ∷ runs "op1" "s1" 7 true ∷ []) empty).state
run-IsConsistent_example =
    run-IsConsistent (mutates creation (request 5) ∷ runs "op1" "s1" 7 true ∷ []) empty
      empty-IsConsistent

created-IsConsistent : IsConsistent created.state
unfolding run step
created-IsConsistent = run-IsConsistent (mutates creation (request 5) ∷ []) empty empty-IsConsistent

abbrev give_up : CompleteInput
give_up = record {
  task_id = "t1";
  expected_revision = 1;
  outcome = as_abandoned;
  summary = "stopped";
  evidence_refs = [];
  final_checkpoint = none;
}

abbrev second_request : Mutation
second_request = record (request 9) { request_id = "r2"; input_hmac = "h3" }

abbrev given_up : Workspace
given_up = (complete (λ c. 90) 1000 false second_request give_up created).0

abbrev given_up_result : MutationResult
given_up_result = record {
  task_id = "t1";
  workspace_id = "w1";
  revision = 2;
  workspace_revision = 2;
  status = abandoned;
  unresolved_unknown = some [];
}

giving_up_succeeds :
    complete (λ c. 90) 1000 false second_request give_up created ≡ (given_up, ok given_up_result)
unfolding apply_task create complete
giving_up_succeeds = refl

second_request_is_new : lookup "r2" created.state.mutation_dedupe ≡ none
unfolding apply_task create
second_request_is_new = refl

complete-IsCompletion_example : IsCompletion give_up false created given_up
complete-IsCompletion_example =
    complete-IsCompletion (λ c. 90) 1000 false second_request give_up created created-IsConsistent
      second_request_is_new giving_up_succeeds
