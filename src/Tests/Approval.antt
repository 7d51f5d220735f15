-- ===== src/Tests/Approval.antt =====
-- The ledger over the life of one approval.
use chatgpt_remote_mcp.Base.{◌≡◌, ◌≢◌, refl, true, false, none, some, List, [], ◌∷◌, arith}
use chatgpt_remote_mcp.Errors.{ok}
use chatgpt_remote_mcp.Approval.{ApprovalRecord, pending, approved, denied, printed}
use chatgpt_remote_mcp.Approval.Ledger.{
  approve, reserve, add_request, decide_records, set_session, write_reservation,
}
use chatgpt_remote_mcp.Approval.Ledger.Transitions.{
  Mutation, adds, decides, reserves, sets_session, finishes, apply, apply_all,
}
use chatgpt_remote_mcp.Approval.Ledger.SingleUse.{reserve-once, reserve-closed}
use chatgpt_remote_mcp.Approval.Ledger.Exclusive.{IsSafe}
use chatgpt_remote_mcp.Approval.Ledger.Safety.{ArePossible, apply_all-IsSafe}

abbrev asked : ApprovalRecord
asked = record {
  id = "a1";
  request_id = "r1";
  owner = "o1";
  input_digest = "d1";
  task_id = "t1";
  workspace_id = "w1";
  cwd = "/w1";
  reason = "review";
  source_project_id = "p1";
  legacy_project_id = "p0";
  kernel_home = "/k";
  kernel_cli = "/k/cli";
  kernel_digest = "k1";
  identity_digest = "i1";
  view_token = "v1";
  created_at = 0;
  expires_at = 100;
  status = pending;
  approval_ref = none;
  approved_at = none;
  decided = false;
  operation_id = none;
  session_id = none;
  finished_at = none;
  result = none;
}

abbrev life : List Mutation
life =
    adds asked
    ∷ decides "a1" approve 1 "ref1"
    ∷ reserves "a1" "o1" "op1" 2
    ∷ sets_session "a1" "s1"
    ∷ finishes "a1" true 9 "s1" (printed none)
    ∷ []

empty-IsSafe : IsSafe []
empty-IsSafe = record { sound = tt; exclusive = tt; distinct = tt }

life_possible : ArePossible life []
unfolding apply add_request decide_records reserve set_session
life_possible = (((refl, refl, refl), tt), (tt, (tt, (tt, ((λ r e. ground (arith, e)), tt)))))

apply_all-IsSafe_example : IsSafe (apply_all life [])
apply_all-IsSafe_example = apply_all-IsSafe life [] life_possible empty-IsSafe

abbrev allowed : ApprovalRecord
allowed = record asked {
  status = approved;
  decided = true;
  approval_ref = some "ref1";
  approved_at = some 1;
}

abbrev started : ApprovalRecord
started = write_reservation "op1" allowed

allowed_starts : reserve "a1" "o1" "op1" 2 (allowed ∷ []) ≡ ok (started ∷ [], (started, true))
unfolding reserve
allowed_starts = refl

reserve-once_example :
    reserve "a1" "o1" "op2" 10
      (apply_all (finishes "a1" false 9 "s1" (printed none) ∷ []) (started ∷ []))
    ≢ ok (started ∷ [], (started, true))
reserve-once_example =
    reserve-once "a1" "o1" "op1" 2 (allowed ∷ []) allowed_starts
      (finishes "a1" false 9 "s1" (printed none) ∷ []) "op2" 10

abbrev refused : ApprovalRecord
refused = record asked { status = denied; decided = true }

reserve-closed_example :
    reserve "a1" "o1" "op1" 5 (apply_all (decides "a1" approve 3 "ref2" ∷ []) (refused ∷ []))
    ≢ ok (started ∷ [], (started, true))
reserve-closed_example =
    reserve-closed "a1" "o1" (refused ∷ []) refl (refl, refl, refl)
      (decides "a1" approve 3 "ref2" ∷ []) "op1" 5
