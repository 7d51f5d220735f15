-- ===== src/Approval/Ledger.antt =====
-- src/operator-approval.ts: what each operation does to the records of the ledger.
pub mod Transitions
pub mod SingleUse
pub mod Exclusive
pub mod Safety
use chatgpt_remote_mcp.Base.{
  ℕ, ◌+◌, ◌*◌, Bool, true, false, ◌&&◌, ◌||◌, not, Option, none, some, List, [], ◌∷◌, ◌++◌, String,
  str_eq, leb, if◌then◌else◌, length, any, find, is_some,
}
use chatgpt_remote_mcp.Errors.{
  ToolError, Result, ok, err, ◌>>=◌, ◌>>◌, guard, or_throw, approval_not_found,
  idempotency_conflict, storage_full, approval_not_pending, approval_already_consumed,
  approval_required, approval_unresolved_execution,
}
use chatgpt_remote_mcp.Approval.{
  ApprovalRecord, Status, pending, approved, denied, executing, succeeded, unknown, Outcome,
  execution_start_uncertain, execution_not_verified, printed, max_records,
}

pub record ApprovalInput : Type 0 where
  pub task_id : String
  pub request_id : String
  pub cwd : String
  pub source_project_id : String
  pub legacy_project_id : String
  pub reason : String

-- What `request` finds out about the workspace and the Kernel before it writes.
pub record Binding : Type 0 where
  pub kernel_cwd : String
  pub workspace_id : String
  pub kernel_home : String
  pub kernel_cli : String
  pub kernel_digest : String
  pub identity_digest : String

pub data Decision : Type 0 where
  approve deny : Decision

abbrev pub same_status : Status → Status → Bool
same_status pending pending = true
same_status approved approved = true
same_status denied denied = true
same_status executing executing = true
same_status succeeded succeeded = true
same_status unknown unknown = true
same_status _ _ = false

abbrev pub is_expired : ℕ → ApprovalRecord → Bool
is_expired now r = leb r.expires_at now

-- `["executing", "unknown"].includes(r.status)`.
abbrev pub is_unresolved : ApprovalRecord → Bool
is_unresolved r = elim r.status [ executing ↦ true | unknown ↦ true | _ ↦ false ]

abbrev pub has_id : String → Option String → ApprovalRecord → Bool
has_id id owner r = str_eq r.id id && elim owner [ none ↦ true | some o ↦ str_eq r.owner o ]

pub find_record : List ApprovalRecord → String → Option String → Result ApprovalRecord
find_record records id owner = or_throw (find (has_id id owner) records) approval_not_found

-- Writing to the record that `find` returned.
abbrev pub modify :
    (ApprovalRecord → Bool)
    → (ApprovalRecord → ApprovalRecord)
    → List ApprovalRecord
    → List ApprovalRecord
modify p f [] = []
modify p f (r ∷ rs) = if p r then f r ∷ rs else r ∷ modify p f rs

abbrev pub is_request : String → String → ApprovalRecord → Bool
is_request owner request_id r = str_eq r.owner owner && str_eq r.request_id request_id

-- The record that `request` makes.
abbrev pub new_record :
    ApprovalInput → Binding → String → String → String → String → ℕ → ℕ → ApprovalRecord
new_record input b owner input_digest id view_token now ttl_seconds = record {
  id = id;
  request_id = input.request_id;
  owner = owner;
  input_digest = input_digest;
  task_id = input.task_id;
  workspace_id = b.workspace_id;
  cwd = b.kernel_cwd;
  reason = input.reason;
  source_project_id = input.source_project_id;
  legacy_project_id = input.legacy_project_id;
  kernel_home = b.kernel_home;
  kernel_cli = b.kernel_cli;
  kernel_digest = b.kernel_digest;
  identity_digest = b.identity_digest;
  view_token = view_token;
  created_at = now;
  expires_at = now + ttl_seconds * 1000;
  status = pending;
  approval_ref = none;
  approved_at = none;
  decided = false;
  operation_id = none;
  session_id = none;
  finished_at = none;
  result = none;
}

-- The mutation of `request`: the record is added unless a concurrent call added it.
unfoldable pub add_request :
    ApprovalRecord → List ApprovalRecord → Result (List ApprovalRecord × ApprovalRecord)
add_request new records = elim (find (is_request new.owner new.request_id) records) [
  | some raced ↦
      if str_eq raced.input_digest new.input_digest
      then ok (records, raced)
      else err idempotency_conflict
  | none ↦
      if leb max_records (length records) then err storage_full else ok (records ++ new ∷ [], new)
]

abbrev pub decided_status : Decision → Status
decided_status approve = approved
decided_status deny = denied

-- What a decision writes; `ref` is the new approval reference.
abbrev pub write_decision : Decision → ℕ → String → ApprovalRecord → ApprovalRecord
write_decision approve now ref r = record r {
  status = approved;
  decided = true;
  approval_ref = some ref;
  approved_at = some now;
}
write_decision deny now ref r = record r { status = denied; decided = true }

-- The mutation of `decide`.
unfoldable pub decide_records :
    String → Decision → ℕ → String → List ApprovalRecord → Result (List ApprovalRecord × Unit {0})
unfolding find_record
decide_records id decision now ref records = do
  found ← find_record records id none
  if same_status found.status (decided_status decision)
      then ok (records, tt)
      else if not (same_status found.status pending) || is_expired now found
      then err approval_not_pending
      else ok (modify (has_id id none) (write_decision decision now ref) records, tt)

-- Another record of the same workspace or directory whose execution is not resolved.
abbrev pub conflicts_with : ApprovalRecord → ApprovalRecord → Bool
conflicts_with target r =
    not (str_eq r.id target.id)
    && (str_eq r.workspace_id target.workspace_id || str_eq r.cwd target.cwd)
    && is_unresolved r

abbrev pub is_operation : String → ApprovalRecord → Bool
is_operation operation_id r = elim r.operation_id [ none ↦ false | some o ↦ str_eq o operation_id ]

abbrev pub write_reservation : String → ApprovalRecord → ApprovalRecord
write_reservation operation_id r = record r { status = executing; operation_id = some operation_id }

-- The mutation of `executeLocked` that consumes the approval; the flag says whether to start.
unfoldable pub reserve :
    String
    → String
    → String
    → ℕ
    → List ApprovalRecord
    → Result (List ApprovalRecord × (ApprovalRecord × Bool))
unfolding find_record
reserve id owner operation_id now records = do
  found ← find_record records id (some owner)
  elim found.operation_id [
    | some o ↦
        if str_eq o operation_id
        then ok (records, (found, false))
        else err approval_already_consumed
    | none ↦ do
      guard
          (same_status found.status approved
            && not (is_expired now found)
            && is_some found.approval_ref)
          approval_required
      guard (not (any (conflicts_with found) records)) approval_unresolved_execution
      guard (not (any (is_operation operation_id) records)) idempotency_conflict
      ok (
        modify (has_id id (some owner)) (write_reservation operation_id) records,
        (write_reservation operation_id found, true),
      )
  ]

-- A mutation that finds a record and writes to it.
pub write_found :
    String
    → (ApprovalRecord → ApprovalRecord)
    → List ApprovalRecord
    → Result (List ApprovalRecord × Unit {0})
unfolding find_record
write_found id f records = do
  _ ← find_record records id none
  ok (modify (has_id id none) f records, tt)

-- The two mutations after the start of the process.
unfoldable pub set_session :
    String → String → List ApprovalRecord → Result (List ApprovalRecord × Unit {0})
unfolding write_found
set_session id session_id = write_found id (λ r. record r { session_id = some session_id })

pub mark_uncertain : String → List ApprovalRecord → Result (List ApprovalRecord × Unit {0})
unfolding write_found
mark_uncertain id =
    write_found id (λ r. record r { status = unknown; result = some execution_start_uncertain })

-- The mutation of `finish`.
abbrev pub write_end : Bool → ℕ → String → Outcome → ApprovalRecord → ApprovalRecord
write_end success ended_at session_id outcome r = record r {
  status = if success then succeeded else unknown;
  finished_at = some ended_at;
  session_id = some session_id;
  result = some outcome;
}

unfoldable pub finish_records :
    String
    → Bool
    → ℕ
    → String
    → Outcome
    → List ApprovalRecord
    → Result (List ApprovalRecord × Unit {0})
unfolding write_found
finish_records id success ended_at session_id outcome =
    write_found id (write_end success ended_at session_id outcome)
