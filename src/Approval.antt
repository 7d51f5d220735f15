-- ===== src/Approval.antt =====
-- src/operator-approval-store.ts: the ledger of approval requests, one bounded signed file with one
-- writer. File operations enter as their outcome: whether the new file was written.
pub mod Ledger
pub mod Service
use chatgpt_remote_mcp.Base.{
  ℕ, Bool, true, false, ◌&&◌, ◌||◌, not, Option, none, some, List, [], ◌∷◌, String, str_eq, ltb,
  leb, if◌then◌else◌, length, map, mem,
}
use chatgpt_remote_mcp.Errors.{
  ToolError, Result, ok, err, invalid_state, persistence_unavailable, other,
}

pub data Status : Type 0 where
  pending approved denied executing succeeded unknown : Status

-- The `code`s that the service writes, or what the worker printed.
pub data Outcome : Type 0 where
  execution_interrupted execution_start_uncertain execution_not_verified : Outcome
  printed : Option String → Outcome

-- `operation` and `decidedBy` have one value each, so `decided` says whether the latter is there.
pub record ApprovalRecord : Type 0 where
  pub id : String
  pub request_id : String
  pub owner : String
  pub input_digest : String
  pub task_id : String
  pub workspace_id : String
  pub cwd : String
  pub reason : String
  pub source_project_id : String
  pub legacy_project_id : String
  pub kernel_home : String
  pub kernel_cli : String
  pub kernel_digest : String
  pub identity_digest : String
  pub view_token : String
  pub created_at : ℕ
  pub expires_at : ℕ
  pub status : Status
  pub approval_ref : Option String
  pub approved_at : Option ℕ
  pub decided : Bool
  pub operation_id : Option String
  pub session_id : Option String
  pub finished_at : Option ℕ
  pub result : Option Outcome

abbrev pub max_records : ℕ
max_records = 1000

pub record ApprovalStore : Type 0 where
  pub records : List ApprovalRecord
  pub initialized : Bool
  pub broken : Bool

abbrev pub new_store : ApprovalStore
new_store = record { records = []; initialized = false; broken = false }

-- `assertAvailable`.
abbrev pub is_available : ApprovalStore → Bool
is_available s = s.initialized && not s.broken

unfoldable pub read_records {ℓ} :
    {A : Type ℓ} → (List ApprovalRecord → Result A) → ApprovalStore → Result A
read_records reader s = if is_available s then reader s.records else err persistence_unavailable

-- The outcome of `persist` for the new state; a failure of any kind makes the store unavailable.
abbrev pub commit {ℓ} :
    {A : Type ℓ} → List ApprovalRecord × A → Bool → ApprovalStore → ApprovalStore × Result A
commit (records, a) persisted s =
    if ltb max_records (length records)
    then (s, err invalid_state)
    else if persisted
    then (record s { records = records }, ok a)
    else (record s { broken = true }, err persistence_unavailable)

unfoldable pub mutate {ℓ} :
    {A : Type ℓ}
    → (List ApprovalRecord → Result (List ApprovalRecord × A))
    → Bool
    → ApprovalStore
    → ApprovalStore × Result A
mutate mutation persisted s =
    if is_available s
    then elim (mutation s.records) [ err e ↦ (s, err e) | ok next ↦ commit next persisted s ]
    else (s, err persistence_unavailable)

-- A record that an earlier process was executing.
abbrev pub interrupt : ApprovalRecord → ApprovalRecord
interrupt r = elim r.status [
  | executing ↦ record r { status = unknown; result = some execution_interrupted }
  | _ ↦ r
]

has_duplicate : List String → Bool
has_duplicate [] = false
has_duplicate (i ∷ ids) = mem i ids || has_duplicate ids

-- `initialize`, once the lock is taken: `file` is the verified content of the ledger, `none` where
-- there is no file. (The code also keeps the records of an `initialize` that fails; nothing reads
-- them, since the store stays unavailable and a later `initialize` replaces them.)
unfoldable pub initialize :
    Option (List ApprovalRecord) → Bool → ApprovalStore → ApprovalStore × Result (Unit {0})
unfolding has_duplicate
initialize file persisted s = if s.initialized then (s, ok tt) else elim file [
  | none ↦ (record s { initialized = true }, ok tt)
  | some records ↦
      if has_duplicate (map (λ r. r.id) records)
      then (s, err other)
      else if persisted
      then (record s { records = map interrupt records; initialized = true }, ok tt)
      else (s, err other)
]

unfoldable pub close : ApprovalStore → ApprovalStore
close s = record s { initialized = false }
