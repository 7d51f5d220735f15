-- ===== src/Continuity/Journal.antt =====
-- src/continuity/storage-journal.ts: the journal that makes the write of several files one. A directory
-- is what is on disk; a fault strikes after a number of writes. A journal file is stored as what it parses to,
-- `none` where it does not.
pub mod Runs
pub mod Records
pub mod Writes
pub mod Atomic
pub mod Recovery
pub mod Outcome
use chatgpt_remote_mcp.Base.{
  ℕ, zero, suc, Bool, true, false, ◌&&◌, ◌||◌, not, Option, none, some, List, [], ◌∷◌, String,
  str_eq, Dict, lookup, put, delete, if◌then◌else◌, mem, map, filter, any, all, is_some,
}
use chatgpt_remote_mcp.Errors.{
  ToolError, Result, ok, err, ◌>>=◌, ◌>>◌, guard, or_throw, state_corrupt, other,
}
use chatgpt_remote_mcp.Continuity.Executions.{has_duplicate}

pub record JournalRecord : Type 0 where
  pub path : String
  pub before : String
  pub after : String
  pub body : String

pub record Journal : Type 0 where
  pub transaction_id : String
  pub workspace_id : String
  pub records : List JournalRecord

-- What `parseWorkspace` and `parseExecution` read that the journal looks at.
pub record ParsedState : Type 0 where
  pub workspace_id : String
  pub task_ids : List String

pub record ParsedReceipt : Type 0 where
  pub operation_id : String
  pub workspace_id : String
  pub task_id : String

-- The digest of a text and of a journal as it is written, the schema's test, the parsers, and the path
-- of a receipt.
pub record Formats : Type 0 where
  pub hash : String → String
  pub digest_of : Journal → String
  pub conforms : Journal → Bool
  pub parse_workspace : String → Option ParsedState
  pub parse_execution : String → Option ParsedReceipt
  pub receipt_path : String → String

pub record Directory : Type 0 where
  pub files : Dict String
  pub journals : Dict (Option Journal)
  pub markers : Dict String

-- The process is killed, or a write throws: it wrote nothing, or it wrote and its sync failed. A read or a
-- sync that throws between two writes leaves what the next write leaves that throws and wrote nothing.
pub data FaultKind : Type 0 where
  killed unwritten unsynced : FaultKind

-- What goes wrong, and after how many writes.
abbrev pub Fault : Type 0
Fault = ℕ × FaultKind

abbrev pub kind_of : Option Fault → Option FaultKind
kind_of none = none
kind_of (some (n, kind)) = some kind

abbrev pub throws : Option FaultKind → Bool
throws none = false
throws (some killed) = false
throws (some unwritten) = true
throws (some unsynced) = true

-- `budget` is `none` where nothing goes wrong.
pub record Disk : Type 0 where
  pub directory : Directory
  pub budget : Option Fault

pub data Run : Type 0 where
  finished : Disk → Run
  failed : Disk → ToolError → Run
  crashed : Directory → Run

-- Statements that write to the disk, and their sequence.
abbrev pub Io : Type 0
Io = Disk → Run

infixl 5 ◌then_do◌
abbrev pub ◌then_do◌ : Io → Io → Io
(m then_do k) d = elim (m d) [
  | finished d' ↦ k d'
  | failed d' e ↦ failed d' e
  | crashed s ↦ crashed s
]

abbrev pub done : Io
done d = finished d

abbrev pub lift : (Directory → Result (Unit {0})) → Io
lift test d = elim (test d.directory) [ ok _ ↦ finished d | err e ↦ failed d e ]

abbrev pub spend : Option Fault → (Directory → Directory) → Directory → Run
spend none change s = finished (record { directory = change s; budget = none })
spend (some (zero, killed)) change s = crashed s
spend (some (zero, unwritten)) change s = failed (record { directory = s; budget = none }) other
spend (some (zero, unsynced)) change s =
    failed (record { directory = change s; budget = none }) other
spend (some (suc n, kind)) change s =
    finished (record { directory = change s; budget = some (n, kind) })

-- One durable write, rename or removal.
abbrev pub write_disk : (Directory → Directory) → Io
write_disk change d = spend d.budget change d.directory

abbrev pub snapshot_path : String
snapshot_path = "state.json"

-- The last record, if it is the snapshot, and whether it is the only one.
abbrev pub last_snapshot : List JournalRecord → Option JournalRecord
last_snapshot [] = none
last_snapshot (r ∷ []) = if str_eq r.path snapshot_path then some r else none
last_snapshot (r ∷ s ∷ rs) = if str_eq r.path snapshot_path then none else last_snapshot (s ∷ rs)

-- The test of one receipt.
abbrev pub is_owned : Formats → String → ParsedState → JournalRecord → Bool
is_owned fm workspace_id state r = elim (fm.parse_execution r.body) [
  | none ↦ false
  | some receipt ↦
      str_eq r.path (fm.receipt_path receipt.operation_id)
      && str_eq receipt.workspace_id workspace_id
      && mem receipt.task_id state.task_ids
]

abbrev pub has_digest : Formats → JournalRecord → Bool
has_digest fm r = str_eq (fm.hash r.body) r.after

abbrev pub is_receipt : JournalRecord → Bool
is_receipt r = not (str_eq r.path snapshot_path)

abbrev pub path_of : JournalRecord → String
path_of r = r.path

pub validate : Formats → Journal → String → Result (Unit {0})
validate fm journal workspace_id = do
  guard
      (str_eq journal.workspace_id workspace_id
        && not (has_duplicate (map path_of journal.records)))
      state_corrupt
  snapshot ← or_throw (last_snapshot journal.records) state_corrupt
  state ← or_throw (fm.parse_workspace snapshot.body) state_corrupt
  guard (str_eq state.workspace_id workspace_id) state_corrupt
  guard (all (is_owned fm workspace_id state) (filter is_receipt journal.records)) state_corrupt
  guard (all (has_digest fm) journal.records) state_corrupt

-- `prepareJournal`; `entries` are the paths and bodies, the snapshot last.
unfoldable pub prepare_records :
    Formats → List (String × String) → Dict String → Result (List JournalRecord)
prepare_records fm [] files = ok []
prepare_records fm ((path, body) ∷ entries) files = do
  current ← or_throw (lookup path files) other
  records ← prepare_records fm entries files
  ok (record { path = path; before = fm.hash current; after = fm.hash body; body = body } ∷ records)

unfoldable pub prepare_journal :
    Formats → String → String → List (String × String) → Dict String → Result Journal
unfolding validate prepare_records
prepare_journal fm transaction_id workspace_id entries files = do
  records ← prepare_records fm entries files
  let journal : Journal = record {
    transaction_id = transaction_id;
    workspace_id = workspace_id;
    records = records;
  }
  guard (fm.conforms journal) other
  validate fm journal workspace_id
  ok journal

-- The first loop of `apply`.
abbrev pub check_current : Formats → List JournalRecord → Dict String → Result (Unit {0})
check_current fm [] files = ok tt
check_current fm (r ∷ rs) files = elim (lookup r.path files) [
  | none ↦ err other
  | some current ↦
      if not (str_eq (fm.hash current) r.before) && not (str_eq (fm.hash current) r.after)
      then err state_corrupt
      else check_current fm rs files
]

abbrev pub put_file : JournalRecord → Directory → Directory
put_file r s = record s { files = put r.path r.body s.files }

-- The second loop of `apply`, for one record.
abbrev pub write_record : Formats → JournalRecord → Io
write_record fm r d = elim (lookup r.path d.directory.files) [
  | none ↦ failed d other
  | some current ↦
      if str_eq (fm.hash current) r.after then finished d else write_disk (put_file r) d
]

pub write_records : Formats → List JournalRecord → Io
write_records fm [] = done
write_records fm (r ∷ rs) = write_record fm r then_do write_records fm rs

pub apply : Formats → Journal → Io
unfolding write_records
apply fm journal =
    lift (λ s. check_current fm journal.records s.files) then_do write_records fm journal.records

abbrev pub put_journal : Journal → Directory → Directory
put_journal j s = record s { journals = put j.transaction_id (some j) s.journals }

abbrev pub put_marker : Formats → Journal → Directory → Directory
put_marker fm j s = record s { markers = put j.transaction_id (fm.digest_of j) s.markers }

abbrev pub remove_journal : String → Directory → Directory
remove_journal id s = record s { journals = delete id s.journals }

abbrev pub remove_marker : String → Directory → Directory
remove_marker id s = record s { markers = delete id s.markers }

unfoldable pub commit_journal : Formats → Journal → Io
unfolding apply validate
commit_journal fm journal =
    lift (λ s. validate fm journal journal.workspace_id)
    then_do write_disk (put_journal journal)
    then_do write_disk (put_marker fm journal)
    then_do apply fm journal
    then_do write_disk (remove_journal journal.transaction_id)
    then_do write_disk (remove_marker journal.transaction_id)

-- A journal whose marker is there.
pub recover_committed : Formats → String → String → Option Journal → String → Io
unfolding apply validate
recover_committed fm workspace_id name none marker d = failed d state_corrupt
recover_committed fm workspace_id name (some journal) marker d =
    (lift (λ s.
          guard (str_eq name journal.transaction_id && str_eq marker (fm.digest_of journal))
            state_corrupt
          >> validate fm journal workspace_id)
        then_do apply fm journal
        then_do write_disk (remove_journal name)
        then_do write_disk (remove_marker name))
      d

-- The loop over the journals that are listed, `none` in a directory that has none.
abbrev pub recover_journal : Formats → String → String × Option Journal → Io
recover_journal fm workspace_id (name, stored) d = elim (lookup name d.directory.markers) [
  | none ↦ write_disk (remove_journal name) d
  | some marker ↦ recover_committed fm workspace_id name stored marker d
]

pub recover_loop : Formats → String → Dict (Option Journal) → Io
recover_loop fm workspace_id [] = done
recover_loop fm workspace_id (entry ∷ entries) =
    recover_journal fm workspace_id entry then_do recover_loop fm workspace_id entries

-- The loop over the markers that are listed.
abbrev pub sweep_marker : String → Io
sweep_marker name d =
    if is_some (lookup name d.directory.journals)
    then finished d
    else write_disk (remove_marker name) d

pub sweep_loop : Dict String → Io
sweep_loop [] = done
sweep_loop ((name, digest) ∷ entries) = sweep_marker name then_do sweep_loop entries

-- `recoverJournals`, over what `readdir` lists at its start.
unfoldable pub recover_journals : Formats → String → Io
unfolding recover_loop sweep_loop recover_committed
recover_journals fm workspace_id d =
    (recover_loop fm workspace_id d.directory.journals then_do sweep_loop d.directory.markers) d
