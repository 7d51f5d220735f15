-- ===== src/Continuity/Journal/Outcome.antt =====
-- src/continuity/storage-journal.ts: what a commit promises, with faults and without.
use chatgpt_remote_mcp.Base.{
  ◌≡◌, refl, subst, true, inl, Option, none, some, List, [], ◌∷◌, String, Dict, lookup, All,
}
use chatgpt_remote_mcp.Errors.{ok, >>=-eq-ok, guard, or_throw, or_throw-eq-ok, other}
use chatgpt_remote_mcp.Continuity.Journal.{
  Fault, killed, kind_of, throws, JournalRecord, Journal, Formats, Directory, Disk, Run, finished,
  failed, crashed, validate, prepare_records, prepare_journal, commit_journal, recover_journals,
}
use chatgpt_remote_mcp.Continuity.Journal.Runs.{Ends}
use chatgpt_remote_mcp.Continuity.Journal.Records.{HasEither}
use chatgpt_remote_mcp.Continuity.Journal.Atomic.{
  IsSound, validate-IsSound, IsStopped, IsSettled, IsSettled-IsStopped, IsCommitted, commit-Leads,
  settle,
}
use chatgpt_remote_mcp.Continuity.Journal.Recovery.{recover-Leads}

-- What is on disk when a run is over, however it ended.
pub directory_after : Run → Directory
directory_after (finished d) = d.directory
directory_after (failed d e) = d.directory
directory_after (crashed s) = s

-- The run did not throw and did not crash, and it left this.
pub HasFinished : (Directory → Type 0) → Run → Type 0
HasFinished P r = (d : Disk) × (r ≡ finished d) × P d.directory

-- Recoveries, each with its fault.
pub recover_again : Formats → String → List Fault → Directory → Directory
recover_again fm workspace_id [] s = s
recover_again fm workspace_id (crash ∷ crashes) s = recover_again fm workspace_id crashes (
    directory_after
      (recover_journals fm workspace_id (record { directory = s; budget = some crash })))

prepare_records-HasEither :
    (fm : Formats) (entries : List (String × String)) (files : Dict String)
    (records : List JournalRecord)
    → prepare_records fm entries files ≡ ok records
    → All (HasEither fm files) records
unfolding prepare_records
prepare_records-HasEither fm [] files records h =
    let nothing : [] ≡ records = cc in subst (λ rs. All (HasEither fm files) rs) nothing tt
prepare_records-HasEither fm ((path, body) ∷ entries) files records h =
    let (current, found, h1) = >>=-eq-ok (or_throw (lookup path files) other) _ h in
    let (rest, eq, h2) = >>=-eq-ok (prepare_records fm entries files) _ h1 in
    let first : JournalRecord = record {
      path = path;
      before = fm.hash current;
      after = fm.hash body;
      body = body;
    } in
    let same : first ∷ rest ≡ records = cc in
    subst (λ rs. All (HasEither fm files) rs) same
      (
        (current, or_throw-eq-ok (lookup path files) other found, inl refl),
        prepare_records-HasEither fm entries files rest eq,
      )

prepare_journal-facts :
    (fm : Formats) (transaction_id workspace_id : String) (entries : List (String × String))
    (files : Dict String) (j : Journal)
    → prepare_journal fm transaction_id workspace_id entries files ≡ ok j
    → (j.workspace_id ≡ workspace_id) × IsSound fm j × All (HasEither fm files) j.records
unfolding prepare_journal
prepare_journal-facts fm transaction_id workspace_id entries files j h =
    let (records, eq, h1) = >>=-eq-ok (prepare_records fm entries files) _ h in
    let made : Journal = record {
      transaction_id = transaction_id;
      workspace_id = workspace_id;
      records = records;
    } in
    let (t, fits, h2) = >>=-eq-ok (guard (fm.conforms made) other) _ h1 in
    let (u, valid, h3) = >>=-eq-ok (validate fm made workspace_id) _ h2 in
    let same : made ≡ j = cc in
    subst (λ x. (x.workspace_id ≡ workspace_id) × IsSound fm x × All (HasEither fm files) x.records)
      same
      (refl, validate-IsSound fm made valid, prepare_records-HasEither fm entries files records eq)

-- From what `Ends` says to the directory.
settled_or_stopped :
    (Crash Post : Directory → Type 0) (b : Option Fault) (r : Run)
    → ((s : Directory) → Post s → Crash s)
    → Ends Crash Post b r
    → Crash (directory_after r)
unfolding directory_after
settled_or_stopped Crash Post b (finished d) h e = h d.directory e.0
settled_or_stopped Crash Post b (failed d x) h e = e.0
settled_or_stopped Crash Post b (crashed s) h e = e.0

Ends-HasFinished :
    (Crash Post : Directory → Type 0) (r : Run) → Ends Crash Post none r → HasFinished Post r
unfolding HasFinished
Ends-HasFinished Crash Post (finished d) e = (d, refl, e.0)
Ends-HasFinished Crash Post (failed d x) e = cc (e.1)
Ends-HasFinished Crash Post (crashed s) e = cc (e.1)

module _ (fm : Formats) (j : Journal) (old : Dict String) where
  recover_again-IsStopped :
      IsSound fm j
      → (crashes : List Fault) (s : Directory) → IsStopped fm j old s
      → IsStopped fm j old (recover_again fm j.workspace_id crashes s)
  unfolding recover_again
  recover_again-IsStopped sound [] s h = h
  recover_again-IsStopped sound (crash ∷ crashes) s h = recover_again-IsStopped sound crashes _ (
      settled_or_stopped (IsStopped fm j old) (IsSettled fm j old) (some crash) _
        (IsSettled-IsStopped fm j old)
        ((recover-Leads fm j old sound).at (record { directory = s; budget = some crash }) h))

-- A journal is made by `prepareJournal` for a directory with no journal and no marker, and its commit is
-- killed after any number of writes, or one of its writes throws, with or without having written; so it is
-- with any number of recoveries. A recovery in which nothing goes wrong then ends without an error, with no journal and no marker left, and with either each of the journal's files
-- at its new digest and the others as they were, or all of them as they were.
pub commit_journal-atomic :
    (fm : Formats) (transaction_id workspace_id : String) (entries : List (String × String))
    (s : Directory) (j : Journal)
    → prepare_journal fm transaction_id workspace_id entries s.files ≡ ok j
    → s.journals ≡ []
    → s.markers ≡ []
    → (crash : Fault) (crashes : List Fault)
    → HasFinished (IsSettled fm j s.files) (
        recover_journals fm workspace_id (record {
          directory = recover_again fm workspace_id crashes (
              directory_after
                (commit_journal fm j (record { directory = s; budget = some crash })));
          budget = none;
        }))
commit_journal-atomic fm transaction_id workspace_id entries s j h no_journal no_marker crash
      crashes =
    let (same, sound, either) =
      prepare_journal-facts fm transaction_id workspace_id entries s.files j h in
    let stopped =
      settled_or_stopped (IsStopped fm j s.files) (IsCommitted fm j s.files) (some crash) _
        (λ x c. IsSettled-IsStopped fm j s.files x (settle fm j s.files x c))
        ((commit-Leads fm j s.files sound either).at (record { directory = s; budget = some crash })
          (record { files = refl; journals = no_journal; markers = no_marker })) in
    subst
      (λ w. HasFinished (IsSettled fm j s.files) (
        recover_journals fm w (record {
          directory = recover_again fm w crashes (
              directory_after
                (commit_journal fm j (record { directory = s; budget = some crash })));
          budget = none;
        })))
      same
      (Ends-HasFinished (IsStopped fm j s.files) (IsSettled fm j s.files) _ (
        (recover-Leads fm j s.files sound).at _
          (recover_again-IsStopped fm j s.files sound crashes _ stopped)))

-- What a commit with a fault comes to.
abbrev pub IsOutcome : Formats → Journal → Dict String → Fault → Run → Type 0
IsOutcome fm j old fault (finished d) = IsCommitted fm j old d.directory
IsOutcome fm j old fault (failed d e) =
    (throws (kind_of (some fault)) ≡ true)
    × HasFinished (IsSettled fm j old)
        (recover_journals fm j.workspace_id (record { directory = d.directory; budget = none }))
IsOutcome fm j old fault (crashed s) =
    (fault.1 ≡ killed)
    × HasFinished (IsSettled fm j old)
        (recover_journals fm j.workspace_id (record { directory = s; budget = none }))

Ends-IsOutcome :
    (fm : Formats) (j : Journal) (old : Dict String) (fault : Fault) (r : Run)
    → IsSound fm j
    → Ends (IsStopped fm j old) (IsCommitted fm j old) (some fault) r
    → IsOutcome fm j old fault r
Ends-IsOutcome fm j old fault (finished d) sound e = e.0
Ends-IsOutcome fm j old fault (failed d x) sound e = (
  e.1,
  Ends-HasFinished (IsStopped fm j old) (IsSettled fm j old) _
      ((recover-Leads fm j old sound).at (record { directory = d.directory; budget = none }) e.0),
)
Ends-IsOutcome fm j old (n, kind) (crashed s) sound e = (
  cc (e.1),
  Ends-HasFinished (IsStopped fm j old) (IsSettled fm j old) _
      ((recover-Leads fm j old sound).at (record { directory = s; budget = none }) e.0),
)

-- A journal is made by `prepareJournal` for a directory with no journal and no marker. A commit in which
-- nothing goes wrong ends without an error, with no journal and no marker left, each of the journal's files
-- at its new digest and the others as they were. A commit with a fault after any number of writes ends so as
-- well if the fault comes too late; it throws only where a write throws, and then, as where it is killed, one
-- recovery in which nothing goes wrong ends without an error, with no trace of the transaction and its files
-- all new or all as they were.
pub commit_journal-completes :
    (fm : Formats) (transaction_id workspace_id : String) (entries : List (String × String))
    (s : Directory) (j : Journal)
    → prepare_journal fm transaction_id workspace_id entries s.files ≡ ok j
    → s.journals ≡ []
    → s.markers ≡ []
    → (fault : Fault)
    → HasFinished
        (IsCommitted fm j s.files)
        (commit_journal fm j (record { directory = s; budget = none }))
      × IsOutcome fm j s.files fault
          (commit_journal fm j (record { directory = s; budget = some fault }))
commit_journal-completes fm transaction_id workspace_id entries s j h no_journal no_marker fault =
    let (same, sound, either) =
      prepare_journal-facts fm transaction_id workspace_id entries s.files j h in
    let ends = λ (b : Option Fault).
      (commit-Leads fm j s.files sound either).at (record { directory = s; budget = b })
        (record { files = refl; journals = no_journal; markers = no_marker }) in
    (
      Ends-HasFinished (IsStopped fm j s.files) (IsCommitted fm j s.files) _ (ends none),
      Ends-IsOutcome fm j s.files fault _ sound (ends (some fault)),
    )
