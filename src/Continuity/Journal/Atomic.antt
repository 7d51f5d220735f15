-- ===== src/Continuity/Journal/Atomic.antt =====
-- src/continuity/storage-journal.ts: a transaction is written whole or not at all, wherever the commit
-- and the recoveries after it are stopped.
use chatgpt_remote_mcp.Base.{
  ◌≡◌, refl, ◌⊎◌, inl, inr, true, false, ◌&&◌, Option, some, List, [], ◌∷◌, String, arith, str_eq,
  eq_iff, Dict, All, map, all,
}
use chatgpt_remote_mcp.Errors.{ok, ◌>>◌, guard, state_corrupt}
use chatgpt_remote_mcp.Continuity.Executions.{has_duplicate}
use chatgpt_remote_mcp.Continuity.Journal.{
  JournalRecord, Journal, Formats, Directory, Io, ◌then_do◌, write_disk, validate, path_of,
  has_digest, apply, put_journal, put_marker, remove_journal, remove_marker, commit_journal,
  recover_committed,
}
use chatgpt_remote_mcp.Continuity.Journal.Runs.{
  Leads, Leads-lift, Leads-write, Leads-then, Leads-weaken,
}
use chatgpt_remote_mcp.Continuity.Journal.Records.{
  HasAfter, HasEither, IsMixed, IsWritten, IsSafeIn, AreDistinct, has_duplicate-AreDistinct,
  all-digests, AreDistinct-IsSafeIn,
}
use chatgpt_remote_mcp.Continuity.Journal.Writes.{Copying, Copied, apply-Leads}

-- The facts of a journal that passed its validation.
pub record IsSound (fm : Formats) (j : Journal) : Type 1 where
  pub valid : validate fm j j.workspace_id ≡ ok tt
  pub distinct : AreDistinct j.records
  pub safe : All (IsSafeIn fm j.records) j.records

pub validate-IsSound :
    (fm : Formats) (j : Journal) → validate fm j j.workspace_id ≡ ok tt → IsSound fm j
unfolding validate
validate-IsSound fm j h =
    let alone : has_duplicate (map path_of j.records) ≡ false = ground (arith, h) in
    let digests : all (has_digest fm) j.records ≡ true = ground (arith, h) in
    let distinct = has_duplicate-AreDistinct j.records alone in
    record {
      valid = h;
      distinct = distinct;
      safe = AreDistinct-IsSafeIn fm j.records distinct (all-digests fm j.records digests);
    }

-- The directories that a commit or a recovery may leave.
abbrev pub journal_file : Journal → Dict (Option Journal)
journal_file j = (j.transaction_id, some j) ∷ []

abbrev pub marker_file : Formats → Journal → Dict String
marker_file fm j = (j.transaction_id, fm.digest_of j) ∷ []

pub record IsBefore (fm : Formats) (j : Journal) (old : Dict String) (s : Directory) : Type 0 where
  pub files : s.files ≡ old
  pub markers : s.markers ≡ []
  pub journals : (s.journals ≡ []) ⊎ (s.journals ≡ journal_file j)

abbrev pub IsDuring : Formats → Journal → Dict String → Directory → Type 0
IsDuring fm j old = Copying fm j.records old (journal_file j) (marker_file fm j)

pub record IsAfter (fm : Formats) (j : Journal) (old : Dict String) (s : Directory) : Type 0 where
  pub written : IsWritten fm j.records old s.files
  pub journals : s.journals ≡ []
  pub markers : (s.markers ≡ []) ⊎ (s.markers ≡ marker_file fm j)

pub data IsStopped (fm : Formats) (j : Journal) (old : Dict String) (s : Directory) : Type 0 where
  before : IsBefore fm j old s → IsStopped fm j old s
  during : IsDuring fm j old s → IsStopped fm j old s
  after : IsAfter fm j old s → IsStopped fm j old s

-- No trace of the transaction is left, and it is written whole or not at all.
pub record IsSettled (fm : Formats) (j : Journal) (old : Dict String) (s : Directory) : Type 0 where
  pub journals : s.journals ≡ []
  pub markers : s.markers ≡ []
  pub files : (s.files ≡ old) ⊎ IsWritten fm j.records old s.files

-- The transaction is written.
pub record IsCommitted (fm : Formats) (j : Journal) (old : Dict String) (s : Directory)
    : Type 0 where
  pub journals : s.journals ≡ []
  pub markers : s.markers ≡ []
  pub written : IsWritten fm j.records old s.files

module _ (fm : Formats) (j : Journal) (old : Dict String) where
  here : str_eq j.transaction_id j.transaction_id ≡ true
  here = (eq_iff j.transaction_id j.transaction_id).1 refl

  pub settle : (s : Directory) → IsCommitted fm j old s → IsSettled fm j old s
  settle s c = record { journals = c.journals; markers = c.markers; files = inr c.written }

  pub IsSettled-IsStopped : (s : Directory) → IsSettled fm j old s → IsStopped fm j old s
  IsSettled-IsStopped s h = elim h.files [
    | inl same ↦ before (record { files = same; markers = h.markers; journals = inl h.journals })
    | inr written ↦
        after (record { written = written; journals = h.journals; markers = inl h.markers })
  ]

  -- From the committed journal to the end.
  finish-Leads :
      IsSound fm j
      → (Pre : Directory → Type 0) (m : Io) → Leads Pre (IsStopped fm j old) (IsDuring fm j old) m
      → Leads Pre (IsStopped fm j old) (IsCommitted fm j old) (
          m
          then_do apply fm j
          then_do write_disk (remove_journal j.transaction_id)
          then_do write_disk (remove_marker j.transaction_id))
  finish-Leads sound Pre m first =
      let Now = Copied fm j.records old (journal_file j) (marker_file fm j) in
      let Cleared : Directory → Type 0 = λ s.
        IsWritten fm j.records old s.files × (s.journals ≡ []) × (s.markers ≡ marker_file fm j) in
      let copies =
        Leads-weaken (IsDuring fm j old) (IsDuring fm j old) (IsDuring fm j old)
          (IsStopped fm j old) Now Now (apply fm j) (λ s p. p) (λ s p. during p) (λ s p. p)
          (apply-Leads fm j.records old (journal_file j) (marker_file fm j) j refl sound.safe
            sound.distinct) in
      let clears =
        Leads-write Now (IsStopped fm j old) Cleared (remove_journal j.transaction_id)
          (λ s p. during (record {
            same_journals = p.same_journals;
            same_markers = p.same_markers;
            mixed = written-IsMixed j.records old s.files p.written;
          }))
          (λ s p. after (record { written = p.0; journals = p.1; markers = inr p.2 }))
          (λ s p. (p.written, rw (p.same_journals, here) refl, p.same_markers)) in
      let ends =
        Leads-write Cleared (IsStopped fm j old) (IsCommitted fm j old)
          (remove_marker j.transaction_id)
          (λ s p. after (record { written = p.0; journals = p.1; markers = inr p.2 }))
          (λ s p. IsSettled-IsStopped s (settle s p))
          (λ s p. record { journals = p.1; markers = rw (p.2, here) refl; written = p.0 }) in
      Leads-then Pre (IsStopped fm j old) Cleared (IsCommitted fm j old) _ _
        (Leads-then Pre (IsStopped fm j old) Now Cleared _ _
          (Leads-then Pre (IsStopped fm j old) (IsDuring fm j old) Now m (apply fm j) first copies)
          clears)
        ends
    where
      written-either :
          (rs : List JournalRecord) (files : Dict String)
          → All (HasAfter fm files) rs
          → All (HasEither fm files) rs
      written-either [] files h = tt
      written-either (r ∷ rs) files h = ((h.0.0, h.0.1, inr h.0.2), written-either rs files h.1)

      written-IsMixed :
          (rs : List JournalRecord) (was files : Dict String)
          → IsWritten fm rs was files
          → IsMixed fm rs was files
      written-IsMixed rs was files w = record {
        either = written-either rs files w.after;
        others = w.others;
      }

  -- A commit from a settled directory.
  pub record IsReady (s : Directory) : Type 0 where
    pub files : s.files ≡ old
    pub journals : s.journals ≡ []
    pub markers : s.markers ≡ []

  pub commit-Leads :
      IsSound fm j
      → All (HasEither fm old) j.records
      → Leads IsReady (IsStopped fm j old) (IsCommitted fm j old) (commit_journal fm j)
  unfolding commit_journal
  commit-Leads sound either =
      let Listed : Directory → Type 0 =
        λ s. (s.files ≡ old) × (s.journals ≡ journal_file j) × (s.markers ≡ []) in
      let checks =
        Leads-lift IsReady (IsStopped fm j old) (λ s. validate fm j j.workspace_id)
          (λ s p. sound.valid) in
      let lists =
        Leads-write IsReady (IsStopped fm j old) Listed (put_journal j)
          (λ s p.
            before (record { files = p.files; markers = p.markers; journals = inl p.journals }))
          (λ s p. before (record { files = p.0; markers = p.2; journals = inr p.1 }))
          (λ s p. (p.files, rw p.journals refl, p.markers)) in
      let marks =
        Leads-write Listed (IsStopped fm j old) (IsDuring fm j old) (put_marker fm j)
          (λ s p. before (record { files = p.0; markers = p.2; journals = inr p.1 }))
          (λ s p. during p)
          (λ s p. record {
            same_journals = p.1;
            same_markers = rw p.2 refl;
            mixed = rw p.0 (record { either = either; others = λ q e. refl });
          }) in
      let prefix =
        Leads-then IsReady (IsStopped fm j old) Listed (IsDuring fm j old) _ _
          (Leads-then IsReady (IsStopped fm j old) IsReady Listed _ _ checks lists) marks in
      finish-Leads sound IsReady _ prefix

  -- A recovery of the committed journal.
  pub recover_committed-Leads :
      IsSound fm j
      → Leads
          (IsDuring fm j old)
          (IsStopped fm j old)
          (IsCommitted fm j old)
          (recover_committed fm j.workspace_id j.transaction_id (some j) (fm.digest_of j))
  unfolding recover_committed
  recover_committed-Leads sound =
      let checks =
        Leads-lift (IsDuring fm j old) (IsStopped fm j old)
          (λ s.
            guard
              (str_eq j.transaction_id j.transaction_id && str_eq (fm.digest_of j) (fm.digest_of j))
              state_corrupt
            >> validate fm j j.workspace_id)
          (λ s p. rw (here, (eq_iff (fm.digest_of j) (fm.digest_of j)).1 refl) sound.valid) in
      let all_steps = finish-Leads sound (IsDuring fm j old) _ checks in
      record { at = λ d p. all_steps.at d p }
