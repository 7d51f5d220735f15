-- ===== src/Tests/Journal.antt =====
-- A transaction of one receipt and the snapshot.
use chatgpt_remote_mcp.Base.{◌≡◌, refl, true, none, some, List, [], ◌∷◌, String}
use chatgpt_remote_mcp.Errors.{ok}
use chatgpt_remote_mcp.Continuity.Journal.{
  killed, unwritten, unsynced, Formats, Directory, Journal, prepare_journal, commit_journal,
  recover_journals,
}
use chatgpt_remote_mcp.Continuity.Journal.Atomic.{IsSettled, IsCommitted}
use chatgpt_remote_mcp.Continuity.Journal.Outcome.{
  directory_after, HasFinished, IsOutcome, recover_again, commit_journal-atomic,
  commit_journal-completes,
}

abbrev texts : Formats
texts = record {
  hash = λ text. text;
  digest_of = λ j. j.transaction_id;
  conforms = λ j. true;
  parse_workspace = λ text. some (record { workspace_id = "w1"; task_ids = "t1" ∷ [] });
  parse_execution =
      λ text. some (record { operation_id = "op1"; workspace_id = "w1"; task_id = "t1" });
  receipt_path = λ id. "executions/op1.json";
}

abbrev stored : Directory
stored = record {
  files = ("executions/op1.json", "running") ∷ ("state.json", "revision 1") ∷ [];
  journals = [];
  markers = [];
}

abbrev entries : List (String × String)
entries = ("executions/op1.json", "exited") ∷ ("state.json", "revision 2") ∷ []

abbrev transaction : Journal
transaction = record {
  transaction_id = "tx1";
  workspace_id = "w1";
  records =
      record { path = "executions/op1.json"; before = "running"; after = "exited"; body = "exited" }
      ∷ record {
        path = "state.json";
        before = "revision 1";
        after = "revision 2";
        body = "revision 2";
      }
      ∷ [];
}

prepared : prepare_journal texts "tx1" "w1" entries stored.files ≡ ok transaction
unfolding prepare_journal
prepared = refl

-- The sync of the second record throws, and the recovery is killed after its first write.
commit_journal-atomic_example : HasFinished (IsSettled texts transaction stored.files) (
    recover_journals texts "w1" (record {
      directory = recover_again texts "w1" ((1, killed) ∷ []) (
          directory_after (
            commit_journal texts transaction
              (record { directory = stored; budget = some (3, unsynced) })));
      budget = none;
    }))
commit_journal-atomic_example =
    commit_journal-atomic texts "tx1" "w1" entries stored transaction prepared refl refl
      (3, unsynced) ((1, killed) ∷ [])

commit_journal-completes_example :
    HasFinished
      (IsCommitted texts transaction stored.files)
      (commit_journal texts transaction (record { directory = stored; budget = none }))
    × IsOutcome texts transaction stored.files
        (2, unwritten)
        (commit_journal texts transaction
          (record { directory = stored; budget = some (2, unwritten) }))
commit_journal-completes_example =
    commit_journal-completes texts "tx1" "w1" entries stored transaction prepared refl refl
      (2, unwritten)
