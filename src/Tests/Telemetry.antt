-- ===== src/Tests/Telemetry.antt =====
-- A log of small files.
use chatgpt_remote_mcp.Base.{◌≡◌, refl, inr, true, false, List, [], ◌∷◌, arith, All}
use chatgpt_remote_mcp.Telemetry.{Line, UsageLogOptions, good_round, rotate, new_log}
use chatgpt_remote_mcp.Telemetry.Rotation.{IsFile}
use chatgpt_remote_mcp.Telemetry.Events.{UsageStep, records, fires, flushes, writes, run, IsLog}
use chatgpt_remote_mcp.Telemetry.Invariant.{run-IsLog}
use chatgpt_remote_mcp.Telemetry.Order.{all_accepted}
use chatgpt_remote_mcp.Telemetry.Each.{write_each, logged}
use chatgpt_remote_mcp.Telemetry.Drain.{flush, IsFlushed, flush-IsFlushed}
use chatgpt_remote_mcp.Telemetry.Logged.{run-logged}

abbrev two_files : UsageLogOptions
two_files = record { enabled = true; max_bytes = 4; older_files = 1 }

abbrev three_bytes : Line
three_bytes = 1 ∷ 2 ∷ 3 ∷ []

abbrev history : List UsageStep
history =
    records three_bytes
    ∷ fires
    ∷ records (4 ∷ [])
    ∷ writes true (record good_round { appends = false } ∷ [])
    ∷ records three_bytes
    ∷ []

first_disk : All (IsFile 4) ((three_bytes ∷ []) ∷ [])
first_disk = (record { fits = inr (omega arith); whole = (omega arith, tt) }, tt)

run-IsLog_example : IsLog 4 (run two_files history (new_log ((three_bytes ∷ []) ∷ [])))
run-IsLog_example =
    run-IsLog two_files ((three_bytes ∷ []) ∷ []) history first_disk
      (omega arith, (tt, (omega arith, (tt, (omega arith, tt)))))

flush-IsFlushed_example :
    IsFlushed two_files
      (run two_files history (new_log ((three_bytes ∷ []) ∷ [])))
      (flush two_files (run two_files history (new_log ((three_bytes ∷ []) ∷ []))))
flush-IsFlushed_example =
    flush-IsFlushed two_files (run two_files history (new_log ((three_bytes ∷ []) ∷ []))) (
      run-IsLog two_files ((three_bytes ∷ []) ∷ []) history first_disk
        (omega arith, (tt, (omega arith, (tt, (omega arith, tt))))))

abbrev fine : List UsageStep
fine = records three_bytes ∷ flushes ∷ records (4 ∷ []) ∷ writes true [] ∷ records three_bytes ∷ []

run-logged_example :
    (flush two_files (run two_files fine (new_log ((three_bytes ∷ []) ∷ [])))).disk
    ≡ logged two_files
        ((three_bytes ∷ []) ∷ [])
        (all_accepted two_files fine (new_log ((three_bytes ∷ []) ∷ [])))
run-logged_example =
    run-logged two_files ((three_bytes ∷ []) ∷ []) fine first_disk
      (omega arith, (tt, (omega arith, ((refl, refl), (omega arith, tt)))))

-- The file with the line that was there is renamed and later removed.
logged_lines :
    logged two_files ((three_bytes ∷ []) ∷ []) (three_bytes ∷ (4 ∷ []) ∷ three_bytes ∷ [])
    ≡ (three_bytes ∷ []) ∷ (three_bytes ∷ (4 ∷ []) ∷ []) ∷ []
unfolding logged write_each rotate
logged_lines = refl
