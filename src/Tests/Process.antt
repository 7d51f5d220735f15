-- ===== src/Tests/Process.antt =====
-- The process manager over a short history.
use chatgpt_remote_mcp.Base.{or_default, ◌≡◌, refl, true, none, some, List, [], ◌∷◌, mem, lookup}
use chatgpt_remote_mcp.Output.{stdout, append, trim_to}
use chatgpt_remote_mcp.Chunks.{split_output_chunks}
use chatgpt_remote_mcp.Errors.{ok}
use chatgpt_remote_mcp.Process.{ManagedProcess, ProcessManager, ProcessManagerOptions, new_manager}
use chatgpt_remote_mcp.Process.Consistency.{IsConsistent}
use chatgpt_remote_mcp.Process.Output.{append_output}
use chatgpt_remote_mcp.Process.Output.Totals.{EndsWithin}
use chatgpt_remote_mcp.Process.Output.Steps.{append_output-EndsWithin}
use chatgpt_remote_mcp.Process.Invariant.{IsInvariant, new_manager-IsInvariant}
use chatgpt_remote_mcp.Process.Lifecycle.{StartProcessRequest, spawned, start, new_process}
use chatgpt_remote_mcp.Process.Reading.{ReadProcessRequest, read, read_process}
use chatgpt_remote_mcp.Process.Reading.Lossless.{IsPage, read-IsPage}
use chatgpt_remote_mcp.Process.Lifecycle.Events.{
  Event, starts, outputs, closes, prunes, step, run, ArePossible, step-IsInvariant,
  run-new_manager-IsInvariant,
}

abbrev small_limits : ProcessManagerOptions
small_limits = record {
  max_retained_output_bytes = 8;
  max_total_retained_output_bytes = 8;
  process_retention_ms = 1000;
  max_processes = 2;
  max_running_processes = 1;
  default_read_output_bytes = 65536;
  max_read_output_bytes = 65536;
}

abbrev echo_request : StartProcessRequest
echo_request = record {
  session_id = "s1";
  command_for_display = "echo";
  cwd = "/";
  timeout_ms = 0;
  tracking = none;
}

abbrev history : List Event
history =
    starts echo_request (spawned (some 7)) 0
    ∷ outputs "s1" stdout (104 ∷ 105 ∷ [])
    ∷ closes "s1" (some 0) none 5
    ∷ prunes 2000
    ∷ []

history_possible : ArePossible history (new_manager small_limits)
unfolding step start
history_possible = (refl, (refl, (tt, (tt, tt))))

run-new_manager-IsInvariant_example : IsInvariant (run history (new_manager small_limits))
run-new_manager-IsInvariant_example =
    run-new_manager-IsInvariant small_limits history history_possible

abbrev one_process : ProcessManager
one_process = step (starts echo_request (spawned (some 7)) 0) (new_manager small_limits)

one_process-IsConsistent : IsConsistent one_process
one_process-IsConsistent =
    (step-IsInvariant (starts echo_request (spawned (some 7)) 0)
      (new_manager-IsInvariant small_limits) refl).consistent

one_process_managed : mem "s1" one_process.processes ≡ true
unfolding step start
one_process_managed = refl

append_output-EndsWithin_example :
    EndsWithin one_process (append_output "s1" stdout (1 ∷ 2 ∷ []) one_process)
append_output-EndsWithin_example =
    append_output-EndsWithin one_process-IsConsistent "s1" one_process_managed stdout (1 ∷ 2 ∷ [])

abbrev with_output : ProcessManager
with_output = step (outputs "s1" stdout (104 ∷ 105 ∷ [])) one_process

with_output-IsInvariant : IsInvariant with_output
with_output-IsInvariant =
    step-IsInvariant (outputs "s1" stdout (104 ∷ 105 ∷ []))
      (step-IsInvariant (starts echo_request (spawned (some 7)) 0)
        (new_manager-IsInvariant small_limits) refl)
      one_process_managed

abbrev echo : ManagedProcess
echo = or_default (lookup "s1" with_output.objects) (new_process echo_request none 0)

echo_stored : lookup "s1" with_output.objects ≡ some echo
unfolding step start append_output append split_output_chunks trim_to
echo_stored = refl

abbrev from_start : ReadProcessRequest
from_start = record { after_seq = none; wait_ms = none; wait_mode = none; max_output_bytes = none }

read-echo : read "s1" from_start 3 with_output ≡ ok (read_process from_start 3 echo with_output)
unfolding read step start append_output append split_output_chunks trim_to
read-echo = refl

read-IsPage_example : IsPage from_start echo (read_process from_start 3 echo with_output)
read-IsPage_example =
    read-IsPage "s1" from_start 3 with_output with_output-IsInvariant echo_stored read-echo
