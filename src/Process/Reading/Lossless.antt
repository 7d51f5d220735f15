-- ===== src/Process/Reading/Lossless.antt =====
-- Reading the output of a process page by page.
use chatgpt_remote_mcp.Base.{
  or_default, ℕ, true, ◌≡◌, refl, subst, inl, inr, some, List, ◌++◌, String, arith, lookup, filter,
  Option-cases,
}
use chatgpt_remote_mcp.Errors.{ok, >>=-eq-ok}
use chatgpt_remote_mcp.Files.Utf8.{is_utf8}
use chatgpt_remote_mcp.Files.Utf8.Text.{to_text, to_text-is_utf8}
use chatgpt_remote_mcp.Output.{Chunk}
use chatgpt_remote_mcp.Output.Invariant.{IsValid, live}
use chatgpt_remote_mcp.Output.Select.{newer, select_after-paging}
use chatgpt_remote_mcp.Process.{ManagedProcess, ProcessManager}
use chatgpt_remote_mcp.Process.Invariant.{IsInvariant}
use chatgpt_remote_mcp.Process.Reading.{
  ReadProcessRequest, ProcessReadResult, require, read, read_process, bytes_in, of_stdout,
  of_stderr, read_budget,
}
use chatgpt_remote_mcp.Output.{select_after}

require-eq-ok :
    (id : String) (m : ProcessManager) {p : ManagedProcess}
    → require id m ≡ ok p
    → lookup id m.objects ≡ some p
require-eq-ok id m {p} h = elim (Option-cases (lookup id m.objects)) [
  | inl missing ↦ ground (arith, rw (missing, require) at h)
  | inr (q, e) ↦ let same : q ≡ p = ground (arith, rw (e, require) at h) in rw same at e
]

-- The result of a read against the buffer that it is of.
pub record IsPage (request : ReadProcessRequest) (p : ManagedProcess) (r : ProcessReadResult)
    : Type 0 where
  pub page : List Chunk
  pub pages :
      newer (or_default request.after_seq 0) (live p.output_buffer)
      ≡ page ++ newer r.next_seq (live p.output_buffer)
  pub output : r.output ≡ to_text (bytes_in page)
  pub stdout : r.stdout ≡ to_text (bytes_in (filter of_stdout page))
  pub stderr : r.stderr ≡ to_text (bytes_in (filter of_stderr page))
  pub lossless : is_utf8 (bytes_in page) ≡ true → r.output ≡ bytes_in page

read_process-IsPage :
    (request : ReadProcessRequest) (now : ℕ) (p : ManagedProcess) (m : ProcessManager)
    → IsValid p.output_buffer
    → IsPage request p (read_process request now p m)
unfolding read_process
read_process-IsPage request now p m v =
    let a = or_default request.after_seq 0 in
    let budget = read_budget request m in
    record {
      page = (select_after a budget p.output_buffer).chunks;
      pages = select_after-paging a budget p.output_buffer v;
      output = refl;
      stdout = refl;
      stderr = refl;
      lossless = λ formed. to_text-is_utf8 _ formed;
    }

-- A read of a manager that keeps its invariant returns a page of the retained chunks: those after
-- `after_seq` are the page followed by those after the returned cursor. The output, stdout and stderr that it
-- returns are the texts of the page's bytes, of those from stdout and of those from stderr, and the output
-- has the very bytes of the page if these are well-formed UTF-8.
pub read-IsPage :
    (id : String) (request : ReadProcessRequest) (now : ℕ) (m : ProcessManager) {p : ManagedProcess}
    {r : ProcessReadResult}
    → IsInvariant m
    → lookup id m.objects ≡ some p
    → read id request now m ≡ ok r
    → IsPage request p r
unfolding read
read-IsPage id request now m {p} {r} v stored h =
    let (q, found, e) = >>=-eq-ok (require id m) _ h in
    let same : q ≡ p = cc (require-eq-ok id m found, stored) in
    let made : read_process request now p m ≡ r = ground (arith, rw same at e) in
    subst (IsPage request p) made
      (read_process-IsPage request now p m (v.consistent.valid id p stored))
