-- ===== src/Continuity/Retry.antt =====
-- src/continuity/task-service.ts, `checkDedupe`: mutations of a task that are asked for again.
use chatgpt_remote_mcp.Base.{
  ◌≡◌, refl, inl, inr, true, false, some, List, arith, eq_iff, ltb, lookup, is_some, Bool-cases,
  Option-cases, if◌then◌else◌,
}
use chatgpt_remote_mcp.Errors.{Result, ok, err, persistence_unavailable}
use chatgpt_remote_mcp.Continuity.{
  MutationKind, creates, updates, completes, MutationResult, Workspace, MutationDedupeRecord,
  same_kind,
}
use chatgpt_remote_mcp.Continuity.Executions.{Step}
use chatgpt_remote_mcp.Continuity.Tasks.{Mutation, once, create, update, complete}
use chatgpt_remote_mcp.Continuity.Moves.{
  TaskMove, creates_task, updates_task, completes_task, apply_task, Move, run, Has, Keeps,
}
use chatgpt_remote_mcp.Continuity.Kept.{
  Writes, create_fresh-Writes, update_fresh-Writes, complete_fresh-Writes, apply_task-Keeps,
  run-Keeps,
}

-- The workspace holds the result of a request.
record IsRecorded (mu : Mutation) (kind : MutationKind) (w : Workspace) (result : MutationResult)
    : Type 0 where
  entry : MutationDedupeRecord
  at : lookup mu.request_id w.state.mutation_dedupe ≡ some entry
  of_kind : same_kind entry.kind kind ≡ true
  of_input : entry.input_hmac ≡ mu.input_hmac
  its_result : entry.result ≡ result

once-IsRecorded :
    (mu : Mutation) (kind : MutationKind) (w : Workspace)
    (fresh : Result (Workspace × MutationResult)) {w' : Workspace} {result : MutationResult}
    → ((v : Workspace) (r : MutationResult) → fresh ≡ ok (v, r) → Writes mu kind w v r)
    → once mu kind w fresh ≡ (w', ok result)
    → IsRecorded mu kind w' result
once-IsRecorded mu kind w fresh {w'} {result} h e =
    elim (Option-cases (lookup mu.request_id w.state.mutation_dedupe)) [
      | inr (d, at) ↦
          let e' = rw (at, once) at e in
          let same : w ≡ w' = ground (arith, e') in
          record {
            entry = d;
            at = rw same at at;
            of_kind = ground (arith, e');
            of_input = ground (arith, e', eq_iff d.input_hmac mu.input_hmac);
            its_result = ground (arith, e');
          }
      | inl new ↦ new_one fresh h (rw (new, once) at e)
    ]
  where
    new_one :
        (fresh : Result (Workspace × MutationResult))
        → ((v : Workspace) (r : MutationResult) → fresh ≡ ok (v, r) → Writes mu kind w v r)
        → (elim fresh as (λ x. Step MutationResult) [
          | err e ↦ (w, err e)
          | ok (v, r) ↦ if mu.written then (v, ok r) else (w, err persistence_unavailable)
        ])
          ≡ (w', ok result)
        → IsRecorded mu kind w' result
    new_one (err x) h e = ground (arith, e)
    new_one (ok (v, r)) h e =
        let (d, at, k, i, same) = (h v r refl).1 in
        let same_w : v ≡ w' = ground (arith, e) in
        let same_r : r ≡ result = ground (arith, e) in
        record {
          entry = d;
          at = rw same_w at at;
          of_kind = k;
          of_input = i;
          its_result = rw same_r at same;
        }

once-again :
    (mu : Mutation) (kind : MutationKind) (w : Workspace)
    (fresh : Result (Workspace × MutationResult)) {result : MutationResult}
    → IsRecorded mu kind w result
    → once mu kind w fresh ≡ (w, ok result)
once-again mu kind w fresh r =
    rw (r.at, once, r.of_kind, (eq_iff r.entry.input_hmac mu.input_hmac).1 r.of_input, r.its_result)
      refl

abbrev kind_of : TaskMove → MutationKind
kind_of (creates_task _ _ _ _) = creates
kind_of (updates_task _ _ _ _ _) = updates
kind_of (completes_task _ _ _ _) = completes

apply_task-IsRecorded :
    (mv : TaskMove) (mu : Mutation) (w : Workspace) {w' : Workspace} {result : MutationResult}
    → apply_task mv mu w ≡ (w', ok result)
    → IsRecorded mu (kind_of mv) w' result
unfolding apply_task create update complete
apply_task-IsRecorded (creates_task max_bytes task_id objective input) mu w h =
    elim (Bool-cases (ltb max_bytes input.bytes)) [
      | inl big ↦ ground (arith, rw (big, create) at h)
      | inr fits ↦
          once-IsRecorded mu creates w _ (create_fresh-Writes mu task_id objective input w)
            (rw (fits, create) at h)
    ]
apply_task-IsRecorded (updates_task before max_bytes task_id revision input) mu w h =
    elim (Bool-cases (ltb max_bytes input.bytes)) [
      | inl big ↦ ground (arith, rw (big, update) at h)
      | inr fits ↦ elim (Bool-cases (is_some (lookup task_id w.state.tasks))) [
        | inr missing ↦ ground (arith, rw (fits, missing, update) at h)
        | inl known ↦
            once-IsRecorded mu updates w _ (update_fresh-Writes before mu task_id revision input w)
              (rw (fits, known, update) at h)
      ]
    ]
apply_task-IsRecorded (completes_task size max_bytes blocked input) mu w h =
    elim (Bool-cases (is_some (lookup input.task_id w.state.tasks))) [
      | inr missing ↦ ground (arith, rw (missing, complete) at h)
      | inl known ↦
          once-IsRecorded mu completes w _ (complete_fresh-Writes size max_bytes blocked mu input w)
            (rw (known, complete) at h)
    ]

-- What a move asks of the workspace before it looks at past requests.
abbrev IsAdmitted : TaskMove → Workspace → Type 0
IsAdmitted (creates_task max_bytes task_id objective input) w = ltb max_bytes input.bytes ≡ false
IsAdmitted (updates_task before max_bytes task_id revision input) w =
    (ltb max_bytes input.bytes ≡ false) × Has task_id w.state.tasks
IsAdmitted (completes_task size max_bytes blocked input) w = Has input.task_id w.state.tasks

apply_task-IsAdmitted :
    (mv : TaskMove) (mu : Mutation) (w : Workspace) {w' : Workspace} {result : MutationResult}
    → apply_task mv mu w ≡ (w', ok result)
    → IsAdmitted mv w
unfolding apply_task create update complete
apply_task-IsAdmitted (creates_task max_bytes task_id objective input) mu w h =
    elim (Bool-cases (ltb max_bytes input.bytes)) [
      | inl big ↦ ground (arith, rw (big, create) at h)
      | inr fits ↦ fits
    ]
apply_task-IsAdmitted (updates_task before max_bytes task_id revision input) mu w h =
    elim (Bool-cases (ltb max_bytes input.bytes)) [
      | inl big ↦ ground (arith, rw (big, update) at h)
      | inr fits ↦ elim (Bool-cases (is_some (lookup task_id w.state.tasks))) [
        | inr missing ↦ ground (arith, rw (fits, missing, update) at h)
        | inl known ↦ (fits, known)
      ]
    ]
apply_task-IsAdmitted (completes_task size max_bytes blocked input) mu w h =
    elim (Bool-cases (is_some (lookup input.task_id w.state.tasks))) [
      | inr missing ↦ ground (arith, rw (missing, complete) at h)
      | inl known ↦ known
    ]

apply_task-again :
    (mv : TaskMove) (mu : Mutation) (w : Workspace) {result : MutationResult}
    → IsAdmitted mv w
    → IsRecorded mu (kind_of mv) w result
    → apply_task mv mu w ≡ (w, ok result)
unfolding apply_task create update complete
apply_task-again (creates_task max_bytes task_id objective input) mu w fits r =
    rw (fits, create) (once-again mu creates w _ r)
apply_task-again (updates_task before max_bytes task_id revision input) mu w admitted r =
    rw (admitted.0, admitted.1, update) (once-again mu updates w _ r)
apply_task-again (completes_task size max_bytes blocked input) mu w known r =
    rw (known, complete) (once-again mu completes w _ r)

-- A creation, an update or a completion of a task that succeeded, asked for again with the same
-- request id and input, gives the result of the first time and changes nothing, whatever operations
-- on the tasks and executions of the workspace came between.
pub apply_task-retry :
    (mv : TaskMove) (mu mu' : Mutation) (w : Workspace) {w' : Workspace} {result : MutationResult}
    → apply_task mv mu w ≡ (w', ok result)
    → mu'.request_id ≡ mu.request_id
    → mu'.input_hmac ≡ mu.input_hmac
    → (ms : List Move) → apply_task mv mu' (run ms w') ≡ (run ms w', ok result)
apply_task-retry mv mu mu' w {w'} {result} h same_request same_input ms =
    let recorded = apply_task-IsRecorded mv mu w h in
    let kept = run-Keeps ms w' in
    let first : Keeps w w' = rw h at (apply_task-Keeps mv mu w) in
    apply_task-again mv mu' (run ms w') (admitted mv (apply_task-IsAdmitted mv mu w h) first kept)
      (record {
        entry = recorded.entry;
        at = rw same_request (kept.results mu.request_id recorded.at);
        of_kind = recorded.of_kind;
        of_input = rw same_input recorded.of_input;
        its_result = recorded.its_result;
      })
  where
    admitted :
        (mv : TaskMove) {a b c : Workspace}
        → IsAdmitted mv a
        → Keeps a b
        → Keeps b c
        → IsAdmitted mv c
    admitted (creates_task _ _ _ _) h f g = h
    admitted (updates_task _ _ task_id _ _) h f g = (h.0, g.tasks task_id (f.tasks task_id h.1))
    admitted (completes_task _ _ _ input) h f g = g.tasks input.task_id (f.tasks input.task_id h)
