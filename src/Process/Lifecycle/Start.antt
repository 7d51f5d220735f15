-- ===== src/Process/Lifecycle/Start.antt =====
-- `#makeCapacity` and `start`.
use chatgpt_remote_mcp.Base.{
  ℕ, ◌+◌, ◌<◌, ◌≡◌, refl, ap, ◌∙◌, inl, inr, true, false, ◌&&◌, Option, none, some, List, [], ◌∷◌,
  ◌++◌, String, arith, Dict, lookup, put, lookup-put, mem, mem-snoc, add, Distinct-snoc, length,
  length-append, str_eq, eq_iff, ltb, leb, Bool-cases, Option-cases, if◌then◌else◌, subst, sum_over,
  sum_over-snoc, sum_over-put_absent, is_some, All,
}
use chatgpt_remote_mcp.Output.Invariant.{new_buffer-IsValid}
use chatgpt_remote_mcp.Process.{ManagedProcess, ProcessManager, ProcessManagerOptions}
use chatgpt_remote_mcp.Process.Consistency.{retained, running, retains, IsValid-put}
use chatgpt_remote_mcp.Process.Output.Totals.{end_of}
use chatgpt_remote_mcp.Process.Invariant.{IsInvariant, events_of, ends_of}
use chatgpt_remote_mcp.Process.Lifecycle.{
  StartProcessRequest, Spawn, spawned, threw, StartResult, started, spawn_threw, forget, prune,
  completed, insert_by_end, sort_by_end, evict_loop, make_capacity, new_process, register, start,
}
use chatgpt_remote_mcp.Process.Lifecycle.Capacity.{
  HasEnded, IsRoomier, IsRoomier-refl, IsRoomier-trans, forget-IsRoomier, prune-IsRoomier,
}

abbrev EndedIn : Dict ManagedProcess → ℕ × String → Type 0
EndedIn objects e = HasEnded (end_of objects e.1)

completed-EndedIn :
    (m : ProcessManager) (ids : List String) → All (EndedIn m.objects) (completed m ids)
unfolding completed
completed-EndedIn m [] = tt
completed-EndedIn m (id ∷ ids) = elim (Option-cases (lookup id m.objects)) [
  | inl missing ↦ rw (missing, All, completed) (completed-EndedIn m ids)
  | inr (p, stored) ↦ elim (Option-cases p.ended_at) [
    | inl open_end ↦ rw (stored, open_end, All, completed) (completed-EndedIn m ids)
    | inr (t, at) ↦
        let here : HasEnded (end_of m.objects id) = rw (stored, at, end_of) tt in
        rw (stored, at, All, completed) (here, completed-EndedIn m ids)
  ]
]

insert_by_end-All :
    (P : ℕ × String → Type 0) (e : ℕ × String) (es : List (ℕ × String))
    → P e
    → All P es
    → All P (insert_by_end e es)
unfolding insert_by_end
insert_by_end-All P e [] h hs = (h, tt)
insert_by_end-All P e (x ∷ xs) h hs = elim (Bool-cases (ltb x.0 e.0)) [
  | inl later ↦ rw later (hs.0, insert_by_end-All P e xs h hs.1)
  | inr here ↦ rw here (h, hs)
]

sort_by_end-All :
    (P : ℕ × String → Type 0) (es : List (ℕ × String)) → All P es → All P (sort_by_end es)
unfolding sort_by_end
sort_by_end-All P [] h = tt
sort_by_end-All P (e ∷ es) h = insert_by_end-All P e (sort_by_end es) h.0 (sort_by_end-All P es h.1)

All-EndedIn-same :
    (a b : Dict ManagedProcess)
    → ((j : String) → end_of b j ≡ end_of a j)
    → (es : List (ℕ × String)) → All (EndedIn a) es
    → All (EndedIn b) es
All-EndedIn-same a b same [] h = tt
All-EndedIn-same a b same (e ∷ es) h = (rw (same e.1) h.0, All-EndedIn-same a b same es h.1)

evict_loop-IsRoomier :
    (es : List (ℕ × String)) (m : ProcessManager)
    → IsInvariant m
    → All (EndedIn m.objects) es
    → IsRoomier m (evict_loop es m)
unfolding evict_loop
evict_loop-IsRoomier [] m v h = IsRoomier-refl v
evict_loop-IsRoomier (e ∷ es) m v h = elim (Bool-cases (leb m.max_processes (length m.processes))) [
  | inr room ↦ rw room (IsRoomier-refl v)
  | inl full ↦
      let r = forget-IsRoomier e.1 v h.0 in
      let rest = All-EndedIn-same m.objects (forget e.1 m).objects r.ends es h.1 in
      rw full (IsRoomier-trans r (evict_loop-IsRoomier es (forget e.1 m) r.invariant rest))
]

make_capacity-IsRoomier : {m : ProcessManager} → IsInvariant m → IsRoomier m (make_capacity m)
unfolding make_capacity
make_capacity-IsRoomier {m} v = elim (Bool-cases (ltb (length m.processes) m.max_processes)) [
  | inl room ↦ rw room (IsRoomier-refl v)
  | inr full ↦ rw full (
      evict_loop-IsRoomier (sort_by_end (completed m m.processes)) m v
        (sort_by_end-All (EndedIn m.objects) _ (completed-EndedIn m m.processes)))
]

-- A session id that no process has had.
abbrev pub IsFresh : String → ProcessManager → Type 0
IsFresh id m = end_of m.objects id ≡ none

module _ {m : ProcessManager} (v : IsInvariant m) (request : StartProcessRequest)
    (fresh : IsFresh request.session_id m) where
  abbrev id : String
  id = request.session_id

  unstored : lookup id m.objects ≡ none
  unstored = elim (Option-cases (lookup id m.objects)) [
    | inl missing ↦ missing
    | inr (p, stored) ↦ cc (rw (stored, end_of) at fresh)
  ]

  unlisted : mem id m.processes ≡ false
  unlisted = elim (Bool-cases (mem id m.processes)) [
    | inl here ↦ cc (v.consistent.present id here, ap is_some unstored)
    | inr away ↦ away
  ]

  module _ (pid : Option ℕ) (now : ℕ) where
    abbrev fresh_process : ManagedProcess
    fresh_process = new_process request pid now

    lookup_new :
        (j : String)
        → lookup j (put id fresh_process m.objects)
          ≡ (if str_eq id j then some fresh_process else lookup j m.objects)
    lookup_new j = lookup-put id j fresh_process m.objects

    end_of_new :
        (j : String)
        → end_of (put id fresh_process m.objects) j
          ≡ (if str_eq id j then some none else end_of m.objects j)
    end_of_new j = elim (Bool-cases (str_eq id j)) [
      | inl here ↦ rw (lookup_new j, here, end_of)
      | inr other ↦ rw (lookup_new j, other, end_of)
    ]

    mem_new :
        (j : String)
        → mem j (add id m.processes) ≡ (if str_eq id j then true else mem j m.processes)
    mem_new j = rw unlisted (mem-snoc id j m.processes)

    sum_new :
        (f : ManagedProcess → ℕ)
        → sum_over f (put id fresh_process m.objects) (m.processes ++ id ∷ [])
          ≡ sum_over f m.objects m.processes + f fresh_process
    sum_new f =
        let last : lookup id (put id fresh_process m.objects) ≡ some fresh_process =
          rw (lookup_new id, (eq_iff id id).1 refl) in
        let e = sum_over-snoc f id (put id fresh_process m.objects) m.processes in
        omega (
          arith,
          rw last at e,
          sum_over-put_absent f id fresh_process m.objects m.processes unlisted,
        )

    register-IsInvariant :
        length m.processes < m.max_processes
        → m.running_processes < m.max_running_processes
        → IsInvariant (register request pid now m)
    unfolding register
    register-IsInvariant room slot =
        let c = v.consistent in
        let listed : add id m.processes ≡ m.processes ++ id ∷ [] = rw unlisted in
        record {
          consistent = record {
            distinct_processes =
                rw unlisted (Distinct-snoc id m.processes c.distinct_processes unlisted);
            distinct_recency = c.distinct_recency;
            present = λ j h. new_present j (rw (mem_new j) at h);
            valid = IsValid-put c id fresh_process new_buffer-IsValid;
            tracked = new_tracked;
            counted = rw listed (omega (arith, sum_new retained, c.counted));
            counted_running = rw listed (omega (arith, sum_new running, c.counted_running));
          };
          reported = new_reported;
          running_managed = new_managed;
          output_within = v.output_within;
          processes_within = rw listed (omega (arith, length-append m.processes (id ∷ [])));
          running_within = omega arith;
        }
      where
        new_present :
            (j : String)
            → (if str_eq id j then true else mem j m.processes) ≡ true
            → is_some (lookup j (put id fresh_process m.objects)) ≡ true
        new_present j h = elim (Bool-cases (str_eq id j)) [
          | inl here ↦ rw (lookup_new j, here)
          | inr other ↦ rw (lookup_new j, other) (v.consistent.present j (rw other at h))
        ]

        new_tracked :
            (j : String)
            → mem j m.output_recency
              ≡ (mem j (add id m.processes) && retains (put id fresh_process m.objects) j)
        new_tracked j = elim (Bool-cases (str_eq id j)) [
          | inl here ↦
              let absent : mem j m.processes ≡ false = rw (← (eq_iff id j).0 here) unlisted in
              rw (mem_new j, lookup_new j, here) (rw absent at (v.consistent.tracked j))
          | inr other ↦ rw (mem_new j, lookup_new j, other) (v.consistent.tracked j)
        ]

        new_reported :
            (j : String)
            → events_of j m.terminal_events ≡ ends_of (end_of (put id fresh_process m.objects) j)
        new_reported j = elim (Bool-cases (str_eq id j)) [
          | inl here ↦
              let absent : end_of m.objects j ≡ none =
                subst (λ i. end_of m.objects i ≡ none) ((eq_iff id j).0 here) fresh in
              rw (end_of_new j, here) (v.reported j ∙ ap ends_of absent)
          | inr other ↦ rw (end_of_new j, other) (v.reported j)
        ]

        new_managed :
            (j : String)
            → end_of (put id fresh_process m.objects) j ≡ some none
            → mem j (add id m.processes) ≡ true
        new_managed j e = elim (Bool-cases (str_eq id j)) [
          | inl here ↦ rw (mem_new j, here)
          | inr other ↦ rw (mem_new j, other) (v.running_managed j (rw (end_of_new j, other) at e))
        ]

-- The room that `start` makes before it looks at the limits.
abbrev roomy : ℕ → ProcessManager → ProcessManager
roomy now m = make_capacity (prune now m)

roomy-IsRoomier : {m : ProcessManager} (now : ℕ) → IsInvariant m → IsRoomier m (roomy now m)
roomy-IsRoomier now v =
    let r = prune-IsRoomier now v in IsRoomier-trans r (make_capacity-IsRoomier r.invariant)

-- Starting a process under a new session id keeps the invariant, its limits included, whether it
-- starts or is refused.
pub start-IsInvariant :
    {m : ProcessManager} (request : StartProcessRequest) (spawn : Spawn) (now : ℕ)
    → IsInvariant m
    → IsFresh request.session_id m
    → IsInvariant (start request spawn now m).0
unfolding start
start-IsInvariant {m} request spawn now v fresh =
    let r = roomy-IsRoomier now v in
    let limit = λ (f : ProcessManagerOptions → ℕ). ap f r.options in
    elim (Bool-cases (leb m.max_processes (length (roomy now m).processes))) [
      | inl full ↦ rw full r.invariant
      | inr room ↦ elim (Bool-cases (leb m.max_running_processes (roomy now m).running_processes)) [
        | inl busy ↦ rw (room, busy) r.invariant
        | inr slot ↦
            rw (room, slot)
              (outcome r.invariant (r.ends request.session_id ∙ fresh)
                (ground (arith, room, limit (λ o. o.max_processes)))
                (ground (arith, slot, limit (λ o. o.max_running_processes))) spawn)
      ]
    ]
  where
    outcome :
        {n : ProcessManager}
        → IsInvariant n
        → IsFresh request.session_id n
        → length n.processes < n.max_processes
        → n.running_processes < n.max_running_processes
        → (spawn : Spawn)
        → IsInvariant
            (elim spawn as (λ _. ProcessManager × StartResult) [
              | threw message ↦ (n, spawn_threw message)
              | spawned pid ↦ (register request pid now n, started request.session_id)
            ]).0
    outcome w f a b (threw message) = w
    outcome w f a b (spawned pid) = register-IsInvariant w request f pid now a b
