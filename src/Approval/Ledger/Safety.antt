-- ===== src/Approval/Ledger/Safety.antt =====
-- What holds of the ledger after any mutations: nothing was executed without an approval, and no two
-- executions of one workspace or directory are unresolved together.
use chatgpt_remote_mcp.Base.{
  ℕ, ◌≡◌, refl, inl, inr, Bool, true, false, ◌||◌, not, none, some, List, [], ◌∷◌, ◌++◌, String,
  arith, str_eq, find, any, Bool-cases, Option-cases, All, All-append,
}
use chatgpt_remote_mcp.Errors.{Result, ok, err}
use chatgpt_remote_mcp.Approval.{ApprovalRecord, pending}
use chatgpt_remote_mcp.Approval.Ledger.{
  Decision, approve, deny, has_id, write_found, modify, add_request, decide_records, reserve,
  set_session, mark_uncertain, finish_records, write_decision, write_reservation, is_unresolved,
  is_expired, same_status, decided_status, conflicts_with,
}
use chatgpt_remote_mcp.Approval.Ledger.Transitions.{
  Mutation, adds, decides, reserves, sets_session, marks_uncertain, finishes, records_after, apply,
  apply_all,
}
use chatgpt_remote_mcp.Approval.Ledger.SingleUse.{reserve-Grants, reserve-quiet}
use chatgpt_remote_mcp.Approval.Ledger.Exclusive.{
  IsSound, clash, Exclusive, DistinctIds, IsSafe, find-All, All-map, IsSafe-modify, clash_mono,
  Exclusive-found, str_eq_comm,
}

-- What is true of a mutation when the service makes it: a new record is new, and only a process that
-- was started reports an uncertain start or an end.
abbrev pub IsUnresolvedIn : String → List ApprovalRecord → Type 0
IsUnresolvedIn id rs =
    (r : ApprovalRecord) → find (has_id id none) rs ≡ some r → is_unresolved r ≡ true

abbrev pub IsNew : ApprovalRecord → Type 0
IsNew r = (r.status ≡ pending) × (r.approval_ref ≡ none) × (r.operation_id ≡ none)

abbrev pub IsPossible : Mutation → List ApprovalRecord → Type 0
IsPossible (adds new) rs = IsNew new × All (λ r. str_eq new.id r.id ≡ false) rs
IsPossible (marks_uncertain id) rs = IsUnresolvedIn id rs
IsPossible (finishes id success ended_at session_id outcome) rs = IsUnresolvedIn id rs
IsPossible _ rs = Unit

abbrev pub ArePossible : List Mutation → List ApprovalRecord → Type 0
ArePossible [] rs = Unit
ArePossible (mu ∷ mus) rs = IsPossible mu rs × ArePossible mus (apply mu rs)

-- A write that does not make a resolved record unresolved.
quiet-IsSafe :
    (p : ApprovalRecord → Bool) (f : ApprovalRecord → ApprovalRecord) (rs : List ApprovalRecord)
    {found : ApprovalRecord}
    → find p rs ≡ some found
    → IsSafe rs
    → IsSound (f found)
    → (f found).id ≡ found.id
    → (f found).workspace_id ≡ found.workspace_id
    → (f found).cwd ≡ found.cwd
    → (is_unresolved (f found) ≡ true → is_unresolved found ≡ true)
    → IsSafe (modify p f rs)
quiet-IsSafe p f rs {found} e s sound i w c u =
    IsSafe-modify p f rs e s (λ _. sound) i
      (All-map {P = λ y. str_eq y.id found.id ≡ false → clash found y ≡ false}
        {Q = λ y. str_eq y.id found.id ≡ false → clash (f found) y ≡ false} rs
        (λ y h other. clash_mono found (f found) y w c u (h other))
        (Exclusive-found p rs e s.exclusive s.distinct))

find-IsSound :
    (p : ApprovalRecord → Bool) (rs : List ApprovalRecord) {found : ApprovalRecord}
    → find p rs ≡ some found
    → IsSafe rs
    → IsSound found
find-IsSound p rs e s = find-All IsSound p rs e s.sound

-- A new record.
Exclusive-snoc :
    (new : ApprovalRecord) (rs : List ApprovalRecord)
    → is_unresolved new ≡ false
    → Exclusive rs
    → Exclusive (rs ++ new ∷ [])
Exclusive-snoc new [] h x = (tt, tt)
Exclusive-snoc new (r ∷ rs) h x = (
  All-append (λ y. clash r y ≡ false) rs (new ∷ []) x.0 (ground (arith, h), tt),
  Exclusive-snoc new rs h x.1,
)

DistinctIds-snoc :
    (new : ApprovalRecord) (rs : List ApprovalRecord)
    → All (λ r. str_eq new.id r.id ≡ false) rs
    → DistinctIds rs
    → DistinctIds (rs ++ new ∷ [])
DistinctIds-snoc new [] h d = (tt, tt)
DistinctIds-snoc new (r ∷ rs) h d = (
  All-append (λ y. str_eq y.id r.id ≡ false) rs (new ∷ []) d.0 (h.0, tt),
  DistinctIds-snoc new rs h.1 d.1,
)

add_request-IsSafe :
    (new : ApprovalRecord) (rs : List ApprovalRecord)
    → IsNew new
    → All (λ r. str_eq new.id r.id ≡ false) rs
    → IsSafe rs
    → IsSafe (records_after rs (add_request new rs))
unfolding add_request
add_request-IsSafe new rs n fresh s =
    let resolved : is_unresolved new ≡ false = rw n.0 refl in
    let sound : IsSound new = record {
      reference_decided = λ h. cc (rw n.1 at h);
      operation_approved = λ h. cc (rw n.2 at h);
      unresolved_started = λ h. cc (h, resolved);
      succeeded_started = λ h. cc (rw n.0 at h);
    } in
    let added : IsSafe (rs ++ new ∷ []) = record {
      sound = All-append IsSound rs (new ∷ []) s.sound (sound, tt);
      exclusive = Exclusive-snoc new rs resolved s.exclusive;
      distinct = DistinctIds-snoc new rs fresh s.distinct;
    } in
    ground (arith, s, added)

write_decision-IsSound :
    (decision : Decision) (now : ℕ) (ref : String) (r : ApprovalRecord)
    → IsSound r
    → IsSound (write_decision decision now ref r)
write_decision-IsSound approve now ref r s = record {
  reference_decided = λ h. refl;
  operation_approved = λ h. refl;
  unresolved_started = λ h. cc h;
  succeeded_started = λ h. cc h;
}
write_decision-IsSound deny now ref r s = record {
  reference_decided = λ h. refl;
  operation_approved = s.operation_approved;
  unresolved_started = λ h. cc h;
  succeeded_started = λ h. cc h;
}

write_decision-IsSafe :
    (p : ApprovalRecord → Bool) (decision : Decision) (now : ℕ) (ref : String)
    (rs : List ApprovalRecord) {found : ApprovalRecord}
    → find p rs ≡ some found
    → IsSafe rs
    → IsSafe (modify p (write_decision decision now ref) rs)
write_decision-IsSafe p approve now ref rs {found} e s =
    quiet-IsSafe p _ rs e s (write_decision-IsSound approve now ref found (find-IsSound p rs e s))
      refl refl refl λ h. cc h
write_decision-IsSafe p deny now ref rs {found} e s =
    quiet-IsSafe p _ rs e s (write_decision-IsSound deny now ref found (find-IsSound p rs e s)) refl
      refl refl λ h. cc h

decide_records-IsSafe :
    (id : String) (decision : Decision) (now : ℕ) (ref : String) (rs : List ApprovalRecord)
    → IsSafe rs
    → IsSafe (records_after rs (decide_records id decision now ref rs))
unfolding decide_records
decide_records-IsSafe id decision now ref rs s = elim (Option-cases (find (has_id id none) rs)) [
  | inl missing ↦ rw missing s
  | inr (found, e) ↦
      let written = write_decision-IsSafe (has_id id none) decision now ref rs e s in
      elim (Bool-cases (same_status found.status (decided_status decision))) [
        | inl again ↦ rw (e, again) s
        | inr anew ↦
            elim (Bool-cases (not (same_status found.status pending) || is_expired now found)) [
              | inl late ↦ rw (e, anew, late) s
              | inr open_still ↦ rw (e, anew, open_still) written
            ]
      ]
]

-- The found record of a reservation conflicts with no other.
apart-any :
    (found : ApprovalRecord) (operation_id : String) (rs : List ApprovalRecord)
    → any (conflicts_with found) rs ≡ false
    → All
        (λ r. str_eq r.id found.id ≡ false → clash (write_reservation operation_id found) r ≡ false)
        rs
apart-any found operation_id [] h = tt
apart-any found operation_id (r ∷ rs) h =
    let w = str_eq_comm found.workspace_id r.workspace_id in
    let c = str_eq_comm found.cwd r.cwd in
    (
      λ other. rw (w, c) (ground (arith, h, other)),
      apart-any found operation_id rs (ground (arith, h)),
    )

reserve-IsSafe :
    (id owner operation_id : String) (now : ℕ) (rs : List ApprovalRecord)
    → IsSafe rs
    → IsSafe (records_after rs (reserve id owner operation_id now rs))
reserve-IsSafe id owner operation_id now rs s = go (reserve id owner operation_id now rs) refl
  where
    go :
        (res : Result (List ApprovalRecord × (ApprovalRecord × Bool)))
        → reserve id owner operation_id now rs ≡ res
        → IsSafe (records_after rs res)
    go (err e) h = s
    go (ok (rs', (r, false))) h = rw (reserve-quiet id owner operation_id now rs h) s
    go (ok (rs', (r, true))) h =
        let g = reserve-Grants id owner operation_id now rs h in
        let old = find-IsSound (has_id id (some owner)) rs g.at s in
        rw g.written (
          IsSafe-modify (has_id id (some owner)) (write_reservation operation_id) rs g.at s
            (λ _. record {
              reference_decided = old.reference_decided;
              operation_approved = λ _. g.referenced;
              unresolved_started = λ _. refl;
              succeeded_started = λ _. refl;
            })
            refl (apart-any g.found operation_id rs g.alone))

note-IsSafe :
    (id : String) (f : ApprovalRecord → ApprovalRecord) (rs : List ApprovalRecord)
    → IsSafe rs
    → ((r : ApprovalRecord)
        → find (has_id id none) rs ≡ some r
        → IsSound r
        → IsSound (f r)
          × ((f r).id ≡ r.id)
          × ((f r).workspace_id ≡ r.workspace_id)
          × ((f r).cwd ≡ r.cwd)
          × (is_unresolved (f r) ≡ true → is_unresolved r ≡ true))
    → IsSafe (records_after rs (write_found id f rs))
unfolding write_found
note-IsSafe id f rs s h = elim (Option-cases (find (has_id id none) rs)) [
  | inl missing ↦ rw missing s
  | inr (found, e) ↦
      let (sound, i, w, c, u) = h found e (find-IsSound (has_id id none) rs e s) in
      rw e (quiet-IsSafe (has_id id none) f rs e s sound i w c u)
]

-- Every possible mutation keeps the ledger safe.
apply-IsSafe :
    (mu : Mutation) (rs : List ApprovalRecord) → IsPossible mu rs → IsSafe rs → IsSafe (apply mu rs)
unfolding apply set_session mark_uncertain finish_records
apply-IsSafe (adds new) rs h s = add_request-IsSafe new rs h.0 h.1 s
apply-IsSafe (decides id decision now ref) rs h s = decide_records-IsSafe id decision now ref rs s
apply-IsSafe (reserves id owner operation_id now) rs h s =
    reserve-IsSafe id owner operation_id now rs s
apply-IsSafe (sets_session id session_id) rs h s = note-IsSafe id _ rs s λ r e old. (
  record {
    reference_decided = old.reference_decided;
    operation_approved = old.operation_approved;
    unresolved_started = old.unresolved_started;
    succeeded_started = old.succeeded_started;
  },
  refl,
  refl,
  refl,
  λ u. u,
)
apply-IsSafe (marks_uncertain id) rs h s = note-IsSafe id _ rs s λ r e old. (
  record {
    reference_decided = old.reference_decided;
    operation_approved = old.operation_approved;
    unresolved_started = λ _. old.unresolved_started (h r e);
    succeeded_started = λ u. cc u;
  },
  refl,
  refl,
  refl,
  λ u. h r e,
)
apply-IsSafe (finishes id true ended_at session_id outcome) rs h s =
    note-IsSafe id _ rs s λ r e old. (
      record {
        reference_decided = old.reference_decided;
        operation_approved = old.operation_approved;
        unresolved_started = λ u. cc u;
        succeeded_started = λ _. old.unresolved_started (h r e);
      },
      refl,
      refl,
      refl,
      λ u. h r e,
    )
apply-IsSafe (finishes id false ended_at session_id outcome) rs h s =
    note-IsSafe id _ rs s λ r e old. (
      record {
        reference_decided = old.reference_decided;
        operation_approved = old.operation_approved;
        unresolved_started = λ _. old.unresolved_started (h r e);
        succeeded_started = λ u. cc u;
      },
      refl,
      refl,
      refl,
      λ u. h r e,
    )

-- From a safe ledger, the empty one for example, any history of possible mutations leads to a safe
-- one: what was executed had been approved, no two executions of one workspace or directory are
-- unresolved together, and the ids are distinct.
pub apply_all-IsSafe :
    (mus : List Mutation) (rs : List ApprovalRecord)
    → ArePossible mus rs
    → IsSafe rs
    → IsSafe (apply_all mus rs)
unfolding apply_all
apply_all-IsSafe [] rs h s = s
apply_all-IsSafe (mu ∷ mus) rs h s =
    apply_all-IsSafe mus (apply mu rs) h.1 (apply-IsSafe mu rs h.0 s)
