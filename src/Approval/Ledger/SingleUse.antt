-- ===== src/Approval/Ledger/SingleUse.antt =====
-- An approval starts at most one execution, and only under the conditions that the code names.
use chatgpt_remote_mcp.Base.{
  ℕ, ◌≡◌, ◌≢◌, refl, sym, subst, inl, inr, Bool, true, false, none, some, List, [], ◌∷◌, String,
  arith, find, any, Bool-cases, Option-cases, is_some,
}
use chatgpt_remote_mcp.Errors.{ok}
use chatgpt_remote_mcp.Approval.{ApprovalRecord, approved}
use chatgpt_remote_mcp.Approval.Ledger.{
  has_id, modify, reserve, write_reservation, is_expired, same_status, conflicts_with, is_operation,
}
use chatgpt_remote_mcp.Approval.Ledger.Transitions.{
  Mutation, apply_all, Evolves, Grows, IsClosed, apply_all-Grows,
}

-- The record of an id and owner stays where it is.
find-Grows :
    (id owner : String) (rs rs' : List ApprovalRecord) {r : ApprovalRecord}
    → Grows rs rs'
    → find (has_id id (some owner)) rs ≡ some r
    → (r' : ApprovalRecord) × (find (has_id id (some owner)) rs' ≡ some r') × Evolves r r'
find-Grows id owner [] rs' g e = cc
find-Grows id owner (x ∷ xs) [] g e = absurd g
find-Grows id owner (x ∷ xs) (y ∷ ys) {r} g e =
    let same : has_id id (some owner) y ≡ has_id id (some owner) x =
      rw (g.0.same_id, g.0.same_owner) in
    elim (Bool-cases (has_id id (some owner) x)) [
      | inl here ↦
          let x_is : x ≡ r = ground (arith, here, e) in rw (same, here) (y, refl, rw x_is at g.0)
      | inr later ↦ rw (same, later) (find-Grows id owner xs ys g.1 (rw later at e))
    ]

-- The found record of a reservation that starts: what it needs and what it makes.
pub record Grants (id owner operation_id : String) (now : ℕ) (rs rs' : List ApprovalRecord)
    : Type 0 where
  pub found : ApprovalRecord
  pub at : find (has_id id (some owner)) rs ≡ some found
  pub unused : found.operation_id ≡ none
  pub is_approved : same_status found.status approved ≡ true
  pub current : is_expired now found ≡ false
  pub referenced : is_some found.approval_ref ≡ true
  pub alone : any (conflicts_with found) rs ≡ false
  pub new_operation : any (is_operation operation_id) rs ≡ false
  pub written : rs' ≡ modify (has_id id (some owner)) (write_reservation operation_id) rs

pub reserve-Grants :
    (id owner operation_id : String) (now : ℕ) (rs : List ApprovalRecord)
    {rs' : List ApprovalRecord} {r : ApprovalRecord}
    → reserve id owner operation_id now rs ≡ ok (rs', (r, true))
    → Grants id owner operation_id now rs rs'
unfolding reserve
reserve-Grants id owner operation_id now rs {rs'} {r} h =
    elim (Option-cases (find (has_id id (some owner)) rs)) [
      | inl missing ↦ cc (rw missing at h)
      | inr (found, e) ↦ elim (Option-cases found.operation_id) [
        | inr (o, used) ↦ ground (arith, rw (e, used) at h)
        | inl unused ↦
            let g = rw (e, unused) at h in
            record {
              found = found;
              at = e;
              unused = unused;
              is_approved = ground (arith, g);
              current = ground (arith, g);
              referenced = ground (arith, g);
              alone = ground (arith, g);
              new_operation = ground (arith, g);
              written = ground (arith, g);
            }
      ]
    ]

-- A reservation that starts nothing writes nothing.
pub reserve-quiet :
    (id owner operation_id : String) (now : ℕ) (rs : List ApprovalRecord)
    {rs' : List ApprovalRecord} {r : ApprovalRecord}
    → reserve id owner operation_id now rs ≡ ok (rs', (r, false))
    → rs' ≡ rs
unfolding reserve
reserve-quiet id owner operation_id now rs {rs'} {r} h =
    elim (Option-cases (find (has_id id (some owner)) rs)) [
      | inl missing ↦ cc (rw missing at h)
      | inr (found, e) ↦ elim (Option-cases found.operation_id) [
        | inr (o, used) ↦ ground (arith, rw (e, used) at h)
        | inl unused ↦ ground (arith, rw (e, unused) at h)
      ]
    ]

find-modify :
    (p : ApprovalRecord → Bool) (f : ApprovalRecord → ApprovalRecord) (rs : List ApprovalRecord)
    {found : ApprovalRecord}
    → find p rs ≡ some found
    → ((r : ApprovalRecord) → p (f r) ≡ p r)
    → find p (modify p f rs) ≡ some (f found)
find-modify p f [] e same = cc
find-modify p f (r ∷ rs) {found} e same = elim (Bool-cases (p r)) [
  | inl here ↦ ground (arith, here, e, same r)
  | inr later ↦ rw (later, later) (find-modify p f rs (rw later at e) same)
]

-- An approval is used once: after a reservation that starts an execution, whatever mutations follow,
-- no reservation of the same approval starts another, under the same operation or any other.
pub reserve-once :
    (id owner operation_id : String) (now : ℕ) (rs : List ApprovalRecord)
    {rs' : List ApprovalRecord} {r : ApprovalRecord}
    → reserve id owner operation_id now rs ≡ ok (rs', (r, true))
    → (mus : List Mutation) (other_operation : String) (later : ℕ) {rs'' : List ApprovalRecord}
      {r'' : ApprovalRecord}
    → reserve id owner other_operation later (apply_all mus rs') ≢ ok (rs'', (r'', true))
reserve-once id owner operation_id now rs {rs'} h mus other_operation later again =
    let g = reserve-Grants id owner operation_id now rs h in
    let used : find (has_id id (some owner)) rs' ≡ some (write_reservation operation_id g.found) =
      subst (λ l. find (has_id id (some owner)) l ≡ some (write_reservation operation_id g.found))
        (sym g.written)
        (find-modify (has_id id (some owner)) (write_reservation operation_id) rs g.at λ _. refl) in
    let (r', at, evolved) =
      find-Grows id owner rs' (apply_all mus rs') (apply_all-Grows mus rs') used in
    let kept = evolved.keeps_operation operation_id refl in
    let g' = reserve-Grants id owner other_operation later (apply_all mus rs') again in
    cc (at, g'.at, kept, g'.unused)

-- A request that is neither open for a decision nor approved, and was never executed (a denied one),
-- is never executed, whatever mutations follow.
pub reserve-closed :
    (id owner : String) (rs : List ApprovalRecord) {r : ApprovalRecord}
    → find (has_id id (some owner)) rs ≡ some r
    → IsClosed r
    → (mus : List Mutation) (operation_id : String) (later : ℕ) {rs' : List ApprovalRecord}
      {r' : ApprovalRecord}
    → reserve id owner operation_id later (apply_all mus rs) ≢ ok (rs', (r', true))
reserve-closed id owner rs e closed mus operation_id later h =
    let (r', at, evolved) = find-Grows id owner rs (apply_all mus rs) (apply_all-Grows mus rs) e in
    let still = evolved.keeps_closed closed in
    let g = reserve-Grants id owner operation_id later (apply_all mus rs) h in
    let same : r' ≡ g.found = cc (at, g.at) in cc (still.1, g.is_approved, same)
