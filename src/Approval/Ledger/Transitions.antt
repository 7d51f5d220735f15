-- ===== src/Approval/Ledger/Transitions.antt =====
-- The mutations of the ledger as the moves of a state machine, whatever the order of the calls.
use chatgpt_remote_mcp.Base.{
  ℕ, ◌≡◌, refl, ◌∙◌, inl, inr, Bool, true, false, ◌||◌, not, none, some, List, [], ◌∷◌, ◌++◌,
  String, arith, find, Bool-cases, Option-cases,
}
use chatgpt_remote_mcp.Errors.{Result, ok, err}
use chatgpt_remote_mcp.Approval.{ApprovalRecord, pending, approved, Outcome}
use chatgpt_remote_mcp.Approval.Ledger.{
  Decision, approve, deny, has_id, write_found, modify, add_request, decide_records, reserve,
  set_session, mark_uncertain, finish_records, write_decision, write_reservation, is_expired,
  same_status, decided_status,
}

pub data Mutation : Type 0 where
  adds : ApprovalRecord → Mutation
  decides : String → Decision → ℕ → String → Mutation
  reserves : String → String → String → ℕ → Mutation
  sets_session : String → String → Mutation
  marks_uncertain : String → Mutation
  finishes : String → Bool → ℕ → String → Outcome → Mutation

-- The records after a mutation; one that throws changes none.
abbrev pub records_after {ℓ} :
    {A : Type ℓ} → List ApprovalRecord → Result (List ApprovalRecord × A) → List ApprovalRecord
records_after rs (ok (rs', a)) = rs'
records_after rs (err e) = rs

unfoldable pub apply : Mutation → List ApprovalRecord → List ApprovalRecord
apply (adds new) rs = records_after rs (add_request new rs)
apply (decides id decision now ref) rs = records_after rs (decide_records id decision now ref rs)
apply (reserves id owner operation_id now) rs =
    records_after rs (reserve id owner operation_id now rs)
apply (sets_session id session_id) rs = records_after rs (set_session id session_id rs)
apply (marks_uncertain id) rs = records_after rs (mark_uncertain id rs)
apply (finishes id success ended_at session_id outcome) rs =
    records_after rs (finish_records id success ended_at session_id outcome rs)

unfoldable pub apply_all : List Mutation → List ApprovalRecord → List ApprovalRecord
apply_all [] rs = rs
apply_all (mu ∷ mus) rs = apply_all mus (apply mu rs)

-- Neither open for a decision nor for execution, and never executed: denied, for one.
abbrev pub IsClosed : ApprovalRecord → Type 0
IsClosed r =
    (same_status r.status pending ≡ false)
    × (same_status r.status approved ≡ false)
    × (r.operation_id ≡ none)

-- How one record may change.
pub record Evolves (r r' : ApprovalRecord) : Type 0 where
  pub same_id : r'.id ≡ r.id
  pub same_owner : r'.owner ≡ r.owner
  pub keeps_operation : (o : String) → r.operation_id ≡ some o → r'.operation_id ≡ some o
  pub keeps_closed : IsClosed r → IsClosed r'

-- The ledger only grows: each record evolves in its place.
abbrev pub Grows : List ApprovalRecord → List ApprovalRecord → Type 0
Grows [] rs' = Unit
Grows (r ∷ rs) [] = ⊥
Grows (r ∷ rs) (r' ∷ rs') = Evolves r r' × Grows rs rs'

Evolves-refl : (r : ApprovalRecord) → Evolves r r
Evolves-refl r = record {
  same_id = refl;
  same_owner = refl;
  keeps_operation = λ o e. e;
  keeps_closed = λ h. h;
}

Grows-append : (rs ys : List ApprovalRecord) → Grows rs (rs ++ ys)
Grows-append [] ys = tt
Grows-append (r ∷ rs) ys = (Evolves-refl r, Grows-append rs ys)

Grows-refl : (rs : List ApprovalRecord) → Grows rs rs
Grows-refl [] = tt
Grows-refl (r ∷ rs) = (Evolves-refl r, Grows-refl rs)

-- A write to the record that was found.
Grows-modify :
    (p : ApprovalRecord → Bool) (f : ApprovalRecord → ApprovalRecord) (rs : List ApprovalRecord)
    {found : ApprovalRecord}
    → find p rs ≡ some found
    → Evolves found (f found)
    → Grows rs (modify p f rs)
Grows-modify p f [] e h = tt
Grows-modify p f (r ∷ rs) {found} e h = elim (Bool-cases (p r)) [
  | inl here ↦
      let same : r ≡ found = ground (arith, here, e) in rw here ((rw (← same) at h), Grows-refl rs)
  | inr later ↦ rw later (Evolves-refl r, Grows-modify p f rs (rw later at e) h)
]

add_request-Grows :
    (new : ApprovalRecord) (rs : List ApprovalRecord)
    → Grows rs (records_after rs (add_request new rs))
unfolding add_request
add_request-Grows new rs = ground (arith, Grows-refl rs, Grows-append rs (new ∷ []))

decide_records-Grows :
    (id : String) (decision : Decision) (now : ℕ) (ref : String) (rs : List ApprovalRecord)
    → Grows rs (records_after rs (decide_records id decision now ref rs))
unfolding decide_records
decide_records-Grows id decision now ref rs = elim (Option-cases (find (has_id id none) rs)) [
  | inl missing ↦ rw missing (Grows-refl rs)
  | inr (found, e) ↦ elim (Bool-cases (same_status found.status (decided_status decision))) [
    | inl again ↦ rw (e, again) (Grows-refl rs)
    | inr anew ↦
        elim (Bool-cases (not (same_status found.status pending) || is_expired now found)) [
          | inl late ↦ rw (e, anew, late) (Grows-refl rs)
          | inr open_still ↦
              rw (e, anew, open_still)
                (Grows-modify _ _ rs e (written decision found (ground arith)))
        ]
  ]
]
  where
    written :
        (decision : Decision) (r : ApprovalRecord)
        → same_status r.status pending ≡ true
        → Evolves r (write_decision decision now ref r)
    written approve r h = record {
      same_id = refl;
      same_owner = refl;
      keeps_operation = λ o e. e;
      keeps_closed = λ c. cc (h, c.0);
    }
    written deny r h = record {
      same_id = refl;
      same_owner = refl;
      keeps_operation = λ o e. e;
      keeps_closed = λ c. cc (h, c.0);
    }

reserve-Grows :
    (id owner operation_id : String) (now : ℕ) (rs : List ApprovalRecord)
    → Grows rs (records_after rs (reserve id owner operation_id now rs))
unfolding reserve
reserve-Grows id owner operation_id now rs =
    elim (Option-cases (find (has_id id (some owner)) rs)) [
      | inl missing ↦ rw missing (Grows-refl rs)
      | inr (found, e) ↦ elim (Option-cases found.operation_id) [
        | inr (o, used) ↦ rw (e, used) (ground (arith, Grows-refl rs))
        | inl unused ↦ elim (Bool-cases (same_status found.status approved)) [
          | inr other ↦ rw (e, unused, other) (Grows-refl rs)
          | inl ready ↦
              rw (e, unused, ready)
                (ground (
                  arith,
                  Grows-refl rs,
                  Grows-modify (has_id id (some owner)) (write_reservation operation_id) rs e
                      (record {
                        same_id = refl;
                        same_owner = refl;
                        keeps_operation = λ o h. cc (h, unused);
                        keeps_closed = λ c. cc (c.1, ready);
                      }),
                ))
        ]
      ]
    ]

-- A write that leaves the operation alone and does not open the record.
Grows-note :
    (id : String) (f : ApprovalRecord → ApprovalRecord) (rs : List ApprovalRecord)
    → ((r : ApprovalRecord) → Evolves r (f r))
    → Grows rs (records_after rs (write_found id f rs))
unfolding write_found
Grows-note id f rs h = elim (Option-cases (find (has_id id none) rs)) [
  | inl missing ↦ rw missing (Grows-refl rs)
  | inr (found, e) ↦ rw e (Grows-modify (has_id id none) f rs e (h found))
]

note-Evolves :
    (r r' : ApprovalRecord)
    → r'.id ≡ r.id
    → r'.owner ≡ r.owner
    → r'.operation_id ≡ r.operation_id
    → (IsClosed r
        → (same_status r'.status pending ≡ false) × (same_status r'.status approved ≡ false))
    → Evolves r r'
note-Evolves r r' i w o closed = record {
  same_id = i;
  same_owner = w;
  keeps_operation = λ x e. o ∙ e;
  keeps_closed = λ c. ((closed c).0, (closed c).1, o ∙ c.2);
}

-- Every mutation lets the records evolve in place, and at most adds one.
pub apply-Grows : (mu : Mutation) (rs : List ApprovalRecord) → Grows rs (apply mu rs)
unfolding apply set_session mark_uncertain finish_records
apply-Grows (adds new) rs = add_request-Grows new rs
apply-Grows (decides id decision now ref) rs = decide_records-Grows id decision now ref rs
apply-Grows (reserves id owner operation_id now) rs = reserve-Grows id owner operation_id now rs
apply-Grows (sets_session id session_id) rs =
    Grows-note id _ rs λ r. note-Evolves r _ refl refl refl λ c. (c.0, c.1)
apply-Grows (marks_uncertain id) rs =
    Grows-note id _ rs λ r. note-Evolves r _ refl refl refl λ c. (refl, refl)
apply-Grows (finishes id true ended_at session_id outcome) rs =
    Grows-note id _ rs λ r. note-Evolves r _ refl refl refl λ c. (refl, refl)
apply-Grows (finishes id false ended_at session_id outcome) rs =
    Grows-note id _ rs λ r. note-Evolves r _ refl refl refl λ c. (refl, refl)

Evolves-trans : {a b c : ApprovalRecord} → Evolves a b → Evolves b c → Evolves a c
Evolves-trans e f = record {
  same_id = f.same_id ∙ e.same_id;
  same_owner = f.same_owner ∙ e.same_owner;
  keeps_operation = λ o h. f.keeps_operation o (e.keeps_operation o h);
  keeps_closed = λ h. f.keeps_closed (e.keeps_closed h);
}

Grows-trans : (xs ys zs : List ApprovalRecord) → Grows xs ys → Grows ys zs → Grows xs zs
Grows-trans [] ys zs g h = tt
Grows-trans (a ∷ xs) [] zs g h = absurd g
Grows-trans (a ∷ xs) (b ∷ ys) [] g h = absurd h
Grows-trans (a ∷ xs) (b ∷ ys) (c ∷ zs) g h = (Evolves-trans g.0 h.0, Grows-trans xs ys zs g.1 h.1)

pub apply_all-Grows : (mus : List Mutation) (rs : List ApprovalRecord) → Grows rs (apply_all mus rs)
unfolding apply_all
apply_all-Grows [] rs = Grows-refl rs
apply_all-Grows (mu ∷ mus) rs =
    Grows-trans rs (apply mu rs) (apply_all mus (apply mu rs)) (apply-Grows mu rs)
      (apply_all-Grows mus (apply mu rs))
