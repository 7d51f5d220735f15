-- ===== src/Approval/Ledger/Exclusive.antt =====
-- Records of the ledger that are sound and exclude each other, under a write to one of them.
use chatgpt_remote_mcp.Base.{
  ◌≡◌, refl, subst, ◌∙◌, inl, inr, Bool, true, false, ◌&&◌, ◌||◌, some, List, [], ◌∷◌, String,
  arith, str_eq, eq_iff, find, Bool-cases, is_some, All,
}
use chatgpt_remote_mcp.Approval.{ApprovalRecord, succeeded}
use chatgpt_remote_mcp.Approval.Ledger.{modify, is_unresolved, same_status}

-- A record is sound: an approval was decided, what has an operation was approved, and what is or was
-- executed has an operation.
pub record IsSound (r : ApprovalRecord) : Type 0 where
  pub reference_decided : is_some r.approval_ref ≡ true → r.decided ≡ true
  pub operation_approved : is_some r.operation_id ≡ true → is_some r.approval_ref ≡ true
  pub unresolved_started : is_unresolved r ≡ true → is_some r.operation_id ≡ true
  pub succeeded_started : same_status r.status succeeded ≡ true → is_some r.operation_id ≡ true

-- Two unresolved executions of one workspace or directory.
abbrev pub clash : ApprovalRecord → ApprovalRecord → Bool
clash r r' =
    is_unresolved r
    && is_unresolved r'
    && (str_eq r.workspace_id r'.workspace_id || str_eq r.cwd r'.cwd)

abbrev pub Exclusive : List ApprovalRecord → Type 0
Exclusive [] = Unit
Exclusive (r ∷ rs) = All (λ r'. clash r r' ≡ false) rs × Exclusive rs

abbrev pub DistinctIds : List ApprovalRecord → Type 0
DistinctIds [] = Unit
DistinctIds (r ∷ rs) = All (λ r'. str_eq r'.id r.id ≡ false) rs × DistinctIds rs

pub record IsSafe (rs : List ApprovalRecord) : Type 0 where
  pub sound : All IsSound rs
  pub exclusive : Exclusive rs
  pub distinct : DistinctIds rs

-- A write to a found record keeps what holds of each record.
pub All-modify :
    (P : ApprovalRecord → Type 0) (p : ApprovalRecord → Bool) (f : ApprovalRecord → ApprovalRecord)
    (rs : List ApprovalRecord) {found : ApprovalRecord}
    → find p rs ≡ some found
    → (P found → P (f found))
    → All P rs
    → All P (modify p f rs)
All-modify P p f [] e h a = tt
All-modify P p f (r ∷ rs) {found} e h a = elim (Bool-cases (p r)) [
  | inl here ↦
      let same : found ≡ r = ground (arith, here, e) in
      let h' : P r → P (f r) = rw same at h in rw here (h' a.0, a.1)
  | inr later ↦ rw later (a.0, All-modify P p f rs (rw later at e) h a.1)
]

pub find-All :
    (P : ApprovalRecord → Type 0) (p : ApprovalRecord → Bool) (rs : List ApprovalRecord)
    {found : ApprovalRecord}
    → find p rs ≡ some found
    → All P rs
    → P found
find-All P p [] e a = cc
find-All P p (r ∷ rs) {found} e a = elim (Bool-cases (p r)) [
  | inl here ↦ let same : r ≡ found = ground (arith, here, e) in rw same at a.0
  | inr later ↦ find-All P p rs (rw later at e) a.1
]

pub str_eq_comm : (a b : String) → str_eq a b ≡ str_eq b a
str_eq_comm a b = ground (arith, eq_iff a b, eq_iff b a)

clash_comm : (a b : ApprovalRecord) → clash a b ≡ clash b a
clash_comm a b =
    let w = str_eq_comm a.workspace_id b.workspace_id in
    let c = str_eq_comm a.cwd b.cwd in
    elim (Bool-cases (is_unresolved a)) [
      | inl ha ↦ elim (Bool-cases (is_unresolved b)) [
        | inl hb ↦ rw (ha, hb, w, c) refl
        | inr hb ↦ rw (ha, hb) refl
      ]
      | inr ha ↦ elim (Bool-cases (is_unresolved b)) [
        | inl hb ↦ rw (ha, hb) refl
        | inr hb ↦ rw (ha, hb) refl
      ]
    ]

pub All-map :
    {P Q : ApprovalRecord → Type 0} (rs : List ApprovalRecord)
    → ((r : ApprovalRecord) → P r → Q r)
    → All P rs
    → All Q rs
All-map [] h a = tt
All-map (r ∷ rs) h a = (h r a.0, All-map rs h a.1)

All-both :
    {P Q R : ApprovalRecord → Type 0} (rs : List ApprovalRecord)
    → ((r : ApprovalRecord) → P r → Q r → R r)
    → All P rs
    → All Q rs
    → All R rs
All-both [] h a b = tt
All-both (r ∷ rs) h a b = (h r a.0 b.0, All-both rs h a.1 b.1)

-- The found record is changed, and clashes with no other record.
Exclusive-modify :
    (p : ApprovalRecord → Bool) (f : ApprovalRecord → ApprovalRecord) (rs : List ApprovalRecord)
    {found : ApprovalRecord}
    → find p rs ≡ some found
    → Exclusive rs
    → DistinctIds rs
    → All (λ r. str_eq r.id found.id ≡ false → clash (f found) r ≡ false) rs
    → Exclusive (modify p f rs)
Exclusive-modify p f [] e x d apart = tt
Exclusive-modify p f (r ∷ rs) {found} e x d apart = elim (Bool-cases (p r)) [
  | inl here ↦
      let same : found ≡ r = ground (arith, here, e) in
      rw here (
        All-both {P = λ y. str_eq y.id r.id ≡ false}
            {Q = λ y. str_eq y.id found.id ≡ false → clash (f found) y ≡ false}
            {R = λ y. clash (f r) y ≡ false} rs
            (λ y a b.
              let a' : str_eq y.id found.id ≡ false = rw same a in
              let c : clash (f found) y ≡ false = b a' in subst (λ z. clash (f z) y ≡ false) same c)
            d.0 apart.1,
        x.1,
      )
  | inr later ↦
      let e' : find p rs ≡ some found = rw later at e in
      let other : str_eq found.id r.id ≡ false =
        find-All (λ y. str_eq y.id r.id ≡ false) p rs e' d.0 in
      let other' : str_eq r.id found.id ≡ false = str_eq_comm r.id found.id ∙ other in
      rw later (
        All-modify (λ y. clash r y ≡ false) p f rs e'
            (λ old. clash_comm r (f found) ∙ apart.0 other') x.0,
        Exclusive-modify p f rs e' x.1 d.1 apart.1,
      )
]

DistinctIds-modify :
    (p : ApprovalRecord → Bool) (f : ApprovalRecord → ApprovalRecord) (rs : List ApprovalRecord)
    {found : ApprovalRecord}
    → find p rs ≡ some found
    → DistinctIds rs
    → ((f found).id ≡ found.id)
    → DistinctIds (modify p f rs)
DistinctIds-modify p f [] e d same_id = tt
DistinctIds-modify p f (r ∷ rs) {found} e d same_id = elim (Bool-cases (p r)) [
  | inl here ↦
      let same : found ≡ r = ground (arith, here, e) in
      let same_id' : (f r).id ≡ r.id = rw same at same_id in rw (here, same_id') d
  | inr later ↦
      let e' : find p rs ≡ some found = rw later at e in
      rw later (
        All-modify (λ y. str_eq y.id r.id ≡ false) p f rs e' (λ old. rw same_id old) d.0,
        DistinctIds-modify p f rs e' d.1 same_id,
      )
]

-- The found record is changed to `r'`, which keeps the id; nothing that it clashes with is there.
pub IsSafe-modify :
    (p : ApprovalRecord → Bool) (f : ApprovalRecord → ApprovalRecord) (rs : List ApprovalRecord)
    {found : ApprovalRecord}
    → find p rs ≡ some found
    → IsSafe rs
    → (IsSound found → IsSound (f found))
    → ((f found).id ≡ found.id)
    → All (λ r. str_eq r.id found.id ≡ false → clash (f found) r ≡ false) rs
    → IsSafe (modify p f rs)
IsSafe-modify p f rs {found} e s sound same_id apart = record {
  sound = All-modify IsSound p f rs e sound s.sound;
  exclusive = Exclusive-modify p f rs e s.exclusive s.distinct apart;
  distinct = DistinctIds-modify p f rs e s.distinct same_id;
}

-- Changes that leave a record unresolved only where it was add no clash.
pub clash_mono :
    (r r' y : ApprovalRecord)
    → r'.workspace_id ≡ r.workspace_id
    → r'.cwd ≡ r.cwd
    → (is_unresolved r' ≡ true → is_unresolved r ≡ true)
    → clash r y ≡ false
    → clash r' y ≡ false
clash_mono r r' y w c u h = elim (Bool-cases (is_unresolved r')) [
  | inr resolved ↦ rw resolved refl
  | inl open_still ↦
      let h' : (is_unresolved y && (str_eq r.workspace_id y.workspace_id || str_eq r.cwd y.cwd))
          ≡ false =
        rw (u open_still) at h in
      rw (open_still, w, c) h'
]

-- The clashes of a record of the ledger.
pub Exclusive-found :
    (p : ApprovalRecord → Bool) (rs : List ApprovalRecord) {found : ApprovalRecord}
    → find p rs ≡ some found
    → Exclusive rs
    → DistinctIds rs
    → All (λ r. str_eq r.id found.id ≡ false → clash found r ≡ false) rs
Exclusive-found p [] e x d = tt
Exclusive-found p (r ∷ rs) {found} e x d = elim (Bool-cases (p r)) [
  | inl here ↦
      let same : r ≡ found = ground (arith, here, e) in
      (
        λ other. cc (rw same at other, (eq_iff found.id found.id).1 refl),
        All-map {P = λ y. clash r y ≡ false} rs (λ y a other. rw same at a) x.0,
      )
  | inr later ↦
      let e' : find p rs ≡ some found = rw later at e in
      (
        λ other. clash_comm found r ∙ find-All (λ y. clash r y ≡ false) p rs e' x.0,
        Exclusive-found p rs e' x.1 d.1,
      )
]
