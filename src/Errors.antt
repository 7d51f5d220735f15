-- ===== src/Errors.antt =====
-- src/errors.ts: `McpToolError` by its code, and results of calls that may throw.
use chatgpt_remote_mcp.Base.{◌≡◌, refl, ◌⊎◌, inl, inr, Bool, true, false, Option, none, some}

pub data ToolError : Type 0 where
  approval_disabled approval_auth_required approval_not_found approval_task_mismatch : ToolError
  approval_identity_mismatch approval_identity_ineligible approval_not_pending : ToolError
  approval_already_consumed approval_required approval_unresolved_execution : ToolError
  idempotency_conflict storage_full persistence_unavailable invalid_state : ToolError
  unknown_task task_closed state_corrupt workspace_mismatch revision_conflict : ToolError
  active_task_conflict unresolved_execution completion_checkpoint_conflict : ToolError
  process_session_unknown replacement_mismatch : ToolError
  artifact_public_url_unavailable artifact_public_url_invalid artifact_capacity : ToolError
  artifact_source_not_file artifact_too_large artifact_name_invalid : ToolError
  artifact_snapshot_invalid other : ToolError

-- What a call throws or returns.
pub data Result {ℓ} (Value : Type ℓ) : Type ℓ where
  err : ToolError → Result Value
  ok : Value → Result Value

-- `if (!value) throw e`.
abbrev pub or_throw {ℓ} : {V : Type ℓ} → Option V → ToolError → Result V
or_throw (some v) thrown = ok v
or_throw none thrown = err thrown

-- `if (!test) throw e`.
abbrev pub guard : Bool → ToolError → Result (Unit {0})
guard false thrown = err thrown
guard true _ = ok tt

-- The statements after a call run if it did not throw.
infixl 5 ◌>>=◌
abbrev pub ◌>>=◌ {ℓ κ} : {V : Type ℓ} {W : Type κ} → Result V → (V → Result W) → Result W
err thrown >>= next = err thrown
ok v >>= next = next v

infixl 5 ◌>>◌
abbrev pub ◌>>◌ {κ} : {W : Type κ} → Result (Unit {0}) → Result W → Result W
call >> next = call >>= (λ _. next)

-- Inversion of statements that returned.
pub guard-eq-ok :
    (test : Bool) (thrown : ToolError) {u : Unit {0}} → guard test thrown ≡ ok u → test ≡ true
guard-eq-ok false thrown h = cc
guard-eq-ok true thrown h = refl

pub >>=-eq-ok {ℓ κ} :
    {V : Type ℓ} {W : Type κ} {w : W} (call : Result V) (next : V → Result W)
    → (call >>= next) ≡ ok w
    → (v : V) × (call ≡ ok v) × (next v ≡ ok w)
>>=-eq-ok (err thrown) next h = cc
>>=-eq-ok (ok v) next h = (v, refl, h)

pub or_throw-eq-ok {ℓ} :
    {V : Type ℓ} {v : V} (found : Option V) (thrown : ToolError)
    → or_throw found thrown ≡ ok v
    → found ≡ some v
or_throw-eq-ok none thrown h = cc
or_throw-eq-ok (some v) thrown h = cc

pub Result-cases {ℓ} :
    {V : Type ℓ} (call : Result V)
    → ((thrown : ToolError) × (call ≡ err thrown)) ⊎ ((v : V) × (call ≡ ok v))
Result-cases (err thrown) = inl (thrown, refl)
Result-cases (ok v) = inr (v, refl)
