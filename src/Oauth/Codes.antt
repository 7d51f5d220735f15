-- ===== src/Oauth/Codes.antt =====
-- src/oauth.ts, the authorization codes of `RemoteDevOAuthProvider`: a code is taken when its exchange
-- begins, and comes back if the store fails to issue the tokens. Other calls may run in between.
use chatgpt_remote_mcp.Base.{
  ℕ, ◌≡◌, ◌≢◌, refl, inl, inr, Bool, false, ◌&&◌, not, Option, none, some, List, [], ◌∷◌, String,
  arith, str_eq, eq_iff, leb, Dict, lookup, put, delete, lookup-put, lookup-delete, Bool-cases,
  Option-cases, if◌then◌else◌, is_some, same_option,
}
use chatgpt_remote_mcp.Oauth.{Attempt, threw, returned, invalid_grant}

pub record CodeRecord : Type 0 where
  pub client_id : String
  pub code_challenge : String
  pub redirect_uri : String
  pub resource : String
  pub scopes : List String
  pub expires_at : ℕ

abbrev pub delete_expired : ℕ → Dict CodeRecord → Dict CodeRecord → Dict CodeRecord
delete_expired now [] codes = codes
delete_expired now ((code, r) ∷ entries) codes =
    if leb r.expires_at now
    then delete code (delete_expired now entries codes)
    else delete_expired now entries codes

-- `pruneAuthorizationCodes`.
unfoldable pub prune_codes : ℕ → Dict CodeRecord → Dict CodeRecord
prune_codes now codes = delete_expired now codes codes

-- The end of `authorize`, once the operator's key is accepted.
unfoldable pub authorize : String → CodeRecord → ℕ → Dict CodeRecord → Dict CodeRecord
authorize code r now codes = put code r (prune_codes now codes)

-- `challengeForAuthorizationCode`.
pub challenge_for : String → String → ℕ → Dict CodeRecord → Dict CodeRecord × Attempt String
challenge_for client_id code now codes =
    let pruned = prune_codes now codes in
    elim (lookup code pruned) [
      | none ↦ (pruned, threw invalid_grant)
      | some r ↦
          if str_eq r.client_id client_id
          then (pruned, returned r.code_challenge)
          else (pruned, threw invalid_grant)
    ]

abbrev pub is_bound_code : String → Option String → String → CodeRecord → Bool
is_bound_code client_id redirect_uri resource r =
    str_eq r.client_id client_id
    && same_option (some r.redirect_uri) redirect_uri
    && str_eq r.resource resource

-- `exchangeAuthorizationCode` up to `issueTokenPair`; `resource` is valid.
unfoldable pub take_code :
    String
    → String
    → Option String
    → String
    → ℕ
    → Dict CodeRecord
    → Dict CodeRecord × Attempt CodeRecord
take_code client_id code redirect_uri resource now codes =
    elim (lookup code (prune_codes now codes)) [
      | none ↦ (prune_codes now codes, threw invalid_grant)
      | some r ↦
          if is_bound_code client_id redirect_uri resource r
          then (delete code (prune_codes now codes), returned r)
          else (prune_codes now codes, threw invalid_grant)
    ]

-- Its `catch`.
pub restore_code : String → CodeRecord → ℕ → Dict CodeRecord → Dict CodeRecord
restore_code code r now codes =
    if not (leb r.expires_at now) && not (is_some (lookup code codes))
    then put code r codes
    else codes

pub data Move : Type 0 where
  authorizes : String → CodeRecord → ℕ → Move
  challenges : String → String → ℕ → Move
  takes : String → String → Option String → String → ℕ → Move
  restores : String → CodeRecord → ℕ → Move

pub step : Move → Dict CodeRecord → Dict CodeRecord
step (authorizes code r now) codes = authorize code r now codes
step (challenges client_id code now) codes = (challenge_for client_id code now codes).0
step (takes client_id code redirect_uri resource now) codes =
    (take_code client_id code redirect_uri resource now codes).0
step (restores code r now) codes = restore_code code r now codes

pub run : List Move → Dict CodeRecord → Dict CodeRecord
unfolding step
run [] codes = codes
run (m ∷ ms) codes = run ms (step m codes)

-- A move that does not bring the code back: another code is authorized, and it is not restored.
abbrev pub IsOther : String → Move → Type 0
IsOther code (authorizes c r now) = str_eq c code ≡ false
IsOther code (restores c r now) = str_eq c code ≡ false
IsOther code _ = Unit

abbrev pub AreOther : String → List Move → Type 0
AreOther code [] = Unit
AreOther code (m ∷ ms) = IsOther code m × AreOther code ms

delete_expired-none :
    (now : ℕ) (entries codes : Dict CodeRecord) (code : String)
    → lookup code codes ≡ none
    → lookup code (delete_expired now entries codes) ≡ none
delete_expired-none now [] codes code h = h
delete_expired-none now ((c, r) ∷ entries) codes code h =
    let rest = delete_expired-none now entries codes code h in
    let l = lookup-delete c code (delete_expired now entries codes) in
    elim (Bool-cases (leb r.expires_at now)) [
      | inl old ↦ rw (old, l, rest) (ground arith)
      | inr young ↦ rw young rest
    ]

prune_codes-none :
    (now : ℕ) (codes : Dict CodeRecord) (code : String)
    → lookup code codes ≡ none
    → lookup code (prune_codes now codes) ≡ none
unfolding prune_codes
prune_codes-none now codes code h = delete_expired-none now codes codes code h

step-none :
    (code : String) (m : Move) (codes : Dict CodeRecord)
    → IsOther code m
    → lookup code codes ≡ none
    → lookup code (step m codes) ≡ none
unfolding step authorize challenge_for take_code restore_code
step-none code (authorizes c r now) codes o h =
    rw (lookup-put c code r (prune_codes now codes), o) (prune_codes-none now codes code h)
step-none code (challenges client_id c now) codes o h =
    ground (arith, prune_codes-none now codes code h)
step-none code (takes client_id c redirect_uri resource now) codes o h =
    ground (arith, prune_codes-none now codes code h, lookup-delete c code (prune_codes now codes))
step-none code (restores c r now) codes o h = ground (arith, h, o, lookup-put c code r codes)

run-none :
    (code : String) (ms : List Move) (codes : Dict CodeRecord)
    → AreOther code ms
    → lookup code codes ≡ none
    → lookup code (run ms codes) ≡ none
unfolding run
run-none code [] codes o h = h
run-none code (m ∷ ms) codes o h =
    run-none code ms (step m codes) o.1 (step-none code m codes o.0 h)

-- An authorization code is exchanged once: after an exchange that took it, whatever calls follow, as
-- long as it is neither issued anew nor restored after a failure, no exchange takes it again.
pub take_code-once :
    (client_id client_id' code : String) (redirect_uri redirect_uri' : Option String)
    (resource resource' : String) (now now' : ℕ) (codes : Dict CodeRecord)
    {codes' codes'' : Dict CodeRecord} {r r' : CodeRecord}
    → take_code client_id code redirect_uri resource now codes ≡ (codes', returned r)
    → (ms : List Move) → AreOther code ms
    → take_code client_id' code redirect_uri' resource' now' (run ms codes')
      ≢ (codes'', returned r')
unfolding take_code
take_code-once client_id client_id' code u u' s s' now now' codes {codes'} h ms o again =
    let gone : lookup code codes' ≡ none = taken in
    let still = prune_codes-none now' (run ms codes') code (run-none code ms codes' o gone) in
    ground (arith, rw (still, take_code) at again)
  where
    taken : lookup code codes' ≡ none
    taken = elim (Option-cases (lookup code (prune_codes now codes))) [
      | inl missing ↦ ground (arith, rw (missing, take_code) at h)
      | inr (r, e) ↦
          let removed : lookup code (delete code (prune_codes now codes)) ≡ none =
            rw (lookup-delete code code (prune_codes now codes), (eq_iff code code).1 refl) refl in
          let is : delete code (prune_codes now codes) ≡ codes' =
            ground (arith, rw (e, take_code) at h) in
          rw is at removed
    ]
