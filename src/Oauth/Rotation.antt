-- ===== src/Oauth/Rotation.antt =====
-- src/oauth.ts: a refresh token is exchanged once, and its replay revokes the grant.
use chatgpt_remote_mcp.Base.{
  ℕ, ◌≡◌, ◌≢◌, refl, sym, subst, inl, inr, Bool, true, false, some, List, [], ◌∷◌, String, arith,
  eq_iff, lookup, put, delete, lookup-delete, Bool-cases, Option-cases, or_default,
}
use chatgpt_remote_mcp.Oauth.{
  used_refresh, StoredToken, Client, OauthState, OauthLimits, Attempt, threw, returned,
  delete_where, prune_expired, mutate, make_room, add_client, register_client, NewPair, OauthTokens,
  issue, issue_token_pair, is_used, is_revoked_by, revoke_grant, RefreshRequest, RefreshResult,
  invalid, granted, is_bound, rotate, rotate_refresh_token, revoke_operation, revoke,
  get_access_token,
}
use chatgpt_remote_mcp.Oauth.Tokens.{
  IsSpent, IsNewTo, spend-IsSpent, issue-IsSpent, mutate-IsSpent, rotate-IsSpent, prune-IsSpent,
  delete_where-kept, delete_where-swept,
}

-- The operations that change the store.
pub data Move : Type 0 where
  registers : (String → String → Bool) → OauthLimits → Client → ℕ → Bool → Move
  issues : OauthLimits → NewPair → ℕ → Bool → String → List String → String → String → Bool → Move
  rotates : OauthLimits → NewPair → RefreshRequest → ℕ → Bool → Move
  revokes : String → String → ℕ → Bool → Move

pub step : Move → OauthState → OauthState
step (registers before l client now persisted) s =
    (register_client before l client now persisted s).0
step (issues l pair now persisted client_id scopes resource grant_id with_refresh) s =
    (issue_token_pair l pair now persisted client_id scopes resource grant_id with_refresh s).0
step (rotates l pair q now persisted) s = (rotate_refresh_token l pair q now persisted s).0
step (revokes hash client_id now persisted) s = (revoke hash client_id now persisted s).0

pub run : List Move → OauthState → OauthState
unfolding step
run [] s = s
run (m ∷ ms) s = run ms (step m s)

-- New tokens are random: none has this hash.
abbrev pub IsFreshFor : String → Move → Type 0
IsFreshFor hash (issues l pair now persisted client_id scopes resource grant_id with_refresh) =
    IsNewTo hash pair
IsFreshFor hash (rotates l pair q now persisted) = IsNewTo hash pair
IsFreshFor hash _ = Unit

abbrev pub AreFreshFor : String → List Move → Type 0
AreFreshFor hash [] = Unit
AreFreshFor hash (m ∷ ms) = IsFreshFor hash m × AreFreshFor hash ms

make_room-tokens :
    (before : String → String → Bool) (l : OauthLimits) (s : OauthState)
    → (make_room before l s).0.tokens ≡ s.tokens
unfolding make_room
make_room-tokens before l s = ground arith

add_client-tokens :
    (before : String → String → Bool) (l : OauthLimits) (client : Client) (s : OauthState)
    → (add_client before l client s).0.tokens ≡ s.tokens
add_client-tokens before l client s = ground (arith, make_room-tokens before l s)

tokens-IsSpent :
    {hash : String} (s s' : OauthState) → s'.tokens ≡ s.tokens → IsSpent hash s → IsSpent hash s'
tokens-IsSpent s s' same v = record { only_used = λ t h. v.only_used t (rw same at h) }

revoke_operation-IsSpent :
    {hash : String} (k client_id : String) (s : OauthState)
    → IsSpent hash s
    → IsSpent hash (revoke_operation k client_id s).0
unfolding revoke_grant
revoke_operation-IsSpent {hash} k client_id s v =
    let removed : IsSpent hash (record s { tokens = delete k s.tokens }) = record {
      only_used = λ t h. v.only_used t (ground (arith, rw (lookup-delete k hash s.tokens) at h));
    } in
    elim (Option-cases (lookup k s.tokens)) [
      | inl missing ↦ rw (missing, revoke_operation) v
      | inr (t, e) ↦ elim (Option-cases t.grant_id) [
        | inl alone ↦ rw (e, alone, revoke_operation) (ground (arith, v, removed))
        | inr (g, at) ↦
            let swept : IsSpent hash (record s {
              tokens = delete_where (is_revoked_by (some g) false) s.tokens s.tokens;
            }) =
              record {
                only_used = λ t h. v.only_used t (delete_where-kept _ s.tokens s.tokens hash h);
              } in
            rw (e, at, revoke_operation) (ground (arith, v, swept))
      ]
    ]

step-IsSpent :
    (hash : String) (m : Move) (s : OauthState)
    → IsFreshFor hash m
    → IsSpent hash s
    → IsSpent hash (step m s)
unfolding step register_client issue_token_pair rotate_refresh_token revoke
step-IsSpent hash (registers before l client now persisted) s f v = ground (
  arith,
  v,
  mutate-IsSpent (add_client before l client) now persisted s v
      (λ u w. tokens-IsSpent u _ (add_client-tokens before l client u) w),
)
step-IsSpent hash (issues l pair now persisted client_id scopes resource grant_id with_refresh) s f
      v =
    mutate-IsSpent _ now persisted s v
      (λ u w. issue-IsSpent l pair now client_id scopes resource grant_id with_refresh u f w)
step-IsSpent hash (rotates l pair q now persisted) s f v =
    mutate-IsSpent _ now persisted s v (λ u w. rotate-IsSpent l pair q now u f w)
step-IsSpent hash (revokes k client_id now persisted) s f v =
    mutate-IsSpent _ now persisted s v (λ u w. revoke_operation-IsSpent k client_id u w)

run-IsSpent :
    (hash : String) (ms : List Move) (s : OauthState)
    → AreFreshFor hash ms
    → IsSpent hash s
    → IsSpent hash (run ms s)
unfolding run
run-IsSpent hash [] s f v = v
run-IsSpent hash (m ∷ ms) s f v = run-IsSpent hash ms (step m s) f.1 (step-IsSpent hash m s f.0 v)

mutate-returned {ℓ} :
    {A : Type ℓ} (operation : OauthState → OauthState × Attempt A) (now : ℕ) (persisted : Bool)
    (s : OauthState) {s' : OauthState} {a : A}
    → mutate operation now persisted s ≡ (s', returned a)
    → operation (prune_expired now s) ≡ (s', returned a)
unfolding mutate
mutate-returned {A = A} operation now persisted s {s'} {a} h =
    go (operation (prune_expired now s)) refl
  where
    go : (o : OauthState × Attempt A) → operation (prune_expired now s) ≡ o → o ≡ (s', returned a)
    go (u, threw e) at = ground (arith, rw (at, mutate) at h)
    go (u, returned b) at = ground (arith, rw (at, mutate) at h)

mutate-persists {ℓ} :
    {A : Type ℓ} (operation : OauthState → OauthState × Attempt A) (now : ℕ) (s : OauthState)
    {s' : OauthState} {a : A}
    → operation (prune_expired now s) ≡ (s', returned a)
    → mutate operation now true s ≡ (s', returned a)
unfolding mutate
mutate-persists operation now s e = ground (arith, e)

-- What a revocation that keeps the evidence leaves of a grant is used.
revoke_grant-removes :
    (g : String) (s : OauthState) (j : String) {t : StoredToken}
    → lookup j (revoke_grant (some g) true s).tokens ≡ some t
    → is_used t ≡ false
    → t.grant_id ≢ some g
unfolding revoke_grant
revoke_grant-removes g s j {t} there live same =
    let kept = delete_where-swept (is_revoked_by (some g) true) s.tokens j there in
    ground (arith, rw same at kept, live, (eq_iff g g).1 refl)

-- A rotation that grants tokens spends the refresh token.
rotate-spends :
    (l : OauthLimits) (pair : NewPair) (q : RefreshRequest) (now : ℕ) (s : OauthState)
    {s' : OauthState} {tokens : OauthTokens}
    → IsNewTo q.hash pair
    → rotate l pair q now s ≡ (s', returned (granted tokens))
    → IsSpent q.hash s'
unfolding rotate
rotate-spends l pair q now s {s'} {tokens} new h = elim (Option-cases (lookup q.hash s.tokens)) [
  | inl missing ↦ ground (arith, rw (missing, rotate) at h)
  | inr (t, e) ↦
      let used : StoredToken = record t {
        type_of = used_refresh;
        grant_id = some (or_default t.grant_id q.new_grant_id);
      } in
      let scopes = or_default q.requested_scopes t.scopes in
      let grant_id = or_default t.grant_id q.new_grant_id in
      let spent = record s { tokens = put q.hash used s.tokens } in
      let after = issue l pair now q.client_id scopes q.resource grant_id true spent in
      let is : after.0 ≡ s' = ground (arith, rw (e, rotate) at h) in
      subst (IsSpent q.hash) is (
        issue-IsSpent l pair now q.client_id scopes q.resource grant_id true spent new
          (spend-IsSpent q.hash used s refl))
]

-- No rotation of a hash that stands for used tokens only grants tokens.
rotate-refuses :
    (l : OauthLimits) (pair : NewPair) (q : RefreshRequest) (now : ℕ) (s : OauthState)
    {s' : OauthState} {tokens : OauthTokens}
    → IsSpent q.hash s
    → rotate l pair q now s ≢ (s', returned (granted tokens))
unfolding rotate
rotate-refuses l pair q now s v h = elim (Option-cases (lookup q.hash s.tokens)) [
  | inl missing ↦ ground (arith, rw (missing, rotate) at h)
  | inr (t, e) ↦ ground (arith, rw (e, rotate) at h, v.only_used t e)
]

-- A refresh token is exchanged at most once: after an exchange that granted tokens, whatever
-- operations of the store follow, no exchange of the same token grants tokens again. New tokens are
-- taken to be random, so that none has its hash.
pub rotate-once :
    (l l' : OauthLimits) (pair pair' : NewPair) (q q' : RefreshRequest) (now now' : ℕ)
    (persisted persisted' : Bool) (s : OauthState) {s' s'' : OauthState}
    {tokens tokens' : OauthTokens}
    → IsNewTo q.hash pair
    → rotate_refresh_token l pair q now persisted s ≡ (s', returned (granted tokens))
    → (ms : List Move) → AreFreshFor q.hash ms
    → q'.hash ≡ q.hash
    → rotate_refresh_token l' pair' q' now' persisted' (run ms s')
      ≢ (s'', returned (granted tokens'))
unfolding rotate_refresh_token
rotate-once l l' pair pair' q q' now now' persisted persisted' s {s'} new h ms fresh same again =
    let spent : IsSpent q.hash s' =
      rotate-spends l pair q now (prune_expired now s) new
        (mutate-returned (rotate l pair q now) now persisted s h) in
    let still = run-IsSpent q.hash ms s' fresh spent in
    let pruned : IsSpent q'.hash (prune_expired now' (run ms s')) =
      rw same (prune-IsSpent now' (run ms s') still) in
    rotate-refuses l' pair' q' now' (prune_expired now' (run ms s')) pruned
      (mutate-returned (rotate l' pair' q' now') now' persisted' (run ms s') again)

get_access_token-eq-some :
    (j : String) (now : ℕ) (s : OauthState) {t : StoredToken}
    → get_access_token j now s ≡ some t
    → (lookup j s.tokens ≡ some t) × (is_used t ≡ false)
unfolding get_access_token
get_access_token-eq-some j now s {t} h = elim (Option-cases (lookup j s.tokens)) [
  | inl missing ↦ ground (arith, rw (missing, get_access_token) at h)
  | inr (u, e) ↦
      let h' = rw (e, get_access_token) at h in
      let same : u ≡ t = ground (arith, h') in
      let not_used : is_used u ≡ false = ground (arith, h') in (rw same at e, rw same at not_used)
]

-- What is left of a revoked grant: tokens that are used up. None is accepted as an access token, and no
-- exchange of one grants tokens.
pub record IsRevoked (g : String) (s : OauthState) : Type 0 where
  pub all_used :
      (j : String) (t : StoredToken)
      → lookup j s.tokens ≡ some t
      → t.grant_id ≡ some g
      → is_used t ≡ true
  pub no_access :
      (j : String) (later : ℕ) (t : StoredToken)
      → get_access_token j later s ≡ some t
      → t.grant_id ≢ some g
  pub no_exchange :
      (l : OauthLimits) (pair : NewPair) (q : RefreshRequest) (later : ℕ) (persisted : Bool)
      (t : StoredToken) (s' : OauthState) (tokens : OauthTokens)
      → lookup q.hash s.tokens ≡ some t
      → t.grant_id ≡ some g
      → rotate_refresh_token l pair q later persisted s ≢ (s', returned (granted tokens))

revoke_grant-IsRevoked : (g : String) (s : OauthState) → IsRevoked g (revoke_grant (some g) true s)
unfolding rotate_refresh_token
revoke_grant-IsRevoked g s = record {
  all_used = used;
  no_access = λ j later t found same.
      let (there, live) = get_access_token-eq-some j later after found in
      revoke_grant-removes g s j there live same;
  no_exchange = λ l pair q later persisted t s' tokens there same again.
      let spent : IsSpent q.hash after = record {
        only_used = λ u h.
            let it_is : t ≡ u = cc (there, h) in
            let its_grant : u.grant_id ≡ some g = rw it_is at same in used q.hash u h its_grant;
      } in
      rotate-refuses l pair q later (prune_expired later after) (prune-IsSpent later after spent)
        (mutate-returned (rotate l pair q later) later persisted after again);
}
  where
    after : OauthState
    after = revoke_grant (some g) true s

    used :
        (j : String) (t : StoredToken)
        → lookup j after.tokens ≡ some t
        → t.grant_id ≡ some g
        → is_used t ≡ true
    used j t there same = elim (Bool-cases (is_used t)) [
      | inl yes_used ↦ yes_used
      | inr live ↦ absurd (revoke_grant-removes g s j there live same)
    ]

-- What the exchange said, and the state that it leaves.
abbrev pub IsRefusal : String → OauthState × Attempt RefreshResult → Type 0
IsRefusal g after = (after.1 ≡ returned invalid) × IsRevoked g after.0

-- A refresh token that was used and is presented again, by its own client and for its resource,
-- before it expires, is refused, and if the state is persisted its whole grant is revoked: every token
-- of that grant that is still stored, access or refresh, is used up, no access token of the grant is
-- accepted, and an exchange of a token of the grant in the state that is left grants no tokens.
pub rotate-replay :
    (l : OauthLimits) (pair : NewPair) (q : RefreshRequest) (now : ℕ) (s : OauthState)
    {current : StoredToken} {g : String}
    → lookup q.hash (prune_expired now s).tokens ≡ some current
    → is_bound q now current ≡ true
    → is_used current ≡ true
    → current.grant_id ≡ some g
    → IsRefusal g (rotate_refresh_token l pair q now true s)
unfolding rotate_refresh_token rotate
rotate-replay l pair q now s {current} {g} stored bound used at =
    let u = prune_expired now s in
    let is : rotate l pair q now u ≡ (revoke_grant (some g) true u, returned invalid) =
      ground (arith, stored, bound, used, at) in
    let whole : mutate (rotate l pair q now) now true s
        ≡ (revoke_grant (some g) true u, returned invalid) =
      mutate-persists (rotate l pair q now) now s is in
    subst (IsRefusal g) (sym whole) (refl, revoke_grant-IsRevoked g u)
