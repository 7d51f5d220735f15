-- ===== src/Oauth.antt =====
-- src/oauth.ts, `PersistentOAuthStore` and the authorization codes of its provider: tokens by their
-- hash, clients by their id. A mutation runs alone in its queue, so it is one step; `persisted` says
-- whether the state file was written. New tokens are given by their hashes, times are milliseconds.
pub mod Tokens
pub mod Rotation
pub mod Codes
use chatgpt_remote_mcp.Base.{
  ℕ, ◌+◌, ◌*◌, Bool, true, false, ◌&&◌, ◌||◌, not, Option, none, some, List, [], ◌∷◌, String,
  str_eq, ltb, leb, ◌==◌, Dict, lookup, put, delete, values, if◌then◌else◌, length, all, any,
  filter, mem, or_default, same_option,
}

pub data TokenType : Type 0 where
  access refresh used_refresh : TokenType

pub record StoredToken : Type 0 where
  pub type_of : TokenType
  pub client_id : String
  pub scopes : List String
  pub expires_at : ℕ
  pub resource : String
  pub grant_id : Option String

-- What the store reads of a client; `is_sound` says that its metadata has no problem.
pub record Client : Type 0 where
  pub client_id : String
  pub client_id_issued_at : Option ℕ
  pub grant_types : List String
  pub is_sound : Bool

pub record OauthState : Type 0 where
  pub clients : Dict Client
  pub tokens : Dict StoredToken

pub record OauthLimits : Type 0 where
  pub access_token_ttl_seconds : ℕ
  pub refresh_token_ttl_seconds : ℕ
  pub max_registered_clients : ℕ

pub data OauthError : Type 0 where
  persist_failed capacity_reached invalid_client_metadata invalid_grant : OauthError

pub data Attempt {ℓ} (A : Type ℓ) : Type ℓ where
  threw : OauthError → Attempt A
  returned : A → Attempt A

-- `for (const [hash, token] of Object.entries(tokens)) if (test) delete tokens[hash]`.
abbrev pub delete_where :
    (StoredToken → Bool) → Dict StoredToken → Dict StoredToken → Dict StoredToken
delete_where p [] tokens = tokens
delete_where p ((hash, token) ∷ entries) tokens =
    if p token then delete hash (delete_where p entries tokens) else delete_where p entries tokens

abbrev pub is_expired : ℕ → StoredToken → Bool
is_expired now token = leb token.expires_at now

unfoldable pub prune_expired : ℕ → OauthState → OauthState
prune_expired now s = record s { tokens = delete_where (is_expired now) s.tokens s.tokens }

-- `mutate`: an exception and a failure to persist restore the state of before.
unfoldable pub mutate {ℓ} :
    {A : Type ℓ}
    → (OauthState → OauthState × Attempt A)
    → ℕ
    → Bool
    → OauthState
    → OauthState × Attempt A
unfolding prune_expired
mutate operation now persisted s = elim (operation (prune_expired now s)).1 [
  | threw e ↦ (s, threw e)
  | returned a ↦
      if persisted
      then ((operation (prune_expired now s)).0, returned a)
      else (s, threw persist_failed)
]

-- The order in which inactive clients go; `before` is `localeCompare`.
abbrev pub goes_before : (String → String → Bool) → Client → Client → Bool
goes_before before a b =
    let issued_a = or_default a.client_id_issued_at 0 in
    let issued_b = or_default b.client_id_issued_at 0 in
    ltb issued_a issued_b || issued_a == issued_b && before a.client_id b.client_id

abbrev pub insert_client : (String → String → Bool) → Client → List Client → List Client
insert_client before c [] = c ∷ []
insert_client before c (d ∷ ds) =
    if goes_before before d c then d ∷ insert_client before c ds else c ∷ d ∷ ds

abbrev pub sort_clients : (String → String → Bool) → List Client → List Client
sort_clients before [] = []
sort_clients before (c ∷ cs) = insert_client before c (sort_clients before cs)

abbrev pub has_token : OauthState → Client → Bool
has_token s c = any (λ t. str_eq t.client_id c.client_id) (values s.tokens)

-- The loop over the inactive clients.
abbrev pub evict_clients : ℕ → List Client → Dict Client → Dict Client
evict_clients max_clients [] clients = clients
evict_clients max_clients (c ∷ cs) clients =
    if ltb (length clients) max_clients
    then clients
    else evict_clients max_clients cs (delete c.client_id clients)

pub make_room :
    (String → String → Bool) → OauthLimits → OauthState → OauthState × Attempt (Unit {0})
make_room before l s =
    if ltb (length s.clients) l.max_registered_clients
    then (s, returned tt)
    else let inactive = filter (λ c. not (has_token s c)) (values s.clients) in
      let clients =
        evict_clients l.max_registered_clients (sort_clients before inactive) s.clients in
      if leb l.max_registered_clients (length clients)
      then (record s { clients = clients }, threw capacity_reached)
      else (record s { clients = clients }, returned tt)

abbrev pub add_client :
    (String → String → Bool) → OauthLimits → Client → OauthState → OauthState × Attempt Client
add_client before l client s = elim (make_room before l s).1 [
  | threw e ↦ ((make_room before l s).0, threw e)
  | returned _ ↦
      let roomy = (make_room before l s).0 in
      (record roomy { clients = put client.client_id client roomy.clients }, returned client)
]

pub register_client :
    (String → String → Bool)
    → OauthLimits
    → Client
    → ℕ
    → Bool
    → OauthState
    → OauthState × Attempt Client
register_client before l client now persisted s =
    if client.is_sound
    then mutate (add_client before l client) now persisted s
    else (s, threw invalid_client_metadata)

-- The two hashes of the tokens that a pair would have.
pub record NewPair : Type 0 where
  pub access_hash : String
  pub refresh_hash : String

-- The tokens returned: their hashes, and their scopes.
pub record OauthTokens : Type 0 where
  pub access_hash : String
  pub refresh_hash : Option String
  pub scopes : List String

abbrev pub new_token : TokenType → String → List String → String → String → ℕ → StoredToken
new_token type_of client_id scopes resource grant_id expires_at = record {
  type_of = type_of;
  client_id = client_id;
  scopes = scopes;
  expires_at = expires_at;
  resource = resource;
  grant_id = some grant_id;
}

-- `issueTokenPairWithoutPersist`.
abbrev pub issue :
    OauthLimits
    → NewPair
    → ℕ
    → String
    → List String
    → String
    → String
    → Bool
    → OauthState
    → OauthState × OauthTokens
issue l pair now client_id scopes resource grant_id with_refresh s =
    let a =
      new_token access client_id scopes resource grant_id
        (now + l.access_token_ttl_seconds * 1000) in
    let r =
      new_token refresh client_id scopes resource grant_id
        (now + l.refresh_token_ttl_seconds * 1000) in
    let first = put pair.access_hash a s.tokens in
    if with_refresh
    then (
      record s { tokens = put pair.refresh_hash r first },
      record {
        access_hash = pair.access_hash;
        refresh_hash = some pair.refresh_hash;
        scopes = scopes;
      },
    )
    else (
      record s { tokens = first },
      record { access_hash = pair.access_hash; refresh_hash = none; scopes = scopes },
    )

abbrev pub issue_operation :
    OauthLimits
    → NewPair
    → ℕ
    → String
    → List String
    → String
    → String
    → Bool
    → OauthState
    → OauthState × Attempt OauthTokens
issue_operation l pair now client_id scopes resource grant_id with_refresh s =
    let (s', tokens) = issue l pair now client_id scopes resource grant_id with_refresh s in
    (s', returned tokens)

unfoldable pub issue_token_pair :
    OauthLimits
    → NewPair
    → ℕ
    → Bool
    → String
    → List String
    → String
    → String
    → Bool
    → OauthState
    → OauthState × Attempt OauthTokens
issue_token_pair l pair now persisted client_id scopes resource grant_id with_refresh s =
    mutate (issue_operation l pair now client_id scopes resource grant_id with_refresh) now
      persisted s

abbrev pub is_used : StoredToken → Bool
is_used token = elim token.type_of [ used_refresh ↦ true | _ ↦ false ]

abbrev pub is_revoked_by : Option String → Bool → StoredToken → Bool
is_revoked_by grant_id preserve_replay_evidence token =
    same_option token.grant_id grant_id && not (preserve_replay_evidence && is_used token)

-- `revokeGrantWithoutPersist`.
unfoldable pub revoke_grant : Option String → Bool → OauthState → OauthState
revoke_grant grant_id preserve_replay_evidence s = record s {
  tokens = delete_where (is_revoked_by grant_id preserve_replay_evidence) s.tokens s.tokens;
}

pub data RefreshResult : Type 0 where
  invalid invalid_scope : RefreshResult
  granted : OauthTokens → RefreshResult

pub record RefreshRequest : Type 0 where
  pub hash : String
  pub client_id : String
  pub resource : String
  pub requested_scopes : Option (List String)
  pub new_grant_id : String

abbrev pub is_bound : RefreshRequest → ℕ → StoredToken → Bool
is_bound q now current =
    str_eq current.client_id q.client_id
    && str_eq current.resource q.resource
    && not (is_expired now current)

-- The rotation of a refresh token that is not used.
abbrev pub rotate_live :
    OauthLimits
    → NewPair
    → RefreshRequest
    → ℕ
    → StoredToken
    → OauthState
    → OauthState × Attempt RefreshResult
rotate_live l pair q now current s =
    let scopes = or_default q.requested_scopes current.scopes in
    if not (all (λ scope. mem scope current.scopes) scopes)
    then (s, returned invalid_scope)
    else let grant_id = or_default current.grant_id q.new_grant_id in
      let used : StoredToken = record current {
        type_of = used_refresh;
        grant_id = some grant_id;
      } in
      let (s', tokens) =
        issue l pair now q.client_id scopes q.resource grant_id true
          (record s { tokens = put q.hash used s.tokens }) in
      (s', returned (granted tokens))

unfoldable pub rotate :
    OauthLimits → NewPair → RefreshRequest → ℕ → OauthState → OauthState × Attempt RefreshResult
unfolding revoke_grant
rotate l pair q now s = elim (lookup q.hash s.tokens) [
  | none ↦ (s, returned invalid)
  | some current ↦
      if not (is_bound q now current) then (s, returned invalid) else elim current.type_of [
        | used_refresh ↦ (revoke_grant current.grant_id true s, returned invalid)
        | refresh ↦ rotate_live l pair q now current s
        | access ↦ (s, returned invalid)
      ]
]

unfoldable pub rotate_refresh_token :
    OauthLimits
    → NewPair
    → RefreshRequest
    → ℕ
    → Bool
    → OauthState
    → OauthState × Attempt RefreshResult
rotate_refresh_token l pair q now persisted s = mutate (rotate l pair q now) now persisted s

pub get_access_token : String → ℕ → OauthState → Option StoredToken
get_access_token hash now s = elim (lookup hash s.tokens) [
  | none ↦ none
  | some stored ↦ elim stored.type_of [
    | access ↦ if is_expired now stored then none else elim (lookup stored.client_id s.clients) [
      | none ↦ none
      | some client ↦ if client.is_sound then some stored else none
    ]
    | _ ↦ none
  ]
]

abbrev pub revoke_operation : String → String → OauthState → OauthState × Attempt (Unit {0})
revoke_operation hash client_id s = elim (lookup hash s.tokens) [
  | none ↦ (s, returned tt)
  | some stored ↦
      if str_eq stored.client_id client_id
      then elim stored.grant_id [
        | none ↦ (record s { tokens = delete hash s.tokens }, returned tt)
        | some g ↦ (revoke_grant (some g) false s, returned tt)
      ]
      else (s, returned tt)
]

unfoldable pub revoke : String → String → ℕ → Bool → OauthState → OauthState × Attempt (Unit {0})
revoke hash client_id now persisted s = mutate (revoke_operation hash client_id) now persisted s
