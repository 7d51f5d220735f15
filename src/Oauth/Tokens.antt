-- ===== src/Oauth/Tokens.antt =====
-- What the loops over the tokens leave, and what every operation of the store keeps.
use chatgpt_remote_mcp.Base.{
  ℕ, ◌≡◌, refl, inl, inr, Bool, true, false, none, some, List, [], ◌∷◌, String, arith, str_eq,
  eq_iff, Dict, lookup, put, lookup-put, lookup-delete, Bool-cases, Option-cases, or_default,
}
use chatgpt_remote_mcp.Oauth.{
  used_refresh, StoredToken, OauthState, OauthLimits, Attempt, delete_where, prune_expired,
  is_expired, mutate, NewPair, issue, is_used, is_revoked_by, revoke_grant, RefreshRequest, rotate,
}

pub delete_where-kept :
    (p : StoredToken → Bool) (entries tokens : Dict StoredToken) (j : String) {t : StoredToken}
    → lookup j (delete_where p entries tokens) ≡ some t
    → lookup j tokens ≡ some t
delete_where-kept p [] tokens j h = h
delete_where-kept p ((hash, token) ∷ entries) tokens j {t} h = elim (Bool-cases (p token)) [
  | inl goes ↦
      let h' = rw (lookup-delete hash j (delete_where p entries tokens)) at (rw goes at h) in
      delete_where-kept p entries tokens j (ground (arith, h'))
  | inr stays ↦ delete_where-kept p entries tokens j (rw stays at h)
]

delete_where-gone :
    (p : StoredToken → Bool) (entries tokens : Dict StoredToken) (j : String) {t : StoredToken}
    → lookup j entries ≡ some t
    → p t ≡ true
    → lookup j (delete_where p entries tokens) ≡ none
delete_where-gone p [] tokens j h e = cc h
delete_where-gone p ((hash, token) ∷ entries) tokens j {t} h e =
    let l = lookup-delete hash j (delete_where p entries tokens) in
    elim (Bool-cases (str_eq hash j)) [
      | inl same ↦
          let it_is : token ≡ t = ground (arith, same, h) in
          let goes : p token ≡ true = rw it_is e in rw (goes, l, same) refl
      | inr other ↦
          let rest = delete_where-gone p entries tokens j (rw other at h) e in
          elim (Bool-cases (p token)) [
            | inl goes ↦ rw (goes, l, other) rest
            | inr stays ↦ rw stays rest
          ]
    ]

-- What a whole sweep leaves does not pass its test.
pub delete_where-swept :
    (p : StoredToken → Bool) (tokens : Dict StoredToken) (j : String) {t : StoredToken}
    → lookup j (delete_where p tokens tokens) ≡ some t
    → p t ≡ false
delete_where-swept p tokens j {t} h = elim (Bool-cases (p t)) [
  | inl goes ↦
      cc (h, delete_where-gone p tokens tokens j (delete_where-kept p tokens tokens j h) goes)
  | inr stays ↦ stays
]

-- The hash stands for no token that can be used.
pub record IsSpent (hash : String) (s : OauthState) : Type 0 where
  pub only_used : (t : StoredToken) → lookup hash s.tokens ≡ some t → is_used t ≡ true

sweep-IsSpent :
    {hash : String} (p : StoredToken → Bool) (s : OauthState)
    → IsSpent hash s
    → IsSpent hash (record s { tokens = delete_where p s.tokens s.tokens })
sweep-IsSpent {hash} p s v = record {
  only_used = λ t h. v.only_used t (delete_where-kept p s.tokens s.tokens hash h);
}

put-IsSpent :
    {hash : String} (k : String) (token : StoredToken) (s : OauthState)
    → str_eq k hash ≡ false
    → IsSpent hash s
    → IsSpent hash (record s { tokens = put k token s.tokens })
put-IsSpent {hash} k token s other v = record {
  only_used = λ t h. v.only_used t (rw other at (rw (lookup-put k hash token s.tokens) at h));
}

put_used-IsSpent :
    {hash : String} (k : String) (token : StoredToken) (s : OauthState)
    → is_used token ≡ true
    → IsSpent hash s
    → IsSpent hash (record s { tokens = put k token s.tokens })
put_used-IsSpent {hash} k token s used v = record {
  only_used = λ t h.
      let h' = rw (lookup-put k hash token s.tokens) at h in
      elim (Bool-cases (str_eq k hash)) [
        | inl same ↦ let it_is : token ≡ t = ground (arith, same, h') in rw it_is at used
        | inr other ↦ v.only_used t (rw other at h')
      ];
}

pub spend-IsSpent :
    (hash : String) (token : StoredToken) (s : OauthState)
    → is_used token ≡ true
    → IsSpent hash (record s { tokens = put hash token s.tokens })
spend-IsSpent hash token s used = record {
  only_used = λ t h.
      let h' = rw (lookup-put hash hash token s.tokens, (eq_iff hash hash).1 refl) at h in
      let it_is : token ≡ t = ground (arith, h') in rw it_is at used;
}

-- The hashes of a new pair of tokens are not this one.
abbrev pub IsNewTo : String → NewPair → Type 0
IsNewTo hash pair = (str_eq pair.access_hash hash ≡ false) × (str_eq pair.refresh_hash hash ≡ false)

pub issue-IsSpent :
    {hash : String} (l : OauthLimits) (pair : NewPair) (now : ℕ) (client_id : String)
    (scopes : List String) (resource grant_id : String) (with_refresh : Bool) (s : OauthState)
    → IsNewTo hash pair
    → IsSpent hash s
    → IsSpent hash (issue l pair now client_id scopes resource grant_id with_refresh s).0
issue-IsSpent l pair now client_id scopes resource grant_id true s new v =
    put-IsSpent pair.refresh_hash _ _ new.1 (put-IsSpent pair.access_hash _ s new.0 v)
issue-IsSpent l pair now client_id scopes resource grant_id false s new v =
    put-IsSpent pair.access_hash _ s new.0 v

pub mutate-IsSpent {ℓ} :
    {hash : String} {A : Type ℓ} (operation : OauthState → OauthState × Attempt A) (now : ℕ)
    (persisted : Bool) (s : OauthState)
    → IsSpent hash s
    → ((u : OauthState) → IsSpent hash u → IsSpent hash (operation u).0)
    → IsSpent hash (mutate operation now persisted s).0
unfolding mutate prune_expired
mutate-IsSpent operation now persisted s v h =
    let u = h (prune_expired now s) (sweep-IsSpent (is_expired now) s v) in ground (arith, u, v)

pub rotate-IsSpent :
    {hash : String} (l : OauthLimits) (pair : NewPair) (q : RefreshRequest) (now : ℕ)
    (s : OauthState)
    → IsNewTo hash pair
    → IsSpent hash s
    → IsSpent hash (rotate l pair q now s).0
unfolding rotate revoke_grant
rotate-IsSpent l pair q now s new v = elim (Option-cases (lookup q.hash s.tokens)) [
  | inl missing ↦ rw (missing, rotate) v
  | inr (t, e) ↦
      let swept = sweep-IsSpent (is_revoked_by t.grant_id true) s v in
      let used : StoredToken = record t {
        type_of = used_refresh;
        grant_id = some (or_default t.grant_id q.new_grant_id);
      } in
      let live =
        issue-IsSpent l pair now q.client_id (or_default q.requested_scopes t.scopes) q.resource
          (or_default t.grant_id q.new_grant_id) true
          (record s { tokens = put q.hash used s.tokens }) new
          (put_used-IsSpent q.hash used s refl v) in
      rw (e, rotate) (ground (arith, v, swept, live))
]

pub prune-IsSpent :
    {hash : String} (now : ℕ) (s : OauthState) → IsSpent hash s → IsSpent hash (prune_expired now s)
unfolding prune_expired
prune-IsSpent now s v = sweep-IsSpent (is_expired now) s v
