-- ===== src/Tests/Oauth.antt =====
-- A refresh token that is exchanged, and then presented again.
use chatgpt_remote_mcp.Base.{◌≡◌, ◌≢◌, refl, true, none, some, [], ◌∷◌, lookup}
use chatgpt_remote_mcp.Oauth.{
  refresh, used_refresh, StoredToken, OauthState, OauthLimits, returned, prune_expired, NewPair,
  OauthTokens, RefreshRequest, granted, rotate, mutate, rotate_refresh_token,
}
use chatgpt_remote_mcp.Oauth.Codes.{
  CodeRecord, authorizes, run as run_codes, prune_codes, take_code, take_code-once,
}
use chatgpt_remote_mcp.Oauth.Rotation.{revokes, run, rotate-once, rotate-replay, IsRefusal}

abbrev limits : OauthLimits
limits = record {
  access_token_ttl_seconds = 60;
  refresh_token_ttl_seconds = 600;
  max_registered_clients = 10;
}

abbrev live_token : StoredToken
live_token = record {
  type_of = refresh;
  client_id = "c1";
  scopes = "mcp:tools" ∷ [];
  expires_at = 900;
  resource = "res";
  grant_id = some "g1";
}

abbrev before_exchange : OauthState
before_exchange = record {
  clients =
      (
        "c1",
        record {
          client_id = "c1";
          client_id_issued_at = some 1;
          grant_types = "refresh_token" ∷ [];
          is_sound = true;
        },
      )
      ∷ [];
  tokens = ("h1", live_token) ∷ [];
}

abbrev exchange : RefreshRequest
exchange = record {
  hash = "h1";
  client_id = "c1";
  resource = "res";
  requested_scopes = none;
  new_grant_id = "g9";
}

abbrev second_pair : NewPair
second_pair = record { access_hash = "h2"; refresh_hash = "h3" }

abbrev third_pair : NewPair
third_pair = record { access_hash = "h4"; refresh_hash = "h5" }

abbrev second_tokens : OauthTokens
second_tokens = record { access_hash = "h2"; refresh_hash = some "h3"; scopes = "mcp:tools" ∷ [] }

abbrev exchanged : OauthState
exchanged = (rotate_refresh_token limits second_pair exchange 5 true before_exchange).0

exchange_grants :
    rotate_refresh_token limits second_pair exchange 5 true before_exchange
    ≡ (exchanged, returned (granted second_tokens))
unfolding rotate_refresh_token mutate rotate prune_expired
exchange_grants = refl

rotate-once_example :
    rotate_refresh_token limits third_pair exchange 7 true
      (run (revokes "h9" "c1" 6 true ∷ []) exchanged)
    ≢ (exchanged, returned (granted second_tokens))
rotate-once_example =
    rotate-once limits limits second_pair third_pair exchange exchange 5 7 true true before_exchange
      (refl, refl) exchange_grants (revokes "h9" "c1" 6 true ∷ []) (tt, tt) refl

abbrev used_token : StoredToken
used_token = record live_token { type_of = used_refresh }

used_is_stored : lookup "h1" (prune_expired 7 exchanged).tokens ≡ some used_token
unfolding rotate_refresh_token mutate rotate prune_expired
used_is_stored = refl

rotate-replay_example :
    IsRefusal "g1" (rotate_refresh_token limits third_pair exchange 7 true exchanged)
rotate-replay_example =
    rotate-replay limits third_pair exchange 7 exchanged used_is_stored refl refl refl

abbrev code_record : CodeRecord
code_record = record {
  client_id = "c1";
  code_challenge = "ch";
  redirect_uri = "https://app";
  resource = "res";
  scopes = "mcp:tools" ∷ [];
  expires_at = 300;
}

code_taken :
    take_code "c1" "k1" (some "https://app") "res" 4 (("k1", code_record) ∷ [])
    ≡ ([], returned code_record)
unfolding take_code prune_codes
code_taken = refl

take_code-once_example :
    take_code "c1" "k1"
      (some "https://app")
      "res"
      6
      (run_codes (authorizes "k2" code_record 5 ∷ []) [])
    ≢ ([], returned code_record)
take_code-once_example =
    take_code-once "c1" "c1" "k1" (some "https://app") (some "https://app") "res" "res" 4 6
      (("k1", code_record) ∷ []) code_taken (authorizes "k2" code_record 5 ∷ []) (refl, tt)
