-- ===== src/Artifacts.antt =====
-- src/artifact-service.ts, `ArtifactService`. A name is the codes of its characters. `publish` waits on the
-- disk between its test of the capacity and the end, so that it is two steps here.
pub mod Bounds
pub mod Expiry
use Prim.Native.Char.{code}
use chatgpt_remote_mcp.Base.{
  ℕ, zero, suc, ◌+◌, ◌-◌, ◌*◌, Bool, true, false, ◌&&◌, ◌||◌, not, Option, none, some, List, [],
  ◌∷◌, String, str_eq, Dict, lookup, put, filter, filter_values, remove, add, ltb, leb, ◌==◌,
  if◌then◌else◌, length, all, any,
}
use chatgpt_remote_mcp.Errors.{
  Result, ok, err, ◌>>=◌, ◌>>◌, guard, or_throw, artifact_public_url_unavailable,
  artifact_public_url_invalid, artifact_source_not_file, artifact_too_large, artifact_name_invalid,
  artifact_snapshot_invalid,
}

pub record ArtifactServiceOptions : Type 0 where
  pub ttl_seconds : ℕ
  pub max_bytes : ℕ
  pub max_active : ℕ

pub record StoredArtifact : Type 0 where
  pub token : String
  pub name : List ℕ
  pub size : ℕ
  pub sha256 : String
  pub expires_at_ms : ℕ

-- `snapshots` are the files in the service's directory; `in_flight` counts the publications that passed the
-- test of the capacity and are not over.
pub record ArtifactService : Type 0 where
  pub artifacts : Dict StoredArtifact
  pub snapshots : List String
  pub in_flight : ℕ

unfoldable pub new_service : ArtifactService
new_service = record { artifacts = []; snapshots = []; in_flight = 0 }

-- A character that no name has: a control character, `/` or a backslash.
abbrev pub is_bad_char : ℕ → Bool
is_bad_char c = ltb c 32 || c == 127 || c == 47 || c == 92

abbrev pub is_dots : List ℕ → Bool
is_dots [] = false
is_dots (a ∷ []) = a == 46
is_dots (a ∷ b ∷ []) = (a == 46) && (b == 46)
is_dots (a ∷ b ∷ c ∷ cs) = false

pub valid_download_name : List ℕ → Bool
valid_download_name value =
    ltb 0 (length value)
    && leb (length value) 255
    && not (is_dots value)
    && not (any is_bad_char value)

-- What `new URL` makes of a text.
pub record ParsedUrl : Type 0 where
  pub protocol : String
  pub hostname : String
  pub username : String
  pub password : String
  pub search : String
  pub hash : String
  pub pathname : String
  pub origin : String

abbrev pub is_loopback : ParsedUrl → Bool
is_loopback url =
    str_eq url.hostname "localhost"
    || str_eq url.hostname "127.0.0.1"
    || str_eq url.hostname "[::1]"

-- `value` is none where no URL is configured, and `some none` where it is no URL.
pub normalize_public_url : Option (Option ParsedUrl) → Result String
normalize_public_url value = do
  parsed ← or_throw value artifact_public_url_unavailable
  url ← or_throw parsed artifact_public_url_invalid
  guard (str_eq url.protocol "https:" || (str_eq url.protocol "http:" && is_loopback url))
      artifact_public_url_invalid
  guard
      (str_eq url.username ""
        && str_eq url.password ""
        && str_eq url.search ""
        && str_eq url.hash ""
        && str_eq url.pathname "/")
      artifact_public_url_invalid
  ok url.origin

-- `prune`.
abbrev pub is_live : ℕ → StoredArtifact → Bool
is_live now artifact = ltb now artifact.expires_at_ms

abbrev pub unlink_expired : ℕ → Dict StoredArtifact → List String → List String
unlink_expired now [] files = files
unlink_expired now ((token, artifact) ∷ artifacts) files =
    if is_live now artifact
    then unlink_expired now artifacts files
    else unlink_expired now artifacts (remove token files)

abbrev pub prune : ℕ → ArtifactService → ArtifactService
prune now s = record s {
  artifacts = filter_values (is_live now) s.artifacts;
  snapshots = unlink_expired now s.artifacts s.snapshots;
}

-- `publish` up to the test of the capacity; false where it throws.
abbrev pub start_publish : ArtifactServiceOptions → ℕ → ArtifactService → ArtifactService × Bool
start_publish options now s =
    let pruned = prune now s in
    if leb options.max_active (length pruned.artifacts)
    then (pruned, false)
    else (record pruned { in_flight = pruned.in_flight + 1 }, true)

-- What the rest of `publish` reads: the source, its copy, the token that is drawn and the time.
pub record Publication : Type 0 where
  pub public_url : Option (Option ParsedUrl)
  pub source_is_file : Bool
  pub source_size : ℕ
  pub name : List ℕ
  pub token : String
  pub snapshot_is_file : Bool
  pub snapshot_size : ℕ
  pub sha256 : String
  pub now : ℕ

abbrev pub check_source : ArtifactServiceOptions → Publication → Result String
check_source options p = do
  url ← normalize_public_url p.public_url
  guard p.source_is_file artifact_source_not_file
  guard (not (ltb options.max_bytes p.source_size)) artifact_too_large
  guard (valid_download_name p.name) artifact_name_invalid
  ok url

abbrev pub check_snapshot : ArtifactServiceOptions → Publication → Result (Unit {0})
check_snapshot options p = do
  guard p.snapshot_is_file artifact_snapshot_invalid
  guard (not (ltb options.max_bytes p.snapshot_size)) artifact_too_large

abbrev pub artifact_of : ArtifactServiceOptions → Publication → StoredArtifact
artifact_of options p = record {
  token = p.token;
  name = p.name;
  size = p.snapshot_size;
  sha256 = p.sha256;
  expires_at_ms = p.now + options.ttl_seconds * 1000;
}

-- The rest of `publish`: a copy that is refused is removed again.
unfoldable pub end_publish :
    ArtifactServiceOptions → Publication → ArtifactService → ArtifactService × Result StoredArtifact
unfolding normalize_public_url valid_download_name
end_publish options p s =
    let over : ArtifactService = record s { in_flight = s.in_flight - 1 } in
    elim (check_source options p) [
      | err e ↦ (over, err e)
      | ok url ↦ elim (check_snapshot options p) [
        | err e ↦ (record over { snapshots = remove p.token (add p.token s.snapshots) }, err e)
        | ok _ ↦ (
          record over {
            artifacts = put p.token (artifact_of options p) s.artifacts;
            snapshots = add p.token s.snapshots;
          },
          ok (artifact_of options p),
        )
      ]
    ]

-- `/^[A-Za-z0-9_-]{43}$/`, on the codes of a text.
abbrev pub is_token_char : ℕ → Bool
is_token_char c =
    (leb 65 c && leb c 90)
    || (leb 97 c && leb c 122)
    || (leb 48 c && leb c 57)
    || c == 95
    || c == 45

unfoldable pub is_token : List ℕ → Bool
is_token cs = (length cs == 43) && all is_token_char cs

-- The codes of a text's characters.
unfoldable pub codes : String → List ℕ
codes String.[] = []
codes (String.◌∷◌ c cs) = code c ∷ codes cs

-- `resolve`.
unfoldable pub resolve : String → ℕ → ArtifactService → ArtifactService × Option StoredArtifact
unfolding is_token codes
resolve token now s =
    let pruned = prune now s in
    if is_token (codes token) then (pruned, lookup token pruned.artifacts) else (s, none)

abbrev pub close : ArtifactService → ArtifactService
close s = record s { artifacts = []; snapshots = [] }

-- What may happen to a service; a publication ends after it has begun.
pub data ArtifactStep : Type 0 where
  begins : ℕ → ArtifactStep
  ends : Publication → ArtifactStep
  asks : String → ℕ → ArtifactStep
  prunes : ℕ → ArtifactStep
  closes : ArtifactStep

unfoldable pub step : ArtifactServiceOptions → ArtifactStep → ArtifactService → ArtifactService
unfolding end_publish resolve
step options (begins now) s = (start_publish options now s).0
step options (ends p) s = if s.in_flight == 0 then s else (end_publish options p s).0
step options (asks token now) s = (resolve token now s).0
step options (prunes now) s = prune now s
step options closes s = close s

unfoldable pub run : ArtifactServiceOptions → List ArtifactStep → ArtifactService → ArtifactService
unfolding step
run options [] s = s
run options (e ∷ es) s = run options es (step options e s)
