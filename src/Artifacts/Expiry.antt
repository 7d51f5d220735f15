-- ===== src/Artifacts/Expiry.antt =====
-- src/artifact-service.ts: what a token gives until it expires, and after.
use chatgpt_remote_mcp.Base.{
  ℕ, ◌+◌, ◌<◌, ◌≡◌, sym, ap, subst, ◌∙◌, inl, inr, Bool, true, false, Option, none, some, List, [],
  ◌∷◌, String, arith, str_eq, eq_iff, Dict, lookup, lookup-put, filter_values, leb, ◌==◌,
  if◌then◌else◌, All, Bool-cases, length,
}
use chatgpt_remote_mcp.Errors.{ok, Result-cases}
use chatgpt_remote_mcp.Artifacts.{
  ArtifactServiceOptions, StoredArtifact, ArtifactService, is_live, prune, start_publish,
  Publication, check_source, check_snapshot, artifact_of, end_publish, is_token, codes, resolve,
  ArtifactStep, begins, ends, asks, prunes, closes, step, run,
}
use chatgpt_remote_mcp.Artifacts.Bounds.{IsArtifact, IsBounded}

lookup-kept :
    (p : StoredArtifact → Bool) (k : String) (v : StoredArtifact) (m : Dict StoredArtifact)
    → lookup k m ≡ some v
    → p v ≡ true
    → lookup k (filter_values p m) ≡ some v
lookup-kept p k v [] h t = cc
lookup-kept p k v ((j, w) ∷ m) h t = elim (Bool-cases (str_eq j k)) [
  | inl same ↦
      let e : w ≡ v = cc (rw same at h) in
      let keep : p w ≡ true = ap p e ∙ t in rw (keep, same) (ap some e)
  | inr differs ↦
      let ih = lookup-kept p k v m (rw differs at h) t in
      elim (Bool-cases (p w)) [ inl keep ↦ rw (keep, differs) ih | inr drop ↦ rw drop ih ]
]

lookup-live :
    (p : StoredArtifact → Bool) (k : String) (v : StoredArtifact) (m : Dict StoredArtifact)
    → lookup k (filter_values p m) ≡ some v
    → p v ≡ true
lookup-live p k v [] h = cc
lookup-live p k v ((j, w) ∷ m) h = elim (Bool-cases (p w)) [
  | inr drop ↦ lookup-live p k v m (rw drop at h)
  | inl keep ↦ elim (Bool-cases (str_eq j k)) [
    | inl same ↦ let e : w ≡ v = cc (rw (keep, same) at h) in sym (ap p e) ∙ keep
    | inr differs ↦ lookup-live p k v m (rw (keep, differs) at h)
  ]
]

lookup-IsArtifact :
    (options : ArtifactServiceOptions) (p : StoredArtifact → Bool) (k : String) (v : StoredArtifact)
    (m : Dict StoredArtifact)
    → All (IsArtifact options) m
    → lookup k (filter_values p m) ≡ some v
    → IsArtifact options (k, v)
lookup-IsArtifact options p k v [] a h = cc
lookup-IsArtifact options p k v ((j, w) ∷ m) a h = elim (Bool-cases (p w)) [
  | inr drop ↦ lookup-IsArtifact options p k v m a.1 (rw drop at h)
  | inl keep ↦ elim (Bool-cases (str_eq j k)) [
    | inl same ↦
        let e : w ≡ v = cc (rw (keep, same) at h) in
        let f : j ≡ k = (eq_iff j k).0 same in
        subst (λ x. IsArtifact options (k, x)) e (subst (λ x. IsArtifact options (x, w)) f a.0)
    | inr differs ↦ lookup-IsArtifact options p k v m a.1 (rw (keep, differs) at h)
  ]
]

-- What a token gives.
pub record IsGiven (options : ArtifactServiceOptions) (token : String) (now : ℕ)
    (a : StoredArtifact) : Type 0 where
  pub formed : is_token (codes token) ≡ true
  pub unexpired : now < a.expires_at_ms
  pub artifact : IsArtifact options (token, a)

-- In a service whose entries may be stored, a token that gives an artifact has the form of a token, and the
-- artifact is the token's own, has not expired, has a name that may be downloaded and is no larger than
-- allowed.
pub resolve-IsGiven :
    (options : ArtifactServiceOptions) (at_once : ℕ) (token : String) (now : ℕ)
    (s : ArtifactService) (a : StoredArtifact)
    → IsBounded options at_once s
    → (resolve token now s).1 ≡ some a
    → IsGiven options token now a
unfolding resolve
resolve-IsGiven options at_once token now s a b h = elim (Bool-cases (is_token (codes token))) [
  | inr odd ↦ cc (rw (odd, resolve) at h)
  | inl formed ↦
      let found : lookup token (filter_values (is_live now) s.artifacts) ≡ some a =
        rw (formed, resolve) at h in
      let live = lookup-live (is_live now) token a s.artifacts found in
      record {
        formed = formed;
        unexpired = ground (arith, live);
        artifact = lookup-IsArtifact options (is_live now) token a s.artifacts b.stored found;
      }
]

-- A step before the artifact expires that does not close the service nor draw its token again.
abbrev pub IsBefore : String → ℕ → ArtifactStep → Type 0
IsBefore token expires (begins now) = now < expires
IsBefore token expires (ends p) = str_eq p.token token ≡ false
IsBefore token expires (asks asked now) = now < expires
IsBefore token expires (prunes now) = now < expires
IsBefore token expires closes = ⊥

prune-keeps :
    (token : String) (a : StoredArtifact) (now : ℕ) (s : ArtifactService)
    → now < a.expires_at_ms
    → lookup token s.artifacts ≡ some a
    → lookup token (prune now s).artifacts ≡ some a
prune-keeps token a now s h e = lookup-kept (is_live now) token a s.artifacts e (ground (arith, h))

begins-keeps :
    (options : ArtifactServiceOptions) (token : String) (a : StoredArtifact) (now : ℕ)
    (s : ArtifactService)
    → lookup token (prune now s).artifacts ≡ some a
    → lookup token (start_publish options now s).0.artifacts ≡ some a
begins-keeps options token a now s kept =
    go (leb options.max_active (length (prune now s).artifacts))
  where
    go :
        (full : Bool)
        → lookup token
            (if◌then◌else◌ {A = ArtifactService × Bool} full
              (prune now s, false)
              (record (prune now s) { in_flight = s.in_flight + 1 }, true)).0.artifacts
          ≡ some a
    go true = kept
    go false = kept

ends-keeps :
    (options : ArtifactServiceOptions) (token : String) (a : StoredArtifact) (p : Publication)
    (s : ArtifactService)
    → str_eq p.token token ≡ false
    → lookup token s.artifacts ≡ some a
    → lookup token (end_publish options p s).0.artifacts ≡ some a
unfolding end_publish
ends-keeps options token a p s h e = elim (Result-cases (check_source options p)) [
  | inl (t, refused) ↦ rw (refused, end_publish) e
  | inr (url, source) ↦ elim (Result-cases (check_snapshot options p)) [
    | inl (t, refused) ↦ rw (source, refused, end_publish) e
    | inr (u, snapshot) ↦
        rw (source, snapshot, end_publish)
          (ground (arith, lookup-put p.token token (artifact_of options p) s.artifacts, h, e))
  ]
]

asks-keeps :
    (token : String) (a : StoredArtifact) (asked : String) (now : ℕ) (s : ArtifactService)
    → now < a.expires_at_ms
    → lookup token s.artifacts ≡ some a
    → lookup token (resolve asked now s).0.artifacts ≡ some a
unfolding resolve
asks-keeps token a asked now s h e = go (is_token (codes asked))
  where
    go :
        (formed : Bool)
        → lookup token
            (if◌then◌else◌ {A = ArtifactService × Option StoredArtifact} formed
              (prune now s, lookup asked (prune now s).artifacts)
              (s, none)).0.artifacts
          ≡ some a
    go true = prune-keeps token a now s h e
    go false = e

step-keeps :
    (options : ArtifactServiceOptions) (token : String) (a : StoredArtifact) (e : ArtifactStep)
    (s : ArtifactService)
    → IsBefore token a.expires_at_ms e
    → lookup token s.artifacts ≡ some a
    → lookup token (step options e s).artifacts ≡ some a
unfolding step end_publish resolve
step-keeps options token a (begins now) s h e =
    begins-keeps options token a now s (prune-keeps token a now s h e)
step-keeps options token a (ends p) s h e = go (s.in_flight == 0)
  where
    go :
        (idle : Bool)
        → lookup token
            (if◌then◌else◌ {A = ArtifactService} idle s (end_publish options p s).0).artifacts
          ≡ some a
    go true = e
    go false = ends-keeps options token a p s h e
step-keeps options token a (asks asked now) s h e = asks-keeps token a asked now s h e
step-keeps options token a (prunes now) s h e = prune-keeps token a now s h e
step-keeps options token a closes s h e = elim h [ ]

-- A publication that succeeds, any steps before the artifact expires that neither close the service nor draw
-- the same token, and a request with the token before it expires: the request gives the artifact, with the
-- name, size and digest that were published.
pub end_publish-resolve :
    (options : ArtifactServiceOptions) (p : Publication) (s : ArtifactService) (a : StoredArtifact)
    (es : List ArtifactStep) (now : ℕ)
    → (end_publish options p s).1 ≡ ok a
    → All (IsBefore p.token a.expires_at_ms) es
    → is_token (codes p.token) ≡ true
    → now < a.expires_at_ms
    → ((resolve p.token now (run options es (end_publish options p s).0)).1 ≡ some a)
      × (a.name ≡ p.name)
      × (a.size ≡ p.snapshot_size)
      × (a.sha256 ≡ p.sha256)
unfolding run resolve end_publish
end_publish-resolve options p s a es now h b formed live =
    elim (Result-cases (check_source options p)) [
      | inl (t, refused) ↦ cc (rw (refused, end_publish) at h)
      | inr (url, source) ↦ elim (Result-cases (check_snapshot options p)) [
        | inl (t, refused) ↦ cc (rw (source, refused, end_publish) at h)
        | inr (u, snapshot) ↦
            let same : artifact_of options p ≡ a = cc (rw (source, snapshot, end_publish) at h) in
            let stored : lookup p.token (end_publish options p s).0.artifacts ≡ some a =
              rw (source, snapshot, end_publish)
                (ground (
                  arith,
                  lookup-put p.token p.token (artifact_of options p) s.artifacts,
                  eq_iff p.token p.token,
                )
                  ∙ ap some same) in
            let found = go es (end_publish options p s).0 b stored in
            let kept =
              prune-keeps p.token a now (run options es (end_publish options p s).0) live found in
            (
              rw formed kept,
              ap (λ x. x.name) (sym same),
              ap (λ x. x.size) (sym same),
              ap (λ x. x.sha256) (sym same),
            )
      ]
    ]
  where
    go :
        (es : List ArtifactStep) (t : ArtifactService)
        → All (IsBefore p.token a.expires_at_ms) es
        → lookup p.token t.artifacts ≡ some a
        → lookup p.token (run options es t).artifacts ≡ some a
    go [] t b e = e
    go (x ∷ xs) t b e = go xs (step options x t) b.1 (step-keeps options p.token a x t b.0 e)
