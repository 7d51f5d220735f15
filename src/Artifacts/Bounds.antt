-- ===== src/Artifacts/Bounds.antt =====
-- src/artifact-service.ts: how many artifacts there are, and what is stored.
use chatgpt_remote_mcp.Base.{
  ℕ, suc, ◌+◌, ◌-◌, ◌≤◌, ◌<◌, ◌≡◌, refl, sym, subst, inl, inr, Bool, true, not, List, [], ◌∷◌,
  String, arith, str_eq, eq_iff, Dict, put, filter_values, ltb, leb, ◌==◌, if◌then◌else◌, length,
  All, Bool-cases,
}
use chatgpt_remote_mcp.Errors.{
  ok, guard, Result-cases, >>=-eq-ok, guard-eq-ok, artifact_source_not_file, artifact_too_large,
  artifact_name_invalid, artifact_snapshot_invalid,
}
use chatgpt_remote_mcp.Artifacts.{
  ArtifactServiceOptions, StoredArtifact, ArtifactService, new_service, is_live, prune,
  start_publish, Publication, valid_download_name, normalize_public_url, check_source,
  check_snapshot, artifact_of, end_publish, is_token, codes, resolve, ArtifactStep, begins, ends,
  asks, prunes, closes, step, run,
}

-- An entry that may be stored.
pub record IsArtifact (options : ArtifactServiceOptions) (e : String × StoredArtifact)
    : Type 0 where
  pub keyed : e.0 ≡ e.1.token
  pub named : valid_download_name e.1.name ≡ true
  pub sized : e.1.size ≤ options.max_bytes

-- No more artifacts than allowed and publications at a time; `at_once` bounds the latter.
pub record IsBounded (options : ArtifactServiceOptions) (at_once : ℕ) (s : ArtifactService)
    : Type 0 where
  pub few : length s.artifacts + s.in_flight < options.max_active + at_once
  pub stored : All (IsArtifact options) s.artifacts

-- At most this many publications are under way when one begins.
abbrev pub IsWithin : ArtifactServiceOptions → ℕ → List ArtifactStep → ArtifactService → Type 0
IsWithin options at_once [] s = Unit
IsWithin options at_once (begins now ∷ es) s =
    (s.in_flight < at_once) × IsWithin options at_once es (step options (begins now) s)
IsWithin options at_once (ends p ∷ es) s = IsWithin options at_once es (step options (ends p) s)
IsWithin options at_once (asks token now ∷ es) s =
    IsWithin options at_once es (step options (asks token now) s)
IsWithin options at_once (prunes now ∷ es) s =
    IsWithin options at_once es (step options (prunes now) s)
IsWithin options at_once (closes ∷ es) s = IsWithin options at_once es (step options closes s)

length-filter_values :
    (p : StoredArtifact → Bool) (m : Dict StoredArtifact) → length (filter_values p m) ≤ length m
length-filter_values p [] = omega arith
length-filter_values p ((k, v) ∷ m) = ground (arith, length-filter_values p m)

All-filter_values :
    (options : ArtifactServiceOptions) (p : StoredArtifact → Bool) (m : Dict StoredArtifact)
    → All (IsArtifact options) m
    → All (IsArtifact options) (filter_values p m)
All-filter_values options p [] h = tt
All-filter_values options p ((k, v) ∷ m) h = elim (Bool-cases (p v)) [
  | inl keep ↦ rw keep (h.0, All-filter_values options p m h.1)
  | inr drop ↦ rw drop (All-filter_values options p m h.1)
]

length-put :
    (k : String) (v : StoredArtifact) (m : Dict StoredArtifact)
    → length (put k v m) ≤ suc (length m)
length-put k v [] = omega arith
length-put k v ((j, w) ∷ m) = ground (arith, length-put k v m)

All-put :
    (options : ArtifactServiceOptions) (k : String) (v : StoredArtifact) (m : Dict StoredArtifact)
    → IsArtifact options (k, v)
    → All (IsArtifact options) m
    → All (IsArtifact options) (put k v m)
All-put options k v [] n h = (n, tt)
All-put options k v ((j, w) ∷ m) n h = elim (Bool-cases (str_eq j k)) [
  | inl same ↦
      let e : j ≡ k = (eq_iff j k).0 same in
      rw same (subst (λ x. IsArtifact options (x, v)) (sym e) n, h.1)
  | inr other_key ↦ rw other_key (h.0, All-put options k v m n h.1)
]

prune-IsBounded :
    (options : ArtifactServiceOptions) (at_once now : ℕ) (s : ArtifactService)
    → IsBounded options at_once s
    → IsBounded options at_once (prune now s)
prune-IsBounded options at_once now s b = record {
  few = omega (arith, b.few, length-filter_values (is_live now) s.artifacts);
  stored = All-filter_values options (is_live now) s.artifacts b.stored;
}

start_publish-IsBounded :
    (options : ArtifactServiceOptions) (at_once now : ℕ) (s : ArtifactService)
    → s.in_flight < at_once
    → IsBounded options at_once s
    → IsBounded options at_once (start_publish options now s).0
start_publish-IsBounded options at_once now s h b =
    let pruned = prune-IsBounded options at_once now s b in
    elim (Bool-cases (leb options.max_active (length (prune now s).artifacts))) [
      | inl full ↦ rw full pruned
      | inr room ↦ rw room (record { few = ground (arith, room, h); stored = pruned.stored })
    ]

checked_name :
    (options : ArtifactServiceOptions) (p : Publication) {url : String}
    → check_source options p ≡ ok url
    → valid_download_name p.name ≡ true
checked_name options p h =
    let (u, a, h1) = >>=-eq-ok (normalize_public_url p.public_url) _ h in
    let (v, b, h2) = >>=-eq-ok (guard p.source_is_file artifact_source_not_file) _ h1 in
    let (w, c, h3) =
      >>=-eq-ok (guard (not (ltb options.max_bytes p.source_size)) artifact_too_large) _ h2 in
    let (x, d, h4) = >>=-eq-ok (guard (valid_download_name p.name) artifact_name_invalid) _ h3 in
    guard-eq-ok (valid_download_name p.name) artifact_name_invalid d

checked_size :
    (options : ArtifactServiceOptions) (p : Publication) {u : Unit {0}}
    → check_snapshot options p ≡ ok u
    → p.snapshot_size ≤ options.max_bytes
checked_size options p h =
    let (v, a, h1) = >>=-eq-ok (guard p.snapshot_is_file artifact_snapshot_invalid) _ h in
    let test = guard-eq-ok (not (ltb options.max_bytes p.snapshot_size)) artifact_too_large h1 in
    ground (arith, test)

resolve-IsBounded :
    (options : ArtifactServiceOptions) (at_once : ℕ) (token : String) (now : ℕ)
    (s : ArtifactService)
    → IsBounded options at_once s
    → IsBounded options at_once (resolve token now s).0
unfolding resolve
resolve-IsBounded options at_once token now s b = elim (Bool-cases (is_token (codes token))) [
  | inl formed ↦ rw formed (prune-IsBounded options at_once now s b)
  | inr odd ↦ rw odd b
]

end_publish-IsBounded :
    (options : ArtifactServiceOptions) (at_once : ℕ) (p : Publication) (s : ArtifactService)
    → 0 < s.in_flight
    → IsBounded options at_once s
    → IsBounded options at_once (end_publish options p s).0
unfolding end_publish
end_publish-IsBounded options at_once p s h b =
    let fewer : length s.artifacts + (s.in_flight - 1) < options.max_active + at_once =
      omega (arith, b.few) in
    elim (Result-cases (check_source options p)) [
      | inl (e, refused) ↦ rw (refused, end_publish) (record { few = fewer; stored = b.stored })
      | inr (url, source) ↦ elim (Result-cases (check_snapshot options p)) [
        | inl (e, refused) ↦
            rw (source, refused, end_publish) (record { few = fewer; stored = b.stored })
        | inr (u, snapshot) ↦
            rw (source, snapshot, end_publish)
              (record {
                few =
                    omega (arith, b.few, h, length-put p.token (artifact_of options p) s.artifacts);
                stored =
                    All-put options p.token (artifact_of options p) s.artifacts
                      (record {
                        keyed = refl;
                        named = checked_name options p source;
                        sized = checked_size options p snapshot;
                      })
                      b.stored;
              })
      ]
    ]

step-IsBounded :
    (options : ArtifactServiceOptions) (at_once : ℕ) (e : ArtifactStep) (es : List ArtifactStep)
    (s : ArtifactService)
    → 1 ≤ at_once
    → IsWithin options at_once (e ∷ es) s
    → IsBounded options at_once s
    → IsBounded options at_once (step options e s) × IsWithin options at_once es (step options e s)
unfolding step
step-IsBounded options at_once (begins now) es s k w b =
    (start_publish-IsBounded options at_once now s w.0 b, w.1)
step-IsBounded options at_once (ends p) es s k w b = elim (Bool-cases (s.in_flight == 0)) [
  | inl none_left ↦ (
    subst (λ t. IsBounded options at_once (if t then s else (end_publish options p s).0))
        (sym none_left) b,
    w,
  )
  | inr some_left ↦ (
    subst (λ t. IsBounded options at_once (if t then s else (end_publish options p s).0))
        (sym some_left) (end_publish-IsBounded options at_once p s (ground (arith, some_left)) b),
    w,
  )
]
step-IsBounded options at_once (asks token now) es s k w b =
    (resolve-IsBounded options at_once token now s b, w)
step-IsBounded options at_once (prunes now) es s k w b =
    (prune-IsBounded options at_once now s b, w)
step-IsBounded options at_once closes es s k w b =
    (record { few = omega (arith, b.few); stored = tt }, w)

-- After any history in which at most `at_once` publications are under way together, at least one being
-- allowed: the artifacts are fewer than the capacity and that number together, so that one publication at a
-- time keeps to the capacity; and each artifact is stored under its token, has a name that may be downloaded,
-- and is no larger than allowed.
pub run-IsBounded :
    (options : ArtifactServiceOptions) (at_once : ℕ) (es : List ArtifactStep)
    → 1 ≤ at_once
    → IsWithin options at_once es new_service
    → IsBounded options at_once (run options es new_service)
unfolding run new_service
run-IsBounded options at_once es k w =
    go es new_service w (record { few = omega (arith, k); stored = tt })
  where
    go :
        (es : List ArtifactStep) (s : ArtifactService)
        → IsWithin options at_once es s
        → IsBounded options at_once s
        → IsBounded options at_once (run options es s)
    go [] s w b = b
    go (e ∷ es) s w b =
        let (next, rest) = step-IsBounded options at_once e es s k w b in
        go es (step options e s) rest next
