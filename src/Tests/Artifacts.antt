-- ===== src/Tests/Artifacts.antt =====
-- One artifact that is published, downloaded and expires.
use chatgpt_remote_mcp.Base.{String, ◌≡◌, refl, subst, true, some, List, [], ◌∷◌, length, arith}
use chatgpt_remote_mcp.Artifacts.{
  ArtifactServiceOptions, ArtifactService, new_service, ParsedUrl, Publication, artifact_of,
  end_publish, is_token, codes, resolve, ArtifactStep, begins, ends, prunes, run,
}
use chatgpt_remote_mcp.Artifacts.Bounds.{IsBounded, run-IsBounded}
use chatgpt_remote_mcp.Artifacts.Expiry.{IsGiven, resolve-IsGiven, end_publish-resolve}

abbrev token : String
token = "artifact_token_of_forty_three_characters_xx"

abbrev options : ArtifactServiceOptions
options = record { ttl_seconds = 1; max_bytes = 10; max_active = 1 }

abbrev public_url : ParsedUrl
public_url = record {
  protocol = "https:";
  hostname = "example.org";
  username = "";
  password = "";
  search = "";
  hash = "";
  pathname = "/";
  origin = "https://example.org";
}

abbrev publication : Publication
publication = record {
  public_url = some (some public_url);
  source_is_file = true;
  source_size = 3;
  name = 97 ∷ 98 ∷ [];
  token = token;
  snapshot_is_file = true;
  snapshot_size = 3;
  sha256 = "d1";
  now = 5;
}

abbrev published : ArtifactService
published = record {
  artifacts = (token, artifact_of options publication) ∷ [];
  snapshots = token ∷ [];
  in_flight = 0;
}

abbrev history : List ArtifactStep
history = begins 0 ∷ ends publication ∷ prunes 7 ∷ []

run-IsBounded_example : IsBounded options 1 (run options history new_service)
unfolding new_service
run-IsBounded_example = run-IsBounded options 1 history (omega arith) (omega arith, tt)

published_now : run options history new_service ≡ published
unfolding run new_service
published_now = refl

bounded : IsBounded options 1 published
unfolding new_service
bounded =
    subst (λ s. IsBounded options 1 s) published_now
      (run-IsBounded options 1 history (omega arith) (omega arith, tt))

resolve-IsGiven_example : IsGiven options token 9 (artifact_of options publication)
resolve-IsGiven_example =
    resolve-IsGiven options 1 token 9 published (artifact_of options publication) bounded
      (unfold resolve codes in refl)

end_publish-resolve_example :
    ((resolve token 9
        (run options (prunes 8 ∷ []) (end_publish options publication new_service).0)).1
      ≡ some (artifact_of options publication))
    × ((artifact_of options publication).name ≡ publication.name)
    × ((artifact_of options publication).size ≡ publication.snapshot_size)
    × ((artifact_of options publication).sha256 ≡ publication.sha256)
end_publish-resolve_example =
    end_publish-resolve options publication new_service (artifact_of options publication)
      (prunes 8 ∷ []) 9 (unfold end_publish in refl) (omega arith, tt)
      (unfold is_token codes in refl) (omega arith)

-- Two publications that begin before either ends pass a capacity of one.
abbrev together : List ArtifactStep
together = begins 0 ∷ begins 0 ∷ ends publication ∷ ends (record publication { token = "t2" }) ∷ []

two_at_once : length (run options together new_service).artifacts ≡ 2
unfolding run new_service
two_at_once = refl
