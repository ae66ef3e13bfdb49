-- ===== src/Tests/Deploying.antt =====
-- Deployments and webhooks at concrete requests.
use uruflow.Prelude.{
  trim_prefix, drop_prefix, ◌≡◌, ◌⊎◌, refl, arith, [], ◌∷◌, ◌++◌, some, Text, bytes, true, eqb,
  has_prefix,
}
use uruflow.Prelude.Int.{pos}
use uruflow.Server.Connections.{new_connection}
use uruflow.Server.{Server}
use uruflow.Services.{DeployRequest}
use uruflow.Services.Webhook.{
  Webhooks, GitHubPushPayload, GitLabPushPayload, Request, extract_branch, validate_gitlab_token,
  handle, handle_gitlab, internal_error,
}
use uruflow.Services.Webhook.Access.{Authentic, Deploys, Reported, handle_lem, no_commit_panics}
use uruflow.Tests.Fixtures.{env, server, agent_id}

abbrev request : DeployRequest
request = record {
  agent_id = agent_id;
  repo_name = bytes "site";
  branch = bytes "main";
  commit = bytes "0123456789";
  trigger = bytes "manual";
}

abbrev deletion : GitLabPushPayload
deletion = record { ref = bytes "refs/heads/old"; project_name = bytes "site"; commit_ids = [] }

abbrev pushed : GitHubPushPayload
pushed = record {
  ref = bytes "refs/heads/main";
  repository_name = bytes "site";
  head_commit_id = bytes "0123456789";
}

-- A forge that signs with the key itself in front of the body.
abbrev webhooks : Webhooks
webhooks = record {
  hmac_hex = λ secret body. secret ++ body;
  parse_github = λ body. some pushed;
  parse_gitlab = λ body. some deletion;
}

abbrev secret : Text
secret = bytes "s3cret"

abbrev hook : Request
hook = record {
  github_event = [];
  gitlab_event = bytes "Push Hook";
  signature = [];
  token = secret;
  body = some (bytes "body");
}

abbrev signed_push : Request
signed_push = record hook { github_event = bytes "push"; signature = bytes "sha256=s3cretbody" }

-- The agent is connected, and reachable.
abbrev connected : Server
connected = record server {
  conns = new_connection (bytes "c") (bytes "10.0.0.2") true (pos 0) ∷ [];
  registry = (agent_id, bytes "c") ∷ [];
}

handle_lem_example :
    let s = (handle webhooks env (pos 0) [] connected signed_push).0 in
    (s ≡ connected)
    ⊎ (Authentic webhooks connected signed_push
        × Deploys env (pos 0) [] connected s (Reported webhooks signed_push))
handle_lem_example = handle_lem webhooks env (pos 0) [] connected signed_push

no_commit_panics_example :
    handle_gitlab webhooks env (pos 0) [] server hook (bytes "body")
    ≡ (server, record { status = 500; answer = internal_error })
unfolding extract_branch validate_gitlab_token has_prefix eqb trim_prefix drop_prefix
no_commit_panics_example =
    no_commit_panics webhooks env (pos 0) [] server hook (bytes "body") {push = deletion} refl refl
      (λ e. ground (arith, e)) refl refl
