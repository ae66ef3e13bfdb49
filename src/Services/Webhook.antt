-- ===== src/Services/Webhook.antt =====
-- internal/services/webhook.go and internal/api/handlers/webhook.go: pushes reported by GitHub and
-- GitLab. encoding/json and crypto/hmac are arguments. A panic is a result of its own, which the
-- `Recovery` of internal/api/middleware/middleware.go answers.
pub mod Access
use uruflow.Prelude.{
  ℕ, Bool, true, false, not, List, [], ◌∷◌, ◌++◌, Option, none, some, Text, bytes, eqb, is_nil, leb,
  length, take, has_prefix, trim_prefix, if◌then◌else◌,
}
use uruflow.Models.{Time, Repository, Deployment}
use uruflow.Config.{Config, get_repository}
use uruflow.Server.{Server, Env}
use uruflow.Services.{ServiceError, Outcome, failed, triggered, DeployRequest, trigger_deploy}

pub record WebhookResult : Type 0 where
  pub repository : Text
  pub branch : Text
  pub commit : Text
  pub deployment : Deployment

pub record GitHubPushPayload : Type 0 where
  pub ref : Text
  pub repository_name : Text
  pub head_commit_id : Text

pub record GitLabPushPayload : Type 0 where
  pub ref : Text
  pub project_name : Text
  pub commit_ids : List Text

-- What the service does not implement: HMAC-SHA256 in hexadecimal, under a key, and the parsers.
pub record Webhooks : Type 0 where
  pub hmac_hex : Text → Text → Text
  pub parse_github : Text → Option GitHubPushPayload
  pub parse_gitlab : Text → Option GitLabPushPayload

unfoldable pub validate_github_signature : Webhooks → Text → Text → Text → Bool
validate_github_signature w secret payload signature =
    if is_nil secret
    then true
    else if has_prefix signature (bytes "sha256=")
    then eqb (trim_prefix signature (bytes "sha256=")) (w.hmac_hex secret payload)
    else false

unfoldable pub validate_gitlab_token : Text → Text → Bool
validate_gitlab_token secret token = if is_nil secret then true else eqb token secret

-- `extractBranch`: the empty text stands for no branch.
unfoldable pub extract_branch : Text → Text
extract_branch ref =
    if has_prefix ref (bytes "refs/heads/") then trim_prefix ref (bytes "refs/heads/") else []

pub data PushError : Type 0 where
  bad_payload : PushError
  bad_ref : PushError
  not_configured : PushError
  wrong_branch : PushError
  auto_deploy_disabled : PushError
  not_triggered : ServiceError → PushError

pub data Processed : Type 0 where
  panicked : Processed
  refused : PushError → Processed
  processed : WebhookResult → Processed

-- The Go expression `id[:7]`, which panics on a shorter text.
abbrev pub short_id : Text → Option Text
short_id id = if leb 7 (length id) then some (take 7 id) else none

-- A push to a branch, with the commit id as the log line and the result show it.
pub record Push : Type 0 where
  pub repo_name : Text
  pub branch : Text
  pub commit_id : Text
  pub shown : Text

abbrev pub push_request : Repository → Push → DeployRequest
push_request repo p = record {
  agent_id = repo.agent_id;
  repo_name = p.repo_name;
  branch = p.branch;
  commit = p.commit_id;
  trigger = bytes "webhook";
}

unfoldable pub answer_push : Push → Server × Outcome → Server × Processed
answer_push p (s, failed e) = (s, refused (not_triggered e))
answer_push p (s, triggered d) = (
  s,
  processed
      (record { repository = p.repo_name; branch = p.branch; commit = p.shown; deployment = d }),
)

unfoldable pub deploy_to :
    Env → Time → Text → Server → Push → Option Repository → Server × Processed
unfolding answer_push
deploy_to env now why s p none = (s, refused not_configured)
deploy_to env now why s p (some repo) =
    if eqb repo.branch p.branch
    then if repo.auto_deploy
      then answer_push p (trigger_deploy env now why s (push_request repo p))
      else (s, refused auto_deploy_disabled)
    else (s, refused wrong_branch)

-- The common part of the two `Process…Push`, from the log line that slices the commit id on.
unfoldable pub process_push :
    Env → Time → Text → Server → Text → Text → Text → (Text → Text) → Server × Processed
unfolding deploy_to
process_push env now why s ref repo_name commit_id show =
    let branch = extract_branch ref in
    if is_nil branch then (s, refused bad_ref) else elim (short_id commit_id) [
      | none ↦ (s, panicked)
      | some short ↦
          deploy_to env now why s
            (record {
              repo_name = repo_name;
              branch = branch;
              commit_id = commit_id;
              shown = show short;
            })
            (get_repository s.config repo_name)
    ]

-- `ProcessGitHubPush` shows the first seven bytes of the commit id.
unfoldable pub process_github_push :
    Webhooks → Env → Time → Text → Server → Text → Server × Processed
unfolding process_push
process_github_push w env now why s payload = elim (w.parse_github payload) [
  | none ↦ (s, refused bad_payload)
  | some push ↦
      process_push env now why s push.ref push.repository_name push.head_commit_id (λ short. short)
]

abbrev pub first_commit : List Text → Text
first_commit [] = []
first_commit (id ∷ later) = id

-- `ProcessGitLabPush` shows the whole id of the first commit.
unfoldable pub process_gitlab_push :
    Webhooks → Env → Time → Text → Server → Text → Server × Processed
unfolding process_push
process_gitlab_push w env now why s payload = elim (w.parse_gitlab payload) [
  | none ↦ (s, refused bad_payload)
  | some push ↦
      let commit_id = first_commit push.commit_ids in
      process_push env now why s push.ref push.project_name commit_id (λ short. commit_id)
]

-- The headers that are read, empty where they are missing, and the body: `none` is a failed read,
-- as of a body over 1 MiB.
pub record Request : Type 0 where
  pub github_event : Text
  pub gitlab_event : Text
  pub signature : Text
  pub token : Text
  pub body : Option Text

pub data Answer : Type 0 where
  error : Text → Answer
  ignored : Text → Answer
  push_failed : PushError → Answer
  accepted : WebhookResult → Answer
  internal_error : Answer

pub record Response : Type 0 where
  pub status : ℕ
  pub answer : Answer

-- The last part of `handleGitHub` and `handleGitLab`, and `Recovery` around them.
abbrev pub respond : Server × Processed → Server × Response
respond (s, panicked) = (s, record { status = 500; answer = internal_error })
respond (s, refused e) = (s, record { status = 200; answer = push_failed e })
respond (s, processed r) = (s, record { status = 200; answer = accepted r })

unfoldable pub handle_github :
    Webhooks → Env → Time → Text → Server → Request → Text → Server × Response
handle_github w env now why s r body =
    if validate_github_signature w s.config.webhook.secret body r.signature
    then if eqb r.github_event (bytes "push")
      then respond (process_github_push w env now why s body)
      else (s, record { status = 200; answer = ignored r.github_event })
    else (s, record { status = 401; answer = error (bytes "invalid signature") })

unfoldable pub handle_gitlab :
    Webhooks → Env → Time → Text → Server → Request → Text → Server × Response
handle_gitlab w env now why s r body =
    if validate_gitlab_token s.config.webhook.secret r.token
    then if eqb r.gitlab_event (bytes "Push Hook")
      then respond (process_gitlab_push w env now why s body)
      else (s, record { status = 200; answer = ignored r.gitlab_event })
    else (s, record { status = 401; answer = error (bytes "invalid token") })

-- `Handle`, on what reading the body gave.
unfoldable pub handle_read :
    Webhooks → Env → Time → Text → Server → Request → Option Text → Server × Response
unfolding handle_github handle_gitlab
handle_read w env now why s r none =
    (s, record { status = 400; answer = error (bytes "failed to read body") })
handle_read w env now why s r (some body) =
    if not (is_nil r.github_event)
    then handle_github w env now why s r body
    else if not (is_nil r.gitlab_event)
    then handle_gitlab w env now why s r body
    else (s, record { status = 400; answer = error (bytes "unsupported webhook source") })

abbrev pub handle : Webhooks → Env → Time → Text → Server → Request → Server × Response
handle w env now why s r = handle_read w env now why s r r.body
