-- ===== src/Services/Webhook/Access.antt =====
-- Which requests to internal/api/handlers/webhook.go trigger a deployment.
use uruflow.Prelude.{
  ◌↔◌, ap, ◌∙◌, ◌≡◌, ◌≢◌, ◌⊎◌, refl, sym, subst, true, [], ◌∷◌, ◌++◌, Option, none, some, Text,
  bytes, arith, eqb, eqb_iff, eqb_self, is_nil, leb, length, has_prefix, trim_prefix, take,
  has_prefix_split, has_prefix-append, drop_prefix-append, Bool-cases, Option-cases, inl, inr,
  if◌then◌else◌,
}
use uruflow.Models.{Time, Repository}
use uruflow.Config.{get_repository}
use uruflow.Server.{Server, Env}
use uruflow.Services.{Outcome, failed, triggered, trigger_deploy}
use uruflow.Services.Webhook.{
  Webhooks, Push, push_request, answer_push, deploy_to, process_push, process_github_push,
  Processed, panicked, refused, processed, process_gitlab_push, first_commit,
  validate_github_signature, validate_gitlab_token, extract_branch, Request, internal_error,
  handle_github, handle_gitlab, handle_read, handle, respond, GitLabPushPayload, GitHubPushPayload,
}

abbrev heads : Text
heads = bytes "refs/heads/"

cut_append :
    (pre b : Text) → (if has_prefix (pre ++ b) pre then trim_prefix (pre ++ b) pre else []) ≡ b
unfolding trim_prefix
cut_append pre b = rw (has_prefix-append pre b) (drop_prefix-append pre b)

extract_branch_cut :
    (ref : Text) → extract_branch ref ≢ [] → ref ≡ bytes "refs/heads/" ++ extract_branch ref
unfolding extract_branch trim_prefix
extract_branch_cut ref ne = elim (Bool-cases (has_prefix ref heads)) [
  | inl e ↦ rw e (has_prefix_split heads ref e)
  | inr e ↦ absurd (ne (rw e))
]

-- `extractBranch` finds a branch exactly in the ref of that branch.
pub extract_branch_lem :
    (ref b : Text) → b ≢ [] → (extract_branch ref ≡ b) ↔ (ref ≡ bytes "refs/heads/" ++ b)
unfolding extract_branch
extract_branch_lem ref b ne = (
  λ e. extract_branch_cut ref (λ n. ne (sym e ∙ n)) ∙ ap (λ t. bytes "refs/heads/" ++ t) e,
  λ e. subst (λ r. extract_branch r ≡ b) (sym e) (cut_append heads b),
)

is_nil-[] : (t : Text) → is_nil t ≡ true → t ≡ []
is_nil-[] [] e = refl
is_nil-[] (c ∷ t) e = ground (arith, e)

-- A signature that is accepted is `sha256=` and the HMAC of the body under the secret, unless no
-- secret is set.
pub validate_github_signature_lem :
    (w : Webhooks) (secret payload signature : Text)
    → validate_github_signature w secret payload signature ≡ true
    → (secret ≡ []) ⊎ (signature ≡ bytes "sha256=" ++ w.hmac_hex secret payload)
unfolding validate_github_signature trim_prefix
validate_github_signature_lem w [] payload signature h = inl refl
validate_github_signature_lem w (c ∷ secret) payload signature h =
    elim (Bool-cases (has_prefix signature (bytes "sha256="))) [
      | inl e ↦ inr (
          ground (
            arith,
            e,
            h,
            has_prefix_split (bytes "sha256=") signature e,
            eqb_iff (trim_prefix signature (bytes "sha256=")) (w.hmac_hex (c ∷ secret) payload),
          ))
      | inr e ↦ ground (arith, e, h)
    ]

-- The push of a payload that names a branch by its ref.
abbrev pub AsksFor : Text → Text → Text → Push → Type 0
AsksFor ref repo_name commit_id push =
    (push.repo_name ≡ repo_name)
    × (ref ≡ bytes "refs/heads/" ++ push.branch)
    × (push.commit_id ≡ commit_id)

abbrev pub OfGitHub : Webhooks → Text → Push → Type 0
OfGitHub w body push =
    (p : GitHubPushPayload) × (w.parse_github body ≡ some p)
    × AsksFor p.ref p.repository_name p.head_commit_id push

abbrev pub OfGitLab : Webhooks → Text → Push → Type 0
OfGitLab w body push =
    (p : GitLabPushPayload) × (w.parse_gitlab body ≡ some p)
    × AsksFor p.ref p.project_name (first_commit p.commit_ids) push

-- The push that the body of the request reports to the handler of its event.
abbrev pub Reported : Webhooks → Request → Push → Type 0
Reported w r push =
    (body : Text) × (r.body ≡ some body)
    × ((r.github_event ≡ bytes "push") × OfGitHub w body push
        ⊎ (r.github_event ≡ []) × (r.gitlab_event ≡ bytes "Push Hook") × OfGitLab w body push)

-- The state after a deployment that the configuration asks for, of a push that is asked for.
pub record Deploys (env : Env) (now : Time) (why : Text) (s s' : Server) (Asks : Push → Type 0)
    : Type 0 where
  pub push : Push
  pub asked : Asks push
  pub repo : Repository
  pub configured : get_repository s.config push.repo_name ≡ some repo
  pub same_branch : repo.branch ≡ push.branch
  pub automatic : repo.auto_deploy ≡ true
  pub deployed : s' ≡ (trigger_deploy env now why s (push_request repo push)).0

abbrev Effect : Env → Time → Text → Server → (Push → Type 0) → Server → Type 0
Effect env now why s Asks s' = (s' ≡ s) ⊎ Deploys env now why s s' Asks

Effect-mono :
    (env : Env) (now : Time) (why : Text) (s : Server) (P Q : Push → Type 0) (s' : Server)
    → ((p : Push) → P p → Q p)
    → Effect env now why s P s'
    → Effect env now why s Q s'
Effect-mono env now why s P Q s' m (inl e) = inl e
Effect-mono env now why s P Q s' m (inr d) = inr (record {
  push = d.push;
  asked = m d.push d.asked;
  repo = d.repo;
  configured = d.configured;
  same_branch = d.same_branch;
  automatic = d.automatic;
  deployed = d.deployed;
})

answer_push-server : (p : Push) (r : Server × Outcome) → (answer_push p r).0 ≡ r.0
unfolding answer_push
answer_push-server p (s, failed e) = refl
answer_push-server p (s, triggered d) = refl

deploy_to-Effect :
    (env : Env) (now : Time) (why : Text) (s : Server) (Asks : Push → Type 0) (p : Push)
    → Asks p
    → Effect env now why s Asks (deploy_to env now why s p (get_repository s.config p.repo_name)).0
unfolding deploy_to
deploy_to-Effect env now why s Asks p asks =
    elim (Option-cases (get_repository s.config p.repo_name)) [
      | inl e ↦ inl (rw (e))
      | inr (repo, e) ↦ elim (Bool-cases (eqb repo.branch p.branch)) [
        | inr other ↦ inl (rw (e, other))
        | inl same ↦ elim (Bool-cases repo.auto_deploy) [
          | inr off ↦ inl (rw (e, same, off))
          | inl on ↦ inr (record {
            push = p;
            asked = asks;
            repo = repo;
            configured = e;
            same_branch = (eqb_iff repo.branch p.branch).0 same;
            automatic = on;
            deployed =
                rw (e, same, on)
                  (answer_push-server p (trigger_deploy env now why s (push_request repo p)));
          })
        ]
      ]
    ]

process_push-Effect :
    (env : Env) (now : Time) (why : Text) (s : Server) (ref repo_name commit_id : Text)
    (show : Text → Text)
    → Effect env now why s
        (AsksFor ref repo_name commit_id)
        (process_push env now why s ref repo_name commit_id show).0
unfolding process_push
process_push-Effect env now why s ref repo_name commit_id show =
    elim (Bool-cases (is_nil (extract_branch ref))) [
      | inl e ↦ inl (rw (e))
      | inr e ↦ elim (Bool-cases (leb 7 (length commit_id))) [
        | inr short ↦ inl (rw (e, short))
        | inl long ↦
            rw (e, long)
              (deploy_to-Effect env now why s (AsksFor ref repo_name commit_id)
                (record {
                  repo_name = repo_name;
                  branch = extract_branch ref;
                  commit_id = commit_id;
                  shown = show (take 7 commit_id);
                })
                (refl, extract_branch_cut ref (λ n. ground (arith, e, n)), refl))
      ]
    ]

respond-server : (r : Server × Processed) → (respond r).0 ≡ r.0
respond-server (s, panicked) = refl
respond-server (s, refused e) = refl
respond-server (s, processed r) = refl

process_github_push-Effect :
    (w : Webhooks) (env : Env) (now : Time) (why : Text) (s : Server) (payload : Text)
    → Effect env now why s (OfGitHub w payload) (process_github_push w env now why s payload).0
unfolding process_github_push
process_github_push-Effect w env now why s payload = elim (Option-cases (w.parse_github payload)) [
  | inl e ↦ inl (rw (process_github_push, e))
  | inr (push, e) ↦
      rw (process_github_push, e)
        (Effect-mono env now why s (AsksFor push.ref push.repository_name push.head_commit_id)
          (OfGitHub w payload) _ (λ p asks. (push, e, asks))
          (process_push-Effect env now why s push.ref push.repository_name push.head_commit_id
            (λ short. short)))
]

process_gitlab_push-Effect :
    (w : Webhooks) (env : Env) (now : Time) (why : Text) (s : Server) (payload : Text)
    → Effect env now why s (OfGitLab w payload) (process_gitlab_push w env now why s payload).0
unfolding process_gitlab_push
process_gitlab_push-Effect w env now why s payload = elim (Option-cases (w.parse_gitlab payload)) [
  | inl e ↦ inl (rw (process_gitlab_push, e))
  | inr (push, e) ↦
      let id = first_commit push.commit_ids in
      rw (process_gitlab_push, e)
        (Effect-mono env now why s (AsksFor push.ref push.project_name id) (OfGitLab w payload) _
          (λ p asks. (push, e, asks))
          (process_push-Effect env now why s push.ref push.project_name id (λ short. id)))
]

-- The request proves that it comes from the forge whose event it names, unless no secret is set.
unfoldable pub Authentic : Webhooks → Server → Request → Type 0
Authentic w s r =
    (s.config.webhook.secret ≡ [])
    ⊎ ((r.github_event ≡ bytes "push")
        × ((body : Text) × (r.body ≡ some body)
            × (r.signature ≡ bytes "sha256=" ++ w.hmac_hex s.config.webhook.secret body)))
    ⊎ ((r.gitlab_event ≡ bytes "Push Hook") × (r.token ≡ s.config.webhook.secret))

validate_gitlab_token_lem :
    (secret token : Text)
    → validate_gitlab_token secret token ≡ true
    → (secret ≡ []) ⊎ (token ≡ secret)
unfolding validate_gitlab_token
validate_gitlab_token_lem [] token h = inl refl
validate_gitlab_token_lem (c ∷ secret) token h = inr ((eqb_iff token (c ∷ secret)).0 h)

Allowed : Webhooks → Env → Time → Text → Server → Request → Server → Type 0
Allowed w env now why s r s' =
    (s' ≡ s) ⊎ (Authentic w s r × Deploys env now why s s' (Reported w r))

allowed :
    (w : Webhooks) (env : Env) (now : Time) (why : Text) (s s' : Server) (r : Request)
    → Authentic w s r
    → Effect env now why s (Reported w r) s'
    → Allowed w env now why s r s'
unfolding Allowed
allowed w env now why s s' r a (inl e) = inl e
allowed w env now why s s' r a (inr d) = inr (a, d)

handle_github_lem :
    (w : Webhooks) (env : Env) (now : Time) (why : Text) (s : Server) (r : Request) (body : Text)
    → r.body ≡ some body
    → Allowed w env now why s r (handle_github w env now why s r body).0
unfolding handle_github Authentic Allowed
handle_github_lem w env now why s r body at_body =
    let secret = s.config.webhook.secret in
    elim (Bool-cases (validate_github_signature w secret body r.signature)) [
      | inr bad ↦ inl (rw (bad))
      | inl good ↦ elim (Bool-cases (eqb r.github_event (bytes "push"))) [
        | inr other ↦ inl (rw (good, other))
        | inl push ↦
            rw (good, push)
              (allowed w env now why s _ r
                (elim (validate_github_signature_lem w secret body r.signature good) [
                  | inl none_set ↦ inl none_set
                  | inr signed ↦ inr (
                      inl ((eqb_iff r.github_event (bytes "push")).0 push, (body, at_body, signed)))
                ])
                (subst (Effect env now why s (Reported w r))
                  (sym (respond-server (process_github_push w env now why s body)))
                  (Effect-mono env now why s (OfGitHub w body) (Reported w r) _
                    (λ p asks.
                      (body, at_body, inl ((eqb_iff r.github_event (bytes "push")).0 push, asks)))
                    (process_github_push-Effect w env now why s body))))
      ]
    ]

handle_gitlab_lem :
    (w : Webhooks) (env : Env) (now : Time) (why : Text) (s : Server) (r : Request) (body : Text)
    → r.body ≡ some body
    → r.github_event ≡ []
    → Allowed w env now why s r (handle_gitlab w env now why s r body).0
unfolding handle_gitlab Authentic Allowed
handle_gitlab_lem w env now why s r body at_body no_github =
    let secret = s.config.webhook.secret in
    elim (Bool-cases (validate_gitlab_token secret r.token)) [
      | inr bad ↦ inl (rw (bad))
      | inl good ↦ elim (Bool-cases (eqb r.gitlab_event (bytes "Push Hook"))) [
        | inr other ↦ inl (rw (good, other))
        | inl push ↦
            rw (good, push)
              (allowed w env now why s _ r
                (elim (validate_gitlab_token_lem secret r.token good) [
                  | inl none_set ↦ inl none_set
                  | inr known ↦
                      inr (inr ((eqb_iff r.gitlab_event (bytes "Push Hook")).0 push, known))
                ])
                (subst (Effect env now why s (Reported w r))
                  (sym (respond-server (process_gitlab_push w env now why s body)))
                  (Effect-mono env now why s (OfGitLab w body) (Reported w r) _
                    (λ p asks. (
                      body,
                      at_body,
                      inr (no_github, (eqb_iff r.gitlab_event (bytes "Push Hook")).0 push, asks),
                    ))
                    (process_gitlab_push-Effect w env now why s body))))
      ]
    ]

handle_read_lem :
    (w : Webhooks) (env : Env) (now : Time) (why : Text) (s : Server) (r : Request)
    (read : Option Text)
    → r.body ≡ read
    → Allowed w env now why s r (handle_read w env now why s r read).0
unfolding handle_read Allowed
handle_read_lem w env now why s r none e = inl refl
handle_read_lem w env now why s r (some body) e = elim (Bool-cases (is_nil r.github_event)) [
  | inr github ↦ rw (github) (handle_github_lem w env now why s r body e)
  | inl other ↦ elim (Bool-cases (is_nil r.gitlab_event)) [
    | inr gitlab ↦
        rw (other, gitlab)
          (handle_gitlab_lem w env now why s r body e (is_nil-[] r.github_event other))
    | inl neither ↦ inl (rw (other, neither))
  ]
]

-- A webhook changes the server only by triggering the deployment of the push that its body reports:
-- of the repository and the commit that the payload names, which the configuration knows, with its
-- branch the one of the payload's ref and its automatic deployment on, on a request that a secret,
-- where one is set, authenticates: GitHub's by the signature of the body, GitLab's by the token.
pub handle_lem :
    (w : Webhooks) (env : Env) (now : Time) (why : Text) (s : Server) (r : Request)
    → let s' = (handle w env now why s r).0 in
      (s' ≡ s) ⊎ (Authentic w s r × Deploys env now why s s' (Reported w r))
unfolding Allowed
handle_lem w env now why s r = handle_read_lem w env now why s r r.body refl

-- A push hook of GitLab that has the right token and names a branch but has no commit, as when the
-- branch was deleted, panics: whatever repositories are configured, the state is unchanged and the
-- answer is an internal error.
pub no_commit_panics :
    (w : Webhooks) (env : Env) (now : Time) (why : Text) (s : Server) (r : Request) (body : Text)
    {push : GitLabPushPayload}
    → w.parse_gitlab body ≡ some push
    → push.commit_ids ≡ []
    → extract_branch push.ref ≢ []
    → r.gitlab_event ≡ bytes "Push Hook"
    → validate_gitlab_token s.config.webhook.secret r.token ≡ true
    → handle_gitlab w env now why s r body ≡ (s, record { status = 500; answer = internal_error })
unfolding handle_gitlab process_gitlab_push process_push
no_commit_panics w env now why s r body {push} parsed no_commit ref event valid =
    elim (Bool-cases (is_nil (extract_branch push.ref))) [
      | inl e ↦ absurd (ref (is_nil-[] (extract_branch push.ref) e))
      | inr e ↦ rw (
        valid,
        event,
        eqb_self (bytes "Push Hook"),
        process_gitlab_push,
        parsed,
        no_commit,
        process_push,
        e,
      )
    ]
