-- ===== src/Agent/Deploy/Plan.antt =====
-- `Execute` of internal/agent/deploy/deploy.go against a list of commands.
use uruflow.Prelude.{
  ◌≡◌, refl, ap, subst, ◌∙◌, Bool, true, false, ◌||◌, List, [], ◌∷◌, ◌++◌, Option, none, some, Text,
  bytes, eqb, is_nil, Bool-cases, inl, inr, if◌then◌else◌,
}
use uruflow.Prelude.Int.{ℤ}
use uruflow.Agent.Deploy.{
  say, short_commit, Host, Run, Result, DeployConfig, Resolved, command, unresolved, LogLine,
  and_then, ran, run_cmd, clone_args, clone_or_pull, check_out, resolve_command, finish_run, build,
  with_sources, repo_dir_of, execute,
}

-- A program to run: its directory, its name and arguments.
abbrev Job : Type 0
Job = Text × List Text

abbrev checkout_jobs : Text → DeployConfig → List Job
checkout_jobs repo_dir cfg =
    if is_nil cfg.commit || eqb cfg.commit (bytes "HEAD")
    then []
    else (repo_dir, bytes "git" ∷ bytes "checkout" ∷ cfg.commit ∷ []) ∷ []

module _ {W : Type 0} (h : Host W) where
  -- What follows a program, if it succeeds.
  after : (W → W × Option Text) → W × Option Text → W × Option Text
  after next (w, some e) = (w, some e)
  after next (w, none) = next w

  abbrev run_job : Job → W → W × Option Text
  run_job (dir, args) w = let (w', lines, e) = h.run w dir args in (w', e)

  -- The programs run one after the other, up to the first that fails.
  unfoldable pub run_jobs : List Job → W → W × Option Text
  unfolding after
  run_jobs [] w = (w, none)
  run_jobs (job ∷ jobs) w = after (run_jobs jobs) (run_job job w)

  -- The programs that bring the sources, on a machine where the repository is missing or not.
  unfoldable pub source_jobs : Text → DeployConfig → Bool → List Job
  source_jobs repo_dir cfg true =
      (h.dir_of repo_dir, clone_args h cfg repo_dir) ∷ checkout_jobs repo_dir cfg
  source_jobs repo_dir cfg false =
      (repo_dir, bytes "git" ∷ bytes "fetch" ∷ bytes "origin" ∷ [])
      ∷ (
        repo_dir,
        bytes "git" ∷ bytes "reset" ∷ bytes "--hard" ∷ (bytes "origin/" ++ cfg.branch) ∷ [],
      )
      ∷ checkout_jobs repo_dir cfg

  run_resolved : Text → DeployConfig → W → Resolved → W × Option Text
  run_resolved repo_dir cfg w (unresolved e) = (w, some e)
  run_resolved repo_dir cfg w (command cmd) =
      let (w', lines, e) = h.script w repo_dir cmd cfg.env in (w', e)

  -- The build, on the sources, if they are there.
  build_after : Text → DeployConfig → W × Option Text → W × Option Text
  build_after repo_dir cfg (w, some e) = (w, some e)
  build_after repo_dir cfg (w, none) =
      let (w', hash) = h.output w repo_dir (bytes "git" ∷ bytes "rev-parse" ∷ bytes "HEAD" ∷ []) in
      run_resolved repo_dir cfg w' (resolve_command h w' repo_dir cfg)

  -- The whole deployment: the machine afterwards, and the error.
  unfoldable pub reference : Text → DeployConfig → W → W × Option Text
  unfolding run_jobs source_jobs run_resolved build_after
  reference work_dir cfg w =
      let repo_dir = repo_dir_of h work_dir cfg in
      let missing = h.missing w (h.join repo_dir (bytes ".git")) in
      let start = if missing then h.make_dirs w (h.dir_of repo_dir) else w in
      build_after repo_dir cfg (run_jobs (source_jobs repo_dir cfg missing) start)

  abbrev seen : Run W × Option Text → W × Option Text
  seen (r, e) = (r.world, e)

  abbrev is_ok : Option Text → Bool
  is_ok none = true
  is_ok (some e) = false

  abbrev pub Agrees : Run W × Result → W × Option Text → Type 0
  Agrees (r, result) (w, e) = (r.world ≡ w) × (result.error ≡ e) × (result.success ≡ is_ok e)

  -- One program, and those of a list after it.
  and_then-run_jobs :
      (jobs : List Job) (r : Run W) (dir : Text) (args : List Text)
      (next : Run W → Run W × Option Text)
      → ((r' : Run W) → seen (next r') ≡ run_jobs jobs r'.world)
      → seen (and_then (run_cmd h r dir args) next) ≡ run_jobs ((dir, args) ∷ jobs) r.world
  unfolding and_then run_cmd run_jobs
  and_then-run_jobs jobs r dir args next follow = ended (h.run r.world dir args)
    where
      ended :
          (p : W × List LogLine × Option Text)
          → seen (and_then (ran h r p) next) ≡ after (run_jobs jobs) (p.0, p.2)
      ended (w, lines, some e) = refl
      ended (w, lines, none) = follow (record { world = w; lines = r.lines ++ lines })

  -- One program, as the last.
  run_cmd-run_jobs :
      (r : Run W) (dir : Text) (args : List Text)
      → seen (run_cmd h r dir args) ≡ run_jobs ((dir, args) ∷ []) r.world
  unfolding run_cmd run_jobs
  run_cmd-run_jobs r dir args = ended (h.run r.world dir args)
    where
      ended :
          (p : W × List LogLine × Option Text) → seen (ran h r p) ≡ after (run_jobs []) (p.0, p.2)
      ended (w, lines, some e) = refl
      ended (w, lines, none) = refl

  check_out-run_jobs :
      (cfg : DeployConfig) (repo_dir : Text) (r : Run W)
      → seen (check_out h cfg repo_dir r) ≡ run_jobs (checkout_jobs repo_dir cfg) r.world
  unfolding check_out run_jobs
  check_out-run_jobs cfg repo_dir r =
      elim (Bool-cases (is_nil cfg.commit || eqb cfg.commit (bytes "HEAD"))) [
        | inl e ↦ rw (check_out, e)
        | inr e ↦
            rw (check_out, e)
              (run_cmd-run_jobs (say (bytes "Checking out " ++ short_commit cfg.commit) r) repo_dir
                _)
      ]

  and_then_assoc :
      (p : Run W × Option Text) (f g : Run W → Run W × Option Text)
      → and_then (and_then p f) g ≡ and_then p (λ r. and_then (f r) g)
  unfolding and_then
  and_then_assoc (r, some e) f g = refl
  and_then_assoc (r, none) f g = refl

  sources-run_jobs :
      (cfg : DeployConfig) (repo_dir : Text) (r : Run W) (missing : Bool)
      → h.missing r.world (h.join repo_dir (bytes ".git")) ≡ missing
      → seen (and_then (clone_or_pull h cfg repo_dir r) (check_out h cfg repo_dir))
        ≡ run_jobs
            (source_jobs repo_dir cfg missing)
            (if missing then h.make_dirs r.world (h.dir_of repo_dir) else r.world)
  unfolding clone_or_pull source_jobs
  sources-run_jobs cfg repo_dir r true e =
      rw (clone_or_pull, e)
        (and_then-run_jobs (checkout_jobs repo_dir cfg) _ (h.dir_of repo_dir)
          (clone_args h cfg repo_dir) (check_out h cfg repo_dir) (check_out-run_jobs cfg repo_dir))
  sources-run_jobs cfg repo_dir r false e =
      let reset = λ (fetched : Run W).
        run_cmd h fetched repo_dir
          (bytes "git" ∷ bytes "reset" ∷ bytes "--hard" ∷ (bytes "origin/" ++ cfg.branch) ∷ []) in
      rw (clone_or_pull, e)
        (ap seen (and_then_assoc _ reset (check_out h cfg repo_dir))
          ∙ and_then-run_jobs _ r repo_dir _
              (λ fetched. and_then (reset fetched) (check_out h cfg repo_dir))
              (λ fetched.
                and_then-run_jobs _ fetched repo_dir _ (check_out h cfg repo_dir)
                  (check_out-run_jobs cfg repo_dir)))

  build-Agrees :
      (took : ℤ) (cfg : DeployConfig) (repo_dir commit : Text) (r : Run W) (found : Resolved)
      → Agrees (build h took cfg repo_dir commit r found) (run_resolved repo_dir cfg r.world found)
  unfolding build run_resolved
  build-Agrees took cfg repo_dir commit r (unresolved e) = (refl, refl, refl)
  build-Agrees took cfg repo_dir commit r (command cmd) =
      ended (say (bytes "Running: " ++ cmd) r) (h.script r.world repo_dir cmd cfg.env)
    where
      ended :
          (r : Run W) (p : W × List LogLine × Option Text)
          → Agrees (finish_run h took commit (ran h r p)) (p.0, p.2)
      ended r (w, lines, some e) = (refl, refl, refl)
      ended r (w, lines, none) = (refl, refl, refl)

  with_sources-Agrees :
      (took : ℤ) (cfg : DeployConfig) (repo_dir : Text) (p : Run W × Option Text)
      → Agrees (with_sources h took cfg repo_dir p) (build_after repo_dir cfg (seen p))
  unfolding with_sources build_after
  with_sources-Agrees took cfg repo_dir (r, some e) = (refl, refl, refl)
  with_sources-Agrees took cfg repo_dir (r, none) = build-Agrees took cfg repo_dir _ _ _

  -- `Execute` does to the machine what the list of commands does: clone, or fetch and reset, then
  -- the checkout of a commit, then the build command, each only after the ones before succeeded.
  -- It returns the error of the first that fails, or that no build command was found, and it is a
  -- success exactly if there is none.
  pub execute-reference :
      (took : ℤ) (work_dir : Text) (cfg : DeployConfig) (w : W)
      → Agrees (execute h took work_dir cfg w) (reference work_dir cfg w)
  unfolding execute reference
  execute-reference took work_dir cfg w =
      let repo_dir = repo_dir_of h work_dir cfg in
      let start : Run W =
        say (bytes "Cloning/pulling repository...")
          (say (bytes "Deploying " ++ cfg.name) (record { world = w; lines = [] })) in
      let sources = and_then (clone_or_pull h cfg repo_dir start) (check_out h cfg repo_dir) in
      subst (λ q. Agrees (with_sources h took cfg repo_dir sources) (build_after repo_dir cfg q))
        (sources-run_jobs cfg repo_dir start (h.missing w (h.join repo_dir (bytes ".git"))) refl)
        (with_sources-Agrees took cfg repo_dir sources)
