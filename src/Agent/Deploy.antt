-- ===== src/Agent/Deploy.antt =====
-- internal/agent/deploy/deploy.go: the executor. The machine is an argument: what its programs do
-- to it, and what they print, in the order in which the lines arrive. path/filepath is an argument
-- too.
pub mod Plan
use uruflow.Prelude.{
  ℕ, Bool, true, false, not, ◌||◌, List, [], ◌∷◌, ◌++◌, Option, none, some, Text, bytes, eqb,
  is_nil, ltb, length, take, if◌then◌else◌,
}
use uruflow.Prelude.Int.{ℤ, pos}

pub record LogLine : Type 0 where
  pub stream : Text
  pub line : Text

-- `Config` of the package.
pub record DeployConfig : Type 0 where
  pub url : Text
  pub name : Text
  pub branch : Text
  pub commit : Text
  pub path : Text
  pub build_system : Text
  pub build_file : Text
  pub build_cmd : Text
  pub env : List (Text × Text)

-- `Result`, and the error beside it: `some` has the text of the error.
pub record Result : Type 0 where
  pub success : Bool
  pub duration : ℤ
  pub commit : Text
  pub error : Option Text

-- A program is started in a directory, with its name and arguments; `some` is the text of its
-- error. `output` collects what the program prints, `script` is run by the shell with more
-- variables in its environment. `stat` says whether `os.Stat` succeeds, `missing` whether it fails
-- because there is no such file. `print_duration` rounds to milliseconds.
pub record Host (W : Type 0) : Type 0 where
  pub join : Text → Text → Text
  pub dir_of : Text → Text
  pub base_of : Text → Text
  pub run : W → Text → List Text → W × List LogLine × Option Text
  pub script : W → Text → Text → List (Text × Text) → W × List LogLine × Option Text
  pub output : W → Text → List Text → W × Option Text
  pub stat : W → Text → Bool
  pub missing : W → Text → Bool
  pub make_dirs : W → Text → W
  pub trim_space : Text → Text
  pub print_duration : ℤ → Text

-- The machine, and the lines that the handler of `OnLog` was called with.
pub record Run (W : Type 0) : Type 0 where
  pub world : W
  pub lines : List LogLine

-- A command that `resolveCommand` found, or the text of its error.
pub data Resolved : Type 0 where
  command : Text → Resolved
  unresolved : Text → Resolved

-- The first seven bytes of a commit that has more.
abbrev pub short_commit : Text → Text
short_commit commit = if ltb 7 (length commit) then take 7 commit else commit

-- The character that starts each line about a stage, in UTF-8, and a space.
abbrev pub mark : Text
mark = 226 ∷ 128 ∷ 186 ∷ 32 ∷ []

-- `log`
abbrev pub log : {W : Type 0} → Text → Text → Run W → Run W
log stream line r = record r { lines = r.lines ++ record { stream = stream; line = line } ∷ [] }

abbrev pub say : {W : Type 0} → Text → Run W → Run W
say text r = log (bytes "stdout") (mark ++ text) r

-- The second of two commands runs if the first succeeds.
unfoldable pub and_then :
    {W : Type 0} → Run W × Option Text → (Run W → Run W × Option Text) → Run W × Option Text
and_then (r, some e) next = (r, some e)
and_then (r, none) next = next r

module _ {W : Type 0} (h : Host W) where
  unfoldable pub ran : Run W → W × List LogLine × Option Text → Run W × Option Text
  ran r (w, lines, e) = (record { world = w; lines = r.lines ++ lines }, e)

  -- `runCmd`
  unfoldable pub run_cmd : Run W → Text → List Text → Run W × Option Text
  unfolding ran
  run_cmd r dir args = ran r (h.run r.world dir args)

  -- `runScript`
  unfoldable pub run_script : Run W → Text → Text → List (Text × Text) → Run W × Option Text
  unfolding ran
  run_script r dir script env = ran r (h.script r.world dir script env)

  abbrev pub clone_args : DeployConfig → Text → List Text
  clone_args cfg repo_dir =
      bytes "git"
      ∷ bytes "clone"
      ∷ bytes "-b"
      ∷ cfg.branch
      ∷ bytes "--single-branch"
      ∷ cfg.url
      ∷ h.base_of repo_dir
      ∷ []

  -- `cloneOrPull`
  unfoldable pub clone_or_pull : DeployConfig → Text → Run W → Run W × Option Text
  unfolding and_then run_cmd
  clone_or_pull cfg repo_dir r =
      let parent = h.dir_of repo_dir in
      if h.missing r.world (h.join repo_dir (bytes ".git"))
      then run_cmd (record r { world = h.make_dirs r.world parent }) parent
          (clone_args cfg repo_dir)
      else and_then (run_cmd r repo_dir (bytes "git" ∷ bytes "fetch" ∷ bytes "origin" ∷ []))
          (λ fetched.
            run_cmd fetched repo_dir
              (bytes "git" ∷ bytes "reset" ∷ bytes "--hard" ∷ (bytes "origin/" ++ cfg.branch) ∷ []))

  -- A commit other than the empty text and HEAD is checked out.
  unfoldable pub check_out : DeployConfig → Text → Run W → Run W × Option Text
  unfolding run_cmd
  check_out cfg repo_dir r =
      if is_nil cfg.commit || eqb cfg.commit (bytes "HEAD")
      then (r, none)
      else run_cmd (say (bytes "Checking out " ++ short_commit cfg.commit) r) repo_dir
          (bytes "git" ∷ bytes "checkout" ∷ cfg.commit ∷ [])

  -- `fileExists`
  abbrev pub file_exists : W → Text → Text → Bool
  file_exists w repo_dir file = h.stat w (h.join repo_dir file)

  -- `findComposeFile`
  unfoldable pub find_compose_file : W → Text → Text
  find_compose_file w repo_dir =
      if file_exists w repo_dir (bytes "docker-compose.yml")
      then bytes "docker-compose.yml"
      else if file_exists w repo_dir (bytes "docker-compose.yaml")
      then bytes "docker-compose.yaml"
      else []

  compose : W → Text → DeployConfig → Resolved
  unfolding find_compose_file
  compose w repo_dir cfg =
      let file = if is_nil cfg.build_file then find_compose_file w repo_dir else cfg.build_file in
      if is_nil file
      then unresolved (bytes "no compose file found")
      else command (
          bytes "docker compose -p uruflow-"
          ++ cfg.name
          ++ bytes " -f "
          ++ file
          ++ bytes " up -d --build")

  -- The part of both commands of a Dockerfile from the tag on.
  abbrev tag_and_run : DeployConfig → Text
  tag_and_run cfg =
      bytes "-t "
      ++ cfg.name
      ++ bytes " . && docker run -d --name uruflow-"
      ++ cfg.name
      ++ bytes " --label io.uruflow.managed=true "
      ++ cfg.name

  dockerfile : W → Text → DeployConfig → Resolved
  dockerfile w repo_dir cfg =
      if not (is_nil cfg.build_file)
      then command (bytes "docker build -f " ++ cfg.build_file ++ bytes " " ++ tag_and_run cfg)
      else if file_exists w repo_dir (bytes "Dockerfile")
      then command (bytes "docker build " ++ tag_and_run cfg)
      else unresolved (bytes "no Dockerfile found")

  makefile : W → Text → DeployConfig → Resolved
  makefile w repo_dir cfg =
      let file = if is_nil cfg.build_file then bytes "Makefile" else cfg.build_file in
      if file_exists w repo_dir file
      then command (bytes "make -f " ++ file ++ bytes " deploy")
      else unresolved (bytes "no " ++ file ++ bytes " found")

  -- `resolveCommand`
  unfoldable pub resolve_command : W → Text → DeployConfig → Resolved
  unfolding compose dockerfile makefile
  resolve_command w repo_dir cfg =
      if not (is_nil cfg.build_cmd)
      then command cfg.build_cmd
      else if eqb cfg.build_system (bytes "compose")
      then compose w repo_dir cfg
      else if eqb cfg.build_system (bytes "dockerfile")
      then dockerfile w repo_dir cfg
      else if eqb cfg.build_system (bytes "makefile")
      then makefile w repo_dir cfg
      else if is_nil cfg.build_system
      then unresolved (bytes "build_system not specified in repository config")
      else unresolved (bytes "unknown build_system: " ++ cfg.build_system)

  abbrev failure : Text → Text → Result
  failure commit e = record { success = false; duration = pos 0; commit = commit; error = some e }

  -- What `getCommitHash` prints, without the spaces around it; the empty text stands for an error.
  abbrev hash_of : Option Text → Text
  hash_of none = []
  hash_of (some text) = h.trim_space text

  -- `took` is the time since the start.
  unfoldable pub finish_run : ℤ → Text → Run W × Option Text → Run W × Result
  finish_run took commit (r, some e) = (r, failure commit e)
  finish_run took commit (r, none) = (
    say (bytes "Completed in " ++ h.print_duration took) r,
    record { success = true; duration = took; commit = commit; error = none },
  )

  unfoldable pub build : ℤ → DeployConfig → Text → Text → Run W → Resolved → Run W × Result
  unfolding run_script finish_run
  build took cfg repo_dir commit r (unresolved e) = (log (bytes "stderr") e r, failure commit e)
  build took cfg repo_dir commit r (command cmd) =
      finish_run took commit (run_script (say (bytes "Running: " ++ cmd) r) repo_dir cmd cfg.env)

  -- The part of `Execute` after the sources are there.
  unfoldable pub with_sources : ℤ → DeployConfig → Text → Run W × Option Text → Run W × Result
  unfolding build
  with_sources took cfg repo_dir (r, some e) = (r, failure [] e)
  with_sources took cfg repo_dir (r, none) =
      let (w, hash) =
        h.output r.world repo_dir (bytes "git" ∷ bytes "rev-parse" ∷ bytes "HEAD" ∷ []) in
      build took cfg repo_dir (hash_of hash) (record r { world = w })
        (resolve_command w repo_dir cfg)

  -- A path of the configuration takes the place of the one below the work directory.
  abbrev pub repo_dir_of : Text → DeployConfig → Text
  repo_dir_of work_dir cfg = if is_nil cfg.path then h.join work_dir cfg.name else cfg.path

  -- `Execute`
  unfoldable pub execute : ℤ → Text → DeployConfig → W → Run W × Result
  unfolding and_then clone_or_pull check_out with_sources
  execute took work_dir cfg w =
      let repo_dir = repo_dir_of work_dir cfg in
      let start =
        say (bytes "Cloning/pulling repository...")
          (say (bytes "Deploying " ++ cfg.name) (record { world = w; lines = [] })) in
      with_sources took cfg repo_dir
        (and_then (clone_or_pull cfg repo_dir start) (check_out cfg repo_dir))
