-- ===== src/Agent/Docker.antt =====
-- internal/agent/docker/docker.go: what the agent makes of the answers of the Docker API. The
-- answers, once parsed, are arguments; so are floating-point division and the parser of times.
pub mod Frames
use uruflow.Prelude.{
  ℕ, suc, zero, ◌+◌, ◌-◌, ◌*◌, ◌%◌, ◌^◌, Bool, true, false, not, ◌&&◌, ◌||◌, List, [], ◌∷◌, ◌++◌,
  Option, none, some, Text, bytes, eqb, is_nil, ltb, leb, ◌==◌, length, take, drop, filter, find,
  key_is, has_prefix, trim_prefix, if◌then◌else◌,
}
use uruflow.Prelude.Int.{ℤ, pos}
use uruflow.Prelude.Maps.{lookup}
use uruflow.Models.Float.{Float64, float_zero}

-- `Container`
pub record DockerContainer : Type 0 where
  pub id : Text
  pub full_id : Text
  pub name : Text
  pub image : Text
  pub status : Text
  pub state : Text
  pub health : Text
  pub restart_count : ℤ
  pub started_at : ℤ
  pub is_managed : Bool

-- An entry of the answer to a request for all containers; the labels may be null.
pub record ApiContainer : Type 0 where
  pub id : Text
  pub names : List Text
  pub image : Text
  pub status : Text
  pub state : Text
  pub labels : Option (List (Text × Text))

-- `inspectResult`; the health is null for a container without a health check.
pub record InspectResult : Type 0 where
  pub health : Option Text
  pub started_at : Text
  pub restart_count : ℤ

-- `checkManagedFromLabels`
unfoldable pub check_managed_from_labels : Option (List (Text × Text)) → Bool
check_managed_from_labels none = false
check_managed_from_labels (some labels) =
    elim (lookup (bytes "io.uruflow.managed") labels) [
      | none ↦ false
      | some managed ↦ eqb managed (bytes "true")
    ]
    || elim (lookup (bytes "com.docker.compose.project") labels) [
      | none ↦ false
      | some project ↦ has_prefix project (bytes "uruflow-")
    ]

abbrev name_of : List Text → Text
name_of [] = []
name_of (name ∷ names) = trim_prefix name (bytes "/")

-- What an inspection adds, if it succeeds.
abbrev health_of : Option InspectResult → Text
health_of none = bytes "none"
health_of (some i) = elim i.health [ none ↦ bytes "none" | some status ↦ status ]

abbrev restarts_of : Option InspectResult → ℤ
restarts_of none = pos 0
restarts_of (some i) = i.restart_count

-- `parse_unix` is the number of seconds of what `time.Parse` reads.
abbrev started_of : (Text → ℤ) → Option InspectResult → ℤ
started_of parse_unix none = pos 0
started_of parse_unix (some i) = if is_nil i.started_at then pos 0 else parse_unix i.started_at

-- One round of the loop of `ListContainers`; `none` is the panic of `c.ID[:12]`.
unfoldable pub list_container :
    (Text → ℤ) → (Text → Option InspectResult) → ApiContainer → Option DockerContainer
unfolding check_managed_from_labels
list_container parse_unix inspect c =
    if leb 12 (length c.id)
    then some (record {
      id = take 12 c.id;
      full_id = c.id;
      name = name_of c.names;
      image = c.image;
      status = c.status;
      state = c.state;
      health = health_of (inspect c.id);
      restart_count = restarts_of (inspect c.id);
      started_at = started_of parse_unix (inspect c.id);
      is_managed = check_managed_from_labels c.labels;
    })
    else none

abbrev cons_both :
    Option DockerContainer → Option (List DockerContainer) → Option (List DockerContainer)
cons_both (some c) (some cs) = some (c ∷ cs)
cons_both _ _ = none

-- `ListContainers`, on an answer that was read.
unfoldable pub list_containers :
    (Text → ℤ) → (Text → Option InspectResult) → List ApiContainer → Option (List DockerContainer)
unfolding list_container
list_containers parse_unix inspect [] = some []
list_containers parse_unix inspect (c ∷ cs) =
    cons_both (list_container parse_unix inspect c) (list_containers parse_unix inspect cs)

-- `ListManagedContainers`
unfoldable pub list_managed_containers :
    (Text → ℤ) → (Text → Option InspectResult) → List ApiContainer → Option (List DockerContainer)
unfolding list_containers
list_managed_containers parse_unix inspect cs = elim (list_containers parse_unix inspect cs) [
  | none ↦ none
  | some all ↦ some (filter (λ c. c.is_managed) all)
]

-- The parsed answer of a request for statistics: uint64 counters, and the traffic of each network.
pub record ApiStats : Type 0 where
  pub total_usage : ℕ
  pub system_usage : ℕ
  pub online_cpus : ℤ
  pub pre_total_usage : ℕ
  pub pre_system_usage : ℕ
  pub memory_usage : ℕ
  pub memory_limit : ℕ
  pub networks : List (Text × (ℕ × ℕ))

pub record ContainerStats : Type 0 where
  pub cpu_percent : Float64
  pub memory_usage : ℕ
  pub memory_limit : ℕ
  pub network_rx : ℕ
  pub network_tx : ℕ

-- uint64 a - b
abbrev pub sub64 : ℕ → ℕ → ℕ
sub64 a b = (a + 2 ^ 64 - b) % 2 ^ 64

-- The sums of the received and of the sent bytes.
unfoldable pub sum_networks : List (Text × (ℕ × ℕ)) → ℕ × ℕ
sum_networks [] = (0, 0)
sum_networks ((name, traffic) ∷ more) =
    let (rx, tx) = sum_networks more in ((traffic.0 + rx) % 2 ^ 64, (traffic.1 + tx) % 2 ^ 64)

-- `GetContainerStats`; `share used of cpus` is used / of * cpus * 100 as the machine computes it.
unfoldable pub get_container_stats : (ℕ → ℕ → ℤ → Float64) → ApiStats → ContainerStats
unfolding sum_networks
get_container_stats share s =
    let cpu_delta = sub64 s.total_usage s.pre_total_usage in
    let system_delta = sub64 s.system_usage s.pre_system_usage in
    let (rx, tx) = sum_networks s.networks in
    record {
      cpu_percent =
          if ltb 0 system_delta && ltb 0 cpu_delta
          then share cpu_delta system_delta s.online_cpus
          else float_zero;
      memory_usage = s.memory_usage;
      memory_limit = s.memory_limit;
      network_rx = rx;
      network_tx = tx;
    }

-- strings.TrimSpace, on ASCII spaces.
abbrev pub is_space : ℕ → Bool
is_space c = c == 32 || (leb 9 c && leb c 13)

unfoldable pub trim_left : Text → Text
trim_left [] = []
trim_left (c ∷ s) = if is_space c then trim_left s else c ∷ s

-- What is left of `c ∷ s`, when `s` ends in `rest`.
abbrev keep : ℕ → Text → Text
keep c [] = if is_space c then [] else c ∷ []
keep c (d ∷ rest) = c ∷ d ∷ rest

unfoldable pub trim_right : Text → Text
trim_right [] = []
trim_right (c ∷ s) = keep c (trim_right s)

unfoldable pub trim_space : Text → Text
unfolding trim_left trim_right
trim_space s = trim_right (trim_left s)

-- How `StreamLogsWithTail` ends: its context was cancelled, the stream ended between two frames,
-- or within one.
pub data Ending : Type 0 where
  cancelled : Ending
  ended : Ending
  broken : Ending

-- A round of its loop ends it, or hands on a line, if there is one, and goes on.
pub data Round : Type 0 where
  stop : Ending → Round
  more : Option Text → Text → Round

-- The line for `onLine`: an empty one is not handed on.
unfoldable pub log_line : ℕ → Text → Option Text
unfolding trim_space
log_line stream content =
    let line = trim_space content in
    if is_nil line
    then none
    else if stream == 2
    then some (bytes "[stderr] " ++ line)
    else some line

abbrev pub max_frame : ℕ
max_frame = 1024 * 1024

-- The frame behind a header. One that is empty or too large is not read.
unfoldable pub read_frame : ℕ → ℕ → Text → Round
unfolding log_line
read_frame stream size rest =
    if ltb 0 size && ltb size max_frame
    then if leb size (length rest)
      then more (log_line stream (take size rest)) (drop size rest)
      else stop broken
    else more none rest

-- A header of eight bytes, and its frame.
unfoldable pub next_frame : Text → Round
unfolding read_frame
next_frame [] = stop ended
next_frame (stream ∷ _ ∷ _ ∷ _ ∷ a ∷ b ∷ c ∷ d ∷ rest) =
    read_frame stream (a * 2 ^ 24 + b * 2 ^ 16 + c * 2 ^ 8 + d) rest
next_frame _ = stop broken

abbrev pub hand_on : Option Text → List Text × Ending → List Text × Ending
hand_on none r = r
hand_on (some line) (lines, e) = (line ∷ lines, e)

-- `StreamLogsWithTail` on the bytes of an answer: the lines handed on, and the end. The context is
-- cancelled after so many rounds.
unfoldable pub stream_logs : ℕ → Text → List Text × Ending
unfolding next_frame
stream_logs zero source = ([], cancelled)
stream_logs (suc n) source = elim (next_frame source) [
  | stop e ↦ ([], e)
  | more line rest ↦ hand_on line (stream_logs n rest)
]
