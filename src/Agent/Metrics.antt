-- ===== src/Agent/Metrics.antt =====
-- internal/agent/metrics: collector_linux.go and metrics.go. The contents of the files of /proc are
-- arguments, as lines; `none` is a file that cannot be opened. strings.Fields, strconv and the
-- divisions of floating-point numbers are arguments.
pub mod Ranges
use uruflow.Prelude.{
  ℕ, suc, zero, ◌+◌, ◌*◌, ◌%◌, ◌^◌, Bool, true, false, ◌&&◌, ◌||◌, List, [], ◌∷◌, Option, none,
  some, Text, bytes, eqb, ltb, leb, ◌==◌, length, has_prefix, map, drop, if◌then◌else◌,
}
use uruflow.Prelude.Int.{ℤ}
use uruflow.Models.Float.{Float64, float_zero, above}
use uruflow.Protocol.Payloads.{SystemMetrics}
use uruflow.Agent.Docker.{sub64}

-- What the operating system's texts are read with: the words of a line, the uint64 and the float64
-- that a word stands for.
pub record Reading : Type 0 where
  pub words : Text → List Text
  pub to_uint : Text → ℕ
  pub to_float : Text → Float64

-- `busy idle total` is (1 - idle / total) * 100, `percent used total` is used / total * 100.
pub record Division : Type 0 where
  pub busy : ℕ → ℕ → Float64
  pub percent : ℕ → ℕ → Float64

-- The last counters of `Collector`.
pub record Collector : Type 0 where
  pub prev_idle : ℕ
  pub prev_total : ℕ

-- Blocks of a size, and how many of them are free.
pub record Statfs : Type 0 where
  pub blocks : ℕ
  pub free_blocks : ℕ
  pub block_size : ℕ

-- `getDiskInfo`: what is used, and the total. An error leaves zeros.
unfoldable pub get_disk_info : Option Statfs → ℕ × ℕ
get_disk_info none = (0, 0)
get_disk_info (some stat) =
    let total = stat.blocks * stat.block_size % 2 ^ 64 in
    let free = stat.free_blocks * stat.block_size % 2 ^ 64 in (sub64 total free, total)

-- The sum of the counters.
unfoldable pub total_of : List ℕ → ℕ
total_of [] = 0
total_of (n ∷ ns) = (n + total_of ns) % 2 ^ 64

-- The first line for all processors, as its counters.
unfoldable pub find_counters : Reading → List Text → Option (List ℕ)
find_counters r [] = none
find_counters r (line ∷ lines) =
    let later = find_counters r lines in
    if has_prefix line (bytes "cpu ") && leb 5 (length (r.words line))
    then some (map r.to_uint (drop 1 (r.words line)))
    else later

-- The fourth counter.
abbrev idle_of : List ℕ → ℕ
idle_of (a ∷ b ∷ c ∷ idle ∷ more) = idle
idle_of _ = 0

-- What the counters have grown by, if they tell anything: of the idle time, and of all.
unfoldable pub growth : Collector → ℕ → ℕ → Option (ℕ × ℕ)
growth c idle total =
    if c.prev_total == 0
    then none
    else if leb total c.prev_total || ltb idle c.prev_idle
    then none
    else some (sub64 idle c.prev_idle, sub64 total c.prev_total)

abbrev hundred : Float64
hundred = record { negative = false; mantissa = 100; scale = 0 }

-- cpuPercent < 0
abbrev is_below_zero : Float64 → Bool
is_below_zero x = x.negative && ltb 0 x.mantissa

unfoldable pub clamp : Float64 → Float64
clamp x = if is_below_zero x then float_zero else if above x 100 then hundred else x

abbrev busy_of : Division → Option (ℕ × ℕ) → Float64
busy_of div none = float_zero
busy_of div (some (idle, total)) = clamp (div.busy idle total)

-- The rest of the round that has found the counters.
unfoldable pub sample : Division → Collector → ℕ → ℕ → Collector × Float64
unfolding growth clamp
sample div c idle total =
    (record { prev_idle = idle; prev_total = total }, busy_of div (growth c idle total))

abbrev sampled : Division → Collector → Option (List ℕ) → Collector × Float64
sampled div c none = (c, float_zero)
sampled div c (some counters) = sample div c (idle_of counters) (total_of counters)

-- `getCPUPercent`, on /proc/stat; an error leaves zero.
unfoldable pub get_cpu_percent :
    Reading → Division → Collector → Option (List Text) → Collector × Float64
unfolding find_counters sample total_of
get_cpu_percent r div c none = (c, float_zero)
get_cpu_percent r div c (some lines) = sampled div c (find_counters r lines)

-- A line of /proc/meminfo: the total, and what is available, in bytes.
abbrev note_line : Reading → List Text → ℕ × ℕ → ℕ × ℕ
note_line r (key ∷ value ∷ more) (total, available) =
    let n = r.to_uint value * 1024 % 2 ^ 64 in
    if eqb key (bytes "MemTotal:")
    then (n, available)
    else if eqb key (bytes "MemAvailable:")
    then (total, n)
    else (total, available)
note_line r _ found = found

unfoldable pub memory_of : Reading → List Text → ℕ × ℕ → ℕ × ℕ
memory_of r [] found = found
memory_of r (line ∷ lines) found = memory_of r lines (note_line r (r.words line) found)

-- `getMemoryInfo`, on /proc/meminfo.
unfoldable pub get_memory_info : Reading → Option (List Text) → ℕ × ℕ
unfolding memory_of
get_memory_info r none = (0, 0)
get_memory_info r (some lines) =
    let (total, available) = memory_of r lines (0, 0) in (sub64 total available, total)

abbrev loads : Reading → List Text → List Float64
loads r (a ∷ b ∷ c ∷ more) = r.to_float a ∷ r.to_float b ∷ r.to_float c ∷ []
loads r _ = float_zero ∷ float_zero ∷ float_zero ∷ []

-- `getLoadAvg`, on /proc/loadavg.
unfoldable pub get_load_avg : Reading → Option Text → List Float64
get_load_avg r none = float_zero ∷ float_zero ∷ float_zero ∷ []
get_load_avg r (some content) = loads r (r.words content)

-- A share of something that there is none of is zero.
unfoldable pub percent_of : Division → ℕ × ℕ → Float64
percent_of div (used, total) = if ltb 0 total then div.percent used total else float_zero

-- The files and the file system at a time.
pub record Machine : Type 0 where
  pub stat : Option (List Text)
  pub meminfo : Option (List Text)
  pub loadavg : Option Text
  pub root : Option Statfs
  pub uptime : ℤ

-- `Collect`
unfoldable pub collect : Reading → Division → Collector → Machine → Collector × SystemMetrics
unfolding get_cpu_percent get_memory_info get_disk_info get_load_avg percent_of
collect r div c m =
    let (c', cpu) = get_cpu_percent r div c m.stat in
    let memory = get_memory_info r m.meminfo in
    let disk = get_disk_info m.root in
    (
      c',
      record {
        cpu_percent = cpu;
        memory_percent = percent_of div memory;
        memory_used = memory.0;
        memory_total = memory.1;
        disk_percent = percent_of div disk;
        disk_used = disk.0;
        disk_total = disk.1;
        load_avg = get_load_avg r m.loadavg;
        uptime = m.uptime;
      },
    )
