-- ===== src/Agent/Metrics/Ranges.antt =====
-- The ranges of what internal/agent/metrics collects.
use native.Mathlib.Nat.{mul-le-mul_right}
use uruflow.Prelude.{
  ◌≡◌, refl, sym, subst, ℕ, ◌+◌, ◌*◌, ◌^◌, ◌≤◌, ◌<◌, false, List, [], ◌∷◌, Option, none, some, Text,
  arith, Bool-cases, inl, inr,
}
use uruflow.Models.Float.{Float64, above}
use uruflow.Agent.Docker.{sub64}
use uruflow.Agent.Metrics.{
  Reading, Division, Collector, Statfs, Machine, get_disk_info, clamp, is_below_zero, busy_of,
  sampled, sample, find_counters, get_cpu_percent, note_line, memory_of, get_memory_info, collect,
}

-- A percentage from 0 to 100.
abbrev pub IsPercent : Float64 → Type 0
IsPercent x = (is_below_zero x ≡ false) × (above x 100 ≡ false)

clamp-IsPercent : (x : Float64) → IsPercent (clamp x)
unfolding clamp above
clamp-IsPercent x = elim (Bool-cases (is_below_zero x)) [
  | inl low ↦ rw (clamp, low) (refl, refl)
  | inr e ↦ elim (Bool-cases (above x 100)) [
    | inl high ↦ rw (clamp, e, high) (refl, refl)
    | inr f ↦ rw (clamp, e, f) (e, f)
  ]
]

busy_of-IsPercent : (div : Division) (o : Option (ℕ × ℕ)) → IsPercent (busy_of div o)
unfolding above
busy_of-IsPercent div none = (refl, refl)
busy_of-IsPercent div (some (idle, total)) = clamp-IsPercent (div.busy idle total)

sampled-IsPercent :
    (div : Division) (c : Collector) (o : Option (List ℕ)) → IsPercent (sampled div c o).1
unfolding sample above
sampled-IsPercent div c none = (refl, refl)
sampled-IsPercent div c (some counters) = busy_of-IsPercent div _

get_cpu_percent-IsPercent :
    (r : Reading) (div : Division) (c : Collector) (stat : Option (List Text))
    → IsPercent (get_cpu_percent r div c stat).1
unfolding get_cpu_percent above
get_cpu_percent-IsPercent r div c none = (refl, refl)
get_cpu_percent-IsPercent r div c (some lines) = sampled-IsPercent div c (find_counters r lines)

note_line-bound :
    (r : Reading) (words : List Text) (p : ℕ × ℕ) → p.0 < 2 ^ 64 → (note_line r words p).0 < 2 ^ 64
note_line-bound r [] p h = h
note_line-bound r (key ∷ []) p h = h
note_line-bound r (key ∷ value ∷ more) (total, available) h = ground (arith, h)

memory_of-bound :
    (r : Reading) (lines : List Text) (p : ℕ × ℕ) → p.0 < 2 ^ 64 → (memory_of r lines p).0 < 2 ^ 64
unfolding memory_of
memory_of-bound r [] p h = h
memory_of-bound r (line ∷ lines) p h =
    memory_of-bound r lines (note_line r (r.words line) p) (note_line-bound r (r.words line) p h)

sub64_le : (a b : ℕ) → a < 2 ^ 64 → b ≤ a → sub64 a b + b ≡ a
sub64_le a b h k = omega arith

get_disk_info-exact :
    (stat : Statfs)
    → stat.free_blocks * stat.block_size ≤ stat.blocks * stat.block_size
    → stat.blocks * stat.block_size < 2 ^ 64
    → (get_disk_info (some stat)).0 + stat.free_blocks * stat.block_size
      ≡ (get_disk_info (some stat)).1
unfolding get_disk_info
get_disk_info-exact stat few small = omega arith

-- Where /proc/meminfo does not report more available memory than there is, and the file system not
-- more free blocks than it has nor more bytes than a uint64 holds, what is used and what is left
-- add up to the total, for memory and disk; the processor's share is from 0 to 100 whatever
-- /proc/stat holds.
pub collect-IsPercent :
    (r : Reading) (div : Division) (c : Collector) (m : Machine) {lines : List Text} {stat : Statfs}
    → m.meminfo ≡ some lines
    → (memory_of r lines (0, 0)).1 ≤ (memory_of r lines (0, 0)).0
    → m.root ≡ some stat
    → stat.free_blocks ≤ stat.blocks
    → stat.blocks * stat.block_size < 2 ^ 64
    → let s = (collect r div c m).1 in
      IsPercent s.cpu_percent
      × (s.memory_used + (memory_of r lines (0, 0)).1 ≡ s.memory_total)
      × (s.disk_used + stat.free_blocks * stat.block_size ≡ s.disk_total)
unfolding collect get_memory_info get_disk_info
collect-IsPercent r div c m {lines} {stat} e le f few small = (
  get_cpu_percent-IsPercent r div c m.stat,
  subst (λ o. (get_memory_info r o).0 + (memory_of r lines (0, 0)).1 ≡ (get_memory_info r o).1)
      (sym e)
      (sub64_le (memory_of r lines (0, 0)).0 (memory_of r lines (0, 0)).1
        (memory_of-bound r lines (0, 0) (omega arith)) le),
  subst (λ o. (get_disk_info o).0 + stat.free_blocks * stat.block_size ≡ (get_disk_info o).1)
      (sym f) (get_disk_info-exact stat (mul-le-mul_right stat.block_size few) small),
)
