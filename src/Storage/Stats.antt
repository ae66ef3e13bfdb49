-- ===== src/Storage/Stats.antt =====
-- `GetStats` of internal/storage/sqlite/store.go, and `Stats` of internal/storage/interfaces.go.
use uruflow.Prelude.{
  ℕ, ◌+◌, ◌*◌, ◌/◌, ◌^◌, Bool, not, ◌||◌, Text, bytes, eqb, count, length, ltb, if◌then◌else◌,
}
use uruflow.Prelude.Int.{pos, negsuc, sub_ℕ, ltb_ℤ}
use uruflow.Models.{Time, is_online, is_success, is_failed}
use uruflow.Storage.{Db}

-- The success rate is a quotient, numerator and denominator.
pub record Stats : Type 0 where
  pub agents_total : ℕ
  pub agents_online : ℕ
  pub repos_total : ℕ
  pub deployments_total : ℕ
  pub deployments_today : ℕ
  pub success_rate : ℕ × ℕ
  pub containers_running : ℕ
  pub containers_stopped : ℕ
  pub alerts_active : ℕ

abbrev day : ℕ
day = 24 * 3600 * 10 ^ 9

-- now.Truncate(24 * time.Hour): the last midnight, in UTC.
unfoldable pub today : Time → Time
today (pos n) = pos (n / day * day)
today (negsuc n) = sub_ℕ 0 (n / day * day + day)

abbrev is_running : Text → Bool
is_running status = eqb status (bytes "running")

unfoldable pub get_stats : Db → Time → Stats
unfolding today
get_stats db now =
    let success = count (λ d. is_success d.status) db.deployments in
    let total = count (λ d. is_success d.status || is_failed d.status) db.deployments in
    record {
      agents_total = length db.agents;
      agents_online = count (λ a. is_online a.status) db.agents;
      repos_total = length db.repositories;
      deployments_total = length db.deployments;
      deployments_today = count (λ d. not (ltb_ℤ d.started_at (today now))) db.deployments;
      success_rate = if ltb 0 total then (success * 100, total) else (0, 1);
      containers_running = count (λ c. is_running c.status) db.containers;
      containers_stopped = count (λ c. not (is_running c.status)) db.containers;
      alerts_active = count (λ a. not a.resolved) db.alerts;
    }
