-- ===== src/Manager/Watch/Limits.antt =====
-- The bounds of the watch timeout and of the output policy, and the counts of the wait status.
use run_beacon.Base.{
  ℕ, ◌*◌, ◌≤◌, ◌≡◌, refl, [], ◌∷◌, Option, none, some, length, filter, arith, is_some, min,
}
use run_beacon.Base.Dict.{Dict, values, AllValues, sum_by}
use run_beacon.Types.{OutputMode}
use run_beacon.Waits.{WaitCoordinator}
use run_beacon.Waits.Counts.{size}
use run_beacon.Waits.Invariant.{WaitsOk, CoordinatorOk}
use run_beacon.Manager.{Manager}
use run_beacon.Manager.Watch.{
  normalize_watch_timeout, normalize_output_policy, wait_coordinator_status,
}

all_armed :
    (d : Dict WaitCoordinator)
    → AllValues CoordinatorOk d
    → length (filter (λ c. is_some c.timer) (values d)) ≡ length d
all_armed [] h = refl
all_armed ((k, c) ∷ d) (ok, h) = ground (arith, ok.armed, all_armed d h)

each_waited : (d : Dict WaitCoordinator) → AllValues CoordinatorOk d → length d ≤ sum_by size d
each_waited [] h = omega arith
each_waited ((k, c) ∷ d) (ok, h) = omega (arith, ok.some_waiter, each_waited d h)

-- When the books of the waiters are right, `waitCoordinatorStatus` reports a timer for each job that
-- is waited for, and at least as many waiters as such jobs, at most 128.
pub wait_coordinator_status_lem :
    (m : Manager)
    → WaitsOk m.waits
    → let s = wait_coordinator_status m in
      (s.timers ≡ s.jobs) × (s.jobs ≤ s.waiters) × (s.waiters ≤ 128)
unfolding wait_coordinator_status
wait_coordinator_status_lem m ok = (
  all_armed m.waits.coordinators ok.each,
  omega (arith, ok.counted, each_waited m.waits.coordinators ok.each),
  omega (arith, ok.capped),
)

-- A normalised watch timeout is at least the wanted one or 30 seconds, lies between 100 milliseconds
-- and 30 seconds, and is its own normal form.
pub normalize_watch_timeout_lem :
    (timeout : ℕ)
    → let t = normalize_watch_timeout (some timeout) in
      (min timeout 30000 ≤ t) × (100 ≤ t) × (t ≤ 30000) × (normalize_watch_timeout (some t) ≡ t)
unfolding normalize_watch_timeout
normalize_watch_timeout_lem timeout = ground arith

-- Whatever a client asks for, the normalised output policy keeps between 64 KiB and 1 GiB of output,
-- for one hour to 90 days.
pub normalize_output_policy_lem :
    (mode : Option OutputMode) (max_bytes retention_hours : Option ℕ)
    → let p = normalize_output_policy mode max_bytes retention_hours in
      (64 * 1024 ≤ p.max_bytes)
      × (p.max_bytes ≤ 1024 * 1024 * 1024)
      × (1 ≤ p.retention_hours)
      × (p.retention_hours ≤ 90 * 24)
unfolding normalize_output_policy
normalize_output_policy_lem mode none none = (omega arith, omega arith, omega arith, omega arith)
normalize_output_policy_lem mode none (some h) =
    (omega arith, omega arith, omega arith, omega arith)
normalize_output_policy_lem mode (some b) none =
    (omega arith, omega arith, omega arith, omega arith)
normalize_output_policy_lem mode (some b) (some h) =
    (omega arith, omega arith, omega arith, omega arith)
