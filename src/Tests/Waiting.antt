-- ===== src/Tests/Waiting.antt =====
-- Runs of the theorems on the waiters.
use run_beacon.Base.{ℕ, ◌≡◌, refl, [], false, none, some, arith}
use run_beacon.Base.Dict.{lookup, insert}
use run_beacon.Waits.{
  Waits, Waiter, WaitCoordinator, WaitStart, wait_for_terminal, resolve_coordinator, expire_waiters,
  arm_wait_timer, arm_timer, next_expiry, register,
}
use run_beacon.Waits.Invariant.{WaitsOk}
use run_beacon.Waits.Settle.{resolve_coordinator_lem}
use run_beacon.Waits.Expiry.{expire_waiters_lem, wait_for_terminal_lem, WaitStarted}

abbrev none_waits : Waits ℕ
none_waits = record { coordinators = []; total_waiters = 0; waiter_sequence = 0; settled = [] }

none_waits-WaitsOk : WaitsOk none_waits
none_waits-WaitsOk = record {
  counted = refl;
  capped = omega arith;
  unique = tt;
  each = tt;
  once = λ k. omega arith;
  fresh = λ k h. refl;
}

-- The job 7 is waited for, from time 100 for 50 ms.
abbrev waited : WaitStart ℕ × Waits ℕ
waited = wait_for_terminal 7 100 50 8 false false false (some 0) none_waits

wait_for_terminal_lem_example :
    WaitsOk waited.1
    × WaitStarted 7 100 50 8 false false false (some 0) none_waits waited.0 waited.1
wait_for_terminal_lem_example =
    wait_for_terminal_lem 7 100 50 8 false false false (some 0) none_waits none_waits-WaitsOk

abbrev waiter : Waiter
waiter = record { id = 1; tail_lines = 8; expires_at = 150 }

abbrev waiting_for : WaitCoordinator
waiting_for = record { waiters = insert 1 waiter []; timer = some 150 }

-- The state after that call, written out.
abbrev one_waits : Waits ℕ
one_waits = record {
  coordinators = insert 7 waiting_for [];
  total_waiters = 1;
  waiter_sequence = 1;
  settled = [];
}

one_waits-WaitsOk : WaitsOk one_waits
unfolding wait_for_terminal register arm_wait_timer arm_timer next_expiry lookup insert
one_waits-WaitsOk =
    (wait_for_terminal_lem 7 100 50 8 false false false (some 0) none_waits none_waits-WaitsOk).0

resolve_coordinator_lem_example :
    lookup 7 (resolve_coordinator 7 (λ n. some n) false waiting_for one_waits).coordinators ≡ none
unfolding lookup insert
resolve_coordinator_lem_example =
    (resolve_coordinator_lem 7 (λ n. some n) false waiting_for one_waits one_waits-WaitsOk refl).1

-- At time 150 the wait is over.
expire_waiters_lem_example : WaitsOk (expire_waiters 7 (λ n. some n) 150 waiting_for one_waits)
unfolding lookup insert
expire_waiters_lem_example =
    (expire_waiters_lem 7 (λ n. some n) 150 waiting_for one_waits one_waits-WaitsOk refl).0
