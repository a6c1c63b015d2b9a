-- ===== src/Waits.antt =====
-- The `job_wait` bookkeeping of src/lifecycle/LifecycleManager.ts: `waitCoordinators`,
-- `totalWaiters`, `waiterSequence`, and the functions that settle waiters. The promise of a waiter is
-- its entry in `settled`, a log of (waiter id, outcome). A snapshot of the coordinator's job is an
-- argument, `view tailLines`, with `none` where `requireJob` throws. A timer is the time at which it
-- fires, and firing it is a call of `expire_waiters`. An `AbortSignal` is the flag at the call; its
-- later event is a call of `abort_waiter`.
pub mod Counts
pub mod Invariant
pub mod Settle
pub mod Expiry
pub mod Reject
use run_beacon.Base.{
  ℕ, suc, ◌+◌, ◌-◌, ◌*◌, min, max, List, [], ◌∷◌, Bool, true, false, Option, none, some, length,
  ltb, leb, if◌then◌else◌, is_empty, get_or,
}
use run_beacon.Base.Dict.{Dict, lookup, insert, erase, values}

pub data WaitError : Type 0 where
  aborted unknown_job job_limit global_limit manager_disposed : WaitError

pub data Settlement (S : Type 0) : Type 0 where
  resolved : Bool → S → Settlement S
  rejected : WaitError → Settlement S

pub record Waiter : Type 0 where
  pub id : ℕ
  pub tail_lines : ℕ
  pub expires_at : ℕ

pub record WaitCoordinator : Type 0 where
  pub waiters : Dict Waiter
  pub timer : Option ℕ

pub record Waits (S : Type 0) : Type 0 where
  pub coordinators : Dict WaitCoordinator
  pub total_waiters : ℕ
  pub waiter_sequence : ℕ
  pub settled : List (ℕ × Settlement S)

-- `MAX_WAIT_MS`, `MAX_WAITERS_PER_JOB`, `MAX_WAITERS_GLOBAL`
abbrev pub max_wait_ms : ℕ
max_wait_ms = 24 * 60 * 60 * 1000

abbrev pub max_waiters_per_job : ℕ
max_waiters_per_job = 8

abbrev pub max_waiters_global : ℕ
max_waiters_global = 128

-- The least expiry of the waiters; the first one is given apart.
unfoldable pub next_expiry : ℕ → List Waiter → ℕ
next_expiry e [] = e
next_expiry e (w ∷ ws) = next_expiry (min e w.expires_at) ws

pub data WaitStart (S : Type 0) : Type 0 where
  finished : S → WaitStart S
  pending : ℕ → WaitStart S
  refused : WaitError → WaitStart S

abbrev pub no_coordinator : WaitCoordinator
no_coordinator = record { waiters = []; timer = none }

module _ {S : Type 0} where
  -- `waiter.resolve` and `waiter.reject`
  pub settle : ℕ → Settlement S → Waits S → Waits S
  settle id outcome s = record s { settled = (id, outcome) ∷ s.settled }

  pub outcome : Bool → Option S → Settlement S
  outcome timed_out none = rejected unknown_job
  outcome timed_out (some v) = resolved timed_out v

  -- `removeWaiter`: `none` where the source returns false.
  pub remove_waiter : WaitCoordinator → Waiter → Waits S → Option (WaitCoordinator × Waits S)
  remove_waiter c w s = elim (lookup w.id c.waiters) [
    | none ↦ none
    | some _ ↦ some (
      record c { waiters = erase w.id c.waiters },
      record s { total_waiters = s.total_waiters - 1 },
    )
  ]

  pub resolve_waiter :
      (ℕ → Option S) → Bool → Waiter → WaitCoordinator × Waits S → WaitCoordinator × Waits S
  unfolding settle outcome remove_waiter
  resolve_waiter view timed_out w (c, s) = elim (remove_waiter c w s) [
    | none ↦ (c, s)
    | some (c', s') ↦ (c', settle w.id (outcome timed_out (view w.tail_lines)) s')
  ]

  -- `armWaitTimer`, with the coordinator written back under its job.
  unfoldable pub arm_timer : ℕ → ℕ → WaitCoordinator → List Waiter → Waits S → Waits S
  arm_timer job now c [] s = record s { coordinators = erase job s.coordinators }
  arm_timer job now c (w ∷ ws) s =
      let due = now + max 1 (next_expiry w.expires_at ws - now) in
      record s { coordinators = insert job (record c { timer = some due }) s.coordinators }

  unfoldable pub arm_wait_timer : ℕ → ℕ → WaitCoordinator → Waits S → Waits S
  unfolding arm_timer next_expiry
  arm_wait_timer job now c s = arm_timer job now c (values c.waiters) s

  -- `rejectWaiter`
  pub reject_waiter :
      ℕ → ℕ → WaitError → Waiter → WaitCoordinator × Waits S → WaitCoordinator × Waits S
  unfolding settle remove_waiter arm_wait_timer
  reject_waiter job now error w (c, s) = elim (remove_waiter c w s) [
    | none ↦ (c, s)
    | some (c', s') ↦ (c', arm_wait_timer job now c' (settle w.id (rejected error) s'))
  ]

  -- `clearCoordinator`
  pub clear_coordinator : ℕ → Waits S → Waits S
  clear_coordinator job s = record s { coordinators = erase job s.coordinators }

  pub resolve_each :
      (ℕ → Option S) → Bool → List Waiter → WaitCoordinator × Waits S → WaitCoordinator × Waits S
  resolve_each view timed_out [] cs = cs
  resolve_each view timed_out (w ∷ ws) cs =
      resolve_each view timed_out ws (resolve_waiter view timed_out w cs)

  -- `resolveCoordinator`
  pub resolve_coordinator : ℕ → (ℕ → Option S) → Bool → WaitCoordinator → Waits S → Waits S
  unfolding clear_coordinator
  resolve_coordinator job view timed_out c s =
      clear_coordinator job (resolve_each view timed_out (values c.waiters) (c, s)).1

  pub reject_each :
      ℕ → ℕ → WaitError → List Waiter → WaitCoordinator × Waits S → WaitCoordinator × Waits S
  reject_each job now error [] cs = cs
  reject_each job now error (w ∷ ws) cs =
      reject_each job now error ws (reject_waiter job now error w cs)

  -- `rejectCoordinator`
  pub reject_coordinator : ℕ → ℕ → WaitError → WaitCoordinator → Waits S → Waits S
  unfolding clear_coordinator
  reject_coordinator job now error c s =
      clear_coordinator job (reject_each job now error (values c.waiters) (c, s)).1

  pub expire_each :
      (ℕ → Option S) → ℕ → List Waiter → WaitCoordinator × Waits S → WaitCoordinator × Waits S
  expire_each view now [] cs = cs
  expire_each view now (w ∷ ws) cs =
      expire_each view now ws (if leb w.expires_at now then resolve_waiter view true w cs else cs)

  -- `expireWaiters`, the callback of a coordinator's timer.
  pub expire_waiters : ℕ → (ℕ → Option S) → ℕ → WaitCoordinator → Waits S → Waits S
  unfolding expire_each arm_wait_timer
  expire_waiters job view now c s =
      let (c', s') = expire_each view now (values c.waiters) (record c { timer = none }, s) in
      arm_wait_timer job now c' s'

  -- The abort listener of a waiter.
  pub abort_waiter : ℕ → ℕ → WaitCoordinator → Waiter → Waits S → Waits S
  unfolding reject_waiter
  abort_waiter job now c w s = (reject_waiter job now aborted w (c, s)).1

  -- `waitForTerminal`, where `disposed` says whether the manager was disposed, and `terminal`
  -- whether the job is in a terminal state; nothing runs between the two reads of it. The
  -- result is the id of the pending promise, or why none was made.
  unfoldable pub register : ℕ → ℕ → ℕ → ℕ → WaitCoordinator → Waits S → ℕ × Waits S
  unfolding arm_wait_timer
  register job now timeout tail_lines c s =
      let id = suc s.waiter_sequence in
      let w : Waiter = record {
        id = id;
        tail_lines = tail_lines;
        expires_at = now + max 1 (min timeout max_wait_ms);
      } in
      let c' = record c { waiters = insert id w c.waiters } in
      (
        id,
        arm_wait_timer job now c'
            (record s { waiter_sequence = id; total_waiters = s.total_waiters + 1 }),
      )

  unfoldable pub wait_for_terminal :
      ℕ → ℕ → ℕ → ℕ → Bool → Bool → Bool → Option S → Waits S → WaitStart S × Waits S
  unfolding register
  wait_for_terminal job now timeout tail_lines disposed is_aborted terminal none s =
      if disposed
      then (refused manager_disposed, s)
      else if is_aborted
      then (refused aborted, s)
      else (refused unknown_job, s)
  wait_for_terminal job now timeout tail_lines disposed is_aborted terminal (some v) s =
      let c = get_or (lookup job s.coordinators) no_coordinator in
      let (id, s') = register job now timeout tail_lines c s in
      if disposed
      then (refused manager_disposed, s)
      else if is_aborted
      then (refused aborted, s)
      else if terminal
      then (finished v, s)
      else if leb max_waiters_per_job (length c.waiters)
      then (refused job_limit, s)
      else if leb max_waiters_global s.total_waiters
      then (refused global_limit, s)
      else (pending id, s')
