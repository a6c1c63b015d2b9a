-- ===== src/Store/Again.antt =====
-- The parts of a job that `normalizeJob` of src/lifecycle/JobStore.ts normalises, normalised again.
use run_beacon.Base.{
  ℕ, zero, suc, ◌*◌, ◌≤◌, ◌≡◌, refl, ap, inl, inr, List, [], ◌∷◌, Bool, true, false, Option, none,
  some, arith, Bool-cases, if◌then◌else◌, map, take, get_or,
}
use run_beacon.Base.Text.{Text}
use run_beacon.Audit.{is_digest, lower}
use run_beacon.Audit.Digest.{lower-lower, is_digest-lower}
use run_beacon.Types.{
  JobState, JobPhase, JobBackend, JobConnectionState, TargetKind, JobTiming, JobOutputChunk,
  is_terminal_job_state,
}
use run_beacon.Store.{
  RawTarget, RawExecution, RawPolicy, RawOutputPolicy, default_backend, stored_backend,
  connection_of, empty_execution, is_true, keep_if, map_some, chunks_of, is_port, is_host_key,
  normalize_public_target, normalize_execution, normalize_policy, normalize_output_policy,
  normalize_timing, raw_target, raw_execution, raw_policy, raw_output_policy, empty_output_policy,
  clamp,
}

pub take-take {ℓ} : {A : Type ℓ} (n : ℕ) (xs : List A) → take n (take n xs) ≡ take n xs
take-take zero xs = refl
take-take (suc n) [] = refl
take-take (suc n) (x ∷ xs) = ap (λ ys. x ∷ ys) (take-take n xs)

pub keep_if-keep_if {ℓ} :
    {A : Type ℓ} (p : A → Bool) (x : Option A) → keep_if p (keep_if p x) ≡ keep_if p x
keep_if-keep_if p none = refl
keep_if-keep_if p (some a) = ground arith

pub map_some-map_some {ℓ} :
    {A : Type ℓ} (f : A → A)
    → ((a : A) → f (f a) ≡ f a)
    → (x : Option A) → map_some f (map_some f x) ≡ map_some f x
map_some-map_some f e none = refl
map_some-map_some f e (some a) = ap some (e a)

pub chunks_of-map : (cs : List JobOutputChunk) → chunks_of (map (λ c. some c) cs) ≡ cs
unfolding chunks_of
chunks_of-map [] = refl
chunks_of-map (c ∷ cs) = ap (λ x. c ∷ x) (chunks_of-map cs)

pub clamp-clamp :
    (x : Option ℕ) (lowest highest default : ℕ)
    → lowest ≤ default
    → default ≤ highest
    → clamp (some (clamp x lowest highest default)) lowest highest default
      ≡ clamp x lowest highest default
clamp-clamp none lowest highest default l h = omega arith
clamp-clamp (some n) lowest highest default l h = omega arith

pub digest-digest :
    (x : Option Text)
    → map_some lower (keep_if is_digest (map_some lower (keep_if is_digest x)))
      ≡ map_some lower (keep_if is_digest x)
digest-digest none = refl
digest-digest (some t) = elim (Bool-cases (is_digest t)) [
  | inl h ↦ rw (h, is_digest-lower t h, lower-lower t) refl
  | inr h ↦ rw h refl
]

pub is_true-some : (b : Bool) → is_true (some b) ≡ b
is_true-some true = refl
is_true-some false = refl

pub port-port :
    (x : Option ℕ)
    → get_or (keep_if is_port (some (get_or (keep_if is_port x) 22))) 22
      ≡ get_or (keep_if is_port x) 22
unfolding is_port
port-port none = refl
port-port (some n) = ground arith

pub limited :
    (n : ℕ) (x : Option Text) → map_some (take n) (map_some (take n) x) ≡ map_some (take n) x
limited n = map_some-map_some (take n) (take-take n)

pub target_again :
    (k : TargetKind) (t : RawTarget)
    → let t' = normalize_public_target (record t { kind = k }) in
      normalize_public_target (raw_target t') ≡ t'
unfolding normalize_public_target
target_again TargetKind.local t = refl
target_again TargetKind.ssh t =
    rw
      (
        limited 253 t.host,
        port-port t.port,
        limited 128 t.username,
        is_true-some (is_true t.verified_host_key),
        keep_if-keep_if is_host_key t.host_key_sha256,
        limited 64 t.host_key_algorithm,
        limited 4000 t.runner_path,
      )
      refl

pub stored_backend_again :
    (kind : TargetKind) (x : Option JobBackend)
    → get_or
        (stored_backend (some (get_or (stored_backend x) (default_backend kind))))
        (default_backend kind)
      ≡ get_or (stored_backend x) (default_backend kind)
stored_backend_again TargetKind.local none = refl
stored_backend_again TargetKind.ssh none = refl
stored_backend_again k (some JobBackend.local) = refl
stored_backend_again k (some JobBackend.ssh_runner) = refl
stored_backend_again k (some JobBackend.github) = refl
stored_backend_again TargetKind.local (some JobBackend.ssh_direct) = refl
stored_backend_again TargetKind.ssh (some JobBackend.ssh_direct) = refl

pub connection_of_again :
    (b : JobBackend) (terminal : Bool) (c : Option JobConnectionState)
    → connection_of b terminal (some (connection_of b terminal c)) ≡ connection_of b terminal c
connection_of_again JobBackend.local t c = refl
connection_of_again JobBackend.ssh_runner true c = refl
connection_of_again JobBackend.ssh_runner false c = refl
connection_of_again JobBackend.ssh_direct true c = refl
connection_of_again JobBackend.ssh_direct false c = refl
connection_of_again JobBackend.github true c = refl
connection_of_again JobBackend.github false c = refl

pub if_again {ℓ} :
    {A : Type ℓ} (b : Bool) (x y : A)
    → (if b then x else (if b then x else y)) ≡ (if b then x else y)
if_again true x y = refl
if_again false x y = refl

pub execution_again :
    (state : JobState) (kind : TargetKind) (raw : Option RawExecution)
    → let e = normalize_execution state kind raw in
      normalize_execution state kind (some (raw_execution e)) ≡ e
unfolding normalize_execution
execution_again state kind raw =
    let e = get_or raw empty_execution in
    let terminal = is_terminal_job_state state in
    let backend = get_or (stored_backend e.backend) (default_backend kind) in
    rw
      (
        stored_backend_again kind e.backend,
        if_again terminal JobPhase.finished (get_or e.phase JobPhase.queued),
        connection_of_again backend terminal e.connection_state,
        is_true-some (is_true e.durable),
        is_true-some (is_true e.resumable),
        limited 64 e.runner_version,
      )
      refl

pub kind_again :
    (k : TargetKind) (t : RawTarget) → (normalize_public_target (record t { kind = k })).kind ≡ k
unfolding normalize_public_target
kind_again TargetKind.local t = refl
kind_again TargetKind.ssh t = refl

pub execution_again_at :
    (state : JobState) (t : RawTarget) (raw : Option RawExecution)
    → let e = normalize_execution state t.kind raw in
      normalize_execution state (normalize_public_target t).kind (some (raw_execution e)) ≡ e
execution_again_at state t raw = rw (kind_again t.kind t) (execution_again state t.kind raw)

pub policy_again :
    (x : Option RawPolicy)
    → normalize_policy (some (raw_policy (normalize_policy x))) ≡ normalize_policy x
unfolding normalize_policy
policy_again none = refl
policy_again (some x) = refl

pub output_policy_again :
    (x : Option RawOutputPolicy)
    → normalize_output_policy (some (raw_output_policy (normalize_output_policy x)))
      ≡ normalize_output_policy x
unfolding normalize_output_policy
output_policy_again x =
    let y = get_or x empty_output_policy in
    rw
      (
        clamp-clamp y.max_bytes (64 * 1024) (1024 * 1024 * 1024) (64 * 1024 * 1024) (omega arith)
            (omega arith),
        clamp-clamp y.retention_hours 1 (90 * 24) (7 * 24) (omega arith) (omega arith),
      )
      refl

pub timing_again :
    (x : Option JobTiming) → normalize_timing (some (normalize_timing x)) ≡ normalize_timing x
timing_again x = refl

pub then_again {ℓ} :
    {A : Type ℓ} (b : Bool) (x y : A)
    → (if b then (if b then x else y) else y) ≡ (if b then x else y)
then_again true x y = refl
then_again false x y = refl
