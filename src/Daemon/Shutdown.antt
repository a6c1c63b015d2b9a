-- ===== src/Daemon/Shutdown.antt =====
-- When the daemon of src/daemon/lifecycle-daemon.ts stops.
use run_beacon.Base.{
  ℕ, ◌<◌, ◌≡◌, ◌≢◌, ◌⊎◌, ◌∙◌, refl, sym, ap, subst, inl, inr, List, [], ◌∷◌, true, false, not, ◌||◌,
  none, some, ltb, ◌==◌, length, arith, Bool-cases, Option-cases,
}
use run_beacon.Base.Text.{Text, text_eq, text_eq_sound}
use run_beacon.Manager.Watch.{runtime_status}
use run_beacon.Daemon.Build.{
  Sign, negative, equal, positive, compare_build_versions, validate_build_version,
}
use run_beacon.Daemon.{
  Daemon, Replacement, Method, ping, start_job, snapshot_job, list_all, cancel_job, context_of,
  approval, shutdown, unknown, Refusal, busy, stale_replacement, invalid_version, unauthorized,
  Response, stopped, refused, Request, stop, is_newer, replace, dispatch, handle, while_stopping,
  after_job, exceeds, is_same, is_positive,
}

-- No job is active or queued.
abbrev pub IsIdle : Daemon → Type 0
IsIdle d = (length d.manager.active_jobs ≡ 0) × (length d.manager.queue ≡ 0)

abbrev IsQuiet : Daemon → Type 0
IsQuiet d = d.shutting_down ≡ true → IsIdle d

stop-cases :
    (d : Daemon)
    → ((stop d ≡ (stopped, record d { shutting_down = true })) × IsIdle d)
      ⊎ (stop d ≡ (refused busy, d))
unfolding stop runtime_status
stop-cases d =
    elim (Bool-cases (ltb 0 (length d.manager.active_jobs) || ltb 0 (length d.manager.queue))) [
      | inl e ↦ inr (rw e refl)
      | inr e ↦ inl (rw e refl, (ground (arith, e), ground (arith, e)))
    ]

pub stop_idle : (d : Daemon) → IsIdle d → stop d ≡ (stopped, record d { shutting_down = true })
unfolding stop runtime_status
stop_idle d idle =
    let e : (ltb 0 (length d.manager.active_jobs) || ltb 0 (length d.manager.queue)) ≡ false =
      ground arith in
    rw e refl

-- What makes a build newer: its protocol, or the same protocol and a later version.
abbrev pub IsNewer : (Text → Text → Sign) → Replacement → Daemon → Type 0
IsNewer collate r d =
    (p : ℕ) × ((r.protocol_version ≡ some p)
      × ((d.protocol_version < p)
          ⊎ ((p ≡ d.protocol_version)
              × ((v : Text) × ((validate_build_version r.build_version ≡ some v)
                    × (compare_build_versions collate v d.build_version ≡ some positive))))))

-- Who may stop a daemon: a request that replaces nothing, or a newer build that names this one.
abbrev pub MayStop : (Text → Text → Sign) → Method → Daemon → Type 0
MayStop collate (shutdown none) d = Unit
MayStop collate (shutdown (some r)) d = (r.expected_build_id ≡ d.build_id) × IsNewer collate r d
MayStop collate other d = ⊥

is_positive-eq : (s : Sign) → is_positive s ≡ true → s ≡ positive
unfolding is_positive
is_positive-eq negative h = absurd (cc)
is_positive-eq equal h = absurd (cc)
is_positive-eq positive h = refl

while_stopping_lem :
    (d : Daemon) (m : Method) → ((while_stopping d m).0 ≢ stopped) × ((while_stopping d m).1 ≡ d)
unfolding while_stopping
while_stopping_lem d ping = (λ h. cc, refl)
while_stopping_lem d _ = (λ h. cc, refl)

module _ (collate : Text → Text → Sign) where
  is_newer-IsNewer :
      (d : Daemon) (r : Replacement) (v : Text)
      → validate_build_version r.build_version ≡ some v
      → is_newer collate d r.protocol_version v ≡ some true
      → IsNewer collate r d
  unfolding is_newer exceeds is_same
  is_newer-IsNewer d r v valid h = elim (Option-cases r.protocol_version) [
    | inl e ↦ absurd (ground (arith, rw (is_newer, e) at h))
    | inr (p, e) ↦ elim (Bool-cases (ltb d.protocol_version p)) [
      | inl t ↦ (p, (e, inl (ground (arith, t))))
      | inr t ↦ elim (Bool-cases (p == d.protocol_version)) [
        | inr n ↦ absurd (ground (arith, rw (is_newer, e, t, n) at h))
        | inl y ↦ elim (Option-cases (compare_build_versions collate v d.build_version)) [
          | inl c ↦ absurd (ground (arith, rw (is_newer, e, t, y, c) at h))
          | inr (s, c) ↦
              let s_positive : is_positive s ≡ true =
                ground (arith, rw (is_newer, e, t, y, c) at h) in
              (
                p,
                (
                  e,
                  inr (ground (arith, y), (v, (valid, c ∙ ap some (is_positive-eq s s_positive)))),
                ),
              )
        ]
      ]
    ]
  ]

  -- A stop was asked for by one who may, of an idle daemon, which takes no more work; or nothing stops.
  abbrev Stops : Daemon → Method → Response × Daemon → Type 0
  Stops d method after =
      (MayStop collate method d
        × (IsIdle d × (after ≡ (stopped, record d { shutting_down = true }))))
      ⊎ ((after.0 ≢ stopped) × (after.1.shutting_down ≡ d.shutting_down))

  stop-Stops : (d : Daemon) (method : Method) → MayStop collate method d → Stops d method (stop d)
  stop-Stops d method may = elim (stop-cases d) [
    | inl (e, idle) ↦ inl (may, (idle, e))
    | inr e ↦ rw e (inr (λ h. cc, refl))
  ]

  refusal-Stops :
      (d : Daemon) (method : Method) (after : Response × Daemon) (refusal : Refusal)
      → after ≡ (refused refusal, d)
      → Stops d method after
  refusal-Stops d method after refusal e = subst (Stops d method) (sym e) (inr (λ h. cc, refl))

  replace-Stops : (d : Daemon) (r : Replacement) → Stops d (shutdown (some r)) (replace collate d r)
  unfolding replace
  replace-Stops d r = elim (Option-cases (validate_build_version r.build_version)) [
    | inl e ↦
        let stays : replace collate d r ≡ (refused invalid_version, d) = rw (replace, e) refl in
        refusal-Stops d (shutdown (some r)) (replace collate d r) invalid_version stays
    | inr (v, e) ↦ elim (Option-cases (is_newer collate d r.protocol_version v)) [
      | inl n ↦
          let stays : replace collate d r ≡ (refused invalid_version, d) =
            rw (replace, e, n) refl in
          refusal-Stops d (shutdown (some r)) (replace collate d r) invalid_version stays
      | inr (newer, n) ↦
          elim (Bool-cases (not (text_eq r.expected_build_id d.build_id) || not newer)) [
            | inl t ↦
                let stays : replace collate d r ≡ (refused stale_replacement, d) =
                  rw (replace, e, n, t) refl in
                refusal-Stops d (shutdown (some r)) (replace collate d r) stale_replacement stays
            | inr f ↦
                let same : text_eq r.expected_build_id d.build_id ≡ true = ground (arith, f) in
                let is_new : newer ≡ true = ground (arith, f) in
                let stops : replace collate d r ≡ stop d = rw (replace, e, n, f) refl in
                subst (Stops d (shutdown (some r))) (sym stops) (
                  stop-Stops d (shutdown (some r)) (
                    text_eq_sound r.expected_build_id d.build_id same,
                    is_newer-IsNewer d r v e (n ∙ ap some is_new),
                  ))
          ]
    ]
  ]

  dispatch-Stops : (now : ℕ) (d : Daemon) (m : Method) → Stops d m (dispatch collate now d m)
  unfolding dispatch after_job
  dispatch-Stops now d ping = inr (λ h. cc, refl)
  dispatch-Stops now d (start_job facts input) = inr (λ h. cc, refl)
  dispatch-Stops now d (snapshot_job id tail_lines) = inr (λ h. cc, refl)
  dispatch-Stops now d (list_all tail_lines limit) = inr (λ h. cc, refl)
  dispatch-Stops now d (cancel_job id) = inr (λ h. cc, refl)
  dispatch-Stops now d (context_of id) = inr (λ h. cc, refl)
  dispatch-Stops now d (approval id decision) = inr (λ h. cc, refl)
  dispatch-Stops now d (shutdown none) = stop-Stops d (shutdown none) tt
  dispatch-Stops now d (shutdown (some r)) = replace-Stops d r
  dispatch-Stops now d (unknown name) = inr (λ h. cc, refl)

  -- What `handle` may do with a request.
  abbrev pub Handled : Daemon → Request → Response × Daemon → Type 0
  Handled d r after =
      ((r.token ≡ d.token)
        × ((d.shutting_down ≡ false)
            × (MayStop collate r.method d
                × (IsIdle d × (after ≡ (stopped, record d { shutting_down = true }))))))
      ⊎ ((after.0 ≢ stopped) × (after.1.shutting_down ≡ d.shutting_down))

  -- A daemon stops only at a request that has its token, while it is not stopping already and no job is
  -- active or queued: at a shutdown that replaces nothing, or one that names this build and comes from a
  -- newer protocol, or from the same protocol and a later version. It is then shutting down, and nothing
  -- else of it has changed. At any other request it does not answer that it stops, and does not
  -- begin or cease to shut down.
  pub handle_lem : (now : ℕ) (d : Daemon) (r : Request) → Handled d r (handle collate now d r)
  unfolding handle
  handle_lem now d r = elim (Bool-cases (text_eq r.token d.token)) [
    | inr t ↦
        let stays : handle collate now d r ≡ (refused unauthorized, d) = rw (handle, t) refl in
        subst (Handled d r) (sym stays) (inr (λ h. cc, refl))
    | inl t ↦ elim (Bool-cases d.shutting_down) [
      | inr f ↦
          let same : handle collate now d r ≡ dispatch collate now d r.method =
            rw (handle, t, f) refl in
          subst (Handled d r) (sym same) (elim (dispatch-Stops now d r.method) [
            | inl (may, rest) ↦ inl (text_eq_sound r.token d.token t, (f, (may, rest)))
            | inr rest ↦ inr rest
          ])
      | inl s ↦
          let same : handle collate now d r ≡ while_stopping d r.method = rw (handle, t, s) refl in
          let (silent, kept) = while_stopping_lem d r.method in
          subst (Handled d r) (sym same) (inr (silent, ap (λ (e : Daemon). e.shutting_down) kept))
    ]
  ]

  handle_stopping :
      (now : ℕ) (d : Daemon) (r : Request) → d.shutting_down ≡ true → (handle collate now d r).1 ≡ d
  unfolding handle
  handle_stopping now d r s = elim (Bool-cases (text_eq r.token d.token)) [
    | inr t ↦ rw (handle, t) refl
    | inl t ↦
        let same : handle collate now d r ≡ while_stopping d r.method = rw (handle, t, s) refl in
        ap (λ (after : Response × Daemon). after.1) same ∙ (while_stopping_lem d r.method).1
  ]

  -- `handle` for one request after another, each with its time.
  unfoldable pub serve : Daemon → List (ℕ × Request) → Daemon
  serve d [] = d
  serve d ((now, r) ∷ requests) = serve (handle collate now d r).1 requests

  handle-IsQuiet :
      (now : ℕ) (d : Daemon) (r : Request) → IsQuiet d → IsQuiet (handle collate now d r).1
  handle-IsQuiet now d r quiet = elim (Bool-cases d.shutting_down) [
    | inl s ↦ subst IsQuiet (sym (handle_stopping now d r s)) quiet
    | inr f ↦ elim (handle_lem now d r) [
      | inl (_, (_, (_, (idle, e)))) ↦
          subst (λ (after : Response × Daemon). IsQuiet after.1) (sym e) (λ s. idle)
      | inr (_, kept) ↦ λ s. let wrong : true ≡ false = sym s ∙ kept ∙ f in absurd (cc)
    ]
  ]

  serve-IsQuiet :
      (d : Daemon) (requests : List (ℕ × Request)) → IsQuiet d → IsQuiet (serve d requests)
  unfolding serve
  serve-IsQuiet d [] quiet = quiet
  serve-IsQuiet d ((now, r) ∷ requests) quiet =
      serve-IsQuiet (handle collate now d r).1 requests (handle-IsQuiet now d r quiet)

  -- A daemon that was not shutting down, and does so after some requests, whichever and in whatever order, has
  -- no active or queued job.
  pub serve-IsIdle :
      (d : Daemon) (requests : List (ℕ × Request))
      → d.shutting_down ≡ false
      → (serve d requests).shutting_down ≡ true
      → IsIdle (serve d requests)
  serve-IsIdle d requests awake = serve-IsQuiet d requests (λ s. absurd (ground (arith, s, awake)))
