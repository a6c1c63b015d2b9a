-- ===== src/Daemon/Client/Handover.antt =====
-- A client of src/lifecycle/DaemonClient.ts and the daemon of src/daemon/lifecycle-daemon.ts on which of them is newer.
use run_beacon.Base.{
  ℕ, ◌<◌, ◌≡◌, ◌∙◌, ◌⊎◌, refl, inl, inr, true, false, Option, none, some, ltb, ◌==◌, arith,
  Bool-cases,
}
use run_beacon.Base.Text.{Text, text_eq, text_eq_refl}
use run_beacon.Daemon.Build.{
  Sign, negative, equal, positive, validate_build_version, compare_build_versions,
}
use run_beacon.Daemon.Build.Order.{opposite, text_eq_sym, compare_build_versions_sym}
use run_beacon.Daemon.{
  Daemon, DaemonPing, Replacement, stopped, shutdown, Request, ping_of, stop, is_newer, replace,
  dispatch, handle, exceeds, is_same, is_positive,
}
use run_beacon.Daemon.Shutdown.{IsIdle, stop_idle}
use run_beacon.Daemon.Client.{
  Client, incompatible, upgrade_required, failed, check_ping, of_comparison, replacement_of,
}

-- The client that a daemon's build has, and the daemon's answer that a client's build gives.
abbrev pub client_of : DaemonPing → Client
client_of p = record {
  protocol_version = p.protocol_version;
  expected_build_id = p.build_id;
  expected_build_version = p.build_version;
}

abbrev pub daemon_of : Client → ℕ → ℕ → DaemonPing
daemon_of c active queued = record {
  protocol_version = c.protocol_version;
  build_id = c.expected_build_id;
  build_version = c.expected_build_version;
  active_jobs = active;
  queued_jobs = queued;
}

-- Why a client wants to replace a daemon: the protocol, or the version of another build.
abbrev pub IsUpgrade : (Text → Text → Sign) → Client → DaemonPing → Type 0
IsUpgrade collate c p =
    (p.protocol_version < c.protocol_version)
    ⊎ ((p.protocol_version ≡ c.protocol_version)
        × ((text_eq p.build_id c.expected_build_id ≡ false)
            × (compare_build_versions collate c.expected_build_version p.build_version
                ≡ some positive)))

of_comparison-upgrade :
    (p q : DaemonPing) (o : Option Sign)
    → of_comparison p o ≡ failed (upgrade_required q)
    → o ≡ some positive
unfolding of_comparison
of_comparison-upgrade p q none h = absurd (cc)
of_comparison-upgrade p q (some negative) h = absurd (cc)
of_comparison-upgrade p q (some equal) h = absurd (cc)
of_comparison-upgrade p q (some positive) h = refl

module _ (collate : Text → Text → Sign) where
  pub check_ping-IsUpgrade :
      (c : Client) (p q : DaemonPing)
      → check_ping collate c p ≡ failed (upgrade_required q)
      → IsUpgrade collate c p
  unfolding check_ping
  check_ping-IsUpgrade c p q h = elim (Bool-cases (ltb c.protocol_version p.protocol_version)) [
    | inl t ↦ absurd (ground (arith, rw (check_ping, t) at h))
    | inr t ↦ elim (Bool-cases (ltb p.protocol_version c.protocol_version)) [
      | inl u ↦ inl (ground (arith, u))
      | inr u ↦ elim (Bool-cases (text_eq p.build_id c.expected_build_id)) [
        | inl e ↦ absurd (ground (arith, rw (check_ping, t, u, e) at h))
        | inr e ↦ inr (
          ground (arith, t, u),
          (
            e,
            of_comparison-upgrade p q
                (compare_build_versions collate c.expected_build_version p.build_version)
                (rw (check_ping, t, u, e) at h),
          ),
        )
      ]
    ]
  ]

  -- No two builds replace each other: if a client of one build takes a daemon of another for older, a client
  -- of that other build finds a daemon of the first incompatible, however many jobs each has.
  -- Here `localeCompare` gives the opposite sign for its arguments the other way round.
  pub check_ping_sym :
      ((s t : Text) → collate t s ≡ opposite (collate s t))
      → (c : Client) (p q : DaemonPing) (active queued : ℕ)
      → check_ping collate c p ≡ failed (upgrade_required q)
      → check_ping collate (client_of p) (daemon_of c active queued) ≡ failed incompatible
  unfolding check_ping of_comparison
  check_ping_sym collate_sym c p q active queued h = elim (check_ping-IsUpgrade c p q h) [
    | inl less ↦
        let t : ltb p.protocol_version c.protocol_version ≡ true = ground arith in rw t refl
    | inr (same, (differ, newer)) ↦
        let t : ltb p.protocol_version c.protocol_version ≡ false = ground arith in
        let u : ltb c.protocol_version p.protocol_version ≡ false = ground arith in
        let e : text_eq c.expected_build_id p.build_id ≡ false =
          text_eq_sym c.expected_build_id p.build_id ∙ differ in
        let older : compare_build_versions collate p.build_version c.expected_build_version
            ≡ some negative =
          compare_build_versions_sym collate collate_sym c.expected_build_version p.build_version
            newer in
        rw (check_ping, t, u, e, older) refl
  ]

  is_newer-upgrade :
      (c : Client) (d : Daemon)
      → IsUpgrade collate c (ping_of d)
      → is_newer collate d (some c.protocol_version) c.expected_build_version ≡ some true
  unfolding is_newer ping_of exceeds is_same is_positive
  is_newer-upgrade c d (inl less) =
      let t : ltb d.protocol_version c.protocol_version ≡ true = ground arith in rw t refl
  is_newer-upgrade c d (inr (same, (differ, newer))) =
      let t : ltb d.protocol_version c.protocol_version ≡ false = ground arith in
      let e : (c.protocol_version == d.protocol_version) ≡ true = ground arith in
      rw (is_newer, t, e, newer) refl

  handle_awake :
      (now : ℕ) (d : Daemon) (r : Request)
      → text_eq r.token d.token ≡ true
      → d.shutting_down ≡ false
      → handle collate now d r ≡ dispatch collate now d r.method
  unfolding handle
  handle_awake now d r t f = rw (handle, t, f) refl

  replace-newer :
      (d : Daemon) (r : Replacement) (v : Text)
      → validate_build_version r.build_version ≡ some v
      → is_newer collate d r.protocol_version v ≡ some true
      → text_eq r.expected_build_id d.build_id ≡ true
      → replace collate d r ≡ stop d
  unfolding replace
  replace-newer d r v valid newer same = rw (replace, valid, newer, same) refl

  -- A daemon that a client's ping finds older stops when this client asks it to, if no job of it is active or
  -- queued by then, it is not stopping, the token is right, and the client's version is valid
  -- as it stands.
  pub replacement-stopped :
      (now : ℕ) (c : Client) (d : Daemon) (q : DaemonPing)
      → check_ping collate c (ping_of d) ≡ failed (upgrade_required q)
      → validate_build_version c.expected_build_version ≡ some c.expected_build_version
      → d.shutting_down ≡ false
      → IsIdle d
      → handle collate now d
          (record { token = d.token; method = shutdown (some (replacement_of c (ping_of d))) })
        ≡ (stopped, record d { shutting_down = true })
  unfolding dispatch replacement_of ping_of
  replacement-stopped now c d q older valid awake idle =
      let newer : is_newer collate d (some c.protocol_version) c.expected_build_version
          ≡ some true =
        is_newer-upgrade c d (check_ping-IsUpgrade c (ping_of d) q older) in
      let r : Replacement = replacement_of c (ping_of d) in
      handle_awake now d (record { token = d.token; method = shutdown (some r) })
        (text_eq_refl d.token) awake
      ∙ (replace-newer d r c.expected_build_version valid newer (text_eq_refl d.build_id)
          ∙ stop_idle d idle)
