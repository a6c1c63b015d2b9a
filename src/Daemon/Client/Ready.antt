-- ===== src/Daemon/Client/Ready.antt =====
-- `ensureReady` of src/lifecycle/DaemonClient.ts: what it asks for, when it is ready, and that it ends.
use run_beacon.Base.{
  ◌<◌, ◌++◌, ℕ, zero, suc, ◌+◌, ◌≤◌, ◌≡◌, ◌≢◌, ◌⊎◌, refl, sym, subst, inl, inr, List, [], ◌∷◌, ◌||◌,
  Option, none, some, ltb, length, All, All-append, Any, arith, Bool-cases,
}
use run_beacon.Base.Text.{Text, text_eq, text_eq_sound}
use run_beacon.Daemon.Build.{Sign, negative, equal, positive, compare_build_versions}
use run_beacon.Daemon.{DaemonPing}
use run_beacon.Daemon.Client.{
  Client, transport, rpc, incompatible, other, upgrade_required, Reply, answered, failed,
  check_ping, of_comparison, ping_daemon, replacement_of, Action, asked_to_stop, spawned, End, done,
  threw, waiting, until_stopped, replace_older_daemon, until_ready, spawn, after_replacement,
  ensure_ready,
}
use run_beacon.Daemon.Client.Handover.{IsUpgrade, check_ping-IsUpgrade}

abbrev pub IsFirst : List (Option DaemonPing) → DaemonPing → Type 0
IsFirst [] p = ⊥
IsFirst (r ∷ replies) p = r ≡ some p

-- A daemon is asked to stop only where the first ping shows it older, with no active or queued job.
abbrev pub IsJustified : (Text → Text → Sign) → Client → List (Option DaemonPing) → Action → Type 0
IsJustified collate c replies spawned = Unit
IsJustified collate c replies (asked_to_stop r) =
    (p : DaemonPing) × (IsFirst replies p
      × (IsUpgrade collate c p
          × ((p.active_jobs ≡ 0) × ((p.queued_jobs ≡ 0) × (r ≡ replacement_of c p)))))

-- A reply of a daemon of the client's protocol and build.
abbrev pub IsCurrent : Client → Option DaemonPing → Type 0
IsCurrent c r =
    (p : DaemonPing) × ((r ≡ some p)
      × ((p.protocol_version ≡ c.protocol_version) × (p.build_id ≡ c.expected_build_id)))

Reply-cases {ℓ} :
    {A : Type ℓ} (r : Reply A)
    → ((x : A) × (r ≡ answered x))
      ⊎ (((q : DaemonPing) × (r ≡ failed (upgrade_required q)))
          ⊎ ((r ≡ failed incompatible)
              ⊎ ((r ≡ failed transport) ⊎ ((r ≡ failed rpc) ⊎ (r ≡ failed other)))))
Reply-cases (answered x) = inl (x, refl)
Reply-cases (failed (upgrade_required q)) = inr (inl (q, refl))
Reply-cases (failed incompatible) = inr (inr (inl refl))
Reply-cases (failed transport) = inr (inr (inr (inl refl)))
Reply-cases (failed rpc) = inr (inr (inr (inr (inl refl))))
Reply-cases (failed other) = inr (inr (inr (inr (inr refl))))

of_comparison-same :
    (p q : DaemonPing) (o : Option Sign) → of_comparison p o ≡ failed (upgrade_required q) → q ≡ p
unfolding of_comparison
of_comparison-same p q none h = absurd (cc)
of_comparison-same p q (some negative) h = absurd (cc)
of_comparison-same p q (some equal) h = absurd (cc)
of_comparison-same p q (some positive) h = cc

of_comparison-answered : (p x : DaemonPing) (o : Option Sign) → of_comparison p o ≢ answered x
unfolding of_comparison
of_comparison-answered p x none h = absurd (cc)
of_comparison-answered p x (some negative) h = absurd (cc)
of_comparison-answered p x (some equal) h = absurd (cc)
of_comparison-answered p x (some positive) h = absurd (cc)

module _ (collate : Text → Text → Sign) (c : Client) where
  check_ping-same :
      (p q : DaemonPing) → check_ping collate c p ≡ failed (upgrade_required q) → q ≡ p
  unfolding check_ping
  check_ping-same p q h = elim (Bool-cases (ltb c.protocol_version p.protocol_version)) [
    | inl t ↦ absurd (ground (arith, rw (check_ping, t) at h))
    | inr t ↦ elim (Bool-cases (ltb p.protocol_version c.protocol_version)) [
      | inl u ↦
          let h' : failed (upgrade_required p) ≡ failed (upgrade_required q) =
            rw (check_ping, t, u) at h in
          cc
      | inr u ↦ elim (Bool-cases (text_eq p.build_id c.expected_build_id)) [
        | inl e ↦ absurd (ground (arith, rw (check_ping, t, u, e) at h))
        | inr e ↦
            of_comparison-same p q
              (compare_build_versions collate c.expected_build_version p.build_version)
              (rw (check_ping, t, u, e) at h)
      ]
    ]
  ]

  check_ping-current :
      (p x : DaemonPing)
      → check_ping collate c p ≡ answered x
      → (p.protocol_version ≡ c.protocol_version) × (p.build_id ≡ c.expected_build_id)
  unfolding check_ping
  check_ping-current p x h = elim (Bool-cases (ltb c.protocol_version p.protocol_version)) [
    | inl t ↦ absurd (ground (arith, rw (check_ping, t) at h))
    | inr t ↦ elim (Bool-cases (ltb p.protocol_version c.protocol_version)) [
      | inl u ↦ absurd (ground (arith, rw (check_ping, t, u) at h))
      | inr u ↦ elim (Bool-cases (text_eq p.build_id c.expected_build_id)) [
        | inl e ↦ (ground (arith, t, u), text_eq_sound p.build_id c.expected_build_id e)
        | inr e ↦ absurd (
            of_comparison-answered p x
              (compare_build_versions collate c.expected_build_version p.build_version)
              (rw (check_ping, t, u, e) at h))
      ]
    ]
  ]

  ping_daemon-IsCurrent :
      (r : Option DaemonPing) (x : DaemonPing)
      → ping_daemon collate c r ≡ answered x
      → IsCurrent c r
  unfolding ping_daemon
  ping_daemon-IsCurrent none x h = absurd (cc)
  ping_daemon-IsCurrent (some p) x h = (p, (refl, check_ping-current p x h))

  -- What `until_ready` is sure of after its rounds.
  abbrev Readied : ℕ → List (Option DaemonPing) → End → Type 0
  Readied left replies done = Any (IsCurrent c) replies
  Readied left replies (threw e) = Unit
  Readied left replies waiting = length replies < left

  Readied-later :
      (left : ℕ) (r : Option DaemonPing) (replies : List (Option DaemonPing)) (end : End)
      → Readied left replies end
      → Readied (suc left) (r ∷ replies) end
  Readied-later left r replies done h = inr h
  Readied-later left r replies (threw e) h = tt
  Readied-later left r replies waiting h = omega (arith, h)

  until_ready-Readied :
      (left : ℕ) (replies : List (Option DaemonPing))
      → Readied left replies (until_ready collate c left replies)
  unfolding until_ready
  until_ready-Readied zero replies = tt
  until_ready-Readied (suc left) [] = omega arith
  until_ready-Readied (suc left) (r ∷ replies) =
      let Ends : End → Type 0 = Readied (suc left) (r ∷ replies) in
      let now : End = until_ready collate c (suc left) (r ∷ replies) in
      let later : now ≡ until_ready collate c left replies → Ends now = λ same.
        subst Ends (sym same) (
          Readied-later left r replies (until_ready collate c left replies)
            (until_ready-Readied left replies)) in
      elim (Reply-cases (ping_daemon collate c r)) [
        | inl (p, e) ↦
            let same : now ≡ done = rw (until_ready, e) refl in
            subst Ends (sym same) (inl (ping_daemon-IsCurrent r p e))
        | inr (inl (q, e)) ↦ later (rw (until_ready, e) refl)
        | inr (inr (inl e)) ↦
            let same : now ≡ threw incompatible = rw (until_ready, e) refl in
            subst Ends (sym same) tt
        | inr (inr (inr (inl e))) ↦ later (rw (until_ready, e) refl)
        | inr (inr (inr (inr (inl e)))) ↦ later (rw (until_ready, e) refl)
        | inr (inr (inr (inr (inr e)))) ↦ later (rw (until_ready, e) refl)
      ]

  -- The rest of the replies after `replaceOlderDaemon`: readiness seen there was seen, and few are used up.
  abbrev Used : ℕ → List (Option DaemonPing) → End × List (Option DaemonPing) → Type 0
  Used left replies (done, rest) =
      (Any (IsCurrent c) rest → Any (IsCurrent c) replies) × (length replies ≤ length rest + left)
  Used left replies (threw e, rest) = Unit
  Used left replies (waiting, rest) = length replies ≤ left

  Used-later :
      (left : ℕ) (r : Option DaemonPing) (replies : List (Option DaemonPing))
      (after : End × List (Option DaemonPing))
      → Used left replies after
      → Used (suc left) (r ∷ replies) after
  Used-later left r replies (done, rest) h = (λ any. inr (h.0 any), omega (arith, h.1))
  Used-later left r replies (threw e, rest) h = tt
  Used-later left r replies (waiting, rest) h = omega (arith, h)

  until_stopped-Used :
      (left : ℕ) (replies : List (Option DaemonPing))
      → Used left replies (until_stopped left replies)
  unfolding until_stopped
  until_stopped-Used zero replies = tt
  until_stopped-Used (suc left) [] = omega arith
  until_stopped-Used (suc left) (none ∷ replies) = (λ any. inr any, omega arith)
  until_stopped-Used (suc left) (some p ∷ replies) =
      Used-later left (some p) replies (until_stopped left replies)
        (until_stopped-Used left replies)

  -- What `ensureReady` may do, and how it may end.
  abbrev pub IsRight : List (Option DaemonPing) → End × List Action → Type 0
  IsRight replies (done, actions) =
      All (IsJustified collate c replies) actions × Any (IsCurrent c) replies
  IsRight replies (threw e, actions) = All (IsJustified collate c replies) actions
  IsRight replies (waiting, actions) =
      All (IsJustified collate c replies) actions × (length replies < 101)

  Readied-IsRight :
      (r : Option DaemonPing) (replies rest : List (Option DaemonPing)) (actions : List Action)
      (end : End)
      → All (IsJustified collate c (r ∷ replies)) actions
      → (Any (IsCurrent c) rest → Any (IsCurrent c) replies)
      → length replies ≤ length rest + 50
      → Readied 50 rest end
      → IsRight (r ∷ replies) (end, actions)
  Readied-IsRight r replies rest actions done just seen few h = (just, inr (seen h))
  Readied-IsRight r replies rest actions (threw e) just seen few h = just
  Readied-IsRight r replies rest actions waiting just seen few h = (just, omega (arith, few, h))

  replaced-IsRight :
      (r : Option DaemonPing) (replies : List (Option DaemonPing)) (actions : List Action)
      (end : End) (rest : List (Option DaemonPing))
      → All (IsJustified collate c (r ∷ replies)) actions
      → Used 50 replies (end, rest)
      → IsRight (r ∷ replies) (after_replacement collate c (end, actions, rest))
  unfolding after_replacement spawn
  replaced-IsRight r replies actions done rest just used =
      Readied-IsRight r replies rest (actions ++ spawned ∷ []) (until_ready collate c 50 rest)
        (All-append (IsJustified collate c (r ∷ replies)) actions (spawned ∷ []) just (tt, tt))
        used.0 used.1 (until_ready-Readied 50 rest)
  replaced-IsRight r replies actions (threw e) rest just used = just
  replaced-IsRight r replies actions waiting rest just used = (just, omega (arith, used))

  replace-IsRight :
      (p : DaemonPing) (replies : List (Option DaemonPing))
      → IsUpgrade collate c p
      → IsRight (some p ∷ replies) (after_replacement collate c (replace_older_daemon c p replies))
  unfolding replace_older_daemon
  replace-IsRight p replies older = elim (Bool-cases (ltb 0 p.active_jobs || ltb 0 p.queued_jobs)) [
    | inl b ↦
        let same : replace_older_daemon c p replies ≡ (threw incompatible, [], replies) =
          rw (replace_older_daemon, b) refl in
        subst
          (λ (r : End × List Action × List (Option DaemonPing)).
            IsRight (some p ∷ replies) (after_replacement collate c r))
          (sym same) (replaced-IsRight (some p) replies [] (threw incompatible) replies tt tt)
    | inr b ↦
        let (end, rest) = until_stopped 50 replies in
        let actions : List Action = asked_to_stop (replacement_of c p) ∷ [] in
        let same : replace_older_daemon c p replies ≡ (end, actions, rest) =
          rw (replace_older_daemon, b) refl in
        subst
          (λ (r : End × List Action × List (Option DaemonPing)).
            IsRight (some p ∷ replies) (after_replacement collate c r))
          (sym same)
          (replaced-IsRight (some p) replies actions end rest
            ((p, (refl, (older, (ground (arith, b), (ground (arith, b), refl))))), tt)
            (until_stopped-Used 50 replies))
  ]

  spawn-IsRight :
      (r : Option DaemonPing) (replies : List (Option DaemonPing))
      → IsRight (r ∷ replies) (spawn collate c [] replies)
  spawn-IsRight r replies =
      unfold after_replacement in
      replaced-IsRight r replies [] done replies tt ((λ any. any), omega arith)

  -- `ensureReady`, whatever is replied to its pings. It asks a daemon to stop only if the first ping was
  -- answered by one with an older protocol, or with an older version of another build, and without
  -- active and queued jobs; and it asks by the name of that build. It ends well only if some reply comes
  -- from a daemon of the client's protocol and build. And it ends after at most 101 pings.
  pub ensure_ready_lem :
      (replies : List (Option DaemonPing)) → IsRight replies (ensure_ready collate c replies)
  unfolding ensure_ready ping_daemon
  ensure_ready_lem [] = (tt, omega arith)
  ensure_ready_lem (none ∷ replies) = spawn-IsRight none replies
  ensure_ready_lem (some p ∷ replies) =
      let Right : End × List Action → Type 0 = IsRight (some p ∷ replies) in
      let now : End × List Action = ensure_ready collate c (some p ∷ replies) in
      let starts : now ≡ spawn collate c [] replies → Right now =
        λ same. subst Right (sym same) (spawn-IsRight (some p) replies) in
      elim (Reply-cases (check_ping collate c p)) [
        | inl (x, e) ↦
            let same : now ≡ (done, []) = rw (ensure_ready, e) refl in
            subst Right (sym same) (tt, inl (ping_daemon-IsCurrent (some p) x e))
        | inr (inl (q, e)) ↦
            let same : now ≡ after_replacement collate c (replace_older_daemon c p replies) =
              rw (ensure_ready, e, check_ping-same p q e) refl in
            subst Right (sym same)
              (replace-IsRight p replies (check_ping-IsUpgrade collate c p q e))
        | inr (inr (inl e)) ↦
            let same : now ≡ (threw incompatible, []) = rw (ensure_ready, e) refl in
            subst Right (sym same) tt
        | inr (inr (inr (inl e))) ↦ starts (rw (ensure_ready, e) refl)
        | inr (inr (inr (inr (inl e)))) ↦ starts (rw (ensure_ready, e) refl)
        | inr (inr (inr (inr (inr e)))) ↦ starts (rw (ensure_ready, e) refl)
      ]
