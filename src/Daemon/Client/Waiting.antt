-- ===== src/Daemon/Client/Waiting.antt =====
-- `waitForTerminal` of src/lifecycle/DaemonClient.ts: why it returns and why it throws.
use run_beacon.Base.{
  ℕ, ◌+◌, ◌≤◌, ◌≡◌, ◌⊎◌, refl, subst, inl, inr, List, [], ◌∷◌, Bool, true, false, ◌||◌, Option,
  none, some, some_injective, leb, get_or, Any, arith, Bool-cases,
}
use run_beacon.Daemon.Client.{
  ClientError, rpc, transport, incompatible, other, upgrade_required, Reply, answered, failed, End,
  done, threw, waiting, WaitRound, is_rpc, wait_loop, wait_for_terminal,
}

-- What a round has to do with the end of the loop.
abbrev pub IsReason {ℓ} : {A : Type ℓ} → ℕ → Reply A → WaitRound A → Type ℓ
IsReason deadline (answered x) r = r.reply ≡ answered x
IsReason deadline (failed e) r =
    ((r.reply ≡ failed e) × ((r.aborted ≡ true) ⊎ ((e ≡ rpc) ⊎ (deadline ≤ r.failed_at))))
    ⊎ (r.ready ≡ threw e)

is_rpc-eq : (e : ClientError) → is_rpc e ≡ true → e ≡ rpc
unfolding is_rpc
is_rpc-eq rpc h = refl
is_rpc-eq transport h = absurd (cc)
is_rpc-eq incompatible h = absurd (cc)
is_rpc-eq other h = absurd (cc)
is_rpc-eq (upgrade_required p) h = absurd (cc)

stops-cases :
    (aborted : Bool) (e : ClientError) (deadline failed_at : ℕ)
    → (aborted || is_rpc e || leb deadline failed_at) ≡ true
    → (aborted ≡ true) ⊎ ((e ≡ rpc) ⊎ (deadline ≤ failed_at))
stops-cases true e deadline failed_at h = inl refl
stops-cases false e deadline failed_at h = elim (Bool-cases (is_rpc e)) [
  | inl t ↦ inr (inl (is_rpc-eq e t))
  | inr t ↦ inr (inr (ground (arith, rw t at h)))
]

End-cases : (e : End) → (e ≡ done) ⊎ (((f : ClientError) × (e ≡ threw f)) ⊎ (e ≡ waiting))
End-cases done = inl refl
End-cases (threw f) = inr (inl (f, refl))
End-cases waiting = inr (inr refl)

module _ {A : Type 0} where
  Reply-either : (r : Reply A) → ((x : A) × (r ≡ answered x)) ⊎ ((e : ClientError) × (r ≡ failed e))
  Reply-either (answered x) = inl (x, refl)
  Reply-either (failed e) = inr (e, refl)

  IsReason-of :
      (deadline : ℕ) (reply reply' : Reply A) (r : WaitRound A)
      → some reply' ≡ some reply
      → IsReason deadline reply' r
      → IsReason deadline reply r
  IsReason-of deadline reply reply' r same h =
      subst (λ (q : Reply A). IsReason deadline q r) (some_injective same) h

  wait_loop_lem :
      (deadline : ℕ) (rounds : List (WaitRound A)) (reply : Reply A)
      → (wait_loop deadline rounds).0 ≡ some reply
      → Any (IsReason deadline reply) rounds
  unfolding wait_loop
  wait_loop_lem deadline [] reply h = absurd (cc)
  wait_loop_lem deadline (r ∷ rounds) reply h = elim (Reply-either r.reply) [
    | inl (x, e) ↦ inl (IsReason-of deadline reply (answered x) r (rw (wait_loop, e) at h) e)
    | inr (x, e) ↦ elim (Bool-cases (r.aborted || is_rpc x || leb deadline r.failed_at)) [
      | inl t ↦ inl (
          IsReason-of deadline reply (failed x) r (rw (wait_loop, e, t) at h)
            (inl (e, stops-cases r.aborted x deadline r.failed_at t)))
      | inr t ↦ elim (End-cases r.ready) [
        | inl d ↦ inr (wait_loop_lem deadline rounds reply (rw (wait_loop, e, t, d) at h))
        | inr (inl (f, d)) ↦
            inl (IsReason-of deadline reply (failed f) r (rw (wait_loop, e, t, d) at h) (inr d))
        | inr (inr d) ↦
            let none_yet : none ≡ some reply = rw (wait_loop, e, t, d) at h in absurd (cc)
      ]
    ]
  ]

  -- `waitForTerminal` returns only what a request was answered; and it throws only the error of a request that
  -- the daemon refused, that failed with an aborted signal, or that failed at the deadline or later, or the
  -- error of `ensureReady`: a connection that breaks earlier is tried again.
  pub wait_for_terminal-IsReason :
      (now : ℕ) (timeout : Option ℕ) (rounds : List (WaitRound A)) (reply : Reply A)
      → (wait_for_terminal now timeout rounds).0 ≡ some reply
      → Any (IsReason (now + get_or timeout 86400000) reply) rounds
  unfolding wait_for_terminal
  wait_for_terminal-IsReason now timeout rounds reply h =
      wait_loop_lem (now + get_or timeout 86400000) rounds reply h
