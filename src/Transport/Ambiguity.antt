-- ===== src/Transport/Ambiguity.antt =====
-- What the end of a call of src/lifecycle/RunnerTransport.ts says of the request that it may have sent.
use run_beacon.Base.{
  ℕ, ◌+◌, ◌≤◌, ◌≡◌, ◌≢◌, ◌⊎◌, refl, inl, inr, List, [], ◌∷◌, Bool, true, false, not, ◌&&◌, Option,
  none, some, ltb, ◌==◌, if◌then◌else◌, length, length-append, if_intro, Any, All, Any-self,
  is_some, is_some-none, arith, Bool-cases,
}
use run_beacon.Base.Text.{Text}
use run_beacon.Transport.{
  max_runner_response_bytes, runner_unavailable, Parsed, response, null, invalid,
  runner_response_lost, runner_response_too_large, error, Executed, resolved, rejected, Event,
  key_checked, ready, exec_failed, channel_opened, channel_error, output, errors, channel_closed,
  client_error, client_closed, timed_out, connect_threw, Session, finish, parsed, closed_with,
  on_channel, on_exec, receive, step, run, fresh,
}

-- A channel that closes with no status, or with one that is not 0.
abbrev pub IsBadClose : Event → Type 0
IsBadClose e = (code : Option ℕ) × ((e ≡ channel_closed code) × (code ≢ some 0))

-- An error is ambiguous only if the request was started; and it is not ambiguous only if the request was not
-- started, or by the given evidence.
abbrev pub FairError : Type 0 → Bool → Bool → Type 0
FairError E started true = started ≡ true
FairError E started false = (started ≡ false) ⊎ E

-- An end is a response only if the request was started, or such an error.
abbrev pub FairEnd : {A : Type 0} → Type 0 → Bool → Option (Executed A) → Type 0
FairEnd E started none = Unit
FairEnd E started (some (resolved r)) = started ≡ true
FairEnd E started (some (rejected e)) = FairError E started e.ambiguous

FairError-self : (E : Type 0) (started : Bool) → FairError E started started
FairError-self E true = refl
FairError-self E false = inl refl

abbrev pub IsSound : {A : Type 0} → Type 0 → Session A → Type 0
IsSound E x =
    (x.rpc_started ≡ true → x.is_ready ≡ true)
    × ((length x.stdout ≤ max_runner_response_bytes)
        × ((length x.stderr ≤ max_runner_response_bytes) × FairEnd E x.rpc_started x.settled))

finish-IsSound :
    {A : Type 0} (E : Type 0) (outcome : Executed A) (x : Session A)
    → IsSound E x
    → x.settled ≡ none
    → FairEnd E x.rpc_started (some outcome)
    → IsSound E (finish outcome x)
unfolding finish
finish-IsSound E outcome x (a, (b, (c, d))) open_yet fair = (a, (b, (c, rw open_yet fair)))

parsed-FairEnd :
    {A : Type 0} (E : Type 0) (started : Bool) (p : Parsed A)
    → started ≡ true
    → FairEnd E started (some (parsed p))
unfolding parsed
parsed-FairEnd E started (response r) s = s
parsed-FairEnd E started null s = s
parsed-FairEnd E started invalid s = s

not_started :
    (is_ready started : Bool)
    → (started ≡ true → is_ready ≡ true)
    → is_ready ≡ false
    → started ≡ false
not_started is_ready true h e = absurd (ground (arith, h refl, e))
not_started is_ready false h e = refl

FairError-both :
    (E : Type 0) (is_ready started : Bool)
    → (started ≡ true → is_ready ≡ true)
    → FairError E started (is_ready && started)
FairError-both E true started h = FairError-self E started
FairError-both E false true h = absurd (let e : false ≡ true = h refl in cc)
FairError-both E false false h = inl refl

module _ {A : Type 0} (parse : Text → Parsed A) (is_not_found : Text → Bool) (E : Type 0) where
  closed_with-FairEnd :
      (x : Session A) (code : Option ℕ)
      → x.rpc_started ≡ true
      → (IsBadClose (channel_closed code) → E)
      → FairEnd E x.rpc_started (some (closed_with parse is_not_found x code))
  unfolding closed_with
  closed_with-FairEnd x none s bad = inr (bad (none, (refl, λ e. cc)))
  closed_with-FairEnd x (some code) s bad = elim (Bool-cases (code == 0)) [
    | inl z ↦ rw (closed_with, z) (parsed-FairEnd E x.rpc_started (parse x.stdout) s)
    | inr n ↦
        rw (closed_with, n) (inr (bad (some code, (refl, λ e. absurd (ground (arith, n, e))))))
  ]

  on_channel-IsSound :
      (e : Event) (x : Session A)
      → IsSound E x
      → x.settled ≡ none
      → x.rpc_started ≡ true
      → (IsBadClose e → E)
      → IsSound E (on_channel parse is_not_found e x)
  unfolding on_channel
  on_channel-IsSound (output value) x (a, (b, (c, d))) open_yet s bad =
      elim (Bool-cases (ltb max_runner_response_bytes (length x.stdout + length value))) [
        | inl t ↦
            rw (on_channel, t)
              (finish-IsSound E (error runner_response_too_large x.rpc_started) x (a, (b, (c, d)))
                open_yet (FairError-self E x.rpc_started))
        | inr t ↦
            rw (on_channel, t) (a, (rw (length-append x.stdout value) (ground (arith, t)), (c, d)))
      ]
  on_channel-IsSound (errors value) x (a, (b, (c, d))) open_yet s bad =
      elim (Bool-cases (ltb max_runner_response_bytes (length x.stderr + length value))) [
        | inl t ↦
            rw (on_channel, t)
              (finish-IsSound E (error runner_response_too_large x.rpc_started) x (a, (b, (c, d)))
                open_yet (FairError-self E x.rpc_started))
        | inr t ↦
            rw (on_channel, t) (a, (b, (rw (length-append x.stderr value) (ground (arith, t)), d)))
      ]
  on_channel-IsSound channel_error x sound open_yet s bad =
      finish-IsSound E (error runner_response_lost true) x sound open_yet s
  on_channel-IsSound (channel_closed code) x sound open_yet s bad =
      finish-IsSound E (closed_with parse is_not_found x code) x sound open_yet
        (closed_with-FairEnd x code s bad)
  on_channel-IsSound (key_checked matches) x sound open_yet s bad = sound
  on_channel-IsSound ready x sound open_yet s bad = sound
  on_channel-IsSound exec_failed x sound open_yet s bad = sound
  on_channel-IsSound channel_opened x sound open_yet s bad = sound
  on_channel-IsSound client_error x sound open_yet s bad = sound
  on_channel-IsSound client_closed x sound open_yet s bad = sound
  on_channel-IsSound timed_out x sound open_yet s bad = sound
  on_channel-IsSound connect_threw x sound open_yet s bad = sound

  -- A listener of the channel is there only if the request was started.
  if_started-IsSound :
      (e : Event) (x : Session A)
      → IsSound E x
      → x.settled ≡ none
      → (IsBadClose e → E)
      → IsSound E (if x.rpc_started then on_channel parse is_not_found e x else x)
  if_started-IsSound e x sound open_yet bad =
      if_intro (IsSound E) x.rpc_started (on_channel parse is_not_found e x) x
        (λ s. on_channel-IsSound e x sound open_yet s bad) (λ s. sound)

  if_ready-IsSound :
      (e : Event) (x : Session A)
      → IsSound E x
      → x.settled ≡ none
      → IsSound E (if x.is_ready && not x.rpc_started then on_exec e x else x)
  unfolding on_exec
  if_ready-IsSound exec_failed x sound open_yet =
      if_intro (IsSound E) (x.is_ready && not x.rpc_started)
        (finish (error runner_unavailable false) x) x
        (λ s.
          finish-IsSound E (error runner_unavailable false) x sound open_yet
            (inl (ground (arith, s))))
        (λ s. sound)
  if_ready-IsSound channel_opened x (a, (b, (c, d))) open_yet =
      if_intro (IsSound E) (x.is_ready && not x.rpc_started) (record x { rpc_started = true }) x
        (λ s. (λ h. ground (arith, s), (b, (c, rw open_yet tt)))) (λ s. (a, (b, (c, d))))
  if_ready-IsSound _ x sound open_yet =
      if_intro (IsSound E) (x.is_ready && not x.rpc_started) x x (λ s. sound) (λ s. sound)

  receive-IsSound :
      (e : Event) (x : Session A)
      → IsSound E x
      → x.settled ≡ none
      → (IsBadClose e → E)
      → IsSound E (receive parse is_not_found e x)
  unfolding receive
  receive-IsSound (key_checked matches) x sound open_yet bad = sound
  receive-IsSound ready x (a, rest) open_yet bad = ((λ s. refl), rest)
  receive-IsSound exec_failed x sound open_yet bad = if_ready-IsSound exec_failed x sound open_yet
  receive-IsSound channel_opened x sound open_yet bad =
      if_ready-IsSound channel_opened x sound open_yet
  receive-IsSound timed_out x sound open_yet bad =
      finish-IsSound E _ x sound open_yet (FairError-self E x.rpc_started)
  receive-IsSound client_error x sound open_yet bad =
      finish-IsSound E _ x sound open_yet (FairError-both E x.is_ready x.rpc_started sound.0)
  receive-IsSound client_closed x sound open_yet bad =
      finish-IsSound E _ x sound open_yet (FairError-self E x.rpc_started)
  receive-IsSound connect_threw x sound open_yet bad =
      if_intro (IsSound E) x.is_ready x (finish (error runner_unavailable false) x) (λ s. sound)
        (λ s.
          finish-IsSound E (error runner_unavailable false) x sound open_yet
            (inl (not_started x.is_ready x.rpc_started sound.0 s)))
  receive-IsSound (output value) x sound open_yet bad =
      if_started-IsSound (output value) x sound open_yet bad
  receive-IsSound (errors value) x sound open_yet bad =
      if_started-IsSound (errors value) x sound open_yet bad
  receive-IsSound channel_error x sound open_yet bad =
      if_started-IsSound channel_error x sound open_yet bad
  receive-IsSound (channel_closed code) x sound open_yet bad =
      if_started-IsSound (channel_closed code) x sound open_yet bad

  step-IsSound :
      (e : Event) (x : Session A)
      → IsSound E x
      → (IsBadClose e → E)
      → IsSound E (step parse is_not_found e x)
  unfolding step
  step-IsSound e x sound bad =
      if_intro (IsSound E) (is_some x.settled) x (receive parse is_not_found e x) (λ s. sound)
        (λ s. receive-IsSound e x sound (is_some-none x.settled s) bad)

  run-IsSound :
      (x : Session A) (events : List Event)
      → IsSound E x
      → All (λ (e : Event). IsBadClose e → E) events
      → IsSound E (run parse is_not_found x events)
  unfolding run
  run-IsSound x [] sound bad = sound
  run-IsSound x (e ∷ events) sound bad =
      run-IsSound (step parse is_not_found e x) events (step-IsSound e x sound bad.0) bad.1

-- However the connection of `execute` goes: its output and its errors never hold more than 8 MiB; it ends with a response
-- only if the request was started; it ends with an ambiguous error only if the request was started; and
-- with an error that is not ambiguous only if the request was not started, or if the channel closed
-- with no status or one that is not 0. What `call` makes of a response is not covered.
pub run-FairEnd :
    {A : Type 0} (parse : Text → Parsed A) (is_not_found : Text → Bool) (events : List Event)
    → let x = run parse is_not_found fresh events in
      (length x.stdout ≤ max_runner_response_bytes)
      × ((length x.stderr ≤ max_runner_response_bytes)
          × FairEnd (Any IsBadClose events) x.rpc_started x.settled)
run-FairEnd parse is_not_found events =
    (run-IsSound parse is_not_found (Any IsBadClose events) fresh events
      ((λ h. absurd (cc)), (omega arith, (omega arith, tt))) (Any-self IsBadClose events)).1
