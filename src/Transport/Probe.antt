-- ===== src/Transport/Probe.antt =====
-- `probeSshHostKeyAlgorithm` of src/lifecycle/RunnerTransport.ts: the attempts, one for an algorithm, over the events of each.
-- The digest of a key, in base 64 and without its padding, is given with the event.
use run_beacon.Base.{
  ◌≡◌, ◌≢◌, Any-self, ◌⊎◌, refl, ap, subst, inl, inr, List, [], ◌∷◌, Bool, true, false, Option,
  none, some, if◌then◌else◌, is_some, if_intro, Any, All, arith,
}
use run_beacon.Base.Text.{Text, text_eq, text_eq_sound}
use run_beacon.Manager.Target.{normalize_fingerprint}
use run_beacon.Transport.{TransportCode, runner_unavailable, host_key_mismatch}

pub data Algorithm : Type 0 where
  ssh_ed25519 ecdsa_nistp256 ecdsa_nistp384 ecdsa_nistp521 rsa_sha2_512 rsa_sha2_256 : Algorithm

-- `SSH_SERVER_HOST_KEY_ALGORITHMS`
abbrev pub server_host_key_algorithms : List Algorithm
server_host_key_algorithms =
    ssh_ed25519 ∷ ecdsa_nistp256 ∷ ecdsa_nistp384 ∷ ecdsa_nistp521 ∷ rsa_sha2_512 ∷ rsa_sha2_256
    ∷ []

-- The host's key with its digest, `ready`, an error or the close of the client, the timer, an exception.
pub data ProbeEvent : Type 0 where
  host_key : Text → ProbeEvent
  ready failed closed timed_out threw : ProbeEvent

-- How an attempt ends: whether the key matched, or with RUNNER_UNAVAILABLE.
pub data Probed : Type 0 where
  matched : Bool → Probed
  unavailable : Probed

pub record Attempt : Type 0 where
  pub fingerprint_matched : Bool
  pub settled : Option Probed

-- An end that is an error once the key has matched.
after_match : Bool → Probed
after_match true = unavailable
after_match false = matched false

pub observe : Text → ProbeEvent → Attempt → Attempt
unfolding after_match
observe expected (host_key digest) x = record x { fingerprint_matched = text_eq digest expected }
observe expected ready x = record x { settled = some (matched x.fingerprint_matched) }
observe expected failed x = record x { settled = some (after_match x.fingerprint_matched) }
observe expected closed x = record x { settled = some (matched false) }
observe expected timed_out x = record x { settled = some (after_match x.fingerprint_matched) }
observe expected threw x = record x { settled = some (after_match x.fingerprint_matched) }

-- `probeHostKeyAttempt`; once it has settled, nothing changes it.
pub attempt_from : Text → Attempt → List ProbeEvent → Option Probed
unfolding observe
attempt_from expected x [] = x.settled
attempt_from expected x (e ∷ events) =
    attempt_from expected (if is_some x.settled then x else observe expected e x) events

pub probe_host_key_attempt : Text → List ProbeEvent → Option Probed
unfolding attempt_from
probe_host_key_attempt expected events =
    attempt_from expected (record { fingerprint_matched = false; settled = none }) events

pub data Probe : Type 0 where
  found : Algorithm → Probe
  refused : TransportCode → Probe
  waiting : Probe

-- The loop over the algorithms that are left.
pub probe_each : Text → (Algorithm → List ProbeEvent) → List Algorithm → Probe
unfolding probe_host_key_attempt
probe_each expected events [] = refused host_key_mismatch
probe_each expected events (a ∷ algorithms) = elim (probe_host_key_attempt expected (events a)) [
  | none ↦ waiting
  | some unavailable ↦ refused runner_unavailable
  | some (matched true) ↦ found a
  | some (matched false) ↦ probe_each expected events algorithms
]

fingerprint_of : Option Text → Text
fingerprint_of none = []
fingerprint_of (some fingerprint) = normalize_fingerprint fingerprint

probe_expected : Text → (Algorithm → List ProbeEvent) → Probe
unfolding probe_each
probe_expected [] events = refused host_key_mismatch
probe_expected (b ∷ bs) events = probe_each (b ∷ bs) events server_host_key_algorithms

-- `probeSshHostKeyAlgorithm`, over the events that an attempt with each algorithm has.
unfoldable pub probe_ssh_host_key_algorithm : Option Text → (Algorithm → List ProbeEvent) → Probe
unfolding fingerprint_of probe_expected
probe_ssh_host_key_algorithm host_key_sha256 events =
    probe_expected (fingerprint_of host_key_sha256) events

-- The host showed a key with this digest.
abbrev pub Shows : Text → ProbeEvent → Type 0
Shows expected e = e ≡ host_key expected

-- A match, and an end with one, have their evidence.
abbrev IsMatched : Type 0 → Option Probed → Type 0
IsMatched E (some (matched true)) = E
IsMatched E other = Unit

abbrev IsHonest : Type 0 → Attempt → Type 0
IsHonest E x = (x.fingerprint_matched ≡ true → E) × IsMatched E x.settled

after_match-IsMatched : (E : Type 0) (b : Bool) → IsMatched E (some (after_match b))
unfolding after_match
after_match-IsMatched E true = tt
after_match-IsMatched E false = tt

matched-IsMatched : (E : Type 0) (b : Bool) → (b ≡ true → E) → IsMatched E (some (matched b))
matched-IsMatched E true h = h refl
matched-IsMatched E false h = tt

observe-IsHonest :
    (E : Type 0) (expected : Text) (e : ProbeEvent) (x : Attempt)
    → IsHonest E x
    → (Shows expected e → E)
    → IsHonest E (observe expected e x)
unfolding observe
observe-IsHonest E expected (host_key digest) x h shows =
    (λ m. shows (ap host_key (text_eq_sound digest expected m)), h.1)
observe-IsHonest E expected ready x h shows = (h.0, matched-IsMatched E x.fingerprint_matched h.0)
observe-IsHonest E expected failed x h shows = (h.0, after_match-IsMatched E x.fingerprint_matched)
observe-IsHonest E expected closed x h shows = (h.0, tt)
observe-IsHonest E expected timed_out x h shows =
    (h.0, after_match-IsMatched E x.fingerprint_matched)
observe-IsHonest E expected threw x h shows = (h.0, after_match-IsMatched E x.fingerprint_matched)

attempt_from-IsMatched :
    (E : Type 0) (expected : Text) (x : Attempt) (events : List ProbeEvent)
    → IsHonest E x
    → All (λ (e : ProbeEvent). Shows expected e → E) events
    → IsMatched E (attempt_from expected x events)
unfolding attempt_from
attempt_from-IsMatched E expected x [] h shows = h.1
attempt_from-IsMatched E expected x (e ∷ events) h shows =
    attempt_from-IsMatched E expected (if is_some x.settled then x else observe expected e x) events
      (if_intro (IsHonest E) (is_some x.settled) x (observe expected e x) (λ s. h)
        (λ s. observe-IsHonest E expected e x h shows.0))
      shows.1

attempt-IsMatched :
    (expected : Text) (events : List ProbeEvent)
    → IsMatched (Any (Shows expected) events) (probe_host_key_attempt expected events)
unfolding probe_host_key_attempt
attempt-IsMatched expected events =
    attempt_from-IsMatched (Any (Shows expected) events) expected
      (record { fingerprint_matched = false; settled = none }) events ((λ h. absurd (cc)), tt)
      (Any-self (Shows expected) events)

Probed-cases :
    (o : Option Probed)
    → (o ≡ none)
      ⊎ ((o ≡ some unavailable) ⊎ ((o ≡ some (matched true)) ⊎ (o ≡ some (matched false))))
Probed-cases none = inl refl
Probed-cases (some unavailable) = inr (inl refl)
Probed-cases (some (matched true)) = inr (inr (inl refl))
Probed-cases (some (matched false)) = inr (inr (inr refl))

-- An algorithm with which the host showed the pinned key, after ones whose attempts ended without a match.
abbrev pub IsPinned : Text → (Algorithm → List ProbeEvent) → List Algorithm → Algorithm → Type 0
IsPinned expected events [] a = ⊥
IsPinned expected events (b ∷ algorithms) a =
    ((b ≡ a) × Any (Shows expected) (events a))
    ⊎ ((probe_host_key_attempt expected (events b) ≡ some (matched false))
        × IsPinned expected events algorithms a)

probe_each-IsPinned :
    (expected : Text) (events : Algorithm → List ProbeEvent) (algorithms : List Algorithm)
    (a : Algorithm)
    → probe_each expected events algorithms ≡ found a
    → IsPinned expected events algorithms a
unfolding probe_each
probe_each-IsPinned expected events [] a h = absurd (cc)
probe_each-IsPinned expected events (b ∷ algorithms) a h =
    elim (Probed-cases (probe_host_key_attempt expected (events b))) [
      | inl e ↦ absurd (ground (arith, rw (probe_each, e) at h))
      | inr (inl e) ↦ absurd (ground (arith, rw (probe_each, e) at h))
      | inr (inr (inl e)) ↦
          let h' : found b ≡ found a = rw (probe_each, e) at h in
          let same : b ≡ a = cc in
          let shown : Any (Shows expected) (events b) =
            subst (IsMatched (Any (Shows expected) (events b))) e
              (attempt-IsMatched expected (events b)) in
          inl (same, subst (λ (d : Algorithm). Any (Shows expected) (events d)) same shown)
      | inr (inr (inr e)) ↦
          inr (e, probe_each-IsPinned expected events algorithms a (rw (probe_each, e) at h))
    ]

probe_expected_lem :
    (expected : Text) (events : Algorithm → List ProbeEvent) (a : Algorithm)
    → probe_expected expected events ≡ found a
    → (expected ≢ []) × IsPinned expected events server_host_key_algorithms a
unfolding probe_expected
probe_expected_lem [] events a h = absurd (cc)
probe_expected_lem (b ∷ bs) events a h =
    ((λ e. cc), probe_each-IsPinned (b ∷ bs) events server_host_key_algorithms a h)

-- An algorithm is found only for a fingerprint that is given and is not empty once its prefix and padding are
-- off: the host showed a key with that digest in the attempt with this algorithm, and every
-- attempt with an earlier algorithm of the list ended without a match.
pub probe_ssh_host_key_algorithm_lem :
    (host_key_sha256 : Option Text) (events : Algorithm → List ProbeEvent) (a : Algorithm)
    → probe_ssh_host_key_algorithm host_key_sha256 events ≡ found a
    → (fingerprint : Text) × ((host_key_sha256 ≡ some fingerprint)
        × ((normalize_fingerprint fingerprint ≢ [])
            × IsPinned (normalize_fingerprint fingerprint) events server_host_key_algorithms a))
unfolding probe_ssh_host_key_algorithm fingerprint_of
probe_ssh_host_key_algorithm_lem none events a h =
    absurd ((probe_expected_lem [] events a h).0 refl)
probe_ssh_host_key_algorithm_lem (some fingerprint) events a h =
    (fingerprint, (refl, probe_expected_lem (normalize_fingerprint fingerprint) events a h))
