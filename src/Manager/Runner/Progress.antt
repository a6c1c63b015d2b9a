-- ===== src/Manager/Runner/Progress.antt =====
-- How far the loop of `watchRunnerJob` in src/lifecycle/LifecycleManager.ts has read, and how it ends.
use run_beacon.Base.{
  All, All-imp, ℕ, ◌≡◌, ◌≤◌, refl, sym, ap, ◌∙◌, inl, inr, max, List, [], ◌∷◌, ◌&&◌, Option, none,
  some, arith, Bool-cases, Option-cases, get_or, if◌then◌else◌, is_empty,
}
use run_beacon.Base.Dict.{lookup, lookup-insert_self}
use run_beacon.Base.Text.{Text}
use run_beacon.Types.{JobRecord, JobExecution, JobOutputStream}
use run_beacon.Manager.{Manager}
use run_beacon.Manager.Effects.Execution.{execution_at, changed-execution, append-execution}
use run_beacon.Manager.Runner.{
  append_stream, note_truncated, RunnerEvent, Watched, read_watched, read_events, append_event,
  skip_to, advance, connected_record, truncated_record, modify,
}

abbrev pub sequence_of : Option JobExecution → Option ℕ
sequence_of none = none
sequence_of (some e) = some e.last_event_sequence

-- The last sequence that was read of a job, if the job is there.
abbrev pub sequence_at : ℕ → Manager → Option ℕ
sequence_at id m = sequence_of (execution_at id m)

abbrev pub moved : (ℕ → ℕ) → Option ℕ → Option ℕ
moved g none = none
moved g (some n) = some (g n)

pub modify-sequence :
    (id : ℕ) (f : JobRecord → JobRecord) (g : ℕ → ℕ)
    → ((j : JobRecord) → (f j).execution.last_event_sequence ≡ g j.execution.last_event_sequence)
    → (m : Manager) → sequence_at id (modify id f m) ≡ moved g (sequence_at id m)
unfolding modify
modify-sequence id f g h m = elim (Option-cases (lookup id m.jobs)) [
  | inl e ↦ rw (modify, e, e) refl
  | inr (j, e) ↦ rw (modify, e, lookup-insert_self id (f j) m.jobs) (ap some (h j))
]

pub moved-same : (x : Option ℕ) → moved (λ n. n) x ≡ x
moved-same none = refl
moved-same (some n) = refl

moved-moved : (f g : ℕ → ℕ) (x : Option ℕ) → moved f (moved g x) ≡ moved (λ n. f (g n)) x
moved-moved f g none = refl
moved-moved f g (some n) = refl

moved-ext : {f g : ℕ → ℕ} → ((n : ℕ) → f n ≡ g n) → (x : Option ℕ) → moved f x ≡ moved g x
moved-ext h none = refl
moved-ext h (some n) = ap some (h n)

max_zero : (k : ℕ) → k ≡ max k 0
max_zero k = omega arith

append_stream-sequence :
    (now id : ℕ) (s : Option JobOutputStream) (t : Text) (m : Manager)
    → sequence_at id (append_stream now id s t m) ≡ sequence_at id m
unfolding append_stream
append_stream-sequence now id none t m = refl
append_stream-sequence now id (some JobOutputStream.system) t m = refl
append_stream-sequence now id (some JobOutputStream.stdout) t m =
    ap sequence_of (append-execution now id JobOutputStream.stdout t id m)
append_stream-sequence now id (some JobOutputStream.stderr) t m =
    ap sequence_of (append-execution now id JobOutputStream.stderr t id m)

append_event-sequence :
    (now id : ℕ) (e : RunnerEvent) (m : Manager)
    → sequence_at id (append_event now id e m) ≡ sequence_at id m
unfolding append_event
append_event-sequence now id e m = elim (Bool-cases e.is_output) [
  | inr f ↦ rw (append_event, f) refl
  | inl t ↦ elim (Option-cases e.text) [
    | inl n ↦ rw (append_event, t, n) refl
    | inr (x, n) ↦ rw (append_event, t, n) (append_stream-sequence now id e.stream x m)
  ]
]

-- Where the reader stands after the events, and after the reply.
pub after_events : List RunnerEvent → ℕ → ℕ
after_events [] n = n
after_events (e ∷ es) n = after_events es (max n (get_or e.sequence 0))

pub after_reply : Watched → ℕ → ℕ
unfolding after_events
after_reply w n =
    let read = after_events w.events n in
    if w.truncated && is_empty w.events then max read (get_or w.next_sequence 0) else read

read_events-sequence :
    (now id : ℕ) (es : List RunnerEvent) (m : Manager)
    → sequence_at id (read_events now id es m) ≡ moved (after_events es) (sequence_at id m)
unfolding read_events after_events advance
read_events-sequence now id [] m = sym (moved-same (sequence_at id m))
read_events-sequence now id (e ∷ es) m = elim (Option-cases e.sequence) [
  | inl n ↦
      rw (read_events, n)
        (read_events-sequence now id es m
          ∙ moved-ext (λ k. ap (after_events es) (max_zero k)) (sequence_at id m))
  | inr (k, n) ↦
      let m₁ = modify id (advance k) m in
      rw (read_events, n)
        (read_events-sequence now id es (append_event now id e m₁)
          ∙ ap (moved (after_events es)) (
              append_event-sequence now id e m₁
              ∙ modify-sequence id (advance k) (λ i. max i k) (λ j. refl) m)
          ∙ moved-moved (after_events es) (λ i. max i k) (sequence_at id m))
]

skip_to-sequence :
    (id : ℕ) (w : Watched) (m : Manager)
    → sequence_at id (skip_to id w m)
      ≡ moved
          (λ n. if w.truncated && is_empty w.events then max n (get_or w.next_sequence 0) else n)
          (sequence_at id m)
unfolding skip_to advance
skip_to-sequence id w m = elim (Bool-cases (w.truncated && is_empty w.events)) [
  | inr f ↦ rw (skip_to, f) (sym (moved-same (sequence_at id m)))
  | inl t ↦ elim (Option-cases w.next_sequence) [
    | inl n ↦
        rw (skip_to, t, n)
          (sym (moved-same (sequence_at id m)) ∙ moved-ext max_zero (sequence_at id m))
    | inr (k, n) ↦ rw (skip_to, t, n) (modify-sequence id (advance k) (λ i. max i k) (λ j. refl) m)
  ]
]

note_truncated-sequence :
    (now id : ℕ) (w : Watched) (m : Manager)
    → sequence_at id (note_truncated now id w m) ≡ sequence_at id m
unfolding note_truncated truncated_record
note_truncated-sequence now id w m = elim (Bool-cases w.truncated) [
  | inr f ↦ rw (note_truncated, f) refl
  | inl t ↦
      rw (note_truncated, t)
        (ap sequence_of
            (append-execution now id JobOutputStream.system _ id (modify id truncated_record m))
          ∙ modify-sequence id truncated_record (λ n. n) (λ j. refl) m
          ∙ moved-same (sequence_at id m))
]

read_watched-sequence :
    (now id : ℕ) (w : Watched) (m : Manager)
    → sequence_at id (read_watched now id w m) ≡ moved (after_reply w) (sequence_at id m)
unfolding read_watched connected_record truncated_record after_reply
read_watched-sequence now id w m =
    let m₀ = modify id connected_record m in
    let m₁ = note_truncated now id w m₀ in
    let m₂ = read_events now id w.events m₁ in
    let start : sequence_at id m₁ ≡ sequence_at id m =
      note_truncated-sequence now id w m₀
      ∙ modify-sequence id connected_record (λ n. n) (λ j. refl) m
      ∙ moved-same (sequence_at id m) in
    let read : sequence_at id (skip_to id w m₂) ≡ moved (after_reply w) (sequence_at id m) =
      skip_to-sequence id w m₂
      ∙ ap (moved _)
          (read_events-sequence now id w.events m₁ ∙ ap (moved (after_events w.events)) start)
      ∙ moved-moved _ (after_events w.events) (sequence_at id m) in
    elim (Bool-cases w.timed_out) [
      | inl t ↦ rw (read_watched, t) read
      | inr f ↦
          rw (read_watched, f)
            (ap sequence_of (changed-execution now id id (skip_to id w m₂)) ∙ read)
    ]

after_events_bound :
    (es : List RunnerEvent) (n : ℕ)
    → (n ≤ after_events es n) × All (λ e. get_or e.sequence 0 ≤ after_events es n) es
unfolding after_events
after_events_bound [] n = (omega arith, tt)
after_events_bound (e ∷ es) n =
    let (above, all) = after_events_bound es (max n (get_or e.sequence 0)) in
    (omega (arith, above), (omega (arith, above), all))

after_reply_bound :
    (w : Watched) (n : ℕ)
    → (n ≤ after_reply w n) × All (λ e. get_or e.sequence 0 ≤ after_reply w n) w.events
unfolding after_reply
after_reply_bound w n = elim (Bool-cases (w.truncated && is_empty w.events)) [
  | inr f ↦ rw f (after_events_bound w.events n)
  | inl t ↦
      let (above, all) = after_events_bound w.events n in
      let next = get_or w.next_sequence 0 in
      rw t (
        omega (arith, above),
        All-imp (λ (e : RunnerEvent). get_or e.sequence 0 ≤ after_events w.events n)
            (λ (e : RunnerEvent). get_or e.sequence 0 ≤ max (after_events w.events n) next)
            (λ e h. omega (arith, h)) w.events all,
      )
]

-- A reply to `watch` moves the last sequence of a listed job forward, never back, and at least to the
-- sequence of each event of the reply.
pub read_watched_lem :
    (now id : ℕ) (w : Watched) (m : Manager) (n : ℕ)
    → sequence_at id m ≡ some n
    → (sequence_at id (read_watched now id w m) ≡ some (after_reply w n))
      × ((n ≤ after_reply w n) × All (λ e. get_or e.sequence 0 ≤ after_reply w n) w.events)
read_watched_lem now id w m n h =
    (read_watched-sequence now id w m ∙ ap (moved (after_reply w)) h, after_reply_bound w n)
