-- ===== src/Daemon/Client/Socket.antt =====
-- `request` of src/lifecycle/DaemonClient.ts over the events of its socket, its timer and its signal. What
-- `JSON.parse` makes of a line is a parameter, `none` where it throws or gives null.
use run_beacon.Base.{
  ◌≡◌, ◌∙◌, refl, sym, ap, subst, inl, inr, List, [], ◌∷◌, ◌++◌, Bool, true, false, not, Option,
  none, some, ◌==◌, if◌then◌else◌, map, arith, Bool-cases, Option-cases,
}
use mathlib.Core.List.{append-nil, append_assoc}
use run_beacon.Base.Text.{Text, text_eq}
use run_beacon.Daemon.Client.{transport, rpc, Reply, answered, failed}

pub record RpcResponse (A : Type 0) : Type 0 where
  pub id : Text
  pub result : A
  pub error : Option Text

-- A chunk of data, an error, the end or the close of the socket, the timeout, the abort.
pub data Event : Type 0 where
  chunk : Text → Event
  socket_error ended closed timed_out aborted : Event

pub record Exchange (A : Type 0) : Type 0 where
  pub buffer : Text
  pub settled : Option (Reply A)

-- The text before the first newline.
pub line_of : Text → Option Text
line_of [] = none
line_of (b ∷ bs) =
    let rest = line_of bs in
    if b == 10 then some [] else elim rest [ none ↦ none | some line ↦ some (b ∷ line) ]

is_error : Option Text → Bool
is_error none = false
is_error (some []) = false
is_error (some (b ∷ bs)) = true

-- `finish`: only its first call counts.
abbrev pub settle : {A : Type 0} → Reply A → Option (Reply A) → Option (Reply A)
settle reply none = some reply
settle reply (some earlier) = some earlier

pub finish : {A : Type 0} → Reply A → Exchange A → Exchange A
finish reply x = record x { settled = settle reply x.settled }

module _ {A : Type 0} (parse : Text → Option (RpcResponse A)) (id : Text) where
  -- What a line settles the request with.
  pub decode : Text → Reply A
  unfolding is_error
  decode line = elim (parse line) [
    | none ↦ failed transport
    | some response ↦
        if not (text_eq response.id id)
        then failed transport
        else if is_error response.error
        then failed rpc
        else answered response.result
  ]

  pub receive : Event → Exchange A → Exchange A
  unfolding line_of decode finish
  receive (chunk text) x =
      let x' : Exchange A = record x { buffer = x.buffer ++ text } in
      elim (line_of (x.buffer ++ text)) [ none ↦ x' | some line ↦ finish (decode line) x' ]
  receive socket_error x = finish (failed transport) x
  receive ended x = finish (failed transport) x
  receive closed x = finish (failed transport) x
  receive timed_out x = finish (failed transport) x
  receive aborted x = finish (failed transport) x

  pub run : Exchange A → List Event → Exchange A
  unfolding receive
  run x [] = x
  run x (e ∷ events) = run (receive e x) events

  -- `request`: what it settles with, `none` while it waits.
  pub request : Bool → List Event → Option (Reply A)
  unfolding run
  request already_aborted events =
      if already_aborted
      then some (failed transport)
      else (run (record { buffer = []; settled = none }) events).settled

abbrev pub concat : List Text → Text
concat [] = []
concat (t ∷ ts) = t ++ concat ts

abbrev pub is_chunk : Event → Bool
is_chunk (chunk text) = true
is_chunk other = false

line_of-append : (s t : Text) (line : Text) → line_of s ≡ some line → line_of (s ++ t) ≡ some line
unfolding line_of
line_of-append [] t line h = absurd (cc)
line_of-append (b ∷ s) t line h = elim (Bool-cases (b == 10)) [
  | inl e ↦ rw (line_of, e) (rw e at h)
  | inr e ↦ elim (Option-cases (line_of s)) [
    | inl n ↦ absurd (ground (arith, rw (line_of, e, n) at h))
    | inr (rest, f) ↦ rw (e, line_of-append s t rest f) (rw (e, f) at h)
  ]
]

finish_settled :
    {A : Type 0} (x : Exchange A) (reply later : Reply A)
    → x.settled ≡ some reply
    → (finish later x).settled ≡ some reply
unfolding finish
finish_settled x reply later h = ap (settle later) h

module _ {A : Type 0} (parse : Text → Option (RpcResponse A)) (id : Text) where
  receive_settled :
      (e : Event) (x : Exchange A) (reply : Reply A)
      → x.settled ≡ some reply
      → (receive parse id e x).settled ≡ some reply
  unfolding receive
  receive_settled (chunk text) x reply h = elim (Option-cases (line_of (x.buffer ++ text))) [
    | inl n ↦ rw (receive, n) h
    | inr (line, n) ↦
        rw (receive, n)
          (finish_settled (record x { buffer = x.buffer ++ text }) reply (decode parse id line) h)
  ]
  receive_settled socket_error x reply h = finish_settled x reply (failed transport) h
  receive_settled ended x reply h = finish_settled x reply (failed transport) h
  receive_settled closed x reply h = finish_settled x reply (failed transport) h
  receive_settled timed_out x reply h = finish_settled x reply (failed transport) h
  receive_settled aborted x reply h = finish_settled x reply (failed transport) h

  run_settled :
      (events : List Event) (x : Exchange A) (reply : Reply A)
      → x.settled ≡ some reply
      → (run parse id x events).settled ≡ some reply
  unfolding run
  run_settled [] x reply h = h
  run_settled (e ∷ events) x reply h =
      run_settled events (receive parse id e x) reply (receive_settled e x reply h)

  -- An exchange that waits, with what it has received.
  abbrev waiting_with : Text → Exchange A
  waiting_with buffer = record { buffer = buffer; settled = none }

  receive_chunk :
      (buffer text : Text)
      → line_of (buffer ++ text) ≡ none
      → receive parse id (chunk text) (waiting_with buffer) ≡ waiting_with (buffer ++ text)
  unfolding receive
  receive_chunk buffer text n = rw (receive, n) refl

  receive_line :
      (buffer text line : Text)
      → line_of (buffer ++ text) ≡ some line
      → (receive parse id (chunk text) (waiting_with buffer)).settled ≡ some (decode parse id line)
  unfolding receive finish
  receive_line buffer text line n = rw (receive, n) refl

  run_line :
      (buffer : Text) (chunks : List Text) (rest : List Event) (line : Text)
      → line_of buffer ≡ none
      → line_of (buffer ++ concat chunks) ≡ some line
      → (run parse id (waiting_with buffer) (map chunk chunks ++ rest)).settled
        ≡ some (decode parse id line)
  unfolding run
  run_line buffer [] rest line none_yet h =
      absurd (ground (arith, none_yet, rw (append-nil buffer) at h))
  run_line buffer (c ∷ chunks) rest line none_yet h =
      let whole : line_of ((buffer ++ c) ++ concat chunks) ≡ some line =
        rw (append_assoc buffer c (concat chunks)) h in
      elim (Option-cases (line_of (buffer ++ c))) [
        | inl n ↦
            subst
              (λ (x : Exchange A).
                (run parse id x (map chunk chunks ++ rest)).settled ≡ some (decode parse id line))
              (sym (receive_chunk buffer c n)) (run_line (buffer ++ c) chunks rest line n whole)
        | inr (l, n) ↦
            let same : some l ≡ some line =
              sym (line_of-append (buffer ++ c) (concat chunks) l n) ∙ whole in
            run_settled (map chunk chunks ++ rest)
              (receive parse id (chunk c) (waiting_with buffer)) (decode parse id line)
              (receive_line buffer c line (n ∙ same))
      ]

  line_of-none : (s t : Text) → line_of (s ++ t) ≡ none → line_of s ≡ none
  line_of-none s t h = elim (Option-cases (line_of s)) [
    | inl n ↦ n
    | inr (line, n) ↦ absurd (ground (arith, h, line_of-append s t line n))
  ]

  receive_other :
      (e : Event) (buffer : Text)
      → is_chunk e ≡ false
      → (receive parse id e (waiting_with buffer)).settled ≡ some (failed transport)
  unfolding receive finish
  receive_other (chunk text) buffer h = absurd (cc)
  receive_other _ buffer h = refl

  run_other :
      (buffer : Text) (chunks : List Text) (e : Event) (rest : List Event)
      → line_of (buffer ++ concat chunks) ≡ none
      → is_chunk e ≡ false
      → (run parse id (waiting_with buffer) (map chunk chunks ++ e ∷ rest)).settled
        ≡ some (failed transport)
  unfolding run
  run_other buffer [] e rest h other_event =
      run_settled rest (receive parse id e (waiting_with buffer)) (failed transport)
        (receive_other e buffer other_event)
  run_other buffer (c ∷ chunks) e rest h other_event =
      let whole : line_of ((buffer ++ c) ++ concat chunks) ≡ none =
        rw (append_assoc buffer c (concat chunks)) h in
      let still : line_of (buffer ++ c) ≡ none = line_of-none (buffer ++ c) (concat chunks) whole in
      subst
        (λ (x : Exchange A).
          (run parse id x (map chunk chunks ++ e ∷ rest)).settled ≡ some (failed transport))
        (sym (receive_chunk buffer c still))
        (run_other (buffer ++ c) chunks e rest whole other_event)

  -- What an answer without its end settles with, and one with a line.
  abbrev pub outcome_of : Option Text → Reply A
  outcome_of none = failed transport
  outcome_of (some line) = decode parse id line

  -- However the answer is cut into chunks before another event, an error, the end, the close, the timeout or
  -- the abort: the request settles with what the first line of the chunks decodes to, and fails if they have
  -- no whole line; nothing that follows matters.
  pub request_lem :
      (chunks : List Text) (e : Event) (rest : List Event)
      → is_chunk e ≡ false
      → request parse id false (map chunk chunks ++ e ∷ rest)
        ≡ some (outcome_of (line_of (concat chunks)))
  unfolding request
  request_lem chunks e rest other_event = elim (Option-cases (line_of (concat chunks))) [
    | inl n ↦ rw n (run_other [] chunks e rest n other_event)
    | inr (line, n) ↦ rw n (run_line [] chunks (e ∷ rest) line (unfold line_of in refl) n)
  ]
