-- ===== src/Tcp/Matching.antt =====
-- Which connection a reverse open ends with (Tcp/Correlation), over every order of events.
use bucky_p2p.Base.{
  ◌+◌, ◌≤◌, ◌≡◌, inl, inr, refl, Bool, true, false, not, ◌&&◌, ◌||◌, Option, none, some, List, [],
  ◌∷◌, arith, ◌==◌, any, countp, if◌then◌else◌, Bool-cases,
}
use bucky_p2p.Tcp.{TcpConnId}
use bucky_p2p.Tcp.Correlation.{
  ReverseOpenCorrelationEvent, arrival, arrival_registered, success_response, failure,
  terminal_cleanup, ReverseOpenCorrelationOutcome, wait, complete, idempotent, reject,
  ReverseOpenCorrelation, new_correlation, holds, is_given, apply_event, apply_all,
}

abbrev pub is_complete : ReverseOpenCorrelationOutcome → Bool
is_complete (complete c) = true
is_complete wait = false
is_complete idempotent = false
is_complete ReverseOpenCorrelationOutcome.terminal = false
is_complete (reject e) = false

abbrev pub completes : TcpConnId → ReverseOpenCorrelationOutcome → Bool
completes c (complete d) = d == c
completes c wait = false
completes c idempotent = false
completes c ReverseOpenCorrelationOutcome.terminal = false
completes c (reject e) = false

abbrev pub arrives : TcpConnId → ReverseOpenCorrelationEvent → Bool
arrives c (arrival d) = d == c
arrives c (arrival_registered d) = false
arrives c (success_response d) = false
arrives c failure = false
arrives c terminal_cleanup = false

abbrev pub registers : TcpConnId → ReverseOpenCorrelationEvent → Bool
registers c (arrival_registered d) = d == c
registers c (arrival d) = false
registers c (success_response d) = false
registers c failure = false
registers c terminal_cleanup = false

abbrev pub succeeds : TcpConnId → ReverseOpenCorrelationEvent → Bool
succeeds c (success_response d) = d == c
succeeds c (arrival d) = false
succeeds c (arrival_registered d) = false
succeeds c failure = false
succeeds c terminal_cleanup = false

step_once :
    (s : ReverseOpenCorrelation) (e : ReverseOpenCorrelationEvent)
    → (if is_complete (apply_event s e).1 then 1 else 0)
        + (if (apply_event s e).0.is_terminal then 0 else 1)
      ≤ (if s.is_terminal then 0 else 1)
unfolding apply_event
step_once s (arrival c) = ground arith
step_once s (arrival_registered c) = ground arith
step_once s (success_response c) = ground arith
step_once s failure = ground arith
step_once s terminal_cleanup = ground arith

once_from :
    (s : ReverseOpenCorrelation) (es : List ReverseOpenCorrelationEvent)
    → countp is_complete (apply_all s es).1 ≤ (if s.is_terminal then 0 else 1)
unfolding apply_all
once_from s [] = ground arith
once_from s (e ∷ es) = ground (arith, step_once s e, once_from (apply_event s e).0 es)

-- The connection that has arrived is the one of the response, and only an arrival is registered.
abbrev agree : Option TcpConnId → Option TcpConnId → Bool
agree none b = true
agree (some c) none = true
agree (some c) (some d) = c == d

abbrev is_coherent : ReverseOpenCorrelation → Bool
is_coherent s =
    s.is_terminal
    || (agree s.arrival_conn_id s.response_conn_id
        && (not s.is_arrival_registered || is_given s.arrival_conn_id))

step-is_coherent :
    (s : ReverseOpenCorrelation) (e : ReverseOpenCorrelationEvent)
    → is_coherent s ≡ true
    → is_coherent (apply_event s e).0 ≡ true
unfolding apply_event
step-is_coherent s (arrival c) h = ground arith
step-is_coherent s (arrival_registered c) h = ground arith
step-is_coherent s (success_response c) h = ground arith
step-is_coherent s failure h = ground arith
step-is_coherent s terminal_cleanup h = ground arith

-- What the state knows of a connection comes from before or from the event.
abbrev Knows : TcpConnId → ReverseOpenCorrelation → List ReverseOpenCorrelationEvent → Type 0
Knows c s es =
    ((holds s.arrival_conn_id c || any (arrives c) es) ≡ true)
    × (((s.is_arrival_registered && holds s.arrival_conn_id c) || any (registers c) es) ≡ true)
    × ((holds s.response_conn_id c || any (succeeds c) es) ≡ true)

step-Knows :
    (s : ReverseOpenCorrelation) (e : ReverseOpenCorrelationEvent)
    (es : List ReverseOpenCorrelationEvent) (c : TcpConnId)
    → is_coherent s ≡ true
    → Knows c (apply_event s e).0 es
    → Knows c s (e ∷ es)
unfolding apply_event
step-Knows s (arrival d) es c k h = ground arith
step-Knows s (arrival_registered d) es c k h = ground arith
step-Knows s (success_response d) es c k h = ground arith
step-Knows s failure es c k h = ground arith
step-Knows s terminal_cleanup es c k h = ground arith

completes-Knows :
    (s : ReverseOpenCorrelation) (e : ReverseOpenCorrelationEvent)
    (es : List ReverseOpenCorrelationEvent) (c : TcpConnId)
    → is_coherent s ≡ true
    → completes c (apply_event s e).1 ≡ true
    → Knows c s (e ∷ es)
unfolding apply_event
completes-Knows s (arrival d) es c k h = ground arith
completes-Knows s (arrival_registered d) es c k h = ground arith
completes-Knows s (success_response d) es c k h = ground arith
completes-Knows s failure es c k h = ground arith
completes-Knows s terminal_cleanup es c k h = ground arith

sound_from :
    (s : ReverseOpenCorrelation) (es : List ReverseOpenCorrelationEvent) (c : TcpConnId)
    → is_coherent s ≡ true
    → any (completes c) (apply_all s es).1 ≡ true
    → Knows c s es
unfolding apply_all
sound_from s [] c k h = absurd (cc h)
sound_from s (e ∷ es) c k h = elim (Bool-cases (completes c (apply_event s e).1)) [
  | inl q ↦ completes-Knows s e es c k q
  | inr q ↦
      step-Knows s e es c k
        (sound_from (apply_event s e).0 es c (step-is_coherent s e k) (ground arith))
]

any-countp :
    (c : TcpConnId) (os : List ReverseOpenCorrelationOutcome)
    → any (completes c) os ≡ true
    → 1 ≤ countp is_complete os
any-countp c [] h = ground arith
any-countp c (complete d ∷ os) h = omega arith
any-countp c (wait ∷ os) h = any-countp c os h
any-countp c (idempotent ∷ os) h = any-countp c os h
any-countp c (ReverseOpenCorrelationOutcome.terminal ∷ os) h = any-countp c os h
any-countp c (reject e ∷ os) h = any-countp c os h

once_lem :
    (es : List ReverseOpenCorrelationEvent) (c : TcpConnId)
    → any (completes c) (apply_all new_correlation es).1 ≡ true
    → countp is_complete (apply_all new_correlation es).1 ≡ 1
once_lem es c h =
    let most = once_from new_correlation es in
    let least = any-countp c (apply_all new_correlation es).1 h in omega arith

-- A reverse open completes at most once, whatever events come in whatever order; and with a connection
-- that has arrived, that was registered and that a success response has named.
pub apply_all_complete :
    (es : List ReverseOpenCorrelationEvent) (c : TcpConnId)
    → any (completes c) (apply_all new_correlation es).1 ≡ true
    → (countp is_complete (apply_all new_correlation es).1 ≡ 1)
      × (any (arrives c) es ≡ true)
      × (any (registers c) es ≡ true)
      × (any (succeeds c) es ≡ true)
apply_all_complete es c h =
    let known = sound_from new_correlation es c refl h in
    (once_lem es c h, known.0, known.1, known.2)

-- The response may come before the arrival, between arrival and registration, or after both: the
-- open completes with the last of the three.
pub apply_all-any_order :
    (c : TcpConnId)
    → ((apply_all new_correlation (arrival c ∷ arrival_registered c ∷ success_response c ∷ [])).1
        ≡ wait ∷ wait ∷ complete c ∷ [])
      × ((apply_all new_correlation (arrival c ∷ success_response c ∷ arrival_registered c ∷ [])).1
          ≡ wait ∷ wait ∷ complete c ∷ [])
      × ((apply_all new_correlation (success_response c ∷ arrival c ∷ arrival_registered c ∷ [])).1
          ≡ wait ∷ wait ∷ complete c ∷ [])
unfolding apply_all apply_event
apply_all-any_order c = (ground arith, ground arith, ground arith)
