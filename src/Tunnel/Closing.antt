-- ===== src/Tunnel/Closing.antt =====
-- The workers of tunnels: nothing is closed twice, and the pairs are counted.
use myapptest.Common.{
  ℕ, suc, ◌+◌, ◌-◌, ◌≤◌, Bool, true, false, Option, List, [], ◌∷◌, ◌++◌, ◌≡◌, refl, ap, ◌∙◌, arith,
  Text, if◌then◌else◌, map, Bool-cases, inl, inr,
}
use myapptest.Tunnel.Worker.{
  TunnelStatus, Worker, Effect, set_status, add_pair, remove_pair, add_bytes_in, add_bytes_out,
  close_runtime_resources, close_resources, close_listener_of, close_transport_of, close_all,
}

-- The calls that change a worker. After `hand_over` its caller closes the transport that it gets,
-- as `stopWorker` does.
pub data Event : Type 0 where
  status : TunnelStatus → Text → Event
  pair_opened pair_closed : ℕ → ℕ → Event
  sent received : ℕ → Event
  close hand_over : Event

unfoldable pub step : Worker → Event → ℕ → Worker × List Effect
unfolding set_status add_pair remove_pair add_bytes_in add_bytes_out close_resources
    close_runtime_resources
step w (Event.status s message) now = (set_status w s message now, [])
step w (Event.pair_opened left right) now = (add_pair w left right now, [])
step w (Event.pair_closed left right) now = (remove_pair w left right now, [])
step w (Event.sent n) now = (add_bytes_in w n now, [])
step w (Event.received n) now = (add_bytes_out w n now, [])
step w Event.close now = close_resources w
step w Event.hand_over now =
    let (w', effects, transport) = close_runtime_resources w false in
    (w', effects ++ close_transport_of transport)

unfoldable pub run : Worker → List (Event × ℕ) → Worker × List Effect
unfolding step
run w [] = (w, [])
run w ((e, now) ∷ es) =
    let (w', effects) = step w e now in let (w'', later) = run w' es in (w'', effects ++ later)

abbrev pub count : (Effect → Bool) → List Effect → ℕ
count p [] = 0
count p (e ∷ es) = let later = count p es in if p e then suc later else later

abbrev pub closes_listener : Effect → Bool
closes_listener (Effect.close_listener _) = true
closes_listener _ = false

abbrev pub closes_transport : Effect → Bool
closes_transport (Effect.close_transport _) = true
closes_transport _ = false

count-append :
    (p : Effect → Bool) (xs ys : List Effect) → count p (xs ++ ys) ≡ count p xs + count p ys
count-append p [] ys = omega arith
count-append p (x ∷ xs) ys = ground (arith, count-append p xs ys)

-- What is left to close.
abbrev allowance : Worker → ℕ
allowance w = if w.stopping then 0 else 1

-- A kind of effect that is not a cancel and not the closing of a connection, and that closing the
-- listener and the transport has once.
module _ (p : Effect → Bool) (not_cancel : p Effect.cancel ≡ false)
    (not_conn : (c : ℕ) → p (Effect.close_conn c) ≡ false)
    (one : (w : Worker)
      → count p (close_listener_of w) + count p (close_transport_of w.transport) ≤ 1) where
  count-conns : (cs : List ℕ) → count p (map Effect.close_conn cs) ≡ 0
  count-conns [] = refl
  count-conns (c ∷ cs) = ground (arith, not_conn c, count-conns cs)

  count-close_all : (w : Worker) → count p (close_all w) ≡ count p (close_listener_of w)
  count-close_all w = ground (
    arith,
    not_cancel,
    count-append p (close_listener_of w) (map Effect.close_conn w.conns),
    count-conns w.conns,
  )

  count-closing :
      (w : Worker) (t : Option ℕ)
      → count p (close_all w ++ close_transport_of t)
        ≡ count p (close_listener_of w) + count p (close_transport_of t)
  count-closing w t =
      count-append p (close_all w) (close_transport_of t)
      ∙ ap (λ (n : ℕ). n + count p (close_transport_of t)) (count-close_all w)

  handed_over : (w : Worker) → count p (close_all w ++ close_transport_of w.transport) + 0 ≤ 1
  handed_over w = omega (arith, count-closing w w.transport, one w)

  closed : (w : Worker) → count p ((close_all w ++ close_transport_of w.transport) ++ []) + 0 ≤ 1
  closed w =
      omega
        (arith, count-append p (close_all w ++ close_transport_of w.transport) [], handed_over w)

  step-count :
      (w : Worker) (e : Event) (now : ℕ)
      → count p (step w e now).1 + allowance (step w e now).0 ≤ allowance w
  unfolding step
  step-count w (Event.status s message) now = omega arith
  step-count w (Event.pair_opened left right) now = omega arith
  step-count w (Event.pair_closed left right) now = omega arith
  step-count w (Event.sent n) now = omega arith
  step-count w (Event.received n) now = omega arith
  step-count w Event.close now = elim (Bool-cases w.stopping) [
    | inl s ↦ rw s (omega arith)
    | inr s ↦ rw s (closed w)
  ]
  step-count w Event.hand_over now = elim (Bool-cases w.stopping) [
    | inl s ↦ rw s (omega arith)
    | inr s ↦ rw s (handed_over w)
  ]

  run-count : (w : Worker) (es : List (Event × ℕ)) → count p (run w es).1 ≤ allowance w
  unfolding run
  run-count w [] = omega arith
  run-count w ((e, now) ∷ es) = omega (
    arith,
    count-append p (step w e now).1 (run (step w e now).0 es).1,
    step-count w e now,
    run-count (step w e now).0 es,
  )

one_listener :
    (w : Worker)
    → count closes_listener (close_listener_of w)
        + count closes_listener (close_transport_of w.transport)
      ≤ 1
one_listener w = ground arith

one_transport :
    (w : Worker)
    → count closes_transport (close_listener_of w)
        + count closes_transport (close_transport_of w.transport)
      ≤ 1
one_transport w = ground arith

-- Whatever calls change a worker, in whatever order, its listener and its transport are each
-- closed once at most, and not at all when it was stopping before.
pub run-closings :
    (w : Worker) (es : List (Event × ℕ))
    → (count closes_listener (run w es).1 ≤ (if w.stopping then 0 else 1))
      × (count closes_transport (run w es).1 ≤ (if w.stopping then 0 else 1))
run-closings w es = (
  run-count closes_listener refl (λ c. refl) one_listener w es,
  run-count closes_transport refl (λ c. refl) one_transport w es,
)

-- Every closing of a pair follows its opening, when so many pairs are open at the start.
abbrev pub IsBracketed : ℕ → List (Event × ℕ) → Type 0
IsBracketed n [] = Unit
IsBracketed n ((Event.pair_opened _ _, _) ∷ es) = IsBracketed (n + 1) es
IsBracketed n ((Event.pair_closed _ _, _) ∷ es) = (1 ≤ n) × IsBracketed (n - 1) es
IsBracketed n (_ ∷ es) = IsBracketed n es

abbrev pub opened : List (Event × ℕ) → ℕ
opened [] = 0
opened ((Event.pair_opened _ _, _) ∷ es) = suc (opened es)
opened (_ ∷ es) = opened es

abbrev pub closed_pairs : List (Event × ℕ) → ℕ
closed_pairs [] = 0
closed_pairs ((Event.pair_closed _ _, _) ∷ es) = suc (closed_pairs es)
closed_pairs (_ ∷ es) = closed_pairs es

step-IsBracketed :
    (w : Worker) (e : Event) (now : ℕ) (es : List (Event × ℕ))
    → IsBracketed w.pairs ((e, now) ∷ es)
    → IsBracketed (step w e now).0.pairs es
      × ((step w e now).0.pairs + closed_pairs ((e, now) ∷ es) + opened es
          ≡ w.pairs + opened ((e, now) ∷ es) + closed_pairs es)
      × (w.state.active_connections ≡ w.pairs
          → (step w e now).0.state.active_connections ≡ (step w e now).0.pairs)
unfolding step
step-IsBracketed w (Event.status s message) now es b = (b, omega arith, λ a. a)
step-IsBracketed w (Event.pair_opened left right) now es b = (b, omega arith, λ a. refl)
step-IsBracketed w (Event.pair_closed left right) now es (o, b) = (b, omega (arith, o), λ a. refl)
step-IsBracketed w (Event.sent n) now es b = (b, omega arith, λ a. a)
step-IsBracketed w (Event.received n) now es b = (b, omega arith, λ a. a)
step-IsBracketed w Event.close now es b = elim (Bool-cases w.stopping) [
  | inl s ↦ rw s (b, omega arith, λ a. a)
  | inr s ↦ rw s (b, omega arith, λ a. a)
]
step-IsBracketed w Event.hand_over now es b = elim (Bool-cases w.stopping) [
  | inl s ↦ rw s (b, omega arith, λ a. a)
  | inr s ↦ rw s (b, omega arith, λ a. a)
]

-- When every pair of connections is closed after it was opened, the connections that a tunnel
-- shows as active are those opened and not closed, whatever else happens to it between.
pub run-active_connections :
    (w : Worker) (es : List (Event × ℕ))
    → w.state.active_connections ≡ w.pairs
    → IsBracketed w.pairs es
    → (run w es).0.state.active_connections + closed_pairs es
      ≡ w.state.active_connections + opened es
unfolding run
run-active_connections w [] a b = omega arith
run-active_connections w ((e, now) ∷ es) a b =
    let (b', n, keep) = step-IsBracketed w e now es b in
    omega (arith, run-active_connections (step w e now).0 es (keep a) b', n, a, keep a)
