-- ===== src/Tunnel/Stopped.antt =====
-- Which tunnels a stop takes from the table.
use myapptest.Common.{
  ℕ, ℤ, int_eq, Bool, true, false, Option, none, some, [], ◌∷◌, Text, if◌then◌else◌, ◌==◌, ◌||◌,
  ◌&&◌, not, is_positive, nat_eq, list_eq, lookup, insert, delete, any, lookup-delete,
  lookup-insert, ◌≡◌, ◌≢◌, refl, sym, ap, ◌∙◌, arith, Option-cases, Bool-cases, inl, inr, eq_of_==,
}
use myapptest.Tunnel.Worker.{set_status, close_runtime_resources, TunnelStatus, Worker}
use myapptest.Tunnel.Stopping.{
  Table, Release, stop_worker, stop_each, workers_for, stop_server, stop, StopError, stop_error,
}

abbrev has_key : Text → Table → Bool
has_key id table = any (λ (entry : Text × Worker). entry.0 == id) table

-- No id is there twice.
abbrev pub IsTable : Table → Type 0
IsTable [] = Unit
IsTable ((id, w) ∷ rest) = (lookup id rest ≡ none) × IsTable rest

stop_worker-unverified :
    (table : Table) (id : Text) (w : Worker) (now : ℕ)
    → ((stop_worker none table id w now).0 ≡ delete id table)
      × ((stop_worker none table id w now).2 ≡ none)
unfolding stop_worker
stop_worker-unverified table id w now = (refl, refl)

either_gone :
    (a b : Bool) (x : Option Worker)
    → (if b then none else (if a then none else x)) ≡ (if a || b then none else x)
either_gone a b x = ground arith

some_not_none : (w : Worker) → some w ≢ none
some_not_none w e = ground (arith, e)

stop_each-lookup :
    (table stopped : Table) (now : ℕ) (id : Text)
    → lookup id (stop_each none table stopped now).0
      ≡ (if has_key id stopped then none else lookup id table)
unfolding stop_each
stop_each-lookup table [] now id = refl
stop_each-lookup table ((k, w) ∷ rest) now id =
    stop_each-lookup (delete k table) rest now id
    ∙ ap (λ (x : Option Worker). if has_key id rest then none else x) (lookup-delete table k id)
    ∙ either_gone (k == id) (has_key id rest) (lookup id table)

no_key :
    (test : Worker → Bool) (table : Table) (id : Text)
    → lookup id table ≡ none
    → has_key id (workers_for test table) ≡ false
unfolding lookup
no_key test [] id h = refl
no_key test ((k, w) ∷ rest) id h = elim (Bool-cases (k == id)) [
  | inl e ↦ absurd (some_not_none w (sym (found e) ∙ h))
  | inr e ↦ elim (Bool-cases (test w)) [
    | inl t ↦ rw (t, e) (no_key test rest id (sym (later e) ∙ h))
    | inr t ↦ rw t (no_key test rest id (sym (later e) ∙ h))
  ]
]
  where
    found : k == id ≡ true → lookup id ((k, w) ∷ rest) ≡ some w
    found e = rw e refl

    later : k == id ≡ false → lookup id ((k, w) ∷ rest) ≡ lookup id rest
    later e = rw e refl

-- A table without the workers that a test holds of.
abbrev pub without : (Worker → Bool) → Option Worker → Option Worker
without test none = none
without test (some w) = if test w then none else some w

kept :
    (test : Worker → Bool) (table : Table) (id : Text)
    → IsTable table
    → (if has_key id (workers_for test table) then none else lookup id table)
      ≡ without test (lookup id table)
unfolding lookup
kept test [] id h = refl
kept test ((k, w) ∷ rest) id (n, h) = elim (Bool-cases (k == id)) [
  | inl e ↦ elim (Bool-cases (test w)) [
    | inl t ↦ rw (e, t, e) refl
    | inr t ↦
        rw
          (e, t, no_key test rest id (ap (λ (j : Text). lookup j rest) (sym (eq_of_== k id e)) ∙ n))
          refl
  ]
  | inr e ↦ elim (Bool-cases (test w)) [
    | inl t ↦ rw (e, t, e) (kept test rest id h)
    | inr t ↦ rw (e, t) (kept test rest id h)
  ]
]

-- To stop a server's tunnels takes these from the table, and leaves every other as it is.
pub stop_server-lookup :
    (table : Table) (server : ℤ) (now : ℕ) (id : Text)
    → IsTable table
    → lookup id (stop_server table server now).0
      ≡ without (λ w. w.state.server_id == server) (lookup id table)
unfolding stop_server
stop_server-lookup table server now id h =
    stop_each-lookup table (workers_for (λ w. w.state.server_id == server) table) now id
    ∙ kept (λ w. w.state.server_id == server) table id h

-- The worker of a tunnel that has not released its port.
abbrev pub unreleased : Worker → Text → ℕ → Worker
unreleased w message now = record w {
  stopping = true;
  state = record w.state { status = TunnelStatus.failed; error = message; updated_at = now };
}

-- What the check of the port says when the worker is stopped: the transport is there for it if
-- nothing has stopped the worker before.
abbrev pub port_error : Release → Worker → Option Text
port_error release w = release w.state (if w.stopping then none else w.transport)

-- What is under the id then, and the table.
abbrev pub after_stop : Option Text → Worker → ℕ → Option Worker
after_stop none w now = none
after_stop (some message) w now = some (unreleased w message now)

abbrev table_after : Option Text → Table → Text → Worker → ℕ → Table
table_after none table id w now = delete id table
table_after (some message) table id w now = insert id (unreleased w message now) table

table_after-lookup :
    (error : Option Text) (table : Table) (id : Text) (w : Worker) (now : ℕ) (j : Text)
    → lookup j (table_after error table id w now)
      ≡ (if id == j then after_stop error w now else lookup j table)
table_after-lookup none table id w now j = lookup-delete table id j
table_after-lookup (some m) table id w now j = lookup-insert table id j (unreleased w m now)

stop_worker-verified :
    (release : Release) (table : Table) (id : Text) (w : Worker) (now : ℕ)
    → ((stop_worker (some release) table id w now).0
        ≡ table_after (port_error release w) table id w now)
      × ((stop_worker (some release) table id w now).2 ≡ port_error release w)
unfolding stop_worker set_status close_runtime_resources
stop_worker-verified release table id w now = elim (Bool-cases w.stopping) [
  | inl s ↦ elim (Option-cases (release w.state none)) [
    | inl r ↦ rw (s, r, stop_worker) (refl, refl)
    | inr (m, r) ↦ rw (s, r, stop_worker, close_runtime_resources, set_status, s) (refl, refl)
  ]
  | inr s ↦ elim (Option-cases (release w.state w.transport)) [
    | inl r ↦ rw (s, r, stop_worker) (refl, refl)
    | inr (m, r) ↦ rw (s, r, stop_worker, close_runtime_resources, set_status, s) (refl, refl)
  ]
]

-- A stop for a server that the tunnel is not of changes nothing. Any other stop of a tunnel in the
-- table takes it from there, or, when its port is not released, keeps it as failed and gives the
-- error; and it leaves every other tunnel as it is.
pub stop-lookup :
    (release : Release) (table : Table) (server : ℤ) (id : Text) (now : ℕ) (w : Worker)
    → lookup id table ≡ some w
    → let foreign = is_positive server && not (w.state.server_id == server) in
      (foreign ≡ true
        → stop release table server id now ≡ (table, [], some StopError.not_of_server))
      × (foreign ≡ false
          → ((stop release table server id now).2 ≡ stop_error (port_error release w))
            × ((j : Text)
                → lookup j (stop release table server id now).0
                  ≡ (if id == j then after_stop (port_error release w) w now else lookup j table)))
unfolding stop
stop-lookup release table server id now w h =
    let (t, e) = stop_worker-verified release table id w now in
    (
      λ f. rw (h, stop, f) refl,
      λ f. (
        rw (h, stop, f) (ap stop_error e),
        λ j.
            rw (h, stop, f)
              (ap (lookup j) t ∙ table_after-lookup (port_error release w) table id w now j),
      ),
    )
