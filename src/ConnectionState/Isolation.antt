-- ===== src/ConnectionState/Isolation.antt =====
-- A call changes what is shown of its own connection only, and a connection that was disconnected
-- or removed ignores late reports.
use myapptest.Common.{
  ℤ, int_beq, int_beq_iff, Bool-cases, ap, String, true, false, none, List, [], ◌∷◌, ◌≢◌, ◌≡◌, refl,
  ◌⊎◌, inl, inr, ◌∙◌, All, arith,
}
use myapptest.Domain.{ConnectionStatus, ConnectionRuntimeState}
use myapptest.ConnectionState.{Tracker, absent_state, complete_disconnect, remove, get}
use myapptest.ConnectionState.Events.{Event, subject, is_report, step, run}

-- Every call leaves the record and the block of every other connection as they were.
pub step-other :
    (t : Tracker) (e : Event) (now : String) (j : ℤ)
    → subject e ≢ j
    → ((step t e now).0.records j ≡ t.records j) × ((step t e now).0.blocked j ≡ t.blocked j)
unfolding step
step-other t (Event.monitor s) now j h = ground (arith, int_beq_iff j s.connection_id)
step-other t (Event.terminal session id status err) now j h = ground (arith, int_beq_iff j id)
step-other t (Event.sftp s) now j h = ground (arith, int_beq_iff j s.connection_id)
step-other t (Event.failure id err) now j h = ground (arith, int_beq_iff j id)
step-other t (Event.connecting id) now j h = ground (arith, int_beq_iff j id)
step-other t (Event.disconnecting id) now j h = ground (arith, int_beq_iff j id)
step-other t (Event.disconnected id) now j h = ground (arith, int_beq_iff j id)
step-other t (Event.removed id) now j h = ground (arith, int_beq_iff j id)

-- A report about a blocked connection changes nothing and publishes nothing.
pub step-blocked :
    (t : Tracker) (e : Event) (now : String)
    → is_report e ≡ true
    → t.blocked (subject e) ≡ true
    → step t e now ≡ (t, [])
unfolding step
step-blocked t (Event.monitor s) now r h = ground arith
step-blocked t (Event.terminal session id status err) now r h = ground arith
step-blocked t (Event.sftp s) now r h = ground arith
step-blocked t (Event.failure id err) now r h = ground arith
step-blocked t (Event.connecting id) now r h = cc
step-blocked t (Event.disconnecting id) now r h = cc
step-blocked t (Event.disconnected id) now r h = cc
step-blocked t (Event.removed id) now r h = cc

-- Calls that leave a blocked connection alone: all reports, and what is about others.
abbrev pub IsQuiet : ℤ → Event × String → Type 0
IsQuiet id (e, now) = (is_report e ≡ true) ⊎ (subject e ≢ id)

quiet_step :
    (t : Tracker) (id : ℤ) (e : Event) (now : String)
    → t.blocked id ≡ true
    → IsQuiet id (e, now)
    → ((step t e now).0.records id ≡ t.records id) × ((step t e now).0.blocked id ≡ true)
quiet_step t id e now b (inr h) = let (same, block) = step-other t e now id h in (same, block ∙ b)
quiet_step t id e now b (inl h) = elim (Bool-cases (int_beq (subject e) id)) [
  | inl same ↦
      let p = (int_beq_iff (subject e) id).0 same in
      rw (step-blocked t e now h (ap t.blocked p ∙ b)) (refl, b)
  | inr distinct ↦
      let (same, block) =
        step-other t e now id (λ p. cc (distinct, (int_beq_iff (subject e) id).1 p)) in
      (same, block ∙ b)
]

run-blocked :
    (t : Tracker) (id : ℤ) (es : List (Event × String))
    → t.blocked id ≡ true
    → All (IsQuiet id) es
    → (run t es).records id ≡ t.records id
unfolding run
run-blocked t id [] b h = refl
run-blocked t id ((e, now) ∷ es) b (q, h) =
    let (same, block) = quiet_step t id e now b q in
    run-blocked (step t e now).0 id es block h ∙ same

-- What a disconnected connection shows.
abbrev pub disconnected_state : ℤ → String → ConnectionRuntimeState
disconnected_state id now = record {
  connection_id = id;
  status = ConnectionStatus.disconnected;
  monitor_active = false;
  terminal_active = false;
  terminal_connecting = false;
  sftp_active = false;
  connecting = false;
  has_active_session = false;
  last_error = none;
  updated_at = now;
}

complete_disconnect-blocked :
    (t : Tracker) (id : ℤ) (now : String) → (complete_disconnect t id now).0.blocked id ≡ true
unfolding complete_disconnect
complete_disconnect-blocked t id now = ground (arith, int_beq_iff id id)

remove-blocked : (t : Tracker) (id : ℤ) (now : String) → (remove t id now).0.blocked id ≡ true
unfolding remove
remove-blocked t id now = ground (arith, int_beq_iff id id)

get_record :
    (t u : Tracker) (id : ℤ) (now : String)
    → t.records id ≡ u.records id
    → get t id now ≡ get u id now
unfolding get
get_record t u id now h = rw (h, get) refl

get-complete_disconnect :
    (t : Tracker) (id : ℤ) (now later : String)
    → get (complete_disconnect t id now).0 id later ≡ disconnected_state id later
unfolding get complete_disconnect
get-complete_disconnect t id now later = ground (arith, int_beq_iff id id)

get-remove :
    (t : Tracker) (id : ℤ) (now later : String)
    → get (remove t id now).0 id later ≡ absent_state id later
unfolding get remove
get-remove t id now later = ground (arith, int_beq_iff id id)

-- After a disconnect of a connection, any reports about it and any calls about other connections,
-- in any number and order, leave it shown as disconnected, with no session, terminal or error.
pub disconnect-final :
    (t : Tracker) (id : ℤ) (now later : String) (es : List (Event × String))
    → All (IsQuiet id) es
    → get (run (complete_disconnect t id now).0 es) id later ≡ disconnected_state id later
disconnect-final t id now later es quiet =
    let u = (complete_disconnect t id now).0 in
    get_record (run u es) u id later
      (run-blocked u id es (complete_disconnect-blocked t id now) quiet)
    ∙ get-complete_disconnect t id now later

-- After a removal, too, late reports do not bring the connection back.
pub remove-final :
    (t : Tracker) (id : ℤ) (now later : String) (es : List (Event × String))
    → All (IsQuiet id) es
    → get (run (remove t id now).0 es) id later ≡ absent_state id later
remove-final t id now later es quiet =
    let u = (remove t id now).0 in
    get_record (run u es) u id later (run-blocked u id es (remove-blocked t id now) quiet)
    ∙ get-remove t id now later

-- What is shown of a connection depends on the calls about it alone: calls about others, in any
-- number and order, leave it as it was.
pub get-run_other :
    (t : Tracker) (j : ℤ) (later : String) (es : List (Event × String))
    → All (λ (e : Event × String). subject e.0 ≢ j) es
    → get (run t es) j later ≡ get t j later
unfolding run
get-run_other t j later [] h = refl
get-run_other t j later ((e, now) ∷ es) (other, h) =
    get-run_other (step t e now).0 j later es h
    ∙ get_record (step t e now).0 t j later (step-other t e now j other).0
