-- ===== src/ConnectionState/Invariant.antt =====
-- What holds of every tracker that the calls can make.
use myapptest.Common.{
  ℤ, int_beq_iff, Option-cases, if◌then◌else◌, insert, delete, Dict, string_eq, String, Bool, true,
  false, Option, some, none, List, [], ◌∷◌, ◌≡◌, refl, inl, inr, All, All-insert, All-delete, arith,
}
use myapptest.ConnectionState.{
  Tracker, ServerRecord, TerminalStatus, is_sftp_live, is_terminal_live, new, get,
}
use myapptest.ConnectionState.Events.{Event, step, run}

-- A terminal that is kept is connecting or online.
abbrev pub IsLive : TerminalStatus → Type 0
IsLive (TerminalStatus.other s) = ⊥
IsLive _ = Unit

abbrev pub AllLive : Dict String TerminalStatus → Type 0
AllLive = All (λ (kv : String × TerminalStatus). IsLive kv.1)

-- Only live terminals are kept, and an active file session is connecting or online.
abbrev pub IsSound : ServerRecord → Type 0
IsSound r = AllLive r.terminals × (r.sftp_active ≡ true → is_sftp_live r.sftp_status ≡ true)

-- No monitor, terminal or file session.
abbrev pub IsIdle : ServerRecord → Type 0
IsIdle r = (r.monitor_active ≡ false) × (r.terminals ≡ []) × (r.sftp_active ≡ false)

-- For each connection: its record is sound, and idle while the connection is blocked.
abbrev pub IsValidAt : Option ServerRecord → Bool → Type 0
IsValidAt none blocked = Unit
IsValidAt (some r) blocked = IsSound r × (blocked ≡ true → IsIdle r)

abbrev pub IsValid : Tracker → Type 0
IsValid t = (id : ℤ) → IsValidAt (t.records id) (t.blocked id)

terminals_live :
    (session : String) (status : TerminalStatus) (m : Dict String TerminalStatus)
    → AllLive m
    → AllLive (if is_terminal_live status then insert session status m else delete session m)
terminals_live session TerminalStatus.connecting m h = All-insert IsLive session _ m tt h
terminals_live session TerminalStatus.online m h = All-insert IsLive session _ m tt h
terminals_live session (TerminalStatus.other s) m h = All-delete IsLive session m h

step-IsValidAt :
    (t : Tracker) (e : Event) (now : String) (id : ℤ)
    → IsValidAt (t.records id) (t.blocked id)
    → IsValidAt ((step t e now).0.records id) ((step t e now).0.blocked id)
unfolding step
step-IsValidAt t (Event.monitor s) now id h = ground (arith, int_beq_iff id s.connection_id)
step-IsValidAt t (Event.terminal session i status err) now id h =
    elim (Option-cases (t.records id)) [
      | inl e ↦ ground (arith, int_beq_iff id i, terminals_live session status [] tt)
      | inr (r, e) ↦ ground (arith, int_beq_iff id i, terminals_live session status r.terminals)
    ]
step-IsValidAt t (Event.sftp s) now id h = ground (arith, int_beq_iff id s.connection_id)
step-IsValidAt t (Event.failure i err) now id h = ground (arith, int_beq_iff id i)
step-IsValidAt t (Event.connecting i) now id h = ground (arith, int_beq_iff id i)
step-IsValidAt t (Event.disconnecting i) now id h = ground (arith, int_beq_iff id i)
step-IsValidAt t (Event.disconnected i) now id h = ground (arith, int_beq_iff id i)
step-IsValidAt t (Event.removed i) now id h = ground (arith, int_beq_iff id i)

run-IsValid : (t : Tracker) (es : List (Event × String)) → IsValid t → IsValid (run t es)
unfolding run
run-IsValid t [] h = h
run-IsValid t ((e, now) ∷ es) h =
    run-IsValid (step t e now).0 es (λ id. step-IsValidAt t e now id (h id))

new-IsValid : (emits : Bool) → IsValid (new emits)
unfolding new
new-IsValid emits id = tt

-- Every tracker made by calls from a new one is valid, for every connection: its record keeps
-- only live terminals, its file session is active only when connecting or online, and it is idle
-- as long as the connection is blocked.
pub reachable-IsValid : (emits : Bool) (es : List (Event × String)) → IsValid (run (new emits) es)
reachable-IsValid emits es = run-IsValid (new emits) es (new-IsValid emits)

get_of_IsValidAt :
    (t : Tracker) (id : ℤ) (now : String)
    → IsValidAt (t.records id) (t.blocked id)
    → t.blocked id ≡ true
    → (get t id now).has_active_session ≡ false
unfolding get
get_of_IsValidAt t id now h b = elim (Option-cases (t.records id)) [
  | inl e ↦ rw (e, get) refl
  | inr (r, e) ↦ ground arith
]

-- In every tracker made by calls from a new one, a blocked connection shows no active session.
pub blocked_no_session :
    (emits : Bool) (es : List (Event × String)) (id : ℤ) (now : String)
    → (run (new emits) es).blocked id ≡ true
    → (get (run (new emits) es) id now).has_active_session ≡ false
blocked_no_session emits es id now =
    get_of_IsValidAt (run (new emits) es) id now (reachable-IsValid emits es id)
