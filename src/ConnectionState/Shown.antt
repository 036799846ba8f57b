-- ===== src/ConnectionState/Shown.antt =====
-- What a call publishes, and what the fields of a shown state say of one another.
use myapptest.Common.{
  ℤ, int_beq_iff, String, Bool, true, false, ◌&&◌, not, none, [], ◌∷◌, ◌≡◌, refl, inl, inr,
  Option-cases, if◌then◌else◌, arith,
}
use myapptest.Domain.{ConnectionStatus}
use myapptest.ConnectionState.{Tracker, MonitorSnapshot, begin_connect, update_monitor, get}
use myapptest.ConnectionState.Events.{Event, subject, is_report, step}

-- Is the call one that publishes? A report does unless its connection is blocked; of the others
-- all do but the one that opens a connection.
abbrev pub publishes : Tracker → Event → Bool
publishes t (Event.connecting id) = false
publishes t e = if is_report e then not (t.blocked (subject e)) else true

-- A call publishes at most one state, exactly when it is to publish and there is a receiver, and
-- that state is what the tracker then shows of the connection.
pub step-publishes :
    (t : Tracker) (e : Event) (now : String)
    → (step t e now).1
      ≡ (if t.emits && publishes t e then get (step t e now).0 (subject e) now ∷ [] else [])
unfolding step get
step-publishes t (Event.monitor s) now = ground (arith, int_beq_iff s.connection_id s.connection_id)
step-publishes t (Event.terminal session id status err) now = ground (arith, int_beq_iff id id)
step-publishes t (Event.sftp s) now = ground (arith, int_beq_iff s.connection_id s.connection_id)
step-publishes t (Event.failure id err) now = ground (arith, int_beq_iff id id)
step-publishes t (Event.connecting id) now = ground (arith, int_beq_iff id id)
step-publishes t (Event.disconnecting id) now = ground (arith, int_beq_iff id id)
step-publishes t (Event.disconnected id) now = ground (arith, int_beq_iff id id)
step-publishes t (Event.removed id) now = ground (arith, int_beq_iff id id)

-- A state that shows a connection attempt or a live terminal also shows an active session, and it
-- carries its connection's id and the time of the call.
pub get_coherent :
    (t : Tracker) (id : ℤ) (now : String)
    → let s = get t id now in
      (s.connecting ≡ true → s.has_active_session ≡ true)
      × (s.terminal_active ≡ true → s.has_active_session ≡ true)
      × (s.connection_id ≡ id)
      × (s.updated_at ≡ now)
unfolding get
get_coherent t id now = elim (Option-cases (t.records id)) [
  | inl e ↦ rw (e, get) (ground arith, ground arith, refl, refl)
  | inr (r, e) ↦ rw (e, get) (ground arith, ground arith, refl, refl)
]

-- Opening a connection again lifts the block and the last error: a monitor report that it is
-- online is then shown as online, whatever happened before.
pub reconnect_online :
    (t : Tracker) (s : MonitorSnapshot) (now later : String)
    → s.status ≡ ConnectionStatus.online
    → s.connection_error ≡ none
    → let shown =
        get (update_monitor (begin_connect t s.connection_id) s now).0 s.connection_id later in
      (shown.status ≡ ConnectionStatus.online)
      × (shown.last_error ≡ none)
      × (shown.monitor_active ≡ s.monitor_active)
unfolding get update_monitor begin_connect
reconnect_online t s now later online clean =
    rw (online, clean) (ground (arith, int_beq_iff s.connection_id s.connection_id))
