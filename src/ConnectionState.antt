-- ===== src/ConnectionState.antt =====
-- internal/connectionstate/tracker.go: what the application shows of each server's connection.
-- A method takes the tracker, and `now` where the code calls `now()`, and returns the tracker with
-- the states that it publishes. The mutex makes each method one step.
pub mod Events
pub mod Isolation
pub mod Invariant
pub mod Shown
mod Tests
use myapptest.Common.{
  ℤ, int_eq, string_eq, String, Bool, true, false, ◌&&◌, ◌||◌, Option, none, some, List, [], ◌∷◌,
  if◌then◌else◌, any, Dict, insert, delete, put,
}
use myapptest.Domain.{ConnectionStatus, SftpStatus, ConnectionError, ConnectionRuntimeState}
use myapptest.ConnectionError.{status_for_code}

-- A terminal's status, a string that the code compares with two literals.
pub data TerminalStatus : Type 0 where
  connecting online : TerminalStatus
  other : String → TerminalStatus

-- Go's `record`.
pub record ServerRecord : Type 0 where
  pub monitor_status : ConnectionStatus
  pub monitor_active : Bool
  pub terminals : Dict String TerminalStatus
  pub sftp_status : SftpStatus
  pub sftp_active : Bool
  pub disconnecting : Bool
  pub last_error : Option ConnectionError

pub record Tracker : Type 0 where
  pub records : ℤ → Option ServerRecord
  pub blocked : ℤ → Bool
  pub emits : Bool  -- `t.emit != nil`

-- The fields of a `MonitorSnapshot` that the tracker reads.
pub record MonitorSnapshot : Type 0 where
  pub connection_id : ℤ
  pub status : ConnectionStatus
  pub monitor_active : Bool
  pub connection_error : Option ConnectionError

-- The fields of an `SFTPState` that the tracker reads.
pub record SftpState : Type 0 where
  pub connection_id : ℤ
  pub status : SftpStatus
  pub active : Bool

abbrev pub is_terminal_online : String × TerminalStatus → Bool
is_terminal_online (_, TerminalStatus.online) = true
is_terminal_online (_, _) = false

abbrev pub is_terminal_connecting : String × TerminalStatus → Bool
is_terminal_connecting (_, TerminalStatus.connecting) = true
is_terminal_connecting (_, _) = false

-- `status == StatusConnecting || status == StatusOnline`
abbrev is_rising : ConnectionStatus → Bool
is_rising ConnectionStatus.connecting = true
is_rising ConnectionStatus.online = true
is_rising _ = false

-- `status == StatusConnecting || status == StatusReconnecting`
abbrev is_trying : ConnectionStatus → Bool
is_trying ConnectionStatus.connecting = true
is_trying ConnectionStatus.reconnecting = true
is_trying _ = false

abbrev is_online : ConnectionStatus → Bool
is_online ConnectionStatus.online = true
is_online _ = false

abbrev is_disconnected : ConnectionStatus → Bool
is_disconnected ConnectionStatus.disconnected = true
is_disconnected _ = false

abbrev is_sftp_connecting : SftpStatus → Bool
is_sftp_connecting SftpStatus.connecting = true
is_sftp_connecting _ = false

abbrev pub is_sftp_live : SftpStatus → Bool
is_sftp_live SftpStatus.connecting = true
is_sftp_live SftpStatus.online = true
is_sftp_live _ = false

-- The `switch` that ends `buildState`.
shown_status : Bool → Bool → Option ConnectionError → Bool → ConnectionStatus → ConnectionStatus
shown_status disconnecting live last_error trying monitor =
    if disconnecting
    then ConnectionStatus.disconnecting
    else if live || is_online monitor
    then ConnectionStatus.online
    else elim last_error [
      | some failure ↦ status_for_code failure.code
      | none ↦
          if trying
          then ConnectionStatus.connecting
          else if is_disconnected monitor
          then ConnectionStatus.disconnected
          else ConnectionStatus.offline
    ]

pub build_state : ℤ → ServerRecord → String → ConnectionRuntimeState
unfolding shown_status
build_state id current now =
    let terminal_active = any is_terminal_online current.terminals in
    let terminal_connecting = any is_terminal_connecting current.terminals in
    let trying =
      terminal_connecting
      || (current.sftp_active && is_sftp_connecting current.sftp_status)
      || (current.monitor_active && is_trying current.monitor_status) in
    record {
      connection_id = id;
      status =
          shown_status current.disconnecting (terminal_active || current.sftp_active)
            current.last_error trying current.monitor_status;
      monitor_active = current.monitor_active;
      terminal_active = terminal_active;
      terminal_connecting = terminal_connecting;
      sftp_active = current.sftp_active;
      connecting = trying;
      has_active_session =
          current.monitor_active || terminal_active || terminal_connecting || current.sftp_active;
      last_error = current.last_error;
      updated_at = now;
    }

-- The state of a connection with no record.
pub absent_state : ℤ → String → ConnectionRuntimeState
absent_state id now = record {
  connection_id = id;
  status = ConnectionStatus.offline;
  monitor_active = false;
  terminal_active = false;
  terminal_connecting = false;
  sftp_active = false;
  connecting = false;
  has_active_session = false;
  last_error = none;
  updated_at = now;
}

unfoldable pub new : Bool → Tracker
new emits = record { records = λ _. none; blocked = λ _. false; emits = emits }

abbrev pub fresh_record : ServerRecord
fresh_record = record {
  monitor_status = ConnectionStatus.offline;
  monitor_active = false;
  terminals = [];
  sftp_status = SftpStatus.other "";
  sftp_active = false;
  disconnecting = false;
  last_error = none;
}

-- `t.record(id)`, which makes a record where there is none.
pub current_record : Tracker → ℤ → ServerRecord
current_record t id = elim (t.records id) [ none ↦ fresh_record | some r ↦ r ]

store : Tracker → ℤ → ServerRecord → Tracker
store t id r = record t { records = put id (some r) t.records }

publish : Tracker → ConnectionRuntimeState → List ConnectionRuntimeState
publish t state = if t.emits then state ∷ [] else []

-- Store the record that a method has changed, and publish what it shows.
store_and_publish : Tracker → ℤ → ServerRecord → String → Tracker × List ConnectionRuntimeState
unfolding store publish
store_and_publish t id r now = (store t id r, publish t (build_state id r now))

-- `lastError` after a report with an optional error: a new one replaces it, progress clears it.
abbrev next_error : Option ConnectionError → Bool → Option ConnectionError → Option ConnectionError
next_error (some failure) rising last = some failure
next_error none true last = none
next_error none false last = last

pub update_monitor : Tracker → MonitorSnapshot → String → Tracker × List ConnectionRuntimeState
unfolding store_and_publish current_record
update_monitor t snapshot now =
    let id = snapshot.connection_id in
    let current = current_record t id in
    if t.blocked id
    then (t, [])
    else store_and_publish t id
        (record current {
          monitor_status = snapshot.status;
          monitor_active = snapshot.monitor_active;
          last_error =
              next_error snapshot.connection_error (is_rising snapshot.status) current.last_error;
        })
        now

-- Does the status keep the session in the map?
abbrev pub is_terminal_live : TerminalStatus → Bool
is_terminal_live (TerminalStatus.other _) = false
is_terminal_live _ = true

pub update_terminal :
    Tracker
    → String
    → ℤ
    → TerminalStatus
    → Option ConnectionError
    → String
    → Tracker × List ConnectionRuntimeState
unfolding store_and_publish current_record
update_terminal t session id status failure now =
    let current = current_record t id in
    if t.blocked id
    then (t, [])
    else store_and_publish t id
        (record current {
          terminals =
              if is_terminal_live status
              then insert session status current.terminals
              else delete session current.terminals;
          last_error = next_error failure (is_terminal_live status) current.last_error;
        })
        now

pub update_sftp : Tracker → SftpState → String → Tracker × List ConnectionRuntimeState
unfolding store_and_publish current_record
update_sftp t state now =
    let id = state.connection_id in
    if t.blocked id
    then (t, [])
    else store_and_publish t id
        (record (current_record t id) {
          sftp_status = state.status;
          sftp_active = state.active && is_sftp_live state.status;
        })
        now

pub record_failure : Tracker → ℤ → ConnectionError → String → Tracker × List ConnectionRuntimeState
unfolding store_and_publish current_record
record_failure t id failure now =
    if t.blocked id
    then (t, [])
    else store_and_publish t id (record (current_record t id) { last_error = some failure }) now

pub begin_connect : Tracker → ℤ → Tracker
unfolding store current_record
begin_connect t id =
    let unblocked = record t { blocked = put id false t.blocked } in
    store unblocked id
      (record (current_record unblocked id) { disconnecting = false; last_error = none })

unfoldable pub begin_disconnect : Tracker → ℤ → String → Tracker × List ConnectionRuntimeState
unfolding store_and_publish current_record
begin_disconnect t id now =
    store_and_publish t id (record (current_record t id) { disconnecting = true }) now

unfoldable pub complete_disconnect : Tracker → ℤ → String → Tracker × List ConnectionRuntimeState
unfolding store_and_publish current_record
complete_disconnect t id now =
    store_and_publish (record t { blocked = put id true t.blocked }) id
      (record (current_record t id) {
        disconnecting = false;
        monitor_active = false;
        monitor_status = ConnectionStatus.disconnected;
        terminals = [];
        sftp_status = SftpStatus.offline;
        sftp_active = false;
        last_error = none;
      })
      now

pub remove : Tracker → ℤ → String → Tracker × List ConnectionRuntimeState
unfolding publish absent_state
remove t id now =
    let removed = record t { records = put id none t.records; blocked = put id true t.blocked } in
    (removed, publish t (absent_state id now))

pub get : Tracker → ℤ → String → ConnectionRuntimeState
unfolding build_state absent_state
get t id now = elim (t.records id) [ none ↦ absent_state id now | some r ↦ build_state id r now ]

pub has_terminal_connecting : Tracker → ℤ → String → Bool
unfolding get
has_terminal_connecting t id now = (get t id now).terminal_connecting
