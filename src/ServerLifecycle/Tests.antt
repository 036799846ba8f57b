-- ===== src/ServerLifecycle/Tests.antt =====
-- The theorems of the disconnect at concrete coordinators.
use myapptest.Common.{ℤ, String, true, false, some, none, List, [], ◌∷◌, ◌≡◌, refl, inl}
use myapptest.ConnectionState
use myapptest.ConnectionState.{Tracker, TerminalStatus, begin_disconnect, complete_disconnect}
use myapptest.ConnectionState.Events.{Event, step, run}
use myapptest.ConnectionState.Isolation.{disconnected_state}
use myapptest.ServerLifecycle.{StateTracker, Coordinator, disconnect}
use myapptest.ServerLifecycle.Order.{Present}
use myapptest.ServerLifecycle.Final.{Tracked, disconnect_shows_disconnected}

-- Only the monitor, the tunnels and the tracker are there.
abbrev some_present : Present
some_present = record {
  has_monitor = true;
  has_terminal = false;
  has_sftp = false;
  has_tunnel = true;
  has_docker = false;
  has_process = false;
  has_batch = false;
  has_service = false;
  has_network = false;
  has_states = true;
}

abbrev real_tracker : StateTracker Tracker
real_tracker = record {
  begin_disconnect = λ id t. (begin_disconnect t id "t1").0;
  complete_disconnect = λ id t. (complete_disconnect t id "t2").0;
}

abbrev real_tracked : Tracked Tracker
real_tracked = record {
  tracker = λ t. t;
  states = real_tracker;
  now = λ t. "t2";
  completes = λ id t. refl;
}

-- The terminal manager reports, while it stops, that its session is online.
abbrev noisy_terminal : ℤ → Tracker → Tracker
noisy_terminal id t = (step t (Event.terminal "a" id TerminalStatus.online none) "t1").0

abbrev noisy : Coordinator Tracker
noisy = record {
  monitor = none;
  terminal = some noisy_terminal;
  sftp = none;
  tunnel = none;
  docker = none;
  process = none;
  batch = none;
  service = none;
  network = none;
  states = some real_tracker;
}

abbrev late_report : List (Event × String)
late_report = (Event.terminal "a" (ℤ.pos 7) TerminalStatus.online none, "t3") ∷ []

disconnect_shows_disconnected_example :
    ConnectionState.get
      (run (disconnect noisy (ℤ.pos 7) (ConnectionState.new true)) late_report)
      (ℤ.pos 7)
      "t4"
    ≡ disconnected_state (ℤ.pos 7) "t4"
disconnect_shows_disconnected_example =
    disconnect_shows_disconnected real_tracked noisy (ℤ.pos 7) (ConnectionState.new true) "t4"
      late_report refl (inl refl, tt)
