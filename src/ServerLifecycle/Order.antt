-- ===== src/ServerLifecycle/Order.antt =====
-- Which managers a disconnect calls, and in which order.
use myapptest.Common.{ℤ, Bool, true, false, Option, none, some, List, [], ◌∷◌, ◌++◌, ◌≡◌, refl}
use mathlib.Core.List.{append-nil, append_assoc}
use myapptest.ServerLifecycle.{
  StateTracker, Coordinator, stop_of, begin_of, complete_of, stop_managers, disconnect,
}

pub data Call : Type 0 where
  begin monitor terminal sftp tunnel docker process batch service network complete : Call

abbrev pub Log : Type 0
Log = List (Call × ℤ)

-- Which managers are there.
pub record Present : Type 0 where
  pub has_monitor : Bool
  pub has_terminal : Bool
  pub has_sftp : Bool
  pub has_tunnel : Bool
  pub has_docker : Bool
  pub has_process : Bool
  pub has_batch : Bool
  pub has_service : Bool
  pub has_network : Bool
  pub has_states : Bool

abbrev logging : Bool → Call → Option (ℤ → Log → Log)
logging true k = some (λ id w. w ++ (k, id) ∷ [])
logging false k = none

abbrev logging_tracker : Bool → Option (StateTracker Log)
logging_tracker true = some (record {
  begin_disconnect = λ id w. w ++ (Call.begin, id) ∷ [];
  complete_disconnect = λ id w. w ++ (Call.complete, id) ∷ [];
})
logging_tracker false = none

-- A coordinator whose managers only write down that they were called.
abbrev pub recorder : Present → Coordinator Log
recorder p = record {
  monitor = logging p.has_monitor Call.monitor;
  terminal = logging p.has_terminal Call.terminal;
  sftp = logging p.has_sftp Call.sftp;
  tunnel = logging p.has_tunnel Call.tunnel;
  docker = logging p.has_docker Call.docker;
  process = logging p.has_process Call.process;
  batch = logging p.has_batch Call.batch;
  service = logging p.has_service Call.service;
  network = logging p.has_network Call.network;
  states = logging_tracker p.has_states;
}

abbrev pub entry : Bool → Call → ℤ → Log
entry true k id = (k, id) ∷ []
entry false k id = []

stop_of-logging :
    (b : Bool) (k : Call) (id : ℤ) (w : Log) → stop_of (logging b k) id w ≡ w ++ entry b k id
unfolding stop_of
stop_of-logging true k id w = refl
stop_of-logging false k id w = rw append-nil

begin_of-logging :
    (b : Bool) (id : ℤ) (w : Log) → begin_of (logging_tracker b) id w ≡ w ++ entry b Call.begin id
unfolding begin_of
begin_of-logging true id w = refl
begin_of-logging false id w = rw append-nil

complete_of-logging :
    (b : Bool) (id : ℤ) (w : Log)
    → complete_of (logging_tracker b) id w ≡ w ++ entry b Call.complete id
unfolding complete_of
complete_of-logging true id w = refl
complete_of-logging false id w = rw append-nil

ruleset log_laws = (stop_of-logging, begin_of-logging, complete_of-logging, append_assoc)

-- A disconnect calls each manager that is there once, with the server's id and in a fixed order,
-- between the begin and the completion of the disconnect, whichever managers are missing.
pub disconnect_order :
    (p : Present) (id : ℤ) (w : Log)
    → disconnect (recorder p) id w
      ≡ w
        ++ entry p.has_states Call.begin id
        ++ entry p.has_monitor Call.monitor id
        ++ entry p.has_terminal Call.terminal id
        ++ entry p.has_sftp Call.sftp id
        ++ entry p.has_tunnel Call.tunnel id
        ++ entry p.has_docker Call.docker id
        ++ entry p.has_process Call.process id
        ++ entry p.has_batch Call.batch id
        ++ entry p.has_service Call.service id
        ++ entry p.has_network Call.network id
        ++ entry p.has_states Call.complete id
unfolding disconnect stop_managers
disconnect_order p id w = simp log_laws
