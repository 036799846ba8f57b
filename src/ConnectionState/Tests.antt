-- ===== src/ConnectionState/Tests.antt =====
-- Runs of the tracker, and its theorems at concrete inputs.
use myapptest.Common.{
  ℤ, int_eq, String, true, false, none, List, [], ◌∷◌, ◌≡◌, refl, inl, inr, arith, codes, insert,
}
use myapptest.Domain.{ConnectionStatus, ErrorCode, ConnectionError}
use myapptest.ConnectionError.{status_for_code}
use myapptest.ConnectionState.{
  MonitorSnapshot, TerminalStatus, absent_state, new, complete_disconnect, remove, get,
}
use myapptest.ConnectionState.Events.{Event, step, run}
use myapptest.ConnectionState.Isolation.{
  disconnected_state, disconnect-final, remove-final, step-blocked,
}
use myapptest.ConnectionState.Invariant.{IsValidAt, reachable-IsValid}
use myapptest.ConnectionState.Shown.{step-publishes}

abbrev online_snapshot : MonitorSnapshot
online_snapshot = record {
  connection_id = ℤ.pos 7;
  status = ConnectionStatus.online;
  monitor_active = true;
  connection_error = none;
}

abbrev refusal : ConnectionError
refusal = record {
  code = ErrorCode.refused;
  user_message = codes "refused";
  technical_message = codes "connection refused";
  retryable = true;
  server_id = ℤ.pos 7;
  operation = "monitor.connect";
  timestamp = "t0";
  stage = "";
  credential_server_id = ℤ.pos 0;
  credential_server_name = "";
  credential_from_store = false;
  expected_fingerprint = [];
  observed_fingerprint = [];
}

abbrev session_calls : List (Event × String)
session_calls =
    (Event.connecting (ℤ.pos 7), "t1")
    ∷ (Event.monitor online_snapshot, "t2")
    ∷ (Event.terminal "a" (ℤ.pos 7) TerminalStatus.online none, "t3")
    ∷ []

abbrev late_calls : List (Event × String)
late_calls =
    (Event.monitor online_snapshot, "t5")
    ∷ (Event.failure (ℤ.pos 7) refusal, "t6")
    ∷ (Event.connecting (ℤ.pos 8), "t7")
    ∷ []

shows_online : (get (run (new true) session_calls) (ℤ.pos 7) "t4").status ≡ ConnectionStatus.online
unfolding get run step new insert
shows_online = refl

shows_refused :
    (get (step (new true) (Event.failure (ℤ.pos 7) refusal) "t1").0 (ℤ.pos 7) "t2").status
    ≡ ConnectionStatus.refused
unfolding get step new status_for_code
shows_refused = refl

disconnect-final_example :
    get
      (run (complete_disconnect (run (new true) session_calls) (ℤ.pos 7) "t4").0 late_calls)
      (ℤ.pos 7)
      "t8"
    ≡ disconnected_state (ℤ.pos 7) "t8"
disconnect-final_example =
    disconnect-final (run (new true) session_calls) (ℤ.pos 7) "t4" "t8" late_calls
      (inl refl, (inl refl, (inr (ground arith), tt)))

remove-final_example :
    get (run (remove (run (new true) session_calls) (ℤ.pos 7) "t4").0 late_calls) (ℤ.pos 7) "t8"
    ≡ absent_state (ℤ.pos 7) "t8"
remove-final_example =
    remove-final (run (new true) session_calls) (ℤ.pos 7) "t4" "t8" late_calls
      (inl refl, (inl refl, (inr (ground arith), tt)))

step-blocked_example :
    step (complete_disconnect (new true) (ℤ.pos 7) "t1").0 (Event.monitor online_snapshot) "t2"
    ≡ ((complete_disconnect (new true) (ℤ.pos 7) "t1").0, [])
unfolding complete_disconnect
step-blocked_example =
    step-blocked (complete_disconnect (new true) (ℤ.pos 7) "t1").0 (Event.monitor online_snapshot)
      "t2" refl refl

step-publishes_example :
    (step (new true) (Event.monitor online_snapshot) "t2").1
    ≡ get (step (new true) (Event.monitor online_snapshot) "t2").0 (ℤ.pos 7) "t2" ∷ []
unfolding new
step-publishes_example = step-publishes (new true) (Event.monitor online_snapshot) "t2"

reachable-IsValid_example :
    IsValidAt
      ((run (new true) session_calls).records (ℤ.pos 7))
      ((run (new true) session_calls).blocked (ℤ.pos 7))
reachable-IsValid_example = reachable-IsValid true session_calls (ℤ.pos 7)

abbrev closed_calls : List (Event × String)
closed_calls = (Event.connecting (ℤ.pos 7), "t1") ∷ (Event.disconnected (ℤ.pos 7), "t2") ∷ []
