-- ===== src/Tunnel/WorkerTests.antt =====
-- Running tunnels at concrete inputs.
use myapptest.Common.{
  pos, false, [], ◌∷◌, some, ◌+◌, ◌≤◌, ◌≡◌, refl, arith, List, ℕ, codes, lookup, list_eq, nat_eq,
  int_eq,
}
use myapptest.Tunnel.Worker.{TunnelStatus, Worker, Effect, close_runtime_resources, close_resources}
use myapptest.Tunnel.Stopping.{Table, Release, stop_server}
use myapptest.Tunnel.Closing.{
  Event, run, step, count, closes_listener, closes_transport, run-closings, run-active_connections,
}
use myapptest.Tunnel.Stopped.{stop_server-lookup}

abbrev worker : Worker
worker = record {
  state = record {
    server_id = pos 4;
    profile_id = pos 0;
    status = TunnelStatus.running;
    active_connections = 0;
    bytes_in = 0;
    bytes_out = 0;
    updated_at = 0;
    error = [];
  };
  listener = some 1;
  transport = some 2;
  conns = [];
  pairs = 0;
  stopping = false;
}

abbrev calls : List (Event × ℕ)
calls =
    (Event.pair_opened 5 6, 1)
    ∷ (Event.pair_opened 7 8, 2)
    ∷ (Event.received 100, 3)
    ∷ (Event.pair_closed 5 6, 4)
    ∷ (Event.hand_over, 5)
    ∷ (Event.close, 6)
    ∷ []

closed_once :
    (run worker calls).1
    ≡ Effect.cancel
      ∷ Effect.close_listener 1
      ∷ Effect.close_conn 8
      ∷ Effect.close_conn 7
      ∷ Effect.close_transport 2
      ∷ []
unfolding run step close_runtime_resources close_resources
closed_once = refl

run-closings_example :
    (count closes_listener (run worker calls).1 ≤ 1)
    × (count closes_transport (run worker calls).1 ≤ 1)
run-closings_example = run-closings worker calls

run-active_connections_example : (run worker calls).0.state.active_connections + 1 ≡ 0 + 2
run-active_connections_example = run-active_connections worker calls refl (omega arith, tt)

abbrev other_worker : Worker
other_worker = record worker { state = record worker.state { server_id = pos 9 } }

abbrev table : Table
table = (codes "tun-a", worker) ∷ (codes "tun-b", other_worker) ∷ []

stop_server-lookup_example :
    lookup (codes "tun-b") (stop_server table (pos 4) 10).0 ≡ some other_worker
unfolding lookup
stop_server-lookup_example = stop_server-lookup table (pos 4) 10 (codes "tun-b") (refl, (refl, tt))

abbrev bound : Release
bound = λ state transport. some (codes "still bound")
