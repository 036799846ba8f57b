-- ===== src/Tunnel/Stopping.antt =====
-- The table of tunnels and the ways to stop them (internal/tunnelmanager/manager.go). A worker is
-- stored under the id in its state. Whether the port of a stopped tunnel is free again, by
-- `verifyTunnelPortReleased`, is an argument: the error that it returns, if any. The wait for the
-- accept loop to end is left out: what the loop does meanwhile is a call of its own.
use myapptest.Common.{
  ℕ, ℤ, int_eq, is_positive, Bool, false, Option, none, some, List, [], ◌∷◌, ◌++◌, Text,
  if◌then◌else◌, ◌==◌, not, ◌&&◌, Dict, lookup, insert, delete, keep_if, nat_eq, list_eq,
}
use myapptest.Tunnel.Worker.{
  TunnelStatus, TunnelRuntime, Worker, Effect, set_status, close_runtime_resources,
  close_transport_of,
}

abbrev pub Table : Type 0
Table = Dict Text Worker

-- What the interface is told, and what is done to the worker's resources.
pub data Report : Type 0 where
  state_event : Text → TunnelRuntime → Report
  error_event : Text → Text → Report
  effects : List Effect → Report

abbrev pub Release : Type 0
Release = TunnelRuntime → Option ℕ → Option Text

-- `stopWorker`; `verify` is `none` where the release of the port is not checked.
unfoldable pub stop_worker :
    Option Release → Table → Text → Worker → ℕ → Table × List Report × Option Text
unfolding set_status close_runtime_resources
stop_worker verify table id w now =
    let stopping = set_status w TunnelStatus.stopping [] now in
    let (closed, closing, transport) = close_runtime_resources stopping false in
    let stopped = set_status closed TunnelStatus.stopped [] now in
    let told = Report.state_event id stopping.state ∷ Report.effects closing ∷ [] in
    let last = Report.effects (close_transport_of transport) ∷ [] in
    let done : Table × List Report × Option Text =
      (delete id table, told ++ Report.state_event id stopped.state ∷ last, none) in
    elim verify [
      | none ↦ done
      | some release ↦ elim (release w.state transport) [
        | none ↦ done
        | some message ↦
            let failed = set_status closed TunnelStatus.failed message now in
            (
              insert id failed table,
              told ++ Report.state_event id failed.state ∷ Report.error_event id message ∷ last,
              some message,
            )
      ]
    ]

-- The workers that a test holds of (`workersForServer`, `workersForProfile`).
abbrev pub workers_for : (Worker → Bool) → Table → Table
workers_for test table = keep_if (λ (entry : Text × Worker). test entry.1) table

-- The loop of `StopProfile`, which ends at the first error, and that of `StopServer`.
unfoldable pub stop_each : Option Release → Table → Table → ℕ → Table × List Report × Option Text
unfolding stop_worker
stop_each verify table [] now = (table, [], none)
stop_each verify table ((id, w) ∷ rest) now =
    let (table', told, error) = stop_worker verify table id w now in
    let (table'', later, error') = stop_each verify table' rest now in
    elim error [
      | some message ↦ (table', told, some message)
      | none ↦ (table'', told ++ later, error')
    ]

unfoldable pub stop_server : Table → ℤ → ℕ → Table × List Report
unfolding stop_each
stop_server table server now =
    let (table', told, _) =
      stop_each none table (workers_for (λ w. w.state.server_id == server) table) now in
    (table', told)

unfoldable pub stop_profile : Release → Table → ℤ → ℕ → Table × List Report × Option Text
unfolding stop_each
stop_profile release table profile now =
    let stopped =
      stop_each (some release) table (workers_for (λ w. w.state.profile_id == profile) table) now in
    if is_positive profile then stopped else (table, [], none)

-- The error of a tunnel that another server has.
pub data StopError : Type 0 where
  not_of_server : StopError
  not_released : Text → StopError

abbrev pub stop_error : Option Text → Option StopError
stop_error none = none
stop_error (some message) = some (StopError.not_released message)

unfoldable pub stop : Release → Table → ℤ → Text → ℕ → Table × List Report × Option StopError
unfolding stop_worker
stop release table server id now = elim (lookup id table) [
  | none ↦ (table, [], none)
  | some w ↦
      let (table', told, error) = stop_worker (some release) table id w now in
      if is_positive server && not (w.state.server_id == server)
      then (table, [], some StopError.not_of_server)
      else (table', told, stop_error error)
]
