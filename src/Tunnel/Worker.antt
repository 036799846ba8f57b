-- ===== src/Tunnel/Worker.antt =====
-- The worker of a running tunnel (internal/tunnelmanager/manager.go). Its listener, transport and
-- connections are numbers, and what is done to them are effects. Of its runtime state the fields
-- are here that these methods change, and those that say whose tunnel it is.
use myapptest.Common.{
  ℕ, ◌+◌, ◌-◌, ℤ, Bool, true, Option, none, some, List, [], ◌∷◌, ◌++◌, map, Text, if◌then◌else◌,
  nat_eq, ◌==◌, any, keep_if, not,
}

pub data TunnelStatus : Type 0 where
  starting running failed stopping stopped : TunnelStatus

-- `TunnelRuntime`; a time is its nanoseconds.
pub record TunnelRuntime : Type 0 where
  pub server_id : ℤ
  pub profile_id : ℤ
  pub status : TunnelStatus
  pub active_connections : ℕ
  pub bytes_in : ℕ
  pub bytes_out : ℕ
  pub updated_at : ℕ
  pub error : Text

pub record Worker : Type 0 where
  pub state : TunnelRuntime
  pub listener : Option ℕ
  pub transport : Option ℕ
  pub conns : List ℕ
  pub pairs : ℕ
  pub stopping : Bool

pub data Effect : Type 0 where
  cancel : Effect
  close_listener close_conn close_transport : ℕ → Effect

-- `w.conns[c] = struct{}{}`, and `delete(w.conns, c)`.
abbrev pub add_conn : ℕ → List ℕ → List ℕ
add_conn c conns = if any (λ d. d == c) conns then conns else c ∷ conns

abbrev pub remove_conn : ℕ → List ℕ → List ℕ
remove_conn c conns = keep_if (λ d. not (d == c)) conns

unfoldable pub set_status : Worker → TunnelStatus → Text → ℕ → Worker
set_status w status message now = record w {
  state = record w.state { status = status; error = message; updated_at = now };
}

unfoldable pub add_pair : Worker → ℕ → ℕ → ℕ → Worker
add_pair w left right now = record w {
  conns = add_conn right (add_conn left w.conns);
  pairs = w.pairs + 1;
  state = record w.state { active_connections = w.pairs + 1; updated_at = now };
}

-- The count of pairs stops at 0.
unfoldable pub remove_pair : Worker → ℕ → ℕ → ℕ → Worker
remove_pair w left right now = record w {
  conns = remove_conn right (remove_conn left w.conns);
  pairs = w.pairs - 1;
  state = record w.state { active_connections = w.pairs - 1; updated_at = now };
}

unfoldable pub add_bytes_in : Worker → ℕ → ℕ → Worker
add_bytes_in w value now = record w {
  state = record w.state { bytes_in = w.state.bytes_in + value; updated_at = now };
}

unfoldable pub add_bytes_out : Worker → ℕ → ℕ → Worker
add_bytes_out w value now = record w {
  state = record w.state { bytes_out = w.state.bytes_out + value; updated_at = now };
}

abbrev pub on_some : Option ℕ → (ℕ → Effect) → List Effect
on_some none effect = []
on_some (some x) effect = effect x ∷ []

abbrev pub close_listener_of : Worker → List Effect
close_listener_of w = on_some w.listener Effect.close_listener

abbrev pub close_transport_of : Option ℕ → List Effect
close_transport_of transport = on_some transport Effect.close_transport

-- What the first call closes.
abbrev pub close_all : Worker → List Effect
close_all w = Effect.cancel ∷ close_listener_of w ++ map Effect.close_conn w.conns

-- `closeRuntimeResources`: with the transport that is left to the caller to close.
unfoldable pub close_runtime_resources : Worker → Bool → Worker × List Effect × Option ℕ
close_runtime_resources w with_transport =
    let closing = record w { stopping = true } in
    if w.stopping
    then (w, [], none)
    else if with_transport
    then (closing, close_all w ++ close_transport_of w.transport, none)
    else (closing, close_all w, w.transport)

-- `closeResources`
unfoldable pub close_resources : Worker → Worker × List Effect
unfolding close_runtime_resources
close_resources w =
    let (w', effects, transport) = close_runtime_resources w true in
    (w', effects ++ close_transport_of transport)
