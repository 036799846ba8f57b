-- ===== src/ServerLifecycle/Final.antt =====
-- A disconnect with the tracker of internal/connectionstate as its `StateTracker`.
use myapptest.Common.{ℤ, String, some, List, ◌≡◌, All}
use myapptest.ConnectionState
use myapptest.ConnectionState.{Tracker}
use myapptest.ConnectionState.Events.{Event, run}
use myapptest.ConnectionState.Isolation.{IsQuiet, disconnected_state, disconnect-final}
use myapptest.ServerLifecycle.{
  StateTracker, Coordinator, complete_of, begin_of, stop_managers, disconnect,
}

-- A world with a tracker in it, and its `StateTracker`: a completed disconnect does to the world's
-- tracker what `CompleteDisconnect` does, at some time.
pub record Tracked (W : Type 0) : Type 0 where
  pub tracker : W → Tracker
  pub states : StateTracker W
  pub now : W → String
  pub completes :
      (id : ℤ) (w : W)
      → tracker (states.complete_disconnect id w)
        ≡ (ConnectionState.complete_disconnect (tracker w) id (now w)).0

module _ {W : Type 0} (k : Tracked W) (c : Coordinator W) where
  tracker_completed :
      (id : ℤ) (u : W)
      → c.states ≡ some k.states
      → k.tracker (complete_of c.states id u)
        ≡ (ConnectionState.complete_disconnect (k.tracker u) id (k.now u)).0
  unfolding complete_of
  tracker_completed id u tracked = rw (tracked, complete_of) (k.completes id u)

  -- Whatever the managers do to the world while they stop, a disconnect ends with the server shown
  -- as disconnected, and reports that arrive later do not change that.
  pub disconnect_shows_disconnected :
      (id : ℤ) (w : W) (later : String) (es : List (Event × String))
      → c.states ≡ some k.states
      → All (IsQuiet id) es
      → ConnectionState.get (run (k.tracker (disconnect c id w)) es) id later
        ≡ disconnected_state id later
  unfolding disconnect
  disconnect_shows_disconnected id w later es tracked quiet =
      let u = stop_managers c id (begin_of c.states id w) in
      rw (tracker_completed id u tracked)
        (disconnect-final (k.tracker u) id (k.now u) later es quiet)
