-- ===== src/ServerLifecycle.antt =====
-- internal/serverlifecycle/coordinator.go: the disconnect of a server across all managers.
-- A manager is a function on a world `W` that holds whatever the managers and the tracker keep; a
-- nil manager is `none`.
pub mod Order
pub mod Final
mod Tests
use myapptest.Common.{ℤ, Option, none, some}

-- `StateTracker`.
pub record StateTracker (W : Type 0) : Type 0 where
  pub begin_disconnect : ℤ → W → W
  pub complete_disconnect : ℤ → W → W

pub record Coordinator (W : Type 0) : Type 0 where
  pub monitor : Option (ℤ → W → W)
  pub terminal : Option (ℤ → W → W)
  pub sftp : Option (ℤ → W → W)
  pub tunnel : Option (ℤ → W → W)
  pub docker : Option (ℤ → W → W)
  pub process : Option (ℤ → W → W)
  pub batch : Option (ℤ → W → W)
  pub service : Option (ℤ → W → W)
  pub network : Option (ℤ → W → W)
  pub states : Option (StateTracker W)

module _ {W : Type 0} where
  -- `if m != nil { m.Stop(id) }`
  stop_of : Option (ℤ → W → W) → ℤ → W → W
  stop_of none id w = w
  stop_of (some stop) id w = stop id w

  begin_of : Option (StateTracker W) → ℤ → W → W
  begin_of none id w = w
  begin_of (some t) id w = t.begin_disconnect id w

  complete_of : Option (StateTracker W) → ℤ → W → W
  complete_of none id w = w
  complete_of (some t) id w = t.complete_disconnect id w

  -- The calls of `Disconnect` between those of the tracker.
  stop_managers : Coordinator W → ℤ → W → W
  stop_managers c id w =
      let w1 = stop_of c.monitor id w in
      let w2 = stop_of c.terminal id w1 in
      let w3 = stop_of c.sftp id w2 in
      let w4 = stop_of c.tunnel id w3 in
      let w5 = stop_of c.docker id w4 in
      let w6 = stop_of c.process id w5 in
      let w7 = stop_of c.batch id w6 in let w8 = stop_of c.service id w7 in stop_of c.network id w8

  pub disconnect : Coordinator W → ℤ → W → W
  disconnect c id w = complete_of c.states id (stop_managers c id (begin_of c.states id w))
