-- ===== src/BatchCommand/Aggregate.antt =====
-- What the status of a finished task says of its servers.
use myapptest.Common.{
  ℕ, ◌≤◌, ◌<◌, Bool, true, false, List, [], ◌∷◌, ◌≡◌, refl, arith, length, any, if◌then◌else◌, ltb,
}
use myapptest.BatchCommand.{BatchCommandStatus, ServerResult, is_active_status}
use myapptest.BatchCommand.Lifecycle.{count_status, aggregate_status}

-- How bad a status is for the task as a whole; all active ones alike are the worst.
abbrev pub severity : BatchCommandStatus → ℕ
severity BatchCommandStatus.completed = 0
severity BatchCommandStatus.canceled = 1
severity BatchCommandStatus.failed = 2
severity BatchCommandStatus.timeout = 3
severity _ = 4

abbrev pub worst : List ServerResult → ℕ
worst [] = 0
worst (r ∷ rs) =
    let rest = worst rs in if ltb rest (severity r.status) then severity r.status else rest

abbrev pub status_of_severity : ℕ → BatchCommandStatus
status_of_severity n =
    if ltb n 1
    then BatchCommandStatus.completed
    else if ltb n 2
    then BatchCommandStatus.canceled
    else if ltb n 3
    then BatchCommandStatus.failed
    else if ltb n 4
    then BatchCommandStatus.timeout
    else BatchCommandStatus.running

abbrev has_active : List ServerResult → Bool
has_active = any (λ (s : ServerResult). is_active_status s.status)

-- What the counts of the code say of the worst status.
record Counts (rs : List ServerResult) : Type 0 where
  at_most : worst rs ≤ 4
  active : has_active rs ≡ true → worst rs ≡ 4
  no_active : has_active rs ≡ false → worst rs < 4
  completed_le : count_status BatchCommandStatus.completed rs ≤ length rs
  completed : count_status BatchCommandStatus.completed rs ≡ length rs → worst rs ≡ 0
  all_completed : worst rs ≡ 0 → count_status BatchCommandStatus.completed rs ≡ length rs
  canceled_le : count_status BatchCommandStatus.canceled rs ≤ length rs
  canceled : count_status BatchCommandStatus.canceled rs ≡ length rs → worst rs ≤ 1
  timeout : 0 < count_status BatchCommandStatus.timeout rs → 3 ≤ worst rs
  has_timeout : worst rs ≡ 3 → 0 < count_status BatchCommandStatus.timeout rs
  failed : 0 < count_status BatchCommandStatus.failed rs → 2 ≤ worst rs
  has_failed : worst rs ≡ 2 → 0 < count_status BatchCommandStatus.failed rs

counts : (rs : List ServerResult) → Counts rs
unfolding count_status
counts [] = ground arith
counts (r ∷ rs) = ground (arith, counts rs)

-- A task's status is that of its worst server: running as long as one is active, and then a timeout
-- before a failure, a failure before a cancellation, and completed only if all servers are.
pub aggregate_status-worst :
    (rs : List ServerResult) → aggregate_status rs ≡ status_of_severity (worst rs)
unfolding aggregate_status
aggregate_status-worst [] = refl
aggregate_status-worst (r ∷ rs) = ground (arith, counts (r ∷ rs))
