-- ===== src/Keepalive/Tests.antt =====
-- The keepalive theorems at concrete policies and events.
use myapptest.Common.{ℤ, is_positive, true, false, none, some, [], ◌∷◌, ◌≡◌, refl, arith}
use myapptest.Keepalive.{
  Policy, normalize_policy, Event, KeepaliveState, Outcome, step, start_keepalive, run,
}
use myapptest.Keepalive.Bounds.{
  IsValid, IsValidOutcome, normalize_policy_positive, run_from_start-IsValidOutcome,
}
use myapptest.Keepalive.Detection.{timeouts, dead, silent_server_detected}

-- What the application asks for where nothing is set.
abbrev unset : Policy
unset = record { enabled = true; interval = ℤ.pos 0; timeout = ℤ.pos 0; max_failures = ℤ.pos 0 }

abbrev usual : Policy
usual = record {
  enabled = true;
  interval = ℤ.pos 30000000000;
  timeout = ℤ.pos 10000000000;
  max_failures = ℤ.pos 3;
}

unset_is_usual : normalize_policy unset ≡ usual
unfolding normalize_policy
unset_is_usual = refl

abbrev first : KeepaliveState
first = record {
  pending = false;
  timer = some (ℤ.pos 30000000000);
  timeout_timer = none;
  timed_out_current_request = false;
  failures = 0;
}

-- One request is out, and has timed out once.
abbrev late : KeepaliveState
late = record {
  pending = true;
  timer = none;
  timeout_timer = some (ℤ.pos 30000000000);
  timed_out_current_request = true;
  failures = 1;
}

first-IsValid : IsValid usual first
first-IsValid = ground arith

late-IsValid : IsValid usual late
late-IsValid = ground arith

normalize_policy_positive_example :
    (is_positive (normalize_policy unset).interval ≡ true)
    × (is_positive (normalize_policy unset).timeout ≡ true)
    × (is_positive (normalize_policy unset).max_failures ≡ true)
normalize_policy_positive_example = normalize_policy_positive unset

run_from_start-IsValidOutcome_example : IsValidOutcome usual (dead usual)
unfolding start_keepalive run step
run_from_start-IsValidOutcome_example =
    run_from_start-IsValidOutcome true unset usual first (Event.timer ∷ timeouts 3) (dead usual)
      refl refl

silent_server_detected_example :
    run usual
      (Outcome.running first)
      (Event.timer ∷ Event.timeout ∷ Event.timeout ∷ Event.timeout ∷ [])
    ≡ some (dead usual)
silent_server_detected_example = silent_server_detected usual first refl first-IsValid refl refl

abbrev asked : KeepaliveState
asked = record late { timed_out_current_request = false; failures = 2 }

asked-IsValid : IsValid usual asked
asked-IsValid = ground arith
