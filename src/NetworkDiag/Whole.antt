-- ===== src/NetworkDiag/Whole.antt =====
-- What BuildCommand of internal/networkdiag/commands.go promises of a script, and CommandTimeout of
-- the seconds it may take.
use mathlib.Core.Path.{subst}
use myapptest.Common.{
  ℕ, zero, suc, ◌*◌, ◌≤◌, ◌<◌, ℤ, pos, ◌≤ℤ◌, false, some, ◌∷◌, ◌++◌, ◌≡◌, refl, sym, ap, ◌∙◌, ◌⊎◌,
  ◌↔◌, inl, inr, arith, Text, codes,
}
use myapptest.NetworkDiag.{
  StartNetworkDiagnosticRequest, NetworkDiagnosticType, validate_target, clamp, normal_count,
  normal_timeout, command_timeout, timeout_for, begins_with, TargetError,
}
use myapptest.NetworkDiag.Quote.{read_word, shell_quote, read_word-shell_quote}
use myapptest.NetworkDiag.Script.{
  build_command, body_of, body_for, tcp_body, script_of, assemble, script_end, script_of-append,
  CommandError,
}
use myapptest.NetworkDiag.Target.{validate_target-inr}

-- A script whose first line gives the variable `target` its value and no more: a shell reads the
-- value as one word, and goes on with the body on the next line.
pub HasTarget : (script target body : Text) → Type 0
HasTarget script target body =
    (value : Text) × (later : Text) × (script ≡ codes "target=" ++ value)
    × (read_word false value ≡ some (target, b'\n' ∷ (body ++ later)))

script_of-HasTarget : (target body : Text) → HasTarget (script_of target body) target body
unfolding HasTarget
script_of-HasTarget target body = (
  shell_quote target ++ b'\n' ∷ (body ++ script_end),
  script_end,
  script_of-append target body,
  read_word-shell_quote target (body ++ script_end),
)

assemble-inr :
    (checked : TargetError ⊎ Text) (made : CommandError ⊎ Text) (script : Text)
    → assemble checked made ≡ inr script
    → (target : Text) × (body : Text) × (checked ≡ inr target)
      × (made ≡ inr body)
      × (script ≡ script_of target body)
unfolding assemble
assemble-inr (inl e) made script h = cc
assemble-inr (inr target) (inl e) script h = cc
assemble-inr (inr target) (inr body) script h = (target, body, refl, refl, cc)

-- A script that BuildCommand returns has the target that ValidateTarget lets through, whole: a
-- shell reads the value of the variable `target` as that text, which does not begin with a dash,
-- and then comes the body for the type of the diagnostic.
pub build_command-HasTarget :
    (request : StartNetworkDiagnosticRequest) (script : Text)
    → build_command request ≡ inr script
    → (target : Text) × (body : Text) × (validate_target request.target ≡ inr target)
      × (body_of request ≡ inr body)
      × HasTarget script target body
      × (begins_with b'-' target ≡ false)
unfolding build_command
build_command-HasTarget request script h =
    let (target, body, v, b, e) =
      assemble-inr (validate_target request.target) (body_of request) script h in
    let (_, _, _, _, dash) = validate_target-inr request.target target v in
    (
      target,
      body,
      v,
      b,
      subst (λ s. HasTarget s target body) (sym e) (script_of-HasTarget target body),
      dash,
    )

-- The types that BuildCommand knows, and the ports that it takes.
pub IsSupported : NetworkDiagnosticType → ℤ → Type 0
IsSupported NetworkDiagnosticType.ping port = Unit
IsSupported NetworkDiagnosticType.traceroute port = Unit
IsSupported NetworkDiagnosticType.dns port = Unit
IsSupported NetworkDiagnosticType.tcp port = (pos 1 ≤ℤ port) × (port ≤ℤ pos 65535)
IsSupported (NetworkDiagnosticType.other name) port = ⊥

body_for-IsSupported :
    (type : NetworkDiagnosticType) (port : ℤ) (count timeout : ℕ) (body : Text)
    → body_for type port count timeout ≡ inr body
    → IsSupported type port
unfolding body_for IsSupported
body_for-IsSupported NetworkDiagnosticType.ping port count timeout body h = tt
body_for-IsSupported NetworkDiagnosticType.traceroute port count timeout body h = tt
body_for-IsSupported NetworkDiagnosticType.dns port count timeout body h = tt
body_for-IsSupported NetworkDiagnosticType.tcp port count timeout body h = ground arith
body_for-IsSupported (NetworkDiagnosticType.other name) port count timeout body h = cc

body_for-made :
    (type : NetworkDiagnosticType) (port : ℤ) (count timeout : ℕ)
    → IsSupported type port
    → (body : Text) × (body_for type port count timeout ≡ inr body)
unfolding body_for IsSupported
body_for-made NetworkDiagnosticType.ping port count timeout h = (_, refl)
body_for-made NetworkDiagnosticType.traceroute port count timeout h = (_, refl)
body_for-made NetworkDiagnosticType.dns port count timeout h = (_, refl)
body_for-made NetworkDiagnosticType.tcp port count timeout (l, u) =
    (tcp_body timeout port, ground arith)
body_for-made (NetworkDiagnosticType.other name) port count timeout h = absurd h

-- BuildCommand returns a script just for the requests whose target ValidateTarget lets through and
-- whose type is supported, with a port from 1 to 65535 where the type is TCP.
pub build_command-accepts :
    (request : StartNetworkDiagnosticRequest)
    → ((script : Text) × (build_command request ≡ inr script)) ↔ (
        ((target : Text) × (validate_target request.target ≡ inr target))
        × IsSupported request.type request.port)
unfolding build_command
build_command-accepts request = (
  λ (script, h).
      let (target, body, v, b, _) =
        assemble-inr (validate_target request.target) (body_of request) script h in
      (
        (target, v),
        body_for-IsSupported request.type request.port (normal_count request)
            (normal_timeout request) body b,
      ),
  λ ((target, v), supported).
      let (body, b) =
        body_for-made request.type request.port (normal_count request) (normal_timeout request)
          supported in
      (
        script_of target body,
        ap (λ checked. assemble checked (body_of request)) v ∙ ap (assemble (inr target)) b,
      ),
)

clamp_bounds :
    (default limit : ℕ) (n : ℤ)
    → 1 ≤ default
    → default ≤ limit
    → (1 ≤ clamp default limit n) × (clamp default limit n ≤ limit)
unfolding clamp
clamp_bounds default limit n l u = ground arith

product_below : (a b : ℕ) → a ≤ 30 → a * b ≤ 30 * b
product_below a zero u = omega arith
product_below a (suc b) u = omega (arith, product_below a b u)

product_above : (a b : ℕ) → 1 ≤ b → a ≤ a * b
product_above a zero l = omega arith
product_above a (suc b) l = omega arith

timeout_for_bounds :
    (type : NetworkDiagnosticType) (count timeout : ℕ)
    → 1 ≤ count
    → count ≤ 10
    → 1 ≤ timeout
    → timeout ≤ 30
    → (6 ≤ timeout_for type count timeout)
      × (timeout_for type count timeout ≤ 600)
      × (timeout < timeout_for type count timeout)
unfolding timeout_for
timeout_for_bounds NetworkDiagnosticType.traceroute count timeout lc uc lt ut = omega arith
timeout_for_bounds NetworkDiagnosticType.tcp count timeout lc uc lt ut = omega arith
timeout_for_bounds NetworkDiagnosticType.ping count timeout lc uc lt ut =
    omega (arith, product_below timeout count ut, product_above timeout count lc)
timeout_for_bounds NetworkDiagnosticType.dns count timeout lc uc lt ut =
    omega (arith, product_below timeout count ut, product_above timeout count lc)
timeout_for_bounds (NetworkDiagnosticType.other name) count timeout lc uc lt ut =
    omega (arith, product_below timeout count ut, product_above timeout count lc)

-- Whatever counts and timeouts a request asks for, a diagnostic may run from 6 to 600 seconds, and
-- longer than the timeout that its tool is given.
pub command_timeout_bounds :
    (request : StartNetworkDiagnosticRequest)
    → (6 ≤ command_timeout request)
      × (command_timeout request ≤ 600)
      × (normal_timeout request < command_timeout request)
unfolding command_timeout
command_timeout_bounds request =
    let (lc, uc) = clamp_bounds 4 10 request.count (omega arith) (omega arith) in
    let (lt, ut) = clamp_bounds 3 30 request.timeout_seconds (omega arith) (omega arith) in
    timeout_for_bounds request.type (normal_count request) (normal_timeout request) lc uc lt ut
