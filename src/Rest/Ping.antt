-- ===== src/Rest/Ping.antt =====
-- internal/master/rest.go: `handleTCPPing`. Whether the channel `tcpPingSem` takes one more of its
-- ten tokens in time is an argument.
use open_ctrl.Env.{Result, ok, err}
use open_ctrl.Base.{
  ℕ, ◌≡◌, ◌↔◌, refl, String, Bool, true, false, not, Option, none, some, str_eq, if◌then◌else◌,
  if_cases,
}
use open_ctrl.Rest.Common.{Response, http_error}

-- tcpPingResult
pub record TcpPingResult : Type 0 where
  pub target : String
  pub connected : Bool
  pub latency : ℕ
  pub error : Option String

pub data PingAnswer : Type 0 where
  refused : Response → PingAnswer
  pinged : TcpPingResult → PingAnswer

abbrev pub failed_ping : String → String → TcpPingResult
failed_ping target message = record {
  target = target;
  connected = false;
  latency = 0;
  error = some message;
}

-- The answer to a dial, with its latency or its error.
unfoldable pub dialled : String → Result ℕ → TcpPingResult
dialled target (ok ms) = record { target = target; connected = true; latency = ms; error = none }
dialled target (err message) = failed_ping target message

-- (*Master).handleTCPPing: `get` is the method, `slot` whether the semaphore has a place within a
-- second, and `dial` what net.DialTimeout does.
unfoldable pub handle_tcp_ping : Bool → String → Bool → (String → Result ℕ) → PingAnswer
handle_tcp_ping get target slot dial =
    if not get
    then refused (http_error "Method not allowed" 405)
    else if str_eq target ""
    then refused (http_error "Target address required" 400)
    else if not slot
    then pinged (failed_ping target "too many requests")
    else pinged (dialled target (dial target))

-- A result is clear if it has an error exactly when the target was not reached.
abbrev pub IsClear : PingAnswer → Type 0
IsClear (refused r) = Unit
IsClear (pinged r) = (r.connected ≡ true) ↔ (r.error ≡ none)

failed-IsClear : (target message : String) → IsClear (pinged (failed_ping target message))
failed-IsClear target message = (λ e. cc, λ e. cc)

dialled-IsClear : (target : String) (r : Result ℕ) → IsClear (pinged (dialled target r))
unfolding dialled
dialled-IsClear target (ok ms) = (λ e. refl, λ e. refl)
dialled-IsClear target (err message) = failed-IsClear target message

-- Every result of a ping is clear, whatever becomes of the dial.
ping-IsClear :
    (get : Bool) (target : String) (slot : Bool) (dial : String → Result ℕ)
    → IsClear (handle_tcp_ping get target slot dial)
unfolding handle_tcp_ping
ping-IsClear get target slot dial =
    if_cases IsClear (not get) _ _ (λ _. tt)
      λ _.
        if_cases IsClear (str_eq target "") _ _ (λ _. tt)
          λ _.
            if_cases IsClear (not slot) _ _ (λ _. failed-IsClear target "too many requests")
              (λ _. dialled-IsClear target (dial target))
