-- ===== src/Telemetry/Apply.antt =====
-- internal/master/runtime.go: what the telemetry connection of a process does to its instance.
pub mod Effect
use Prim.Native.String.{◌++◌ as str_append}
use open_ctrl.Types.{Instance, Master, put, update}
use open_ctrl.Base.{
  ℕ, String, Bool, false, not, ◌&&◌, ◌||◌, Option, none, some, elem, ◌==◌, if◌then◌else◌, ℤ, str_eq,
  ltb, ◌*◌,
}
use open_ctrl.Telemetry.Counter.{sample, clamp_signed_int32}
use open_ctrl.Event.Publish.{send_sse_event}
use open_ctrl.Instance.Lifecycle.Monitor.{runs_cmd}

-- telemetrySnapshot, of internal/master/telemetry.go.
pub record TelemetrySnapshot : Type 0 where
  pub tcp_upload : ℕ
  pub tcp_download : ℕ
  pub udp_upload : ℕ
  pub udp_download : ℕ
  pub tcp_active : ℤ
  pub udp_active : ℤ

-- case <-inst.stopped: of a channel that may be nil.
abbrev pub is_closed : Option ℕ → Master → Bool
is_closed none m = false
is_closed (some ch) m = elem ch m.closed

-- telemetryCurrentLocked
unfoldable pub telemetry_current : ℕ → ℕ → Master → Bool
telemetry_current p cmd m =
    let inst : Instance = m.heap p in
    if inst.deleted || not (runs_cmd inst.cmd cmd) then false else not (is_closed inst.stopped_ch m)

-- (*Master).applyTelemetryHello; `id` is that of the greeting.
unfoldable pub apply_telemetry_hello : String → ℕ → ℕ → Master → Master
apply_telemetry_hello id p cmd m =
    if telemetry_current p cmd m
    then put p (record (m.heap p) { telemetry_identity = str_append "nowhere." id }) m
    else m

-- The fields that a snapshot sets.
unfoldable pub apply_snapshot : TelemetrySnapshot → Instance → Instance
apply_snapshot value inst = record inst {
  tcps = clamp_signed_int32 value.tcp_active;
  udps = clamp_signed_int32 value.udp_active;
  tcp_rx = sample value.tcp_upload inst.tcp_rx;
  tcp_tx = sample value.tcp_download inst.tcp_tx;
  udp_rx = sample value.udp_upload inst.udp_rx;
  udp_tx = sample value.udp_download inst.udp_tx;
}

-- (*Master).applyTelemetrySnapshot
unfoldable pub apply_telemetry_snapshot : TelemetrySnapshot → ℕ → ℕ → Master → Master
apply_telemetry_snapshot value p cmd m =
    if telemetry_current p cmd m
    then send_sse_event update p (put p (apply_snapshot value (m.heap p)) m)
    else m

-- (*Master).clearActiveTelemetry
unfoldable pub clear_active_telemetry : ℕ → ℕ → Master → Master
clear_active_telemetry p cmd m =
    let inst : Instance = m.heap p in
    if telemetry_current p cmd m && (not (inst.tcps == 0) || not (inst.udps == 0))
    then send_sse_event update p (put p (record inst { tcps = 0; udps = 0 }) m)
    else m

-- The test of the identity in `runTelemetry`: the first greeting pins it.
unfoldable pub identity_matches : String → String → Bool
identity_matches identity registry_name = str_eq identity "" || str_eq identity registry_name

-- The next delay of `runTelemetry` after `backoff`, both in seconds.
unfoldable pub next_backoff : ℕ → ℕ
next_backoff backoff =
    if ltb backoff 30 then (if ltb 30 (backoff * 2) then 30 else backoff * 2) else backoff
