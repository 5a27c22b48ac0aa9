-- ===== src/Telemetry/Unix/OtherUnix.antt =====
-- internal/master/unix.go: what other systems than Linux add to unixipc.go.
use open_ctrl.Base.{ℕ, Bool, true, false, ◌&&◌, Option, none, some, leb, ◌==◌, take, drop}
use open_ctrl.Proc.{Bytes}
use open_ctrl.Telemetry.Frame.{Conn}
use open_ctrl.Telemetry.Unix.{UnixSystem}

-- The answers: the buffer of 256 bytes that getsockopt fills with the credentials of the peer, with
-- their length, where no value is an error of any call on the way; and binary.NativeEndian.
pub record OtherUnix : Type 0 where
  pub credentials : Conn → Option (Bytes × ℕ)
  pub uint32 : Bytes → ℕ

-- The test of validateTelemetryPeer, negated: the version of the structure, and the user in it.
unfoldable pub is_user : OtherUnix → ℕ → Option (Bytes × ℕ) → Bool
is_user o euid none = false
is_user o euid (some (credentials, length)) =
    leb 8 length
    && (o.uint32 (take 4 credentials) == 0 && o.uint32 (take 4 (drop 4 credentials)) == euid)

-- validateTelemetryPeer, validateProcessIncarnation and telemetryNamespace.
unfoldable pub other_system : OtherUnix → ℕ → UnixSystem
other_system o euid = record {
  validate_telemetry_peer = λ conn pid. is_user o euid (o.credentials conn);
  validate_process_incarnation = λ instance. true;
  telemetry_namespace = some "";
}
