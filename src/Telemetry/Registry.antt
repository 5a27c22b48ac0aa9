-- ===== src/Telemetry/Registry.antt =====
-- internal/master/telemetry.go: the data of the telemetry protocol.
use open_ctrl.Base.{ℕ, String, Option, List}
use open_ctrl.Telemetry.Apply.{TelemetrySnapshot}
use open_ctrl.Telemetry.Frame.{TelemetryEnvelope}

-- telemetryDescriptor, the content of telemetryHello.
pub record TelemetryDescriptor : Type 0 where
  pub contract : String
  pub id : String
  pub role : String
  pub pid : ℕ

-- discoveredInstance
pub record DiscoveredInstance : Type 0 where
  pub registry_name : String
  pub uid : ℕ
  pub pid : ℕ
  pub incarnation : ℕ

-- telemetryRegistry
pub record TelemetryRegistry : Type 0 where
  pub instance : DiscoveredInstance
  pub endpoint : String
  pub transport : String
  pub namespace : String
  pub protocol : String

-- Go's encoding/json, for the types that telemetry decodes; `strict` refuses unknown fields.
pub record Json : Type 0 where
  pub envelope : List ℕ → Option TelemetryEnvelope
  pub hello : List ℕ → Option TelemetryDescriptor
  pub fields : List ℕ → Option (List (String × List ℕ))
  pub strict_snapshot : List ℕ → Option TelemetrySnapshot
  pub registry : List ℕ → Option TelemetryRegistry
