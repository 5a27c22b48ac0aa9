-- ===== src/Types.antt =====
-- internal/master/types.go: the data that the components share.
use open_ctrl.Base.{ℕ, String, Bool, Option, List, ◌==◌, if◌then◌else◌}
use open_ctrl.Telemetry.Counter.{Meter}

-- Go's string constants for `Status`; `unset` is the empty string of the API key's entry.
pub data Status : Type 0 where
  unset stopped running error : Status

pub record Peer : Type 0 where
  pub sid : String
  pub kind : String
  pub alias : String

-- A nil map is `none`.
pub record Meta : Type 0 where
  pub peer : Peer
  pub tags : Option (List (String × String))

-- *exec.Cmd: `id` is the pointer, `process` the pid of a `Process` that is not nil.
pub record Cmd : Type 0 where
  pub id : ℕ
  pub process : Option ℕ

-- `type` is `role` here. Channels and contexts are numbers; nil is `none`.
pub record Instance : Type 0 where
  pub id : String
  pub alias : String
  pub role : String
  pub status : Status
  pub url : String
  pub config : String
  pub restart : Bool
  pub meta : Meta
  pub mode : ℕ
  pub ping : ℕ
  pub pool : ℕ
  pub tcps : ℕ
  pub udps : ℕ
  pub tcp_rx : Meter
  pub tcp_tx : Meter
  pub udp_rx : Meter
  pub udp_tx : Meter
  pub cmd : Option Cmd
  pub stopped_ch : Option ℕ
  pub exited_ch : Option ℕ
  pub deleted : Bool
  pub cancel_func : Option ℕ
  pub telemetry_identity : String
  pub runtime_failure : Bool

pub data EventType : Type 0 where
  initial create update delete log shutdown : EventType

-- `time` counts the clock's ticks, `logs` is a byte string.
pub record InstanceEvent : Type 0 where
  pub type : EventType
  pub time : ℕ
  pub instance : Option Instance
  pub logs : List ℕ

-- `wake` holds a token or not (its capacity is 1), `done` is closed or not.
pub record SseSubscriber : Type 0 where
  pub wake : Bool
  pub states : List (String × InstanceEvent)
  pub logs : List InstanceEvent
  pub done : Bool

-- The goroutines that the code starts; instances, commands, contexts, channels and process logs are
-- numbers.
pub data Task : Type 0 where
  save_state_task shutdown_sse_task : Task
  start_task stop_task restart_task : ℕ → Task
  telemetry_task : (context instance cmd : ℕ) → Task
  monitor_task : (instance cmd stopped exited stdout stderr : ℕ) → Task

-- What is sent to a process, with its pid.
pub data Signal : Type 0 where
  terminate kill : ℕ → Signal

-- The state file: the map of snapshots that gob encodes.
abbrev pub Saved : Type 0
Saved = List (String × Instance)

-- The files in the state's folder; `none` is a missing file.
pub record Disk : Type 0 where
  pub state : Option Saved
  pub backup : Option Saved
  pub temps : List ℕ

-- `instances` maps ids to objects in `heap`, which a deleted instance still occupies. `closed` and
-- `cancelled` hold the closed channels and the cancelled contexts, `pending` the bytes that a
-- process log holds back, `signals` and `tasks` what was sent and started, oldest first. Numbers
-- from `fresh` on are not yet in use.
pub record Master : Type 0 where
  pub bin_path : String
  pub master_id : String
  pub alias : String
  pub instances : List (String × ℕ)
  pub heap : ℕ → Instance
  pub subscribers : List (ℕ × SseSubscriber)
  pub closed : List ℕ
  pub cancelled : List ℕ
  pub signals : List Signal
  pub tasks : List Task
  pub pending : ℕ → List ℕ
  pub periodic_done : Bool
  pub disk : Disk
  pub fresh : ℕ
  pub clock : ℕ

-- Writing through a pointer.
abbrev pub put : ℕ → Instance → Master → Master
put p inst m = record m { heap = λ q. if p == q then inst else m.heap q }
