-- ===== src/Instance/Snapshot.antt =====
-- internal/master/instance.go: snapshots, and how an instance is found by its id.
use open_ctrl.Types.{Instance, Master}
use open_ctrl.Telemetry.Counter.{Meter}
use open_ctrl.Util.{clone_tags}
use open_ctrl.Base.{ℕ, String, false, Option, none, some, ◌≡◌, arith, lookup}

abbrev total_only : Meter → Meter
total_only m = record { total = m.total; base = 0; reset = 0 }

-- (*instance).snapshotLocked, and snapshot of an instance that is not nil.
unfoldable pub snapshot : Instance → Instance
unfolding clone_tags
snapshot inst = record {
  id = inst.id;
  alias = inst.alias;
  role = inst.role;
  status = inst.status;
  url = inst.url;
  config = inst.config;
  restart = inst.restart;
  meta = record { peer = inst.meta.peer; tags = clone_tags inst.meta.tags };
  mode = 0;
  ping = inst.ping;
  pool = inst.pool;
  tcps = inst.tcps;
  udps = inst.udps;
  tcp_rx = total_only inst.tcp_rx;
  tcp_tx = total_only inst.tcp_tx;
  udp_rx = total_only inst.udp_rx;
  udp_tx = total_only inst.udp_tx;
  cmd = none;
  stopped_ch = none;
  exited_ch = none;
  deleted = false;
  cancel_func = none;
  telemetry_identity = "";
  runtime_failure = false;
}

-- (*Master).findInstance
unfoldable pub find_instance : String → Master → Option ℕ
find_instance id m = lookup id m.instances

-- (*Master).currentInstance
unfoldable pub current_instance : ℕ → Master → ℕ
current_instance p m = elim (lookup (m.heap p).id m.instances) [ none ↦ p | some q ↦ q ]

-- A snapshot of a snapshot is the same snapshot.
pub snapshot-snapshot : (inst : Instance) → snapshot (snapshot inst) ≡ snapshot inst
unfolding snapshot
snapshot-snapshot inst = ground arith
