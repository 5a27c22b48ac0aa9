-- ===== src/Tests/Data.antt =====
-- A small master: a stopped portal, a running vector and the entry of the API key.
use open_ctrl.Types.{running, Instance, Master, put}
use open_ctrl.Env.{Env, Wait, Files, ok, err}
use open_ctrl.Base.{false, none, some, [], ◌∷◌, str_eq, if◌then◌else◌}
use open_ctrl.Rest.Modify.{new_instance}

abbrev pub files : Files
files = record {
  stat_fails = false;
  remove_fails = false;
  mkdir_fails = false;
  create_fails = false;
  encode_fails = false;
  close_fails = false;
  rename_fails = false;
  open_fails = false;
  decode_fails = false;
}

-- Every command starts, with the pid 77, and only one URL parses.
abbrev pub env : Env
env = record {
  parse_url = λ raw.
      if str_eq raw "portal://a"
      then ok (record { scheme = "portal"; text = "portal://a" })
      else err "parse";
  executable = some "/bin/nowhere";
  start = λ path url. some (some 77);
  windows = false;
  files = files;
}

-- Nothing else happens during a stop: the process has to be killed.
abbrev pub wait : Wait
wait = record { grace = λ m. m; killed = λ m. m }

abbrev pub portal : Instance
portal = new_instance "0a0b0c0d" "gate" "portal" "portal://a" 10

abbrev pub vector : Instance
vector = record (new_instance "0e0f1011" "line" "vector" "vector://b" 11) {
  status = running;
  cmd = some (record { id = 4; process = some 55 });
  exited_ch = some 12;
  cancel_func = some 13;
}

abbrev pub empty : Master
empty = record {
  bin_path = "";
  master_id = "";
  alias = "";
  instances = [];
  heap = λ p. portal;
  subscribers = [];
  closed = [];
  cancelled = [];
  signals = [];
  tasks = [];
  pending = λ l. [];
  periodic_done = false;
  disk = record { state = none; backup = none; temps = [] };
  fresh = 20;
  clock = 5;
}

abbrev pub master : Master
master = record (put 2 vector empty) { instances = ("0a0b0c0d", 1) ∷ ("0e0f1011", 2) ∷ [] }
