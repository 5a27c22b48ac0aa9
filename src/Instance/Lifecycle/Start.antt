-- ===== src/Instance/Lifecycle/Start.antt =====
-- internal/master/instance.go: `startInstance` and `normalizeInstanceURL`.
use Prim.Native.String.{◌++◌ as str_append}
use open_ctrl.Types.{
  Status, stopped, running, error, Instance, Master, put, update, monitor_task, telemetry_task,
}
use open_ctrl.Env.{Env, Result, ok, err}
use open_ctrl.Base.{
  ℕ, ◌+◌, String, Bool, true, false, not, ◌&&◌, ◌||◌, Option, none, some, [], ◌∷◌, ◌++◌, insert,
  str_eq, ◌==◌, if◌then◌else◌,
}
use open_ctrl.Telemetry.Counter.{begin_run}
use open_ctrl.Event.Publish.{send_sse_event}
use open_ctrl.Instance.Snapshot.{current_instance}

-- supportedRole
unfoldable pub supported_role : String → Bool
supported_role role = str_eq role "portal" || (str_eq role "vector" || str_eq role "egress")

-- (*Master).normalizeInstanceURL: the role and the URL as it is stored.
unfoldable pub normalize_instance_url : Env → String → Result (String × String)
unfolding supported_role
normalize_instance_url env raw = elim (env.parse_url raw) [
  | err text ↦ err (str_append "Master.normalizeInstanceURL: invalid URL format: " text)
  | ok url ↦
      if supported_role url.scheme
      then ok (url.scheme, url.text)
      else err "Master.normalizeInstanceURL: scheme must be portal, vector or egress"
]

abbrev pub is_stopped : Status → Bool
is_stopped stopped = true
is_stopped _ = false

-- The test of the parsed URL in `startInstanceLocked`.
unfoldable pub url_fits : Env → Instance → Bool
unfolding supported_role
url_fits env inst = elim (env.parse_url inst.url) [
  | err text ↦ false
  | ok url ↦ supported_role url.scheme && str_eq url.scheme inst.role
]

-- The fields that a new run sets before the process is started.
unfoldable pub prepare_run : Instance → Instance
unfolding begin_run
prepare_run inst = record inst {
  tcp_rx = begin_run inst.tcp_rx;
  tcp_tx = begin_run inst.tcp_tx;
  udp_rx = begin_run inst.udp_rx;
  udp_tx = begin_run inst.udp_tx;
  telemetry_identity = "";
  ping = 0;
  pool = 0;
  tcps = 0;
  udps = 0;
  runtime_failure = false;
  mode = 0;
}

unfoldable pub exec_path : Env → Master → Option String
exec_path env m = if str_eq m.bin_path "" then env.executable else some m.bin_path

-- The pid of a process that did start: no error, a process, a positive pid.
abbrev pub started : Option (Option ℕ) → Option ℕ
started none = none
started (some none) = none
started (some (some pid)) = if pid == 0 then none else some pid

abbrev pub store : ℕ → Master → Master
store p m = record m { instances = insert (m.heap p).id p m.instances }

abbrev pub cancel : ℕ → Master → Master
cancel context m = record m { cancelled = context ∷ m.cancelled }

-- No executable: the instance fails without a process.
unfoldable pub fail_without_path : ℕ → Instance → Master → Master
fail_without_path p inst m =
    send_sse_event update p
      (store p (put p (record inst { status = error; runtime_failure = true }) m))

-- cmd.Start failed: the instance fails, and its new context is cancelled.
unfoldable pub fail_start : ℕ → ℕ → Instance → Master → Master
fail_start context p inst m = cancel context (
    send_sse_event update p (
      store p (
        put p
          (record inst { status = error; runtime_failure = true; cmd = none; cancel_func = none })
          m)))

-- The process runs: from `fresh` on, six numbers stand for its context, its command, its channels
-- `stopped` and `exited` and its two logs.
unfoldable pub begin_process : ℕ → ℕ → Instance → Master → Master
begin_process pid p inst m =
    let context : ℕ = m.fresh in
    let cmd : ℕ = m.fresh + 1 in
    let stopped_ch : ℕ = m.fresh + 2 in
    let exited_ch : ℕ = m.fresh + 3 in
    let stdout : ℕ = m.fresh + 4 in
    let stderr : ℕ = m.fresh + 5 in
    let run : Instance = record inst {
      cmd = some (record { id = cmd; process = some pid });
      cancel_func = some context;
      stopped_ch = some stopped_ch;
      exited_ch = some exited_ch;
      status = running;
    } in
    let m' : Master = store p (put p run m) in
    send_sse_event update p (record m' {
      fresh = m.fresh + 6;
      tasks =
          m.tasks
          ++ telemetry_task context p cmd
            ∷ monitor_task p cmd stopped_ch exited_ch stdout stderr
            ∷ [];
    })

-- The part of `startInstanceLocked` that starts the command.
unfoldable pub run_command : Env → String → ℕ → Instance → Master → Master
run_command env path p inst m = elim (started (env.start path inst.url)) [
  | none ↦ fail_start m.fresh p inst (record m { fresh = m.fresh + 1 })
  | some pid ↦ begin_process pid p inst m
]

-- The part of `startInstanceLocked` behind its checks.
unfoldable pub launch : Env → ℕ → Instance → Master → Master
launch env p inst m = elim (exec_path env m) [
  | none ↦ fail_without_path p inst m
  | some path ↦ run_command env path p inst m
]

-- (*Master).startInstanceLocked
unfoldable pub start_instance_locked : Env → ℕ → Master → Master
start_instance_locked env p m =
    let inst : Instance = m.heap p in
    if m.periodic_done
    then m
    else if inst.deleted || not (is_stopped inst.status)
    then m
    else if not (url_fits env inst)
    then send_sse_event update p (put p (record inst { status = error; runtime_failure = false }) m)
    else launch env p (prepare_run inst) m

-- (*Master).startInstance
unfoldable pub start_instance : Env → ℕ → Master → Master
start_instance env p m = start_instance_locked env (current_instance p m) m
