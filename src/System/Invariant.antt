-- ===== src/System/Invariant.antt =====
-- What holds of the master in every state that it can reach.
use open_ctrl.Types.{put, Master}
use open_ctrl.Env.{Env, Wait}
use open_ctrl.Base.{
  inl, inr, Option-cases, Option, none, some, insert, ℕ, String, not, ◌&&◌, ◌||◌, List, [],
  if_cases, if◌then◌else◌, ◌==◌,
}
use open_ctrl.Output.{ProcessLog, write}
use open_ctrl.Event.Publish.{send_sse_event, publish_event, shutdown_sse_connections}
use open_ctrl.State.Save.{StateFile, save_state_to_path}
use open_ctrl.Telemetry.Apply.{
  TelemetrySnapshot, apply_telemetry_hello, apply_telemetry_snapshot, clear_active_telemetry,
  telemetry_current, apply_snapshot,
}
use open_ctrl.Instance.Snapshot.{current_instance, find_instance}
use open_ctrl.Instance.Lifecycle.Start.{start_instance}
use open_ctrl.Instance.Lifecycle.Stop.{stop_instance}
use open_ctrl.Instance.Lifecycle.Monitor.{write_log}
use open_ctrl.Instance.Lifecycle.Cases.{send_lines-SameButLogs}
use open_ctrl.Instance.Lifecycle.Consistent.{
  AllConsistent, KeepsConsistent, put-AllConsistent, start-AllConsistent, stop-AllConsistent,
  monitor-AllConsistent, restart-AllConsistent, restart_failed-AllConsistent,
}
use open_ctrl.Rest.Consistent.{detail-AllConsistent, create-AllConsistent}
use open_ctrl.State.Save.{save_state_async}
use open_ctrl.Rest.Common.{Response, api_key_id, too_long}
use open_ctrl.Rest.Info.{handle_info, set_alias}
use open_ctrl.Periodic.Round.{round-AllConsistent}
use open_ctrl.System.{
  tick, info, join, leave, Step, detail, create, start, stop, restart, retry, monitor, output,
  hello, traffic, silence, save, cut_off, Steps, done, then_step, IsRun, run,
}

write_log-AllConsistent :
    (bytes : List ℕ) (out p cmd : ℕ) (m : Master)
    → AllConsistent m
    → AllConsistent (write_log bytes out p cmd m)
unfolding write_log
write_log-AllConsistent bytes out p cmd m a =
    let l : ProcessLog = write (record { pending = m.pending out; sent = [] }) bytes in
    let n : Master = record m { pending = λ o. if out == o then l.pending else m.pending o } in
    λ q. rw ((send_lines-SameButLogs p cmd l.sent n).heap) (a q)

module _ (p cmd : ℕ) (m : Master) (a : AllConsistent m) where
  hello-AllConsistent : (id : String) → AllConsistent (apply_telemetry_hello id p cmd m)
  unfolding apply_telemetry_hello
  hello-AllConsistent id =
      if_cases AllConsistent (telemetry_current p cmd m) _ _
        (λ _.
          put-AllConsistent p _ m
            (record { live = (a p).live; idle = (a p).idle; failed = (a p).failed }) a)
        (λ _. a)

  traffic-AllConsistent :
      (value : TelemetrySnapshot) → AllConsistent (apply_telemetry_snapshot value p cmd m)
  unfolding apply_telemetry_snapshot apply_snapshot send_sse_event publish_event
  traffic-AllConsistent value =
      if_cases AllConsistent (telemetry_current p cmd m) _ _
        (λ _.
          put-AllConsistent p _ m
            (record { live = (a p).live; idle = (a p).idle; failed = (a p).failed }) a)
        (λ _. a)

  silence-AllConsistent : AllConsistent (clear_active_telemetry p cmd m)
  unfolding clear_active_telemetry send_sse_event publish_event
  silence-AllConsistent =
      if_cases AllConsistent
        (telemetry_current p cmd m && (not ((m.heap p).tcps == 0) || not ((m.heap p).udps == 0))) _
        _
        (λ _.
          put-AllConsistent p _ m
            (record { live = (a p).live; idle = (a p).idle; failed = (a p).failed }) a)
        (λ _. a)

save-AllConsistent :
    (env : Env) (path : StateFile) (m : Master)
    → AllConsistent m
    → AllConsistent (save_state_to_path env.files path m).1
unfolding save_state_to_path
save-AllConsistent env path m a = a

set_alias_cases :
    (P : Master → Type 0) (alias : String) (m : Master)
    → P (record m { alias = alias })
    → ((p : ℕ)
        → P (
            save_state_async
              (record (put p (record (m.heap p) { alias = alias }) (record m { alias = alias })) {
                instances = insert api_key_id p m.instances;
              })))
    → P (set_alias alias m)
unfolding set_alias
set_alias_cases P alias m unknown known = elim (Option-cases (find_instance api_key_id m)) [
  | inl e ↦ rw (set_alias, e) unknown
  | inr (p, e) ↦ rw (set_alias, e) (known p)
]

info-AllConsistent :
    (request : Option String) (m : Master)
    → AllConsistent m
    → AllConsistent (handle_info request m).1
unfolding handle_info save_state_async
info-AllConsistent none m a = a
info-AllConsistent (some alias) m a =
    if_cases (λ (r : Response × Master). AllConsistent r.1) (too_long alias) _ _ (λ _. a)
      λ _. set_alias_cases AllConsistent alias m a λ p.
        put-AllConsistent p _ m
          (record { live = (a p).live; idle = (a p).idle; failed = (a p).failed }) a

cut_off-AllConsistent :
    (m : Master) → AllConsistent m → AllConsistent (shutdown_sse_connections m).0
unfolding shutdown_sse_connections
cut_off-AllConsistent m a = a

mutual
  unfolding start_instance stop_instance

  keep_one : (env : Env) {m n : Master} → Step env m n → AllConsistent m → AllConsistent n
  keep_one env {m} (detail w r random method id) a =
      detail-AllConsistent m a env w (keep_wait env w r) random method id
  keep_one env {m} (create random request) a = create-AllConsistent env random request m a
  keep_one env {m} (start p b) a = start-AllConsistent env (current_instance p m) m a
  keep_one env {m} (stop w r p b) a =
      stop-AllConsistent env w (current_instance p m) m (keep_wait env w r) a
  keep_one env {m} (restart w r p b) a = restart-AllConsistent env w p m (keep_wait env w r) a
  keep_one env {m} (retry w r p) a = restart_failed-AllConsistent env w p m (keep_wait env w r) a
  keep_one env {m} (monitor exit p cmd stopped exited stdout stderr) a =
      monitor-AllConsistent env exit p cmd stopped exited stdout stderr m a
  keep_one env {m} (output bytes out p cmd) a = write_log-AllConsistent bytes out p cmd m a
  keep_one env {m} (hello id p cmd) a = hello-AllConsistent p cmd m a id
  keep_one env {m} (traffic value p cmd) a = traffic-AllConsistent p cmd m a value
  keep_one env {m} (silence p cmd) a = silence-AllConsistent p cmd m a
  keep_one env {m} (save path) a = save-AllConsistent env path m a
  keep_one env {m} (tick w r) a = round-AllConsistent env w m (keep_wait env w r) a
  keep_one env {m} (info request) a = info-AllConsistent request m a
  keep_one env {m} join a = a
  keep_one env {m} (leave k) a = a
  keep_one env {m} cut_off a = cut_off-AllConsistent m a

  keep_all : (env : Env) {m n : Master} → Steps env m n → AllConsistent m → AllConsistent n
  keep_all env done a = a
  keep_all env (then_step s t) a = keep_one env t (keep_all env s a)

  keep_wait : (env : Env) (w : Wait) → IsRun env w → KeepsConsistent w
  keep_wait env w (run grace killed) = record {
    in_grace = λ m a. keep_all env (grace m) a;
    once_killed = λ m a. keep_all env (killed m) a;
  }

-- Whatever requests, goroutines, processes and telemetry do, in any order and also while a stop
-- waits, if all instances are consistent at first, so they are at every later time.
pub Steps-AllConsistent :
    (env : Env) (m n : Master) → Steps env m n → AllConsistent m → AllConsistent n
Steps-AllConsistent env m n s a = keep_all env s a
