-- ===== src/Server/Shutdown/Keep.antt =====
-- internal/master/master.go: what a stop keeps of the other instances.

use open_ctrl.Types.{Master}
use open_ctrl.Env.{Env, Wait}
use open_ctrl.Base.{ℕ, false, Option, none, some, ◌≡◌, refl, if_cases, insert, elem, ==_refl}
use open_ctrl.Util.{reset_stopped_instance_locked}
use open_ctrl.State.Save.{save_state_async}
use open_ctrl.Event.Publish.{send_sse_event, publish_event}
use open_ctrl.Instance.Lifecycle.Stop.{
  finish_stop, stop_instance_locked, await_exit, close_stopped, cancel_opt,
}
use open_ctrl.Instance.Lifecycle.Cases.{stop_cases}
use open_ctrl.Instance.Lifecycle.Consistent.{is_running}

-- The instance at `q` does not run.
abbrev pub IsIdle : ℕ → Master → Type 0
IsIdle q m = is_running (m.heap q).status ≡ false

-- A property of the heap and the map that a stop keeps.
module _ (P : Master → Type 0)
    (same : (m n : Master)
      → n.heap ≡ m.heap
      → n.instances ≡ m.instances
      → n.periodic_done ≡ m.periodic_done
      → n.fresh ≡ m.fresh
      → P m
      → P n)
    (env : Env) (w : Wait) (p : ℕ)
    (waits : ((m : Master) → P m → P (w.grace m)) × ((m : Master) → P m → P (w.killed m))) where
  cancel-keeps : (o : Option ℕ) (m : Master) → P m → P (cancel_opt o m)
  cancel-keeps none m a = a
  cancel-keeps (some c) m a = same m _ refl refl refl refl a

  close-keeps : (o : Option ℕ) (m : Master) → P m → P (close_stopped o m)
  unfolding close_stopped
  close-keeps none m a = a
  close-keeps (some ch) m a =
      if_cases P (elem ch m.closed) _ _ (λ _. a) (λ _. same m _ refl refl refl refl a)

  await-keeps :
      (exited context : Option ℕ) (pid : ℕ) (m : Master)
      → P m
      → P (await_exit w exited context pid m)
  unfolding await_exit
  await-keeps none context pid m a = cancel-keeps context _ (same m _ refl refl refl refl a)
  await-keeps (some e) context pid m a =
      let b = cancel-keeps context (w.grace m) (waits.0 m a) in
      if_cases P (elem e (w.grace m).closed) _ _ (λ _. b)
        (λ _. waits.1 _ (same (cancel_opt context (w.grace m)) _ refl refl refl refl b))

  pub stop-keeps :
      ((m : Master) → P m → P (finish_stop p m))
      → (m : Master) → P m
      → P (stop_instance_locked env w p m)
  stop-keeps finish m a =
      stop_cases P env w p m (λ _. a) (λ _. finish m a)
        λ pid _. finish _ (await-keeps _ _ pid _ (same _ _ refl refl refl refl (close-keeps _ m a)))

pub finish-instances :
    (p : ℕ) (m : Master) → (finish_stop p m).instances ≡ insert (m.heap p).id p m.instances
unfolding finish_stop send_sse_event publish_event save_state_async reset_stopped_instance_locked
finish-instances p m = rw (==_refl p) refl
