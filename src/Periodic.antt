-- ===== src/Periodic.antt =====
-- internal/master/periodic.go: one round of `startPeriodicTasks`, at a tick of its clock.
pub mod Round
use open_ctrl.Types.{Master}
use open_ctrl.Env.{Env, Wait}
use open_ctrl.Base.{ℕ, String, not, ◌&&◌, List, [], ◌∷◌, str_eq, if◌then◌else◌}
use open_ctrl.State.Save.{backup, save_state_to_path}
use open_ctrl.Instance.Lifecycle.Monitor.{needs_restart, restart_failed_instance}
use open_ctrl.Rest.Common.{api_key_id}

-- The slice `errorInstances`.
unfoldable pub error_instances : Master → List (String × ℕ) → List ℕ
error_instances m [] = []
error_instances m ((id, p) ∷ l) =
    let rest : List ℕ = error_instances m l in
    if not (str_eq id api_key_id) && needs_restart (m.heap p) then p ∷ rest else rest

-- The loop over it.
unfoldable pub restart_all : Env → Wait → List ℕ → Master → Master
restart_all env w [] m = m
restart_all env w (p ∷ ps) m = restart_all env w ps (restart_failed_instance env w p m)

-- The case of a tick.
unfoldable pub periodic_round : Env → Wait → Master → Master
periodic_round env w m =
    let m' : Master = (save_state_to_path env.files backup m).1 in
    restart_all env w (error_instances m' m'.instances) m'
