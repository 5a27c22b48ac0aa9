-- ===== src/System/Removal.antt =====
-- internal/master/rest.go, instance.go and master.go: what becomes of a deleted instance.
use open_ctrl.Types.{Master}
use open_ctrl.Env.{Env, Wait}
use open_ctrl.Base.{ℕ, ◌≡◌, String, some, List, arith, ◌<◌}
use open_ctrl.Instance.Snapshot.{find_instance}
use open_ctrl.Instance.Lifecycle.Start.{start_instance_locked}
use open_ctrl.Rest.Modify.{handle_instance_detail, delete_method}
use open_ctrl.Rest.Modify.Removal.{IsRemoved, start-Gone, detail-Removes}
use open_ctrl.Registry.Laws.{IsRegistry, Moves-IsRegistry, Moves-Follows}
use open_ctrl.System.{Steps, IsRun}
use open_ctrl.System.Moves.{Steps-Leads, wait-Leads}
use open_ctrl.Registry.Requests.{detail-Leads}

-- A DELETE that is answered with 204 has removed the instance: its id is unknown, it is stopped and
-- marked as deleted, whatever steps the others take while its stop waits and whether or not the
-- process exits in time. And it stays ended: after any later steps of the master a start of it
-- changes nothing. At first no id stands twice in the map of instances, and each stands for an
-- object in use that has this id.
pub delete_lasts :
    (env : Env) (w : Wait) (random : List ℕ) (id : String) (p : ℕ) (m n : Master)
    → IsRun env w
    → IsRegistry m
    → find_instance id m ≡ some p
    → (handle_instance_detail env w random delete_method id m).0.code ≡ 204
    → Steps env (handle_instance_detail env w random delete_method id m).1 n
    → IsRemoved id p (handle_instance_detail env w random delete_method id m).1
      × (start_instance_locked env p n ≡ n)
unfolding find_instance
delete_lasts env w random id p m n acting r e code later =
    let k = wait-Leads env w acting in
    let first = detail-Leads env w k m r random delete_method id in
    let removed = detail-Removes env w k id p m r e random code in
    let used : p < (handle_instance_detail env w random delete_method id m).1.fresh =
      omega (arith, (r.named id p e).1, (Moves-Follows first).fresh) in
    let then_on = Steps-Leads env _ n later (Moves-IsRegistry first r) in
    (removed, start-Gone env p n ((Moves-Follows then_on).gone p used removed.marked))
