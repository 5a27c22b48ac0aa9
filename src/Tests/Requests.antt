-- ===== src/Tests/Requests.antt =====
-- Requests.

use open_ctrl.Base.{◌≡◌, refl, arith, true, false, none, some, [], ◌∷◌}
use open_ctrl.Util.{encode_to_string}
use open_ctrl.Instance.Snapshot.{find_instance, current_instance}
use open_ctrl.Instance.Lifecycle.Start.{normalize_instance_url, start_instance_locked}
use open_ctrl.Rest.Common.{api_key_id, still_stored}
use open_ctrl.Rest.Patch.{PatchRequest, handle_patch_instance}
use open_ctrl.Rest.Modify.{
  delete_method, CreateRequest, create_instance, handle_delete_instance, handle_instance_detail,
  remove_instance, add_instance, dispatch,
}
use open_ctrl.Rest.Modify.Creation.{IsCreation, create_adds}
use open_ctrl.Rest.Modify.Removal.{IsRemoved}
use open_ctrl.System.{done, then_step, monitor}
use open_ctrl.System.Removal.{delete_lasts}
use open_ctrl.Instance.Lifecycle.Monitor.{monitor_instance}
use open_ctrl.Types.{Master}
use open_ctrl.Tests.Lifecycle.{wait-IsRun, master-IsRegistry}
use open_ctrl.Rest.Refusal.{detail_refused}
use open_ctrl.Server.Key.{IsGuarded, rotate-IsGuarded}
use open_ctrl.Tests.Data.{env, wait, master}

abbrev rename : PatchRequest
rename = record { alias = "door"; action = ""; restart = none; meta = none }

abbrev same : PatchRequest
same = record { alias = "gate"; action = "start"; restart = some true; meta = none }

abbrev rotation : PatchRequest
rotation = record { alias = ""; action = "restart"; restart = none; meta = none }

abbrev fifth : CreateRequest
fifth = record { alias = "fifth"; url = "portal://a" }

detail_refused_example :
    (handle_instance_detail env wait [] delete_method "ffffffff" master).1 ≡ master
detail_refused_example =
    detail_refused master env wait [] delete_method "ffffffff"
      (unfold handle_instance_detail find_instance in omega arith)

create_adds_example :
    IsCreation env
      (encode_to_string (1 ∷ 2 ∷ 3 ∷ 4 ∷ []))
      "fifth"
      "portal://a"
      master
      (create_instance env (1 ∷ 2 ∷ 3 ∷ 4 ∷ []) (some fifth) master).1
create_adds_example =
    create_adds env (1 ∷ 2 ∷ 3 ∷ 4 ∷ []) fifth master
      (unfold create_instance normalize_instance_url add_instance encode_to_string in refl)

-- The deleted instance, to which a monitor of its old run still comes.
abbrev emptied : Master
emptied = (handle_instance_detail env wait [] delete_method "0e0f1011" master).1

abbrev passed : Master
passed = monitor_instance env (some false) 2 4 11 12 6 7 emptied

delete_lasts_example :
    IsRemoved "0e0f1011" 2 emptied × (start_instance_locked env 2 passed ≡ passed)
unfolding find_instance
delete_lasts_example =
    delete_lasts env wait [] "0e0f1011" 2 master passed wait-IsRun master-IsRegistry refl
      (unfold handle_instance_detail dispatch handle_delete_instance current_instance still_stored
          remove_instance in
        refl)
      (then_step done (monitor (some false) 2 4 11 12 6 7))

rotate-IsGuarded_example :
    IsGuarded
      (encode_to_string (16 ∷ []))
      (handle_patch_instance (16 ∷ []) (some rotation) api_key_id 1 master).1
rotate-IsGuarded_example =
    rotate-IsGuarded (16 ∷ []) rotation 1 master refl (unfold encode_to_string in refl)
