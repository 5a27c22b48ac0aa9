-- ===== src/Tests/Files.antt =====
-- The state files.
use open_ctrl.Types.{Master}
use open_ctrl.Base.{arith, ◌≡◌, refl, true, none}
use open_ctrl.State.Save.{
  main, backup, persistent_data, save_state_to_path, replace_state, remove_state,
}
use open_ctrl.State.Atomic.{IsWhole, save-IsWhole}
use open_ctrl.State.Load.{load_state}
use open_ctrl.State.Load.Roundtrip.{IsReloaded}
use open_ctrl.Registry.Laws.{IsRegistry}
use open_ctrl.System.Lifetime.{next_process}
use open_ctrl.Tests.Lifecycle.{master-IsRegistry, ended, ended-Steps}
use open_ctrl.Tests.Data.{env, files, master, empty}

save-IsWhole_example :
    IsWhole
      (record files { rename_fails = true })
      backup
      (persistent_data master)
      master.disk
      (
        (save_state_to_path (record files { rename_fails = true }) backup master).0,
        (save_state_to_path (record files { rename_fails = true }) backup master).1.disk,
      )
save-IsWhole_example = save-IsWhole (record files { rename_fails = true }) backup master

-- Where no file operation fails, a save succeeds.
pub saved : (m : Master) → (save_state_to_path files main m).0 ≡ none
unfolding save_state_to_path replace_state remove_state
saved m = ground arith

-- The process that starts with the files of the first one.
abbrev restarted : Master
restarted = record empty { disk = (save_state_to_path files main ended).1.disk }

next_process_example :
    IsReloaded ended (load_state env restarted) × IsRegistry (load_state env restarted)
next_process_example =
    next_process env master ended restarted master-IsRegistry ended-Steps (saved ended) refl refl
      refl refl
