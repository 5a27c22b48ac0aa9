-- ===== src/State/Atomic.antt =====
-- internal/master/state.go: a save replaces the file as a whole or leaves it alone.
use open_ctrl.Types.{Disk, Saved, Master, Instance}
use open_ctrl.Env.{Files}
use open_ctrl.Base.{
  ℕ, ◌≡◌, refl, arith, false, ◌||◌, Option, none, some, [], ◌∷◌, if_cases, length, ◌==◌, String,
  if◌then◌else◌,
}
use open_ctrl.State.Save.{
  StateFile, main, backup, SaveError, file, write_file, persistent_data, remove_state,
  replace_state, remove_temp, save_state_to_path, mkdir_failed, create_failed, encode_failed,
  close_failed, rename_failed,
}

abbrev pub other_file : StateFile → StateFile
other_file main = backup
other_file backup = main

-- What the file is after a save: no file stands for no instance.
abbrev pub saved_file : Saved → Option Saved
saved_file [] = none
saved_file (e ∷ saved) = some (e ∷ saved)

-- The file of a path after a save of `saved` that ended with `o`.
abbrev pub outcome : Option SaveError → StateFile → Saved → Disk → Option Saved
outcome none path saved d = saved_file saved
outcome (some e) path saved d = file path d

-- A save without an error writes what is to be saved, one with an error leaves the file as it was,
-- and the other file is left alone; a temporary file stays only where its removal fails.
pub record IsWhole (fs : Files) (path : StateFile) (saved : Saved) (d : Disk)
    (r : Option SaveError × Disk) : Type 0 where
  pub target : file path r.1 ≡ outcome r.0 path saved d
  pub aside : file (other_file path) r.1 ≡ file (other_file path) d
  pub clean : (fs.stat_fails || fs.remove_fails) ≡ false → r.1.temps ≡ d.temps

remove_state-IsWhole :
    (fs : Files) (path : StateFile) (d : Disk) → IsWhole fs path [] d (remove_state fs path d)
unfolding remove_state
remove_state-IsWhole fs main d = ground arith
remove_state-IsWhole fs backup d = ground arith

module _ (fs : Files) (name : ℕ) (d : Disk) where
  -- The temporary file that was just made is the one that is removed.
  remove_temp-temps :
      (fs.stat_fails || fs.remove_fails) ≡ false
      → (remove_temp fs (record d { temps = name ∷ d.temps })).temps ≡ d.temps
  unfolding remove_temp
  remove_temp-temps h = ground arith

  remove_temp-file :
      (path : StateFile)
      → file path (remove_temp fs (record d { temps = name ∷ d.temps })) ≡ file path d
  unfolding remove_temp
  remove_temp-file main = ground arith
  remove_temp-file backup = ground arith

  failed-IsWhole :
      (path : StateFile) (saved : Saved) (e : SaveError)
      → IsWhole fs path saved d (some e, remove_temp fs (record d { temps = name ∷ d.temps }))
  failed-IsWhole path saved e = record {
    target = remove_temp-file path;
    aside = remove_temp-file (other_file path);
    clean = remove_temp-temps;
  }

written-aside :
    (path : StateFile) (o : Option Saved) (d : Disk)
    → file (other_file path) (write_file path o d) ≡ file (other_file path) d
written-aside main o d = refl
written-aside backup o d = refl

written-target :
    (path : StateFile) (o : Option Saved) (d : Disk) → file path (write_file path o d) ≡ o
written-target main o d = refl
written-target backup o d = refl

written-temps :
    (path : StateFile) (o : Option Saved) (d : Disk) → (write_file path o d).temps ≡ d.temps
written-temps main o d = refl
written-temps backup o d = refl

replace_state-IsWhole :
    (fs : Files) (path : StateFile) (name : ℕ) (x : String × Instance) (saved : Saved) (d : Disk)
    → IsWhole fs path (x ∷ saved) d (replace_state fs path name (x ∷ saved) d)
unfolding replace_state
replace_state-IsWhole fs path name x saved d =
    let P = IsWhole fs path (x ∷ saved) d in
    let kept : (e : SaveError) → P (some e, d) =
      λ e. record { target = refl; aside = refl; clean = λ _. refl } in
    if_cases P fs.mkdir_fails _ _ (λ _. kept mkdir_failed)
      λ _.
        if_cases P fs.create_fails _ _ (λ _. kept create_failed)
          λ _.
            if_cases P fs.encode_fails _ _
              (λ _. failed-IsWhole fs name d path (x ∷ saved) encode_failed)
              λ _.
                if_cases P fs.close_fails _ _
                  (λ _. failed-IsWhole fs name d path (x ∷ saved) close_failed)
                  λ _.
                    if_cases P fs.rename_fails _ _
                      (λ _. failed-IsWhole fs name d path (x ∷ saved) rename_failed)
                      λ _. record {
                        target = written-target path (some (x ∷ saved)) d;
                        aside = written-aside path (some (x ∷ saved)) d;
                        clean = λ _. written-temps path (some (x ∷ saved)) d;
                      }

saved-IsWhole :
    (fs : Files) (path : StateFile) (name : ℕ) (saved : Saved) (d : Disk)
    → IsWhole fs path saved d
        (if length saved == 0 then remove_state fs path d else replace_state fs path name saved d)
saved-IsWhole fs path name [] d = remove_state-IsWhole fs path d
saved-IsWhole fs path name (x ∷ saved) d =
    if_cases (IsWhole fs path (x ∷ saved) d) (length (x ∷ saved) == 0) _ _
      (λ h. absurd (ground arith)) (λ _. replace_state-IsWhole fs path name x saved d)

-- A save either writes the snapshots of all instances (with none, it removes the file) or reports an
-- error and leaves the file as it was; whichever file operations fail, the other file is left
-- alone, and a temporary file stays only where a stat or a removal fails.
pub save-IsWhole :
    (fs : Files) (path : StateFile) (m : Master)
    → IsWhole fs path
        (persistent_data m)
        m.disk
        ((save_state_to_path fs path m).0, (save_state_to_path fs path m).1.disk)
unfolding save_state_to_path
save-IsWhole fs path m = saved-IsWhole fs path m.fresh (persistent_data m) m.disk
