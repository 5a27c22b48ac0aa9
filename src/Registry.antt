-- ===== src/Registry.antt =====
-- internal/master/master.go, instance.go and rest.go: what an operation may do to the map of
-- instances and to the objects in it, as an abstract machine of a few moves.
pub mod Laws
pub mod Lifecycle
pub mod Requests
use open_ctrl.Types.{Instance, Master, put}
use open_ctrl.Base.{
  ℕ, suc, ◌≤◌, ◌<◌, ◌≡◌, String, Bool, true, false, Option, none, some, lookup, insert, erase,
}
use open_ctrl.Instance.Lifecycle.Start.{store}
use open_ctrl.Instance.Lifecycle.Consistent.{is_running}

-- Once the server closes, an instance that does not run stays so.
abbrev pub IsCalm : Bool → Instance → Instance → Type 0
IsCalm closing old new =
    closing ≡ true → is_running old.status ≡ false → is_running new.status ≡ false

-- An instance that is marked as deleted stays so.
abbrev pub IsGone : Instance → Instance → Type 0
IsGone old new = old.deleted ≡ true → new.deleted ≡ true

-- One move, where `Stores` says which objects may be stored under their ids, and `Forgets` which
-- ids may leave the map.
pub data Move (Stores : ℕ → Type 0) (Forgets : String → Type 0) (m : Master) : Master → Type 0 where
  quiet :
      {n : Master}
      → n.heap ≡ m.heap
      → n.instances ≡ m.instances
      → n.periodic_done ≡ m.periodic_done
      → m.fresh ≤ n.fresh
      → Move Stores Forgets m n
  edit :
      (p : ℕ) (inst : Instance)
      → inst.id ≡ (m.heap p).id
      → IsCalm m.periodic_done (m.heap p) inst
      → IsGone (m.heap p) inst
      → Move Stores Forgets m (put p inst m)
  keep : (p : ℕ) → Stores p → p < m.fresh → Move Stores Forgets m (store p m)
  again :
      (id : String) (p : ℕ)
      → lookup id m.instances ≡ some p
      → Move Stores Forgets m (record m { instances = insert id p m.instances })
  forget :
      (id : String)
      → Forgets id
      → Move Stores Forgets m (record m { instances = erase id m.instances })
  make :
      (inst : Instance)
      → is_running inst.status ≡ false
      → lookup inst.id m.instances ≡ none
      → Move Stores Forgets m (record (put m.fresh inst m) {
        instances = insert inst.id m.fresh m.instances;
        fresh = suc m.fresh;
      })

pub data Moves (S : ℕ → Type 0) (F : String → Type 0) (m : Master) : Master → Type 0 where
  still : Moves S F m m
  also : {n o : Master} → Moves S F m n → Move S F n o → Moves S F m o
