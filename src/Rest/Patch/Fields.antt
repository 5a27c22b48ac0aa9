-- ===== src/Rest/Patch/Fields.antt =====
-- internal/master/rest.go: what `handlePatchInstance` does to the fields of an instance.
use open_ctrl.Types.{Instance, Peer, Master}
use open_ctrl.Rest.Common.{Response}
use open_ctrl.Base.{ℕ, ◌≡◌, arith, String, Bool, false, Option, none, some, List, ◌∙◌}
use open_ctrl.Telemetry.Counter.{Meter, clear}
use open_ctrl.Rest.Patch.{
  PatchRequest, MetaPatch, apply_patch, patch_alias, patch_reset, patch_restart, patch_meta,
  patch_peer, patch_tags,
}

-- A patch never changes what an instance is or runs.
pub record SameRun (i j : Instance) : Type 0 where
  pub id : j.id ≡ i.id
  pub role : j.role ≡ i.role
  pub url : j.url ≡ i.url
  pub config : j.config ≡ i.config
  pub status : j.status ≡ i.status
  pub cmd : j.cmd ≡ i.cmd
  pub stopped_ch : j.stopped_ch ≡ i.stopped_ch
  pub exited_ch : j.exited_ch ≡ i.exited_ch
  pub cancel_func : j.cancel_func ≡ i.cancel_func
  pub deleted : j.deleted ≡ i.deleted
  pub runtime_failure : j.runtime_failure ≡ i.runtime_failure
  pub telemetry_identity : j.telemetry_identity ≡ i.telemetry_identity

SameRun-trans : (i j k : Instance) → SameRun i j → SameRun j k → SameRun i k
SameRun-trans i j k p q = ground arith

patch_alias-SameRun : (alias : String) (r : Instance × Bool) → SameRun r.0 (patch_alias alias r).0
patch_alias-SameRun alias (i, c) = ground arith

clear-clear : (m : Meter) → clear (clear m) ≡ clear m
unfolding clear
clear-clear m = ground arith

patch_reset-SameRun : (action : String) (r : Instance × Bool) → SameRun r.0 (patch_reset action r).0
patch_reset-SameRun action (i, c) = ground arith

patch_restart-SameRun :
    (restart : Option Bool) (r : Instance × Bool) → SameRun r.0 (patch_restart restart r).0
patch_restart-SameRun none (i, c) = ground arith
patch_restart-SameRun (some b) (i, c) = ground arith

patch_peer-SameRun : (peer : Option Peer) (i : Instance) → SameRun i (patch_peer peer i)
patch_peer-SameRun none i = ground arith
patch_peer-SameRun (some peer) i = ground arith

patch_tags-SameRun :
    (tags : Option (List (String × String))) (i : Instance) → SameRun i (patch_tags tags i)
patch_tags-SameRun none i = ground arith
patch_tags-SameRun (some tags) i = ground arith

patch_meta-SameRun :
    (meta : Option MetaPatch) (r : Instance × Bool) → SameRun r.0 (patch_meta meta r).0
patch_meta-SameRun none (i, c) = ground arith
patch_meta-SameRun (some meta) (i, c) =
    SameRun-trans _ _ _ (patch_peer-SameRun meta.peer i)
      (patch_tags-SameRun meta.tags (patch_peer meta.peer i))

-- What the fields of a patch make of an instance, which is what PATCH does under its lock, apart from
-- actions that start or stop it and from the rotation of the API key: it keeps its id, role, URL, configuration, status, command,
-- channels, context, deletion mark, failure mark and telemetry identity.
pub apply_patch-SameRun :
    (req : PatchRequest) (inst : Instance) → SameRun inst (apply_patch req inst).0
unfolding apply_patch
apply_patch-SameRun req inst =
    let a = patch_alias req.alias (inst, false) in
    let b = patch_reset req.action a in
    let c = patch_restart req.restart b in
    SameRun-trans _ _ _ (patch_alias-SameRun req.alias (inst, false)) (
      SameRun-trans _ _ _ (patch_reset-SameRun req.action a)
        (SameRun-trans _ _ _ (patch_restart-SameRun req.restart b) (patch_meta-SameRun req.meta c)))

-- What `changed` tells: without it nothing was written.
Unchanged : (r r' : Instance × Bool) → Type 0
Unchanged r r' = r'.1 ≡ false → (r.1 ≡ false) × (r'.0 ≡ r.0)

patch_alias-Unchanged : (alias : String) (r : Instance × Bool) → Unchanged r (patch_alias alias r)
unfolding Unchanged
patch_alias-Unchanged alias (i, c) h = ground arith

patch_reset-Unchanged : (action : String) (r : Instance × Bool) → Unchanged r (patch_reset action r)
unfolding Unchanged
patch_reset-Unchanged action (i, c) h = ground arith

patch_restart-Unchanged :
    (restart : Option Bool) (r : Instance × Bool) → Unchanged r (patch_restart restart r)
unfolding Unchanged
patch_restart-Unchanged none (i, c) h = ground arith
patch_restart-Unchanged (some b) (i, c) h = ground arith

patch_meta-Unchanged :
    (meta : Option MetaPatch) (r : Instance × Bool) → Unchanged r (patch_meta meta r)
unfolding Unchanged
patch_meta-Unchanged none (i, c) h = ground arith
patch_meta-Unchanged (some meta) (i, c) h = ground arith

-- A patch that does not count as a change, so that nothing is saved and no event is sent, leaves
-- every field of the instance as it was.
pub apply_patch_idle :
    (req : PatchRequest) (inst : Instance)
    → (apply_patch req inst).1 ≡ false
    → (apply_patch req inst).0 ≡ inst
unfolding apply_patch Unchanged
apply_patch_idle req inst h =
    let a = patch_alias req.alias (inst, false) in
    let b = patch_reset req.action a in
    let c = patch_restart req.restart b in
    let (hc, ec) = patch_meta-Unchanged req.meta c h in
    let (hb, eb) = patch_restart-Unchanged req.restart b hc in
    let (ha, ea) = patch_reset-Unchanged req.action a hb in
    let (_, e) = patch_alias-Unchanged req.alias (inst, false) ha in ec ∙ eb ∙ ea ∙ e

-- A master in which no instance has been given another run.
abbrev IsSettled : Master → Response × Master → Type 0
IsSettled m r = (q : ℕ) → SameRun (m.heap q) (r.1.heap q)
