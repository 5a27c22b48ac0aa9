-- ===== src/Rest/Consistent.antt =====
-- internal/master/rest.go: every request keeps the instances consistent.
use open_ctrl.Types.{Instance, Master}
use open_ctrl.Env.{Env, Wait}
use open_ctrl.Base.{
  ℕ, refl, inl, inr, String, Option, none, some, List, if_cases, str_eq, is_some, lookup, ◌+◌,
}
use open_ctrl.Util.{encode_to_string}
use open_ctrl.Event.Publish.{send_sse_event, publish_event}
use open_ctrl.State.Save.{save_state_async}
use open_ctrl.Instance.Lifecycle.Start.{normalize_instance_url}
use open_ctrl.Instance.Lifecycle.Stop.{stop_instance_locked}
use open_ctrl.Instance.Lifecycle.Consistent.{
  AllConsistent, IsConsistent, KeepsConsistent, put-AllConsistent, stop-AllConsistent,
  start-AllConsistent,
}
use open_ctrl.Instance.Lifecycle.Ending.{stop_stops}
use open_ctrl.Rest.Common.{Response}
use open_ctrl.Rest.Patch.{PatchRequest, patch_api_key, commit_patch, start_action, apply_patch}
use open_ctrl.Rest.Patch.Fields.{SameRun, apply_patch-SameRun}
use open_ctrl.Rest.Cases.{detail_cases}
use open_ctrl.Rest.Refusal.{Result-cases}
use open_ctrl.Rest.Modify.{
  Method, replace_url, remove_instance, handle_instance_detail, create_instance, add_instance,
  CreateRequest, new_instance,
}

SameRun-IsConsistent : (i j : Instance) → SameRun i j → IsConsistent i → IsConsistent j
SameRun-IsConsistent i j s c = record {
  live = λ h. rw (s.cmd, s.exited_ch, s.cancel_func) (c.live (cc (h, s.status)));
  idle = λ h. rw (s.cmd, s.exited_ch, s.cancel_func) (c.idle (cc (h, s.status)));
  failed = λ h. cc (s.status, c.failed (cc (h, s.runtime_failure)));
}

-- What follows an answer: the handlers' results are pairs.
abbrev Keeps : Response × Master → Type 0
Keeps r = AllConsistent r.1

start_action-AllConsistent :
    (action : String) (p : ℕ) (m : Master)
    → AllConsistent m
    → AllConsistent (start_action action p m)
unfolding start_action
start_action-AllConsistent action p m a =
    if_cases AllConsistent (str_eq action "start") _ _ (λ _. a)
      λ _.
        if_cases AllConsistent (str_eq action "stop") _ _ (λ _. a)
          λ _. if_cases AllConsistent (str_eq action "restart") _ _ (λ _. a) (λ _. a)

commit_patch-Keeps :
    (req : PatchRequest) (id : String) (p : ℕ) (m : Master)
    → AllConsistent m
    → Keeps (commit_patch req id p m)
unfolding commit_patch send_sse_event publish_event save_state_async
commit_patch-Keeps req id p m a =
    let patched =
      put-AllConsistent p _ m
        (SameRun-IsConsistent (m.heap p) (apply_patch req (m.heap p)).0
          (apply_patch-SameRun req (m.heap p)) (a p))
        a in
    start_action-AllConsistent req.action p _
      (if_cases AllConsistent (apply_patch req (m.heap p)).1 _ _ (λ _. patched) (λ _. patched))

patch_api_key-Keeps :
    (random : List ℕ) (req : PatchRequest) (p : ℕ) (m : Master)
    → AllConsistent m
    → Keeps (patch_api_key random req p m)
unfolding patch_api_key send_sse_event publish_event save_state_async
patch_api_key-Keeps random req p m a =
    if_cases AllConsistent (str_eq req.action "restart") _ _
      (λ _.
        put-AllConsistent p _ m
          (record { live = (a p).live; idle = (a p).idle; failed = (a p).failed }) a)
      (λ _. a)

module _ (m : Master) (a : AllConsistent m) (env : Env) (w : Wait) (k : KeepsConsistent w) where
  replace_url-Keeps : (role url : String) (p : ℕ) → Keeps (replace_url env w role url p m)
  unfolding replace_url save_state_async
  replace_url-Keeps role url p =
      let n : Master = stop_instance_locked env w p m in
      let b = stop-AllConsistent env w p m k a in
      let c = b p in
      let e = stop_stops env w p m in
      start-AllConsistent env p _ (
        put-AllConsistent p _ n
          (record {
            live = λ h. cc;
            idle = λ h. c.idle (rw e refl);
            failed = λ h. cc (e, c.failed h);
          })
          b)

  remove_instance-Keeps : (id : String) (p : ℕ) → Keeps (remove_instance env w id p m)
  unfolding remove_instance save_state_async send_sse_event publish_event
  remove_instance-Keeps id p = stop-AllConsistent env w p _ k (
      put-AllConsistent p _ m
        (record { live = (a p).live; idle = (a p).idle; failed = (a p).failed }) a)

  -- If all instances are consistent, so they are after a request for one instance, by any method
  -- and with any answer, provided that what other goroutines do during a stop keeps them so.
  pub detail-AllConsistent :
      (random : List ℕ) (method : Method) (id : String)
      → AllConsistent (handle_instance_detail env w random method id m).1
  detail-AllConsistent =
      detail_cases AllConsistent env w m a (λ random req p _. patch_api_key-Keeps random req p m a)
        (λ req id p _. commit_patch-Keeps req id p m a)
        (λ role url id p _. replace_url-Keeps role url p) (λ id p _. remove_instance-Keeps id p)

stored-IsConsistent :
    (id alias role url : String) (channel : ℕ)
    → IsConsistent (new_instance id alias role url channel)
stored-IsConsistent id alias role url channel = record {
  live = λ h. cc;
  idle = λ h. (refl, refl, refl);
  failed = λ h. cc;
}

-- If all instances are consistent, so they are after a request to create an instance, with any
-- answer.
pub create-AllConsistent :
    (env : Env) (random : List ℕ) (request : Option CreateRequest) (m : Master)
    → AllConsistent m
    → AllConsistent (create_instance env random request m).1
unfolding create_instance add_instance send_sse_event publish_event save_state_async
create-AllConsistent env random none m a = a
create-AllConsistent env random (some req) m a =
    if_cases Keeps (str_eq req.url "") _ _ (λ _. a)
      λ _. elim (Result-cases m (normalize_instance_url env req.url)) [
        | inr (t, e) ↦ rw e a
        | inl ((role, url), e) ↦ rw e (
            if_cases Keeps (is_some (lookup (encode_to_string random) m.instances)) _ _ (λ _. a)
              (λ _.
                put-AllConsistent m.fresh _ m
                  (stored-IsConsistent (encode_to_string random) req.alias role url (m.fresh + 1))
                  a))
      ]
