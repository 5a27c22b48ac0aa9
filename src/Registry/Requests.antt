-- ===== src/Registry/Requests.antt =====
-- The handlers of internal/master/rest.go as moves.
use open_ctrl.Types.{stopped, Instance, Master, put}
use open_ctrl.Env.{Env, Wait}
use open_ctrl.Base.{
  ℕ, ◌+◌, ◌<◌, ◌≡◌, ◌∙◌, ap, refl, arith, true, inl, inr, String, Option, none, some, List,
  if_cases, str_eq, is_some, lookup,
}
use open_ctrl.Util.{encode_to_string}
use open_ctrl.Event.Publish.{send_sse_event, publish_event}
use open_ctrl.State.Save.{save_state_async}
use open_ctrl.Instance.Lifecycle.Start.{normalize_instance_url, store}
use open_ctrl.Instance.Lifecycle.Stop.{stop_instance_locked}
use open_ctrl.Rest.Common.{Response, api_key_id}
use open_ctrl.Rest.Patch.{PatchRequest, patch_api_key, commit_patch, start_action, apply_patch}
use open_ctrl.Rest.Patch.Fields.{apply_patch-SameRun}
use open_ctrl.Rest.Cases.{detail_cases}
use open_ctrl.Rest.Refusal.{Result-cases}
use open_ctrl.Rest.Modify.{
  Method, replace_url, remove_instance, handle_instance_detail, create_instance, add_instance,
  CreateRequest, new_instance,
}
use open_ctrl.Instance.Lifecycle.Consistent.{is_running}
use open_ctrl.Registry.{quiet, edit, keep, again, forget, make, Moves, still, also}
use open_ctrl.Registry.Laws.{IsRegistry, Moves-trans, Moves-IsRegistry, Moves-Follows}
use open_ctrl.Registry.Lifecycle.{Leads, WaitLeads, start-Leads, stop-Leads}

-- What follows an answer: the handlers' results are pairs.
abbrev pub Turns : (ℕ → Type 0) → (String → Type 0) → Master → Response × Master → Type 0
Turns S F m r = Moves S F m r.1

module _ {S : ℕ → Type 0} {F : String → Type 0} where
  start_action-Moves :
      (action : String) (p : ℕ) {m : Master} (n : Master)
      → Moves S F m n
      → Moves S F m (start_action action p n)
  unfolding start_action
  start_action-Moves action p {m} n a =
      if_cases (Moves S F m) (str_eq action "start") _ _
        (λ _. also a (quiet refl refl refl (omega arith)))
        λ _.
          if_cases (Moves S F m) (str_eq action "stop") _ _
            (λ _. also a (quiet refl refl refl (omega arith)))
            λ _.
              if_cases (Moves S F m) (str_eq action "restart") _ _
                (λ _. also a (quiet refl refl refl (omega arith))) (λ _. a)

  pub commit_patch-Turns :
      (req : PatchRequest) (id : String) (p : ℕ) (m : Master)
      → lookup id m.instances ≡ some p
      → Turns S F m (commit_patch req id p m)
  unfolding commit_patch send_sse_event publish_event save_state_async
  commit_patch-Turns req id p m e =
      let same = apply_patch-SameRun req (m.heap p) in
      let patched = also still (
        edit p (apply_patch req (m.heap p)).0 same.id (λ c s. ap is_running same.status ∙ s)
          (λ d. same.deleted ∙ d)) in
      start_action-Moves req.action p _ (
        if_cases (Moves S F m) (apply_patch req (m.heap p)).1 _ _
          (λ _. also (also patched (again id p e)) (quiet refl refl refl (omega arith)))
          (λ _. patched))

  pub patch_api_key-Turns :
      (random : List ℕ) (req : PatchRequest) (p : ℕ) (m : Master)
      → lookup api_key_id m.instances ≡ some p
      → Turns S F m (patch_api_key random req p m)
  unfolding patch_api_key send_sse_event publish_event save_state_async
  patch_api_key-Turns random req p m e =
      if_cases (Moves S F m) (str_eq req.action "restart") _ _
        (λ _.
          also
            (also
              (also still (
                edit p (record (m.heap p) { url = encode_to_string random }) refl (λ c s. s)
                  (λ d. d)))
              (again api_key_id p e))
            (quiet refl refl refl (omega arith)))
        (λ _. still)

  pub create-Moves :
      (env : Env) (random : List ℕ) (request : Option CreateRequest) (m : Master)
      → Turns S F m (create_instance env random request m)
  unfolding create_instance add_instance send_sse_event publish_event save_state_async
  create-Moves env random none m = still
  create-Moves env random (some req) m =
      if_cases (Turns S F m) (str_eq req.url "") _ _ (λ _. still)
        λ _. elim (Result-cases m (normalize_instance_url env req.url)) [
          | inr (t, e) ↦ rw e still
          | inl ((role, url), e) ↦ rw e (
              if_cases (Turns S F m) (is_some (lookup (encode_to_string random) m.instances)) _ _
                (λ _. still)
                (λ unknown.
                  also
                    (also still (
                      make (new_instance (encode_to_string random) req.alias role url (m.fresh + 1))
                        refl (ground (arith, unknown))))
                    (quiet refl refl refl (omega arith))))
        ]

module _ (env : Env) (w : Wait) (k : WaitLeads w) (m : Master) (r : IsRegistry m) where
  abbrev pub Answers : Response × Master → Type 0
  Answers a = Leads m a.1

  pub replace_url-Answers :
      (role url : String) (p : ℕ) → p < m.fresh → Answers (replace_url env w role url p m)
  unfolding replace_url save_state_async
  replace_url-Answers role url p b =
      let n : Master = stop_instance_locked env w p m in
      let ended = stop-Leads env w k p m r b in
      let c : p < n.fresh = omega (arith, b, (Moves-Follows ended).fresh) in
      let inst : Instance = record (n.heap p) {
        url = url;
        role = role;
        mode = 0;
        status = stopped;
      } in
      let kept : Leads m (store p (put p inst n)) =
        also (also ended (edit p inst refl (λ d s. refl) (λ d. d))) (keep p tt c) in
      also (Moves-trans kept (start-Leads env p (store p (put p inst n)) c))
        (quiet refl refl refl (omega arith))

  pub remove_instance-Answers :
      (id : String) (p : ℕ)
      → lookup id m.instances ≡ some p
      → Answers (remove_instance env w id p m)
  unfolding remove_instance save_state_async send_sse_event publish_event
  remove_instance-Answers id p e =
      let marked =
        also
          (also still (edit p (record (m.heap p) { deleted = true }) refl (λ d s. s) (λ d. refl)))
          (again id p e) in
      also
        (also
          (Moves-trans marked
            (stop-Leads env w k p _ (Moves-IsRegistry marked r) (r.named id p e).1))
          (forget id tt))
        (quiet refl refl refl (omega arith))

  pub detail-Leads :
      (random : List ℕ) (method : Method) (id : String)
      → Leads m (handle_instance_detail env w random method id m).1
  detail-Leads =
      detail_cases (Leads m) env w m still (λ random req p. patch_api_key-Turns random req p m)
        (λ req id p. commit_patch-Turns req id p m)
        (λ role url id p e. replace_url-Answers role url p (r.named id p e).1)
        remove_instance-Answers
