-- ===== src/Rest/Cases.antt =====
-- internal/master/rest.go: what a request for one instance may do, as a rule that the proofs about
-- `handleInstanceDetail` share.
use open_ctrl.Types.{Master}
use open_ctrl.Env.{Env, Wait}
use open_ctrl.Base.{
  ℕ, ◌≡◌, ◌∙◌, ap, sym, inl, inr, arith, String, true, not, Option, none, some, List, if_cases,
  str_eq, eq_iff, ==_iff, Option-cases, lookup, if◌then◌else◌,
}
use open_ctrl.Instance.Snapshot.{current_instance, find_instance}
use open_ctrl.Instance.Lifecycle.Start.{normalize_instance_url}
use open_ctrl.Instance.Lifecycle.Monitor.{points_to}
use open_ctrl.Rest.Common.{Response, api_key_id, still_stored, http_error}
use open_ctrl.Rest.Patch.{
  PatchRequest, handle_patch_instance, patch_api_key, commit_patch, check_patch,
}
use open_ctrl.Rest.Refusal.{Result-cases}
use open_ctrl.Rest.Modify.{
  Method, get, patch, put_url, delete_method, other, handle_put_instance, handle_delete_instance,
  replace_url, remove_instance, dispatch, handle_instance_detail,
}

pub points : (o : Option ℕ) (p : ℕ) → points_to o p ≡ true → o ≡ some p
points none p e = cc
points (some q) p e = ap some ((==_iff q p).0 e)

-- What holds of the master as it is, and of each of the four ways in which a request changes it,
-- holds of it after the request.
module _ {ℓ} (P : Master → Type ℓ) (env : Env) (w : Wait) (m : Master) (same : P m)
    (rotated : (random : List ℕ) (req : PatchRequest) (p : ℕ)
      → lookup api_key_id m.instances ≡ some p
      → P (patch_api_key random req p m).1)
    (patched : (req : PatchRequest) (id : String) (p : ℕ)
      → lookup id m.instances ≡ some p
      → P (commit_patch req id p m).1)
    (replaced : (role url id : String) (p : ℕ)
      → lookup id m.instances ≡ some p
      → P (replace_url env w role url p m).1)
    (removed : (id : String) (p : ℕ)
      → lookup id m.instances ≡ some p
      → P (remove_instance env w id p m).1) where
  -- What follows an answer: the handlers' results are pairs.
  abbrev After : Response × Master → Type ℓ
  After r = P r.1

  -- The checks that the handlers share, before they change an instance.
  found_cases :
      (id : String) (q : ℕ) (rest : Response × Master)
      → (lookup id m.instances ≡ some q → After rest)
      → After (
          if not (still_stored id q m)
          then (http_error "instance not found" 404, m)
          else if (m.heap q).deleted
          then (http_error "instance not found" 404, m)
          else rest)
  unfolding still_stored
  found_cases id q rest h =
      if_cases After (not (still_stored id q m)) _ _ (λ _. same)
        λ e.
          if_cases After (m.heap q).deleted _ _ (λ _. same)
            (λ _. h (points (lookup id m.instances) q (ground (arith, e))))

  patch_cases :
      (random : List ℕ) (request : Option PatchRequest) (id : String) (p : ℕ)
      → lookup id m.instances ≡ some p
      → After (handle_patch_instance random request id p m)
  unfolding handle_patch_instance
  patch_cases random none id p f = same
  patch_cases random (some req) id p f =
      if_cases After (str_eq id api_key_id) _ _
        (λ e.
          rotated random req p
            (ap (λ k. lookup k m.instances) (sym ((eq_iff id api_key_id).0 e)) ∙ f))
        (λ _. elim (Option-cases (check_patch req)) [
          | inl e ↦
              rw e (found_cases id (current_instance p m) _ (patched req id (current_instance p m)))
          | inr (t, e) ↦ rw e same
        ])

  put_cases :
      (request : Option String) (id : String) (p : ℕ)
      → After (handle_put_instance env w request id p m)
  unfolding handle_put_instance
  put_cases none id p = if_cases After (str_eq id api_key_id) _ _ (λ _. same) (λ _. same)
  put_cases (some raw) id p =
      if_cases After (str_eq id api_key_id) _ _ (λ _. same)
        λ _.
          if_cases After (str_eq raw "") _ _ (λ _. same)
            λ _. elim (Result-cases m (normalize_instance_url env raw)) [
              | inr (t, e) ↦ rw e same
              | inl ((role, url), e) ↦ rw e (
                  found_cases id (current_instance p m) _ λ f.
                    if_cases After (str_eq (m.heap (current_instance p m)).url url) _ _ (λ _. same)
                      (λ _. replaced role url id (current_instance p m) f))
            ]

  delete_cases : (id : String) (p : ℕ) → After (handle_delete_instance env w id p m)
  unfolding handle_delete_instance
  delete_cases id p =
      if_cases After (str_eq id api_key_id) _ _ (λ _. same)
        (λ _. found_cases id (current_instance p m) _ (removed id (current_instance p m)))

  dispatch_cases :
      (random : List ℕ) (method : Method) (id : String) (p : ℕ)
      → lookup id m.instances ≡ some p
      → After (dispatch env w random method id p m)
  unfolding dispatch
  dispatch_cases random get id p e = same
  dispatch_cases random (patch request) id p e = patch_cases random request id p e
  dispatch_cases random (put_url request) id p e = put_cases request id p
  dispatch_cases random delete_method id p e = delete_cases id p
  dispatch_cases random other id p e = same

  pub detail_cases :
      (random : List ℕ) (method : Method) (id : String)
      → P (handle_instance_detail env w random method id m).1
  unfolding handle_instance_detail find_instance
  detail_cases random method id =
      if_cases After (str_eq id "") _ _ (λ _. same)
        λ _.
          if_cases After (str_eq id "/") _ _ (λ _. same)
            λ _. elim (Option-cases (lookup id m.instances)) [
              | inl e ↦ rw e same
              | inr (p, e) ↦ rw e (dispatch_cases random method id p e)
            ]
