-- ===== src/Rest/Refusal.antt =====
-- internal/master/rest.go: a request that is refused changes nothing.
use open_ctrl.Types.{Master}
use open_ctrl.Env.{Env, Wait, Result, ok, err}
use open_ctrl.Base.{
  ℕ, ◌≤◌, ◌≡◌, refl, inl, inr, arith, String, not, Option, none, some, List, ◌⊎◌, if_cases, str_eq,
  Option-cases, is_some, lookup, if◌then◌else◌,
}
use open_ctrl.Util.{encode_to_string}
use open_ctrl.Instance.Snapshot.{current_instance, find_instance}
use open_ctrl.Instance.Lifecycle.Start.{normalize_instance_url}
use open_ctrl.Rest.Common.{Response, api_key_id, still_stored, http_error}
use open_ctrl.Rest.Patch.{
  PatchRequest, handle_patch_instance, patch_api_key, commit_patch, check_patch,
}
use open_ctrl.Rest.Modify.{
  Method, get, patch, put_url, delete_method, other, handle_put_instance, handle_delete_instance,
  replace_url, remove_instance, dispatch, handle_instance_detail, create_instance, add_instance,
  CreateRequest,
}

-- An answer with an error code leaves the master as it was.
abbrev pub IsAtomic : Master → Response × Master → Type 0
IsAtomic m r = 400 ≤ r.0.code → r.1 ≡ m

module _ (m : Master) where
  pub Result-cases :
      {A : Type 0} (r : Result A) → ((a : A) × (r ≡ ok a)) ⊎ ((t : String) × (r ≡ err t))
  Result-cases (ok a) = inl (a, refl)
  Result-cases (err t) = inr (t, refl)

  refused : (message : String) (code : ℕ) → IsAtomic m (http_error message code, m)
  refused message code h = refl

  commit_patch-IsAtomic :
      (req : PatchRequest) (id : String) (p : ℕ) → IsAtomic m (commit_patch req id p m)
  unfolding commit_patch
  commit_patch-IsAtomic req id p h = absurd (omega arith)

  patch_api_key-IsAtomic :
      (random : List ℕ) (req : PatchRequest) (p : ℕ) → IsAtomic m (patch_api_key random req p m)
  unfolding patch_api_key
  patch_api_key-IsAtomic random req p h = absurd (omega arith)

  -- The checks that the handlers share, before they change an instance.
  found_cases :
      (id : String) (q : ℕ) (rest : Response × Master)
      → IsAtomic m rest
      → IsAtomic m (
          if not (still_stored id q m)
          then (http_error "instance not found" 404, m)
          else if (m.heap q).deleted
          then (http_error "instance not found" 404, m)
          else rest)
  found_cases id q rest h =
      if_cases (IsAtomic m) (not (still_stored id q m)) _ _ (λ _. refused "instance not found" 404)
        λ _.
          if_cases (IsAtomic m) (m.heap q).deleted _ _ (λ _. refused "instance not found" 404)
            (λ _. h)

  patch-IsAtomic :
      (random : List ℕ) (request : Option PatchRequest) (id : String) (p : ℕ)
      → IsAtomic m (handle_patch_instance random request id p m)
  unfolding handle_patch_instance
  patch-IsAtomic random none id p = refused "Invalid request body" 400
  patch-IsAtomic random (some req) id p =
      if_cases (IsAtomic m) (str_eq id api_key_id) _ _ (λ _. patch_api_key-IsAtomic random req p)
        (λ _. elim (Option-cases (check_patch req)) [
          | inl e ↦ rw e (
              found_cases id (current_instance p m) _
                (commit_patch-IsAtomic req id (current_instance p m)))
          | inr (t, e) ↦ rw e (refused t 400)
        ])

  module _ (env : Env) (w : Wait) where
    replace_url-IsAtomic : (role url : String) (p : ℕ) → IsAtomic m (replace_url env w role url p m)
    unfolding replace_url
    replace_url-IsAtomic role url p h = absurd (omega arith)

    remove_instance-IsAtomic : (id : String) (p : ℕ) → IsAtomic m (remove_instance env w id p m)
    unfolding remove_instance
    remove_instance-IsAtomic id p h = absurd (omega arith)

    put-IsAtomic :
        (request : Option String) (id : String) (p : ℕ)
        → IsAtomic m (handle_put_instance env w request id p m)
    unfolding handle_put_instance
    put-IsAtomic none id p =
        if_cases (IsAtomic m) (str_eq id api_key_id) _ _ (λ _. refused "Forbidden: API Key" 403)
          (λ _. refused "Invalid request body" 400)
    put-IsAtomic (some raw) id p =
        if_cases (IsAtomic m) (str_eq id api_key_id) _ _ (λ _. refused "Forbidden: API Key" 403)
          λ _.
            if_cases (IsAtomic m) (str_eq raw "") _ _ (λ _. refused "Invalid request body" 400)
              λ _. elim (Result-cases (normalize_instance_url env raw)) [
                | inr (t, e) ↦ rw e (refused t 400)
                | inl ((role, url), e) ↦ rw e (
                    found_cases id (current_instance p m) _ (
                      if_cases (IsAtomic m) (str_eq (m.heap (current_instance p m)).url url) _ _
                        (λ _. refused "instance URL conflict" 409)
                        (λ _. replace_url-IsAtomic role url (current_instance p m))))
              ]

    delete-IsAtomic : (id : String) (p : ℕ) → IsAtomic m (handle_delete_instance env w id p m)
    unfolding handle_delete_instance
    delete-IsAtomic id p =
        if_cases (IsAtomic m) (str_eq id api_key_id) _ _ (λ _. refused "Forbidden: API Key" 403)
          λ _.
            found_cases id (current_instance p m) _
              (remove_instance-IsAtomic id (current_instance p m))

    dispatch-IsAtomic :
        (random : List ℕ) (method : Method) (id : String) (p : ℕ)
        → IsAtomic m (dispatch env w random method id p m)
    unfolding dispatch
    dispatch-IsAtomic random get id p = λ h. refl
    dispatch-IsAtomic random (patch request) id p = patch-IsAtomic random request id p
    dispatch-IsAtomic random (put_url request) id p = put-IsAtomic request id p
    dispatch-IsAtomic random delete_method id p = delete-IsAtomic id p
    dispatch-IsAtomic random other id p = refused "Method not allowed" 405

    -- A request for one instance, by any method, that is answered with an error code changes
    -- nothing of the master: no instance, no subscriber, no file, no goroutine.
    pub detail_refused :
        (random : List ℕ) (method : Method) (id : String)
        → 400 ≤ (handle_instance_detail env w random method id m).0.code
        → (handle_instance_detail env w random method id m).1 ≡ m
    unfolding handle_instance_detail
    detail_refused random method id =
        if_cases (IsAtomic m) (str_eq id "") _ _ (λ _. refused "instance ID is required" 400)
          λ _.
            if_cases (IsAtomic m) (str_eq id "/") _ _ (λ _. refused "instance ID is required" 400)
              λ _. elim (Option-cases (find_instance id m)) [
                | inl e ↦ rw e (refused "instance not found" 404)
                | inr (p, e) ↦ rw e (dispatch-IsAtomic random method id p)
              ]

  -- A request to create an instance that is answered with an error code changes nothing of the
  -- master.
  pub create_refused :
      (env : Env) (random : List ℕ) (request : Option CreateRequest)
      → 400 ≤ (create_instance env random request m).0.code
      → (create_instance env random request m).1 ≡ m
  unfolding create_instance add_instance
  create_refused env random none = refused "Invalid request body" 400
  create_refused env random (some req) =
      if_cases (IsAtomic m) (str_eq req.url "") _ _ (λ _. refused "Invalid request body" 400)
        λ _. elim (Result-cases (normalize_instance_url env req.url)) [
          | inr (t, e) ↦ rw e (refused t 400)
          | inl ((role, url), e) ↦ rw e (
              if_cases (IsAtomic m) (is_some (lookup (encode_to_string random) m.instances)) _ _
                (λ _. refused "instance ID already exists" 409) (λ _ h. absurd (omega arith)))
        ]
