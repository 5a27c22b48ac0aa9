-- ===== src/Rest/Modify/Creation.antt =====
-- internal/master/rest.go: what a created and a replaced instance are.
use open_ctrl.Types.{stopped, Master, start_task, save_state_task}
use open_ctrl.Env.{Env, Result, ok}
use open_ctrl.Base.{
  ℕ, ◌≡◌, refl, arith, inl, inr, String, true, false, none, some, List, [], ◌∷◌, ◌++◌, if_cases,
  str_eq, lookup, is_some, lookup-insert, inserted, ==_refl, ◌==◌,
}
use open_ctrl.Util.{encode_to_string}
use open_ctrl.Event.Publish.{send_sse_event, publish_event}
use open_ctrl.State.Save.{save_state_async}
use open_ctrl.Instance.Snapshot.{find_instance}
use open_ctrl.Instance.Lifecycle.Start.{supported_role, normalize_instance_url}
use open_ctrl.Rest.Common.{Response}
use open_ctrl.Rest.Refusal.{Result-cases}
use open_ctrl.Rest.Modify.{CreateRequest, create_instance, add_instance}

-- `n` is `m` with one more instance, under `id`, which waits for its first start.
pub record IsAdded (id alias role url : String) (m n : Master) : Type 0 where
  pub unused : find_instance id m ≡ none
  pub found : find_instance id n ≡ some m.fresh
  pub others : (j : String) → str_eq id j ≡ false → find_instance j n ≡ find_instance j m
  pub untouched : (q : ℕ) → (m.fresh == q) ≡ false → n.heap q ≡ m.heap q
  pub own_id : (n.heap m.fresh).id ≡ id
  pub own_alias : (n.heap m.fresh).alias ≡ alias
  pub own_role : (n.heap m.fresh).role ≡ role
  pub own_url : (n.heap m.fresh).url ≡ url
  pub at_rest : (n.heap m.fresh).status ≡ stopped
  pub scheduled : n.tasks ≡ (m.tasks ++ start_task m.fresh ∷ []) ++ save_state_task ∷ []

add_instance-IsAdded :
    (id alias role url : String) (m : Master)
    → find_instance id m ≡ none
    → IsAdded id alias role url m (add_instance id alias role url m).1
unfolding add_instance find_instance send_sse_event publish_event save_state_async
add_instance-IsAdded id alias role url m h = record {
  unused = h;
  found = inserted id m.fresh m.instances;
  others = λ j e. ground (arith, lookup-insert id j m.fresh m.instances);
  untouched = λ q e. rw e refl;
  own_id = rw (==_refl m.fresh) refl;
  own_alias = rw (==_refl m.fresh) refl;
  own_role = rw (==_refl m.fresh) refl;
  own_url = rw (==_refl m.fresh) refl;
  at_rest = rw (==_refl m.fresh) refl;
  scheduled = refl;
}

module _ (env : Env) (raw : String) where
  normalize-supported :
      (m : Master) (role url : String)
      → normalize_instance_url env raw ≡ ok (role, url)
      → supported_role role ≡ true
  unfolding normalize_instance_url
  normalize-supported m role url =
      let P : Result (String × String) → Type 0 =
        λ r. r ≡ ok (role, url) → supported_role role ≡ true in
      elim (Result-cases m (env.parse_url raw)) [
        | inr (t, e) ↦ rw (normalize_instance_url, e) (λ h. cc h)
        | inl (u, e) ↦
            rw (normalize_instance_url, e)
              (if_cases P (supported_role u.scheme) _ _ (λ s h. cc (s, h)) (λ _ h. cc h))
      ]

absent :
    (id : String) (m : Master) → is_some (lookup id m.instances) ≡ false → find_instance id m ≡ none
unfolding find_instance
absent id m h = ground arith

-- A creation from the URL `raw`, which normalizes to a URL of a supported role.
pub record IsCreation (env : Env) (id alias raw : String) (m n : Master) : Type 0 where
  pub role : String
  pub url : String
  pub normalized : normalize_instance_url env raw ≡ ok (role, url)
  pub supported : supported_role role ≡ true
  pub added : IsAdded id alias role url m n

-- A request to create an instance that is answered with 201 adds exactly one instance, of a
-- supported role, under an id that was free: it has the given alias and the normalized URL, is
-- stopped and waits for its first start; all others are left alone.
pub create_adds :
    (env : Env) (random : List ℕ) (req : CreateRequest) (m : Master)
    → (create_instance env random (some req) m).0.code ≡ 201
    → IsCreation env
        (encode_to_string random)
        req.alias
        req.url
        m
        (create_instance env random (some req) m).1
unfolding create_instance
create_adds env random req m =
    let id : String = encode_to_string random in
    let P : Response × Master → Type 0 =
      λ r. r.0.code ≡ 201 → IsCreation env id req.alias req.url m r.1 in
    if_cases P (str_eq req.url "") _ _ (λ _ h. absurd (omega arith))
      λ _. elim (Result-cases m (normalize_instance_url env req.url)) [
        | inr (t, e) ↦ rw e (λ h. absurd (omega arith))
        | inl ((role, url), e) ↦ rw e (
            if_cases P (is_some (lookup id m.instances)) _ _ (λ _ h. absurd (omega arith))
              λ free _. record {
                role = role;
                url = url;
                normalized = e;
                supported = normalize-supported env req.url m role url e;
                added = add_instance-IsAdded id req.alias role url m (absent id m free);
              })
      ]
