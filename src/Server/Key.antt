-- ===== src/Server/Key.antt =====
-- internal/master/master.go: no request passes without the API key.
use open_ctrl.Types.{Master, put}
use open_ctrl.Env.{Env}
use open_ctrl.Base.{
  ℕ, ◌≡◌, refl, arith, String, true, false, none, some, List, insert, str_eq, eq_iff, inserted,
  ==_refl, if_cases,
}
use open_ctrl.Util.{encode_to_string}
use open_ctrl.Event.Publish.{send_sse_event, publish_event}
use open_ctrl.State.Save.{save_state, save_state_to_path, save_state_async}
use open_ctrl.Instance.Snapshot.{snapshot, find_instance}
use open_ctrl.Rest.Common.{Response, api_key_id, too_long}
use open_ctrl.Rest.Patch.{PatchRequest, patch_api_key, handle_patch_instance}
use open_ctrl.Rest.Info.{handle_info, set_alias}
use open_ctrl.Server.{ensure_api_key, check_key, api_key_middleware, key_instance}

-- The master asks for `key`.
pub record HasKey (key : String) (m : Master) : Type 0 where
  pub at : ℕ
  pub stored : find_instance api_key_id m ≡ some at
  pub url : (m.heap at).url ≡ key

-- With the right header a request is served, with any other one it is refused and changes nothing.
pub record IsGuarded (key : String) (m : Master) : Type 0 where
  pub served :
      (next : Master → Response × Master)
      → api_key_middleware (λ (r : Response). r) next false key m ≡ next m
  pub refused :
      (next : Master → Response × Master) (header : String)
      → str_eq header key ≡ false
      → ((api_key_middleware (λ (r : Response). r) next false header m).0.code ≡ 401)
        × ((api_key_middleware (λ (r : Response). r) next false header m).1 ≡ m)

pub HasKey-IsGuarded :
    (key : String) (m : Master) → str_eq key "" ≡ false → HasKey key m → IsGuarded key m
unfolding api_key_middleware check_key snapshot
HasKey-IsGuarded key m h k = record {
  served = λ next. rw (k.stored, k.url) (ground (arith, eq_iff key key));
  refused = λ next header e. rw (k.stored, k.url) (ground arith);
}

pub ensure-HasKey :
    (env : Env) (key name : List ℕ) (m : Master)
    → find_instance api_key_id m ≡ none
    → HasKey (encode_to_string key) (ensure_api_key env key name m)
unfolding ensure_api_key save_state save_state_to_path find_instance key_instance
ensure-HasKey env key name m h =
    rw (ensure_api_key, h)
      (record {
        at = m.fresh;
        stored = inserted api_key_id m.fresh m.instances;
        url = rw (==_refl m.fresh) refl;
      })

-- When no key is known, `Run` makes one: from then on, of the requests by other methods than
-- OPTIONS, one that carries this key is served, and any other is answered with 401 and changes
-- nothing. The key must not be the empty text.
pub ensure-IsGuarded :
    (env : Env) (key name : List ℕ) (m : Master)
    → find_instance api_key_id m ≡ none
    → str_eq (encode_to_string key) "" ≡ false
    → IsGuarded (encode_to_string key) (ensure_api_key env key name m)
ensure-IsGuarded env key name m h e =
    HasKey-IsGuarded (encode_to_string key) (ensure_api_key env key name m) e
      (ensure-HasKey env key name m h)

-- A PATCH of the key's entry with the action `restart` replaces the key: afterwards, of the
-- requests by other methods than OPTIONS, one that carries the new key is served, and any other is
-- answered with 401 and changes nothing. The new key must not be the empty text.
pub rotate-IsGuarded :
    (random : List ℕ) (req : PatchRequest) (p : ℕ) (m : Master)
    → str_eq req.action "restart" ≡ true
    → str_eq (encode_to_string random) "" ≡ false
    → IsGuarded (encode_to_string random) (handle_patch_instance random (some req) api_key_id p m).1
unfolding handle_patch_instance patch_api_key save_state_async send_sse_event publish_event
    find_instance
rotate-IsGuarded random req p m h e = HasKey-IsGuarded (encode_to_string random) _ e (
    rw h (record { at = p; stored = inserted api_key_id p m.instances; url = rw (==_refl p) refl }))

-- The master with its new alias, and the entry of the key with it.
abbrev aliased : String → ℕ → Master → Master
aliased alias p m =
    record (put p (record (m.heap p) { alias = alias }) (record m { alias = alias })) {
      instances = insert api_key_id p m.instances;
    }

set_alias-aliased :
    (alias : String) (p : ℕ) (m : Master)
    → find_instance api_key_id m ≡ some p
    → set_alias alias m ≡ save_state_async (aliased alias p m)
unfolding set_alias
set_alias-aliased alias p m h = rw (set_alias, h) refl

found_again :
    (alias : String) (p : ℕ) (m : Master)
    → find_instance api_key_id (save_state_async (aliased alias p m)) ≡ some p
unfolding find_instance save_state_async
found_again alias p m = inserted api_key_id p m.instances

aliased-kept :
    (env : Env) (key name : List ℕ) (alias : String) (p : ℕ) (m : Master)
    → (ensure_api_key env key name (save_state_async (aliased alias p m))).alias ≡ alias
unfolding ensure_api_key
aliased-kept env key name alias p m =
    rw (ensure_api_key, found_again alias p m) (unfold save_state_async in rw (==_refl p) refl)

set_alias-kept :
    (env : Env) (key name : List ℕ) (alias : String) (p : ℕ) (m : Master)
    → find_instance api_key_id m ≡ some p
    → (ensure_api_key env key name (set_alias alias m)).alias ≡ alias
set_alias-kept env key name alias p m h =
    rw (set_alias-aliased alias p m h) (aliased-kept env key name alias p m)

-- If a key is known, then after a POST of the master's alias that is answered with 200, a start of
-- the server takes this alias from the entry of the key.
info-kept :
    (env : Env) (key name : List ℕ) (alias : String) (p : ℕ) (m : Master)
    → find_instance api_key_id m ≡ some p
    → (handle_info (some alias) m).0.code ≡ 200
    → (ensure_api_key env key name (handle_info (some alias) m).1).alias ≡ alias
unfolding handle_info
info-kept env key name alias p m h =
    if_cases
      (λ (r : Response × Master). r.0.code ≡ 200 → (ensure_api_key env key name r.1).alias ≡ alias)
      (too_long alias) _ _ (λ _ c. absurd (omega arith))
      (λ _ _. set_alias-kept env key name alias p m h)
