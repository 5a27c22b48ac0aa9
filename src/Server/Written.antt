-- ===== src/Server/Written.antt =====
-- internal/master/util.go: what an answer sets on its way to the client. The text of JSON is an
-- argument.
use open_ctrl.Base.{
  ℕ, String, Option, some, List, ◌≡◌, ◌⊎◌, inl, inr, lookup, insert, lookup-insert, refl,
}
use open_ctrl.Rest.Common.{
  Body, no_body, error_body, instance_body, list_body, alias_body, Response,
}

-- http.ResponseWriter: the headers, the status with which they have gone out, and the body.
pub record Written : Type 0 where
  pub header : List (String × String)
  pub status : Option ℕ
  pub body : List ℕ

-- w.Header().Set
abbrev pub set : String → String → Written → Written
set name value w = record w { header = insert name value w.header }

-- setCORSHeaders
unfoldable pub set_cors_headers : Written → Written
set_cors_headers w =
    set "Access-Control-Allow-Headers" "Content-Type, Authorization, X-API-Key, Cache-Control" (
      set "Access-Control-Allow-Methods" "GET, PATCH, POST, PUT, DELETE, OPTIONS"
        (set "Access-Control-Allow-Origin" "*" w))

-- writeJSON; `text` is what the encoder gives for the data.
unfoldable pub write_json : ℕ → List ℕ → Written → Written
write_json status_code text w =
    record (set "Content-Type" "application/json" (set_cors_headers w)) {
      status = some status_code;
      body = text;
    }

-- httpError; `encode` gives the text of a map with the one key `error`.
unfoldable pub http_error_json : (String → List ℕ) → String → ℕ → Written → Written
http_error_json encode message status_code w =
    record (set "Content-Type" "application/json" (set_cors_headers w)) {
      status = some status_code;
      body = encode message;
    }

-- An answer of a handler behind the middleware, which sets the headers first; `text` is the JSON of
-- a body that is no error.
unfoldable pub write_response : (Body → List ℕ) → (String → List ℕ) → Response → Written → Written
write_response text encode r w = elim r.body [
  | no_body ↦ record (set_cors_headers w) { status = some r.code }
  | error_body message ↦ http_error_json encode message r.code (set_cors_headers w)
  | instance_body inst ↦ write_json r.code (text (instance_body inst)) (set_cors_headers w)
  | list_body items ↦ write_json r.code (text (list_body items)) (set_cors_headers w)
  | alias_body alias ↦ write_json r.code (text (alias_body alias)) (set_cors_headers w)
]

-- What lets a page from anywhere read an answer, and what it says of its body.
pub record IsShared (r : Response) (w : Written) : Type 0 where
  pub origin : lookup "Access-Control-Allow-Origin" w.header ≡ some "*"
  pub content : (r.body ≡ no_body) ⊎ (lookup "Content-Type" w.header ≡ some "application/json")
  pub code : w.status ≡ some r.code

origin-set_cors_headers :
    (w : Written) → lookup "Access-Control-Allow-Origin" (set_cors_headers w).header ≡ some "*"
unfolding set_cors_headers
origin-set_cors_headers w = simp (lookup-insert)

typed-set_cors_headers :
    (w : Written)
    → let typed : Written = set "Content-Type" "application/json" (set_cors_headers w) in
      (lookup "Access-Control-Allow-Origin" typed.header ≡ some "*")
      × (lookup "Content-Type" typed.header ≡ some "application/json")
unfolding set_cors_headers
typed-set_cors_headers w = (simp (lookup-insert), simp (lookup-insert))

module _ (text : Body → List ℕ) (encode : String → List ℕ) (code : ℕ) (w : Written) where
  abbrev answer : Body → Response
  answer body = record { code = code; body = body }

  write_json-IsShared :
      (body : Body) (json : List ℕ)
      → IsShared (answer body) (write_json code json (set_cors_headers w))
  unfolding write_json
  write_json-IsShared body json = record {
    origin = (typed-set_cors_headers (set_cors_headers w)).0;
    content = inr (typed-set_cors_headers (set_cors_headers w)).1;
    code = refl;
  }

  body-IsShared :
      (body : Body) → IsShared (answer body) (write_response text encode (answer body) w)
  unfolding write_response http_error_json
  body-IsShared no_body = record {
    origin = origin-set_cors_headers w;
    content = inl refl;
    code = refl;
  }
  body-IsShared (error_body message) = record {
    origin = (typed-set_cors_headers (set_cors_headers w)).0;
    content = inr (typed-set_cors_headers (set_cors_headers w)).1;
    code = refl;
  }
  body-IsShared (instance_body inst) = write_json-IsShared (instance_body inst) _
  body-IsShared (list_body items) = write_json-IsShared (list_body items) _
  body-IsShared (alias_body alias) = write_json-IsShared (alias_body alias) _

-- Every answer behind the middleware may be read by pages from anywhere, says that its body is JSON
-- if it has one, and has the code of the response as its status.
write_response-IsShared :
    (text : Body → List ℕ) (encode : String → List ℕ) (r : Response) (w : Written)
    → IsShared r (write_response text encode r w)
write_response-IsShared text encode r w = body-IsShared text encode r.code w r.body
