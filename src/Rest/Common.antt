-- ===== src/Rest/Common.antt =====
-- internal/master/rest.go: responses, and the checks that the handlers share. A request's JSON body
-- comes decoded; `none` is a body that does not decode.
use Prim.Native.String.{len}
use open_ctrl.Types.{Instance, Master, Task}
use open_ctrl.Base.{ℕ, String, Bool, List, [], ◌∷◌, ◌++◌, lookup, ltb}
use open_ctrl.Instance.Lifecycle.Monitor.{points_to}

pub data Body : Type 0 where
  no_body : Body
  error_body : String → Body
  instance_body : Instance → Body
  list_body : List Instance → Body
  alias_body : String → Body

pub record Response : Type 0 where
  pub code : ℕ
  pub body : Body

-- const apiKeyID, const maxValueLen
abbrev pub api_key_id : String
api_key_id = "********"

abbrev pub max_value_len : ℕ
max_value_len = 256

-- len(value) > maxValueLen: the bytes of the text.
unfoldable pub too_long : String → Bool
too_long value = ltb max_value_len (len value)

abbrev pub http_error : String → ℕ → Response
http_error message code = record { code = code; body = error_body message }

-- The answer with a snapshot.
abbrev pub write_instance : ℕ → Instance → Response
write_instance code inst = record { code = code; body = instance_body inst }

abbrev pub go : Task → Master → Master
go task m = record m { tasks = m.tasks ++ task ∷ [] }

-- value, exists := m.instances.Load(id); exists && value == inst
unfoldable pub still_stored : String → ℕ → Master → Bool
still_stored id p m = points_to (lookup id m.instances) p
