-- ===== src/Rest/Info.antt =====
-- internal/master/rest.go: `handleInfo`, POST. Of the answer, which Server.Info gathers, only the
-- alias stands here.
use open_ctrl.Types.{Master, put}
use open_ctrl.Base.{String, Option, none, some, insert, if◌then◌else◌}
use open_ctrl.State.Save.{save_state_async}
use open_ctrl.Instance.Snapshot.{find_instance}
use open_ctrl.Rest.Common.{Response, alias_body, api_key_id, http_error, too_long}

-- The alias of the master, which the entry of the API key keeps over a restart.
unfoldable pub set_alias : String → Master → Master
set_alias alias m =
    let named : Master = record m { alias = alias } in
    elim (find_instance api_key_id m) [
      | none ↦ named
      | some p ↦ save_state_async (record (put p (record (m.heap p) { alias = alias }) named) {
        instances = insert api_key_id p m.instances;
      })
    ]

-- (*Master).handleInfo, POST; `none` is a body that does not decode.
unfoldable pub handle_info : Option String → Master → Response × Master
handle_info none m = (http_error "Invalid request body" 400, m)
handle_info (some alias) m =
    if too_long alias
    then (http_error "Master alias exceeds maximum length 256" 400, m)
    else let m' : Master = set_alias alias m in
      (record { code = 200; body = alias_body m'.alias }, m')
