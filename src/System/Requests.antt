-- ===== src/System/Requests.antt =====
-- internal/master/master.go: what requests to the server do, as steps of the system.
use open_ctrl.Types.{Master}
use open_ctrl.Base.{
  String, Bool, List, [], ◌∷◌, All, if_cases, str_eq, ◌==◌, not, ◌||◌, Option-cases, inl, inr,
}
use open_ctrl.Rest.Common.{Response}
use open_ctrl.Rest.Info.{handle_info}
use open_ctrl.Server.{api_key_middleware, check_key}
use open_ctrl.Server.New.{ServerConfig}
use open_ctrl.Server.Info.{
  Host, InfoMethod, get_info, other_method, post_info, InfoAnswer, info_answer, handle_info_request,
}
use open_ctrl.Server.Serve.{
  Handler, instances, instance_detail, events, info, tcping, Request, Surroundings, Answer,
  answered, instances_request, info_method, detail_method, run_handler, Found, protected_endpoints,
  serve, serve_all,
}
use open_ctrl.Server.Serve.Intruders.{found_is}
use open_ctrl.Event.Opening.{Client, Opening, register, open_sse}
use open_ctrl.System.{Steps, done, then_step, detail, create, join, leave, IsRun}
use open_ctrl.System
use open_ctrl.System.Telemetry.{Steps-trans}
use open_ctrl.SysInfo.Devices.{ProcFiles}
use open_ctrl.Env.{Env}

-- The other goroutines take steps.
pub record IsPlaced (env : Env) (s : Surroundings) : Type 0 where
  pub waits : IsRun env s.wait
  pub streams : (n : Master) → Steps env n (s.client.meanwhile n)

module _ (env : Env) (m : Master) where
  abbrev pub Leads : {A : Type 0} → A × Master → Type 0
  Leads r = Steps env m r.1

  info-Leads :
      (host : Host) (config : ServerConfig) (proc : ProcFiles) (method : InfoMethod)
      → Leads (handle_info_request host config proc method m)
  unfolding handle_info_request info_answer
  info-Leads host config proc get_info = done
  info-Leads host config proc other_method = done
  info-Leads host config proc (post_info request) =
      let step : Steps env m (handle_info request m).1 =
        then_step done (System.Step.info request) in
      if_cases (λ (r : InfoAnswer × Master). Leads r) ((handle_info request m).0.code == 200) _ _
        (λ _. step) (λ _. step)

  instances-Leads : (s : Surroundings) (r : Request) → Steps env m (instances_request env s r m).1
  unfolding instances_request
  instances-Leads s r =
      if_cases (λ (a : Response × Master). Leads a) (str_eq r.method "GET") _ _ (λ _. done)
        λ _.
          if_cases (λ (a : Response × Master). Leads a) (str_eq r.method "POST") _ _
            (λ _. then_step done (create s.random r.create_body)) (λ _. done)

  -- A stream, where steps happen before its initial events.
  stream-Leads :
      (client : Client) (is_get : Bool)
      → ((n : Master) → Steps env n (client.meanwhile n))
      → Leads (open_sse client is_get m)
  unfolding open_sse
  stream-Leads client is_get h =
      let later : Steps env m (client.meanwhile (register m)) =
        Steps-trans (then_step done join) (h (register m)) in
      if_cases (λ (r : Opening × Master). Leads r) (not is_get) _ _ (λ _. done)
        λ _.
          if_cases (λ (r : Opening × Master). Leads r) (not client.deadline || not client.retry) _ _
            (λ _. then_step later (leave m.fresh))
            λ _.
              if_cases (λ (r : Opening × Master). Leads r) _ _ _
                (λ _. then_step later (leave m.fresh)) (λ _. later)

  module _ (config : ServerConfig) (s : Surroundings) (r : Request) (w : IsPlaced env s) where
    handler-Leads : (handler : Handler) → Leads (run_handler env config s r handler m)
    unfolding run_handler
    handler-Leads instances = instances-Leads s r
    handler-Leads instance_detail =
        then_step done (detail s.wait w.waits s.random (detail_method r) _)
    handler-Leads events = stream-Leads s.client (str_eq r.method "GET") w.streams
    handler-Leads info = info-Leads s.host config s.proc (info_method r)
    handler-Leads tcping = done

    middleware-Leads :
        (next : Master → Answer × Master) (options : Bool) (header : String)
        → Leads (next m)
        → Leads (api_key_middleware answered next options header m)
    unfolding api_key_middleware
    middleware-Leads next options header h =
        if_cases (λ (a : Answer × Master). Leads a) options _ _ (λ _. done)
          λ _. elim (Option-cases (check_key header m)) [
            | inl e ↦ rw e h
            | inr (refusal, e) ↦ rw e done
          ]

    serve-Leads :
        (find : List (String × Handler) → Request → Found) → Leads (serve find env config s r m)
    unfolding serve
    serve-Leads find = elim (found_is (find (protected_endpoints config.prefix) r)) [
      | inl (response, e) ↦ rw (e, serve) done
      | inr (handler, e) ↦
          rw (e, serve)
            (middleware-Leads (run_handler env config s r handler) (str_eq r.method "OPTIONS") r.key
              (handler-Leads handler))
    ]

module _ (env : Env) (find : List (String × Handler) → Request → Found)
    (config : ServerConfig) where
  -- Whatever a server is asked, by whomever, its answers take the master along steps of the system,
  -- so that what holds in every state that the system reaches holds after any requests. Condition:
  -- what happens while a stop waits, and before a stream begins, are steps of the system.
  serve_all-Steps :
      (requests : List (Surroundings × Request)) (m : Master)
      → All (λ (x : Surroundings × Request). IsPlaced env x.0) requests
      → Steps env m (serve_all find env config requests m).1
  unfolding serve_all
  serve_all-Steps [] m h = done
  serve_all-Steps ((s, r) ∷ rest) m (w, h) =
      Steps-trans (serve-Leads env m config s r w find) (serve_all-Steps rest _ h)
