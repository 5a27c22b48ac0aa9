-- ===== src/Server/Serve/Intruders.antt =====
-- Requests without the key, one after another.
use open_ctrl.Types.{Master}
use open_ctrl.Env.{Env}
use open_ctrl.Base.{◌≡◌, ◌⊎◌, inl, inr, refl, String, false, List, str_eq}
use open_ctrl.Rest.Common.{Response, no_body}
use open_ctrl.Server.New.{ServerConfig}
use open_ctrl.Server.Serve.{
  Handler, Request, Surroundings, Answer, answered, Found, entry, own_answer, protected_endpoints,
}

-- The answer to a request that no handler saw: unauthorized, that to OPTIONS, or what `own` allows.
abbrev pub IsTurnedAway : (Response → Type 0) → Answer → Type 0
IsTurnedAway own (answered r) = (r.code ≡ 401) ⊎ (r ≡ record { code = 200; body = no_body }) ⊎ own r
IsTurnedAway own _ = ⊥

abbrev pub IsIntruder : String → Surroundings × Request → Type 0
IsIntruder key (s, r) = str_eq r.key key ≡ false

-- An answer of http.ServeMux to some request.
abbrev pub IsOwn : (List (String × Handler) → Request → Found) → ServerConfig → Response → Type 0
IsOwn find config response =
    (r : Request) × (find (protected_endpoints config.prefix) r ≡ own_answer response)

-- The request changed nothing, and no handler saw it.
abbrev IsRepelled : (Response → Type 0) → Master → Answer × Master → Type 0
IsRepelled own m r = IsTurnedAway own r.0 × (r.1 ≡ m)

pub found_is :
    (f : Found)
    → ((response : Response) × (f ≡ own_answer response))
      ⊎ ((handler : Handler) × (f ≡ entry handler))
found_is (own_answer response) = inl (response, refl)
found_is (entry handler) = inr (handler, refl)
