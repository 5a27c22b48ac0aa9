-- ===== src/Telemetry/Session/Identity.antt =====
-- internal/master/runtime.go: the first greeting of an instance fixes whom it listens to.
use Prim.Native.String.{◌++◌ as str_append}
use mathlib.Core.Option.{some-injective}
use open_ctrl.Types.{Master}
use open_ctrl.Base.{
  ℕ, String, true, not, ◌&&◌, ◌||◌, Option, some, List, [], ◌∷◌, ◌≡◌, ◌≢◌, sym, ap, ◌∙◌, subst, All,
  ==_refl, eq_iff, ◌==◌, str_eq, if_cases, arith, bind-some, guard-some,
}
use open_ctrl.Event.Publish.{send_sse_event, publish_event}
use open_ctrl.Telemetry.Apply.{
  telemetry_current, apply_snapshot, apply_telemetry_snapshot, apply_telemetry_hello,
  clear_active_telemetry, identity_matches,
}
use open_ctrl.Telemetry.Frame.{Conn, set_read_deadline, read_telemetry_frame}
use open_ctrl.Telemetry.Registry.{TelemetryRegistry, TelemetryDescriptor, Json}
use open_ctrl.Telemetry.Session.{
  trim_nowhere, greets, connect_telemetry, entries_of, run_telemetry, Round,
}
use open_ctrl.Telemetry.Session.Rule.{IsKept, IsKeptIn, rounds_keep}

-- The registry's name begins with "nowhere.", as that of every entry discovered.
abbrev pub IsNamed : TelemetryRegistry → Type 0
IsNamed entry =
    str_append "nowhere." (trim_nowhere entry.instance.registry_name) ≡ entry.instance.registry_name

abbrev pub IsPinned : ℕ → String → Master → Type 0
IsPinned p identity m = (m.heap p).telemetry_identity ≡ identity

-- The other goroutines leave the identity alone, and the entries are named as they must be.
pub record IsPinning (p : ℕ) (identity : String) (round : Round) : Type 0 where
  pub named : All IsNamed (entries_of round)
  pub connecting :
      (entry : TelemetryRegistry) (m : Master)
      → IsPinned p identity m
      → IsPinned p identity (round.connecting entry m)
  pub during : (n : ℕ) (m : Master) → IsPinned p identity m → IsPinned p identity (round.during n m)
  pub pause : (m : Master) → IsPinned p identity m → IsPinned p identity (round.pause m)

greets-id :
    (entry : TelemetryRegistry) (hello : TelemetryDescriptor)
    → greets entry hello ≡ true
    → hello.id ≡ trim_nowhere entry.instance.registry_name
unfolding greets
greets-id entry hello e =
    ground (arith, e, eq_iff hello.id (trim_nowhere entry.instance.registry_name))

connect-id :
    (json : Json) (dial : Option Conn) (entry : TelemetryRegistry) (c : Conn × TelemetryDescriptor)
    → connect_telemetry json dial entry ≡ some c
    → c.1.id ≡ trim_nowhere entry.instance.registry_name
unfolding connect_telemetry
connect-id json dial entry c e =
    let (conn, d, e1) = bind-some dial _ _ e in
    let (timed, t, e2) = bind-some (set_read_deadline conn) _ _ e1 in
    let (frame, f, e3) = bind-some (read_telemetry_frame json.envelope timed) _ _ e2 in
    let (g1, e4) = guard-some (str_eq frame.0.type "hello") _ _ e3 in
    let (hello, h, e5) = bind-some (json.hello frame.0.body) _ _ e4 in
    let (g2, e6) = guard-some (greets entry hello) _ _ e5 in
    subst (λ (q : Conn × TelemetryDescriptor). q.1.id ≡ trim_nowhere entry.instance.registry_name)
      (some-injective _ _ e6) (greets-id entry hello g2)

module _ (p cmd : ℕ) (identity : String) where
  pin-IsKept : (json : Json) → IsKept (IsPinned p identity) json p cmd
  unfolding apply_telemetry_snapshot apply_snapshot clear_active_telemetry send_sse_event
      publish_event
  pin-IsKept json = record {
    traffic = λ value m a.
        if_cases (IsPinned p identity) (telemetry_current p cmd m) _ _ (λ _. rw (==_refl p) a)
          (λ _. a);
    silence = λ m a.
        if_cases (IsPinned p identity)
          (telemetry_current p cmd m && (not ((m.heap p).tcps == 0) || not ((m.heap p).udps == 0)))
          _ _ (λ _. rw (==_refl p) a) (λ _. a);
  }

  matches-name :
      (name : String) → identity ≢ "" → identity_matches identity name ≡ true → identity ≡ name
  unfolding identity_matches
  matches-name name h e = ground (arith, h, e, eq_iff identity "", eq_iff identity name)

  -- A greeting from the one that the identity names leaves it.
  greeting-IsPinned :
      (id : String) (m : Master)
      → str_append "nowhere." id ≡ identity
      → IsPinned p identity m
      → IsPinned p identity (apply_telemetry_hello id p cmd m)
  unfolding apply_telemetry_hello
  greeting-IsPinned id m e a =
      if_cases (IsPinned p identity) (telemetry_current p cmd m) _ _ (λ _. rw (==_refl p) e)
        (λ _. a)

  round-IsKeptIn :
      (json : Json) (round : Round)
      → identity ≢ ""
      → IsPinning p identity round
      → IsKeptIn (IsPinned p identity) IsNamed json p cmd round
  round-IsKeptIn json round h r = record {
    known = r.named;
    connecting = r.connecting;
    greeting = λ entry c l m q al i e am.
        greeting-IsPinned c.1.id m
          (ap (str_append "nowhere.") (connect-id json (round.dial entry) entry c e)
            ∙ q
            ∙ sym (
                matches-name _ h
                  (subst (λ t. identity_matches t entry.instance.registry_name ≡ true) al i)))
          am;
    during = r.during;
    pause = r.pause;
  }

  rounds-All :
      (json : Json) (rounds : List Round)
      → identity ≢ ""
      → All (IsPinning p identity) rounds
      → All (IsKeptIn (IsPinned p identity) IsNamed json p cmd) rounds
  rounds-All json [] h r = tt
  rounds-All json (round ∷ rounds) h (r, rs) =
      (round-IsKeptIn json round h r, rounds-All json rounds h rs)

  -- An instance that has a telemetry identity keeps it over any rounds of its telemetry goroutine,
  -- whatever processes it finds and connects to, if the entries are named as `discoverTelemetry`
  -- wants them and no other goroutine changes the identity meanwhile.
  pub run_telemetry-IsPinned :
      (json : Json) (rounds : List Round) (ctx : ℕ) (m : Master)
      → identity ≢ ""
      → All (IsPinning p identity) rounds
      → IsPinned p identity m
      → IsPinned p identity (run_telemetry json rounds ctx p cmd m).1
  unfolding run_telemetry
  run_telemetry-IsPinned json rounds ctx m h r a =
      rounds_keep (IsPinned p identity) json p cmd (pin-IsKept json) IsNamed (m.heap p).role ctx
        rounds 1 m (rounds-All json rounds h r) a
