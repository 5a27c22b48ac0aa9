-- ===== src/Telemetry/Discover/Pin.antt =====
-- internal/master/telemetry.go and runtime.go: whom an instance listens to, over what is discovered.
use open_ctrl.Types.{Master}
use open_ctrl.Base.{ℕ, String, Option, none, some, List, [], ◌∷◌, ◌≡◌, ◌≢◌, subst, sym, All}
use open_ctrl.Telemetry.Registry.{TelemetryRegistry, Json}
use open_ctrl.Telemetry.Session.{Round, run_telemetry}
use open_ctrl.Telemetry.Session.Identity.{IsNamed, IsPinned, IsPinning, run_telemetry-IsPinned}
use open_ctrl.Telemetry.Discover.{
  Platform, Directory, failed, missing, listed, found_in, discover_telemetry,
}
use open_ctrl.Telemetry.Discover.Sort.{All-sort}
use open_ctrl.Telemetry.Discover.Order.{registry-IsEntry, found-All}

abbrev entries_or_none : Option (List TelemetryRegistry) → List TelemetryRegistry
entries_or_none o = elim o [ none ↦ [] | some entries ↦ entries ]

discovered-IsNamed :
    (json : Json) (platform : Platform) (directory : Directory) (pid : ℕ)
    → All IsNamed (entries_or_none (discover_telemetry json platform directory pid))
unfolding discover_telemetry
discovered-IsNamed json platform failed pid = tt
discovered-IsNamed json platform missing pid = tt
discovered-IsNamed json platform (listed items) pid =
    All-sort IsNamed (found_in json platform pid items) (
      found-All json platform pid IsNamed items
        (λ item entry i f. (registry-IsEntry json platform pid item entry f).named))

-- A round whose entries are those of a discovery, and in which no other goroutine changes the
-- identity.
pub record IsDiscovering (json : Json) (p : ℕ) (identity : String) (round : Round) : Type 0 where
  pub platform : Platform
  pub directory : Directory
  pub pid : ℕ
  pub entries : round.discovered ≡ discover_telemetry json platform directory pid
  pub connecting :
      (entry : TelemetryRegistry) (m : Master)
      → IsPinned p identity m
      → IsPinned p identity (round.connecting entry m)
  pub during : (n : ℕ) (m : Master) → IsPinned p identity m → IsPinned p identity (round.during n m)
  pub pause : (m : Master) → IsPinned p identity m → IsPinned p identity (round.pause m)

module _ (json : Json) (p : ℕ) (identity : String) where
  round-IsPinning :
      (round : Round) → IsDiscovering json p identity round → IsPinning p identity round
  round-IsPinning round d = record {
    named =
        subst (λ o. All IsNamed (entries_or_none o)) (sym d.entries)
          (discovered-IsNamed json d.platform d.directory d.pid);
    connecting = d.connecting;
    during = d.during;
    pause = d.pause;
  }

  rounds-All :
      (rounds : List Round)
      → All (IsDiscovering json p identity) rounds
      → All (IsPinning p identity) rounds
  rounds-All [] h = tt
  rounds-All (round ∷ rounds) (h, hs) = (round-IsPinning round h, rounds-All rounds hs)

  -- An instance that has a telemetry identity keeps it over any rounds of its telemetry goroutine,
  -- whatever entries the directory holds, whatever processes it connects to and whatever they send,
  -- if no other goroutine changes the identity meanwhile.
  pub identity_stays :
      (rounds : List Round) (ctx cmd : ℕ) (m : Master)
      → identity ≢ ""
      → All (IsDiscovering json p identity) rounds
      → IsPinned p identity m
      → IsPinned p identity (run_telemetry json rounds ctx p cmd m).1
  identity_stays rounds ctx cmd m h d a =
      run_telemetry-IsPinned p cmd identity json rounds ctx m h (rounds-All rounds d) a
