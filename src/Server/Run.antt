-- ===== src/Server/Run.antt =====
-- internal/master/master.go: `Run`, from the API key to the shutdown. Listening, and the wait for a
-- signal, are not modelled.
use open_ctrl.Types.{Master}
use open_ctrl.Env.{Env}
use open_ctrl.Base.{ℕ, List, Option}
use open_ctrl.Server.{ensure_api_key}
use open_ctrl.Server.Shutdown.{Meanwhile, Overdue, ShutdownError, shutdown_until}

-- (*Master).Run: `serving` is what requests, periodic tasks and processes do until the signal comes,
-- and `overdue` tells where the shutdown is when its deadline passes, if it does.
unfoldable pub run :
    Env
    → Meanwhile
    → Option Overdue
    → (key name : List ℕ) → (serving : Master → Master) → Master
    → Option ShutdownError × Master
run env w overdue key name serving m =
    shutdown_until env w overdue (serving (ensure_api_key env key name m))
