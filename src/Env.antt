-- ===== src/Env.antt =====
-- What the program gets from its surroundings: the answers of Go's net/url, of the operating system
-- and of its files. They are arguments of every operation that asks, so the theorems hold for all
-- of them.
use open_ctrl.Types.{Master}
use open_ctrl.Base.{ℕ, String, Bool, Option}

-- *url.URL: its scheme, and what its method String returns.
pub record Url : Type 0 where
  pub scheme : String
  pub text : String

-- A Go call that may fail, with the text of its error.
pub data Result {ℓ} (A : Type ℓ) : Type ℓ where
  ok : A → Result A
  err : String → Result A

-- Which file operations fail; a stat that fails here fails for another reason than a missing file.
pub record Files : Type 0 where
  pub stat_fails : Bool
  pub remove_fails : Bool
  pub mkdir_fails : Bool
  pub create_fails : Bool
  pub encode_fails : Bool
  pub close_fails : Bool
  pub rename_fails : Bool
  pub open_fails : Bool
  pub decode_fails : Bool

-- `executable` is os.Executable; `start` is cmd.Start for a program and its argument: no value is
-- an error, and the inner value is the pid of `cmd.Process`, if that is not nil.
pub record Env : Type 0 where
  pub parse_url : String → Result Url
  pub executable : Option String
  pub start : String → String → Option (Option ℕ)
  pub windows : Bool
  pub files : Files

-- What other goroutines do while a stopping instance waits for its process: during the grace
-- period, and after the process was killed.
pub record Wait : Type 0 where
  pub grace : Master → Master
  pub killed : Master → Master
