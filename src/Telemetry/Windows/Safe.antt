-- ===== src/Telemetry/Windows/Safe.antt =====
-- internal/master/winpipe.go: whom a pipe is opened to, and which files are read.
use mathlib.Core.Option.{some-injective}
use open_ctrl.Base.{
  ◌∙◌, ℕ, ◌+◌, ◌*◌, ◌≤◌, ◌<◌, ◌≡◌, ◌↔◌, refl, ap, sym, arith, String, true, Option, none, some,
  ==_iff, ==_refl, subst, eq_iff,
}
use text.Mathlib.Text.{starts_with}
use text.Mathlib.TextPositions.{starts_with-append}
use text.Mathlib.TextLemmas.{append_assoc}
use Prim.Native.String.{◌++◌ as str_append}
use open_ctrl.Telemetry.Frame.{Conn}
use open_ctrl.Telemetry.Windows.{
  telemetry_endpoint, Reply, got, not_exist, refused, bind-got, guard-got, Windows,
  telemetry_user_key, pipe_prefix, process_user_sid, current_user_sid, equal_sid, dial_telemetry,
  value_got, open_pipe, is_pid, same_text, created_at, ticks, unix_epoch,
}

-- The pipe is one of the user of this process, by its name, and by the process that serves it: that
-- has the pid, and a user with the same identifier.
pub record IsOwnPipe (w : Windows) (endpoint : String) (pid : ℕ) (conn : Conn) : Type 0 where
  pub key : String
  pub user_key : telemetry_user_key w ≡ got key
  pub name : starts_with endpoint (str_append pipe_prefix (str_append key "-")) ≡ true
  pub path : String
  pub path_of : w.utf16 endpoint ≡ got path
  pub handle : ℕ
  pub opened : open_pipe w path ≡ got handle
  pub server : w.server_pid handle ≡ some pid
  pub server_sid : ℕ
  pub of_server : process_user_sid w pid ≡ got server_sid
  pub user_sid : ℕ
  pub of_user : current_user_sid w ≡ got user_sid
  pub text : String
  pub server_text : w.sid_text server_sid ≡ got text
  pub user_text : w.sid_text user_sid ≡ got text
  pub result : w.connection handle ≡ conn

is_pid-some : (o : Option ℕ) (pid : ℕ) → is_pid o pid ≡ true → o ≡ some pid
is_pid-some none pid e = cc
is_pid-some (some server) pid e = ap some ((==_iff server pid).0 e)

same_text-got :
    (left right : Reply String)
    → same_text left right ≡ true
    → (text : String) × (left ≡ got text) × (right ≡ got text)
same_text-got (got left) (got right) e = (left, refl, ap got (sym ((eq_iff left right).0 e)))
same_text-got not_exist right e = cc
same_text-got refused right e = cc
same_text-got (got left) not_exist e = cc
same_text-got (got left) refused e = cc

value_got-got {ℓ} : {A : Type ℓ} (r : Reply A) (a : A) → value_got r ≡ some a → r ≡ got a
value_got-got (got b) a e = ap got (some-injective b a e)
value_got-got not_exist a e = cc
value_got-got refused a e = cc

dial_telemetry-IsOwnPipe :
    (w : Windows) (endpoint : String) (pid : ℕ) (conn : Conn)
    → dial_telemetry w endpoint pid ≡ some conn
    → IsOwnPipe w endpoint pid conn
unfolding dial_telemetry equal_sid
dial_telemetry-IsOwnPipe w endpoint pid conn e0 =
    let e = value_got-got _ conn e0 in
    let (key, k, e1) = bind-got (telemetry_user_key w) _ _ e in
    let (n, e2) =
      guard-got (starts_with endpoint (str_append pipe_prefix (str_append key "-"))) _ _ e1 in
    let (path, u, e3) = bind-got (w.utf16 endpoint) _ _ e2 in
    let (handle, o, e4) = bind-got (open_pipe w path) _ _ e3 in
    let (p, e5) = guard-got (is_pid (w.server_pid handle) pid) _ _ e4 in
    let (server_sid, s, e6) = bind-got (process_user_sid w pid) _ _ e5 in
    let (user_sid, c, e7) = bind-got (current_user_sid w) _ _ e6 in
    let (same, e8) = guard-got (same_text (w.sid_text server_sid) (w.sid_text user_sid)) _ _ e7 in
    let (text, l, r) = same_text-got (w.sid_text server_sid) (w.sid_text user_sid) same in
    record {
      key = key;
      user_key = k;
      name = n;
      path = path;
      path_of = u;
      handle = handle;
      opened = o;
      server = is_pid-some (w.server_pid handle) pid p;
      server_sid = server_sid;
      of_server = s;
      user_sid = user_sid;
      of_user = c;
      text = text;
      server_text = l;
      user_text = r;
      result = cc (e8);
    }

is_pid-same : (pid : ℕ) → is_pid (some pid) pid ≡ true
is_pid-same pid = ==_refl pid

same_text-same : (text : String) → same_text (got text) (got text) ≡ true
same_text-same text = (eq_iff text text).1 refl

IsOwnPipe-dial_telemetry :
    (w : Windows) (endpoint : String) (pid : ℕ) (conn : Conn)
    → IsOwnPipe w endpoint pid conn
    → dial_telemetry w endpoint pid ≡ some conn
unfolding dial_telemetry equal_sid
IsOwnPipe-dial_telemetry w endpoint pid conn o = rw (o.user_key) (
    rw (o.name, o.path_of, o.opened, o.server)
      (rw (is_pid-same pid, o.of_server, o.of_user)
        (rw (o.server_text, o.user_text) (rw (same_text-same o.text) (ap some o.result)))))

endpoint-name :
    (w : Windows) (id key : String)
    → telemetry_user_key w ≡ got key
    → starts_with (telemetry_endpoint w id) (str_append pipe_prefix (str_append key "-")) ≡ true
unfolding telemetry_endpoint
endpoint-name w id key k = rw k (
    subst (λ s. starts_with s (str_append pipe_prefix (str_append key "-")) ≡ true)
      (append_assoc pipe_prefix (str_append key "-") id
        ∙ ap (str_append pipe_prefix) (append_assoc key "-" id))
      (starts_with-append (str_append pipe_prefix (str_append key "-")) id))

pub dial_telemetry_lem :
    (w : Windows) (key endpoint id : String) (pid : ℕ) (conn : Conn)
    → telemetry_user_key w ≡ got key
    → ((dial_telemetry w endpoint pid ≡ some conn) ↔ IsOwnPipe w endpoint pid conn)
      × (starts_with (telemetry_endpoint w id) (str_append pipe_prefix (str_append key "-")) ≡ true)
dial_telemetry_lem w key endpoint id pid conn k = (
  (dial_telemetry-IsOwnPipe w endpoint pid conn, IsOwnPipe-dial_telemetry w endpoint pid conn),
  endpoint-name w id key k,
)

-- A process passes exactly if its creation, in ticks, falls into the millisecond that is stated.
created_at_lem :
    (time : ℕ × ℕ) (incarnation : ℕ)
    → (created_at time incarnation ≡ true) ↔ (
        (unix_epoch + incarnation * 10000 ≤ ticks time)
        × (ticks time < unix_epoch + incarnation * 10000 + 10000))
unfolding created_at
created_at_lem time incarnation = (λ h. ground (arith, h), λ h. ground (arith, h))
