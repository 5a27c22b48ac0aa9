-- ===== src/Telemetry/Unix/Linux.antt =====
-- internal/master/linux.go: processes, namespaces and the peers of sockets on Linux.
use Prim.Native.Char.{code}
use Prim.Native.String.{◌++◌ as str_append}
use mathlib.Core.Option.{some-injective}
use open_ctrl.Base.{
  subst, ℕ, String, Bool, true, false, not, ◌&&◌, ◌||◌, Option, none, some, [], ◌∷◌, ◌==◌, leb,
  str_eq, if◌then◌else◌, get_elem?, drop, bind-some, guard-some, ◌>>=◌, ◌≡◌, arith,
}
use open_ctrl.Proc.{Bytes, fields, parse_uint, value_of}
use open_ctrl.Telemetry.Frame.{Conn}
use open_ctrl.Telemetry.Registry.{DiscoveredInstance}
use open_ctrl.Telemetry.Unix.{Unix, UnixSystem, dial_telemetry}

-- The answers: /proc/<pid>/stat; the text of boot_id, and the links of the namespaces; the user and
-- the process at the other end of a socket, from SO_PEERCRED, as unsigned numbers. No value is an
-- error of any call on the way.
pub record Linux : Type 0 where
  pub stat_text : ℕ → Option Bytes
  pub boot_id : Option String
  pub pid_namespace : Option String
  pub user_namespace : Option String
  pub peer_cred : Conn → Option (ℕ × ℕ)

-- What follows the last ')', and whether there is one; `none` if there is none.
unfoldable pub after_last_paren : Bytes → Option Bytes
after_last_paren [] = none
after_last_paren (b ∷ r) = elim (after_last_paren r) [
  | some rest ↦ some rest
  | none ↦ if b == 0x29 then some r else none
]

-- linuxProcessIncarnation: the 20th field behind the name of the process, and 0 if there is none. On
-- a text that ends with the ')', which the kernel does not write, the source panics; here it is 0.
unfoldable pub linux_process_incarnation : Linux → ℕ → ℕ
linux_process_incarnation l pid = elim (l.stat_text pid) [
  | none ↦ 0
  | some text ↦ elim (after_last_paren text) [
    | none ↦ 0
    | some rest ↦ elim (get_elem? (fields (drop 1 rest)) 19) [
      | none ↦ 0
      | some field ↦ value_of (parse_uint field)
    ]
  ]
]

-- validateProcessIncarnation
unfoldable pub validate_process_incarnation : Linux → DiscoveredInstance → Bool
validate_process_incarnation l instance =
    let value : ℕ = linux_process_incarnation l instance.pid in
    not (value == 0) && value == instance.incarnation

-- unicode.IsSpace
abbrev pub is_space : ℕ → Bool
is_space c =
    (leb 0x09 c && leb c 0x0d)
    || (c == 0x20
        || (c == 0x85
            || (c == 0xa0
                || (c == 0x1680
                    || ((leb 0x2000 c && leb c 0x200a)
                        || (c == 0x2028
                            || (c == 0x2029 || (c == 0x202f || (c == 0x205f || c == 0x3000)))))))))

unfoldable pub trim_left : String → String
trim_left String.[] = ""
trim_left (String.◌∷◌ c s) =
    let rest = trim_left s in if is_space (code c) then rest else String.◌∷◌ c s

unfoldable pub trim_right : String → String
trim_right String.[] = ""
trim_right (String.◌∷◌ c s) =
    let rest = trim_right s in if is_space (code c) && str_eq rest "" then "" else String.◌∷◌ c rest

-- telemetryNamespace; strings.TrimSpace trims both ends.
unfoldable pub telemetry_namespace : Linux → Option String
telemetry_namespace l = do
  boot_id ← l.boot_id
  pid_namespace ← l.pid_namespace
  user_namespace ← l.user_namespace
  some (
      str_append (trim_right (trim_left boot_id))
        (str_append ";" (str_append pid_namespace (str_append ";" user_namespace))))

-- The test of validateTelemetryPeer, negated.
abbrev pub is_peer : Option (ℕ × ℕ) → ℕ → ℕ → Bool
is_peer none euid pid = false
is_peer (some (uid, peer)) euid pid = uid == euid && peer == pid

-- What linux.go adds to unixipc.go.
unfoldable pub linux_system : Linux → ℕ → UnixSystem
linux_system l euid = record {
  validate_telemetry_peer = λ conn pid. is_peer (l.peer_cred conn) euid pid;
  validate_process_incarnation = validate_process_incarnation l;
  telemetry_namespace = telemetry_namespace l;
}

is_peer-some :
    (o : Option (ℕ × ℕ)) (euid pid : ℕ) → is_peer o euid pid ≡ true → o ≡ some (euid, pid)
is_peer-some none euid pid e = cc
is_peer-some (some (uid, peer)) euid pid e = ground (arith, e)

-- A connection that is made on Linux leads to the process with the pid, run by the user of this one.
pub dial_telemetry-peer :
    (u : Unix) (l : Linux) (endpoint : String) (pid : ℕ) (conn : Conn)
    → u.system ≡ linux_system l u.euid
    → dial_telemetry u endpoint pid ≡ some conn
    → l.peer_cred conn ≡ some (u.euid, pid)
unfolding dial_telemetry linux_system
dial_telemetry-peer u l endpoint pid conn s e =
    let (p, e1) = guard-some (_) _ _ e in
    let (q, e2) = guard-some (_) _ _ e1 in
    let (c, k, e3) = bind-some (u.connect endpoint) _ _ e2 in
    let (v, e4) = guard-some (u.system.validate_telemetry_peer c pid) _ _ e3 in
    let of_linux : is_peer (l.peer_cred c) u.euid pid ≡ true =
      subst (λ t. t.validate_telemetry_peer c pid ≡ true) s v in
    subst (λ d. l.peer_cred d ≡ some (u.euid, pid)) (some-injective c conn e4)
      (is_peer-some (l.peer_cred c) u.euid pid of_linux)
