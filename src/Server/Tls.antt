-- ===== src/Server/Tls.antt =====
-- internal/master/tls.go: how the server comes by its TLS configuration, and which certificate it
-- shows. Certificates are numbers; loading a pair of files is Go's crypto, and its answers are
-- arguments. Times are in seconds.
pub mod Fresh
pub mod SelfSigned
use SelfSigned.{CertEnv, new_tls_config}
use open_ctrl.Base.{
  ℕ, ◌-◌, ◌≤◌, String, Bool, Option, none, some, List, [], ◌∷◌, leb, str_eq, if◌then◌else◌,
}

pub data TlsMode : Type 0 where
  tls_none tls_self_signed tls_ca_trusted : TlsMode

-- serverTLSOptions
pub record ServerTlsOptions : Type 0 where
  pub default_mode : TlsMode
  pub allow_none : Bool
  pub next_protos : List String

-- The files, and the variables that the function GetCertificate shares between handshakes.
pub record CertCache : Type 0 where
  pub crt_file : String
  pub key_file : String
  pub cached_cert : ℕ
  pub last_reload : ℕ

pub data CertSource : Type 0 where
  generated : ℕ → CertSource
  reloading : CertCache → CertSource

-- *tls.Config, as far as it is set; TLS 1.3 is 0x0304.
pub record TlsConfig : Type 0 where
  pub certificates : CertSource
  pub min_version : ℕ
  pub next_protos : List String

pub data TlsError : Type 0 where
  invalid_mode mode_required load_failed create_failed : TlsError

pub data TlsResult : Type 0 where
  refused : TlsError → TlsResult
  configured : TlsMode → Option TlsConfig → TlsResult

-- What newServerTLSConfig asks: the query of the URL, tls.LoadX509KeyPair, and the clock; and what newTLSConfig
-- asks, in `certs`.
pub record TlsEnv : Type 0 where
  pub query : String → String
  pub load_key_pair : String → String → Option ℕ
  pub certs : CertEnv
  pub now : ℕ

-- switch parsedURL.Query().Get("tls")
unfoldable pub choose_mode : TlsMode → String → Option TlsMode
choose_mode default value =
    if str_eq value ""
    then some default
    else if str_eq value "0"
    then some tls_none
    else if str_eq value "1"
    then some tls_self_signed
    else if str_eq value "2"
    then some tls_ca_trusted
    else none

abbrev pub tls_config : ServerTlsOptions → CertSource → TlsConfig
tls_config opts source = record {
  certificates = source;
  min_version = 0x0304;
  next_protos = opts.next_protos;
}

-- The part of newServerTLSConfig behind the choice of the mode.
unfoldable pub config_of : TlsEnv → ServerTlsOptions → TlsMode → TlsResult
config_of env opts tls_none =
    if opts.allow_none then configured tls_none none else refused mode_required
config_of env opts tls_ca_trusted =
    let crt : String = env.query "crt" in
    let key : String = env.query "key" in
    elim (env.load_key_pair crt key) [
      | none ↦ refused load_failed
      | some cert ↦ configured tls_ca_trusted (
          some (
            tls_config opts (
              reloading (record {
                crt_file = crt;
                key_file = key;
                cached_cert = cert;
                last_reload = env.now;
              }))))
    ]
config_of env opts tls_self_signed = elim (new_tls_config env.certs) [
  | none ↦ refused create_failed
  | some cert ↦ configured tls_self_signed (some (tls_config opts (generated cert)))
]

-- newServerTLSConfig
unfoldable pub new_server_tls_config : TlsEnv → ServerTlsOptions → TlsResult
new_server_tls_config env opts = elim (choose_mode opts.default_mode (env.query "tls")) [
  | none ↦ refused invalid_mode
  | some mode ↦ config_of env opts mode
]

-- tlsMode.String
unfoldable pub mode_string : TlsMode → String
mode_string tls_none = "0"
mode_string tls_self_signed = "1"
mode_string tls_ca_trusted = "2"

-- const reloadInterval
abbrev pub reload_interval : ℕ
reload_interval = 3600

-- A handshake: when it tests whether to reload, when it tests again under the lock, when it has
-- reloaded, and what loading the pair gives.
pub record Handshake : Type 0 where
  pub tested : ℕ
  pub locked : ℕ
  pub reloaded : ℕ
  pub loaded : Option ℕ

-- The part of GetCertificate under the lock.
unfoldable pub reload : Handshake → CertCache → CertCache
reload h c =
    if leb reload_interval (h.locked - c.last_reload)
    then record c {
      cached_cert = elim h.loaded [ none ↦ c.cached_cert | some cert ↦ cert ];
      last_reload = h.reloaded;
    }
    else c

-- GetCertificate: the certificate shown, and what is shared afterwards.
unfoldable pub get_certificate : Handshake → CertCache → ℕ × CertCache
get_certificate h c =
    let c' : CertCache = if leb reload_interval (h.tested - c.last_reload) then reload h c else c in
    (c'.cached_cert, c')
