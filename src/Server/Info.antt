-- ===== src/Server/Info.antt =====
-- internal/master/sysinfo.go: `masterInfo`, and its answers in `handleInfo` of internal/master/rest.go.
use open_ctrl.Types.{Master}
use open_ctrl.Base.{ℕ, ◌-◌, ◌==◌, String, Option, none, some, str_eq, if◌then◌else◌, negsuc}
use open_ctrl.SysInfo.Devices.{no_volume, ProcFiles, SystemInfo, linux_sys_info}
use open_ctrl.Server.Tls.{mode_string}
use open_ctrl.Server.New.{ServerConfig}
use open_ctrl.Rest.Common.{Response, http_error}
use open_ctrl.Rest.Info.{handle_info}

-- What package runtime says, and the clock in seconds.
pub record Host : Type 0 where
  pub os : String
  pub arch : String
  pub cpus : ℕ
  pub start_time : ℕ
  pub now : ℕ

-- The map `info`.
pub record MasterInfo : Type 0 where
  pub mid : String
  pub alias : String
  pub os : String
  pub arch : String
  pub noc : ℕ
  pub system : SystemInfo
  pub ver : String
  pub name : String
  pub uptime : ℕ
  pub log : String
  pub tls : String
  pub crt : String
  pub key : String

-- The values of the map before Linux is asked.
abbrev pub no_sys_info : SystemInfo
no_sys_info = record {
  cpu = negsuc 0;
  memory = record { mem_total = 0; mem_used = 0; swap_total = 0; swap_used = 0 };
  net = no_volume;
  disk = no_volume;
  sys_up = 0;
}

unfoldable pub info_with : Host → ServerConfig → Master → SystemInfo → MasterInfo
info_with host config m system = record {
  mid = m.master_id;
  alias = m.alias;
  os = host.os;
  arch = host.arch;
  noc = host.cpus;
  system = system;
  ver = config.version;
  name = config.hostname;
  uptime = host.now - host.start_time;
  log = "default";
  tls = mode_string config.tls_mode;
  crt = config.crt_path;
  key = config.key_path;
}

-- (*Master).masterInfo; no value is the panic of `linuxSysInfo`.
unfoldable pub master_info : Host → ServerConfig → ProcFiles → Master → Option MasterInfo
master_info host config proc m =
    if str_eq host.os "linux"
    then elim (linux_sys_info proc) [
      | none ↦ none
      | some system ↦ some (info_with host config m system)
    ]
    else some (info_with host config m no_sys_info)

-- The methods of a request for the information; POST has the alias, if its body decodes.
pub data InfoMethod : Type 0 where
  get_info other_method : InfoMethod
  post_info : Option String → InfoMethod

-- An answer with the information, or another one.
pub data InfoAnswer : Type 0 where
  informed : Option MasterInfo → InfoAnswer
  answered : Response → InfoAnswer

-- The end of POST: the information, if the alias was taken.
unfoldable pub info_answer :
    Host → ServerConfig → ProcFiles → Response × Master → InfoAnswer × Master
info_answer host config proc r =
    if r.0.code == 200
    then (informed (master_info host config proc r.1), r.1)
    else (answered r.0, r.1)

-- (*Master).handleInfo
unfoldable pub handle_info_request :
    Host → ServerConfig → ProcFiles → InfoMethod → Master → InfoAnswer × Master
handle_info_request host config proc get_info m = (informed (master_info host config proc m), m)
handle_info_request host config proc other_method m =
    (answered (http_error "Method not allowed" 405), m)
handle_info_request host config proc (post_info request) m =
    info_answer host config proc (handle_info request m)
