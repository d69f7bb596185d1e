-- ===== src/Plugin/Lifecycle.antt =====
-- The listeners that the plugin runs, as the operations of src/plugin.cpp and src/osc-query.cpp see
-- them: on which port each listens. Whether the operating system grants a port is a parameter,
-- taken not to change during one operation.
use obs_osc.Base.{ℕ, ◌+◌, Bool, true, false, not, Option, none, some, if◌then◌else◌, Bytes}
use obs_osc.Base.Int.{ℤ, pos, negsuc, ltb_ℤ}
use obs_osc.Plugin.Config.{OscConfig}

pub record Ports : Type 0 where
  pub udp_granted : ℤ → Bool
  pub tcp_granted : ℤ → Bool

-- The files as libobs serves them, taken not to change during one operation: whether
-- `obs_module_config_path` gives a path, and whether a configuration is saved there, the folder made
-- and `obs_data_save_json_safe` called. A save that fails leaves the file as it was.
pub record Files : Type 0 where
  pub config_path : Bool
  pub saves : OscConfig → Bool

-- `udp` and `http` are the ports asked for; `current_udp_port` is what `HOST_INFO` reports; `saved`
-- is what the file holds.
pub record Plugin : Type 0 where
  pub config : OscConfig
  pub udp : Option ℤ
  pub http : Option ℤ
  pub current_udp_port : ℤ
  pub feedback_target : Bytes × ℤ
  pub saved : Option OscConfig

abbrev pub is_running : Option ℤ → Bool
is_running none = false
is_running (some _) = true

abbrev pub server_stop : Plugin → Plugin
server_stop p = record p { udp = none }

-- `g_server.start(port, …)`, and its result.
unfoldable pub server_start : Ports → Plugin → ℤ → Plugin × Bool
server_start os p port =
    if is_running p.udp
    then (p, true)
    else if os.udp_granted port
    then (record p { udp = some port }, true)
    else (p, false)

unfoldable pub osc_query_start : Ports → Plugin → ℤ → ℤ → Plugin × Bool
osc_query_start os p http_port osc_udp_port =
    if is_running p.http
    then (p, true)
    else if os.tcp_granted http_port
    then (record p { current_udp_port = osc_udp_port; http = some http_port }, true)
    else (record p { current_udp_port = osc_udp_port }, false)

abbrev pub osc_query_stop : Plugin → Plugin
osc_query_stop p = record p { http = none }

abbrev pub add_one : ℤ → ℤ
add_one (pos n) = pos (n + 1)
add_one (negsuc ℕ.zero) = pos 0
add_one (negsuc (ℕ.suc n)) = negsuc n

abbrev pub query_http_port : OscConfig → ℤ
query_http_port c = if ltb_ℤ (pos 0) c.query_port then c.query_port else add_one c.port

unfoldable pub osc_query_restart : Ports → Plugin → Plugin × Bool
unfolding osc_query_start
osc_query_restart os p =
    let stopped = osc_query_stop p in
    if not p.config.query_enabled
    then (stopped, true)
    else osc_query_start os stopped (query_http_port p.config) p.config.port

-- The result of the save is not looked at.
abbrev pub osc_save_config : Files → Plugin → Plugin
osc_save_config files p =
    if not files.config_path
    then p
    else if files.saves p.config
    then record p { saved = some (p.config) }
    else p

-- `obs_module_load`, behind `load_config`.
unfoldable pub obs_module_load : Ports → Plugin → Plugin
unfolding server_start osc_query_restart
obs_module_load os p =
    let started = (server_start os p p.config.port).0 in
    (osc_query_restart os
      (record started { feedback_target = (p.config.feedback_host, p.config.feedback_port) })).0

abbrev pub obs_module_unload : Files → Plugin → Plugin
obs_module_unload files p = osc_save_config files (server_stop (osc_query_stop p))
