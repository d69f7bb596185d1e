-- ===== src/Settings/Warning.antt =====
-- The dialog's warning for a query port beside the rollback of `osc_apply_settings`.
use obs_osc.Base.{true, false, some, ◌≡◌, arith}
use obs_osc.Plugin.Lifecycle.{Ports, Files, Plugin, query_http_port, osc_query_restart}
use obs_osc.Plugin.Apply.{osc_apply_settings, osc_apply_port, apply_query}
use obs_osc.Settings.Dialog.{Dialog, query_bind_error, next_config, accept}

-- When the system refuses the query port that is asked for and grants the old one, the dialog warns
-- that discovery stays disabled, though the query server runs, on the old port.
pub discovery_stays :
    (os : Ports) (files : Files) (d : Dialog) (p : Plugin)
    → d.port ≡ p.config.port
    → d.query_enabled ≡ true
    → os.tcp_granted (query_http_port (next_config d)) ≡ false
    → p.config.query_enabled ≡ true
    → os.tcp_granted (query_http_port p.config) ≡ true
    → ((accept os files d p).1 ≡ query_bind_error d.query_port)
      × ((accept os files d p).0.http ≡ some (query_http_port p.config))
unfolding accept osc_apply_settings osc_apply_port apply_query osc_query_restart
discovery_stays os files d p port asked refused enabled granted = ground arith
