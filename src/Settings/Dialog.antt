-- ===== src/Settings/Dialog.antt =====
-- `OscSettingsDialog`: its fields, its constructor and `accept`. Texts and layout are left out.
use obs_osc.Base.{ℕ, Bool, Bytes}
use obs_osc.Base.Int.{ℤ}
use obs_osc.Plugin.Config.{OscConfig}
use obs_osc.Plugin.Lifecycle.{Ports, Files, Plugin}
use obs_osc.Plugin.Apply.{
  ApplyResult, applied, udp_port_failed, query_port_failed, osc_apply_settings,
}

-- `spin least most value` is what a `QSpinBox` of that range holds behind `setValue(value)`; `line` is
-- the text of a `QLineEdit` made from a `std::string`, read back as one.
pub record Widgets : Type 0 where
  pub spin : ℕ → ℕ → ℤ → ℤ
  pub line : Bytes → Bytes

-- The values of the six widgets.
pub record Dialog : Type 0 where
  pub port : ℤ
  pub feedback_enabled : Bool
  pub feedback_host : Bytes
  pub feedback_port : ℤ
  pub query_enabled : Bool
  pub query_port : ℤ

unfoldable pub open_dialog : Widgets → OscConfig → Dialog
open_dialog qt g_config = record {
  port = qt.spin 1 65535 g_config.port;
  feedback_enabled = g_config.feedback_enabled;
  feedback_host = qt.line g_config.feedback_host;
  feedback_port = qt.spin 0 65535 g_config.feedback_port;
  query_enabled = g_config.query_enabled;
  query_port = qt.spin 0 65535 g_config.query_port;
}

-- `next` of `accept`.
abbrev pub next_config : Dialog → OscConfig
next_config d = record {
  port = d.port;
  feedback_enabled = d.feedback_enabled;
  feedback_host = d.feedback_host;
  feedback_port = d.feedback_port;
  query_enabled = d.query_enabled;
  query_port = d.query_port;
}

-- The dialog closes, or it warns, with the ports that its text names, and stays open.
pub data Notice : Type 0 where
  closed : Notice
  bind_error : ℤ → ℤ → Notice
  query_bind_error : ℤ → Notice

-- `g_config` is read behind `osc_apply_settings`.
abbrev pub notice : OscConfig → OscConfig → ApplyResult → Notice
notice next g_config applied = closed
notice next g_config udp_port_failed = bind_error next.port g_config.port
notice next g_config query_port_failed = query_bind_error next.query_port

unfoldable pub accept : Ports → Files → Dialog → Plugin → Plugin × Notice
unfolding osc_apply_settings
accept os files d p =
    let next = next_config d in
    let (q, result) = osc_apply_settings os files p next in (q, notice next q.config result)
