-- ===== src/Samples/Settings.antt =====
-- src/plugin.cpp on concrete configurations.
use obs_osc.Base.{◌≡◌, refl, true, false, [], some, none, arith, if◌then◌else◌}
use obs_osc.Base.Int.{pos, eq_ℤ}
use obs_osc.Plugin.Config.{default_config}
use obs_osc.Plugin.Lifecycle.{Ports, Files, Plugin}
use obs_osc.Plugin.Apply.{applied, osc_apply_settings}
use obs_osc.Plugin.Outcomes.{stale_host_info}

-- The operating system refuses one TCP port.
abbrev pub os : Ports
os = record {
  udp_granted = λ port. true;
  tcp_granted = λ port. if eq_ℤ port (pos 9501) then false else true;
}

-- The files can be written.
abbrev pub files : Files
files = record { config_path = true; saves = λ config. true }

abbrev pub loaded : Plugin
loaded = record {
  config = default_config;
  udp = some (pos 9000);
  http = some (pos 9001);
  current_udp_port = pos 9000;
  feedback_target = ([], pos 0);
  saved = none;
}

abbrev separate : Plugin
separate = record loaded {
  config = record default_config { query_port = pos 8080 };
  http = some (pos 8080);
}

stale_host_info_example :
    ((osc_apply_settings os files separate (record (separate.config) { port = pos 9100 })).1
      ≡ applied)
    × ((osc_apply_settings os files separate
          (record (separate.config) { port = pos 9100 })).0.config.port
        ≡ pos 9100)
    × ((osc_apply_settings os files separate
          (record (separate.config) { port = pos 9100 })).0.current_udp_port
        ≡ separate.current_udp_port)
stale_host_info_example =
    stale_host_info os files separate (pos 9100) refl refl (λ e. ground arith) refl
