-- ===== src/Samples/Dialogs.antt =====
-- src/osc-settings.cpp on concrete configurations.
use obs_osc.Base.{◌≡◌, refl, true, [], some, arith}
use obs_osc.Base.Int.{pos}
use obs_osc.Plugin.Lifecycle.{query_http_port}
use obs_osc.Settings.Dialog.{Widgets, Dialog, open_dialog, closed, query_bind_error, accept}
use obs_osc.Settings.Accepting.{accept-open_dialog}
use obs_osc.Settings.Warning.{discovery_stays}
use obs_osc.Samples.Settings.{os, files, loaded}

-- Spin boxes that hold what they are given, and a line edit.
abbrev plain : Widgets
plain = record { spin = λ least most v. v; line = λ host. host }

accept-open_dialog_example :
    accept os files (open_dialog plain loaded.config) loaded
    ≡ (record loaded { saved = some (loaded.config); feedback_target = ([], pos 0) }, closed)
accept-open_dialog_example =
    accept-open_dialog os files plain loaded (λ least most v range. refl) refl (ground arith)

-- The system refuses port 9501.
abbrev refused : Dialog
refused = record {
  port = pos 9000;
  feedback_enabled = true;
  feedback_host = [];
  feedback_port = pos 0;
  query_enabled = true;
  query_port = pos 9501;
}

discovery_stays_example :
    ((accept os files refused loaded).1 ≡ query_bind_error (pos 9501))
    × ((accept os files refused loaded).0.http ≡ some (query_http_port loaded.config))
discovery_stays_example = discovery_stays os files refused loaded refl refl refl refl refl
