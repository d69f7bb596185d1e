-- ===== src/Settings/Accepting.antt =====
-- What accepting the dialog does to the plugin.
use obs_osc.Base.{ℕ, false, some, none, ◌≡◌, refl, arith, if◌then◌else◌, ap, ◌∙◌}
use obs_osc.Base.Int.{ℤ, pos, ◌≤ℤ◌}
use obs_osc.Plugin.Config.{OscConfig, InRange, IsConfig}
use obs_osc.Plugin.Lifecycle.{Ports, Files, Plugin}
use obs_osc.Plugin.Apply.{
  ApplyResult, applied, udp_port_failed, query_port_failed, osc_apply_settings, osc_apply_port,
  apply_query, apply_feedback,
}
use obs_osc.Plugin.Outcomes.{stored, Outcome, osc_apply_settings-Outcome}
use obs_osc.Settings.Dialog.{
  Widgets, Dialog, open_dialog, next_config, Notice, closed, bind_error, query_bind_error, notice,
  accept,
}

-- A spin box keeps a value of its range.
abbrev pub KeepsRange : Widgets → Type 0
KeepsRange qt =
    (least most : ℕ) (v : ℤ) → (pos least ≤ℤ v) × (v ≤ℤ pos most) → qt.spin least most v ≡ v

open_dialog_next :
    (qt : Widgets) (c : OscConfig)
    → KeepsRange qt
    → qt.line c.feedback_host ≡ c.feedback_host
    → IsConfig c
    → next_config (open_dialog qt c) ≡ c
unfolding open_dialog
open_dialog_next qt c keeps line i =
    rw
      (
        keeps 1 65535 c.port i.port_range,
        keeps 0 65535 c.feedback_port i.feedback_range,
        keeps 0 65535 c.query_port i.query_range,
        line,
      )
      refl

apply_same :
    (os : Ports) (files : Files) (p : Plugin)
    → osc_apply_settings os files p p.config ≡ (
      record p {
        saved = stored files p.config p.saved;
        feedback_target = (p.config.feedback_host, p.config.feedback_port);
      },
      applied,
    )
unfolding osc_apply_settings osc_apply_port apply_query apply_feedback
apply_same os files p = ground arith

told : OscConfig → Plugin × ApplyResult → Plugin × Notice
told next (q, result) = (q, notice next q.config result)

settled : Ports → Files → Plugin → OscConfig → Plugin × Notice
settled os files p next = told next (osc_apply_settings os files p next)

-- Opening the dialog on a configuration in range and accepting it as it stands closes it, restarts
-- nothing and leaves the configuration as it is: it is stored if there is a path for the file and the
-- save succeeds, and the feedback target is resolved from it. This is under the documented behaviour
-- of a spin box and with a feedback host that the line edit gives back.
pub accept-open_dialog :
    (os : Ports) (files : Files) (qt : Widgets) (p : Plugin)
    → KeepsRange qt
    → qt.line p.config.feedback_host ≡ p.config.feedback_host
    → IsConfig p.config
    → accept os files (open_dialog qt p.config) p ≡ (
      record p {
        saved = stored files p.config p.saved;
        feedback_target = (p.config.feedback_host, p.config.feedback_port);
      },
      closed,
    )
unfolding accept settled told
accept-open_dialog os files qt p keeps line i =
    ap (settled os files p) (open_dialog_next qt p.config keeps line i)
    ∙ ap (told p.config) (apply_same os files p)

-- The spin boxes hold values of their ranges.
abbrev pub IsInRange : Dialog → Type 0
IsInRange d = InRange 1 d.port × InRange 0 d.feedback_port × InRange 0 d.query_port

-- What a notice says, of the plugin before and behind it and of the dialog.
abbrev pub Tells : Ports → Files → Dialog → Plugin → Notice → Plugin → Type 0
Tells os files d p closed q =
    (q.config ≡ next_config d) × (q.saved ≡ stored files (next_config d) p.saved)
Tells os files d p (bind_error asked kept) q =
    (asked ≡ d.port)
    × (os.udp_granted asked ≡ false)
    × (kept ≡ q.config.port)
    × (q.config ≡ p.config)
    × (q.saved ≡ p.saved)
    × (q.udp ≡ (if os.udp_granted kept then some kept else none))
Tells os files d p (query_bind_error asked) q =
    (asked ≡ d.query_port) × (q.config ≡ record (p.config) { port = d.port }) × (q.saved ≡ p.saved)

tells :
    (os : Ports) (files : Files) (d : Dialog) (p q : Plugin) (result : ApplyResult)
    → Outcome os files p (next_config d) result q
    → Tells os files d p (notice (next_config d) q.config result) q
tells os files d p q applied o = ground (arith, o)
tells os files d p q udp_port_failed o = ground (arith, o)
tells os files d p q query_port_failed o = ground (arith, o)

pub accept-Tells :
    (os : Ports) (files : Files) (d : Dialog) (p : Plugin)
    → Tells os files d p (accept os files d p).1 (accept os files d p).0
unfolding accept
accept-Tells os files d p =
    tells os files d p (osc_apply_settings os files p (next_config d)).0
      (osc_apply_settings os files p (next_config d)).1
      (osc_apply_settings-Outcome os files p (next_config d))

told-IsConfig :
    (os : Ports) (files : Files) (d : Dialog) (p : Plugin) (n : Notice) (q : Plugin)
    → IsInRange d
    → IsConfig p.config
    → Tells os files d p n q
    → IsConfig q.config
told-IsConfig os files d p closed q i c t = rw (t.0) (ground (arith, i))
told-IsConfig os files d p (bind_error asked kept) q i c t = rw (t.3) c
told-IsConfig os files d p (query_bind_error asked) q i c t = rw (t.1) (ground (arith, i, c))

-- From a configuration in range the dialog makes only configurations in range.
pub accept-IsConfig :
    (os : Ports) (files : Files) (d : Dialog) (p : Plugin)
    → IsInRange d
    → IsConfig p.config
    → IsConfig (accept os files d p).0.config
unfolding accept
accept-IsConfig os files d p i c =
    told-IsConfig os files d p (accept os files d p).1 (accept os files d p).0 i c
      (accept-Tells os files d p)
