-- ===== src/Plugin/Outcomes.antt =====
-- `osc_apply_settings` as a transaction: what is in force after each of its three results.
use obs_osc.Base.{
  Option, ◌&&◌, true, false, none, some, ◌≡◌, ◌≢◌, arith, if◌then◌else◌, Bool-cases, inl, inr,
}
use obs_osc.Base.Int.{ℤ, pos, ltb_ℤ}
use obs_osc.Plugin.Config.{OscConfig}
use obs_osc.Plugin.Lifecycle.{Ports, Files, Plugin, server_start, osc_query_restart, add_one}
use obs_osc.Plugin.Apply.{
  ApplyResult, applied, udp_port_failed, query_port_failed, osc_apply_port, apply_query,
  apply_feedback, osc_apply_settings, apply_port_true, apply_port_false, apply_query_frame,
  apply_query_config, with_port,
}

-- What the file holds behind a save of `c`, where it held `before`.
abbrev pub stored : Files → OscConfig → Option OscConfig → Option OscConfig
stored files c before = if files.config_path && files.saves c then some c else before

-- What a result of `osc_apply_settings` on `p` promises of the state `q`.
abbrev pub Outcome : Ports → Files → Plugin → OscConfig → ApplyResult → Plugin → Type 0
Outcome os files p next applied q =
    (q.config ≡ next)
    × (q.saved ≡ stored files next p.saved)
    × (q.feedback_target ≡ (next.feedback_host, next.feedback_port))
Outcome os files p next udp_port_failed q =
    (q ≡ record p { udp = if os.udp_granted p.config.port then some p.config.port else none })
    × (os.udp_granted next.port ≡ false)
Outcome os files p next query_port_failed q =
    (q.config ≡ record (p.config) { port = next.port }) × (q.saved ≡ p.saved)

apply_port_saved :
    (os : Ports) (p : Plugin) (port : ℤ) → (osc_apply_port os p port).0.saved ≡ p.saved
unfolding osc_apply_port server_start osc_query_restart
apply_port_saved os p port = ground arith

pub osc_apply_settings-Outcome :
    (os : Ports) (files : Files) (p : Plugin) (next : OscConfig)
    → Outcome os files p next
        (osc_apply_settings os files p next).1
        (osc_apply_settings os files p next).0
unfolding osc_apply_settings apply_feedback
osc_apply_settings-Outcome os files p next = elim (Bool-cases (osc_apply_port os p next.port).1) [
  | inr refused ↦
      rw refused
        ((apply_port_false os p next.port refused).0, (apply_port_false os p next.port refused).2)
  | inl moved ↦
      let q : Plugin = (osc_apply_port os p next.port).0 in
      let port = apply_port_true os p next.port moved in
      let query = apply_query_config os q next in
      let (_, saved, _) = apply_query_frame os q next in
      elim (Bool-cases (apply_query os q next).1) [
        | inl changed ↦ rw (moved, changed) (ground (arith, apply_port_saved os p next.port))
        | inr refused ↦ rw (moved, refused) (ground (arith, apply_port_saved os p next.port))
      ]
]

-- With a query port of its own the query server is not restarted when the OSC port changes, so it
-- goes on reporting the old OSC port in `HOST_INFO`, though the change is reported as applied.
pub stale_host_info :
    (os : Ports) (files : Files) (p : Plugin) (port : ℤ)
    → p.config.query_enabled ≡ true
    → ltb_ℤ (pos 0) p.config.query_port ≡ true
    → port ≢ p.config.port
    → os.udp_granted port ≡ true
    → ((osc_apply_settings os files p (record (p.config) { port = port })).1 ≡ applied)
      × ((osc_apply_settings os files p (record (p.config) { port = port })).0.config.port ≡ port)
      × ((osc_apply_settings os files p (record (p.config) { port = port })).0.current_udp_port
          ≡ p.current_udp_port)
unfolding osc_apply_settings apply_feedback osc_apply_port apply_query server_start
stale_host_info os files p port enabled own h granted = ground arith

module _ (os : Ports) (files : Files) (p : Plugin) (port : ℤ)
    (enabled : p.config.query_enabled ≡ true) (derived : p.config.query_port ≡ pos 0)
    (h : port ≢ p.config.port) (granted : os.udp_granted port ≡ true)
    (refused : os.tcp_granted (add_one port) ≡ false) where
  abbrev lost : Plugin
  lost = record p {
    config = record (p.config) { port = port };
    udp = some port;
    http = none;
    current_udp_port = port;
  }

  restart_lost : (osc_query_restart os (with_port (record p { udp = some port }) port)).0 ≡ lost
  unfolding osc_query_restart
  restart_lost = ground arith

  port_lost : osc_apply_port os p port ≡ (lost, true)
  unfolding osc_apply_port server_start
  port_lost = ground (arith, restart_lost)

  same_query : apply_query os lost (record (p.config) { port = port }) ≡ (lost, true)
  unfolding apply_query
  same_query = ground arith

  -- With the derived query port, a new OSC port whose successor cannot be bound leaves the query
  -- server down, and the change is still reported as applied.
  pub query_lost :
      ((osc_apply_settings os files p (record (p.config) { port = port })).1 ≡ applied)
      × ((osc_apply_settings os files p (record (p.config) { port = port })).0.http ≡ none)
  unfolding osc_apply_settings apply_feedback
  query_lost = rw (port_lost, same_query) (ground arith)
