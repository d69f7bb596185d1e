-- ===== src/Plugin/Apply.antt =====
-- `osc_apply_port` and `osc_apply_settings`: what is applied on each outcome.
use obs_osc.Base.{Bool, true, false, not, ◌&&◌, none, some, ◌≡◌, ◌≢◌, arith, if◌then◌else◌}
use obs_osc.Base.Int.{ℤ, pos, eq_ℤ}
use obs_osc.Plugin.Config.{OscConfig}
use obs_osc.Plugin.Lifecycle.{
  Ports, Files, Plugin, server_stop, server_start, osc_query_restart, osc_save_config,
}

pub data ApplyResult : Type 0 where
  applied udp_port_failed query_port_failed : ApplyResult

abbrev pub with_port : Plugin → ℤ → Plugin
with_port p port = record p { config = record (p.config) { port = port } }

-- The result of the nested restart is not looked at.
unfoldable pub osc_apply_port : Ports → Plugin → ℤ → Plugin × Bool
unfolding server_start osc_query_restart
osc_apply_port os p port =
    let (q, started) = server_start os (server_stop p) port in
    let moved = with_port q port in
    if eq_ℤ port p.config.port
    then (p, true)
    else if started
    then (
      if moved.config.query_enabled && eq_ℤ moved.config.query_port (pos 0)
          then (osc_query_restart os moved).0
          else moved,
      true,
    )
    else ((server_start os q p.config.port).0, false)

abbrev pub with_query : Plugin → ℤ → Bool → Plugin
with_query p port enabled = record p {
  config = record (p.config) { query_port = port; query_enabled = enabled };
}

abbrev pub bool_eq : Bool → Bool → Bool
bool_eq true b = b
bool_eq false b = not b

-- The second step: the query server, restored where it cannot be restarted.
unfoldable pub apply_query : Ports → Plugin → OscConfig → Plugin × Bool
unfolding osc_query_restart
apply_query os p next =
    let (q, restarted) = osc_query_restart os (with_query p next.query_port next.query_enabled) in
    if eq_ℤ next.query_port p.config.query_port && bool_eq next.query_enabled p.config.query_enabled
    then (p, true)
    else if restarted
    then (q, true)
    else ((osc_query_restart os (with_query q p.config.query_port p.config.query_enabled)).0, false)

-- The third step: feedback and the file.
unfoldable pub apply_feedback : Files → Plugin → OscConfig → Plugin
apply_feedback files p next = osc_save_config files (record p {
  config = record (p.config) {
    feedback_enabled = next.feedback_enabled;
    feedback_host = next.feedback_host;
    feedback_port = next.feedback_port;
  };
  feedback_target = (next.feedback_host, next.feedback_port);
})

unfoldable pub osc_apply_settings : Ports → Files → Plugin → OscConfig → Plugin × ApplyResult
unfolding osc_apply_port apply_query apply_feedback
osc_apply_settings os files p next =
    let (q, port_ok) = osc_apply_port os p next.port in
    let (r, query_ok) = apply_query os q next in
    if not port_ok
    then (q, udp_port_failed)
    else if not query_ok
    then (r, query_port_failed)
    else (apply_feedback files r next, applied)

eq_ℤ→eq : (a b : ℤ) → eq_ℤ a b ≡ true → a ≡ b
eq_ℤ→eq a b h = ground arith

bool_eq→eq : (a b : Bool) → bool_eq a b ≡ true → a ≡ b
bool_eq→eq a b h = ground arith

-- A restart of the query server leaves all but that server alone.
pub restart_frame :
    (os : Ports) (p : Plugin)
    → ((osc_query_restart os p).0.config ≡ p.config)
      × ((osc_query_restart os p).0.udp ≡ p.udp)
      × ((osc_query_restart os p).0.saved ≡ p.saved)
      × ((osc_query_restart os p).0.feedback_target ≡ p.feedback_target)
unfolding osc_query_restart
restart_frame os p = ground arith

module _ (os : Ports) (p : Plugin) (port : ℤ) where
  pub apply_port_true :
      (osc_apply_port os p port).1 ≡ true
      → (osc_apply_port os p port).0.config ≡ record (p.config) { port = port }
  unfolding osc_apply_port
  apply_port_true h = ground (
    arith,
    eq_ℤ→eq port p.config.port,
    restart_frame os (with_port (server_start os (server_stop p) port).0 port),
  )

  -- On failure the configuration, and all but the UDP listener, stays; that listener is back on the
  -- old port if the system grants it again.
  pub apply_port_false :
      (osc_apply_port os p port).1 ≡ false
      → ((osc_apply_port os p port).0
          ≡ record p { udp = if os.udp_granted p.config.port then some p.config.port else none })
        × (port ≢ p.config.port)
        × (os.udp_granted port ≡ false)
  unfolding osc_apply_port server_start
  apply_port_false h = ground arith

module _ (os : Ports) (p : Plugin) (next : OscConfig) where
  pub apply_query_frame :
      ((apply_query os p next).0.udp ≡ p.udp)
      × ((apply_query os p next).0.saved ≡ p.saved)
      × ((apply_query os p next).0.feedback_target ≡ p.feedback_target)
  unfolding apply_query
  apply_query_frame = ground (
    arith,
    restart_frame os (with_query p next.query_port next.query_enabled),
    restart_frame os (
        with_query (osc_query_restart os (with_query p next.query_port next.query_enabled)).0
          p.config.query_port p.config.query_enabled),
  )

  pub apply_query_config : (apply_query os p next).0.config ≡ (
      if (apply_query os p next).1
      then record (p.config) { query_port = next.query_port; query_enabled = next.query_enabled }
      else p.config)
  unfolding apply_query
  apply_query_config = ground (
    arith,
    eq_ℤ→eq next.query_port p.config.query_port,
    bool_eq→eq next.query_enabled p.config.query_enabled,
    restart_frame os (with_query p next.query_port next.query_enabled),
    restart_frame os (
        with_query (osc_query_restart os (with_query p next.query_port next.query_enabled)).0
          p.config.query_port p.config.query_enabled),
  )
