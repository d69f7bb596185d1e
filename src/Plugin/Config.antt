-- ===== src/Plugin/Config.antt =====
-- `osc_config` and `load_config`.
use obs_osc.Base.{
  ℕ, Bool, true, false, ◌||◌, [], Option, none, some, ◌≡◌, arith, if◌then◌else◌, Bytes,
}
use obs_osc.Base.Int.{ℤ, pos, ltb_ℤ, leb_ℤ, ◌≤ℤ◌}

pub record OscConfig : Type 0 where
  pub port : ℤ
  pub feedback_enabled : Bool
  pub feedback_host : Bytes
  pub feedback_port : ℤ
  pub query_enabled : Bool
  pub query_port : ℤ

-- The field initialisers.
abbrev pub default_config : OscConfig
default_config = record {
  port = pos 9000;
  feedback_enabled = true;
  feedback_host = [];
  feedback_port = pos 0;
  query_enabled = true;
  query_port = pos 0;
}

abbrev pub out_of_range : ℤ → Bool
out_of_range p = ltb_ℤ p (pos 0) || ltb_ℤ (pos 65535) p

-- The three checks behind the reading of the file.
unfoldable pub check_ranges : OscConfig → OscConfig
check_ranges c = record c {
  port = if leb_ℤ c.port (pos 0) || ltb_ℤ (pos 65535) c.port then pos 9000 else c.port;
  feedback_port = if out_of_range c.feedback_port then pos 0 else c.feedback_port;
  query_port = if out_of_range c.query_port then pos 0 else c.query_port;
}

-- `path` is whether the module has a configuration path; `stored` is what libobs reads from the
-- file there, if there is one: any values, cast to `int`.
unfoldable pub load_config : OscConfig → Bool → Option OscConfig → OscConfig
unfolding check_ranges
load_config g_config false stored = g_config
load_config g_config true none = check_ranges g_config
load_config g_config true (some read) = check_ranges read

abbrev pub InRange : ℕ → ℤ → Type 0
InRange least p = (pos least ≤ℤ p) × (p ≤ℤ pos 65535)

pub record IsConfig (c : OscConfig) : Type 0 where
  pub port_range : InRange 1 c.port
  pub feedback_range : InRange 0 c.feedback_port
  pub query_range : InRange 0 c.query_port

check_ranges-IsConfig : (c : OscConfig) → IsConfig (check_ranges c)
unfolding check_ranges
check_ranges-IsConfig c = ground arith

check_ranges-id : (c : OscConfig) → IsConfig c → check_ranges c ≡ c
unfolding check_ranges
check_ranges-id c i = ground arith

-- Whatever the file holds, or if there is none, the ports of the configuration that is loaded over
-- the defaults are in range.
pub load_config-IsConfig :
    (path : Bool) (stored : Option OscConfig) → IsConfig (load_config default_config path stored)
unfolding load_config
load_config-IsConfig false stored = ground arith
load_config-IsConfig true none = check_ranges-IsConfig default_config
load_config-IsConfig true (some read) = check_ranges-IsConfig read

-- A file whose ports are in range is taken as it is, over any configuration before it.
pub load_config_keeps : (before c : OscConfig) → IsConfig c → load_config before true (some c) ≡ c
unfolding load_config
load_config_keeps before c i = check_ranges-id c i
