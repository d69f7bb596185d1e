-- ===== src/Objects/Filters.antt =====
-- Filters of a source: resolving a selector, and the enabled state.
use obs_osc.Base.{ℕ, suc, Bool, true, not, List, [], ◌∷◌, Option, none, some, if◌then◌else◌, Bytes}
use obs_osc.Net.{Endpoint}
use obs_osc.Addresses.Routes.{filter_for}
use obs_osc.Util.Visit.{any, selected, osc_visit_sources}
use obs_osc.Obs.Actions.{Handle, set_enabled}
use obs_osc.Obs.Readings.{Reads, Env, Ui, request, reads}
use obs_osc.Objects.Items.{reply, osc_bool, target}

module _ (env : Env) where
  -- The enumeration of the chain: `found` is overwritten, so the last match stays.
  unfoldable pub last_selected : Reads → Bytes → ℕ → List Handle → Option Handle → Option Handle
  unfolding selected
  last_selected r selector index [] found = found
  last_selected r selector index (filter ∷ filters) found =
      last_selected r selector (suc index) filters
        (if selected env selector (r.source_name filter) index then some filter else found)

  unfoldable pub resolve_filter : Reads → Handle → Bytes → Option Handle
  unfolding last_selected
  resolve_filter r parent selector = last_selected r selector 0 (r.filters parent) none

  -- One matched filter: toggled or set, or reported.
  unfoldable pub filter_enable : Option Endpoint → Option Bool → Bytes → Handle → Ui → Ui
  unfolding reply
  filter_enable none value source_name filter u =
      request (set_enabled filter (target value ((reads env u).enabled filter))) u
  filter_enable (some to) value source_name filter u =
      reply to (filter_for source_name ((reads env u).source_name filter))
        (osc_bool ((reads env u).enabled filter)) u

  unfoldable pub enable_chain :
      Bytes → Option Bool → Option Endpoint → Bytes → ℕ → List Handle → Ui → Ui
  unfolding selected filter_enable
  enable_chain selector value to source_name index [] u = u
  enable_chain selector value to source_name index (filter ∷ filters) u =
      enable_chain selector value to source_name (suc index) filters (
        if not (selected env selector ((reads env u).source_name filter) index)
        then u
        else filter_enable to value source_name filter u)

  unfoldable pub enable_visit : Bytes → Option Bool → Option Endpoint → Handle → Ui → Ui × Bool
  unfolding enable_chain
  enable_visit selector value to source u = (
    enable_chain selector value to ((reads env u).source_name source) 0
        ((reads env u).filters source) u,
    true,
  )

  unfoldable pub run_filter_enable_pass : Bytes → Bytes → Option Bool → Option Endpoint → Ui → Ui
  unfolding enable_visit osc_visit_sources
  run_filter_enable_pass source_pattern selector value to =
      osc_visit_sources (reads env) source_pattern any (enable_visit selector value to)

  unfoldable pub set_filter_enabled : Bytes → Bytes → Option Bool → Ui → Ui
  unfolding run_filter_enable_pass
  set_filter_enabled source_pattern selector value =
      run_filter_enable_pass source_pattern selector value none

  unfoldable pub poll_filter_enabled : Endpoint → Bytes → Bytes → Ui → Ui
  unfolding run_filter_enable_pass
  poll_filter_enabled to source_pattern selector =
      run_filter_enable_pass source_pattern selector none (some to)
