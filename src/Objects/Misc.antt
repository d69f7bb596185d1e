-- ===== src/Objects/Misc.antt =====
-- Tally states and hotkeys.
use obs_osc.Base.{
  Bool, true, false, List, [], ◌∷◌, Option, none, some, if◌then◌else◌, Bytes, str_eq,
}
use obs_osc.Net.{Endpoint}
use obs_osc.Addresses.Names.{active_prefix, showing_prefix}
use obs_osc.Addresses.Routes.{prefixed}
use obs_osc.Util.Visit.{input_kind, osc_visit_sources}
use obs_osc.Obs.Actions.{Handle, hotkey_trigger}
use obs_osc.Obs.Readings.{Env, Ui, request, reads}
use obs_osc.Objects.Items.{reply, osc_bool}

module _ (env : Env) where
  unfoldable pub tally_visit : Endpoint → Bool → Handle → Ui → Ui × Bool
  unfolding reply
  tally_visit to showing source u =
      let r = reads env u in
      (
        reply to
            (prefixed (if showing then showing_prefix else active_prefix) (r.source_name source))
            (osc_bool (if showing then r.showing source else r.active source)) u,
        true,
      )

  unfoldable pub poll_input_state : Endpoint → Bytes → Bool → Ui → Ui
  unfolding tally_visit osc_visit_sources
  poll_input_state to pattern showing =
      osc_visit_sources (reads env) pattern input_kind (tally_visit to showing)

  -- The enumeration stops at the first hotkey of that name.
  unfoldable pub find_hotkey : Bytes → List (Handle × Bytes) → Option Handle
  find_hotkey name [] = none
  find_hotkey name ((id, key) ∷ keys) = if str_eq name key then some id else find_hotkey name keys

  unfoldable pub trigger_hotkey : Bytes → Ui → Ui
  unfolding find_hotkey
  trigger_hotkey name u = elim (find_hotkey name (reads env u).hotkeys) [
    | none ↦ u
    | some id ↦ request (hotkey_trigger id false) (request (hotkey_trigger id true) u)
  ]
