-- ===== src/Controls/Poll.antt =====
-- `poll_dispatch`: a message with no arguments reads.
use obs_osc.Base.{
  ℕ, Bool, true, false, [], ◌∷◌, Option, none, some, if◌then◌else◌, Bytes, codes, str_eq,
}
use obs_osc.Net.{Endpoint}
use obs_osc.Message.Types.{osc_flt, osc_str}
use obs_osc.Addresses.Names
use obs_osc.Addresses.Names.{outputs}
use obs_osc.Addresses.Routes.{volume_for, prefixed}
use obs_osc.Server.Batch.{begin_batch, end_batch}
use obs_osc.Util.Fields.{float_0, osc_volume_position}
use obs_osc.Util.Visit.{osc_source_of_type}
use obs_osc.Obs.Readings.{Env, Ui, reads, Floats}
use obs_osc.Objects.Items.{
  reply, osc_bool, name_of, visible, locked, poll_item_flag, poll_item_order, poll_transform,
}
use obs_osc.Objects.Filters.{poll_filter_enabled}
use obs_osc.Objects.Params.{poll_filter_params, poll_filter_param}
use obs_osc.Objects.Misc.{poll_input_state}
use obs_osc.Controls.Branch.{
  Branch, done, refused, miss, ◌orelse◌, exactly, under, split_else, exact_output,
}
use obs_osc.Controls.Sources.{get_input_by_name, poll_mute_inputs, poll_media_state}

-- The patterns of 20.0f and -100.0f.
abbrev pub float_20 : ℕ
float_20 = 0x41a0_0000

abbrev pub float_minus_100 : ℕ
float_minus_100 = 0xc2c8_0000

abbrev pub every : Bytes
every = codes "*"

-- `name ? name : ""`
abbrev pub text_of : Option Bytes → Bytes
text_of none = []
text_of (some name) = name

abbrev pub Poll : Type 0
Poll = Branch (Ui → Ui)

module _ (env : Env) (to : Endpoint) where
  -- The routes with one value.
  unfoldable pub poll_values : Bytes → Poll
  unfolding reply exact_output
  poll_values a =
      exactly a Names.studio
        (λ u. reply to Names.studio (osc_bool (reads env u).preview_program_mode) u)
      orelse exactly a Names.program (λ u.
        reply to Names.program (osc_str (name_of (reads env u) (reads env u).current_scene) ∷ []) u)
      orelse exactly a Names.preview (λ u.
        reply to Names.preview
          (osc_str (name_of (reads env u) (reads env u).current_preview_scene) ∷ []) u)
      orelse exactly a Names.transition (λ u.
        reply to Names.transition
          (osc_str (name_of (reads env u) (reads env u).current_transition) ∷ []) u)
      orelse exactly a Names.profile
          (λ u. reply to Names.profile (osc_str (text_of (reads env u).current_profile) ∷ []) u)
      orelse exactly a Names.collection (λ u.
        reply to Names.collection (osc_str (text_of (reads env u).current_scene_collection) ∷ []) u)
      orelse exactly a Names.record_paused
          (λ u. reply to Names.record_paused (osc_bool (reads env u).recording_paused) u)
      orelse exact_output a outputs
          (λ out u. reply to out.base (osc_bool ((reads env u).output_active out.id)) u)

  unfoldable pub poll_volume : Bytes → Ui → Ui
  unfolding osc_source_of_type osc_volume_position reply
  poll_volume name u = elim (get_input_by_name env u name) [
    | none ↦ u
    | some source ↦
        reply to (volume_for name)
          (osc_flt (osc_volume_position env.floats ((reads env u).volume source)) ∷ []) u
  ]

  -- Silence has no value in dB.
  abbrev pub decibels : Floats → ℕ → ℕ
  decibels fl mult =
      if fl.less float_0 mult then fl.times float_20 (fl.log10 mult) else float_minus_100

  unfoldable pub poll_db : Bytes → Ui → Ui
  unfolding osc_source_of_type reply
  poll_db name u = elim (get_input_by_name env u name) [
    | none ↦ u
    | some source ↦
        reply to (prefixed Names.db_prefix name)
          (osc_flt (decibels env.floats ((reads env u).volume source)) ∷ []) u
  ]

  -- Transport verbs are left to the dispatcher.
  unfoldable pub poll_media : Bytes → Poll
  unfolding split_else poll_media_state
  poll_media rest = split_else rest (done (poll_media_state env to rest)) (λ name verb.
      if str_eq verb Names.media_state_node then done (poll_media_state env to name) else refused)

  unfoldable pub poll_sources : Bytes → Poll
  unfolding under poll_mute_inputs poll_volume poll_db poll_media
  poll_sources a =
      under a Names.mute_prefix (λ pattern. done (poll_mute_inputs env to pattern))
      orelse under a Names.volume_prefix (λ name. done (poll_volume name))
      orelse under a Names.db_prefix (λ name. done (poll_db name))
      orelse under a Names.media_prefix poll_media

  -- Bare object routes read everything they cover.
  unfoldable pub poll_bare : Bytes → Poll
  unfolding poll_item_flag poll_item_order poll_filter_enabled poll_input_state poll_transform
  poll_bare a =
      exactly a Names.visible (poll_item_flag env to every every visible)
      orelse exactly a Names.locked (poll_item_flag env to every every locked)
      orelse exactly a Names.order_route (poll_item_order env to every every)
      orelse exactly a Names.filter_route (poll_filter_enabled env to every every)
      orelse exactly a Names.active (poll_input_state env to every false)
      orelse exactly a Names.showing (poll_input_state env to every true)
      orelse exactly a Names.transform (poll_transform env to every every none)

  unfoldable pub poll_filter : Bytes → Ui → Ui
  unfolding split_else poll_filter_enabled poll_filter_params poll_filter_param
  poll_filter rest = split_else rest (poll_filter_enabled env to rest every) (λ source rest2.
      split_else rest2 (poll_filter_enabled env to source rest2) (λ selector param.
        if str_eq param Names.filter_params_node
        then poll_filter_params env to source selector
        else poll_filter_param env to source selector param))

  unfoldable pub poll_fields : Bytes → Ui → Ui
  unfolding split_else poll_transform
  poll_fields rest = split_else rest (poll_transform env to rest every none) (λ scene remainder.
      split_else remainder (poll_transform env to scene remainder none)
        (λ item field_name. poll_transform env to scene item (some field_name)))

  unfoldable pub poll_objects : Bytes → Poll
  unfolding under split_else poll_item_flag poll_item_order poll_filter poll_fields poll_input_state
  poll_objects a =
      under a Names.visible_prefix (λ rest. done (
        split_else rest (poll_item_flag env to rest every visible)
          (λ scene item. poll_item_flag env to scene item visible)))
      orelse under a Names.locked_prefix (λ rest. done (
          split_else rest (poll_item_flag env to rest every locked)
            (λ scene item. poll_item_flag env to scene item locked)))
      orelse under a Names.order_prefix (λ rest. done (
          split_else rest (poll_item_order env to rest every)
            (λ scene item. poll_item_order env to scene item)))
      orelse under a Names.filter_prefix (λ rest. done (poll_filter rest))
      orelse under a Names.transform_prefix (λ rest. done (poll_fields rest))
      orelse under a Names.active_prefix (λ pattern. done (poll_input_state env to pattern false))
      orelse under a Names.showing_prefix (λ pattern. done (poll_input_state env to pattern true))

  -- All the tests in the order of the source.
  unfoldable pub poll_route : Bytes → Poll
  unfolding poll_values poll_sources poll_bare poll_objects
  poll_route a = poll_values a orelse poll_sources a orelse poll_bare a orelse poll_objects a

  abbrev pub answered : Poll → Ui → Ui × Bool
  answered (done act) u = (act u, true)
  answered refused u = (u, false)
  answered miss u = (u, false)

  -- The whole function, with the batch that its first statement opens and every return closes.
  unfoldable pub poll_dispatch : Bytes → Ui → Ui × Bool
  unfolding poll_route begin_batch end_batch
  poll_dispatch a u =
      let (v, found) = answered (poll_route a) (record u { out = begin_batch u.out to }) in
      (record v { out = end_batch v.out }, found)
