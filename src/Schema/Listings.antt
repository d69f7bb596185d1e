-- ===== src/Schema/Listings.antt =====
-- The sections of src/osc-query-schema.cpp that list filters, tally states, hotkeys and names.
use obs_osc.Base.{
  Bool, true, List, [], ◌∷◌, Option, none, some, is_empty, if◌then◌else◌, Bytes, codes,
}
use obs_osc.Util.Visit.{visit_each, osc_visit_sources, any, input_kind}
use obs_osc.Obs.Actions.{Handle}
use obs_osc.Obs.Readings.{Reads}
use obs_osc.Schema.Data.{ObsData}
use obs_osc.Schema.Nodes.{add_child, make_bang, make_rw_int, make_ro_int, make_container}
use obs_osc.Schema.Sections.{as_int}

module _ {D : Type 0} (d : ObsData D) (r : Reads) where
  unfoldable pub filter_child : Handle → D → D × Bool
  unfolding add_child make_rw_int
  filter_child filter filters = (
    add_child d (r.source_name filter) (make_rw_int d (as_int (r.enabled filter)) 0 1 none) filters,
    true,
  )

  unfoldable pub filter_source_visit : Handle → D → D × Bool
  unfolding make_container visit_each filter_child add_child
  filter_source_visit source node = if is_empty (r.filters source) then (node, true) else (
    add_child d (r.source_name source)
        (visit_each filter_child (r.filters source) (make_container d none)) node,
    true,
  )

  unfoldable pub build_filter_section : D
  unfolding make_container osc_visit_sources filter_source_visit
  build_filter_section =
      osc_visit_sources (λ _. r) (codes "*") any filter_source_visit
        (make_container d (some (codes "Filter enable toggles")))

  unfoldable pub tally_enum_visit : Bool → Handle → D → D × Bool
  unfolding add_child make_ro_int
  tally_enum_visit showing source root =
      let on = if showing then r.showing source else r.active source in
      (
        add_child d (r.source_name source)
            (make_ro_int d (as_int on)
              (some (if showing then codes "On screen" else codes "In program chain")))
            root,
        true,
      )

  unfoldable pub build_tally_section : Bool → D
  unfolding make_container osc_visit_sources tally_enum_visit
  build_tally_section showing =
      osc_visit_sources (λ _. r) (codes "*") input_kind (tally_enum_visit showing)
        (make_container d (
          some (
            if showing
            then codes "Inputs shown on screen at all"
            else codes "Inputs rendered in the program chain")))

  unfoldable pub hotkey_child : Handle × Bytes → D → D × Bool
  unfolding add_child make_bang
  hotkey_child (id, name) node = (add_child d name (make_bang d none) node, true)

  unfoldable pub build_hotkey_section : D
  unfolding make_container visit_each hotkey_child
  build_hotkey_section =
      visit_each hotkey_child r.hotkeys
        (make_container d (some (codes "Trigger hotkey by OBS name")))

  unfoldable pub add_names : List Bytes → D → D
  unfolding add_child make_bang
  add_names [] parent = parent
  add_names (name ∷ names) parent = add_names names (add_child d name (make_bang d none) parent)

  unfoldable pub add_name_children : Option (List Bytes) → D → D
  unfolding add_names
  add_name_children none parent = parent
  add_name_children (some names) parent = add_names names parent

  unfoldable pub build_profile_section : D
  unfolding make_container add_name_children
  build_profile_section =
      add_name_children r.profiles (make_container d (some (codes "Switch profile")))

  unfoldable pub build_collection_section : D
  unfolding make_container add_name_children
  build_collection_section =
      add_name_children r.scene_collections
        (make_container d (some (codes "Switch scene collection")))
