-- ===== src/Schema/Tree.antt =====
-- `build_section`, `build_root` and the lookup of a path of src/osc-query-schema.cpp.
use obs_osc.Base.{
  true, false, List, [], ◌∷◌, ◌++◌, Option, none, some, ◌==◌, ◌||◌, if◌then◌else◌, Bytes, codes,
  str_eq,
}
use obs_osc.Addresses.Names
use obs_osc.Addresses.Names.{OutputInfo, outputs}
use obs_osc.Addresses.Routes.{leaf}
use obs_osc.Obs.Readings.{Reads, Env}
use obs_osc.Schema.Data.{ObsData}
use obs_osc.Schema.Nodes.{contents_key, map_set, make_bang, make_rw_int}
use obs_osc.Schema.Sections.{
  as_int, build_scenes_section, build_transition_section, build_output_section,
  build_source_section, build_item_sections,
}
use obs_osc.Schema.Listings.{
  build_filter_section, build_tally_section, build_hotkey_section, build_profile_section,
  build_collection_section,
}

-- The text up to each '/', and what is left.
unfoldable pub pieces : Bytes → Bytes × List Bytes
pieces [] = ([], [])
pieces (c ∷ path) =
    let (first, others) = pieces path in
    if c == b'/' then ([], first ∷ others) else (c ∷ first, others)

abbrev pub keep_segment : Bytes → List Bytes → List Bytes
keep_segment [] segments = segments
keep_segment (c ∷ segment) segments = (c ∷ segment) ∷ segments

unfoldable pub keep_segments : List Bytes → List Bytes
keep_segments [] = []
keep_segments (segment ∷ others) = keep_segment segment (keep_segments others)

unfoldable pub split_path : Bytes → List Bytes
unfolding pieces keep_segments
split_path path = let (first, others) = pieces path in keep_segments (first ∷ others)

-- The loop over the outputs.
unfoldable pub find_output : Bytes → List OutputInfo → Option OutputInfo
unfolding leaf str_eq
find_output segment [] = none
find_output segment (out ∷ outs) =
    if str_eq segment (leaf out.base) then some out else find_output segment outs

module _ {D : Type 0} (d : ObsData D) (env : Env) (r : Reads) where
  -- From the test for the studio mode on.
  unfoldable pub build_rest : Bytes → Option D
  unfolding leaf str_eq make_rw_int make_bang build_source_section build_item_sections
      build_filter_section build_tally_section build_hotkey_section build_profile_section
      build_collection_section
  build_rest segment =
      if str_eq segment (leaf Names.studio)
      then some (make_rw_int d (as_int r.preview_program_mode) 0 1 (some (codes "Studio mode")))
      else if str_eq segment (leaf Names.screenshot)
      then some (make_bang d (some (codes "Take screenshot")))
      else if str_eq segment Names.mute
          || (str_eq segment Names.volume || str_eq segment Names.media)
      then build_source_section d env r segment
      else if str_eq segment (leaf Names.visible_prefix)
      then (build_item_sections d env r true false false).visible
      else if str_eq segment (leaf Names.locked_prefix)
      then (build_item_sections d env r false true false).locked
      else if str_eq segment (leaf Names.order_prefix)
      then (build_item_sections d env r false false true).order
      else if str_eq segment (leaf Names.filter_prefix)
      then some (build_filter_section d r)
      else if str_eq segment (leaf Names.active_prefix)
      then some (build_tally_section d r false)
      else if str_eq segment (leaf Names.showing_prefix)
      then some (build_tally_section d r true)
      else if str_eq segment Names.hotkey_prefix
      then some (build_hotkey_section d r)
      else if str_eq segment (leaf Names.profile)
      then some (build_profile_section d r)
      else if str_eq segment (leaf Names.collection)
      then some (build_collection_section d r)
      else if str_eq segment (leaf Names.subscribe)
      then some (
          make_bang d (
            some (
              codes
                "Subscribe this client to a topic: ,s <pattern> [,i port]; wildcards * and ? allowed")))
      else if str_eq segment (leaf Names.unsubscribe)
      then some
          (make_bang d (some (codes "Unsubscribe: ,s <pattern>, or no argument for everything")))
      else none

  unfoldable pub build_section : Bytes → Option D
  unfolding leaf str_eq build_scenes_section build_transition_section find_output
      build_output_section build_rest
  build_section segment =
      if str_eq segment (codes "program")
      then some (build_scenes_section d env r (codes "Switch program scene"))
      else if str_eq segment (codes "preview")
      then some (build_scenes_section d env r (codes "Set preview scene"))
      else if str_eq segment (leaf Names.transition)
      then some (build_transition_section d env r)
      else elim (find_output segment outputs) [
        | some out ↦ some (build_output_section d env r out)
        | none ↦ build_rest segment
      ]

  -- `map_set` with what a builder made; none of those below makes null.
  abbrev pub set_section : Bytes → Option D → D → D
  set_section name none contents = contents
  set_section name (some child) contents = map_set d name child contents

  unfoldable pub set_sections : List (Bytes × Option D) → D → D
  set_sections [] contents = contents
  set_sections ((name, child) ∷ sections) contents =
      set_sections sections (set_section name child contents)

  unfoldable pub output_sections : List OutputInfo → List (Bytes × Option D)
  unfolding leaf build_output_section
  output_sections [] = []
  output_sections (out ∷ outs) =
      (leaf out.base, some (build_output_section d env r out)) ∷ output_sections outs

  -- The calls of `map_set`, in order.
  unfoldable pub root_sections : List (Bytes × Option D)
  unfolding leaf build_section output_sections build_item_sections
  root_sections =
      let items = build_item_sections d env r true true true in
      (codes "program", build_section (codes "program"))
      ∷ (codes "preview", build_section (codes "preview"))
      ∷ (leaf Names.transition, build_section (leaf Names.transition))
      ∷ (output_sections outputs
          ++ ((leaf Names.studio, build_section (leaf Names.studio))
              ∷ (leaf Names.screenshot, build_section (leaf Names.screenshot))
              ∷ (Names.mute, build_section Names.mute)
              ∷ (Names.volume, build_section Names.volume)
              ∷ (Names.media, build_section Names.media)
              ∷ (leaf Names.visible_prefix, items.visible)
              ∷ (leaf Names.locked_prefix, items.locked)
              ∷ (leaf Names.order_prefix, items.order)
              ∷ (leaf Names.filter_prefix, build_section (leaf Names.filter_prefix))
              ∷ (leaf Names.active_prefix, build_section (leaf Names.active_prefix))
              ∷ (leaf Names.showing_prefix, build_section (leaf Names.showing_prefix))
              ∷ (Names.hotkey_prefix, build_section Names.hotkey_prefix)
              ∷ (leaf Names.profile, build_section (leaf Names.profile))
              ∷ (leaf Names.collection, build_section (leaf Names.collection))
              ∷ (leaf Names.subscribe, build_section (leaf Names.subscribe))
              ∷ (leaf Names.unsubscribe, build_section (leaf Names.unsubscribe))
              ∷ []))

  unfoldable pub build_root : D
  unfolding set_sections root_sections
  build_root = d.set_obj contents_key (set_sections root_sections d.create) d.create

  -- `obs_data_get_obj(contents, segment)`, null where there are no contents.
  abbrev pub child_of : Bytes → D → Option D
  child_of segment node = elim (d.get_obj contents_key node) [
    | none ↦ none
    | some contents ↦ d.get_obj segment contents
  ]

  -- The loop over the later segments.
  unfoldable pub descend : List Bytes → Option D → Option D
  descend segments none = none
  descend [] (some node) = some node
  descend (segment ∷ segments) (some node) = descend segments (child_of segment node)

  abbrev pub body_of : Option D → Bytes
  body_of none = []
  body_of (some node) = d.get_json node

  unfoldable pub walk_segments : List Bytes → Bytes
  unfolding build_root descend build_section
  walk_segments [] = d.get_json build_root
  walk_segments (segment ∷ segments) = body_of (descend segments (build_section segment))

  -- `walk_tree`, on the UI thread.
  unfoldable pub osc_query_schema_lookup : Bytes → Bytes
  unfolding split_path walk_segments
  osc_query_schema_lookup path = walk_segments (split_path path)
