-- ===== src/Schema/Sections.antt =====
-- The section builders of src/osc-query-schema.cpp: each makes one top-level node.
use obs_osc.Base.{
  ℕ, Bool, true, List, [], ◌∷◌, Option, none, some, if◌then◌else◌, Bytes, codes, str_eq,
}
use obs_osc.Addresses.Names
use obs_osc.Addresses.Names.{OutputInfo}
use obs_osc.Util.Fields.{osc_volume_position}
use obs_osc.Util.Visit.{visit_each, osc_visit_sources, input_kind}
use obs_osc.Obs.Actions.{Handle}
use obs_osc.Obs.Readings.{Reads, Env}
use obs_osc.Schema.Data.{ObsData}
use obs_osc.Schema.Nodes.{
  add_child, set_description, make_bang, make_rw_int, make_rw_float, make_container,
  add_media_children,
}

abbrev pub as_int : Bool → ℕ
as_int b = if b then 1 else 0

-- The three roots of a source walk, null where they are not asked for.
pub record SourceCtx (D : Type 0) : Type 0 where
  pub mute : Option D
  pub volume : Option D
  pub media : Option D

pub record ItemRoots (D : Type 0) : Type 0 where
  pub visible : Option D
  pub locked : Option D
  pub order : Option D

-- What a root becomes, where there is one.
abbrev pub under_root {ℓ κ} : {A : Type ℓ} {B : Type κ} → (A → B) → Option A → Option B
under_root act none = none
under_root act (some root) = some (act root)

abbrev pub either_root : {D : Type 0} → Option D → Option D → Option D
either_root (some root) other = some root
either_root none other = other

-- OBS is only read, so that its answers stay the same throughout.
module _ {D : Type 0} (d : ObsData D) (env : Env) (r : Reads) where
  unfoldable pub scene_bang_cb : Handle → D → D × Bool
  unfolding add_child make_bang
  scene_bang_cb scene node = (add_child d (r.source_name scene) (make_bang d none) node, true)

  unfoldable pub build_scenes_section : Bytes → D
  unfolding make_container visit_each scene_bang_cb
  build_scenes_section description =
      visit_each scene_bang_cb r.scenes (make_container d (some description))

  unfoldable pub build_transition_section : D
  unfolding make_container add_child make_bang visit_each scene_bang_cb
  build_transition_section = visit_each scene_bang_cb r.transitions (
      add_child d Names.transition_go (make_bang d (some (codes "Trigger transition")))
        (make_container d (some (codes "Select transition; 'go' runs it"))))

  unfoldable pub output_child : Bytes → D
  unfolding make_rw_int make_bang
  output_child sub =
      if str_eq sub Names.sub_pause
      then make_rw_int d (as_int r.recording_paused) 0 1 (some (codes "Pause state"))
      else make_bang d none

  unfoldable pub output_children : List Bytes → D → D
  unfolding add_child output_child
  output_children [] node = node
  output_children (sub ∷ subs) node = output_children subs (add_child d sub (output_child sub) node)

  unfoldable pub build_output_section : OutputInfo → D
  unfolding make_container output_children
  build_output_section out = output_children out.subs (make_container d (some out.description))

  unfoldable pub media_child : Handle → D → D
  unfolding add_child make_container add_media_children
  media_child source root =
      add_child d (r.source_name source)
        (add_media_children d env (make_container d (some (codes "Media playback controls")))) root

  unfoldable pub source_enum_visit : Handle → SourceCtx D → SourceCtx D × Bool
  unfolding add_child make_rw_int make_rw_float osc_volume_position media_child
  source_enum_visit source ctx =
      let name = r.source_name source in
      (
        record {
          mute =
              under_root (add_child d name (make_rw_int d (as_int (r.muted source)) 0 1 none))
                ctx.mute;
          volume =
              under_root
                (add_child d name
                  (make_rw_float d (osc_volume_position env.floats (r.volume source)) none))
                ctx.volume;
          media =
              if r.controllable_media source
              then under_root (media_child source) ctx.media
              else ctx.media;
        },
        true,
      )

  -- The roots before the walk, and the description after it.
  unfoldable pub source_ctx : Bytes → SourceCtx D × Bytes
  unfolding str_eq make_container
  source_ctx which =
      let root = some (make_container d none) in
      if str_eq which Names.mute
      then (
        record { mute = root; volume = none; media = none },
        codes "Mute inputs (* and ? globs work over OSC)",
      )
      else if str_eq which Names.volume
      then (record { mute = none; volume = root; media = none }, codes "Volume faders, 0..1")
      else (record { mute = none; volume = none; media = root }, codes "Media source transport")

  -- One of the three roots is there.
  unfoldable pub build_source_section : Bytes → Option D
  unfolding source_ctx osc_visit_sources source_enum_visit
  build_source_section which =
      let (ctx, description) = source_ctx which in
      let walked = osc_visit_sources (λ _. r) (codes "*") input_kind source_enum_visit ctx in
      under_root (set_description d description)
        (either_root walked.mute (either_root walked.volume walked.media))

  unfoldable pub schema_item_cb : Handle → ItemRoots D → ItemRoots D × Bool
  unfolding add_child make_rw_int
  schema_item_cb item parents = elim (r.item_source item) [
    | none ↦ (parents, true)
    | some source ↦
        let name = r.source_name source in
        (
          record {
            visible =
                under_root
                  (add_child d name (make_rw_int d (as_int (r.item_visible item)) 0 1 none))
                  parents.visible;
            locked =
                under_root (add_child d name (make_rw_int d (as_int (r.item_locked item)) 0 1 none))
                  parents.locked;
            order =
                under_root
                  (add_child d name
                    (make_rw_int d (r.item_order item) 0 4095 (some (codes "0 = bottom"))))
                  parents.order;
          },
          true,
        )
  ]

  -- `if (visible) add_child(roots->visible, scene_name, visible)`
  abbrev pub add_to_root : Bytes → Option D → Option D → Option D
  add_to_root scene_name none root = root
  add_to_root scene_name (some child) root = under_root (add_child d scene_name child) root

  abbrev pub containers : ItemRoots D → ItemRoots D
  containers roots = record {
    visible = under_root (λ _. make_container d none) roots.visible;
    locked = under_root (λ _. make_container d none) roots.locked;
    order = under_root (λ _. make_container d none) roots.order;
  }

  unfoldable pub schema_scene_cb : Handle → ItemRoots D → ItemRoots D × Bool
  unfolding make_container add_child visit_each schema_item_cb
  schema_scene_cb scene roots =
      let scene_name = r.source_name scene in
      let walked = visit_each schema_item_cb (r.items scene) (containers roots) in
      (
        record {
          visible = add_to_root scene_name walked.visible roots.visible;
          locked = add_to_root scene_name walked.locked roots.locked;
          order = add_to_root scene_name walked.order roots.order;
        },
        true,
      )

  abbrev pub root_if : Bool → Bytes → Option D
  root_if asked description = if asked then some (make_container d (some description)) else none

  -- An argument is true where its out-parameter is not null.
  unfoldable pub build_item_sections : Bool → Bool → Bool → ItemRoots D
  unfolding make_container visit_each schema_scene_cb
  build_item_sections visible_out locked_out order_out =
      visit_each schema_scene_cb r.scenes (record {
        visible = root_if visible_out (codes "Scene item visibility");
        locked = root_if locked_out (codes "Scene item lock");
        order = root_if order_out (codes "Scene item stacking order");
      })
