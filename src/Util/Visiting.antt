-- ===== src/Util/Visiting.antt =====
-- Predicates that a visitor keeps, through an enumeration.
use obs_osc.Base.{
  Bool, true, false, not, ◌&&◌, List, [], ◌∷◌, Option, if◌then◌else◌, if_both, Option_both, Bytes,
}
use obs_osc.Util.Glob.{osc_has_wildcard}
use obs_osc.Util.Visit.{
  SourceKind, type_ok, visit_each, visit_source, osc_visit_sources, visit_item_cb,
  enum_items_of_scene, visit_scene, osc_visit_scene_items, skips,
}
use obs_osc.Subscribe.Fanout.{glob}
use obs_osc.Obs.Actions.{Handle}
use obs_osc.Obs.Readings.{scene, type_eq, Env, Ui, reads}
use obs_osc.Obs.Keeps.{Keeps, VisitKeeps}

module _ (P : Ui → Type 0) where
  pub visit_each-Keeps {ℓ} :
      {A : Type ℓ} (visit : A → Ui → Ui × Bool) (xs : List A)
      → VisitKeeps P visit
      → Keeps P (visit_each visit xs)
  unfolding visit_each
  visit_each-Keeps visit [] k u h = h
  visit_each-Keeps visit (x ∷ xs) k u h =
      if_both P (visit x u).1 _ _ (visit_each-Keeps visit xs k (visit x u).0 (k x u h)) (k x u h)

  if_visited : (b : Bool) (m n : Ui × Bool) → P m.0 → P n.0 → P (if b then m else n).0
  if_visited true m n hm hn = hm
  if_visited false m n hm hn = hn

  visit_source-Keeps :
      (env : Env) (pattern : Bytes) (kind : SourceKind) (visit : Handle → Ui → Ui × Bool)
      → VisitKeeps P visit
      → VisitKeeps P (visit_source (reads env) pattern kind visit)
  unfolding visit_source
  visit_source-Keeps env pattern kind visit k s u h =
      if_visited (type_ok (reads env u) kind s && glob pattern ((reads env u).source_name s))
        (visit s u) (u, true) (k s u h) h

  pub osc_visit_sources-Keeps :
      (env : Env) (pattern : Bytes) (kind : SourceKind) (visit : Handle → Ui → Ui × Bool)
      → VisitKeeps P visit
      → Keeps P (osc_visit_sources (reads env) pattern kind visit)
  unfolding osc_visit_sources
  osc_visit_sources-Keeps env pattern kind visit k u h =
      if_both P (not (osc_has_wildcard pattern)) _ _
        (Option_both P ((reads env u).source_by_name pattern) _ _ h
          (λ s. if_both P (type_ok (reads env u) kind s) _ _ (k s u h) h))
        (visit_each-Keeps (visit_source (reads env) pattern kind visit) (reads env u).sources
          (visit_source-Keeps env pattern kind visit k) u h)

  module _ (env : Env) (selector : Option Bytes) (visit : Bytes → Handle → Ui → Ui × Bool)
      (k : (scene_name : Bytes) → VisitKeeps P (visit scene_name)) where
    visit_item_cb-Keeps :
        (scene_name : Bytes) → VisitKeeps P (visit_item_cb env selector visit scene_name)
    unfolding visit_item_cb
    visit_item_cb-Keeps scene_name item u h =
        Option_both (λ (out : Ui × Bool). P out.0) ((reads env u).item_source item) _ _ h
          (λ s.
            if_visited (skips env selector (reads env u) item s) (u, true) (visit scene_name item u)
              h (k scene_name item u h))

    enum_items_of_scene-Keeps : (s : Handle) → Keeps P (enum_items_of_scene env selector visit s)
    unfolding enum_items_of_scene
    enum_items_of_scene-Keeps s u h =
        visit_each-Keeps (visit_item_cb env selector visit ((reads env u).source_name s))
          ((reads env u).items s) (visit_item_cb-Keeps ((reads env u).source_name s)) u h

    visit_scene-Keeps : (pattern : Bytes) → VisitKeeps P (visit_scene env pattern selector visit)
    unfolding visit_scene
    visit_scene-Keeps pattern s u h =
        if_visited (not (glob pattern ((reads env u).source_name s))) (u, true)
          (enum_items_of_scene env selector visit s u, true) h (enum_items_of_scene-Keeps s u h)

    pub osc_visit_scene_items-Keeps :
        (pattern : Bytes) → Keeps P (osc_visit_scene_items env pattern selector visit)
    unfolding osc_visit_scene_items
    osc_visit_scene_items-Keeps pattern u h =
        if_both P (not (osc_has_wildcard pattern)) _ _
          (Option_both P ((reads env u).source_by_name pattern) _ _ h (λ s.
            if_both P (type_eq ((reads env u).source_type s) scene) _ _
              (enum_items_of_scene-Keeps s u h) h))
          (visit_each-Keeps (visit_scene env pattern selector visit) (reads env u).scenes
            (visit_scene-Keeps pattern) u h)
