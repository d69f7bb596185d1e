-- ===== src/Util/Visit.antt =====
-- The enumerations of src/osc-util.cpp. A visitor is the callback: a state in, a state and
-- whether to go on out.
use obs_osc.Base.{
  ℕ, Bool, true, false, not, ◌&&◌, List, [], ◌∷◌, Option, none, some, ◌^◌, ◌-◌, ◌+◌, if◌then◌else◌,
  Bytes,
}
use obs_osc.Base.Int.{ℤ, pos, negsuc}
use obs_osc.Base.Run.{ok}
use obs_osc.Util.Glob.{osc_has_wildcard, osc_selector_matches}
use obs_osc.Subscribe.Fanout.{glob}
use obs_osc.Obs.Actions.{Handle}
use obs_osc.Obs.Readings.{SourceType, input, scene, type_eq, Reads, Env, Ui, reads}

unfoldable pub osc_is_input : Reads → Handle → Bool
osc_is_input r source = type_eq (r.source_type source) input

unfoldable pub osc_source_of_type : Reads → Bytes → SourceType → Option Handle
osc_source_of_type r name type = elim (r.source_by_name name) [
  | none ↦ none
  | some source ↦ if not (type_eq (r.source_type source) type) then none else some source
]

-- `osc_source_kind`: any, input, scene
pub data SourceKind : Type 0 where
  any input_kind scene_kind : SourceKind

-- The two `switch`es.
unfoldable pub type_ok : Reads → SourceKind → Handle → Bool
unfolding osc_is_input
type_ok r input_kind source = osc_is_input r source
type_ok r scene_kind source = type_eq (r.source_type source) scene
type_ok r any source = true

-- `(size_t)atoi(selector)`
abbrev pub size_t : ℤ → ℕ
size_t (pos n) = n
size_t (negsuc n) = 2 ^ 64 - (n + 1)

-- The selector's answer; the matcher always answers.
unfoldable pub selected : Env → Bytes → Bytes → ℕ → Bool
selected env selector name index =
    elim (osc_selector_matches (λ s. size_t (env.atoi s)) selector name index) [
      | ok b ↦ b
      | _ ↦ false
    ]

-- Callbacks in a row, up to the first that answers false.
unfoldable pub visit_each {ℓ} : {A : Type ℓ} {S : Type 0} → (A → S → S × Bool) → List A → S → S
visit_each visit [] u = u
visit_each visit (x ∷ xs) u =
    let (u', more) = visit x u in if more then visit_each visit xs u' else u'

-- `read` is what libobs answers in a state of the visitor's.
module _ {S : Type 0} (read : S → Reads) where
  -- The callback of `obs_enum_sources`.
  unfoldable pub visit_source : Bytes → SourceKind → (Handle → S → S × Bool) → Handle → S → S × Bool
  unfolding type_ok glob
  visit_source pattern kind visit source u =
      if type_ok (read u) kind source && glob pattern ((read u).source_name source)
      then visit source u
      else (u, true)

  unfoldable pub osc_visit_sources : Bytes → SourceKind → (Handle → S → S × Bool) → S → S
  unfolding osc_has_wildcard type_ok visit_each visit_source
  osc_visit_sources pattern kind visit u =
      if not (osc_has_wildcard pattern)
      then elim ((read u).source_by_name pattern) [
        | none ↦ u
        | some source ↦ if type_ok (read u) kind source then (visit source u).0 else u
      ]
      else visit_each (visit_source pattern kind visit) (read u).sources u

module _ (env : Env) where
  -- `ic->item_selector && !osc_selector_matches(…)`
  unfoldable pub skips : Option Bytes → Reads → Handle → Handle → Bool
  unfolding selected
  skips none r item source = false
  skips (some selector) r item source =
      not (selected env selector (r.source_name source) (r.item_order item))

  unfoldable pub visit_item_cb :
      Option Bytes → (Bytes → Handle → Ui → Ui × Bool) → Bytes → Handle → Ui → Ui × Bool
  unfolding skips
  visit_item_cb item_selector visit scene_name item u = elim ((reads env u).item_source item) [
    | none ↦ (u, true)
    | some source ↦
        if skips item_selector (reads env u) item source then (u, true) else visit scene_name item u
  ]

  unfoldable pub enum_items_of_scene :
      Option Bytes → (Bytes → Handle → Ui → Ui × Bool) → Handle → Ui → Ui
  unfolding visit_each visit_item_cb
  enum_items_of_scene item_selector visit scene_source u =
      visit_each (visit_item_cb item_selector visit ((reads env u).source_name scene_source))
        ((reads env u).items scene_source) u

  -- The callback of `obs_enum_scenes`.
  unfoldable pub visit_scene :
      Bytes → Option Bytes → (Bytes → Handle → Ui → Ui × Bool) → Handle → Ui → Ui × Bool
  unfolding glob enum_items_of_scene
  visit_scene scene_pattern item_selector visit scene_source u =
      if not (glob scene_pattern ((reads env u).source_name scene_source))
      then (u, true)
      else (enum_items_of_scene item_selector visit scene_source u, true)

  unfoldable pub osc_visit_scene_items :
      Bytes → Option Bytes → (Bytes → Handle → Ui → Ui × Bool) → Ui → Ui
  unfolding osc_has_wildcard enum_items_of_scene visit_each visit_scene
  osc_visit_scene_items scene_pattern item_selector visit u =
      if not (osc_has_wildcard scene_pattern)
      then elim ((reads env u).source_by_name scene_pattern) [
        | none ↦ u
        | some scene_source ↦
            if type_eq ((reads env u).source_type scene_source) scene
            then enum_items_of_scene item_selector visit scene_source u
            else u
      ]
      else visit_each (visit_scene scene_pattern item_selector visit) (reads env u).scenes u
