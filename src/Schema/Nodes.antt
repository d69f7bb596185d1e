-- ===== src/Schema/Nodes.antt =====
-- The node helpers of src/osc-query-schema.cpp. A number is the pattern of the `int` or `float` that
-- it is made from.
use obs_osc.Base.{
  ℕ, Bool, false, List, [], ◌∷◌, Option, none, some, ◌==◌, if◌then◌else◌, Bytes, codes,
}
use obs_osc.Addresses.Names
use obs_osc.Addresses.Names.{MediaAction, media_verbs}
use obs_osc.Util.Fields.{float_0, float_1}
use obs_osc.Obs.Readings.{Env}
use obs_osc.Schema.Data.{ObsData}

abbrev pub contents_key : Bytes
contents_key = codes "CONTENTS"

-- `type[0] == 'i'`
abbrev pub is_int : Bytes → Bool
is_int [] = false
is_int (c ∷ _) = c == b'i'

-- The descriptions that a caller leaves out are null.
module _ {D : Type 0} (d : ObsData D) where
  abbrev pub map_set : Bytes → D → D → D
  map_set name child contents = d.set_obj name child contents

  -- A parent without contents stays.
  unfoldable pub add_child : Bytes → D → D → D
  add_child name child parent = elim (d.get_obj contents_key parent) [
    | none ↦ parent
    | some contents ↦ d.set_obj contents_key (map_set name child contents) parent
  ]

  abbrev pub set_description : Bytes → D → D
  set_description description node = d.set_string (codes "DESCRIPTION") description node

  abbrev pub set_number : Bytes → Bytes → ℕ → D → D
  set_number type name value node =
      if is_int type then d.set_int name value node else d.set_double name value node

  abbrev pub described : Option Bytes → D → D
  described none node = node
  described (some description) node = set_description description node

  abbrev pub typed : Option Bytes → ℕ → D → D
  typed none value node = node
  typed (some type) value node =
      set_number type (codes "VALUE") value (d.set_string (codes "TYPE") type node)

  -- `ranged`, `min` and `max`.
  abbrev pub ranged_by : Option Bytes → Option (ℕ × ℕ) → D → D
  ranged_by type none node = node
  ranged_by none (some (low, high)) node =
      d.set_array (codes "RANGE")
        (d.set_double (codes "MAX") high (d.set_double (codes "MIN") low d.create) ∷ []) node
  ranged_by (some type) (some (low, high)) node =
      d.set_array (codes "RANGE")
        (set_number type (codes "MAX") high (set_number type (codes "MIN") low d.create) ∷ []) node

  unfoldable pub make_leaf : ℕ → Option Bytes → ℕ → Option (ℕ × ℕ) → Option Bytes → D
  make_leaf access type value range description =
      described description
        (ranged_by type range (typed type value (d.set_int (codes "ACCESS") access d.create)))

  unfoldable pub make_bang : Option Bytes → D
  unfolding make_leaf
  make_bang description = make_leaf 1 none float_0 none description

  unfoldable pub make_rw_int : ℕ → ℕ → ℕ → Option Bytes → D
  unfolding make_leaf
  make_rw_int value low high description =
      make_leaf 3 (some (codes "i")) value (some (low, high)) description

  unfoldable pub make_rw_float : ℕ → Option Bytes → D
  unfolding make_leaf
  make_rw_float value description =
      make_leaf 3 (some (codes "f")) value (some (float_0, float_1)) description

  unfoldable pub make_ro_int : ℕ → Option Bytes → D
  unfolding make_leaf
  make_ro_int value description = make_leaf 2 (some (codes "i")) value none description

  unfoldable pub make_container : Option Bytes → D
  make_container description =
      described description
        (d.set_obj contents_key d.create (d.set_int (codes "ACCESS") 0 d.create))

  unfoldable pub add_verbs : List (Bytes × MediaAction) → D → D
  unfolding add_child make_bang
  add_verbs [] parent = parent
  add_verbs ((name, _) ∷ verbs) parent = add_verbs verbs (add_child name (make_bang none) parent)

  unfoldable pub add_media_children : Env → D → D
  unfolding add_verbs add_child make_ro_int
  add_media_children env parent =
      add_child Names.media_state_node
        (make_ro_int env.media_state_none
          (some (codes "Media state (0 none, 1 playing, 4 paused, ...)")))
        (add_verbs media_verbs parent)
