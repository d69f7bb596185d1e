-- ===== src/Samples/Tree.antt =====
-- src/osc-query-schema.cpp with objects as lists of named objects, over the OBS of Samples/Desk.
use obs_osc.Base.{
  ◌≡◌, refl, inl, [], ◌∷◌, ◌++◌, Option, none, some, if◌then◌else◌, Bytes, codes, str_eq,
}
use obs_osc.Schema.Data.{ObsData, GetsSet}
use obs_osc.Schema.Tree.{split_path, descend, body_of, build_root, osc_query_schema_lookup}
use obs_osc.Schema.Lookups.{osc_query_schema_lookup_hidden, osc_query_schema_lookup_listed}
use obs_osc.Samples.Desk.{env, studio_obs}

pub data Object : Type 0 where
  empty : Object
  member : Bytes → Object → Object → Object

unfoldable pub get_member : Bytes → Object → Option Object
get_member name empty = none
get_member name (member other child rest) =
    if str_eq other name then some child else get_member name rest

unfoldable pub print : Object → Bytes
print empty = codes "{}"
print (member name child rest) = name ++ (print child ++ print rest)

abbrev pub objects : ObsData Object
objects = record {
  create = empty;
  set_int = λ name value node. node;
  set_double = λ name value node. node;
  set_string = λ name value node. node;
  set_array = λ name values node. node;
  set_obj = λ name child node. member name child node;
  get_obj = λ name node. get_member name node;
  get_json = λ node. print node;
}

objects-GetsSet : GetsSet objects
unfolding get_member
objects-GetsSet name other child node = refl

osc_query_schema_lookup_hidden_example :
    osc_query_schema_lookup objects env studio_obs (codes "/visible/Main") ≡ []
unfolding split_path
osc_query_schema_lookup_hidden_example =
    osc_query_schema_lookup_hidden objects env studio_obs (codes "/visible/Main") (codes "visible")
      (codes "Main" ∷ []) refl (inl refl)

osc_query_schema_lookup_listed_example :
    osc_query_schema_lookup objects env studio_obs (codes "/program/Main")
    ≡ body_of objects env studio_obs (
        descend objects env studio_obs
          (codes "program" ∷ codes "Main" ∷ [])
          (some (build_root objects env studio_obs)))
unfolding split_path
osc_query_schema_lookup_listed_example =
    osc_query_schema_lookup_listed objects env studio_obs objects-GetsSet (codes "/program/Main")
      (codes "program") (codes "Main" ∷ []) refl (inl refl)

-- The scene is found.
found : osc_query_schema_lookup objects env studio_obs (codes "/program/Main") ≡ codes "{}"
unfolding osc_query_schema_lookup get_member print
found = refl
