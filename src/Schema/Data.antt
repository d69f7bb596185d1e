-- ===== src/Schema/Data.antt =====
-- libobs' `obs_data_t`, which the schema is built from. A node that is put into another is shared with
-- it in the program; here it is put in when it is filled.
use obs_osc.Base.{ℕ, List, Option, some, Bytes, if◌then◌else◌, str_eq, ◌≡◌}

pub record ObsData (D : Type 0) : Type 0 where
  pub create : D
  pub set_int : Bytes → ℕ → D → D
  pub set_double : Bytes → ℕ → D → D
  pub set_string : Bytes → Bytes → D → D
  pub set_array : Bytes → List D → D → D
  pub set_obj : Bytes → D → D → D
  pub get_obj : Bytes → D → Option D
  pub get_json : D → Bytes

-- What is documented of an object that is set: it is what its name gets, and other names get what
-- they did.
abbrev pub GetsSet : {D : Type 0} → ObsData D → Type 0
GetsSet {D} d =
    (name other : Bytes) (child node : D)
    → d.get_obj other (d.set_obj name child node)
      ≡ (if str_eq name other then some child else d.get_obj other node)
