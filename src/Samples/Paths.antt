-- ===== src/Samples/Paths.antt =====
-- src/osc-addresses.h and the routing helpers of src/osc-controls.cpp on concrete addresses.
use obs_osc.Base.{◌≡◌, refl, []}
use obs_osc.Addresses.Names.{visible_prefix}
use obs_osc.Addresses.Routes.{leaf}

-- The leaf of a prefix that ends in a slash is empty.
leaf_of_prefix : leaf visible_prefix ≡ []
unfolding leaf
leaf_of_prefix = refl
