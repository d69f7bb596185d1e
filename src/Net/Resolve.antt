-- ===== src/Net/Resolve.antt =====
-- `resolve` of src/osc-net.cpp; `getaddrinfo` is a parameter: the addresses of a host and a service, or
-- failure.
use obs_osc.Base.{List, [], ◌∷◌, Option, none, some, Bytes, c_str}
use obs_osc.Base.Int.{ℤ}
use obs_osc.Base.Decimal.{to_string}
use obs_osc.Net.{Endpoint}

abbrev pub first_address : Option (List Endpoint) → Option Endpoint
first_address none = none
first_address (some []) = none
first_address (some (address ∷ _)) = some address

unfoldable pub resolve : (Bytes → Bytes → Option (List Endpoint)) → Bytes → ℤ → Option Endpoint
unfolding to_string
resolve getaddrinfo host port = first_address (getaddrinfo (c_str host) (to_string port))
