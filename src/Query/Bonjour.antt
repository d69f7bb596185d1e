-- ===== src/Query/Bonjour.antt =====
-- src/osc-query-bonjour.cpp. The answer of mDNS is a parameter; its reply is not looked at.
use obs_osc.Base.{List, [], ◌∷◌, ◌++◌, Option, none, some, ℕ, if◌then◌else◌, Bytes, codes}
use obs_osc.Base.Int.{ℤ}
use obs_osc.Net.Sockets.{NetCall, Sockets, registered, deallocated, uint16}

abbrev pub host_or_obs : Option Bytes → Bytes
host_or_obs none = codes "OBS"
host_or_obs (some host) = host

-- `std::string("OBS Studio @ ") + host`
abbrev pub service_name : Option Bytes → Bytes
service_name host = codes "OBS Studio @ " ++ host_or_obs host

-- Behind `DNSServiceRegister`: `bonjour_ref` and the calls.
unfoldable pub bonjour_registered : Bytes → ℕ → List NetCall → Option ℕ → Option ℕ × List NetCall
bonjour_registered name port calls none = (none, calls)
bonjour_registered name port calls (some ref) = (some ref, calls ++ (registered ref name port ∷ []))

unfoldable pub osc_bonjour_register :
    Sockets → ℤ → Option ℕ → List NetCall → Option ℕ × List NetCall
unfolding bonjour_registered
osc_bonjour_register os http_port bonjour_ref calls =
    let name = service_name os.host_name in
    let port = uint16 http_port in
    if os.has_mdns
    then bonjour_registered name port calls (os.register calls name port)
    else (bonjour_ref, calls)

-- A reference is held only where there is mDNS, so this is both versions of the function.
unfoldable pub osc_bonjour_unregister : Option ℕ → List NetCall → Option ℕ × List NetCall
osc_bonjour_unregister none calls = (none, calls)
osc_bonjour_unregister (some ref) calls = (none, calls ++ (deallocated ref ∷ []))
