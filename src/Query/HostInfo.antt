-- ===== src/Query/HostInfo.antt =====
-- `handle_request` of src/osc-query.cpp behind the requests of src/osc-query-http.cpp.
use obs_osc.Base.{ℕ, Bytes, drop}
use obs_osc.Base.Decimal.{read_number}
use obs_osc.Query.Service.{Query}

-- The OSC port that a client reads in the document, behind `{"NAME":"OBS Studio","PORT":`.
abbrev pub port_of : Bytes → ℕ
port_of body = read_number 0 (drop 28 body)
