-- ===== src/Samples/Requests.antt =====
-- src/osc-query-http.cpp on concrete requests.
use obs_osc.Base.{◌≡◌, refl, some, Bytes, codes}
use obs_osc.Http.Request.{try_upgrade}

abbrev echo : Bytes → Bytes
echo path = path

-- The key of an upgrade request.
finds_key :
    try_upgrade (codes "GET / HTTP/1.1\r\nUpgrade: websocket\r\nSec-WebSocket-Key: abc=\r\n\r\n")
    ≡ some (codes "abc=")
unfolding try_upgrade
finds_key = refl
