-- ===== src/Http/Request.antt =====
-- `url_decode`, `find_header_value`, `try_upgrade` and `handle_client`. The bytes that `recv` gives
-- are a list of chunks; `osc_ws::serve` and the response's header lines are the answer's two cases.
use Prim.Native.Nat.{bit_or}
use obs_osc.Base.{
  ℕ, ◌+◌, ◌-◌, ◌*◌, Bool, true, false, not, ◌&&◌, ◌||◌, List, [], ◌∷◌, ◌++◌, Option, none, some,
  ◌==◌, leb, ltb, if◌then◌else◌, length, drop, is_empty, Bytes, codes, starts_with,
}

abbrev pub between : ℕ → ℕ → ℕ → Bool
between least most c = leb least c && leb c most

-- `isxdigit`
abbrev pub isxdigit : ℕ → Bool
isxdigit c = between b'0' b'9' c || (between b'A' b'F' c || between b'a' b'f' c)

-- The lambda `hex`
abbrev pub hex : ℕ → ℕ
hex c = if between b'0' b'9' c then c - b'0' else bit_or c 0x20 - b'a' + 10

-- `(hex << 4) | hex` on two digits below 16.
unfoldable pub url_decode : Bytes → Bytes
url_decode [] = []
url_decode (c ∷ []) = c ∷ []
url_decode (c ∷ d ∷ []) = c ∷ d ∷ []
url_decode (c ∷ d ∷ e ∷ s) =
    let escaped = url_decode s in
    let plain = url_decode (d ∷ e ∷ s) in
    if c == b'%' && (isxdigit d && isxdigit e) then (hex d * 16 + hex e) ∷ escaped else c ∷ plain

abbrev pub lower : ℕ → ℕ
lower c = if between b'A' b'Z' c then c + 32 else c

-- `osc_strncasecmp(s, name, strlen(name)) == 0`
unfoldable pub begins_nocase : Bytes → Bytes → Bool
begins_nocase [] s = true
begins_nocase (_ ∷ _) [] = false
begins_nocase (c ∷ name) (d ∷ s) = lower c == lower d && begins_nocase name s

-- The text before the first byte `c`, if there is one.
unfoldable pub before : ℕ → Bytes → Option Bytes
before c [] = none
before c (d ∷ s) =
    let rest = before c s in
    if d == c then some [] else elim rest [ none ↦ none | some t ↦ some (d ∷ t) ]

-- `while (request[pos] == ' ' || request[pos] == ':') pos++;`
unfoldable pub skip_separators : Bytes → Bytes
skip_separators [] = []
skip_separators (c ∷ s) =
    let rest = skip_separators s in if c == b' ' || c == b':' then rest else c ∷ s

-- The loop over the newlines of the request.
unfoldable pub find_header_value : Bytes → Bytes → Option Bytes
unfolding begins_nocase before skip_separators
find_header_value [] name = none
find_header_value (c ∷ s) name =
    let rest = find_header_value s name in
    if not (c == b'\n')
    then rest
    else if ltb (length s) (length name)
    then none
    else if begins_nocase name s
    then before b'\r' (skip_separators (drop (length name) s))
    else rest

-- `try_upgrade`: the key that is handed to the websocket server.
unfoldable pub try_upgrade : Bytes → Option Bytes
unfolding find_header_value
try_upgrade request = elim (find_header_value request (codes "sec-websocket-key")) [
  | none ↦ none
  | some key ↦ elim (find_header_value request (codes "upgrade")) [
    | none ↦ none
    | some _ ↦ some key
  ]
]

pub data Answer : Type 0 where
  upgraded : Bytes → Answer
  respond : Bytes → Bool → Answer

abbrev pub method_error_json : Bytes
method_error_json = codes "{\"STATUS\":\"error\",\"DESCRIPTION\":\"method not supported\"}"

abbrev pub not_found_json : Bytes
not_found_json = codes "{\"STATUS\":\"error\",\"DESCRIPTION\":\"not found\"}"

-- The text before `c`, or all of it.
unfoldable pub up_to : ℕ → Bytes → Bytes
unfolding before
up_to c s = elim (before c s) [ none ↦ s | some t ↦ t ]

-- The path between `GET ` and the next space, without its query.
unfoldable pub request_path : Bytes → Bytes
unfolding up_to
request_path request = up_to b'?' (up_to b' ' (drop 4 request))

abbrev pub answer : (Bytes → Bytes) → Bytes → Answer
answer http_handler path =
    if is_empty (http_handler path)
    then respond not_found_json false
    else respond (http_handler path) true

-- The answer to a request that has been read.
unfoldable pub answer_request : (Bytes → Bytes) → Bytes → Answer
unfolding try_upgrade request_path url_decode
answer_request http_handler request = elim (try_upgrade request) [
  | some key ↦ upgraded key
  | none ↦
      if not (starts_with (codes "GET ") request)
      then respond method_error_json false
      else answer http_handler (url_decode (request_path request))
]

-- `request.find("\r\n\r\n") != npos`
unfoldable pub has_blank_line : Bytes → Bool
has_blank_line [] = false
has_blank_line (c ∷ s) = starts_with (codes "\r\n\r\n") (c ∷ s) || has_blank_line s

-- The reading loop over what the calls of `recv` will give.
unfoldable pub read_request : List Bytes → Bytes → Bytes
unfolding has_blank_line
read_request [] request = request
read_request (chunk ∷ chunks) request =
    let more = read_request chunks (request ++ chunk) in
    if not (has_blank_line request) && ltb (length request) 8192
    then (if is_empty chunk then request else more)
    else request

unfoldable pub handle_client : (Bytes → Bytes) → List Bytes → Answer
unfolding answer_request read_request
handle_client http_handler chunks = answer_request http_handler (read_request chunks [])
