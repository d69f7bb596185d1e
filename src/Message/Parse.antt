-- ===== src/Message/Parse.antt =====
-- `parse_message` and `osc_parse_packet`. Null pointers are left out: every caller passes buffers.
-- The nesting of bundles and the rounds of the element loop run on fuel, the packet's size; both
-- are proved to be enough in Safety.
use obs_osc.Base.{
  ℕ, zero, suc, ◌+◌, ◌-◌, ◌%◌, not, ◌||◌, ◌&&◌, List, [], ◌∷◌, ◌++◌, ◌==◌, leb, ltb, if◌then◌else◌,
  length, drop, Bytes, codes, starts_with,
}
use obs_osc.Message.Types.{OscArgument, OscMessage, blank}
use obs_osc.Base.Run.{Run, ok, reject, fault, out_of_fuel, ◌>>=◌, guard, ◌>>◌}
use obs_osc.Message.Read.{read_be32, mask4, read_string, slice}

-- The body of the loop over the type tags: the argument, and the position behind it.
unfoldable pub read_argument : Bytes → ℕ → ℕ → Run (OscArgument × ℕ)
read_argument buf tag pos =
    if tag == b'i'
    then (do
      guard (leb (pos + 4) (length buf))
      v ← read_be32 buf pos
      ok (record blank { type = tag; i = v }, pos + 4))
    else if tag == b'f'
    then (do
      guard (leb (pos + 4) (length buf))
      raw ← read_be32 buf pos
      ok (record blank { type = tag; f = raw }, pos + 4))
    else if tag == b's'
    then (do (str, next) ← read_string buf pos; ok (record blank { type = tag; s = str }, next))
    else if tag == b'b'
    then (do
      guard (leb (pos + 4) (length buf))
      blob ← read_be32 buf pos
      guard (leb blob (length buf - (pos + 4)))
      bytes ← slice buf (pos + 4) blob
      ok (record blank { type = tag; b = bytes }, pos + 4 + mask4 (blob + 3)))
    else if tag == b'T'
    then ok (record blank { type = tag; i = 1 }, pos)
    else if tag == b'F'
    then ok (record blank { type = tag; i = 0 }, pos)
    else if tag == b'd' || tag == b'h' || tag == b't'
    then (do guard (leb (pos + 8) (length buf)); ok (record blank { type = tag }, pos + 8))
    else if tag == b'm' || tag == b'r' || tag == b'c'
    then (do guard (leb (pos + 4) (length buf)); ok (record blank { type = tag }, pos + 4))
    else reject

unfoldable pub parse_arguments : Bytes → Bytes → ℕ → List OscArgument → Run (List OscArgument)
parse_arguments buf [] pos args = ok args
parse_arguments buf (tag ∷ tags) pos args = do
  (arg, next) ← read_argument buf tag pos
  parse_arguments buf tags next (args ++ (arg ∷ []))

-- `reject` leaves `out` as it was: the message is appended at the end only.
unfoldable pub parse_message : Bytes → List OscMessage → Run (List OscMessage)
parse_message buf out = do
  (address, pos) ← read_string buf 0
  guard (starts_with (b'/' ∷ []) address)
  (tags, start) ← read_string buf pos
  guard (starts_with (b',' ∷ []) tags)
  args ← parse_arguments buf (drop 1 tags) start []
  ok (out ++ (record { address = address; args = args } ∷ []))

abbrev pub Parser : Type 0
Parser = Bytes → List OscMessage → Run (List OscMessage)

-- A call whose result is dropped; `false` comes with `out` unchanged.
abbrev pub ignoring : List OscMessage → Run (List OscMessage) → Run (List OscMessage)
ignoring out (ok out') = ok out'
ignoring out reject = ok out
ignoring out fault = fault
ignoring out out_of_fuel = out_of_fuel

-- The loop over a bundle's elements, over the nested call `osc_parse_packet`.
unfoldable pub bundle_loop : Parser → ℕ → Bytes → ℕ → List OscMessage → Run (List OscMessage)
bundle_loop nested zero buf pos out = out_of_fuel
bundle_loop nested (suc rounds) buf pos out =
    let element : Run (List OscMessage) = (do
      size ← read_be32 buf pos
      let body : Run (List OscMessage) = (do
        inner ← slice buf (pos + 4) size
        out' ← ignoring out (nested inner out)
        bundle_loop nested rounds buf (pos + 4 + size) out')
      if size == 0 || ltb (length buf - (pos + 4)) size then ok out else body) in
    if leb (pos + 4) (length buf) then element else ok out

-- "#bundle" with its NUL
abbrev pub bundle_tag : Bytes
bundle_tag = codes "#bundle" ++ (0 ∷ [])

unfoldable pub parse_packet : ℕ → Parser
parse_packet zero buf out = out_of_fuel
parse_packet (suc depth) buf out =
    let bundle = bundle_loop (parse_packet depth) (length buf) buf 16 out in
    if ltb (length buf) 4 || not (length buf % 4 == 0)
    then reject
    else if leb 16 (length buf) && starts_with bundle_tag buf
    then bundle
    else parse_message buf out

unfoldable pub osc_parse_packet : Parser
unfolding parse_packet bundle_loop parse_message parse_arguments read_argument read_string read_be32
    slice starts_with
osc_parse_packet buf = parse_packet (suc (length buf)) buf
