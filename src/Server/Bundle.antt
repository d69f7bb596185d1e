-- ===== src/Server/Bundle.antt =====
-- The replies of a batch, and the bundle that `end_batch` builds of them.
use obs_osc.Base.{
  ℕ, zero, suc, ◌+◌, ◌%◌, ◌^◌, ◌≤◌, ◌<◌, true, List, [], ◌∷◌, ◌++◌, map, ◌≡◌, refl, sym, ap, ◌∙◌,
  arith, length, length-append, length-drop, take, drop, take-length, append-nil, append_assoc,
  Bytes, All, starts_with,
}
use obs_osc.Net.{Endpoint, endpoint_same_refl}
use obs_osc.Message.Types.{OscMessage}
use obs_osc.Base.Run.{Run, ok, ◌>>=◌}
use obs_osc.Message.Read.{read_be32, write_be32, slice}
use obs_osc.Message.Parse.{bundle_loop, parse_packet, osc_parse_packet, bundle_tag}
use obs_osc.Message.Build.{zeros, osc_build_message}
use obs_osc.Message.Padding.{length-write_be32}
use obs_osc.Message.Arguments.{At-past, At-fits, read_be32-write_be32}
use obs_osc.Message.RoundTrip.{IsMessage, build_size, parse_packet-build, osc_parse_packet-build}
use obs_osc.Server.State.{Server}
use obs_osc.Server.Batch.{
  Outbox, begin_batch, reply, bundle_elements, build_bundle, batch_datagrams,
}

abbrev pub built : OscMessage → Bytes
built m = osc_build_message [] m.address m.args

-- A message that fits in a bundle element.
abbrev pub FitsBundle : OscMessage → Type 0
FitsBundle m = IsMessage m × (length (built m) < 2 ^ 32)

-- The size field and the bytes of the first element.
element_at :
    (buf : Bytes) (pos : ℕ) (m rest : Bytes)
    → drop pos buf ≡ write_be32 (length m % 2 ^ 32) ++ (m ++ rest)
    → length m < 2 ^ 32
    → 0 < length m
    → (read_be32 buf pos ≡ ok (length m))
      × (slice buf (pos + 4) (length m) ≡ ok m)
      × (pos + 4 + length m ≤ length buf)
      × (drop (pos + 4 + length m) buf ≡ rest)
unfolding slice
element_at buf pos m rest e h p = (
  rw (read_be32-write_be32 buf pos (length m % 2 ^ 32) (m ++ rest) e (omega arith))
      (ap ok (omega arith)),
  ground (arith, room, taken),
  room,
  At-past buf (pos + 4) m rest body,
)
  where
    body : drop (pos + 4) buf ≡ m ++ rest
    body =
        rw (length-write_be32 (length m % 2 ^ 32)) at
          (At-past buf pos (write_be32 (length m % 2 ^ 32)) (m ++ rest) e)

    room : pos + 4 + length m ≤ length buf
    room = At-fits buf (pos + 4) m rest body p

    taken : take (length m) (drop (pos + 4) buf) ≡ m
    taken = rw body (take-length m rest)

bundle_loop-elements :
    (depth rounds : ℕ) (buf : Bytes) (pos : ℕ) (ms out : List OscMessage)
    → All FitsBundle ms
    → drop pos buf ≡ bundle_elements (map built ms)
    → length buf < rounds + pos
    → 0 < rounds
    → 0 < depth
    → bundle_loop (parse_packet depth) rounds buf pos out ≡ ok (out ++ ms)
unfolding bundle_loop bundle_elements
bundle_loop-elements depth zero buf pos ms out h e f r d = absurd (omega arith)
bundle_loop-elements depth (suc rounds) buf pos [] out h e f r d =
    ground (arith, append-nil out, omega_end)
  where
    omega_end : length buf ≤ pos
    omega_end = omega (arith, length-drop pos buf, ap length e)
bundle_loop-elements depth (suc rounds) buf pos (m ∷ ms) out ((h, small), hs) e f r d =
    let (_, least) = build_size m h in
    let (size, body, room, later) =
      element_at buf pos (built m) (bundle_elements (map built ms)) e small (omega arith) in
    ground (
      arith,
      size,
      body,
      parse_packet-build depth m out h d,
      bundle_loop-elements depth rounds buf (pos + 4 + length (built m)) ms (out ++ (m ∷ [])) hs
          later (omega arith) (omega arith) d,
      append_assoc out (m ∷ []) ms,
    )

length-bundle_elements :
    (ms : List OscMessage) → All FitsBundle ms → length (bundle_elements (map built ms)) % 4 ≡ 0
unfolding bundle_elements
length-bundle_elements [] h = refl
length-bundle_elements (m ∷ ms) ((h, _), hs) = omega (
  arith,
  length-append (write_be32 (length (built m) % 2 ^ 32))
      (built m ++ bundle_elements (map built ms)),
  length-append (built m) (bundle_elements (map built ms)),
  length-write_be32 (length (built m) % 2 ^ 32),
  build_size m h,
  length-bundle_elements ms hs,
)

pub osc_parse_packet-build_bundle :
    (ms out : List OscMessage)
    → All FitsBundle ms
    → osc_parse_packet (build_bundle (map built ms)) out ≡ ok (out ++ ms)
unfolding osc_parse_packet parse_packet build_bundle starts_with
osc_parse_packet-build_bundle ms out h = ground (
  arith,
  length-bundle_elements ms h,
  bundle_loop-elements (length buf) (length buf) buf 16 ms out h refl (omega arith) (omega arith)
      (omega arith),
)
  where
    buf : Bytes
    buf = bundle_tag ++ (zeros 8 ++ bundle_elements (map built ms))

-- A receiver that parses each datagram in the order of arrival.
abbrev pub parse_all : List Bytes → List OscMessage → Run (List OscMessage)
parse_all [] out = ok out
parse_all (d ∷ ds) out = osc_parse_packet d out >>= parse_all ds

abbrev pub reply_all : Outbox → Endpoint → List OscMessage → Outbox
reply_all o to [] = o
reply_all o to (m ∷ ms) = reply_all (reply o to m.address m.args) to ms

reply_all-collects :
    (s : Server) (to : Endpoint) (done : List Bytes) (ms : List OscMessage)
    → reply_all
        (record { server = s; batch = record { to = to; active = true; messages = done } })
        to
        ms
      ≡ record {
        server = s;
        batch = record { to = to; active = true; messages = done ++ map built ms };
      }
unfolding reply
reply_all-collects s to done [] = rw append-nil
reply_all-collects s to done (m ∷ ms) = rw endpoint_same_refl (
    reply_all-collects s to (done ++ (built m ∷ [])) ms
    ∙ rw (append_assoc done (built m ∷ []) (map built ms)))

-- The datagrams of a finished batch parse, in order, to its replies.
pub batch_datagrams-parse :
    (ms out : List OscMessage)
    → All FitsBundle ms
    → parse_all (batch_datagrams (map built ms)) out ≡ ok (out ++ ms)
unfolding batch_datagrams
batch_datagrams-parse [] out h = ap ok (sym (append-nil out))
batch_datagrams-parse (m ∷ []) out ((h, _), _) = rw (osc_parse_packet-build m out h)
batch_datagrams-parse (m ∷ n ∷ ms) out h = rw (osc_parse_packet-build_bundle (m ∷ n ∷ ms) out h)

-- Replies to the endpoint of an open batch are held back with the server left alone, and the
-- datagrams that the end of the batch forms parse, in order, to exactly those replies.
pub batch_delivers :
    (o : Outbox) (to : Endpoint) (ms : List OscMessage)
    → All FitsBundle ms
    → ((reply_all (begin_batch o to) to ms).server ≡ o.server)
      × (parse_all (batch_datagrams (reply_all (begin_batch o to) to ms).batch.messages) [] ≡ ok ms)
unfolding begin_batch
batch_delivers o to ms h =
    rw (reply_all-collects o.server to [] ms) (refl, batch_datagrams-parse ms [] h)
