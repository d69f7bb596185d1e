-- ===== src/Message/RoundTrip.antt =====
-- `osc_build_message` against `osc_parse_packet`.
use obs_osc.Base.{
  ℕ, zero, suc, ◌+◌, ◌%◌, ◌^◌, ◌≤◌, ◌<◌, true, false, List, [], ◌∷◌, ◌++◌, map, ◌≡◌, refl, sym, ap,
  ◌∙◌, arith, length, length-append, append-nil, Bytes, ◌≢◌, NulFree, c_str, All, starts_with,
}
use obs_osc.Message.Types.{OscArgument, OscMessage}
use obs_osc.Base.Run.{ok}
use obs_osc.Message.Read.{write_padded_string}
use obs_osc.Message.Parse.{parse_message, parse_packet, osc_parse_packet, bundle_tag}
use obs_osc.Message.Build.{tag_of, write_argument, write_arguments, osc_build_message}
use obs_osc.Message.Padding.{IsSendable, length-write_padded_string, length-write_argument}
use obs_osc.Message.Arguments.{At, At-past, read_string-write, parse_arguments-write_arguments}

-- A message that the program may send: a rooted address with no NUL, arguments from the four
-- factories, and lengths that fit the 32-bit padding arithmetic.
pub record IsMessage (m : OscMessage) : Type 0 where
  pub rooted : starts_with (b'/' ∷ []) m.address ≡ true
  pub nul_free : NulFree m.address
  pub address_bound : length m.address + 4 < 2 ^ 32
  pub args_bound : length m.args + 5 < 2 ^ 32
  pub sendable : All IsSendable m.args

tag_of-ne-zero : (a : OscArgument) → tag_of a ≢ 0
unfolding tag_of
tag_of-ne-zero a = ground arith

tags-NulFree : (args : List OscArgument) → NulFree (map tag_of args)
tags-NulFree [] = tt
tags-NulFree (a ∷ args) = (tag_of-ne-zero a, tags-NulFree args)

length-map_tags : (args : List OscArgument) → length (map tag_of args) ≡ length args
length-map_tags [] = refl
length-map_tags (a ∷ args) = ap suc (length-map_tags args)

parse_message-build :
    (m : OscMessage) (out : List OscMessage)
    → IsMessage m
    → parse_message (osc_build_message [] m.address m.args) out ≡ ok (out ++ (m ∷ []))
unfolding parse_message osc_build_message starts_with
parse_message-build m out h =
    rw
      (
        read_string-write whole 0 m.address later refl h.nul_free h.address_bound,
        h.rooted,
        read_string-write whole second tags (write_arguments m.args) there tags_free
            (omega (arith, length-map_tags m.args)),
        starts_with,
        parse_arguments-write_arguments whole third m.args [] [] h.sendable last,
      )
      refl
  where
    tags : Bytes
    tags = b',' ∷ map tag_of m.args

    tags_free : NulFree tags
    tags_free = (omega arith, tags-NulFree m.args)

    later : Bytes
    later = write_padded_string tags ++ write_arguments m.args

    whole : Bytes
    whole = write_padded_string m.address ++ later

    second : ℕ
    second = 0 + length (write_padded_string m.address)

    there : At whole second (write_padded_string tags) (write_arguments m.args)
    there = At-past whole 0 (write_padded_string m.address) later refl

    third : ℕ
    third = second + length (write_padded_string tags)

    last : At whole third (write_arguments m.args) []
    last =
        At-past whole second (write_padded_string tags) (write_arguments m.args) there
        ∙ sym (append-nil (write_arguments m.args))

pub length-write_arguments :
    (args : List OscArgument) → All IsSendable args → length (write_arguments args) % 4 ≡ 0
unfolding write_arguments
length-write_arguments [] h = refl
length-write_arguments (a ∷ args) (h, hs) = omega (
  arith,
  length-append (write_argument a) (write_arguments args),
  length-write_argument a h,
  length-write_arguments args hs,
)

-- A built message is a multiple of four bytes, and at least eight.
pub build_size :
    (m : OscMessage)
    → IsMessage m
    → (length (osc_build_message [] m.address m.args) % 4 ≡ 0)
      × (8 ≤ length (osc_build_message [] m.address m.args))
unfolding osc_build_message
build_size m h = omega (
  arith,
  length-append (write_padded_string m.address)
      (write_padded_string (b',' ∷ map tag_of m.args) ++ write_arguments m.args),
  length-append (write_padded_string (b',' ∷ map tag_of m.args)) (write_arguments m.args),
  length-write_padded_string m.address,
  length-write_padded_string (b',' ∷ map tag_of m.args),
  length-write_arguments m.args h.sendable,
)

-- A built message does not begin like a bundle.
build_not_bundle :
    (m : OscMessage)
    → IsMessage m
    → starts_with bundle_tag (osc_build_message [] m.address m.args) ≡ false
unfolding osc_build_message write_padded_string c_str starts_with
build_not_bundle m h = go m.address h.rooted
  where
    go :
        (address : Bytes)
        → starts_with (b'/' ∷ []) address ≡ true
        → starts_with bundle_tag (osc_build_message [] address m.args) ≡ false
    go [] k = cc
    go (c ∷ s) k = ground arith

pub parse_packet-build :
    (depth : ℕ) (m : OscMessage) (out : List OscMessage)
    → IsMessage m
    → 0 < depth
    → parse_packet depth (osc_build_message [] m.address m.args) out ≡ ok (out ++ (m ∷ []))
unfolding parse_packet
parse_packet-build zero m out h d = absurd (omega arith)
parse_packet-build (suc depth) m out h d =
    ground (arith, build_size m h, build_not_bundle m h, parse_message-build m out h)

-- A message built from what the factories make is read back as it was, behind what is there already.
pub osc_parse_packet-build :
    (m : OscMessage) (out : List OscMessage)
    → IsMessage m
    → osc_parse_packet (osc_build_message [] m.address m.args) out ≡ ok (out ++ (m ∷ []))
unfolding osc_parse_packet
osc_parse_packet-build m out h =
    parse_packet-build (suc (length (osc_build_message [] m.address m.args))) m out h (omega arith)
