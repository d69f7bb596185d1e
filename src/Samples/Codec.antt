-- ===== src/Samples/Codec.antt =====
-- src/osc-message.{h,cpp} and the matcher of src/osc-util.cpp on concrete packets and texts.
use obs_osc.Base.{
  ◌≡◌, ◌↔◌, ◌⊎◌, refl, true, false, Bool, [], ◌∷◌, ◌++◌, Bytes, codes, arith, starts_with, All,
}
use obs_osc.Base.Run.{ok, Settles}
use obs_osc.Message.Types.{OscMessage, osc_int, osc_str, osc_blob}
use obs_osc.Message.Build.{osc_build_message}
use obs_osc.Message.Parse.{osc_parse_packet}
use obs_osc.Message.Padding.{int, str, blob}
use obs_osc.Message.Bundles.{Extends}
use obs_osc.Message.Safety.{IsRooted, osc_parse_packet-Extends}
use obs_osc.Message.Typed.{IsPacket}
use obs_osc.Message.Typing.{IsParsed, osc_parse_packet-IsParsed}
use obs_osc.Message.Rewriting.{Rewrites, osc_build_message-osc_parse_packet}
use obs_osc.Message.RoundTrip.{IsMessage, osc_parse_packet-build}
use obs_osc.Util.Glob.{osc_glob_match}
use obs_osc.Util.Matches.{Matches}
use obs_osc.Util.Correct.{osc_glob_match_star_text}
use obs_osc.Util.Meaning.{osc_glob_match_sound, osc_glob_match_iff}

abbrev order : OscMessage
order = record {
  address = codes "/order/a/b";
  args = osc_int 3 ∷ osc_str (codes "up") ∷ osc_blob (7 ∷ []) ∷ [];
}

order-IsMessage : IsMessage order
unfolding starts_with
order-IsMessage = record {
  rooted = refl;
  nul_free = ground arith;
  address_bound = omega arith;
  args_bound = omega arith;
  sendable = (
    int 3 (omega arith) refl,
    (str (codes "up") (ground arith) (omega arith) refl, (blob (7 ∷ []) (omega arith) refl, tt)),
  );
}

-- A bundle header with an element size beyond the buffer.
abbrev broken : Bytes
broken =
    codes "#bundle" ++ (0 ∷ 0 ∷ 0 ∷ 0 ∷ 0 ∷ 0 ∷ 0 ∷ 0 ∷ 1 ∷ 0 ∷ 0 ∷ 0 ∷ 64 ∷ 47 ∷ 0 ∷ 0 ∷ 0 ∷ [])

osc_parse_packet-Extends_example :
    Settles (Extends IsRooted (order ∷ [])) (osc_parse_packet broken (order ∷ []))
osc_parse_packet-Extends_example = osc_parse_packet-Extends broken (order ∷ [])

osc_parse_packet-build_example :
    osc_parse_packet (osc_build_message [] order.address order.args) (order ∷ [])
    ≡ ok ((order ∷ []) ++ (order ∷ []))
osc_parse_packet-build_example = osc_parse_packet-build order (order ∷ []) order-IsMessage

osc_glob_match_sound_example :
    ((osc_glob_match (codes "/mute/*") (codes "/mute/Mic") ≡ ok true)
      × Matches (codes "/mute/*") (codes "/mute/Mic"))
    ⊎ (osc_glob_match (codes "/mute/*") (codes "/mute/Mic") ≡ ok false)
osc_glob_match_sound_example = osc_glob_match_sound (codes "/mute/*") (codes "/mute/Mic")

osc_glob_match_iff_example :
    (b : Bool) × (osc_glob_match (codes "/v*e/?") (codes "/volume/x") ≡ ok b)
    × ((b ≡ true) ↔ Matches (codes "/v*e/?") (codes "/volume/x"))
osc_glob_match_iff_example = osc_glob_match_iff (codes "/v*e/?") (codes "/volume/x") (ground arith)

osc_glob_match_star_text_example :
    (osc_glob_match (b'*' ∷ []) (b'*' ∷ 65 ∷ codes "bc") ≡ ok false)
    × Matches (b'*' ∷ []) (b'*' ∷ 65 ∷ codes "bc")
osc_glob_match_star_text_example = osc_glob_match_star_text 65 (codes "bc")

-- A run of the matcher with two restarts.
matches_restarts : osc_glob_match (codes "/a*b*c") (codes "/axbybzc") ≡ ok true
unfolding osc_glob_match
matches_restarts = refl

-- The address /a and one integer.
abbrev five : Bytes
five = codes "/a" ++ (0 ∷ 0 ∷ codes ",i" ++ (0 ∷ 0 ∷ 0 ∷ 0 ∷ 0 ∷ 5 ∷ []))

abbrev five_read : OscMessage
five_read = record { address = codes "/a"; args = osc_int 5 ∷ [] }

five-IsPacket : IsPacket 12 five
five-IsPacket = (ground arith, omega arith)

osc_parse_packet-IsParsed_example :
    Settles (Extends (IsParsed 12) (order ∷ [])) (osc_parse_packet five (order ∷ []))
osc_parse_packet-IsParsed_example = osc_parse_packet-IsParsed 12 five (order ∷ []) five-IsPacket

osc_build_message-osc_parse_packet_example : All Rewrites (five_read ∷ [])
unfolding osc_parse_packet
osc_build_message-osc_parse_packet_example =
    osc_build_message-osc_parse_packet 12 five (five_read ∷ []) (omega arith) five-IsPacket refl
      ((refl, tt), tt)
