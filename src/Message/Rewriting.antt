-- ===== src/Message/Rewriting.antt =====
-- Messages that the parser of src/osc-message.cpp read, written again by `osc_build_message`.
use obs_osc.Base.{
  ℕ, ◌+◌, ◌^◌, ◌<◌, Bool, true, ◌||◌, List, [], ◌∷◌, ◌≡◌, sym, ap, subst, arith, All, Bytes, ◌==◌,
}
use obs_osc.Base.Run.{ok, Settles}
use obs_osc.Message.Types.{OscArgument, OscMessage}
use obs_osc.Message.Parse.{osc_parse_packet}
use obs_osc.Message.Build.{osc_build_message}
use obs_osc.Message.Padding.{IsSendable}
use obs_osc.Message.RoundTrip.{IsMessage, osc_parse_packet-build}
use obs_osc.Message.Bundles.{Extends}
use obs_osc.Message.Typed.{IsTyped, int, flt, str, blob, truth, falsity, skipped, IsPacket}
use obs_osc.Message.Typing.{IsParsed, osc_parse_packet-IsParsed}

-- The tags whose values `osc_build_message` writes.
abbrev pub is_written : ℕ → Bool
is_written tag = tag == b'i' || tag == b'f' || tag == b's' || tag == b'b'

abbrev pub IsPlain : OscMessage → Type 0
IsPlain m = All (λ a. is_written a.type ≡ true) m.args

IsTyped→IsSendable :
    (n : ℕ) (a : OscArgument)
    → n + 5 < 2 ^ 32
    → is_written a.type ≡ true
    → IsTyped n a
    → IsSendable a
IsTyped→IsSendable n a room w (int v h e) = IsSendable.int v h e
IsTyped→IsSendable n a room w (flt v h e) = IsSendable.flt v h e
IsTyped→IsSendable n a room w (str s free h e) = IsSendable.str s free (omega (arith, h, room)) e
IsTyped→IsSendable n a room w (blob b h e) = IsSendable.blob b (omega (arith, h, room)) e
IsTyped→IsSendable n a room w (truth e) = absurd (ground (arith, w, ap (λ x. x.type) e))
IsTyped→IsSendable n a room w (falsity e) = absurd (ground (arith, w, ap (λ x. x.type) e))
IsTyped→IsSendable n a room w (skipped tag (i, (f, (s, (b, _)))) e) =
    absurd (ground (arith, w, ap (λ x. x.type) e, i, f, s, b))

all-IsSendable :
    (n : ℕ) (args : List OscArgument)
    → n + 5 < 2 ^ 32
    → All (λ a. is_written a.type ≡ true) args
    → All (IsTyped n) args
    → All IsSendable args
all-IsSendable n [] room w h = tt
all-IsSendable n (a ∷ args) room (w, ws) (h, hs) =
    (IsTyped→IsSendable n a room w h, all-IsSendable n args room ws hs)

IsParsed→IsMessage :
    (n : ℕ) (m : OscMessage) → n + 5 < 2 ^ 32 → IsPlain m → IsParsed n m → IsMessage m
IsParsed→IsMessage n m room plain h = record {
  rooted = h.rooted;
  nul_free = h.nul_free;
  address_bound = omega (arith, h.address_bound, room);
  args_bound = omega (arith, h.args_bound, room);
  sendable = all-IsSendable n m.args room plain h.typed;
}

-- What a message is read as when it is written again.
abbrev pub Rewrites : OscMessage → Type 0
Rewrites m = osc_parse_packet (osc_build_message [] m.address m.args) [] ≡ ok (m ∷ [])

all_rewrite :
    (n : ℕ) (ms : List OscMessage)
    → n + 5 < 2 ^ 32
    → All IsPlain ms
    → All (IsParsed n) ms
    → All Rewrites ms
all_rewrite n [] room plain h = tt
all_rewrite n (m ∷ ms) room (plain, plains) (h, hs) = (
  osc_parse_packet-build m [] (IsParsed→IsMessage n m room plain h),
  all_rewrite n ms room plains hs,
)

-- Whatever packet its messages came from, however it padded or nested them: each message with
-- arguments of the four written types that is read from a packet of fewer than 2^32 - 5 bytes is, when
-- it is built again, read back as it was.
pub osc_build_message-osc_parse_packet :
    (n : ℕ) (buf : Bytes) (ms : List OscMessage)
    → n + 5 < 2 ^ 32
    → IsPacket n buf
    → osc_parse_packet buf [] ≡ ok ms
    → All IsPlain ms
    → All Rewrites ms
osc_build_message-osc_parse_packet n buf ms room packet e plain =
    let (added, same, parsed) =
      subst (Settles (Extends (IsParsed n) [])) e (osc_parse_packet-IsParsed n buf [] packet) in
    all_rewrite n ms room plain (subst (All (IsParsed n)) (sym same) parsed)
