-- ===== src/Message/Typing.antt =====
-- What the arguments hold that the parser of src/osc-message.cpp makes.
use obs_osc.Base.{
  ℕ, ◌+◌, ◌-◌, ◌^◌, ◌≤◌, ◌<◌, true, List, [], ◌∷◌, ◌++◌, ◌≡◌, refl, arith, leb, leb→le, length,
  length-append, length-drop, length-take, drop, Bytes, NulFree, All, All-append, starts_with, ◌==◌,
  ◌||◌, if_both, if_known,
}
use obs_osc.Base.Run.{
  Run, ok, reject, fault, out_of_fuel, ◌>>=◌, guard, Settles, Settles-bind, Settles-guard,
  Settles-weaken, ◌>>◌,
}
use obs_osc.Message.Types.{OscArgument, OscMessage, blank, osc_blob}
use obs_osc.Message.Read.{read_be32, read_string, slice}
use obs_osc.Message.Parse.{read_argument, parse_arguments, parse_message, osc_parse_packet}
use obs_osc.Message.Bundles.{Extends, osc_parse_packet-Settles}
use obs_osc.Message.Typed.{
  IsPacket, IsTyped, sliced, be32-word, int, flt, str, blob, truth, falsity, skipped, IsText,
  read_string-IsText, Makes,
}

module _ (n : ℕ) (buf : Bytes) (packet : IsPacket n buf) (pos : ℕ) where
  -- Behind the check for four bytes.
  word_then :
      (f : ℕ → Run (OscArgument × ℕ))
      → ((v : ℕ) → v < 2 ^ 32 → Makes n (f v))
      → Makes n (do guard (leb (pos + 4) (length buf)); v ← read_be32 buf pos; f v)
  word_then f h =
      Settles-guard (λ out. IsTyped n out.0) (leb (pos + 4) (length buf)) _
        λ room.
          Settles-bind (λ v. v < 2 ^ 32) (λ out. IsTyped n out.0) (read_be32 buf pos) f
            (be32-word buf pos packet.0 room) h

  slice-short :
      (at v : ℕ) → at + v ≤ length buf → Settles (λ bytes. length bytes ≤ n) (slice buf at v)
  unfolding slice
  slice-short at v h = ground (arith, packet.1, length-take v (drop at buf), length-drop at buf)

  made_blob :
      leb (pos + 4) (length buf) ≡ true
      → (v next : ℕ)
      → Makes n (do
        guard (leb v (length buf - (pos + 4)))
        bytes ← slice buf (pos + 4) v
        ok (osc_blob bytes, next))
  made_blob room v next =
      Settles-guard (λ out. IsTyped n out.0) (leb v (length buf - (pos + 4))) _
        λ fits.
          Settles-bind (λ bytes. length bytes ≤ n) (λ out. IsTyped n out.0) (slice buf (pos + 4) v)
            _ (slice-short (pos + 4) v (omega (arith, leb→le _ _ room, leb→le _ _ fits)))
            λ bytes short. blob bytes short refl

  read_argument-IsTyped : (tag : ℕ) → Makes n (read_argument buf tag pos)
  unfolding read_argument
  read_argument-IsTyped tag =
      if_known (Makes n) (tag == b'i') _ _
        (λ e.
          let t : tag ≡ b'i' = ground (arith, e) in
          word_then _ (λ v small. int v small (rw t refl)))
        λ no_i.
          if_known (Makes n) (tag == b'f') _ _
            (λ e.
              let t : tag ≡ b'f' = ground (arith, e) in
              word_then _ (λ v small. flt v small (rw t refl)))
            λ no_f.
              if_known (Makes n) (tag == b's') _ _
                (λ e.
                  let t : tag ≡ b's' = ground (arith, e) in
                  Settles-bind (λ out. IsText (length buf) out.0) (λ out. IsTyped n out.0)
                    (read_string buf pos) _ (read_string-IsText buf pos)
                    λ (s, next) (free, short).
                      str s free (omega (arith, packet.1, short)) (rw t refl))
                λ no_s.
                  if_known (Makes n) (tag == b'b') _ _
                    (λ e.
                      let t : tag ≡ b'b' = ground (arith, e) in
                      Settles-guard (λ out. IsTyped n out.0) (leb (pos + 4) (length buf)) _
                        λ room.
                          Settles-bind (λ v. v < 2 ^ 32) (λ out. IsTyped n out.0)
                            (read_be32 buf pos) _ (be32-word buf pos packet.0 room)
                            λ v small. rw t (made_blob room v _))
                    λ no_b.
                      if_known (Makes n) (tag == b'T') _ _
                        (λ e. let t : tag ≡ b'T' = ground (arith, e) in truth (rw t refl))
                        λ no_t.
                          if_known (Makes n) (tag == b'F') _ _
                            (λ e. let t : tag ≡ b'F' = ground (arith, e) in falsity (rw t refl))
                            λ no_u.
                              let other : IsTyped n (record blank { type = tag }) =
                                skipped tag
                                  (
                                    ground (arith, no_i),
                                    (
                                      ground (arith, no_f),
                                      (
                                        ground (arith, no_s),
                                        (
                                          ground (arith, no_b),
                                          (ground (arith, no_t), (ground (arith, no_u), tt)),
                                        ),
                                      ),
                                    ),
                                  )
                                  refl in
                              if_both (Makes n) (tag == b'd' || tag == b'h' || tag == b't') _ _
                                (Settles-guard (λ out. IsTyped n out.0) (leb (pos + 8) (length buf))
                                  _ λ room. other)
                                (if_both (Makes n) (tag == b'm' || tag == b'r' || tag == b'c') _ _
                                  (Settles-guard (λ out. IsTyped n out.0)
                                    (leb (pos + 4) (length buf)) _ λ room. other)
                                  tt)

-- As many arguments as tags, each of them typed.
parse_arguments-IsTyped :
    (n : ℕ) (buf : Bytes)
    → IsPacket n buf
    → (tags : Bytes) (pos : ℕ) (args : List OscArgument) → All (IsTyped n) args
    → Settles
        (λ out. All (IsTyped n) out × (length out ≡ length args + length tags))
        (parse_arguments buf tags pos args)
unfolding parse_arguments
parse_arguments-IsTyped n buf packet [] pos args h = (h, omega arith)
parse_arguments-IsTyped n buf packet (tag ∷ tags) pos args h =
    Settles-bind (λ out. IsTyped n out.0)
      (λ out. All (IsTyped n) out × (length out ≡ length args + length (tag ∷ tags)))
      (read_argument buf tag pos) _ (read_argument-IsTyped n buf packet pos tag)
      λ (arg, next) typed.
        Settles-weaken _ _ (parse_arguments buf tags next (args ++ (arg ∷ [])))
          (λ out (all, count). (all, omega (arith, count, length-append args (arg ∷ []))))
          (parse_arguments-IsTyped n buf packet tags next (args ++ (arg ∷ []))
            (All-append (IsTyped n) args (arg ∷ []) h (typed, tt)))

-- A message as the parser makes it of at most `n` bytes.
pub record IsParsed (n : ℕ) (m : OscMessage) : Type 0 where
  pub rooted : starts_with (b'/' ∷ []) m.address ≡ true
  pub nul_free : NulFree m.address
  pub address_bound : length m.address < n
  pub args_bound : length m.args < n
  pub typed : All (IsTyped n) m.args

finish_message :
    (n : ℕ) (out : List OscMessage) (address : Bytes) (count : ℕ)
    → starts_with (b'/' ∷ []) address ≡ true
    → IsText n address
    → count < n
    → (r : Run (List OscArgument))
    → Settles (λ args. All (IsTyped n) args × (length args ≡ count)) r
    → Settles
        (Extends (IsParsed n) out)
        (do args ← r; ok (out ++ (record { address = address; args = args } ∷ [])))
finish_message n out address count rooted (free, short) few (ok args) (typed, e) = (
  record { address = address; args = args } ∷ [],
  refl,
  (
    record {
      rooted = rooted;
      nul_free = free;
      address_bound = short;
      args_bound = omega (arith, e, few);
      typed = typed;
    },
    tt,
  ),
)
finish_message n out address count rooted text few reject h = tt
finish_message n out address count rooted text few fault h = h
finish_message n out address count rooted text few out_of_fuel h = h

parse_message-IsParsed :
    (n : ℕ) (buf : Bytes) (out : List OscMessage)
    → IsPacket n buf
    → Settles (Extends (IsParsed n) out) (parse_message buf out)
unfolding parse_message
parse_message-IsParsed n buf out packet =
    let Q = Extends (IsParsed n) out in
    Settles-bind (λ o. IsText (length buf) o.0) Q (read_string buf 0) _ (read_string-IsText buf 0)
      λ (address, pos) (free, short). Settles-guard Q _ _ λ rooted.
        Settles-bind (λ o. IsText (length buf) o.0) Q (read_string buf pos) _
          (read_string-IsText buf pos)
          λ (tags, start) (_, few). Settles-guard Q _ _ λ _.
            finish_message n out address (0 + length (drop 1 tags)) rooted
              (free, omega (arith, packet.1, short))
              (omega (arith, packet.1, few, length-drop 1 tags))
              (parse_arguments buf (drop 1 tags) start [])
              (parse_arguments-IsTyped n buf packet (drop 1 tags) start [] tt)

-- Every message that is read from a packet of at most `n` bytes has a rooted address with no NUL in
-- it, and arguments that hold a value of their tag's type and nothing else: words of 32 bits, texts
-- with no NUL, and texts and blobs no longer than the packet.
pub osc_parse_packet-IsParsed :
    (n : ℕ) (buf : Bytes) (out : List OscMessage)
    → IsPacket n buf
    → Settles (Extends (IsParsed n) out) (osc_parse_packet buf out)
osc_parse_packet-IsParsed n buf out =
    osc_parse_packet-Settles (IsParsed n) (IsPacket n) (sliced n) (parse_message-IsParsed n) buf out
