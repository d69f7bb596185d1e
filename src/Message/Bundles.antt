-- ===== src/Message/Bundles.antt =====
-- The nesting of bundles in src/osc-message.cpp, over any property of the messages read.
use obs_osc.Base.{
  ℕ, zero, suc, ◌+◌, ◌-◌, ◌≤◌, ◌<◌, List, [], ◌++◌, ◌≡◌, inl, inr, arith, leb, leb→le, Bool-cases,
  length, take, drop, length-drop, length-take, Bytes, All, All-append, append_assoc, append-nil,
  sym, ◌∙◌, ltb, ◌==◌, ◌||◌,
}
use obs_osc.Message.Types.{OscMessage}
use obs_osc.Base.Run.{
  Run, ok, reject, fault, out_of_fuel, ◌>>=◌, Settles, Settles-bind, Settles-weaken,
}
use obs_osc.Message.Read.{read_be32, slice}
use obs_osc.Message.Parse.{
  Parser, ignoring, bundle_loop, parse_message, parse_packet, osc_parse_packet,
}
use obs_osc.Message.Reads.{Anything, be32-Fine}

-- The messages added to `out`, of each of which `P` holds.
abbrev pub Extends : (OscMessage → Type 0) → List OscMessage → List OscMessage → Type 0
Extends P out out' = (ms : List OscMessage) × (out' ≡ out ++ ms) × All P ms

-- `IsBuffer` is what is known of a packet; it holds of a packet's elements too.
module _ (P : OscMessage → Type 0) (IsBuffer : Bytes → Type 0)
    (sliced : (buf : Bytes) (pos n : ℕ) → IsBuffer buf → IsBuffer (take n (drop pos buf)))
    (messages : (buf : Bytes) (out : List OscMessage)
      → IsBuffer buf
      → Settles (Extends P out) (parse_message buf out)) where
  slice-both :
      (buf : Bytes) (pos n : ℕ)
      → pos + n ≤ length buf
      → IsBuffer buf
      → Settles (λ inner. (length inner ≡ n) × IsBuffer inner) (slice buf pos n)
  unfolding slice
  slice-both buf pos n h good =
      ground (arith, length-take n (drop pos buf), length-drop pos buf, sliced buf pos n good)

  Extends-trans : (xs ys zs : List OscMessage) → Extends P xs ys → Extends P ys zs → Extends P xs zs
  Extends-trans xs ys zs (ms, e, h) (ns, e', h') =
      (ms ++ ns, e' ∙ rw e (append_assoc xs ms ns), All-append P ms ns h h')

  Extends-refl : (xs : List OscMessage) → Extends P xs xs
  Extends-refl xs = ([], sym (append-nil xs), tt)

  -- What is known of the nested call: it settles on every shorter buffer.
  abbrev SettlesBelow : ℕ → Parser → Type 0
  SettlesBelow n nested =
      (inner : Bytes) (out : List OscMessage)
      → length inner < n
      → IsBuffer inner
      → Settles (Extends P out) (nested inner out)

  ignoring-Extends :
      (out : List OscMessage) (r : Run (List OscMessage))
      → Settles (Extends P out) r
      → Settles (Extends P out) (ignoring out r)
  ignoring-Extends out (ok out') h = h
  ignoring-Extends out reject h = Extends-refl out
  ignoring-Extends out fault h = h
  ignoring-Extends out out_of_fuel h = h

  -- One element of a bundle, and then the rest of the loop, `later`.
  element-Extends :
      (nested : Parser) (buf : Bytes) (pos size : ℕ) (out : List OscMessage) (later : Parser)
      → SettlesBelow (length buf) nested
      → IsBuffer buf
      → pos + size ≤ length buf
      → size < length buf
      → ((out' : List OscMessage) → Settles (Extends P out') (later buf out'))
      → Settles
          (Extends P out)
          (do inner ← slice buf pos size; out' ← ignoring out (nested inner out); later buf out')
  element-Extends nested buf pos size out later below good room smaller rest =
      Settles-bind (λ inner. (length inner ≡ size) × IsBuffer inner) (Extends P out)
        (slice buf pos size) _ (slice-both buf pos size room good)
        λ inner (e, inner_good).
          Settles-bind (Extends P out) (Extends P out) (ignoring out (nested inner out)) _
            (ignoring-Extends out _ (below inner out (omega arith) inner_good))
            λ out' grown.
              Settles-weaken (Extends P out') (Extends P out) (later buf out')
                (λ ms. Extends-trans out out' ms grown) (rest out')

  bundle_loop-Extends :
      (nested : Parser) (rounds : ℕ) (buf : Bytes) (pos : ℕ) (out : List OscMessage)
      → SettlesBelow (length buf) nested
      → IsBuffer buf
      → 0 < rounds
      → length buf < rounds + pos
      → Settles (Extends P out) (bundle_loop nested rounds buf pos out)
  unfolding bundle_loop
  bundle_loop-Extends nested zero buf pos out below good r h = absurd (omega arith)
  bundle_loop-Extends nested (suc rounds) buf pos out below good r h =
      elim (Bool-cases (leb (pos + 4) (length buf))) [
        | inr done ↦ rw done (Extends-refl out)
        | inl more ↦
            let fits = leb→le _ _ more in
            rw more (
              Settles-bind Anything (Extends P out) (read_be32 buf pos) _ (be32-Fine buf pos more)
                λ size _. elim (Bool-cases (size == 0 || ltb (length buf - (pos + 4)) size)) [
                  | inl stop ↦ rw stop (Extends-refl out)
                  | inr go ↦
                      let room : pos + 4 + size ≤ length buf = ground arith in
                      let positive : 0 < size = ground arith in
                      rw go (
                        element-Extends nested buf (pos + 4) size out
                          (λ b. bundle_loop nested rounds b (pos + 4 + size)) below good room
                          (omega arith)
                          λ out'.
                            bundle_loop-Extends nested rounds buf (pos + 4 + size) out' below good
                              (omega arith) (omega arith))
                ])
      ]

  parse_packet-Extends :
      (depth : ℕ) (buf : Bytes) (out : List OscMessage)
      → length buf < depth
      → IsBuffer buf
      → Settles (Extends P out) (parse_packet depth buf out)
  unfolding parse_packet
  parse_packet-Extends zero buf out h good = absurd (omega arith)
  parse_packet-Extends (suc depth) buf out h good = ground (
    arith,
    bundle_loop-Extends (parse_packet depth) (length buf) buf 16 out
        (λ inner o k. parse_packet-Extends depth inner o (omega arith)) good,
    messages buf out good,
  )

  pub osc_parse_packet-Settles :
      (buf : Bytes) (out : List OscMessage)
      → IsBuffer buf
      → Settles (Extends P out) (osc_parse_packet buf out)
  unfolding osc_parse_packet
  osc_parse_packet-Settles buf out = parse_packet-Extends (suc (length buf)) buf out (omega arith)
