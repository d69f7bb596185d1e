-- ===== src/Message/Safety.antt =====
-- The parser of src/osc-message.cpp on every input: where it reads, and that it stops.
use obs_osc.Base.{ℕ, true, List, [], ◌∷◌, ◌++◌, ◌≡◌, refl, drop, Bytes, starts_with}
use obs_osc.Message.Types.{OscArgument, OscMessage}
use obs_osc.Base.Run.{
  Run, ok, reject, fault, out_of_fuel, ◌>>=◌, Settles, Settles-bind, Settles-guard,
}
use obs_osc.Message.Read.{read_string}
use obs_osc.Message.Parse.{read_argument, parse_arguments, parse_message, osc_parse_packet}
use obs_osc.Message.Reads.{Fine, Anything, read_string-Fine, read_argument-Fine}
use obs_osc.Message.Bundles.{Extends, osc_parse_packet-Settles}

parse_arguments-Fine :
    (buf tags : Bytes) (pos : ℕ) (args : List OscArgument)
    → Fine (parse_arguments buf tags pos args)
unfolding parse_arguments
parse_arguments-Fine buf [] pos args = tt
parse_arguments-Fine buf (tag ∷ tags) pos args =
    Settles-bind _ _ (read_argument buf tag pos) _ (read_argument-Fine buf tag pos)
      λ (a, next) _. parse_arguments-Fine buf tags next (args ++ (a ∷ []))

abbrev pub IsRooted : OscMessage → Type 0
IsRooted m = starts_with (b'/' ∷ []) m.address ≡ true

finish_message :
    (out : List OscMessage) (address : Bytes)
    → starts_with (b'/' ∷ []) address ≡ true
    → (r : Run (List OscArgument)) → Fine r
    → Settles
        (Extends IsRooted out)
        (do args ← r; ok (out ++ (record { address = address; args = args } ∷ [])))
finish_message out address rooted (ok args) h =
    (record { address = address; args = args } ∷ [], refl, (rooted, tt))
finish_message out address rooted reject h = tt
finish_message out address rooted fault h = h
finish_message out address rooted out_of_fuel h = h

parse_message-Extends :
    (buf : Bytes) (out : List OscMessage) → Settles (Extends IsRooted out) (parse_message buf out)
unfolding parse_message
parse_message-Extends buf out =
    Settles-bind Anything (Extends IsRooted out) (read_string buf 0) _ (read_string-Fine buf 0)
      λ (address, pos) _. Settles-guard (Extends IsRooted out) _ _ λ rooted.
        Settles-bind Anything (Extends IsRooted out) (read_string buf pos) _
          (read_string-Fine buf pos)
          λ (tags, start) _. Settles-guard (Extends IsRooted out) _ _ λ _.
            finish_message out address rooted (parse_arguments buf (drop 1 tags) start [])
              (parse_arguments-Fine buf (drop 1 tags) start [])

-- On every packet the parser stops within its fuel, never reads outside the buffer, and either
-- returns false or appends messages whose addresses begin with '/', keeping those before them.
pub osc_parse_packet-Extends :
    (buf : Bytes) (out : List OscMessage)
    → Settles (Extends IsRooted out) (osc_parse_packet buf out)
osc_parse_packet-Extends buf out =
    osc_parse_packet-Settles IsRooted (λ _. Unit {0}) (λ b pos n h. tt)
      (λ b o h. parse_message-Extends b o) buf out tt
