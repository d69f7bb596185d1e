-- ===== src/Message/Build.antt =====
-- `osc_build_message`. `reserve` is left out, since it changes no content.
use obs_osc.Base.{ℕ, ◌-◌, ◌%◌, ◌^◌, List, [], ◌∷◌, ◌++◌, map, ◌==◌, if◌then◌else◌, length, Bytes}
use obs_osc.Message.Types.{OscArgument}
use obs_osc.Message.Read.{write_be32, write_padded_string}

-- `a.type ? a.type : 's'`
unfoldable pub tag_of : OscArgument → ℕ
tag_of a = if a.type == 0 then b's' else a.type

-- `for (pad = …; pad; pad--) push_back(0)`
abbrev pub zeros : ℕ → Bytes
zeros ℕ.zero = []
zeros (ℕ.suc n) = 0 ∷ zeros n

unfoldable pub write_blob : Bytes → Bytes
write_blob bytes =
    let blob = length bytes % 2 ^ 32 in write_be32 blob ++ (bytes ++ zeros ((4 - blob % 4) % 4))

-- The `switch` of the second loop: what one argument appends.
unfoldable pub write_argument : OscArgument → Bytes
write_argument a =
    if a.type == b'i'
    then write_be32 a.i
    else if a.type == b'f'
    then write_be32 a.f
    else if a.type == b'b'
    then write_blob a.b
    else write_padded_string a.s

unfoldable pub write_arguments : List OscArgument → Bytes
write_arguments [] = []
write_arguments (a ∷ args) = write_argument a ++ write_arguments args

unfoldable pub osc_build_message : Bytes → Bytes → List OscArgument → Bytes
unfolding write_arguments write_argument write_blob tag_of write_padded_string write_be32
osc_build_message buf address args =
    buf
    ++ (write_padded_string address
        ++ (write_padded_string (b',' ∷ map tag_of args) ++ write_arguments args))
