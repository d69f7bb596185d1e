-- ===== src/Message/Arguments.antt =====
-- Reading back one argument, and a list of arguments, in the middle of a buffer.
use obs_osc.Base.{
  ℕ, ◌+◌, ◌-◌, ◌%◌, ◌^◌, ◌≤◌, ◌<◌, List, [], ◌∷◌, ◌++◌, map, some, ◌≡◌, refl, sym, ap, subst, ◌∙◌,
  arith, length, length-append, length-drop, take, drop, drop-drop, drop-length, take-length,
  append-nil, append_assoc, Bytes, NulFree, c_str-NulFree, All,
}
use obs_osc.Message.Types.{OscArgument, osc_int, osc_flt, osc_str, osc_blob}
use obs_osc.Base.Run.{ok}
use obs_osc.Message.Read.{
  mask4, read_be32, write_be32, until_nul, read_string, slice, write_padded_string,
}
use obs_osc.Message.Parse.{read_argument, parse_arguments}
use obs_osc.Message.Build.{zeros, tag_of, write_blob, write_argument, write_arguments}
use obs_osc.Message.Padding.{
  IsSendable, int, flt, str, blob, length-write_padded_string, length-write_be32, length-write_blob,
}

-- At `pos` the buffer holds `xs` and then `ys`.
abbrev pub At : Bytes → ℕ → Bytes → Bytes → Type 0
At buf pos xs ys = drop pos buf ≡ xs ++ ys

pub At-past :
    (buf : Bytes) (pos : ℕ) (xs ys : Bytes) → At buf pos xs ys → drop (pos + length xs) buf ≡ ys
At-past buf pos xs ys e =
    sym (drop-drop pos (length xs) (pos + length xs) buf refl)
    ∙ ap (drop (length xs)) e
    ∙ drop-length xs ys

pub At-fits :
    (buf : Bytes) (pos : ℕ) (xs ys : Bytes)
    → At buf pos xs ys
    → 0 < length xs
    → pos + length xs ≤ length buf
At-fits buf pos xs ys e h = omega (arith, length-drop pos buf, ap length e, length-append xs ys)

pub read_be32-write_be32 :
    (buf : Bytes) (pos v : ℕ) (rest : Bytes)
    → At buf pos (write_be32 v) rest
    → v < 2 ^ 32
    → read_be32 buf pos ≡ ok v
unfolding read_be32 write_be32
read_be32-write_be32 buf pos v rest e h = rw e (ap ok (omega arith))

until_nul-append : (s rest : Bytes) → NulFree s → until_nul (s ++ (0 ∷ rest)) ≡ some s
unfolding until_nul
until_nul-append [] rest h = refl
until_nul-append (c ∷ s) rest h = ground (arith, until_nul-append s rest h.1, h.0)

pub read_string-write :
    (buf : Bytes) (pos : ℕ) (s rest : Bytes)
    → At buf pos (write_padded_string s) rest
    → NulFree s
    → length s + 4 < 2 ^ 32
    → read_string buf pos ≡ ok (s, pos + length (write_padded_string s))
unfolding read_string
read_string-write buf pos s rest e n h =
    ground
      (arith, At-fits buf pos (write_padded_string s) rest e (omega (arith, size)), size, found)
  where
    size : length (write_padded_string s) ≡ mask4 (length s + 4)
    size = rw (length-write_padded_string s, c_str-NulFree s n) (omega arith)

    found : until_nul (drop pos buf) ≡ some s
    found = rw e (
        unfold write_padded_string in rw (c_str-NulFree s n, append_assoc) (until_nul-append s _ n))

module _ (buf : Bytes) (pos : ℕ) (rest : Bytes) where
  -- What reading the argument at `pos` must give.
  abbrev ReadsBack : OscArgument → Type 0
  ReadsBack a = read_argument buf (tag_of a) pos ≡ ok (a, pos + length (write_argument a))

  abbrev Claim : OscArgument → Type 0
  Claim a = At buf pos (write_argument a) rest → ReadsBack a

  read_int :
      (v : ℕ) → v < 2 ^ 32 → At buf pos (write_argument (osc_int v)) rest → ReadsBack (osc_int v)
  unfolding read_argument tag_of write_argument
  read_int v h e = ground (
    arith,
    read_be32-write_be32 buf pos v rest e h,
    At-fits buf pos (write_be32 v) rest e (omega (arith, length-write_be32 v)),
    length-write_be32 v,
  )

  read_flt :
      (v : ℕ) → v < 2 ^ 32 → At buf pos (write_argument (osc_flt v)) rest → ReadsBack (osc_flt v)
  unfolding read_argument tag_of write_argument
  read_flt v h e = ground (
    arith,
    read_be32-write_be32 buf pos v rest e h,
    At-fits buf pos (write_be32 v) rest e (omega (arith, length-write_be32 v)),
    length-write_be32 v,
  )

  read_str :
      (s : Bytes)
      → NulFree s
      → length s + 4 < 2 ^ 32
      → At buf pos (write_argument (osc_str s)) rest
      → ReadsBack (osc_str s)
  unfolding read_argument tag_of write_argument
  read_str s n h e = ground (arith, read_string-write buf pos s rest e n h)

  -- The bytes of a blob, behind its size.
  blob_bytes :
      (b : Bytes)
      → length b + 4 < 2 ^ 32
      → At buf pos (write_blob b) rest
      → (read_be32 buf pos ≡ ok (length b)) × (slice buf (pos + 4) (length b) ≡ ok b)
  unfolding write_blob slice
  blob_bytes b h e = (
    rw (read_be32-write_be32 buf pos (length b % 2 ^ 32) _ front (omega arith))
        (ap ok (omega arith)),
    ground (arith, room, taken),
  )
    where
      tail : Bytes
      tail = zeros ((4 - length b % 2 ^ 32 % 4) % 4) ++ rest

      front : At buf pos (write_be32 (length b % 2 ^ 32)) (b ++ tail)
      front =
          e
          ∙ append_assoc (write_be32 (length b % 2 ^ 32)) _ rest
          ∙ ap (◌++◌ (write_be32 (length b % 2 ^ 32))) (append_assoc b _ rest)

      body : drop (pos + 4) buf ≡ b ++ tail
      body =
          rw (length-write_be32 (length b % 2 ^ 32)) at
            (At-past buf pos (write_be32 (length b % 2 ^ 32)) (b ++ tail) front)

      room : pos + 4 + length b ≤ length buf
      room = omega (
        arith,
        At-fits buf pos (write_blob b) rest e (omega (arith, length-write_blob b h)),
        length-write_blob b h,
      )

      taken : take (length b) (drop (pos + 4) buf) ≡ b
      taken = rw body (take-length b tail)

  read_blob :
      (b : Bytes)
      → length b + 4 < 2 ^ 32
      → At buf pos (write_argument (osc_blob b)) rest
      → ReadsBack (osc_blob b)
  unfolding read_argument tag_of write_argument
  read_blob b h e = ground (
    arith,
    blob_bytes b h e,
    length-write_blob b h,
    At-fits buf pos (write_blob b) rest e (omega (arith, length-write_blob b h)),
  )

  read_argument-write_argument :
      (a : OscArgument) → IsSendable a → At buf pos (write_argument a) rest → ReadsBack a
  read_argument-write_argument a (int v h e) = subst Claim (sym e) (read_int v h)
  read_argument-write_argument a (flt v h e) = subst Claim (sym e) (read_flt v h)
  read_argument-write_argument a (str s n h e) = subst Claim (sym e) (read_str s n h)
  read_argument-write_argument a (blob b h e) = subst Claim (sym e) (read_blob b h)

pub parse_arguments-write_arguments :
    (buf : Bytes) (pos : ℕ) (args acc : List OscArgument) (rest : Bytes)
    → All IsSendable args
    → At buf pos (write_arguments args) rest
    → parse_arguments buf (map tag_of args) pos acc ≡ ok (acc ++ args)
unfolding parse_arguments write_arguments
parse_arguments-write_arguments buf pos [] acc rest h e = ap ok (sym (append-nil acc))
parse_arguments-write_arguments buf pos (a ∷ args) acc rest (h, hs) e =
    rw (read_argument-write_argument buf pos (write_arguments args ++ rest) a h here) (
      parse_arguments-write_arguments buf (pos + length (write_argument a)) args (acc ++ (a ∷ []))
        rest hs (At-past buf pos (write_argument a) (write_arguments args ++ rest) here)
      ∙ ap ok (append_assoc acc (a ∷ []) args))
  where
    here : At buf pos (write_argument a) (write_arguments args ++ rest)
    here = e ∙ append_assoc (write_argument a) (write_arguments args) rest
