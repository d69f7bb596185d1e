-- ===== src/Addresses/Routes.antt =====
-- The routing helpers and address builders. `nullptr` is `none`; a pointer into an address is the
-- text from there on.
use obs_osc.Base.{
  Bool, ◌||◌, not, [], ◌∷◌, ◌++◌, Option, none, some, ◌==◌, leb, if◌then◌else◌, length, drop, Bytes,
  codes, starts_with,
}
use obs_osc.Addresses.Names.{
  mute_prefix, volume_prefix, media_prefix, media_state_node, visible_prefix, locked_prefix,
  order_prefix, filter_prefix, transform_prefix,
}

unfoldable pub has_prefix : Bytes → Bytes → Bool
has_prefix address prefix = starts_with prefix address

-- What is behind the base: nothing, or '/' and the sub-path.
unfoldable pub sub_path : Bytes → Option Bytes
sub_path [] = some []
sub_path (c ∷ rest) = if c == b'/' then some rest else none

unfoldable pub sub_action : Bytes → Bytes → Option Bytes
unfolding sub_path
sub_action address base =
    if not (starts_with base address) then none else sub_path (drop (length base) address)

unfoldable pub tail : Bytes → Bytes → Option Bytes
tail address prefix =
    if leb (length address) (length prefix) || not (starts_with prefix address)
    then none
    else some (drop (length prefix) address)

-- `strrchr(address, '/')` and what follows it.
unfoldable pub last_segment : Bytes → Option Bytes
last_segment [] = none
last_segment (c ∷ s) = elim (last_segment s) [
  | some t ↦ some t
  | none ↦ if c == b'/' then some s else none
]

unfoldable pub leaf : Bytes → Bytes
unfolding last_segment
leaf address = elim (last_segment address) [ none ↦ address | some t ↦ t ]

-- `strchr(s, '/')`: the text before the first '/', and the text behind it.
unfoldable pub split_slash : Bytes → Option (Bytes × Bytes)
split_slash [] = none
split_slash (c ∷ s) =
    let rest : Option (Bytes × Bytes) = elim (split_slash s) [
      | none ↦ none
      | some (a, b) ↦ some (c ∷ a, b)
    ] in
    if c == b'/' then some ([], s) else rest

-- `split_two_segments` of src/osc-controls.cpp.
unfoldable pub split_two_segments : Bytes → Option (Bytes × Bytes)
unfolding split_slash
split_two_segments rest = elim (split_slash rest) [
  | none ↦ none
  | some ([], _) ↦ none
  | some (_, []) ↦ none
  | some (c ∷ first, d ∷ second) ↦ some (c ∷ first, d ∷ second)
]

abbrev pub prefixed : Bytes → Bytes → Bytes
prefixed prefix name = prefix ++ name

abbrev pub mute_for : Bytes → Bytes
mute_for = prefixed mute_prefix

abbrev pub volume_for : Bytes → Bytes
volume_for = prefixed volume_prefix

abbrev pub media_state_for : Bytes → Bytes
media_state_for source_name = prefixed media_prefix source_name ++ (codes "/" ++ media_state_node)

abbrev pub joined_for : Bytes → Bytes → Bytes → Bytes
joined_for prefix parent child = prefixed prefix parent ++ (codes "/" ++ child)

abbrev pub joined3_for : Bytes → Bytes → Bytes → Bytes → Bytes
joined3_for prefix a b c = prefixed prefix a ++ (codes "/" ++ (b ++ (codes "/" ++ c)))

abbrev pub visible_for : Bytes → Bytes → Bytes
visible_for = joined_for visible_prefix

abbrev pub locked_for : Bytes → Bytes → Bytes
locked_for = joined_for locked_prefix

abbrev pub order_for : Bytes → Bytes → Bytes
order_for = joined_for order_prefix

abbrev pub filter_for : Bytes → Bytes → Bytes
filter_for = joined_for filter_prefix

abbrev pub transform_for : Bytes → Bytes → Bytes → Bytes
transform_for = joined3_for transform_prefix
