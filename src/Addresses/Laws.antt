-- ===== src/Addresses/Laws.antt =====
-- The routing helpers against the address builders.
use obs_osc.Base.{
  ◌<◌, true, false, [], ◌∷◌, ◌++◌, none, some, ◌≡◌, ◌≢◌, ◌↔◌, refl, ◌∙◌, arith, ◌==◌, leb,
  if◌then◌else◌, length, length-append, drop-length, Bytes, All, starts_with, starts_with_append,
  starts_with→append, Bool-cases, Option-cases, inl, inr, ◌⊎◌, append_assoc, append-nil,
}
use obs_osc.Addresses.Routes.{
  sub_action, tail, last_segment, leaf, split_slash, split_two_segments, joined_for,
}

-- No byte is a slash: a name that can be addressed as a parent.
abbrev pub SlashFree : Bytes → Type 0
SlashFree = All (λ c. c ≢ b'/')

-- The text behind a prefix is found exactly where it is not empty.
pub tail-append :
    (prefix name : Bytes)
    → tail (prefix ++ name) prefix ≡ (if leb (length name) 0 then none else some name)
unfolding tail
tail-append prefix name =
    ground
      (arith, starts_with_append prefix name, length-append prefix name, drop-length prefix name)

-- `tail` answers a name exactly when the address is the prefix followed by that name, not empty.
pub tail_iff :
    (address prefix name : Bytes)
    → (tail address prefix ≡ some name) ↔ ((address ≡ prefix ++ name) × (0 < length name))
unfolding tail
tail_iff address prefix name = (forth (Bool-cases (starts_with prefix address)), back)
  where
    forth :
        (starts_with prefix address ≡ true) ⊎ (starts_with prefix address ≡ false)
        → tail address prefix ≡ some name
        → (address ≡ prefix ++ name) × (0 < length name)
    forth (inl begins) h =
        let (rest, e) = starts_with→append prefix address begins in
        ground (arith, drop-length prefix rest, length-append prefix rest)
    forth (inr other) h = ground arith

    back : (address ≡ prefix ++ name) × (0 < length name) → tail address prefix ≡ some name
    back (e, h) = rw e (tail-append prefix name ∙ ground arith)

split_slash-append :
    (first second : Bytes)
    → SlashFree first
    → split_slash (first ++ (b'/' ∷ second)) ≡ some (first, second)
unfolding split_slash
split_slash-append [] second h = refl
split_slash-append (c ∷ first) second h = ground (arith, split_slash-append first second h.1, h.0)

split_slash_inv :
    (rest first second : Bytes)
    → split_slash rest ≡ some (first, second)
    → (rest ≡ first ++ (b'/' ∷ second)) × SlashFree first
unfolding split_slash
split_slash_inv [] first second h = cc
split_slash_inv (c ∷ rest) first second h = elim (Bool-cases (c == b'/')) [
  | inl slash ↦ ground arith
  | inr other ↦ elim (Option-cases (split_slash rest)) [
    | inl e ↦ ground arith
    | inr ((a, b), e) ↦ ground (arith, split_slash_inv rest a b e)
  ]
]

-- `split_two_segments` answers exactly where the text is two segments that are not empty joined by
-- a slash, the first with no slash in it: it cuts at the first slash.
pub split_two_segments_iff :
    (rest first second : Bytes)
    → (split_two_segments rest ≡ some (first, second)) ↔ (
        (rest ≡ first ++ (b'/' ∷ second))
        × SlashFree first
        × (0 < length first)
        × (0 < length second))
unfolding split_two_segments
split_two_segments_iff rest first second =
    (forth (Option-cases (split_slash rest)), back first second)
  where
    forth :
        (split_slash rest ≡ none) ⊎ ((a : Bytes × Bytes) × (split_slash rest ≡ some a))
        → split_two_segments rest ≡ some (first, second)
        → (rest ≡ first ++ (b'/' ∷ second))
          × SlashFree first
          × (0 < length first)
          × (0 < length second)
    forth (inl e) h = ground arith
    forth (inr (([], b), e)) h = ground arith
    forth (inr ((c ∷ a, []), e)) h = ground arith
    forth (inr ((c ∷ a, d ∷ b), e)) h = ground (arith, split_slash_inv rest (c ∷ a) (d ∷ b) e)

    back :
        (a b : Bytes)
        → (rest ≡ a ++ (b'/' ∷ b)) × SlashFree a × (0 < length a) × (0 < length b)
        → split_two_segments rest ≡ some (a, b)
    back [] b (e, f, ha, hb) = absurd (omega arith)
    back (c ∷ a) [] (e, f, ha, hb) = absurd (omega arith)
    back (c ∷ a) (d ∷ b) (e, f, ha, hb) =
        rw (e, split_two_segments, split_slash-append (c ∷ a) (d ∷ b) f)

-- The address of a child, taken apart by the dispatcher's helpers, gives back parent and child,
-- whatever the child's name holds, where both are named and the parent has no slash.
pub joined_for-split :
    (prefix parent child : Bytes)
    → SlashFree parent
    → 0 < length parent
    → 0 < length child
    → (rest : Bytes) × (tail (joined_for prefix parent child) prefix ≡ some rest)
      × (split_two_segments rest ≡ some (parent, child))
joined_for-split prefix parent child f hp hc = (
  parent ++ (b'/' ∷ child),
  (tail_iff (joined_for prefix parent child) prefix (parent ++ (b'/' ∷ child))).1 (
    append_assoc prefix parent (b'/' ∷ child),
    omega (arith, length-append parent (b'/' ∷ child)),
  ),
  (split_two_segments_iff (parent ++ (b'/' ∷ child)) parent child).1 (refl, f, hp, hc),
)

-- Under a base a sub-action is found exactly at the base itself, as the empty text, and behind the
-- base and a slash.
pub sub_action_iff :
    (address base sub : Bytes)
    → (sub_action address base ≡ some sub)
      ↔ (((address ≡ base) × (sub ≡ [])) ⊎ (address ≡ base ++ (b'/' ∷ sub)))
unfolding sub_action
sub_action_iff address base sub = (forth (Bool-cases (starts_with base address)), back)
  where
    forth :
        (starts_with base address ≡ true) ⊎ (starts_with base address ≡ false)
        → sub_action address base ≡ some sub
        → ((address ≡ base) × (sub ≡ [])) ⊎ (address ≡ base ++ (b'/' ∷ sub))
    forth (inr other) h = ground arith
    forth (inl begins) h = behind (starts_with→append base address begins)
      where
        behind :
            (t : Bytes) × (address ≡ base ++ t)
            → ((address ≡ base) × (sub ≡ [])) ⊎ (address ≡ base ++ (b'/' ∷ sub))
        behind ([], e) = inl (e ∙ append-nil base, ground (arith, drop-length base []))
        behind (c ∷ t, e) = inr (ground (arith, drop-length base (c ∷ t)))

    back :
        ((address ≡ base) × (sub ≡ [])) ⊎ (address ≡ base ++ (b'/' ∷ sub))
        → sub_action address base ≡ some sub
    back (inl (e, n)) =
        ground (arith, starts_with_append base [], append-nil base, drop-length base [])
    back (inr e) =
        ground (arith, starts_with_append base (b'/' ∷ sub), drop-length base (b'/' ∷ sub))

last_segment-SlashFree : (s : Bytes) → SlashFree s → last_segment s ≡ none
unfolding last_segment
last_segment-SlashFree [] h = refl
last_segment-SlashFree (c ∷ s) h = ground (arith, last_segment-SlashFree s h.1, h.0)

last_segment-append : (s t : Bytes) → SlashFree t → last_segment (s ++ (b'/' ∷ t)) ≡ some t
unfolding last_segment
last_segment-append [] t h = ground (arith, last_segment-SlashFree t h)
last_segment-append (c ∷ s) t h = ground (arith, last_segment-append s t h)

-- `leaf` of an address is what follows its last slash; with no slash it is the address.
pub leaf-append : (s t : Bytes) → SlashFree t → (leaf (s ++ (b'/' ∷ t)) ≡ t) × (leaf t ≡ t)
unfolding leaf
leaf-append s t h = ground (arith, last_segment-append s t h, last_segment-SlashFree t h)
