-- ===== src/Schema/Paths.antt =====
-- `split_path` of src/osc-query-schema.cpp against the writing of a path.
use obs_osc.Base.{false, List, [], ◌∷◌, ◌++◌, All, ◌==◌, Bytes, ◌≡◌, ◌≢◌, refl, ap, ◌∙◌, arith}
use obs_osc.Addresses.Laws.{SlashFree}
use obs_osc.Schema.Tree.{pieces, keep_segments, split_path}

-- A segment is not empty and has no slash in it.
abbrev pub IsSegment : Bytes → Type 0
IsSegment s = (s ≢ []) × SlashFree s

-- Each segment behind a slash.
abbrev pub path_of : List Bytes → Bytes
path_of [] = []
path_of (s ∷ ss) = b'/' ∷ (s ++ path_of ss)

pieces-append :
    (s path : Bytes) (others : List Bytes)
    → SlashFree s
    → pieces path ≡ ([], others)
    → pieces (s ++ path) ≡ (s, others)
unfolding pieces
pieces-append [] path others h e = e
pieces-append (c ∷ s) path others (no_slash, h) e =
    let slash_free : (c == b'/') ≡ false = ground (arith, no_slash) in
    rw slash_free (ap (λ out. (c ∷ out.0, out.1)) (pieces-append s path others h e))

pieces-path_of : (ss : List Bytes) → All IsSegment ss → pieces (path_of ss) ≡ ([], ss)
unfolding pieces
pieces-path_of [] h = refl
pieces-path_of (s ∷ ss) ((_, h), hs) =
    ap (λ out. ([], out.0 ∷ out.1)) (pieces-append s (path_of ss) ss h (pieces-path_of ss hs))

keep_segments-id : (ss : List Bytes) → All IsSegment ss → keep_segments ss ≡ ss
unfolding keep_segments
keep_segments-id [] h = refl
keep_segments-id ([] ∷ ss) ((nonempty, _), hs) = absurd (nonempty refl)
keep_segments-id ((c ∷ s) ∷ ss) (_, hs) = ap (λ rest. (c ∷ s) ∷ rest) (keep_segments-id ss hs)

-- The path that is written from segments that are not empty and have no slash is split into those
-- segments.
pub split_path-path_of : (ss : List Bytes) → All IsSegment ss → split_path (path_of ss) ≡ ss
unfolding split_path keep_segments
split_path-path_of ss h =
    ap (λ out. keep_segments (out.0 ∷ out.1)) (pieces-path_of ss h) ∙ keep_segments-id ss h
