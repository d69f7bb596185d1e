-- ===== src/Http/Routing.antt =====
-- The way of a path through the request line to the handler.
use obs_osc.Base.{
  ℕ, ◌/◌, ◌%◌, ◌<◌, ◌≡◌, ◌≢◌, refl, sym, ap, ◌∙◌, true, [], ◌∷◌, ◌++◌, none, some, Bytes, All,
  codes, starts_with, starts_with_append, arith, append-nil, append_assoc, All-append,
}
use obs_osc.Http.Request.{
  before, up_to, try_upgrade, request_path, url_decode, answer, answer_request,
}
use obs_osc.Http.Decoding.{digit, Encodes, end, literal, escape, url_decode-Encodes}

before-append : (c : ℕ) (s rest : Bytes) → All (λ d. d ≢ c) s → before c (s ++ (c ∷ rest)) ≡ some s
unfolding before
before-append c [] rest h = ground arith
before-append c (d ∷ s) rest (h, hs) = ground (arith, before-append c s rest hs)

before-none : (c : ℕ) (s : Bytes) → All (λ d. d ≢ c) s → before c s ≡ none
unfolding before
before-none c [] h = refl
before-none c (d ∷ s) (h, hs) = ground (arith, before-none c s hs)

-- A byte that is neither a digit, nor a capital from A to F, nor the percent sign.
abbrev IsApart : ℕ → Type 0
IsApart c = (c ≢ b'%') × ((n : ℕ) → n < 16 → digit n ≢ c)

space-IsApart : IsApart b' '
unfolding digit
space-IsApart = (λ e. omega arith, λ n h e. ground arith)

question-IsApart : IsApart b'?'
unfolding digit
question-IsApart = (λ e. omega arith, λ n h e. ground arith)

-- The blank and the question mark do not stand in a text for a path.
Encodes-All : (s path : Bytes) → Encodes s path → All (λ d. d ≢ b' ') s × All (λ d. d ≢ b'?') s
Encodes-All _ _ end = (tt, tt)
Encodes-All _ _ (literal c s path _ blank question rest) =
    let (blanks, questions) = Encodes-All s path rest in ((blank, blanks), (question, questions))
Encodes-All _ _ (escape c s path byte rest) =
    let (blanks, questions) = Encodes-All s path rest in
    let high : c / 16 < 16 = omega arith in
    let low : c % 16 < 16 = omega arith in
    (
      (
        (λ e. space-IsApart.0 (sym e)),
        (space-IsApart.1 (c / 16) high, (space-IsApart.1 (c % 16) low, blanks)),
      ),
      (
        (λ e. question-IsApart.0 (sym e)),
        (question-IsApart.1 (c / 16) high, (question-IsApart.1 (c % 16) low, questions)),
      ),
    )

-- Nothing, or a question mark and a text without blanks.
pub data IsQuery : Bytes → Type 0 where
  no_query : IsQuery []
  some_query : (q : Bytes) → All (λ d. d ≢ b' ') q → IsQuery (b'?' ∷ q)

IsQuery-All : (q : Bytes) → IsQuery q → All (λ d. d ≢ b' ') q
IsQuery-All _ no_query = tt
IsQuery-All _ (some_query q h) = ((λ e. omega arith), h)

up_to-before : (c : ℕ) (s t : Bytes) → before c s ≡ some t → up_to c s ≡ t
unfolding up_to
up_to-before c s t h = rw (up_to, h)

up_to-whole : (c : ℕ) (s : Bytes) → before c s ≡ none → up_to c s ≡ s
unfolding up_to
up_to-whole c s h = rw (up_to, h)

up_to-query :
    (s query : Bytes) → All (λ d. d ≢ b'?') s → IsQuery query → up_to b'?' (s ++ query) ≡ s
up_to-query s _ h no_query =
    ap (up_to b'?') (append-nil s) ∙ up_to-whole b'?' s (before-none b'?' s h)
up_to-query s _ h (some_query q _) =
    up_to-before b'?' (s ++ (b'?' ∷ q)) s (before-append b'?' s q h)

up_to-blank :
    (s query rest : Bytes)
    → All (λ d. d ≢ b' ') (s ++ query)
    → up_to b' ' (s ++ (query ++ (b' ' ∷ rest))) ≡ s ++ query
up_to-blank s query rest h =
    ap (up_to b' ') (sym (append_assoc s query (b' ' ∷ rest)))
    ∙ up_to-before b' ' ((s ++ query) ++ (b' ' ∷ rest)) (s ++ query)
        (before-append b' ' (s ++ query) rest h)

request_path-Encodes :
    (s path query rest : Bytes)
    → Encodes s path
    → IsQuery query
    → request_path (codes "GET " ++ (s ++ (query ++ (b' ' ∷ rest)))) ≡ s
unfolding request_path
request_path-Encodes s path query rest encodes asked =
    let (blanks, questions) = Encodes-All s path encodes in
    ap (up_to b'?') (
      up_to-blank s query rest
        (All-append (λ d. d ≢ b' ') s query blanks (IsQuery-All query asked)))
    ∙ up_to-query s query questions asked

routed :
    (http_handler : Bytes → Bytes) (request path : Bytes)
    → try_upgrade request ≡ none
    → starts_with (codes "GET ") request ≡ true
    → request_path request ≡ path
    → answer_request http_handler request ≡ answer http_handler (url_decode path)
unfolding answer_request
routed http_handler request path plain get cut = rw (answer_request, plain, get, cut)

-- A GET request with no upgrade is answered from what the handler says of the path that its text stands
-- for, whatever query and whatever lines follow.
pub answer_request-Encodes :
    (http_handler : Bytes → Bytes) (s path query rest : Bytes)
    → Encodes s path
    → IsQuery query
    → try_upgrade (codes "GET " ++ (s ++ (query ++ (b' ' ∷ rest)))) ≡ none
    → answer_request http_handler (codes "GET " ++ (s ++ (query ++ (b' ' ∷ rest))))
      ≡ answer http_handler path
answer_request-Encodes http_handler s path query rest encodes asked plain =
    let line = s ++ (query ++ (b' ' ∷ rest)) in
    routed http_handler (codes "GET " ++ line) s plain (starts_with_append (codes "GET ") line)
      (request_path-Encodes s path query rest encodes asked)
    ∙ ap (answer http_handler) (url_decode-Encodes s path encodes)
