-- ===== src/Samples/Sockets.antt =====
-- src/osc-ws.cpp on concrete frames and connections.
use obs_osc.Base.{◌≡◌, refl, true, [], ◌∷◌, ◌++◌, All, codes}
use obs_osc.Ws.Session.{serve, text, send}
use obs_osc.Ws.Bounds.{IsBounded, serve-IsBounded}

serve-IsBounded_example :
    All IsBounded (serve (λ n. true) (1 ∷ 2 ∷ codes "ab" ++ (128 ∷ 1 ∷ codes "c")))
serve-IsBounded_example = serve-IsBounded (λ n. true) (1 ∷ 2 ∷ codes "ab" ++ (128 ∷ 1 ∷ codes "c"))

-- A text message in two fragments, with a ping between them.
serves_fragments :
    serve (λ n. true) (1 ∷ 2 ∷ codes "ab" ++ (137 ∷ 0 ∷ 128 ∷ 1 ∷ codes "c"))
    ≡ send true 10 [] ∷ text (codes "abc") ∷ []
unfolding serve
serves_fragments = refl
