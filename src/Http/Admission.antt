-- ===== src/Http/Admission.antt =====
-- How many clients `accept_loop` of src/osc-query-http.cpp lets in.
use obs_osc.Base.{
  ℕ, suc, ◌+◌, ◌-◌, ◌≤◌, [], ◌∷◌, ◌++◌, Option, none, some, leb, length, length-append, ◌≡◌, refl,
  subst, ap, ◌∙◌, Bool-cases, inl, inr, arith,
}
use obs_osc.Http.Accept.{
  max_clients, Counted, Acceptor, no_clients, count_client, decide, finish, Step, accepts, decides,
  finishes, Reach, here, next,
}

-- What the client that is being decided on adds to the count; it was counted on top of all those
-- that are still served.
abbrev pub Accounts : Option Counted → ℕ → ℕ → Type 0
Accounts none live serving = live ≡ serving
Accounts (some counted) live serving = (live ≡ serving + 1) × (serving ≤ counted.before)

-- The counter is the number of serving threads, with the client being decided on, and there are at
-- most `max_clients` such threads.
pub record IsBounded (g : Acceptor) : Type 0 where
  pub counts : Accounts g.deciding g.live_clients (length g.serving)
  pub bounded : length g.serving ≤ max_clients

fewer :
    (deciding : Option Counted) (live serving : ℕ)
    → Accounts deciding live (suc serving)
    → Accounts deciding (live - 1) serving
fewer none live serving h = omega (arith, h)
fewer (some counted) live serving (h, i) = (omega (arith, h), omega (arith, i))

Step-IsBounded : {g h : Acceptor} → Step g h → IsBounded g → IsBounded h
unfolding count_client decide finish
Step-IsBounded {g} (accepts client e) i =
    let live : g.live_clients ≡ length g.serving =
      subst (λ o. Accounts o g.live_clients (length g.serving)) e i.counts in
    record { counts = (omega (arith, live), omega (arith, live)); bounded = i.bounded }
Step-IsBounded {g} (decides counted e) i =
    let (live, before) : Accounts (some counted) g.live_clients (length g.serving) =
      subst (λ o. Accounts o g.live_clients (length g.serving)) e i.counts in
    elim (Bool-cases (leb max_clients counted.before)) [
      | inl full ↦ rw full (record { counts = omega (arith, live); bounded = i.bounded })
      | inr room ↦ rw room (record {
        counts = omega (arith, live, length-append g.serving (counted.client ∷ []));
        bounded = ground (arith, room, before, length-append g.serving (counted.client ∷ []));
      })
    ]
Step-IsBounded {g} (finishes before client after e) i =
    let count : length g.serving ≡ suc (length (before ++ after)) =
      ap length e
      ∙ omega (arith, length-append before (client ∷ after), length-append before after) in
    record {
      counts =
          fewer g.deciding g.live_clients (length (before ++ after))
            (subst (λ n. Accounts g.deciding g.live_clients n) count i.counts);
      bounded = omega (arith, count, i.bounded);
    }

-- Through any interleaving of the accept thread and the serving threads, from a server with no
-- clients: at most 32 clients are served at once, and the counter is their number, with the one that
-- is being decided on.
pub Reach-IsBounded : {g : Acceptor} → Reach no_clients g → IsBounded g
Reach-IsBounded here = record { counts = refl; bounded = omega arith }
Reach-IsBounded (next reach step) = Step-IsBounded step (Reach-IsBounded reach)
