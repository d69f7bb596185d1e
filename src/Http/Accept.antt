-- ===== src/Http/Accept.antt =====
-- `accept_loop` of src/osc-query-http.cpp beside the threads that serve its clients.
use obs_osc.Base.{ℕ, ◌+◌, ◌-◌, List, [], ◌∷◌, ◌++◌, Option, none, some, leb, if◌then◌else◌, ◌≡◌}

abbrev pub max_clients : ℕ
max_clients = 32

-- A client that `accept` returned, and what `fetch_add` found before it counted the client.
pub record Counted : Type 0 where
  pub client : ℕ
  pub before : ℕ

-- The counter, the client that the accept thread is about to decide on, the clients that a thread
-- serves, and the sockets that the loop closed at once.
pub record Acceptor : Type 0 where
  pub live_clients : ℕ
  pub deciding : Option Counted
  pub serving : List ℕ
  pub turned_away : List ℕ

abbrev pub no_clients : Acceptor
no_clients = record { live_clients = 0; deciding = none; serving = []; turned_away = [] }

-- `live_clients.fetch_add`
unfoldable pub count_client : ℕ → Acceptor → Acceptor
count_client client g = record g {
  live_clients = g.live_clients + 1;
  deciding = some (record { client = client; before = g.live_clients });
}

-- The body of the `if` behind it, or the new thread.
unfoldable pub decide : Counted → Acceptor → Acceptor
decide counted g =
    if leb max_clients counted.before
    then record g {
      live_clients = g.live_clients - 1;
      deciding = none;
      turned_away = g.turned_away ++ (counted.client ∷ []);
    }
    else record g { deciding = none; serving = g.serving ++ (counted.client ∷ []) }

-- A thread's last statement.
unfoldable pub finish : List ℕ → Acceptor → Acceptor
finish others g = record g { live_clients = g.live_clients - 1; serving = others }

-- The accept thread takes one client at a time; the serving threads end whenever they do.
pub data Step (g : Acceptor) : Acceptor → Type 0 where
  accepts : (client : ℕ) → g.deciding ≡ none → Step g (count_client client g)
  decides : (counted : Counted) → g.deciding ≡ some counted → Step g (decide counted g)
  finishes :
      (before : List ℕ) (client : ℕ) (after : List ℕ)
      → g.serving ≡ before ++ (client ∷ after)
      → Step g (finish (before ++ after) g)

pub data Reach (g : Acceptor) : Acceptor → Type 0 where
  here : Reach g g
  next : {h k : Acceptor} → Reach g h → Step h k → Reach g k
