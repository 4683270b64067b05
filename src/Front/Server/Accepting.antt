-- ===== src/Front/Server/Accepting.antt =====
-- When the server goes on accepting connections.
use gateway_poc.Base.{
  ℕ, zero, suc, ◌+◌, ◌≡◌, refl, ap, ◌∙◌, Bool, true, false, Option, none, some, List, [], ◌∷◌,
  if◌then◌else◌, arith,
}
use gateway_poc.Base.Bytes.{Bytes}
use gateway_poc.Front.Server.{
  Server, Arrival, failed, connected, add_workers, start, stop, on_accept,
}

-- What happens between `start` and `stop`: the pending `async_accept` ends, if there is one.
abbrev pub arrival : Server → Arrival → Option Server
arrival s a = if s.accepting then on_accept a s else some s

abbrev pub go_on : Option Server → (Server → Option Server) → Option Server
go_on none rest = none
go_on (some s) rest = rest s

unfoldable pub arrivals : Server → List Arrival → Option Server
arrivals s [] = some s
arrivals s (a ∷ rest) = go_on (arrival s a) (λ t. arrivals t rest)

abbrev one_more : Option ℕ → Option ℕ
one_more none = none
one_more (some n) = some (suc n)

-- The connections that came before the first failure, unless the peer of one of them was gone.
abbrev pub until_failure : List Arrival → Option ℕ
until_failure [] = some 0
until_failure (failed ∷ rest) = some 0
until_failure (connected none ∷ rest) = none
until_failure (connected (some endpoint) ∷ rest) = one_more (until_failure rest)

add_workers_lem :
    (rounds : ℕ) (s : Server) → add_workers rounds s ≡ record s { workers = s.workers + rounds }
unfolding add_workers
add_workers_lem zero s = ground arith
add_workers_lem (suc rounds) s = add_workers_lem rounds _ ∙ ground arith

-- A server that was started listens, waits for a connection, and has as many workers as its
-- configuration says; one that was stopped has none, and waits for nothing.
pub start-stop :
    (s : Server)
    → (start s ≡ record {
      config = s.config;
      stopping = false;
      acceptor_open = true;
      accepting = true;
      sessions = s.sessions;
      workers = s.config.threads;
    })
      × (stop (start s) ≡ record {
        config = s.config;
        stopping = true;
        acceptor_open = false;
        accepting = false;
        sessions = s.sessions;
        workers = 0;
      })
unfolding start stop
start-stop s =
    let started =
      add_workers_lem s.config.threads
        (record s { stopping = false; acceptor_open = true; accepting = true; workers = 0 })
      ∙ ground arith in
    (
      started,
      ap
          (λ (t : Server). record t {
            stopping = true;
            acceptor_open = false;
            accepting = false;
            workers = 0;
          })
          started,
    )

arrivals_idle : (s : Server) (rest : List Arrival) → s.accepting ≡ false → arrivals s rest ≡ some s
unfolding arrivals
arrivals_idle s [] e = refl
arrivals_idle s (a ∷ rest) e =
    ap (λ (b : Bool). go_on (if b then on_accept a s else some s) (λ t. arrivals t rest)) e
    ∙ arrivals_idle s rest e

-- What an accept comes to that is awaited.
awaited : (s : Server) (a : Arrival) → s.accepting ≡ true → arrival s a ≡ on_accept a s
awaited s a e = ap (λ (b : Bool). if b then on_accept a s else some s) e

arrived :
    (s : Server) (endpoint : Bytes)
    → s.stopping ≡ false
    → s.accepting ≡ true
    → arrival s (connected (some endpoint))
      ≡ some (record s { accepting = true; sessions = s.sessions + 1 })
unfolding on_accept
arrived s endpoint st e =
    let begun : Server = record s { accepting = false; sessions = s.sessions + 1 } in
    awaited s (connected (some endpoint)) e
    ∙ ap (λ (b : Bool). some (if b then begun else record begun { accepting = true })) st

abbrev pub sessions_of : Option Server → Option ℕ
sessions_of none = none
sessions_of (some s) = some s.sessions

abbrev pub added_to : ℕ → Option ℕ → Option ℕ
added_to n none = none
added_to n (some m) = some (n + m)

added_to-one_more : (n : ℕ) (o : Option ℕ) → added_to (n + 1) o ≡ added_to n (one_more o)
added_to-one_more n none = refl
added_to-one_more n (some m) = ap some (omega arith)

-- A server that is not stopping and waits for a connection starts a session for each connection up
-- to the first failure to accept one, and for none after it; and where the peer of one of these
-- connections is gone by then, its constructor's exception ends the process.
pub sessions-arrivals :
    (s : Server) (rest : List Arrival)
    → s.stopping ≡ false
    → s.accepting ≡ true
    → sessions_of (arrivals s rest) ≡ added_to s.sessions (until_failure rest)
unfolding arrivals on_accept
sessions-arrivals s [] st e = ap some (omega arith)
sessions-arrivals s (failed ∷ rest) st e =
    ap (λ (o : Option Server). sessions_of (go_on o (λ t. arrivals t rest))) (awaited s failed e)
    ∙ ap sessions_of (arrivals_idle (record s { accepting = false }) rest refl)
    ∙ ap some (omega arith)
sessions-arrivals s (connected none ∷ rest) st e =
    ap (λ (o : Option Server). sessions_of (go_on o (λ t. arrivals t rest)))
      (awaited s (connected none) e)
sessions-arrivals s (connected (some endpoint) ∷ rest) st e =
    let t : Server = record s { accepting = true; sessions = s.sessions + 1 } in
    ap (λ (o : Option Server). sessions_of (go_on o (λ u. arrivals u rest)))
      (arrived s endpoint st e)
    ∙ sessions-arrivals t rest st refl
    ∙ added_to-one_more s.sessions (until_failure rest)
