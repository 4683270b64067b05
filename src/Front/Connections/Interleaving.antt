-- ===== src/Front/Connections/Interleaving.antt =====
-- Threads that call `findConnection` at the same time. Each of its two locked blocks is one step;
-- between them a thread is on its way to a new connection.
use gateway_poc.Base.{
  ℕ, ◌≡◌, ◌≢◌, refl, ◌∙◌, Bool, true, false, none, some, List, [], ◌∷◌, ◌==◌, if◌then◌else◌, arith,
}
use gateway_poc.Front.Connections.{ExclusiveConnection, find_own, add_own, find_own-add_own}

-- The vector, and which threads have seen that they have no connection yet.
pub record Shared : Type 0 where
  pub connections : List ExclusiveConnection
  pub waiting : ℕ → Bool

abbrev pub set_waiting : ℕ → Bool → (ℕ → Bool) → ℕ → Bool
set_waiting thread b waiting other = if other == thread then b else waiting other

-- A thread runs one call at a time, so one that is on its way does not look again.
pub data Step (s u : Shared) : Type 0 where
  -- The first block, under the shared lock: found.
  found :
      (thread connection : ℕ)
      → s.waiting thread ≡ false
      → find_own thread s.connections ≡ some connection
      → u ≡ s
      → Step s u
  -- The first block: not found.
  missed :
      (thread : ℕ)
      → s.waiting thread ≡ false
      → find_own thread s.connections ≡ none
      → u ≡ record s { waiting = set_waiting thread true s.waiting }
      → Step s u
  -- The connection could not be made.
  gave_up :
      (thread : ℕ)
      → s.waiting thread ≡ true
      → u ≡ record s { waiting = set_waiting thread false s.waiting }
      → Step s u
  -- The second block, under the unique lock.
  added :
      (thread connection : ℕ)
      → s.waiting thread ≡ true
      → u ≡ record {
        connections = add_own thread connection s.connections;
        waiting = set_waiting thread false s.waiting;
      }
      → Step s u

pub data Reach (s : Shared) : Shared → Type 0 where
  here : Reach s s
  step : {t u : Shared} → Reach s t → Step t u → Reach s u

-- No thread stands twice in the vector.
abbrev pub Distinct : List ExclusiveConnection → Type 0
Distinct [] = Unit {0}
Distinct (e ∷ es) = (find_own e.thread_id es ≡ none) × Distinct es

pub record Inv (s : Shared) : Type 0 where
  pub distinct : Distinct s.connections
  pub absent : (thread : ℕ) → s.waiting thread ≡ true → find_own thread s.connections ≡ none

find_own-other :
    (thread : ℕ) (e : ExclusiveConnection) (es : List ExclusiveConnection)
    → find_own thread (e ∷ es) ≡ none
    → (e.thread_id ≢ thread) × (find_own thread es ≡ none)
unfolding find_own
find_own-other thread e es h = ground arith

Distinct-add_own :
    (thread connection : ℕ) (es : List ExclusiveConnection)
    → find_own thread es ≡ none
    → Distinct es
    → Distinct (add_own thread connection es)
unfolding add_own
Distinct-add_own thread connection [] h d = (h, tt)
Distinct-add_own thread connection (e ∷ es) h d =
    let apart = find_own-other thread e es h in
    (
      find_own-add_own thread e.thread_id connection es apart.1 ∙ ground arith,
      Distinct-add_own thread connection es apart.1 d.1,
    )

Step-Inv : {s u : Shared} → Step s u → Inv s → Inv u
Step-Inv (found thread connection w h e) v = rw e v
Step-Inv {s} (missed thread w h e) v =
    rw e (record { distinct = v.distinct; absent = λ other on_way. ground (arith, v.absent other) })
Step-Inv {s} (gave_up thread w e) v =
    rw e (record { distinct = v.distinct; absent = λ other on_way. ground (arith, v.absent other) })
Step-Inv {s} (added thread connection w e) v =
    let missing = v.absent thread w in
    rw e (record {
      distinct = Distinct-add_own thread connection s.connections missing v.distinct;
      absent = λ other on_way.
          ground
            (arith, v.absent other, find_own-add_own thread other connection s.connections missing);
    })

-- Whatever the order in which threads take the locks, it stays so that no thread is in the vector
-- twice and that one on its way to a new connection has none.
pub Reach-Inv : {s u : Shared} → Inv s → Reach s u → Inv u
Reach-Inv v here = v
Reach-Inv v (step r st) = Step-Inv st (Reach-Inv v r)

Step-find_own :
    {s u : Shared} (thread connection : ℕ)
    → Step s u
    → Inv s
    → find_own thread s.connections ≡ some connection
    → find_own thread u.connections ≡ some connection
Step-find_own thread connection (found t c w h e) v own = rw e own
Step-find_own thread connection (missed t w h e) v own = rw e own
Step-find_own thread connection (gave_up t w e) v own = rw e own
Step-find_own {s} thread connection (added t c w e) v own =
    rw e (ground (arith, v.absent t w, find_own-add_own t thread c s.connections (v.absent t w)))

Reach-find_own :
    {s u : Shared} (thread connection : ℕ)
    → Inv s
    → Reach s u
    → find_own thread s.connections ≡ some connection
    → find_own thread u.connections ≡ some connection
Reach-find_own thread connection v here own = own
Reach-find_own thread connection v (step r st) own =
    Step-find_own thread connection st (Reach-Inv v r) (Reach-find_own thread connection v r own)

-- All connections in the vector that a thread has, in their order.
pub connections_of : ℕ → List ExclusiveConnection → List ℕ
connections_of thread [] = []
connections_of thread (e ∷ es) =
    let rest = connections_of thread es in
    if e.thread_id == thread then e.connection ∷ rest else rest

connections_of-none :
    (thread : ℕ) (es : List ExclusiveConnection)
    → find_own thread es ≡ none
    → connections_of thread es ≡ []
unfolding find_own connections_of
connections_of-none thread [] h = refl
connections_of-none thread (e ∷ es) h = ground (arith, connections_of-none thread es)

connections_of-one :
    (thread connection : ℕ) (es : List ExclusiveConnection)
    → Distinct es
    → find_own thread es ≡ some connection
    → connections_of thread es ≡ connection ∷ []
unfolding find_own connections_of
connections_of-one thread connection [] d h = cc
connections_of-one thread connection (e ∷ es) d h = ground (
  arith,
  connections_of-one thread connection es d.1,
  connections_of-none e.thread_id es d.0,
  connections_of-none thread es,
)

-- Whatever the order in which threads take the locks, from a vector with no thread twice and
-- without those on their way to a new connection: a thread that has a connection keeps finding it,
-- and that one alone stands in the vector for it.
pub Reach-connections_of :
    {s u : Shared} (thread connection : ℕ)
    → Inv s
    → Reach s u
    → find_own thread s.connections ≡ some connection
    → (find_own thread u.connections ≡ some connection)
      × (connections_of thread u.connections ≡ connection ∷ [])
Reach-connections_of {s} {u} thread connection v r own =
    let found = Reach-find_own thread connection v r own in
    (found, connections_of-one thread connection u.connections (Reach-Inv v r).distinct found)
