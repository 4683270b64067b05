-- ===== src/Front/Server/Stopping.antt =====
-- `stop` in the main thread beside `onAccept` in the workers, in every order of what they do.
use gateway_poc.Base.{
  ℕ, ◌+◌, ◌<◌, ◌≡◌, ◌⊎◌, refl, ap, ◌∙◌, inl, inr, Bool, true, false, Option, some, if◌then◌else◌,
  subst, Bool-cases,
}
use gateway_poc.Base.Bytes.{Bytes}
use gateway_poc.Front.Config.{HttpServerConfig}
use gateway_poc.Front.Server.{Server, connected, start, on_accept}

some-injective : {A : Type 0} {a b : A} → ◌≡◌ {A = Option A} (some a) (some b) → a ≡ b
some-injective e = cc

-- Where a worker is in `onAccept`: in no call of it, behind the start of the session, or behind a
-- look at `stopping_` that found false.
pub data Handling : Type 0 where
  idle started going_on : Handling

-- Where the main thread is in `stop`: before it, or behind its lines in turn.
pub data Stopping : Type 0 where
  running told shut halted joined : Stopping

pub record Racing : Type 0 where
  pub server : Server
  pub handling : Handling
  pub main : Stopping

-- `ioContext_.stop` has been called: no further handler is run.
abbrev pub is_halted : Stopping → Bool
is_halted halted = true
is_halted joined = true
is_halted main = false

-- The acceptor was closed.
abbrev pub is_shut : Stopping → Bool
is_shut running = false
is_shut told = false
is_shut main = true

abbrev pub set_accepting : Bool → Server → Server
set_accepting b s = record s { accepting = b }

abbrev pub begun : Server → Server
begun s = record s { accepting = false; sessions = s.sessions + 1 }

-- A line of one of the threads. The handlers are run by the workers until the context is halted; an
-- accept that is awaited then, or that is begun later, is awaited no more. A worker returns from
-- the context when that is halted and it is in no handler. Where the peer of a connection is gone
-- the process has ended, and there is no next state.
pub data Step (s t : Racing) : Type 0 where
  accept_failed :
      s.server.accepting ≡ true
      → is_halted s.main ≡ false
      → 0 < s.server.workers
      → t ≡ record s { server = set_accepting false s.server }
      → Step s t
  accepted :
      s.server.accepting ≡ true
      → is_halted s.main ≡ false
      → 0 < s.server.workers
      → t ≡ record s { server = begun s.server; handling = started }
      → Step s t
  looked :
      s.handling ≡ started
      → t ≡ record s { handling = if s.server.stopping then idle else going_on }
      → Step s t
  accepts :
      s.handling ≡ going_on
      → t ≡ record s {
        server = set_accepting (if is_halted s.main then false else true) s.server;
        handling = idle;
      }
      → Step s t
  leaves :
      (left : ℕ)
      → is_halted s.main ≡ true
      → s.server.workers ≡ left + 1
      → (s.handling ≡ idle) ⊎ (0 < left)
      → t ≡ record s { server = record s.server { workers = left } }
      → Step s t
  tells :
      s.main ≡ running
      → t ≡ record s { server = record s.server { stopping = true }; main = told }
      → Step s t
  shuts :
      s.main ≡ told
      → t ≡ record s { server = record s.server { acceptor_open = false }; main = shut }
      → Step s t
  halts :
      s.main ≡ shut
      → t ≡ record s { server = set_accepting false s.server; main = halted }
      → Step s t
  joins : s.main ≡ halted → s.server.workers ≡ 0 → t ≡ record s { main = joined } → Step s t

pub data Reach (s : Racing) : Racing → Type 0 where
  here : Reach s s
  step : {t u : Racing} → Reach s t → Step t u → Reach s u

-- One connection at a time is awaited or handled, and who handles one is a worker that has not
-- ended.
pub record Inv (c : HttpServerConfig) (s : Racing) : Type 0 where
  pub same : s.server.config ≡ c
  pub alone : s.server.accepting ≡ true → s.handling ≡ idle
  pub busy : (s.handling ≡ idle) ⊎ (0 < s.server.workers)
  pub tells : (s.main ≡ running) ⊎ (s.server.stopping ≡ true)
  pub closed : is_shut s.main ≡ true → s.server.acceptor_open ≡ false
  pub silent : is_halted s.main ≡ true → s.server.accepting ≡ false
  pub empty : s.main ≡ joined → s.server.workers ≡ 0

-- The lines of `onAccept` without another thread between them are the function.
pub alone-on_accept :
    (s : Racing) (endpoint : Bytes) (left : Server)
    → s.server.accepting ≡ true
    → s.handling ≡ idle
    → is_halted s.main ≡ false
    → 0 < s.server.workers
    → on_accept (connected (some endpoint)) s.server ≡ some left
    → Reach s (record s { server = left })
unfolding on_accept
alone-on_accept s endpoint left a i h w e =
    let s₁ : Racing = record s { server = begun s.server; handling = started } in
    let s₂ : Racing = record s₁ { handling = if s.server.stopping then idle else going_on } in
    let two : Reach s s₂ = step (step here (accepted a h w refl)) (looked refl refl) in
    let is = some-injective e in
    elim (Bool-cases s.server.stopping) [
      | inl stops ↦ subst (Reach s) (rw⁻¹ is (rw (stops, i) refl)) two
      | inr stays ↦ step two (accepts (rw stays refl) (rw⁻¹ is (rw (stays, i, h) refl)))
    ]

-- Behind the halt no step goes back before it or starts a session.
Step-halted :
    (s t : Racing)
    → is_halted s.main ≡ true
    → Step s t
    → (is_halted t.main ≡ true) × (t.server.sessions ≡ s.server.sessions)
Step-halted s t h (accept_failed a k w e) = cc
Step-halted s t h (accepted a k w e) = cc
Step-halted s t h (looked a e) = rw e (h, refl)
Step-halted s t h (accepts a e) = rw e (h, refl)
Step-halted s t h (leaves left k w still e) = rw e (h, refl)
Step-halted s t h (tells a e) = cc (ap is_halted a, h)
Step-halted s t h (shuts a e) = cc (ap is_halted a, h)
Step-halted s t h (halts a e) = rw e (refl, refl)
Step-halted s t h (joins a w e) = rw e (refl, refl)

-- A server that is running, with its first accept awaited.
abbrev pub started_server : Server → Racing
started_server s = record { server = start s; handling = idle; main = running }

-- Once the context is halted no order of the threads starts another session.
pub halted-sessions :
    (s t : Racing)
    → is_halted s.main ≡ true
    → Reach s t
    → (is_halted t.main ≡ true) × (t.server.sessions ≡ s.server.sessions)
halted-sessions s t h here = (h, refl)
halted-sessions s t h (step {t = u} r a) =
    let (still, same) = halted-sessions s u h r in
    let (still', same') = Step-halted u t still a in (still', same' ∙ same)
