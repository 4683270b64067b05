-- ===== src/Front/Requests.antt =====
-- Requests that are handled one after the other, each in the session of some thread.
use gateway_poc.Base.{ℕ, ◌≡◌, refl, List, [], ◌∷◌, ◌++◌}
use gateway_poc.Base.Bytes.{Bytes}
use gateway_poc.Front.Handler.{CheckResult, Writer, handle}
use gateway_poc.Front.Session.{
  Status, accepted, bad_request, method_not_allowed, internal_server_error, service_unavailable,
  Request, Response, handle_request,
}

-- The bodies of those that are answered with accepted.
abbrev pub noted : Status → Bytes → List Bytes → List Bytes
noted accepted body rest = body ∷ rest
noted bad_request body rest = rest
noted method_not_allowed body rest = rest
noted internal_server_error body rest = rest
noted service_unavailable body rest = rest

module _ {W : Type 0} (check : Bytes → CheckResult) (write : ℕ → Writer W) where
  -- The answer to a request in the session of a thread.
  abbrev pub answered_by : ℕ → Request → W → Response × W
  answered_by thread q w = handle_request (handle check (write thread)) q w

  unfoldable pub serve_all : List (ℕ × Request) → W → W
  serve_all [] w = w
  serve_all ((thread, q) ∷ qs) w = serve_all qs (answered_by thread q w).1

  unfoldable pub accepted_bodies : List (ℕ × Request) → W → List Bytes
  accepted_bodies [] w = []
  accepted_bodies ((thread, q) ∷ qs) w =
      noted (answered_by thread q w).0.status q.body (accepted_bodies qs (answered_by thread q w).1)

  pub serve_all-append :
      (qs : List (ℕ × Request)) (thread : ℕ) (q : Request) (w : W)
      → serve_all (qs ++ ((thread, q) ∷ [])) w ≡ (answered_by thread q (serve_all qs w)).1
  unfolding serve_all
  serve_all-append [] thread q w = refl
  serve_all-append ((k, x) ∷ qs) thread q w = serve_all-append qs thread q (answered_by k x w).1
