-- ===== src/Tests/Sessions.antt =====
-- Sessions of a front that come and are answered in turn, and another that interleaves with them.
use gateway_poc.Base.{ℕ, refl, inr, none, some, [], ◌∷◌, ◌++◌}
use gateway_poc.Base.Bytes.{Bytes, codes}
use gateway_poc.Front.Handler.{CheckResult, Writer}
use gateway_poc.Front.Session.{Request, nothing, make_session, run, on_read}
use gateway_poc.Front.Sessions.{
  in_thread, Running, Serving, connected, received, Reach, here, next, opening, Serialized,
  Reach-Serialized,
}
use gateway_poc.Tests.Front.{check_any, count, a_request, a_deletion}

module _ {W : Type 0} (check : Bytes → CheckResult) (write : ℕ → Writer W) where
  abbrev newcomer : ℕ → W → Running check write
  newcomer thread w =
      run (in_thread check write)
        (record { pending = nothing; response = none; world = (thread, w) })

  abbrev asked : ℕ → Request → W → Running check write
  asked thread q w = on_read (in_thread check write) (newcomer thread w) (inr q)

  -- A session comes, and sends its request.
  abbrev pub visit : ℕ → Request → Serving check write → Serving check write
  visit thread q s = record {
    world = (asked thread q s.world).world.1;
    sessions = s.sessions ++ (asked thread q s.world ∷ []);
    served = s.served ++ ((thread, q) ∷ []);
  }

  pub visit-Reach :
      (o : Serving check write) {s : Serving check write} (thread : ℕ) (q : Request)
      → Reach check write o s
      → Reach check write o (visit thread q s)
  unfolding run make_session
  visit-Reach o {s} thread q r =
      next (next r (connected thread (some (codes "10.0.0.7:4711")) _ refl refl))
        (received thread q s.sessions [] (newcomer thread s.world) refl refl refl)

abbrev counting : ℕ → Writer ℕ
counting thread = count

-- Two visits, in two threads.
abbrev two_visits : Serving check_any counting
two_visits =
    visit check_any counting 2 a_deletion
      (visit check_any counting 1 a_request (opening check_any counting 4))

Reach-Serialized_example : Serialized check_any counting 4 two_visits
Reach-Serialized_example = Reach-Serialized check_any counting 4 (
    visit-Reach check_any counting _ 2 a_deletion
      (visit-Reach check_any counting _ 1 a_request here))
