-- ===== src/Tests/Requests.antt =====
-- Requests of two sessions to a front with Redis, and the back on the server that the front leaves.
use mathlib.Core.List.Perm
use mathlib.Core.List.{append-nil, Sublist, Mem, mem-cons_self}
use gateway_poc.Base.{
  ℕ, ◌≤◌, ◌≡◌, refl, sym, ap, ◌∙◌, [], All, Option, none, some, concat, length, map, arith,
}
use gateway_poc.Base.Bytes.{Bytes, codes}
use gateway_poc.Front.JsonChecker as JsonChecker
use gateway_poc.Front.RedisWriter as Writer
use gateway_poc.Front.Handler.{CheckResult, WriteResult}
use gateway_poc.Back.Redis.Stream.{to_message}
use gateway_poc.Back.RedisProducer as Producer
use gateway_poc.Back.RunLoop.{LoopState}
use gateway_poc.Back.Storage.Calls.{Grows-refl}
use gateway_poc.Back.Program.{served_redis, chunks, main}
use gateway_poc.Gateway.RedisRequests.{redis_requests-Delivered, redis_requests-saved}
use gateway_poc.Gateway.Requests.{payloads}
use gateway_poc.Gateway.Chunks.{OnDisk}
use gateway_poc.Back.Consumer.{run_jobs}
use gateway_poc.Back.Consumer.Disk.{Filled}
use gateway_poc.Front.Requests.{serve_all, accepted_bodies}
use gateway_poc.Front.Sessions.{Serving, Reach, here, opening, Reach-Serialized}
use gateway_poc.Tests.Sessions.{visit, visit-Reach}
use gateway_poc.Tests.Common.{redis, back, back_toml, parse_config-back}
use gateway_poc.Tests.Database.{database}
use gateway_poc.Tests.Front.{documents, a_request, a_deletion}
use gateway_poc.Tests.Programs.{line, given, parsed_given, names, no_rows}
use gateway_poc.Tests.Steady.{steady, held, Left, steady-IsStream, steady-IsHealthy, address}
use gateway_poc.Tests.Through.{
  connected, steady-AddsEntries, taken, left_behind, ended, main-ended, anywhere,
}

abbrev writes : ℕ → Bytes → Writer.State steady → WriteResult × Writer.State steady
writes thread = Writer.write steady redis thread

abbrev check : Bytes → CheckResult
check = JsonChecker.check documents

-- The second session finds the stream full, and the request of the third is no POST.
abbrev three_visits : Serving check writes
three_visits = visit check writes 1 a_deletion (
    visit check writes 2 a_request
      (visit check writes 1 a_request (opening check writes connected)))

reached : Reach check writes (opening check writes connected) three_visits
reached =
    visit-Reach check writes _ 1 a_deletion
      (visit-Reach check writes _ 2 a_request (visit-Reach check writes _ 1 a_request here))

abbrev left_over : Option Bytes
left_over = three_visits.world.world

at_most_one : (w : Option Bytes) → length (map to_message (held w)) ≤ 1
at_most_one none = omega arith
at_most_one (some value) = omega arith

redis_requests-Delivered_example :
    (s' : LoopState (Producer.State steady)) × (main line back_toml names steady database 1 no_rows
        left_over given
      ≡ served_redis s')
    × All Filled (chunks s')
    × Sublist
        (accepted_bodies check writes three_visits.served connected)
        (payloads (concat (chunks s')))
redis_requests-Delivered_example =
    redis_requests-Delivered check steady held Left steady-IsStream steady-AddsEntries
      steady-IsHealthy redis connected three_visits reached left_over (Grows-refl held left_over)
      line back_toml names database 1 no_rows given (codes "gateway.toml") back redis parsed_given
      parse_config-back refl refl address (at_most_one left_over)

-- The first session alone.
abbrev one_visit : Serving check writes
one_visit = visit check writes 1 a_request (opening check writes connected)

one_visit-Reach : Reach check writes (opening check writes connected) one_visit
one_visit-Reach = visit-Reach check writes _ 1 a_request here

one_visit-world : one_visit.world.world ≡ some (codes "x")
unfolding serve_all
one_visit-world =
    ap (λ (s : Writer.State steady). s.world)
      (Reach-Serialized check writes connected one_visit-Reach).handled
    ∙ left_behind

in_accepted : Mem a_request.body (accepted_bodies check writes one_visit.served connected)
unfolding accepted_bodies
in_accepted = rw taken mem-cons_self

redis_requests-saved_example :
    ∥ OnDisk a_request.body (codes "out") (run_jobs anywhere (codes "out") (chunks ended) []) ∥₁
redis_requests-saved_example =
    redis_requests-saved check steady held Left steady-IsStream steady-AddsEntries steady-IsHealthy
      redis connected one_visit one_visit-Reach (some (codes "x"))
      ([], ap held (sym one_visit-world) ∙ sym (append-nil _)) line back_toml names database 1
      no_rows given (codes "gateway.toml") back redis parsed_given parse_config-back refl refl
      address (omega arith) ended main-ended tt ((omega arith, tt), tt) anywhere [] (chunks ended)
      (Perm.refl (chunks ended)) (λ c m. refl) a_request.body in_accepted
