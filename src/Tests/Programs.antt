-- ===== src/Tests/Programs.antt =====
-- The two programs from the command line to their ends.
use mathlib.Core.List.Perm
use mathlib.Core.List.{mem-cons_self}
use gateway_poc.Base.{
  ℕ, ◌≡◌, ◌↔◌, inl, inr, refl, Bool, true, false, Option, none, some, List, [], ◌∷◌, arith,
}
use gateway_poc.Base.Bytes.{Bytes, codes}
use gateway_poc.Common.Arguments.{
  ProgramOptions, goes_on, success, parse_arguments, parse_arguments-goes_on_iff,
}
use gateway_poc.Common.Config.{connection_string}
use gateway_poc.Common.ResolveHost.{Resolver}
use gateway_poc.Front.Main.{json_checker}
use gateway_poc.Front.Program as Front
use gateway_poc.Front.Program.Ends as FrontEnds
use gateway_poc.Front.Server.{Arrival, failed, connected, Server, start, stop}
use gateway_poc.Back.Config.{ConsumerConfig}
use gateway_poc.Back.Message.{Message}
use gateway_poc.Back.Consumer.{make_consumer, consume, file_content, run_jobs}
use gateway_poc.Back.Consumer.Saves.{read_file, path_of}
use gateway_poc.Back.RunLoop.{LoopState, round, run_loop}
use gateway_poc.Back.Program as Back
use gateway_poc.Back.Program.{fresh, chunks}
use gateway_poc.Back.Program.Ends as BackEnds
use gateway_poc.Back.Program.Saved.{chunks-saved}
use gateway_poc.Tests.Common.{toml, postgres, front, back_toml}
use gateway_poc.Tests.Delivery.{queue, first_message, second_message}
use gateway_poc.Tests.Database.{database, rows_in, database-IsDatabase, Rows}
use gateway_poc.Tests.Server.{server, entries_in, GoneFrom, server-IsStream}

-- The first argument is the path, and no arguments are an error.
abbrev pub line : ProgramOptions
line = record {
  Variables = Bytes;
  store = λ args. elim args [
    | [] ↦ inl (codes "the option '--config' is required")
    | path ∷ rest ↦ inr path
  ];
  count = λ vm name. 0;
  notify = λ vm. inr vm;
}

abbrev pub given : List Bytes
given = codes "gateway.toml" ∷ []

pub parsed_given : parse_arguments line given ≡ goes_on (codes "gateway.toml")
parsed_given =
    (parse_arguments-goes_on_iff line given (codes "gateway.toml")).1
      (codes "gateway.toml", refl, refl, refl)

abbrev pub names : Resolver
names = record {
  SockAddr = Bytes;
  getaddrinfo = λ host. some (some host ∷ []);
  inet_ntoa = λ address. address;
}

abbrev all_open : ℕ → Option Bytes
all_open port = none

abbrev a_serving : Front.Serving
a_serving = Front.through_postgres json_checker (connection_string postgres)

abbrev a_server : Server
a_server = stop (record (start (Front.new_server front.http)) { accepting = false; sessions = 1 })

abbrev met : List Arrival
met = connected (some (codes "10.0.0.7:4711")) ∷ failed ∷ []

main-served_iff_example :
    (Front.main line toml names all_open met given ≡ Front.served a_serving a_server)
    ↔ FrontEnds.Accepts line toml names all_open met (parse_arguments line given) a_serving a_server
main-served_iff_example =
    FrontEnds.main-served_iff line toml names all_open met given a_serving a_server

abbrev pub no_rows : Rows
no_rows = record { rows = []; pending = []; rows_fit = tt; pending_fit = tt }

main-success_iff_example :
    (Back.exit_of line back_toml names server database (
        Back.main line back_toml names server database 3 no_rows
          (record { up = false; full = true })
          given)
      ≡ some success)
    ↔ BackEnds.Accepts line back_toml names server database entries_in GoneFrom server-IsStream
        rows_in database-IsDatabase 3 no_rows
        (record { up = false; full = true })
        (parse_arguments line given)
main-success_iff_example =
    BackEnds.main-success_iff line back_toml names server database entries_in GoneFrom
      server-IsStream rows_in database-IsDatabase 3 no_rows (record { up = false; full = true })
      given

abbrev settings : ConsumerConfig
settings = record { chunk_size = 2; output_folder = codes "out" }

abbrev waiting : List Message
waiting = first_message ∷ second_message ∷ []

-- What two rounds leave.
abbrev emptied : LoopState (List Message)
emptied = record {
  storage = [];
  consumer = record { chunk_size = 2; output_folder = codes "out"; buffer = [] };
  jobs = waiting ∷ [];
  pauses = 1;
}

two_rounds : run_loop 2 (queue false) (fresh waiting settings) ≡ some emptied
unfolding run_loop round make_consumer consume
two_rounds = refl

abbrev anywhere : Bytes → Bool
anywhere path = true

chunks-saved_example :
    read_file (path_of (codes "out") waiting) (run_jobs anywhere (codes "out") (waiting ∷ []) [])
    ≡ some (file_content waiting)
chunks-saved_example =
    chunks-saved (queue false) settings (omega arith) 2 waiting emptied anywhere [] (waiting ∷ [])
      waiting two_rounds (omega arith, tt) ((omega arith, (omega arith, tt)), tt)
      (Perm.refl (waiting ∷ [])) (λ c m. refl) mem-cons_self
