-- ===== src/Tests/Kept.antt =====
-- The back on a server that breaks connections and refuses commands.
use gateway_poc.Base.{refl, ◌⊎◌, inr, true, false}
use gateway_poc.Base.Bytes.{codes}
use gateway_poc.Back.Program.{main}
use gateway_poc.Back.Program.Kept.{KeepsStream, KeepsTable, main-Keeps}
use gateway_poc.Tests.Common.{redis, back, back_toml, parse_config-back}
use gateway_poc.Tests.Database.{database, rows_in, database-IsDatabase}
use gateway_poc.Tests.Programs.{line, given, parsed_given, names, no_rows}
use gateway_poc.Tests.Server.{server, entries_in, GoneFrom, server-IsStream}
use gateway_poc.Tests.Steady.{address}

main-Keeps_example :
    let ending =
      main line back_toml names server database 3 no_rows
        (record { up = false; full = true })
        given in
    KeepsTable line back_toml names server database entries_in GoneFrom server-IsStream rows_in
      database-IsDatabase 3 no_rows
      (record { up = false; full = true })
      ending
    ⊎ KeepsStream line back_toml names server database entries_in GoneFrom server-IsStream rows_in
        database-IsDatabase 3 no_rows
        (record { up = false; full = true })
        ending
main-Keeps_example =
    main-Keeps line back_toml names server database entries_in GoneFrom server-IsStream rows_in
      database-IsDatabase 3 no_rows (record { up = false; full = true }) given
      (codes "gateway.toml") back parsed_given parse_config-back (inr (redis, refl, refl, address))
