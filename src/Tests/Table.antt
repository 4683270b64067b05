-- ===== src/Tests/Table.antt =====
-- The back on a database of Postgres with two rows.
use gateway_poc.Base.{none, [], ◌∷◌, refl, arith}
use gateway_poc.Base.Bytes.{codes}
use gateway_poc.Back.Program.{main}
use gateway_poc.Back.Program.PostgresDrained.{DeliversRows, main_postgres-Delivered}
use gateway_poc.Tests.Common.{postgres, rows_toml, rows_back, parse_config-rows_back}
use gateway_poc.Tests.Database.{Rows, database, rows_in, database-IsDatabase, database-IsAlive}
use gateway_poc.Tests.Delivery.{first_message, second_message}
use gateway_poc.Tests.Programs.{line, given, parsed_given, names}
use gateway_poc.Tests.Steady.{steady}

abbrev two_rows : Rows
two_rows = record {
  rows = first_message ∷ second_message ∷ [];
  pending = [];
  rows_fit = (omega arith, (omega arith, tt));
  pending_fit = tt;
}

main_postgres-Delivered_example :
    DeliversRows line rows_toml names steady database rows_in database-IsDatabase database-IsAlive 2
      two_rows none
      (main line rows_toml names steady database 2 two_rows none given)
main_postgres-Delivered_example =
    main_postgres-Delivered line rows_toml names steady database rows_in database-IsDatabase
      database-IsAlive 2 two_rows none given (codes "gateway.toml") rows_back postgres parsed_given
      parse_config-rows_back refl (omega arith)
