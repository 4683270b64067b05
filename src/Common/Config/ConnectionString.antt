-- ===== src/Common/Config/ConnectionString.antt =====
-- The connection string of Postgres, in which no value is quoted.
use mathlib.Core.List.{append_assoc}
use gateway_poc.Base.{◌≡◌, ◌++◌}
use gateway_poc.Base.Bytes.{Bytes, codes}
use gateway_poc.Common.Config.{PostgresConfig, connection_string}

-- A password that holds ` password=` is taken for another user's name and a shorter password: the
-- two configurations have one connection string.
pub connection_string_ambiguous :
    (c : PostgresConfig) (user first second : Bytes)
    → connection_string (record c { user = user; password = first ++ codes " password=" ++ second })
      ≡ connection_string
          (record c { user = user ++ codes " password=" ++ first; password = second })
unfolding connection_string
connection_string_ambiguous c user first second = simp append_assoc
