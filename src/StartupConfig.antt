-- ===== src/StartupConfig.antt =====
-- The settings of src/startup_config.cpp, once the configuration script has filled them, and how
-- they are asked for. What is missing is logged, which ends only a debug build.
use fserv.Prelude.{Bool, false, Option, List, []}
use fserv.Prelude.Bytes.{Bytes, c_str}
use fserv.Prelude.Int.{pos}
use fserv.Prelude.Maps.{Map, bytes_eq, lookup}
use fserv.Json.{given}
use fserv.Connection.{Ticks}

-- A `double` is a number of millionths.
pub record Settings : Type 0 where
  pub bool_map : Map Bytes Bool
  pub double_map : Map Bytes Ticks
  pub string_map : Map Bytes Bytes
  pub string_list_map : Map Bytes (List Bytes)

unfoldable pub get_bool : Bytes → Settings → Bool
get_bool name settings = given false (lookup (c_str name) settings.bool_map)

unfoldable pub get_double : Bytes → Settings → Ticks
get_double name settings = given (pos 0) (lookup (c_str name) settings.double_map)

unfoldable pub get_string : Bytes → Settings → Bytes
get_string name settings = given [] (lookup (c_str name) settings.string_map)

-- `none` stands for the answer false.
unfoldable pub get_string_list : Bytes → Settings → Option (List Bytes)
get_string_list name settings = lookup (c_str name) settings.string_list_map
