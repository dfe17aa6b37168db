-- ===== src/Bindings/Chat/Settings.antt =====
-- The bindings of src/lua_chat.cpp that answer from the settings.
use fserv.Prelude.{Option, none, some, List, [], ◌∷◌}
use fserv.Prelude.Bytes.{Bytes, c_str}
use fserv.Bindings.{
  LuaApi, nil, boolean, number, string, item, array, Pushed, Binding, ◌>>=◌, ◌>>◌, pure, answer,
  check_any, check_string,
}
use fserv.Bindings.Channels.Members.{strings}
use fserv.StartupConfig.{Settings, get_bool, get_double, get_string, get_string_list}

-- The list as a table, or nil.
abbrev list_pushed : Option (List Bytes) → List Pushed
list_pushed none = item nil ∷ []
list_pushed (some values) = array (strings values) ∷ []

module _ {V : Type 0} (lua : LuaApi V) (settings : Settings) where
  unfoldable pub get_config_bool : Binding V
  get_config_bool args = do
    check_any lua args 1
    key ← check_string lua args 1
    answer (boolean (get_bool key settings))

  unfoldable pub get_config_double : Binding V
  get_config_double args = do
    check_any lua args 1
    key ← check_string lua args 1
    answer (number (get_double key settings))

  unfoldable pub get_config_string : Binding V
  get_config_string args = do
    check_any lua args 1
    key ← check_string lua args 1
    answer (string (c_str (get_string key settings)))

  unfoldable pub get_config_string_list : Binding V
  get_config_string_list args = do
    check_any lua args 1
    key ← check_string lua args 1
    pure (list_pushed (get_string_list key settings))
