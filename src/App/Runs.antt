-- ===== src/App/Runs.antt =====
-- The theorems on the modules of an application at concrete inputs.
use lodos.Base.{◌≡◌, refl, true, false, Option, none, [], ◌∷◌, length}
use lodos.App.{ModuleSettings, Modules, ModuleSession, Route, default_route, get_route_server}
use lodos.App.Manager.{ModuleManager, check_module_settings}
use lodos.App.Manager.Checks.{check_module_settings-all_new}
use lodos.App.Routing.{Finds, get_route_server-Finds}
use lodos.Io.Result.{ok}
use lodos.Io.Reader.{Bytes}

abbrev chat : Bytes
chat = b'c' ∷ []

abbrev gate : Bytes
gate = b'g' ∷ []

abbrev here : Bytes
here = b'h' ∷ []

abbrev module_of : Bytes → Bytes → ModuleSettings
module_of id process = record {
  id = id;
  process_id = process;
  rabbitmq = true;
  redis_uri = [];
  has_redis = false;
}

-- Two modules for chat in two processes, and one gate.
abbrev two_types : Modules
two_types =
    (chat, module_of (b'1' ∷ []) here ∷ module_of (b'2' ∷ []) gate ∷ [])
    ∷ (gate, module_of (b'3' ∷ []) here ∷ [])
    ∷ []

abbrev manager : ModuleManager
manager = record { mods = gate ∷ chat ∷ []; settings = λ i. none; run_mods = [] }

check_module_settings-all_new_example : check_module_settings two_types ≡ ok tt
check_module_settings-all_new_example = check_module_settings-all_new two_types

abbrev chat_server : ModuleSession
chat_server = record {
  id = b'1' ∷ [];
  m_type = chat;
  has_local = true;
  has_remote = false;
  has_redis = false;
}

abbrev no_routes : Bytes → Option Route
no_routes typ = none

get_route_server-Finds_example :
    Finds
      (chat_server ∷ [])
      chat
      (get_route_server [] no_routes (default_route length (chat_server ∷ [])) chat here)
get_route_server-Finds_example =
    get_route_server-Finds length (chat_server ∷ []) [] no_routes chat chat here refl refl
