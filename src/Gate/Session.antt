-- ===== src/Gate/Session.antt =====
-- gate/base/session.go: the data of a session, less the calls of it that go to another server.
use lodos.Base.{Bool, Option, none, some, [], if◌then◌else◌, same}
use lodos.Io.Reader.{Bytes}

-- A map[string]string that is not nil.
abbrev pub Settings : Type 0
Settings = Bytes → Option Bytes

abbrev pub no_settings : Settings
no_settings key = none

abbrev pub set_key : Bytes → Option Bytes → Settings → Settings
set_key key value settings k = if same k key then value else settings k

-- `has_app` says that the application of the session is not nil; `settings` is none for a nil map.
pub record Session : Type 0 where
  pub ip : Bytes
  pub network : Bytes
  pub userid : Bytes
  pub sessionid : Bytes
  pub serverid : Bytes
  pub settings : Option Settings
  pub has_app : Bool

abbrev pub set_userid : Bytes → Session → Session
set_userid userid s = record s { userid = userid }

abbrev pub set_settings : Option Settings → Session → Session
set_settings settings s = record s { settings = settings }

-- `if Settings == nil { Settings = map[string]string{} }`
abbrev pub made : Option Settings → Settings
made none = no_settings
made (some settings) = settings

-- Set, whose error the gate drops: without an application nothing changes.
abbrev pub set : Bytes → Bytes → Session → Session
set key value s =
    if s.has_app then set_settings (some (set_key key (some value) (made s.settings))) s else s

-- Remove, in the same way.
abbrev pub remove : Bytes → Session → Session
remove key s = if s.has_app then set_settings (some (set_key key none (made s.settings))) s else s

-- The setting, where a nil map has none. Get gives "" for none.
abbrev pub lookup : Bytes → Option Settings → Option Bytes
lookup key none = none
lookup key (some settings) = settings key

abbrev text : Option Bytes → Bytes
text none = []
text (some value) = value

unfoldable pub get : Bytes → Session → Bytes
get key s = text (lookup key s.settings)
