-- ===== src/Gate/Handler/Runs.antt =====
-- The theorems on the sessions of a gate at concrete inputs.
use lodos.Base.{ℕ, ◌≡◌, refl, true, false, Option, none, some, List, [], ◌∷◌, if◌then◌else◌, same}
use lodos.Gate.Session.{Session, lookup, no_settings, set_key}
use lodos.Gate.Handler.{Agent, Storage, Gate, bind}
use lodos.Gate.Handler.Binding.{bound, bind-restored}
use lodos.Gate.Handler.Operations.{first_of}
use lodos.Io.Result.{Result, ok}
use lodos.Io.Reader.{Bytes}
use lodos.Utils.BeeMap.{BeeMap}
use lodos.Io.Writer.{Writer}
use lodos.Mqtt.Client.{new_client}

abbrev alice : Bytes
alice = b'a' ∷ []

abbrev room : Bytes
room = b'r' ∷ []

abbrev one : Bytes
one = b'1' ∷ []

-- A map from ids to agents as a list of pairs.
abbrev find : Bytes → List (Bytes × ℕ) → Option ℕ
find id [] = none
find id ((k, a) ∷ rest) = if same id k then some a else find id rest

abbrev without : Bytes → List (Bytes × ℕ) → List (Bytes × ℕ)
without id [] = []
without id ((k, a) ∷ rest) = if same id k then without id rest else (k, a) ∷ without id rest

abbrev pairs : BeeMap (List (Bytes × ℕ)) ℕ
pairs = record {
  lookup = find;
  insert = λ id a m. (id, a) ∷ without id m;
  delete = without;
  delete_all = λ m. [];
  items = λ m. m;
}

abbrev visitor : Session
visitor = record {
  ip = [];
  network = [];
  userid = [];
  sessionid = one;
  serverid = [];
  settings = some (set_key room (some one) no_settings);
  has_app = true;
}

abbrev regular : Session
regular = record visitor { settings = some (set_key alice (some room) no_settings) }

-- A store with the same data for every user.
abbrev same_data : Storage ℕ
same_data = record { storage = λ user s n. (none, n); query = λ user n. ok (some room) }

abbrev calm : Writer
calm = record { sent = []; buffered = []; broken = false; faults = [] }

abbrev member : Agent
member = record {
  session = some visitor;
  client = new_client 10 calm 60;
  is_closed = false;
  conn_closed = false;
  send_num = 0;
}

abbrev gate : Gate (List (Bytes × ℕ)) ℕ
gate = record { sessions = (one, 1) ∷ []; agents = λ a. member; stored = 0 }

abbrev resolve : Bytes → Result Session
resolve data' = ok regular

bind-restored_example :
    ((bind pairs (some same_data) resolve one alice gate).0
      ≡ ok (some (bound pairs same_data resolve alice visitor regular)))
    × (((bind pairs (some same_data) resolve one alice gate).1.agents 1).session
        ≡ some (bound pairs same_data resolve alice visitor regular))
    × (lookup room (bound pairs same_data resolve alice visitor regular).settings
        ≡ first_of (lookup room visitor.settings) (lookup room regular.settings))
bind-restored_example =
    bind-restored pairs same_data resolve one [] room b'a' gate 1 visitor regular room refl refl
      refl refl
