-- ===== src/Gate/Remote/Runs.antt =====
-- The calls of a session to its gate on concrete inputs.
use lodos.Base.{ℕ, ◌+◌, ◌≡◌, refl, true, false, none, some, List, [], ◌∷◌}
use lodos.Gate.Session.{Session, no_settings, set_key}
use lodos.Gate.Handler
use lodos.Gate.Handler.{Agent, Storage, Gate}
use lodos.Gate.Remote.{Services, not_adapted, close}
use lodos.Gate.Remote.Mirrors.{Mirrors, remote_gate}
use lodos.Gate.Remote.Wire.{Wire, in_time}
use lodos.Gate.Remote.Served.{gate_services}
use lodos.Gate.Remote.Unreached.{close-not_adapted}
use lodos.Io.Result.{Result, ok}
use lodos.Io.Reader.{Bytes}
use lodos.Io.Writer.{Writer}
use lodos.Mqtt.Client.{new_client}
use lodos.Utils.BeeMap.Pairs.{pairs}

abbrev key : Bytes
key = b'k' ∷ []

abbrev west : Bytes
west = b'w' ∷ []

abbrev member : Session
member = record {
  ip = b'4' ∷ [];
  network = b'n' ∷ [];
  userid = [];
  sessionid = b'1' ∷ [];
  serverid = west;
  settings = some (set_key key (some key) no_settings);
  has_app = true;
}

-- A copy of the session that another server holds, from before the client had an address.
abbrev copy : Session
copy = record member { ip = []; settings = none }

abbrev calm : Writer
calm = record { sent = []; buffered = []; broken = false; faults = [] }

abbrev agent : Agent
agent = record {
  session = some member;
  client = new_client 10 calm 60;
  is_closed = false;
  conn_closed = false;
  send_num = 0;
}

abbrev gate : Gate (List (Bytes × ℕ)) ℕ
gate = record { sessions = (b'1' ∷ [], 3) ∷ []; agents = λ a. agent; stored = 0 }

abbrev store : Storage ℕ
store = record { storage = λ user s n. (none, n + 1); query = λ user n. ok none }

abbrev parse : Bytes → Result Session
parse data' = ok member

-- A wire that keeps everything.
abbrev wire : Wire
wire = record { session = λ s. s; settings = λ m. m }

abbrev remote : Services (Gate (List (Bytes × ℕ)) ℕ)
remote = remote_gate pairs (some store) parse west wire in_time

close-not_adapted_example :
    close (gate_services pairs (some store) parse west) copy gate ≡ (some not_adapted, gate)
close-not_adapted_example = close-not_adapted pairs (some store) parse west copy gate refl refl
