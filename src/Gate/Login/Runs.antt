-- ===== src/Gate/Login/Runs.antt =====
-- A login at a concrete CONNECT.
use lodos.Base.{ℕ, ◌≡◌, refl, true, none, some, List, [], ◌∷◌, ◌++◌, arith}
use lodos.Gate.Handler.{Gate}
use lodos.Gate.Login.{Arrival, listens, agent_run}
use lodos.Gate.Login.Guests.{guest_of, connect_frame, accepted, agent_run-guest}
use lodos.Gate.Recover.Runs.{idle_writer, guest}
use lodos.Io.Result.{err, no_session}
use lodos.Io.Reader.{Bytes}
use lodos.Mqtt.Read.Login.{Login}
use lodos.Utils.BeeMap.Pairs.{pairs, pairs-IsMap}

abbrev from_home : Arrival
from_home = record {
  sessionid = b'1' ∷ [];
  network = b't' ∷ [];
  ip = b'h' ∷ [];
  server_id = b's' ∷ [];
  read_timeout = 10;
}

-- A CONNECT with a user name.
abbrev named : Login
named = record {
  protocol = b'M' ∷ b'Q' ∷ [];
  version = 4;
  keep_alive_timer = 60;
  clean_session = true;
  id = b'a' ∷ [];
  will_retain = true;
  will_qos = 0;
  will = none;
  uname = some (b'u' ∷ []);
  upassword = none;
}

abbrev new_gate : Gate (List (Bytes × ℕ)) (Unit {0})
new_gate = record {
  sessions = [];
  agents = λ a. record {
    session = none;
    client = guest.client;
    is_closed = true;
    conn_closed = true;
    send_num = 0;
  };
  stored = tt;
}

agent_run-guest_example :
    (g' : Gate (List (Bytes × ℕ)) (Unit {0})) × (agent_run pairs none
        (λ b. err no_session)
        from_home
        3
        idle_writer
        (connect_frame 0 0 named ++ (5 ∷ []))
        new_gate
      ≡ listens g' (5 ∷ []))
    × (pairs.lookup from_home.sessionid g'.sessions ≡ some 3)
    × ((g'.agents 3).session ≡ some (guest_of from_home))
    × ((g'.agents 3).client.queue.w ≡ record idle_writer { sent = accepted; buffered = [] })
agent_run-guest_example =
    agent_run-guest pairs pairs-IsMap none (λ b. err no_session) from_home 3 idle_writer 0 0 named
      (5 ∷ []) new_gate (omega arith) (omega arith) (omega arith) refl refl
