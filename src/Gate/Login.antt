-- ===== src/Gate/Login.antt =====
-- gate/base/mqtt_agent.go: Run, which logs a client in, and NewSessionByMap of gate/base/session.go.
pub mod Guests
mod Runs
use lodos.Base.{ℕ, Bool, true, false, Option, none, some, List, [], ◌∷◌, ◌==◌, if◌then◌else◌}
use lodos.Gate.Session.{Session, Settings, set_userid, set_settings, no_settings}
use lodos.Gate.Handler.{Agent, Storage, Gate, put_agent, connect}
use lodos.Io.Result.{Error, Result, ok, err, panic, stuck}
use lodos.Io.Reader.{Bytes}
use lodos.Io.Writer.{Writer}
use lodos.Mqtt.Client.{Client, new_client}
use lodos.Mqtt.Kinds
use lodos.Mqtt.Pack
use lodos.Mqtt.Pack.{Pack, Variable, Connect, get_user_name, get_password, get_conn_ack_pack}
use lodos.Mqtt.Read.{read_pack}
use lodos.Mqtt.Write.{write_pack}
use lodos.Utils.BeeMap.{BeeMap}

-- A value of a map[string]interface{}, as updateMap tells it apart.
pub data FieldValue : Type 0 where
  a_string : Bytes → FieldValue
  strings : Option Settings → FieldValue
  another : FieldValue

-- The keys of the map that updateMap reads.
pub record SessionMap : Type 0 where
  pub userid : Option FieldValue
  pub ip : Option FieldValue
  pub network : Option FieldValue
  pub sessionid : Option FieldValue
  pub serverid : Option FieldValue
  pub settings : Option FieldValue

-- The errors of updateMap, the last of which counts.
pub data FieldError : Type 0 where
  bad_userid bad_ip bad_network bad_sessionid bad_serverid bad_settings : FieldError

abbrev Updated : Type 0
Updated = Option FieldError × Session

abbrev put_string : FieldError → (Bytes → Session → Session) → Option FieldValue → Updated → Updated
put_string e f none u = u
put_string e f (some (a_string b)) (x, s) = (x, f b s)
put_string e f (some v) (x, s) = (some e, s)

abbrev put_settings : Option FieldValue → Updated → Updated
put_settings none u = u
put_settings (some (strings m)) (x, s) = (x, set_settings m s)
put_settings (some v) (x, s) = (some bad_settings, s)

-- updateMap
abbrev pub update_map : SessionMap → Session → Updated
update_map d s = put_settings d.settings (
    put_string bad_serverid (λ b t. record t { serverid = b }) d.serverid
      (put_string bad_sessionid (λ b t. record t { sessionid = b }) d.sessionid
        (put_string bad_network (λ b t. record t { network = b }) d.network
          (put_string bad_ip (λ b t. record t { ip = b }) d.ip
            (put_string bad_userid set_userid d.userid (none, s))))))

-- `new(Sessionpb)`
abbrev new_session : Session
new_session = record {
  ip = [];
  network = [];
  userid = [];
  sessionid = [];
  serverid = [];
  settings = none;
  has_app = true;
}

abbrev unless_error : Updated → Option Session
unless_error (none, s) = some s
unless_error (some e, s) = none

-- NewSessionByMap
abbrev pub new_session_by_map : SessionMap → Option Session
new_session_by_map d = unless_error (update_map d new_session)

-- What Run learns of the connection and of the configuration.
pub record Arrival : Type 0 where
  pub sessionid : Bytes
  pub network : Bytes
  pub ip : Bytes
  pub server_id : Bytes
  pub read_timeout : ℕ

-- The map that Run makes; what it puts under `Carrier`, the user name and the password, updateMap does not read.
abbrev pub session_map : Arrival → SessionMap
session_map arr = record {
  userid = none;
  ip = some (a_string arr.ip);
  network = some (a_string arr.network);
  sessionid = some (a_string arr.sessionid);
  serverid = some (a_string arr.server_id);
  settings = some (strings (some no_settings));
}

-- Run closes the connection, or has logged the client in and listens to the rest of what comes.
pub data Run (M S : Type 0) : Type 0 where
  closes : Gate M S → Run M S
  listens : Gate M S → Bytes → Run M S

module _ {M S : Type 0} (bm : BeeMap M ℕ) (storage : Option (Storage S))
    (parse : Bytes → Result Session) (arr : Arrival) (a : ℕ) (w : Writer) where
  abbrev close_conn : Gate M S → Gate M S
  close_conn g = put_agent a (record (g.agents a) { conn_closed = true }) g

  -- The agent's client writes to the same bufio.Writer as Run.
  abbrev agent_of : Session → Connect → Writer → Gate M S → Agent
  agent_of s info w' g = record (g.agents a) {
    session = some s;
    client =
        let c = new_client arr.read_timeout w info.keep_alive_timer in
        record c { queue = record c.queue { w = w' } };
  }

  -- GetAgentLearner().Connect, then the answer to the CONNECT.
  abbrev acknowledged : Result (Unit {0}) × Writer → Session → Connect → Bytes → Gate M S → Run M S
  acknowledged (ok u, w') s info rest g =
      listens (connect bm storage parse a (put_agent a (agent_of s info w' g) g)) rest
  acknowledged (r, w') s info rest g =
      closes (close_conn (connect bm storage parse a (put_agent a (agent_of s info w' g) g)))

  abbrev with_session : Option Session → Connect → Bytes → Gate M S → Run M S
  with_session none info rest g = closes (close_conn g)
  with_session (some s) info rest g =
      acknowledged (write_pack (get_conn_ack_pack 0) w) s info rest g

  -- `*info.GetUserName()` and `*info.GetPassword()` panic at nil, which Run recovers from.
  abbrev with_names : Option Bytes → Option Bytes → Connect → Bytes → Gate M S → Run M S
  with_names (some name) (some password) info rest g =
      with_session (new_session_by_map (session_map arr)) info rest g
  with_names _ _ info rest g = closes (close_conn g)

  abbrev on_variable : Variable → Bytes → Gate M S → Run M S
  on_variable (Variable.connect info) rest g =
      with_names (get_user_name info) (get_password info) info rest g
  on_variable _ rest g = closes (close_conn g)

  abbrev on_first : Result Pack × Bytes → Gate M S → Run M S
  on_first (ok pack, rest) g =
      if pack.msg_type == Kinds.connect
      then on_variable pack.variable rest g
      else closes (close_conn g)
  on_first (r, rest) g = closes (close_conn g)

  -- Run, up to Listen_loop, on what the connection sends.
  pub agent_run : Bytes → Gate M S → Run M S
  agent_run stream g = on_first (read_pack stream) g
