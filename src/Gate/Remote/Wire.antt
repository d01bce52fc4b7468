-- ===== src/Gate/Remote/Wire.antt =====
-- rpc/base: a call between two servers on its way, which may be late: rpc_server.go refuses a request whose time is past, and
-- the client gives up at that time. What the formats of a session and of its settings keep is a parameter.
use lodos.Base.{Option, map}
use lodos.Gate.Remote.{
  Param, settings, Value, a_session, RemoteError, timed_out, Outcome, fails, gives, Services,
}
use lodos.Gate.Session.{Session, Settings}

-- What arrives of a session (protobuf) and of settings (JSON).
pub record Wire : Type 0 where
  pub session : Session → Session
  pub settings : Option Settings → Option Settings

-- A call and its answer are in time; or the function is called, and its answer is late; or the request is late.
pub data Fate : Type 0 where
  in_time answer_late request_late : Fate

abbrev pub arrived_param : Wire → Param → Param
arrived_param wire (settings m) = settings (wire.settings m)
arrived_param wire p = p

abbrev pub arrived_value : Wire → Value → Value
arrived_value wire (a_session s) = a_session (wire.session s)
arrived_value wire v = v

abbrev pub arrived : Wire → Outcome → Outcome
arrived wire (gives vs) = gives (map (arrived_value wire) vs)
arrived wire (fails e) = fails e

module _ {W : Type 0} where
  abbrev pub fated : Fate → Wire → Outcome × W → W → Outcome × W
  fated in_time wire (o, w') w = (arrived wire o, w')
  fated answer_late wire (o, w') w = (fails timed_out, w')
  fated request_late wire r w = (fails timed_out, w)

  -- Nobody waits for the answer.
  abbrev pub fated_nr : Fate → Option RemoteError × W → W → Option RemoteError × W
  fated_nr request_late (e, w') w = (e, w)
  fated_nr fate r w = r

  -- Servers that are called over the wire.
  abbrev pub carried : Fate → Wire → Services W → Services W
  carried fate wire services = record {
    found = services.found;
    call = λ id f ps w. fated fate wire (services.call id f (map (arrived_param wire) ps) w) w;
    call_nr = λ id f ps w. fated_nr fate (services.call_nr id f (map (arrived_param wire) ps) w) w;
  }
