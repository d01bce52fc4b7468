-- ===== src/Gate/Login/Guests.antt =====
-- A client that logs in is a guest.
use lodos.Base.{
  ℕ, ◌+◌, ◌*◌, ◌<◌, ◌≡◌, refl, ap, ◌∙◌, true, false, Option, none, some, [], ◌∷◌, ◌++◌, ◌==◌,
  if_true, length, same, same_self, arith,
}
use mathlib.Core.Path.{ap₂}
use lodos.Gate.Session.{Session, no_settings}
use lodos.Gate.Handler.{Agent, Storage, Gate, put_agent}
use lodos.Gate.Handler.Operations.{connect-registered}
use lodos.Gate.Login.{Arrival, listens, agent_run, on_first, with_names, acknowledged, agent_of}
use lodos.Io.Result.{Result, ok}
use lodos.Io.Reader.{Bytes}
use lodos.Io.Writer.{Writer}
use lodos.Mqtt.Kinds
use lodos.Mqtt.Message.{Message, frame}
use lodos.Mqtt.Pack.{Connect, get_user_name, get_password, get_conn_ack_pack}
use lodos.Mqtt.Read.Connects.{connect_of, connect_body, IsValid, read_pack-connect}
use lodos.Mqtt.Read.Login.{Login}
use lodos.Mqtt.Length.{length_bytes}
use lodos.Mqtt.Write.{write_pack}
use lodos.Mqtt.Write.Packets.{write_pack-sent}
use lodos.Utils.BeeMap.{BeeMap, IsMap}

-- The session of a client that has just come: it has no user and no settings.
abbrev pub guest_of : Arrival → Session
guest_of arr = record {
  ip = arr.ip;
  network = arr.network;
  userid = [];
  sessionid = arr.sessionid;
  serverid = arr.server_id;
  settings = some no_settings;
  has_app = true;
}

-- The bytes of a CONNECT.
abbrev pub connect_frame : ℕ → ℕ → Login → Bytes
connect_frame dup qos l =
    (Kinds.connect * 16 + dup * 8 + qos * 2)
    ∷ (length_bytes 3 (length (connect_body l)) ++ connect_body l)

-- The bytes of a CONNACK that accepts.
abbrev pub accepted : Bytes
accepted = frame 0 0 (Message.connection 0 0)

-- The names of a CONNECT are there, or empty.
abbrev HasNames : Connect → Type 0
HasNames c = (x : Bytes) × (y : Bytes) × (get_user_name c ≡ some x) × (get_password c ≡ some y)

names_of :
    (w : Option (Bytes × Bytes)) (u p : Option Bytes) (l : Login)
    → HasNames (connect_of (record l { will = w; uname = u; upassword = p }))
unfolding get_user_name get_password
names_of none none none l = (_, _, refl, refl)
names_of none none (some p) l = (_, _, refl, refl)
names_of none (some u) none l = (_, _, refl, refl)
names_of none (some u) (some p) l = (_, _, refl, refl)
names_of (some w) none none l = (_, _, refl, refl)
names_of (some w) none (some p) l = (_, _, refl, refl)
names_of (some w) (some u) none l = (_, _, refl, refl)
names_of (some w) (some u) (some p) l = (_, _, refl, refl)

ack-sent :
    (w : Writer)
    → w.broken ≡ false
    → w.faults ≡ []
    → write_pack (get_conn_ack_pack 0) w
      ≡ (ok tt, record w { sent = w.sent ++ (w.buffered ++ accepted); buffered = [] })
unfolding get_conn_ack_pack
ack-sent w hb hf =
    write_pack-sent 0 0 0 0 (Message.connection 0 0) w (omega arith) (omega arith) tt hb hf

module _ {M S : Type 0} (bm : BeeMap M ℕ) (laws : IsMap bm) (storage : Option (Storage S))
    (parse : Bytes → Result Session) where
  -- A client whose first packet is a valid CONNECT is registered by the id of its session, which has no user,
  -- whatever user name and password it gave; it is sent the CONNACK, and the gate listens to what follows. (On a
  -- connection that does not fail.)
  pub agent_run-guest :
      (arr : Arrival) (a : ℕ) (w : Writer) (dup qos : ℕ) (l : Login) (rest : Bytes) (g : Gate M S)
      → dup < 2
      → qos < 4
      → IsValid l
      → w.broken ≡ false
      → w.faults ≡ []
      → (g' : Gate M S) × (agent_run bm storage parse arr a w (connect_frame dup qos l ++ rest) g
          ≡ listens g' rest)
        × (bm.lookup arr.sessionid g'.sessions ≡ some a)
        × ((g'.agents a).session ≡ some (guest_of arr))
        × ((g'.agents a).client.queue.w
            ≡ record w { sent = w.sent ++ (w.buffered ++ accepted); buffered = [] })
  unfolding agent_run
  agent_run-guest arr a w dup qos l rest g hd hq v hb hf =
      let (x, y, hx, hy) = names_of l.will l.uname l.upassword l in
      let info = connect_of l in
      let s = guest_of arr in
      let w' : Writer = record w { sent = w.sent ++ (w.buffered ++ accepted); buffered = [] } in
      let g1 = put_agent a (agent_of bm storage parse arr a w s info w' g) g in
      let here : g1.agents a ≡ agent_of bm storage parse arr a w s info w' g =
        if_true (a == a) (agent_of bm storage parse arr a w s info w' g) (g.agents a)
          (ground arith) in
      let registered =
        connect-registered bm storage parse a s g1 (ap (λ (t : Agent). t.session) here) in
      (
        record g1 { sessions = bm.insert arr.sessionid a g1.sessions },
        ap (λ r. on_first bm storage parse arr a w r g) (read_pack-connect dup qos l rest hd hq v)
            ∙ (ap₂ (λ n p. with_names bm storage parse arr a w n p info rest g) hx hy
                ∙ (ap (λ r. acknowledged bm storage parse arr a w r s info rest g)
                      (ack-sent w hb hf)
                    ∙ ap (λ h. listens h rest) registered)),
        laws.lookup-insert arr.sessionid arr.sessionid a g1.sessions
            ∙ if_true (same arr.sessionid arr.sessionid) (some a) _ (same_self arr.sessionid),
        ap (λ (t : Agent). t.session) here,
        ap (λ (t : Agent). t.client.queue.w) here,
      )
