-- ===== src/Mqtt/Client.antt =====
-- gate/base/mqtt/mqtt_client_server.go: what a connection does with the packets that it reads.
pub mod Ids
pub mod Sends
pub mod Typed
pub mod Replies
use lodos.Base.{
  ℕ, zero, suc, ◌+◌, Bool, true, false, Option, none, some, List, [], ◌∷◌, ◌++◌, ◌==◌,
  if◌then◌else◌,
}
use lodos.Io.Result.{
  Io, Error, Result, ok, err, panic, stuck, closed_connection, not_connect_package, pure, crash,
  deref, ◌>>=◌, ◌>>◌,
}
use lodos.Io.Reader.{Bytes}
use lodos.Io.Writer.{Writer}
use lodos.Mqtt.Kinds
use lodos.Mqtt.Pack.{
  Pack, Variable, Topics, Connect, nil, connect, publish, puback, subscribe, unsubscribe,
  get_conn_ack_pack, get_pub_pack, get_pub_ack_pack, get_pub_rec_pack, get_pub_rel_pack,
  get_pub_comp_pack, get_sub_ack_pack, get_unsub_ack_pack, get_ping_resp,
}
use lodos.Mqtt.Queue.{PackQueue, queue_write_pack, set_alive, new_pack_queue}

-- `recovered` holds the packets handed to `OnRecover` of the layer above, oldest first. What that
-- layer does with them is not part of this package.
pub record Client : Type 0 where
  pub queue : PackQueue
  pub recovered : List Pack
  pub is_send_close : Bool
  pub is_let_close : Bool
  pub is_stop : Bool
  pub curr_id : ℕ

unfoldable pub new_client : ℕ → Writer → ℕ → Client
new_client read_timeout w alive = record {
  queue = new_pack_queue read_timeout w alive;
  recovered = [];
  is_send_close = false;
  is_let_close = false;
  is_stop = false;
  curr_id = 0;
}

pub record PackAndErr : Type 0 where
  pub pack : Pack
  pub err : Option Error

-- A Go error that is a value: `none` is nil.
abbrev pub C : Type 0
C = Io Client (Option Error)

write : Pack → C
write pack c =
    let (e, queue') = queue_write_pack pack c.queue in (ok e, record c { queue = queue' })

on_recover : Pack → Io Client (Unit {0})
on_recover pack c = (ok tt, record c { recovered = c.recovered ++ (pack ∷ []) })

alive_from : Connect → Io Client (Unit {0})
alive_from info c = (ok tt, record c { queue = set_alive info.keep_alive_timer c.queue })

on_connect : Variable → C
on_connect (connect info) = do alive_from info; write (get_conn_ack_pack 0)
on_connect _ = pure (some not_connect_package)

on_publish : Pack → Variable → C
on_publish pack (publish pub') = do
  e ←
      (if pack.qos_level == 1
        then write (get_pub_ack_pack pub'.mid)
        else if pack.qos_level == 2
        then write (get_pub_rec_pack pub'.mid)
        else pure none)
  on_recover pack
  pure e
on_publish pack _ = crash

on_pub_rec : Variable → C
on_pub_rec (puback ack) = write (get_pub_rel_pack ack.mid)
on_pub_rec _ = crash

on_pub_rel : Variable → C
on_pub_rel (puback ack) = write (get_pub_comp_pack ack.mid)
on_pub_rel _ = crash

-- The loop over the topics, whose log takes `*top.GetName()`; the error of the last answer counts.
answer_topics : ℕ → List Topics → Option Error → C
answer_topics mid [] e = pure e
answer_topics mid (top ∷ tops) e = do
  _ ← deref top.name
  e' ← if top.qos == 2 then write (get_sub_ack_pack mid) else pure e
  answer_topics mid tops e'

on_subscribe : Pack → Variable → C
on_subscribe pack (subscribe sub) = do
  e ← answer_topics sub.mid sub.topics none
  on_recover pack
  pure e
on_subscribe pack _ = crash

on_unsubscribe : Pack → Variable → C
on_unsubscribe pack (unsubscribe sub) = do
  e ← write (get_unsub_ack_pack sub.mid)
  on_recover pack
  pure e
on_unsubscribe pack _ = crash

on_ping : Pack → C
on_ping pack = do e ← write (get_ping_resp 1 pack.dup_flag); on_recover pack; pure e

on_pack : Pack → C
on_pack pack =
    let typ = pack.msg_type in
    if typ == Kinds.connect
    then on_connect pack.variable
    else if typ == Kinds.publish
    then on_publish pack pack.variable
    else if typ == Kinds.puback
    then pure none
    else if typ == Kinds.pubrec
    then on_pub_rec pack.variable
    else if typ == Kinds.pubrel
    then on_pub_rel pack.variable
    else if typ == Kinds.pubcomp
    then pure none
    else if typ == Kinds.subscribe
    then on_subscribe pack pack.variable
    else if typ == Kinds.unsubscribe
    then on_unsubscribe pack pack.variable
    else if typ == Kinds.pingreq
    then on_ping pack
    else pure none

abbrev checked : Option Error → Pack → C
checked (some e) pack = pure (some e)
checked none pack = on_pack pack

pub wait_pack : PackAndErr → C
unfolding on_pack
wait_pack p = checked p.err p.pack

-- `math.MaxUint16`
abbrev max_uint16 : ℕ
max_uint16 = 65535

next_id : ℕ → ℕ
next_id curr_id = if curr_id == max_uint16 then 1 else curr_id + 1

pub get_online_msg_id : Client → ℕ × Client
unfolding next_id
get_online_msg_id c = (next_id c.curr_id, record c { curr_id = next_id c.curr_id })

pub wait_quit : Client → Client
wait_quit c = record c { is_send_close = true }

push_msg : Pack → C
unfolding write
push_msg pack = write pack

-- WriteMsg: a PUBLISH at QoS 0 under a fresh id.
pub write_msg : Bytes → Bytes → C
unfolding push_msg
write_msg topic body c =
    let (id, c') = get_online_msg_id c in
    if c.is_stop
    then (ok (some closed_connection), c)
    else push_msg (get_pub_pack 0 0 id (some topic) body) c'

-- What the loop of Listen_loop receives: a packet or an error of the reader, or the notice to quit.
pub data Input : Type 0 where
  packet : PackAndErr → Input
  quit : Input

abbrev stop : Client → Client
stop c = record c { is_stop = true }

-- The loop ends at an error, at a notice, or at the end of the channel, and then the connection is
-- stopped. A panic leaves the function at once.
abbrev go_on : Result (Option Error) × Client → (Client → Client) → Client
go_on (ok none, c) more = more c
go_on (ok (some e), c) more = stop c
go_on (err e, c) more = stop c
go_on (panic, c) more = c
go_on (stuck, c) more = c

pub listen_loop : List Input → Client → Client
listen_loop [] c = stop c
listen_loop (packet p ∷ ps) c = go_on (wait_pack p c) (listen_loop ps)
listen_loop (quit ∷ ps) c = stop (wait_quit c)
