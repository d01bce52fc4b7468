-- ===== src/Mqtt/Queue.antt =====
-- gate/base/mqtt/pack_queue.go: the queue of packets to write, and the two loops of a connection.
pub mod Jobs
pub mod Order
pub mod AfterError
pub mod Calm
pub mod Drains
pub mod ReadLoop
mod Runs
use lodos.Base.{
  ℕ, zero, suc, ◌+◌, ◌*◌, ◌/◌, Bool, true, false, Option, none, some, List, [], ◌∷◌, ◌++◌, ltb,
  ◌==◌, if◌then◌else◌, length,
}
use lodos.Io.Result.{Io, Error, Result, ok, err, panic, stuck, pure, deref, ◌>>=◌}
use lodos.Io.Reader.{Bytes}
use lodos.Io.Writer.{Writer, flush}
use lodos.Mqtt.Pack.{Pack}
use lodos.Mqtt.Read.{read_pack}
use lodos.Mqtt.Write.{W, write_pack, delay_write_pack}

abbrev pub no_delay : ℕ
no_delay = 0

abbrev pub delay : ℕ
delay = 1

abbrev pub flush_only : ℕ
flush_only = 2

-- `pakcAndType`; the pack is nil for a flush.
pub record PackAndType : Type 0 where
  pub pack : Option Pack
  pub typ : ℕ

-- `write_chan` holds what is sent and not yet received; a full channel makes its senders wait, which
-- does not change what they send. `finished` says that writeLoop has left its loop, `crashed` that it
-- panicked. The deadlines of the connection are not modelled.
pub record PackQueue : Type 0 where
  pub read_timeout : ℕ
  pub alive : ℕ
  pub write_error : Option Error
  pub error_chan : List Error
  pub notice_fin : ℕ
  pub write_chan : List PackAndType
  pub w : Writer
  pub finished : Bool
  pub crashed : Bool

-- `int(float32(alive)*1.5 + 1)` after the default. Below 2 ^ 22 the product and the sum are exact in a
-- float32, and the conversion drops a half.
unfoldable pub alive_seconds : ℕ → ℕ → ℕ
alive_seconds read_timeout alive = (if ltb alive 1 then read_timeout else alive) * 3 / 2 + 1

unfoldable pub new_pack_queue : ℕ → Writer → ℕ → PackQueue
unfolding alive_seconds
new_pack_queue read_timeout w alive = record {
  read_timeout = read_timeout;
  alive = alive_seconds read_timeout alive;
  write_error = none;
  error_chan = [];
  notice_fin = 0;
  write_chan = [];
  w = w;
  finished = false;
  crashed = false;
}

unfoldable pub set_alive : ℕ → PackQueue → PackQueue
unfolding alive_seconds
set_alive alive queue = record queue { alive = alive_seconds queue.read_timeout alive }

-- The common part of WritePack, WriteDelayPack and Flush: the last error of the loop, or the send.
abbrev pub send : PackAndType → Option Error → PackQueue → Option Error × PackQueue
send pt (some e) queue = (some e, queue)
send pt none queue = (none, record queue { write_chan = queue.write_chan ++ (pt ∷ []) })

unfoldable pub queue_write_pack : Pack → PackQueue → Option Error × PackQueue
queue_write_pack pack queue =
    send (record { pack = some pack; typ = no_delay }) queue.write_error queue

unfoldable pub queue_write_delay_pack : Pack → PackQueue → Option Error × PackQueue
queue_write_delay_pack pack queue =
    send (record { pack = some pack; typ = delay }) queue.write_error queue

unfoldable pub queue_flush : PackQueue → Option Error × PackQueue
queue_flush queue = send (record { pack = none; typ = flush_only }) queue.write_error queue

-- The `switch` of writeLoop.
pub write_item : PackAndType → W (Unit {0})
write_item pt =
    if pt.typ == no_delay
    then (do pack ← deref pt.pack; write_pack pack)
    else if pt.typ == delay
    then (do pack ← deref pt.pack; delay_write_pack pack)
    else if pt.typ == flush_only
    then flush
    else pure tt

-- What a round of writeLoop does with the outcome.
abbrev settle : Result (Unit {0}) × Writer → PackQueue → PackQueue
settle (ok _, w') queue = record queue { w = w' }
settle (err e, w') queue = record queue {
  w = w';
  write_error = some e;
  error_chan = queue.error_chan ++ (e ∷ []);
  notice_fin = suc queue.notice_fin;
  finished = true;
}
settle (panic, w') queue = record queue { w = w'; crashed = true; finished = true }
settle (stuck, w') queue = record queue { w = w'; crashed = true; finished = true }

abbrev receive : List PackAndType → PackQueue → PackQueue
receive [] queue = queue
receive (pt ∷ rest) queue = settle (write_item pt queue.w) (record queue { write_chan = rest })

-- One round: a loop that has ended, or that has nothing to receive, does nothing.
pub write_round : PackQueue → PackQueue
write_round queue = if queue.finished then queue else receive queue.write_chan queue

-- What happens to the queue: a caller's request, or a round of the loop.
pub data Event : Type 0 where
  write : Pack → Event
  write_delayed : Pack → Event
  flushes : Event
  round : Event

pub step : Event → PackQueue → PackQueue
unfolding queue_write_pack queue_write_delay_pack queue_flush write_round
step (write pack) queue = (queue_write_pack pack queue).1
step (write_delayed pack) queue = (queue_write_delay_pack pack queue).1
step flushes queue = (queue_flush queue).1
step round queue = write_round queue

pub run : List Event → PackQueue → PackQueue
run [] queue = queue
run (e ∷ es) queue = run es (step e queue)

-- What ReadPackInLoop does with the outcome of ReadPack: on a packet it goes on, by `more`.
abbrev after_read :
    Result Pack × Bytes → (Bytes → List Pack × Result (Unit {0})) → List Pack × Result (Unit {0})
after_read (ok pack, rest) more = let (packs, e) = more rest in (pack ∷ packs, e)
after_read (err e, rest) more = ([], err e)
after_read (panic, rest) more = ([], panic)
after_read (stuck, rest) more = ([], stuck)

-- ReadPackInLoop: the packets that it sends to `readChan`, and the error that it sends behind them and
-- that ends it. The first argument is fuel.
read_loop : ℕ → Bytes → List Pack × Result (Unit {0})
read_loop zero s = ([], stuck)
read_loop (suc fuel) s = after_read (read_pack s) (read_loop fuel)

-- Every packet takes a byte at least, so this fuel is enough.
pub read_pack_in_loop : Bytes → List Pack × Result (Unit {0})
unfolding read_loop
read_pack_in_loop s = read_loop (suc (length s)) s
