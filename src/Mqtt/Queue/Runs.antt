-- ===== src/Mqtt/Queue/Runs.antt =====
-- Concrete runs of the queue of packets, and its theorems at concrete inputs.
use lodos.Base.{map, ◌≡◌, refl, List, [], ◌∷◌, ◌++◌, All, none, some, true, false, Prefix, arith}
use lodos.Io.Result.{broken_pipe}
use lodos.Io.Writer.{Writer}
use lodos.Io.Writer.Stream.{stream}
use lodos.Mqtt.Message.{Message}
use lodos.Mqtt.Queue.{PackQueue, new_pack_queue, run, step, write_round, write_item}
use lodos.Mqtt.Queue.Jobs
use lodos.Mqtt.Queue.Jobs.{Envelope, IsSendable, IsSendableCall, Call, accepted}
use lodos.Mqtt.Queue.Calm.{rounds}
use lodos.Mqtt.Queue.Drains.{run_drains}
use lodos.Mqtt.Queue.Order.{after, run_prefix, run_drained}
use lodos.Mqtt.Write.Packets.{write_pack-sent}

abbrev hello : Message
hello = Message.published (b'h' ∷ b'i' ∷ []) 7 (1 ∷ 2 ∷ 3 ∷ [])

abbrev calm : Writer
calm = record { sent = 9 ∷ []; buffered = 8 ∷ []; broken = false; faults = [] }

-- The second call of this writer fails.
abbrev failing : Writer
failing = record calm { faults = false ∷ true ∷ [] }

abbrev letter : Envelope
letter = record { dup = 0; qos = 1; retain = 0; len = 0; message = hello }

letter-IsSendable : IsSendable letter
letter-IsSendable = record {
  dup_fits = omega arith;
  qos_fits = omega arith;
  message_fits = omega arith;
}

abbrev calls : List Call
calls =
    Call.write letter
    ∷ Call.round
    ∷ Call.write_delayed letter
    ∷ Call.round
    ∷ Call.write letter
    ∷ Call.round
    ∷ []

calls-IsSendable : All IsSendableCall calls
calls-IsSendable =
    (letter-IsSendable, (tt, (letter-IsSendable, (tt, (letter-IsSendable, (tt, tt))))))

run_prefix_example :
    Prefix
      (stream (after calls 10 60 failing).w)
      (stream failing ++ accepted calls (new_pack_queue 10 failing 60))
    × ((after calls 10 60 failing).crashed ≡ false)
run_prefix_example = run_prefix calls 10 60 failing calls-IsSendable

abbrev one_call : List Call
one_call = Call.write letter ∷ Call.round ∷ []

one_call-empty : (after one_call 10 60 calm).write_chan ≡ []
unfolding run step new_pack_queue write_round write_item
one_call-empty =
    rw (write_pack-sent 0 1 0 0 hello calm (omega arith) (omega arith) (omega arith) refl refl)

one_call-fine : (after one_call 10 60 calm).write_error ≡ none
unfolding run step new_pack_queue write_round write_item
one_call-fine =
    rw (write_pack-sent 0 1 0 0 hello calm (omega arith) (omega arith) (omega arith) refl refl)

run_drained_example :
    stream (after one_call 10 60 calm).w
    ≡ stream calm ++ accepted one_call (new_pack_queue 10 calm 60)
run_drained_example =
    run_drained one_call 10 60 calm (letter-IsSendable, (tt, tt)) one_call-empty one_call-fine

abbrev dead : PackQueue
dead = record {
  read_timeout = 10;
  alive = 16;
  write_error = some broken_pipe;
  error_chan = broken_pipe ∷ [];
  notice_fin = 1;
  write_chan = [];
  w = failing;
  finished = true;
  crashed = false;
}

-- The calls, and a Flush behind them.
abbrev flushed : List Call
flushed = calls ++ (Call.flushes ∷ [])

flushed-IsSendable : All IsSendableCall flushed
flushed-IsSendable =
    (letter-IsSendable, (tt, (letter-IsSendable, (tt, (letter-IsSendable, (tt, (tt, tt)))))))

run_drains_example :
    let q = run (map Jobs.event (rounds 7)) (after flushed 10 60 calm) in
    (q.w.sent ≡ stream calm ++ accepted flushed (new_pack_queue 10 calm 60))
    × (q.w.buffered ≡ [])
    × (q.write_chan ≡ [])
    × (q.write_error ≡ none)
run_drains_example = run_drains calls Call.flushes 10 60 calm flushed-IsSendable tt refl refl
