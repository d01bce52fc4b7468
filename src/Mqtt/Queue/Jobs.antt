-- ===== src/Mqtt/Queue/Jobs.antt =====
-- Requests to the queue whose packets say a message, and the jobs that they leave in its channel.
use lodos.Base.{ℕ, ◌<◌, Option, none, some, List, [], ◌∷◌, ◌++◌}
use lodos.Io.Result.{Error}
use lodos.Io.Reader.{Bytes}
use lodos.Io.Writer.{Writer}
use lodos.Io.Writer.Stream.{Delivered, Written-Delivered, Delivered-flush}
use lodos.Mqtt.Message.{Message, Fits, frame, pack_of}
use lodos.Mqtt.Pack.{Pack}
use lodos.Mqtt.Queue.{PackQueue, PackAndType, Event, no_delay, delay, flush_only, write_item, step}
use lodos.Mqtt.Write.{write_pack, delay_write_pack}
use lodos.Mqtt.Write.Packets
use lodos.Mqtt.Write.Packets.{delay_write_pack-Written}

-- A packet that says `message`.
pub record Envelope : Type 0 where
  pub dup : ℕ
  pub qos : ℕ
  pub retain : ℕ
  pub len : ℕ
  pub message : Message

abbrev pub pack : Envelope → Pack
pack e = pack_of e.dup e.qos e.retain e.len e.message

abbrev pub bytes : Envelope → Bytes
bytes e = frame e.dup e.qos e.message

pub record IsSendable (e : Envelope) : Type 0 where
  pub dup_fits : e.dup < 2
  pub qos_fits : e.qos < 4
  pub message_fits : Fits e.qos e.message

pub data Call : Type 0 where
  write : Envelope → Call
  write_delayed : Envelope → Call
  flushes : Call
  round : Call

abbrev pub event : Call → Event
event (write e) = Event.write (pack e)
event (write_delayed e) = Event.write_delayed (pack e)
event flushes = Event.flushes
event round = Event.round

abbrev pub IsSendableCall : Call → Type 0
IsSendableCall (write e) = IsSendable e
IsSendableCall (write_delayed e) = IsSendable e
IsSendableCall flushes = Unit {0}
IsSendableCall round = Unit {0}

-- The bytes that the queue takes on in one call: none once it has an error.
abbrev pub taken : Call → Option Error → Bytes
taken (write e) none = bytes e
taken (write_delayed e) none = bytes e
taken _ _ = []

abbrev pub accepted : List Call → PackQueue → Bytes
accepted [] q = []
accepted (c ∷ cs) q = taken c q.write_error ++ accepted cs (step (event c) q)

-- What waits in the channel.
pub data Job : Type 0 where
  now : Envelope → Job
  later : Envelope → Job
  push : Job

abbrev pub item : Job → PackAndType
item (now e) = record { pack = some (pack e); typ = no_delay }
item (later e) = record { pack = some (pack e); typ = delay }
item push = record { pack = none; typ = flush_only }

abbrev pub job_bytes : Job → Bytes
job_bytes (now e) = bytes e
job_bytes (later e) = bytes e
job_bytes push = []

abbrev pub jobs_bytes : List Job → Bytes
jobs_bytes [] = []
jobs_bytes (j ∷ js) = job_bytes j ++ jobs_bytes js

abbrev pub IsSendableJob : Job → Type 0
IsSendableJob (now e) = IsSendable e
IsSendableJob (later e) = IsSendable e
IsSendableJob push = Unit {0}

delay_write_pack-Delivered :
    (e : Envelope) (w : Writer) → IsSendable e → Delivered (bytes e) w (delay_write_pack (pack e) w)
delay_write_pack-Delivered e w h = Written-Delivered (bytes e) w _ (
    delay_write_pack-Written e.dup e.qos e.retain e.len e.message w h.dup_fits h.qos_fits
      h.message_fits)

write_pack-Delivered :
    (e : Envelope) (w : Writer) → IsSendable e → Delivered (bytes e) w (write_pack (pack e) w)
write_pack-Delivered e w h =
    Packets.write_pack-Delivered e.dup e.qos e.retain e.len e.message w h.dup_fits h.qos_fits
      h.message_fits

pub write_item-Delivered :
    (j : Job) (w : Writer) → IsSendableJob j → Delivered (job_bytes j) w (write_item (item j) w)
unfolding write_item
write_item-Delivered (now e) w h = write_pack-Delivered e w h
write_item-Delivered (later e) w h = delay_write_pack-Delivered e w h
write_item-Delivered push w h = Delivered-flush w
