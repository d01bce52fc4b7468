-- ===== src/Mqtt/Write.antt =====
-- DelayWritePack and WritePack of gate/base/mqtt/mqtt.go.
pub mod Packets
pub mod Frames
use lodos.Base.{
  ℕ, zero, suc, ◌+◌, ◌*◌, ◌/◌, ◌%◌, bit_or, Option, none, some, List, [], ◌∷◌, ◌++◌, ltb, ◌==◌, ◌^◌,
  if◌then◌else◌, length,
}
use lodos.Io.Result.{Io, nil_pointer, pure, fail, crash, deref, ◌>>=◌, ◌>>◌}
use lodos.Io.Reader.{Bytes}
use lodos.Io.Writer.{Writer, write, flush}
use lodos.Mqtt.Kinds
use lodos.Mqtt.Length.{get_remaining_length}
use lodos.Mqtt.Pack.{
  Pack, Variable, Topics, Connack, Publish, Puback, Subscribe, Suback, UnSubscribe, UnSuback,
  connack, publish, puback, subscribe, suback, unsubscribe, unsuback,
}

abbrev pub W : Type 0 → Type 0
W A = Io Writer A

-- `w.Write` takes all that it is given or fails, so the loop of writeFull makes one round, and none
-- where there is nothing to write.
pub write_full : Bytes → W Unit
write_full [] = pure tt
write_full (b ∷ bs) = write (b ∷ bs)

pub write_byte : ℕ → W Unit
write_byte b = write (b ∷ [])

-- Every call has size 2: `uint16(i)`, big-endian.
pub write_int : ℕ → W Unit
unfolding write_full
write_int i = write_full ((i % 2 ^ 16 / 256) ∷ (i % 256) ∷ [])

pub write_string : Option Bytes → W Unit
write_string none = fail nil_pointer
write_string (some data') = do write_int (length data'); write_full data'

pub write_length : ℕ → W Unit
write_length n = do bs ← deref (get_remaining_length n); write_full bs

first : Bytes → W ℕ
first [] = crash
first (b ∷ bs) = pure b

-- `w.WriteByte(getRemainingLength(n)[0])`
pub write_length_byte : ℕ → W Unit
unfolding first
write_length_byte n = do bs ← deref (get_remaining_length n); b ← first bs; write_byte b

-- The type assertions `pack.variable.(*T)` panic where the variable header is another one.
write_connack : Variable → W Unit
write_connack (connack ack) = do
  write_length_byte 2
  write_full (ack.reserved ∷ ack.return_code ∷ [])
write_connack _ = crash

write_publish : ℕ → Variable → W Unit
write_publish qos (publish pub') = do
  topic ← deref pub'.topic_name
  write_length ((if ltb 0 qos then 4 else 2) + length topic + length pub'.msg)
  write_string pub'.topic_name
  if ltb 0 qos then write_int pub'.mid else pure tt
  write_full pub'.msg
write_publish qos _ = crash

-- PUBACK, PUBREC, PUBREL and PUBCOMP have the same case.
write_puback : Variable → W Unit
write_puback (puback ack) = do write_length_byte 2; write_int ack.mid
write_puback _ = crash

pub sum_topics : ℕ → List Topics → W ℕ
sum_topics tnum [] = pure tnum
sum_topics tnum (top ∷ tops) = do
  name ← deref top.name
  sum_topics (tnum + 2 + length name + 1) tops

pub write_topics : List Topics → W Unit
write_topics [] = pure tt
write_topics (top ∷ tops) = do
  buf ← deref top.name
  write_int (length buf)
  write_full buf
  write_byte top.qos
  write_topics tops

write_subscribe : Variable → W Unit
write_subscribe (subscribe sub) = do
  tnum ← sum_topics 0 sub.topics
  write_length_byte tnum
  write_int sub.mid
  write_topics sub.topics
write_subscribe _ = crash

write_suback : Variable → W Unit
write_suback (suback ack) = do write_length_byte 3; write_int ack.mid; write_byte ack.qos
write_suback _ = crash

pub sum_un_topics : ℕ → List Topics → W ℕ
sum_un_topics tnum [] = pure tnum
sum_un_topics tnum (top ∷ tops) = do
  name ← deref top.name
  sum_un_topics (tnum + 2 + length name) tops

pub write_un_topics : List Topics → W Unit
write_un_topics [] = pure tt
write_un_topics (top ∷ tops) = do
  buf ← deref top.name
  write_int (length buf)
  write_full buf
  write_un_topics tops

write_unsubscribe : Variable → W Unit
write_unsubscribe (unsubscribe sub) = do
  tnum ← sum_un_topics 0 sub.topics
  write_length_byte tnum
  write_int sub.mid
  write_un_topics sub.topics
write_unsubscribe _ = crash

write_unsuback : Variable → W Unit
write_unsuback (unsuback ack) = do write_length_byte 2; write_int ack.mid
write_unsuback _ = crash

-- `msg_type << 4 | dup_flag << 3 | qos_level << 1` in a byte. The retain flag is not written.
fixed_header : Pack → ℕ
fixed_header pack =
    bit_or (bit_or (pack.msg_type * 16 % 256) (pack.dup_flag * 8 % 256)) (pack.qos_level * 2 % 256)

write_variable : Pack → W Unit
write_variable pack =
    let typ = pack.msg_type in
    if typ == Kinds.connack
    then write_connack pack.variable
    else if typ == Kinds.publish
    then write_publish pack.qos_level pack.variable
    else if typ == Kinds.puback
    then write_puback pack.variable
    else if typ == Kinds.pubrec
    then write_puback pack.variable
    else if typ == Kinds.pubrel
    then write_puback pack.variable
    else if typ == Kinds.pubcomp
    then write_puback pack.variable
    else if typ == Kinds.subscribe
    then write_subscribe pack.variable
    else if typ == Kinds.suback
    then write_suback pack.variable
    else if typ == Kinds.unsubscribe
    then write_unsubscribe pack.variable
    else if typ == Kinds.unsuback
    then write_unsuback pack.variable
    else if typ == Kinds.pingresp
    then write_byte 0
    else pure tt

pub delay_write_pack : Pack → W Unit
delay_write_pack pack = do write_byte (fixed_header pack); write_variable pack

pub write_pack : Pack → W Unit
write_pack pack = do delay_write_pack pack; flush
