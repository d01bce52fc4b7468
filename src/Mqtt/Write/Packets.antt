-- ===== src/Mqtt/Write/Packets.antt =====
-- DelayWritePack and WritePack on every message.
use lodos.Base.{
  ℕ, ◌+◌, ◌*◌, ◌^◌, ◌<◌, ◌≡◌, some, [], ◌∷◌, ◌++◌, ltb, if◌then◌else◌, Bool, true, false, length,
  arith, length-append, bit_or_fields,
}
use lodos.Io.Result.{ok, pure, ◌>>◌}
use lodos.Io.Reader.{Bytes}
use lodos.Io.Writer.{Writer, write, flush}
use lodos.Io.Writer.Writes.{Written, Writes, Writes-write, Writes-nil, Writes->>, Written-calm}
use lodos.Io.Writer.Stream.{Delivered, Written-Delivered, Delivered-then_flush}
use lodos.Mqtt.Length.{length_bytes, length_byte}
use lodos.Mqtt.Message.{
  Message, Ack, kind, be16, text, topics_bytes, names_bytes, body, length_field, frame, Fits,
  pack_of,
}
use lodos.Mqtt.Write.{
  W, write_full, write_byte, write_int, write_string, write_length, write_length_byte,
  delay_write_pack,
}
use lodos.Mqtt.Write.Frames.{
  Writes-write_full, Writes-write_int, Writes-write_string, Writes-write_length,
  Writes-write_length_byte, sum_topics-map, sum_un_topics-map, Writes-write_topics,
  Writes-write_un_topics,
}
use lodos.Mqtt.Write.{
  write_connack, write_publish, write_puback, write_subscribe, write_suback, write_unsubscribe,
  write_unsuback, fixed_header, write_variable, write_pack,
}

-- A length byte, then what follows it.
Writes-length_byte :
    (n : ℕ) (k : W (Unit {0})) (bs : Bytes)
    → n < 2 ^ 28
    → Writes k bs
    → Writes (write_length_byte n >> k) (length_byte n ∷ bs)
Writes-length_byte n k bs h hk =
    Writes->> (write_length_byte n) k (length_byte n ∷ []) bs (Writes-write_length_byte n h) hk

Writes-id :
    (mid : ℕ) (b : Bool)
    → mid < 2 ^ 16
    → Writes (if b then write_int mid else pure tt) (if b then be16 mid else [])
Writes-id mid true h = Writes-write_int mid h
Writes-id mid false h = Writes-nil

publish_length :
    (topic msg : Bytes) (mid : ℕ) (b : Bool)
    → (if b then 4 else 2) + length topic + length msg
      ≡ length (text topic ++ ((if b then be16 mid else []) ++ msg))
publish_length topic msg mid true = omega (arith, length-append topic (be16 mid ++ msg))
publish_length topic msg mid false = omega (arith, length-append topic msg)

Writes-publish :
    (topic msg : Bytes) (mid : ℕ) (b : Bool)
    → length topic < 2 ^ 16
    → mid < 2 ^ 16
    → length (text topic ++ ((if b then be16 mid else []) ++ msg)) < 2 ^ 28
    → Writes
        (write_length ((if b then 4 else 2) + length topic + length msg)
          >> (write_string (some topic)
              >> ((if b then write_int mid else pure tt) >> write_full msg)))
        (length_bytes 3 (length (text topic ++ ((if b then be16 mid else []) ++ msg)))
          ++ (text topic ++ ((if b then be16 mid else []) ++ msg)))
Writes-publish topic msg mid b ht hm hl = rw (publish_length topic msg mid b) (
    Writes->> (write_length total) _ (length_bytes 3 total) rest (Writes-write_length total hl) (
      Writes->> (write_string (some topic)) _ (text topic) (id ++ msg)
        (Writes-write_string topic ht)
        (Writes->> (if b then write_int mid else pure tt) _ id msg (Writes-id mid b hm)
          (Writes-write_full msg))))
  where
    id : Bytes
    id = if b then be16 mid else []

    rest : Bytes
    rest = text topic ++ (id ++ msg)

    total : ℕ
    total = length rest

Writes-write_variable :
    (dup qos retain len : ℕ) (m : Message)
    → Fits qos m
    → Writes (write_variable (pack_of dup qos retain len m)) (length_field qos m ++ body qos m)
unfolding write_variable write_connack write_publish write_puback write_subscribe write_suback
    write_unsubscribe write_unsuback write_byte
Writes-write_variable dup qos retain len (Message.connection reserved code) h =
    Writes-length_byte 2 _ _ (omega arith) (Writes-write_full _)
Writes-write_variable dup qos retain len (Message.published topic mid msg) (ht, hm, hl) =
    Writes-publish topic msg mid (ltb 0 qos) ht hm hl
Writes-write_variable dup qos retain len (Message.acknowledged Ack.ack mid) h =
    Writes-length_byte 2 _ _ (omega arith) (Writes-write_int mid h)
Writes-write_variable dup qos retain len (Message.acknowledged Ack.rec mid) h =
    Writes-length_byte 2 _ _ (omega arith) (Writes-write_int mid h)
Writes-write_variable dup qos retain len (Message.acknowledged Ack.rel mid) h =
    Writes-length_byte 2 _ _ (omega arith) (Writes-write_int mid h)
Writes-write_variable dup qos retain len (Message.acknowledged Ack.comp mid) h =
    Writes-length_byte 2 _ _ (omega arith) (Writes-write_int mid h)
Writes-write_variable dup qos retain len (Message.subscribing mid tops) (hm, ht, hl) =
    let e : 0 + length (topics_bytes tops) ≡ length (topics_bytes tops) = omega arith in
    rw (sum_topics-map 0 tops, e)
      (Writes-length_byte _ _ _ hl (
        Writes->> (write_int mid) _ (be16 mid) _ (Writes-write_int mid hm)
          (Writes-write_topics tops ht)))
Writes-write_variable dup qos retain len (Message.subscribed mid q) h =
    Writes-length_byte 3 _ _ (omega arith) (
      Writes->> (write_int mid) _ (be16 mid) (q ∷ []) (Writes-write_int mid h)
        (Writes-write (q ∷ [])))
Writes-write_variable dup qos retain len (Message.unsubscribing mid names) (hm, ht, hl) =
    let e : 0 + length (names_bytes names) ≡ length (names_bytes names) = omega arith in
    rw (sum_un_topics-map 0 names, e)
      (Writes-length_byte _ _ _ hl (
        Writes->> (write_int mid) _ (be16 mid) _ (Writes-write_int mid hm)
          (Writes-write_un_topics names ht)))
Writes-write_variable dup qos retain len (Message.unsubscribed mid) h =
    Writes-length_byte 2 _ _ (omega arith) (Writes-write_int mid h)
Writes-write_variable dup qos retain len Message.pong h = Writes-write (0 ∷ [])

kind-lt : (m : Message) → kind m < 16
kind-lt (Message.acknowledged Ack.ack mid) = omega arith
kind-lt (Message.acknowledged Ack.rec mid) = omega arith
kind-lt (Message.acknowledged Ack.rel mid) = omega arith
kind-lt (Message.acknowledged Ack.comp mid) = omega arith
kind-lt _ = omega arith

-- Whatever the connection does, DelayWritePack puts the frame of the message behind what is buffered, or
-- a front of it and returns the error; it does not panic. (A duplicate flag of one bit, a QoS of two,
-- and contents that fit their fields.)
pub delay_write_pack-Written :
    (dup qos retain len : ℕ) (m : Message) (w : Writer)
    → dup < 2
    → qos < 4
    → Fits qos m
    → Written (frame dup qos m) w (delay_write_pack (pack_of dup qos retain len m) w)
unfolding delay_write_pack write_byte fixed_header
delay_write_pack-Written dup qos retain len m w hd hq h =
    rw (bit_or_fields (kind m) dup qos (kind-lt m) hd hq) (
      (Writes->> (write (first_byte ∷ [])) _ (first_byte ∷ []) _ (Writes-write (first_byte ∷ []))
          (Writes-write_variable dup qos retain len m h)).at
        w)
  where
    first_byte : ℕ
    first_byte = kind m * 16 + dup * 8 + qos * 2

pub flush-at :
    (w : Writer)
    → w.broken ≡ false
    → w.faults ≡ []
    → flush w ≡ (ok tt, record w { sent = w.sent ++ w.buffered; buffered = [] })
unfolding flush
flush-at w hb hf = rw (hb, hf)

-- On a connection that does not fail, WritePack sends what was buffered and then the frame of the
-- message, and leaves nothing buffered. (A duplicate flag of one bit, a QoS of two, and contents
-- that fit their fields.)
pub write_pack-sent :
    (dup qos retain len : ℕ) (m : Message) (w : Writer)
    → dup < 2
    → qos < 4
    → Fits qos m
    → w.broken ≡ false
    → w.faults ≡ []
    → write_pack (pack_of dup qos retain len m) w
      ≡ (ok tt, record w { sent = w.sent ++ (w.buffered ++ frame dup qos m); buffered = [] })
unfolding write_pack
write_pack-sent dup qos retain len m w hd hq h hb hf =
    let written = record w { buffered = w.buffered ++ frame dup qos m } in
    rw (Written-calm _ w _ (delay_write_pack-Written dup qos retain len m w hd hq h) hb hf)
      (flush-at written hb hf)

-- WritePack delivers the frame, or a front of it and the error.
pub write_pack-Delivered :
    (dup qos retain len : ℕ) (m : Message) (w : Writer)
    → dup < 2
    → qos < 4
    → Fits qos m
    → Delivered (frame dup qos m) w (write_pack (pack_of dup qos retain len m) w)
unfolding write_pack
write_pack-Delivered dup qos retain len m w hd hq h = Delivered-then_flush (frame dup qos m) w _ (
    Written-Delivered (frame dup qos m) w _
      (delay_write_pack-Written dup qos retain len m w hd hq h))
