-- ===== src/Mqtt/Read/RoundTrip.antt =====
-- ReadPack reads the frames that DelayWritePack writes.
use lodos.Base.{
  ℕ, ◌+◌, ◌-◌, ◌*◌, ◌%◌, ◌^◌, ◌<◌, ◌≤◌, ◌≡◌, refl, ◌∙◌, List, [], ◌∷◌, ◌++◌, length, arith,
  append_assoc, ltb, lt→ltb, le→ltb, All, some, length-append, true, false, Bool-cases, inl, inr,
}
use lodos.Io.Result.{ok}
use lodos.Io.Reader.{Bytes, read_byte, read_full-append}
use lodos.Mqtt.Length.{read_length, length_bytes, length_byte}
use lodos.Mqtt.Length.RoundTrip.{read_length-length_bytes}
use lodos.Mqtt.Pack.{Pack, Variable, nil, publish}
use lodos.Mqtt.Message.{
  Message, Ack, kind, be16, text, topics_bytes, names_bytes, body, announced, length_field, frame,
  IsReceivable, received, received_pack, pack_of, variable_of, IsReadable, IsReadableName,
}
use lodos.Mqtt.Read.{
  read_publish, read_puback, read_subscribe, read_suback, read_unsubscribe, read_unsuback, skip,
  read_variable, parse_fixed, read_pack,
}
use lodos.Mqtt.Read.Fields.{read_int-be16, read_string-text}
use lodos.Mqtt.Read.TopicLists.{read_topics-topics_bytes, read_un_topics-names_bytes}

pub read_length-length_byte :
    (n : ℕ) (s : Bytes) → n < 128 → read_length (length_byte n ∷ s) ≡ (ok n, s)
unfolding length_bytes
read_length-length_byte n s h = ground (arith, read_length-length_bytes n s)

pub read_length-short :
    (n : ℕ) (s : Bytes) → n < 2 ^ 21 → read_length (length_bytes 3 n ++ s) ≡ (ok n, s)
read_length-short n s h =
    let e : n % 2 ^ 21 ≡ n = omega arith in
    read_length-length_bytes n s (omega arith) ∙ rw (e, lt→ltb n (2 ^ 21) h)

-- The case PUBLISH behind the topic, at a QoS of 0 and above.
read_publish-plain :
    (qos : ℕ) (topic msg : Bytes) (total : ℕ) (s : Bytes)
    → ltb 0 qos ≡ false
    → 0 < length topic
    → length topic < 2 ^ 16
    → 2 ≤ length msg
    → total ≡ length topic + length msg + 2
    → read_publish qos total (text topic ++ (msg ++ s))
      ≡ (ok (publish (record { topic_name = some topic; mid = 0; msg = msg })), s)
unfolding read_publish
read_publish-plain qos topic msg total s hq h0 ht h2 hl =
    let left : total - (length topic + 2) ≡ length msg = omega arith in
    rw (hq, read_string-text topic (msg ++ s) ht)
      (rw (le→ltb (length topic) 1 h0, le→ltb total (length topic + 4) (omega arith))
        (rw (le→ltb total (length topic + 2) (omega arith), left, read_full-append msg s)))

read_publish-id :
    (qos : ℕ) (topic msg : Bytes) (mid total : ℕ) (s : Bytes)
    → ltb 0 qos ≡ true
    → 0 < length topic
    → length topic < 2 ^ 16
    → mid < 2 ^ 16
    → total ≡ length topic + length msg + 4
    → read_publish qos total (text topic ++ (be16 mid ++ (msg ++ s)))
      ≡ (ok (publish (record { topic_name = some topic; mid = mid; msg = msg })), s)
unfolding read_publish
read_publish-id qos topic msg mid total s hq h0 ht hm hl =
    let left : total - (length topic + 2 + 2) ≡ length msg = omega arith in
    rw (hq, read_string-text topic (be16 mid ++ (msg ++ s)) ht)
      (rw (le→ltb (length topic) 1 h0, le→ltb total (length topic + 4) (omega arith))
        (rw (
          read_int-be16 mid (msg ++ s) hm,
          le→ltb total (length topic + 2 + 2) (omega arith),
          left,
          read_full-append msg s,
        )))

read_publish-body :
    (qos : ℕ) (topic msg : Bytes) (mid : ℕ) (s : Bytes)
    → IsReceivable qos (Message.published topic mid msg)
    → read_publish qos
        (announced qos (Message.published topic mid msg))
        (body qos (Message.published topic mid msg) ++ s)
      ≡ (ok (received qos (Message.published topic mid msg)), s)
read_publish-body qos topic msg mid s (h0, ht, hm, h2, hl) = elim (Bool-cases (ltb 0 qos)) [
  | inl e ↦
      rw (e, append_assoc (text topic) (be16 mid ++ msg) s, append_assoc (be16 mid) msg s)
        (read_publish-id qos topic msg mid _ s e h0 ht hm
          (omega (arith, length-append topic (be16 mid ++ msg))))
  | inr e ↦
      rw (e, append_assoc (text topic) msg s)
        (read_publish-plain qos topic msg _ s e h0 ht (rw e at h2)
          (omega (arith, length-append topic msg)))
]

-- The packet as it stands when the variable header is read.
abbrev header : ℕ → ℕ → Message → Pack
header dup qos m = record (pack_of dup qos 0 (announced qos m) m) { variable = nil }

read_puback-body :
    (mid : ℕ) (s : Bytes)
    → mid < 2 ^ 16
    → read_puback 2 (be16 mid ++ s) ≡ (ok (Variable.puback (record { mid = mid })), s)
unfolding read_puback
read_puback-body mid s h = rw (read_int-be16 mid s h)

pub read_subscribe-body :
    (mid : ℕ) (tops : List (Bytes × ℕ)) (extra : ℕ) (s : Bytes)
    → mid < 2 ^ 16
    → All IsReadable tops
    → extra ≤ 3
    → read_subscribe (length (topics_bytes tops) + extra) (be16 mid ++ topics_bytes tops ++ s)
      ≡ (ok (variable_of (Message.subscribing mid tops)), s)
unfolding read_subscribe
read_subscribe-body mid tops extra s hm ht he =
    rw
      (append_assoc (be16 mid) (topics_bytes tops) s, read_int-be16 mid (topics_bytes tops ++ s) hm)
      (rw (
        read_topics-topics_bytes tops extra (length (topics_bytes tops) + extra + 1) [] s ht he
          (omega arith)))

pub read_unsubscribe-body :
    (mid : ℕ) (names : List Bytes) (extra : ℕ) (s : Bytes)
    → mid < 2 ^ 16
    → All IsReadableName names
    → extra ≤ 3
    → read_unsubscribe (length (names_bytes names) + extra) (be16 mid ++ names_bytes names ++ s)
      ≡ (ok (variable_of (Message.unsubscribing mid names)), s)
unfolding read_unsubscribe
read_unsubscribe-body mid names extra s hm ht he =
    rw
      (append_assoc (be16 mid) (names_bytes names) s, read_int-be16 mid (names_bytes names ++ s) hm)
      (rw (
        read_un_topics-names_bytes names extra (length (names_bytes names) + extra + 1) [] s ht he
          (omega arith)))

read_variable-body :
    (dup qos : ℕ) (m : Message) (s : Bytes)
    → IsReceivable qos m
    → read_variable (header dup qos m) (body qos m ++ s) ≡ (ok (received qos m), s)
unfolding read_variable read_suback read_unsuback skip read_byte
read_variable-body dup qos (Message.connection reserved code) s h =
    rw (read_full-append (reserved ∷ code ∷ []) s)
read_variable-body dup qos (Message.published topic mid msg) s h =
    read_publish-body qos topic msg mid s h
read_variable-body dup qos (Message.acknowledged Ack.ack mid) s h = read_puback-body mid s h
read_variable-body dup qos (Message.acknowledged Ack.rec mid) s h = read_puback-body mid s h
read_variable-body dup qos (Message.acknowledged Ack.rel mid) s h = read_puback-body mid s h
read_variable-body dup qos (Message.acknowledged Ack.comp mid) s h = read_puback-body mid s h
read_variable-body dup qos (Message.subscribing mid tops) s (hm, ht, hl) =
    rw (plus_zero (length (topics_bytes tops))) at
      (read_subscribe-body mid tops 0 s hm ht (omega arith))
  where
    plus_zero : (n : ℕ) → n + 0 ≡ n
    plus_zero n = omega arith
read_variable-body dup qos (Message.subscribed mid q) s h = rw (read_int-be16 mid (q ∷ s) h)
read_variable-body dup qos (Message.unsubscribing mid names) s (hm, ht, hl) =
    rw (plus_zero (length (names_bytes names))) at
      (read_unsubscribe-body mid names 0 s hm ht (omega arith))
  where
    plus_zero : (n : ℕ) → n + 0 ≡ n
    plus_zero n = omega arith
read_variable-body dup qos (Message.unsubscribed mid) s h = rw (read_int-be16 mid s h)
read_variable-body dup qos Message.pong s h = refl

read_length-length_field :
    (qos : ℕ) (m : Message) (s : Bytes)
    → IsReceivable qos m
    → read_length (length_field qos m ++ s) ≡ (ok (announced qos m), s)
read_length-length_field qos (Message.published topic mid msg) s (h0, ht, hm, h2, hl) =
    read_length-short _ s hl
read_length-length_field qos (Message.subscribing mid tops) s (hm, ht, hl) =
    read_length-length_byte _ s hl
read_length-length_field qos (Message.unsubscribing mid names) s (hm, ht, hl) =
    read_length-length_byte _ s hl
read_length-length_field qos (Message.connection reserved code) s h =
    read_length-length_byte 2 s (omega arith)
read_length-length_field qos (Message.acknowledged a mid) s h =
    read_length-length_byte 2 s (omega arith)
read_length-length_field qos (Message.subscribed mid q) s h =
    read_length-length_byte 3 s (omega arith)
read_length-length_field qos (Message.unsubscribed mid) s h =
    read_length-length_byte 2 s (omega arith)
read_length-length_field qos Message.pong s h = read_length-length_byte 0 s (omega arith)

-- The packet that the fixed header announces.
abbrev pub announced_pack : ℕ → ℕ → ℕ → ℕ → Variable → Pack
announced_pack typ dup qos n v = record {
  msg_type = typ;
  dup_flag = dup;
  qos_level = qos;
  retain = 0;
  length = n;
  variable = v;
}

parse_fixed-fields :
    (typ dup qos n : ℕ)
    → dup < 2
    → qos < 4
    → parse_fixed (typ * 16 + dup * 8 + qos * 2) n ≡ announced_pack typ dup qos n nil
unfolding parse_fixed
parse_fixed-fields typ dup qos n hd hq = ground arith

-- A packet is read part by part.
pub read_pack-parts :
    (typ dup qos n : ℕ) (lf bs s : Bytes) (v : Variable)
    → dup < 2
    → qos < 4
    → read_length (lf ++ (bs ++ s)) ≡ (ok n, bs ++ s)
    → read_variable (announced_pack typ dup qos n nil) (bs ++ s) ≡ (ok v, s)
    → read_pack (((typ * 16 + dup * 8 + qos * 2) ∷ (lf ++ bs)) ++ s)
      ≡ (ok (announced_pack typ dup qos n v), s)
unfolding read_pack read_byte
read_pack-parts typ dup qos n lf bs s v hd hq hn hv =
    rw (append_assoc lf bs s, hn) (rw (parse_fixed-fields typ dup qos n hd hq) (rw hv))

-- ReadPack reads the frame of a receivable message as the packet that was written, less its retain flag,
-- less the content of a CONNACK, whose variable header comes back as nil, and with the id 0 for a PUBLISH at
-- QoS 0, whose frame has none; and it reads nothing of the bytes behind it. (A duplicate flag of one bit and a
-- QoS of two.)
pub read_pack-frame :
    (dup qos : ℕ) (m : Message) (s : Bytes)
    → dup < 2
    → qos < 4
    → IsReceivable qos m
    → read_pack (frame dup qos m ++ s) ≡ (ok (received_pack dup qos m), s)
read_pack-frame dup qos m s hd hq h =
    read_pack-parts (kind m) dup qos (announced qos m) (length_field qos m) (body qos m) s _ hd hq
      (read_length-length_field qos m (body qos m ++ s) h) (read_variable-body dup qos m s h)
