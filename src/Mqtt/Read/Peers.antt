-- ===== src/Mqtt/Read/Peers.antt =====
-- What other implementations of the protocol send, and what they make of what is written here.
use lodos.Base.{ℕ, suc, ◌+◌, ◌*◌, ◌/◌, ◌%◌, ◌^◌, ◌<◌, ◌≤◌, ◌≡◌, List, ◌∷◌, ◌++◌, arith, length, All}
use lodos.Io.Result.{ok}
use lodos.Io.Reader.{Bytes}
use lodos.Mqtt.Length.{read_length, length_bytes, length_byte}
use lodos.Mqtt.Length.RoundTrip.{read_length-two}
use lodos.Mqtt.Kinds
use lodos.Mqtt.Message.{
  Message, topics_bytes, names_bytes, body, length_field, kind, pack_of, IsReadable, IsReadableName,
}
use lodos.Mqtt.Read.{read_variable, read_pack}
use lodos.Mqtt.Read.RoundTrip.{
  read_pack-parts, read_length-short, read_subscribe-body, read_unsubscribe-body,
}

-- The frame that the protocol prescribes: the length is that of the whole body, and all of it is written.
abbrev pub peer_frame : ℕ → ℕ → Message → Bytes
peer_frame dup qos m =
    (kind m * 16 + dup * 8 + qos * 2) ∷ (length_bytes 3 (length (body qos m)) ++ body qos m)

-- A SUBSCRIBE as the protocol prescribes it, with topics of one byte at least, is read to its end: the two
-- bytes of the message id, which the loop does not take off the length, are too few for one more topic.
pub read_pack-peer_subscribe :
    (dup qos mid : ℕ) (tops : List (Bytes × ℕ)) (s : Bytes)
    → dup < 2
    → qos < 4
    → mid < 2 ^ 16
    → All IsReadable tops
    → length (topics_bytes tops) + 2 < 2 ^ 21
    → read_pack (peer_frame dup qos (Message.subscribing mid tops) ++ s)
      ≡ (ok (pack_of dup qos 0 (length (topics_bytes tops) + 2) (Message.subscribing mid tops)), s)
unfolding read_variable
read_pack-peer_subscribe dup qos mid tops s hd hq hm ht hl =
    read_pack-parts Kinds.subscribe dup qos (length (topics_bytes tops) + 2) _ (body qos m) s _ hd
      hq
      (rw (size (length (topics_bytes tops))) (read_length-short _ (body qos m ++ s) (omega arith)))
      (read_subscribe-body mid tops 2 s hm ht (omega arith))
  where
    m : Message
    m = Message.subscribing mid tops

    size : (n : ℕ) → n + 2 ≡ suc (suc n)
    size n = omega arith

-- The same for UNSUBSCRIBE, with names of two bytes at least.
pub read_pack-peer_unsubscribe :
    (dup qos mid : ℕ) (names : List Bytes) (s : Bytes)
    → dup < 2
    → qos < 4
    → mid < 2 ^ 16
    → All IsReadableName names
    → length (names_bytes names) + 2 < 2 ^ 21
    → read_pack (peer_frame dup qos (Message.unsubscribing mid names) ++ s) ≡ (
      ok (pack_of dup qos 0 (length (names_bytes names) + 2) (Message.unsubscribing mid names)),
      s,
    )
unfolding read_variable
read_pack-peer_unsubscribe dup qos mid names s hd hq hm ht hl =
    read_pack-parts Kinds.unsubscribe dup qos (length (names_bytes names) + 2) _ (body qos m) s _ hd
      hq
      (rw (size (length (names_bytes names))) (read_length-short _ (body qos m ++ s) (omega arith)))
      (read_unsubscribe-body mid names 2 s hm ht (omega arith))
  where
    m : Message
    m = Message.unsubscribing mid names

    size : (n : ℕ) → n + 2 ≡ suc (suc n)
    size n = omega arith

-- A SUBSCRIBE whose topics take 128 to 2 ^ 21 - 1 bytes: only the first byte of its length is written, with
-- the bit that announces a second one. With an id below 2 ^ 15, ReadPack takes the first byte of the id
-- for that second one, and goes on from the other.
pub read_length-long_subscribe :
    (qos mid : ℕ) (tops : List (Bytes × ℕ)) (s : Bytes)
    → mid < 2 ^ 15
    → 128 ≤ length (topics_bytes tops)
    → length (topics_bytes tops) < 2 ^ 21
    → read_length (
        length_field qos (Message.subscribing mid tops)
        ++ (body qos (Message.subscribing mid tops) ++ s))
      ≡ (
        ok (length (topics_bytes tops) % 128 + mid / 256 * 128),
        (mid % 256) ∷ (topics_bytes tops ++ s),
      )
read_length-long_subscribe qos mid tops s hm h hl =
    rw long_byte (read_length-two (n % 128) (mid / 256) _ (omega arith) (omega arith))
  where
    n : ℕ
    n = length (topics_bytes tops)

    long_byte : length_byte n ≡ n % 128 + 128
    long_byte = ground arith
