-- ===== src/Mqtt/Runs.antt =====
-- Concrete runs of the mqtt package, and its theorems at concrete inputs.
use lodos.Mqtt.Client.Ids.{after_ids, get_online_msg_id-cycle}
use lodos.Base.{
  ◌+◌, ◌%◌, ◌≤◌, ℕ, zero, suc, ◌^◌, ◌≡◌, refl, List, [], ◌∷◌, ◌++◌, Option, none, some, true, false,
  length, arith,
}
use lodos.Io.Result.{Error, ok, err, eof}
use lodos.Io.Reader.{Bytes}
use lodos.Io.Reader.Sound.{Answers}
use lodos.Io.Writer.{Writer}
use lodos.Io.Writer.Writes.{Written}
use lodos.Mqtt.Client.{Client, wait_pack, get_online_msg_id}
use lodos.Mqtt.Client.Replies.{answers, answered, passed_on, wait_pack-answers}
use lodos.Mqtt.Client.Typed.{wait_pack-read_pack}
use lodos.Mqtt.Kinds
use lodos.Mqtt.Length.{read_length, length_bytes}
use lodos.Mqtt.Length.RoundTrip.{read_length-length_bytes}
use lodos.Mqtt.Message.{Message, frame, pack_of, received_pack}
use lodos.Mqtt.Pack.{connect}
use lodos.Mqtt.Queue.{read_pack_in_loop}
use lodos.Mqtt.Queue.ReadLoop.{Sent, frames, packs, read_pack_in_loop-frames}
use lodos.Mqtt.Read.{read_pack}
use lodos.Mqtt.Read.Connects.{connect_body, connect_of, read_pack-connect}
use lodos.Mqtt.Read.Login.{Login}
use lodos.Mqtt.Read.RoundTrip.{announced_pack, read_pack-frame}
use lodos.Mqtt.Read.Sound.{read_pack-Answers}
use lodos.Mqtt.Write.{delay_write_pack}
use lodos.Mqtt.Write.Packets.{delay_write_pack-Written}

abbrev topic : Bytes
topic = b'h' ∷ b'i' ∷ []

abbrev hello : Message
hello = Message.published topic 7 (1 ∷ 2 ∷ 3 ∷ [])

abbrev calm : Writer
calm = record { sent = 9 ∷ []; buffered = 8 ∷ []; broken = false; faults = [] }

-- The second call of this writer fails.
abbrev failing : Writer
failing = record calm { faults = false ∷ true ∷ [] }

read_pack-frame_example :
    read_pack (frame 1 1 hello ++ (5 ∷ [])) ≡ (ok (received_pack 1 1 hello), 5 ∷ [])
read_pack-frame_example =
    read_pack-frame 1 1 hello (5 ∷ []) (omega arith) (omega arith) (omega arith)

delay_write_pack-Written_example :
    Written (frame 0 1 hello) failing (delay_write_pack (pack_of 0 1 0 0 hello) failing)
delay_write_pack-Written_example =
    delay_write_pack-Written 0 1 0 0 hello failing (omega arith) (omega arith) (omega arith)

read_pack-Answers_example : Answers (0x82 ∷ 0xff ∷ []) (read_pack (0x82 ∷ 0xff ∷ []))
read_pack-Answers_example = read_pack-Answers (0x82 ∷ 0xff ∷ [])

abbrev login : Login
login = record {
  protocol = b'M' ∷ b'Q' ∷ [];
  version = 4;
  keep_alive_timer = 60;
  clean_session = true;
  id = b'a' ∷ [];
  will_retain = false;
  will_qos = 1;
  will = some (topic, 1 ∷ []);
  uname = some (b'u' ∷ []);
  upassword = none;
}

read_pack-connect_example :
    read_pack
      ((16 ∷ (length_bytes 3 (length (connect_body login)) ++ connect_body login)) ++ (5 ∷ []))
    ≡ (
      ok (
          announced_pack Kinds.connect 0 0
            (length (connect_body login))
            (connect (connect_of login))),
      5 ∷ [],
    )
read_pack-connect_example =
    read_pack-connect 0 0 login (5 ∷ []) (omega arith) (omega arith) (omega arith)

abbrev post : Sent
post = record { dup = 0; qos = 1; message = hello }

read_pack_in_loop-frames_example :
    read_pack_in_loop (frames (post ∷ post ∷ [])) ≡ (packs (post ∷ post ∷ []), err eof)
read_pack_in_loop-frames_example = read_pack_in_loop-frames (post ∷ post ∷ []) (omega arith)

abbrev fresh : Client
fresh = record {
  queue = record {
    read_timeout = 10;
    alive = 91;
    write_error = none;
    error_chan = [];
    notice_fin = 0;
    write_chan = [];
    w = calm;
    finished = false;
    crashed = false;
  };
  recovered = [];
  is_send_close = false;
  is_let_close = false;
  is_stop = false;
  curr_id = 0;
}

wait_pack-read_pack_example :
    (e : Option Error) × (c : Client) × (wait_pack
        (record { pack = received_pack 1 1 hello; err = none })
        fresh
      ≡ (ok e, c))
wait_pack-read_pack_example =
    wait_pack-read_pack (frame 1 1 hello ++ (5 ∷ [])) (received_pack 1 1 hello) (5 ∷ []) fresh
      read_pack-frame_example

wait_pack-answers_example :
    wait_pack (record { pack = received_pack 0 2 hello; err = none }) fresh
    ≡ (ok none, answered (answers 2 hello) (passed_on hello (received_pack 0 2 hello)) fresh)
wait_pack-answers_example = wait_pack-answers 0 2 hello fresh refl

read_length-length_bytes_example :
    read_length (length_bytes 3 (2 ^ 21) ++ (5 ∷ [])) ≡ (ok 0, 1 ∷ 5 ∷ [])
read_length-length_bytes_example = read_length-length_bytes (2 ^ 21) (5 ∷ []) (omega arith)

abbrev topics : List (Bytes × ℕ)
topics = (topic, 2) ∷ (topic, 0) ∷ []

abbrev letters : ℕ → Bytes
letters zero = []
letters (suc n) = b'a' ∷ letters n

abbrev long_topics : List (Bytes × ℕ)
long_topics = (letters 130, 1) ∷ []

get_online_msg_id-cycle_example :
    ((get_online_msg_id (after_ids 65535 fresh)).0 ≡ 65535 % 65535 + 1)
    × (1 ≤ (get_online_msg_id (after_ids 65535 fresh)).0)
    × ((get_online_msg_id (after_ids 65535 fresh)).0 ≤ 65535)
get_online_msg_id-cycle_example = get_online_msg_id-cycle 65535 fresh refl
