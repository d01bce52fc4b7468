-- ===== src/Mqtt/Read.antt =====
-- ReadPack of gate/base/mqtt/mqtt.go. Go returns a half-filled packet beside an error; its callers
-- test the error first, so here there is the error alone.
pub mod Sound
pub mod Tags
pub mod Fields
pub mod TopicLists
pub mod RoundTrip
pub mod Peers
pub mod Lenient
pub mod Login
pub mod Connects
use lodos.Base.{
  ℕ, zero, suc, ◌+◌, ◌-◌, ◌*◌, ◌/◌, ◌%◌, Bool, Option, none, some, List, [], ◌∷◌, ◌++◌, ltb, ◌==◌,
  ◌&&◌, ◌||◌, if◌then◌else◌,
}
use lodos.Io.Result.{
  Io, length_error, out_of_range, identifier_rejected, bad_length, pure, fail, fail_if, crash,
  out_of_fuel, attempt, ◌>>=◌, ◌>>◌,
}
use lodos.Io.Reader.{Bytes, Reader, read_byte, read_full, read_full_unchecked}
use lodos.Mqtt.Kinds
use lodos.Mqtt.Length.{read_length}
use lodos.Mqtt.Pack.{
  Pack, Variable, Connect, Topics, nil, connect, publish, puback, subscribe, suback, unsubscribe,
  unsuback, new_connect,
}

-- `binary.BigEndian.Uint16`
be_uint16 : Bytes → Reader ℕ
be_uint16 (a ∷ b ∷ _) = pure (a * 256 + b)
be_uint16 _ = crash

-- Every call of readInt has length 2.
pub read_int : Reader ℕ
unfolding read_full be_uint16
read_int = do buf ← read_full 2; be_uint16 buf

-- The string and its length.
pub read_string : Reader (Bytes × ℕ)
read_string = do
  nn ← read_int
  if ltb 0 nn then (do buf ← read_full nn; pure (buf, nn)) else pure ([], nn)

-- The flags stand at 128, 64, 32, 16 + 8, 4, 2 and 1; `b & (2 ^ k - 1)` is `b % 2 ^ k`.
unfoldable pub parse_flags : ℕ → Connect → Connect
parse_flags b flag =
    let b1 = b % 128 in
    let b2 = b1 % 64 in
    let b3 = b2 % 32 in
    let b4 = b3 % 8 in
    let b5 = b4 % 4 in
    record flag {
      user_name = ltb 0 (b / 128) || flag.user_name;
      password = ltb 0 (b1 / 64) || flag.password;
      will_retain = ltb 0 (b2 / 32) || flag.will_retain;
      will_qos = b3 / 8;
      will_flag = ltb 0 (b4 / 4) || flag.will_flag;
      clean_session = ltb 0 (b5 / 2) || flag.clean_session;
      rserved = ltb 0 (b5 % 2) || flag.rserved;
    }

-- `playload_len` is `length - used` as a signed number, and the code tests its sign alone: it is kept
-- as the sum `used` of what was taken off the packet's length.
pub read_will : ℕ → Connect × ℕ → Reader (Connect × ℕ)
read_will length (conn, used) =
    if conn.will_flag
    then (do
      (will_topic', n) ← read_string
      fail_if (ltb length (used + n)) length_error
      (will_msg', n') ← read_string
      pure
          (record conn { will_topic = some will_topic'; will_msg = some will_msg' }, used + n + n'))
    else pure (conn, used)

pub read_uname : ℕ → Connect × ℕ → Reader (Connect × ℕ)
read_uname length (conn, used) =
    if conn.user_name && ltb used length
    then (do
      (uname', n) ← read_string
      fail_if (ltb length (used + n)) length_error
      pure (record conn { uname = some uname' }, used + n))
    else pure (conn, used)

pub read_upassword : ℕ → Connect × ℕ → Reader (Connect × ℕ)
read_upassword length (conn, used) =
    if conn.password && ltb used length
    then (do
      (upassword', n) ← read_string
      fail_if (ltb length (used + n)) length_error
      pure (record conn { upassword = some upassword' }, used + n))
    else pure (conn, used)

-- The case CONNECT up to the client identifier.
pub read_connect_header : ℕ → Reader (Connect × ℕ)
read_connect_header length = do
  (protocol', n) ← read_string
  fail_if (ltb length (n + 4)) out_of_range
  version' ← read_byte
  flags ← read_byte
  keep_alive_timer' ← read_int
  let conn = parse_flags flags (record new_connect {
    protocol = some protocol';
    version = version';
    keep_alive_timer = keep_alive_timer';
  })
  (id', n') ← read_string
  fail_if (ltb 23 n' || ltb n' 1) identifier_rejected
  fail_if (ltb n' 1 && (conn.will_flag || conn.password)) length_error
  pure (record conn { id = some id' }, 2 + n + 4 + n')

pub read_connect : ℕ → Reader Variable
read_connect length = do
  header ← read_connect_header length
  will ← read_will length header
  named ← read_uname length will
  (conn, used) ← read_upassword length named
  pure (connect conn)

-- `make([]byte, length - used)`, which panics at a negative length, and the io.ReadFull into it.
abbrev pub read_message : ℕ → ℕ → Reader Bytes
read_message length used = if ltb length used then crash else read_full (length - used)

pub read_publish : ℕ → ℕ → Reader Variable
read_publish qos length = do
  (topic, n) ← read_string
  fail_if (ltb n 1 || ltb length (n + 4)) length_error
  mid ← if ltb 0 qos then read_int else pure 0
  msg ← read_message length (if ltb 0 qos then n + 2 + 2 else n + 2)
  pure (publish (record { topic_name = some topic; mid = mid; msg = msg }))

-- PUBACK, PUBREL, PUBREC and PUBCOMP have the same case.
pub read_puback : ℕ → Reader Variable
read_puback length =
    if length == 2
    then (do mid ← read_int; pure (puback (record { mid = mid })))
    else fail bad_length

-- The loop `for vlen > 3` of SUBSCRIBE. Its `err` is a variable of its own, so a `break` on an error
-- ends the loop and leaves the function's `err` nil. The first argument is fuel.
pub read_topics : ℕ → ℕ → List Topics → Reader (List Topics)
read_topics zero vlen topics s = out_of_fuel s
read_topics (suc fuel) vlen topics s =
    let round =
      attempt (read_int s)
        (λ nlen s'.
          let (buf, s'') = read_full_unchecked nlen s' in
          attempt (read_byte s'')
            (λ q.
              read_topics fuel (vlen - 2 - nlen - 1)
                (topics ++ (record { name = some buf; qos = q } ∷ [])))
            (pure topics))
        (pure topics) in
    if ltb 3 vlen then round else pure topics s

pub read_subscribe : ℕ → Reader Variable
read_subscribe length = do
  mid ← read_int
  topics ← read_topics (length + 1) length []
  pure (subscribe (record { mid = mid; topics = topics }))

pub read_suback : ℕ → Reader Variable
read_suback length =
    if length == 3
    then (do mid ← read_int; q ← read_byte; pure (suback (record { mid = mid; qos = q })))
    else fail bad_length

-- The loop of UNSUBSCRIBE, where the error of `io.ReadFull` is dropped too.
pub read_un_topics : ℕ → ℕ → List Topics → Reader (List Topics)
read_un_topics zero vlen topics s = out_of_fuel s
read_un_topics (suc fuel) vlen topics s =
    let round =
      attempt (read_int s)
        (λ nlen s'.
          let (buf, s'') = read_full_unchecked nlen s' in
          read_un_topics fuel (vlen - 2 - nlen)
            (topics ++ (record { name = some buf; qos = 0 } ∷ [])) s'')
        (pure topics) in
    if ltb 3 vlen then round else pure topics s

pub read_unsubscribe : ℕ → Reader Variable
read_unsubscribe length = do
  mid ← read_int
  topics ← read_un_topics (length + 1) length []
  pure (unsubscribe (record { mid = mid; topics = topics }))

pub read_unsuback : ℕ → Reader Variable
read_unsuback length =
    if length == 2
    then (do mid ← read_int; pure (unsuback (record { mid = mid })))
    else fail bad_length

-- What is left of a packet of another type is read and dropped.
pub skip : ℕ → Reader Variable
skip length = if ltb 0 length then (do buf ← read_full length; pure nil) else pure nil

pub read_variable : Pack → Reader Variable
read_variable pack =
    let typ = pack.msg_type in
    let length = pack.length in
    if typ == Kinds.connect
    then read_connect length
    else if typ == Kinds.publish
    then read_publish pack.qos_level length
    else if typ == Kinds.puback
    then read_puback length
    else if typ == Kinds.pubrel
    then read_puback length
    else if typ == Kinds.pubrec
    then read_puback length
    else if typ == Kinds.pubcomp
    then read_puback length
    else if typ == Kinds.subscribe
    then read_subscribe length
    else if typ == Kinds.suback
    then read_suback length
    else if typ == Kinds.unsubscribe
    then read_unsubscribe length
    else if typ == Kinds.unsuback
    then read_unsuback length
    else if typ == Kinds.pingreq
    then pure nil
    else if typ == Kinds.disconnect
    then pure nil
    else skip length

-- The first byte of a packet.
unfoldable pub parse_fixed : ℕ → ℕ → Pack
parse_fixed fixed length = record {
  msg_type = fixed / 16;
  dup_flag = fixed % 16 / 8;
  qos_level = fixed % 16 % 8 / 2;
  retain = fixed % 16 % 8 % 2;
  length = length;
  variable = nil;
}

-- ReadPack behind the first byte.
read_rest : ℕ → Reader Pack
read_rest fixed = do
  length ← read_length
  let pack = parse_fixed fixed length
  variable ← read_variable pack
  pure (record pack { variable = variable })

pub read_pack : Reader Pack
unfolding read_rest
read_pack = do fixed ← read_byte; read_rest fixed
