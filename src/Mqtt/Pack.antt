-- ===== src/Mqtt/Pack.antt =====
-- The packet of gate/base/mqtt/mqtt.go with its variable headers, its accessors and the functions
-- that make packets. A Go string is its bytes; a pointer to a string is an Option, `none` for nil.
-- A Go `byte` or `int` is a number; the reader and the writer wrap where Go does.
use lodos.Base.{ℕ, Bool, true, false, Option, none, some, List, [], ◌∷◌, ◌++◌, if◌then◌else◌, not}
use lodos.Io.Reader.{Bytes}
use lodos.Mqtt.Kinds

pub record Connect : Type 0 where
  pub protocol : Option Bytes
  pub version : ℕ
  pub keep_alive_timer : ℕ
  pub return_code : ℕ
  pub user_name : Bool
  pub password : Bool
  pub will_retain : Bool
  pub will_qos : ℕ
  pub will_flag : Bool
  pub clean_session : Bool
  pub rserved : Bool
  pub id : Option Bytes
  pub will_topic : Option Bytes
  pub will_msg : Option Bytes
  pub uname : Option Bytes
  pub upassword : Option Bytes

pub record Connack : Type 0 where
  pub reserved : ℕ
  pub return_code : ℕ

pub record Publish : Type 0 where
  pub topic_name : Option Bytes
  pub mid : ℕ
  pub msg : Bytes

pub record Puback : Type 0 where
  pub mid : ℕ

pub record Topics : Type 0 where
  pub name : Option Bytes
  pub qos : ℕ

pub record Subscribe : Type 0 where
  pub mid : ℕ
  pub topics : List Topics

pub record Suback : Type 0 where
  pub mid : ℕ
  pub qos : ℕ

pub record UnSubscribe : Type 0 where
  pub mid : ℕ
  pub topics : List Topics

pub record UnSuback : Type 0 where
  pub mid : ℕ

-- `variable interface{}`: nil, or a pointer to one of the structs above.
pub data Variable : Type 0 where
  nil : Variable
  connect : Connect → Variable
  connack : Connack → Variable
  publish : Publish → Variable
  puback : Puback → Variable
  subscribe : Subscribe → Variable
  suback : Suback → Variable
  unsubscribe : UnSubscribe → Variable
  unsuback : UnSuback → Variable

pub record Pack : Type 0 where
  pub msg_type : ℕ
  pub dup_flag : ℕ
  pub qos_level : ℕ
  pub retain : ℕ
  pub length : ℕ
  pub variable : Variable

-- `new(T)`: every field is zero, false or nil.
abbrev pub new_pack : Pack
new_pack = record {
  msg_type = 0;
  dup_flag = 0;
  qos_level = 0;
  retain = 0;
  length = 0;
  variable = nil;
}

abbrev pub new_connect : Connect
new_connect = record {
  protocol = none;
  version = 0;
  keep_alive_timer = 0;
  return_code = 0;
  user_name = false;
  password = false;
  will_retain = false;
  will_qos = 0;
  will_flag = false;
  clean_session = false;
  rserved = false;
  id = none;
  will_topic = none;
  will_msg = none;
  uname = none;
  upassword = none;
}

abbrev pub set_type : ℕ → Pack → Pack
set_type typ pack = record pack { msg_type = typ }

abbrev pub set_dup : ℕ → Pack → Pack
set_dup dup pack = record pack { dup_flag = dup }

abbrev pub set_qos : ℕ → Pack → Pack
set_qos qos pack = record pack { qos_level = qos }

-- The setters of `Puback`, and `addTopics`.
abbrev pub set_mid : ℕ → Puback → Puback
set_mid id ack = record ack { mid = id }

abbrev pub add_topics : Topics → Subscribe → Subscribe
add_topics top sub = record sub { topics = sub.topics ++ (top ∷ []) }

abbrev pub add_un_topics : Topics → UnSubscribe → UnSubscribe
add_un_topics top sub = record sub { topics = sub.topics ++ (top ∷ []) }

unfoldable pub get_user_name : Connect → Option Bytes
get_user_name c = if not c.user_name then some [] else c.uname

unfoldable pub get_password : Connect → Option Bytes
get_password c = if not c.password then some [] else c.upassword

unfoldable pub get_will_msg : Connect → Bool × Option Bytes × Option Bytes
get_will_msg c =
    if not c.will_flag then (false, some [], some []) else (true, c.will_topic, c.will_msg)

unfoldable pub get_conn_ack_pack : ℕ → Pack
get_conn_ack_pack return_code = record (set_type Kinds.connack new_pack) {
  variable = connack (record { reserved = 0; return_code = return_code });
}

unfoldable pub get_pub_pack : ℕ → ℕ → ℕ → Option Bytes → Bytes → Pack
get_pub_pack qos dup mid topic msg =
    record (set_type Kinds.publish (set_dup dup (set_qos qos new_pack))) {
      variable = publish (record { topic_name = topic; mid = mid; msg = msg });
    }

abbrev new_puback : Puback
new_puback = record { mid = 0 }

unfoldable pub get_pub_ack_pack : ℕ → Pack
get_pub_ack_pack mid = record (set_type Kinds.puback new_pack) {
  variable = puback (set_mid mid new_puback);
}

unfoldable pub get_pub_rec_pack : ℕ → Pack
get_pub_rec_pack mid = record (set_type Kinds.pubrec new_pack) {
  variable = puback (set_mid mid new_puback);
}

unfoldable pub get_pub_rel_pack : ℕ → Pack
get_pub_rel_pack mid = record (set_dup 0 (set_qos 1 (set_type Kinds.pubrel new_pack))) {
  variable = puback (set_mid mid new_puback);
}

unfoldable pub get_pub_comp_pack : ℕ → Pack
get_pub_comp_pack mid = record (set_type Kinds.pubcomp new_pack) {
  variable = puback (set_mid mid new_puback);
}

unfoldable pub get_sub_ack_pack : ℕ → Pack
get_sub_ack_pack mid = record (set_type Kinds.suback new_pack) {
  variable = suback (record { mid = mid; qos = 0 });
}

unfoldable pub get_unsub_ack_pack : ℕ → Pack
get_unsub_ack_pack mid = record (set_type Kinds.unsuback new_pack) {
  variable = unsuback (record { mid = mid });
}

unfoldable pub get_ping_resp : ℕ → ℕ → Pack
get_ping_resp qos dup = set_type Kinds.pingresp (set_dup dup (set_qos qos new_pack))
