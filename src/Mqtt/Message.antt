-- ===== src/Mqtt/Message.antt =====
-- What a packet says, apart from how the structs of mqtt.go hold it, and the bytes that stand for it.
use lodos.Base.{
  ℕ, ◌+◌, ◌*◌, ◌/◌, ◌%◌, ◌^◌, ◌≤◌, ◌<◌, some, List, [], ◌∷◌, ◌++◌, ltb, if◌then◌else◌, length, map,
  All,
}
use lodos.Io.Reader.{Bytes}
use lodos.Mqtt.Kinds
use lodos.Mqtt.Length.{length_bytes, length_byte}
use lodos.Mqtt.Pack.{
  Pack, Variable, Topics, nil, connack, publish, puback, subscribe, suback, unsubscribe, unsuback,
}

-- The four acknowledgements that carry a message id alone.
pub data Ack : Type 0 where
  ack rec rel comp : Ack

abbrev pub ack_kind : Ack → ℕ
ack_kind ack = Kinds.puback
ack_kind rec = Kinds.pubrec
ack_kind rel = Kinds.pubrel
ack_kind comp = Kinds.pubcomp

-- The messages that DelayWritePack can write, each with its contents.
pub data Message : Type 0 where
  connection : ℕ → ℕ → Message
  published : Bytes → ℕ → Bytes → Message
  acknowledged : Ack → ℕ → Message
  subscribing : ℕ → List (Bytes × ℕ) → Message
  subscribed : ℕ → ℕ → Message
  unsubscribing : ℕ → List Bytes → Message
  unsubscribed : ℕ → Message
  pong : Message

abbrev pub kind : Message → ℕ
kind (connection reserved code) = Kinds.connack
kind (published topic mid msg) = Kinds.publish
kind (acknowledged a mid) = ack_kind a
kind (subscribing mid tops) = Kinds.subscribe
kind (subscribed mid q) = Kinds.suback
kind (unsubscribing mid names) = Kinds.unsubscribe
kind (unsubscribed mid) = Kinds.unsuback
kind pong = Kinds.pingresp

abbrev pub topic_of : Bytes × ℕ → Topics
topic_of (name, q) = record { name = some name; qos = q }

abbrev pub un_topic_of : Bytes → Topics
un_topic_of name = record { name = some name; qos = 0 }

abbrev pub variable_of : Message → Variable
variable_of (connection reserved code) =
    connack (record { reserved = reserved; return_code = code })
variable_of (published topic mid msg) =
    publish (record { topic_name = some topic; mid = mid; msg = msg })
variable_of (acknowledged a mid) = puback (record { mid = mid })
variable_of (subscribing mid tops) = subscribe (record { mid = mid; topics = map topic_of tops })
variable_of (subscribed mid q) = suback (record { mid = mid; qos = q })
variable_of (unsubscribing mid names) =
    unsubscribe (record { mid = mid; topics = map un_topic_of names })
variable_of (unsubscribed mid) = unsuback (record { mid = mid })
variable_of pong = nil

-- The packet of a message with the flags of its fixed header.
abbrev pub pack_of : ℕ → ℕ → ℕ → ℕ → Message → Pack
pack_of dup qos retain length m = record {
  msg_type = kind m;
  dup_flag = dup;
  qos_level = qos;
  retain = retain;
  length = length;
  variable = variable_of m;
}

abbrev pub be16 : ℕ → Bytes
be16 i = (i / 256) ∷ (i % 256) ∷ []

-- A string with its length in front.
abbrev pub text : Bytes → Bytes
text s = be16 (length s) ++ s

abbrev pub topics_bytes : List (Bytes × ℕ) → Bytes
topics_bytes [] = []
topics_bytes ((name, q) ∷ tops) = text name ++ (q ∷ topics_bytes tops)

abbrev pub names_bytes : List Bytes → Bytes
names_bytes [] = []
names_bytes (name ∷ names) = text name ++ names_bytes names

abbrev pub id_bytes : ℕ → ℕ → Bytes
id_bytes qos mid = if ltb 0 qos then be16 mid else []

-- What stands behind the length. A PUBLISH has its id only at a QoS above 0.
abbrev pub body : ℕ → Message → Bytes
body qos (connection reserved code) = reserved ∷ code ∷ []
body qos (published topic mid msg) = text topic ++ (id_bytes qos mid ++ msg)
body qos (acknowledged a mid) = be16 mid
body qos (subscribing mid tops) = be16 mid ++ topics_bytes tops
body qos (subscribed mid q) = be16 mid ++ (q ∷ [])
body qos (unsubscribing mid names) = be16 mid ++ names_bytes names
body qos (unsubscribed mid) = be16 mid
body qos pong = []

-- The length that DelayWritePack announces: that of the body, less the two bytes of the message id for
-- SUBSCRIBE and UNSUBSCRIBE.
abbrev pub announced : ℕ → Message → ℕ
announced qos (subscribing mid tops) = length (topics_bytes tops)
announced qos (unsubscribing mid names) = length (names_bytes names)
announced qos m = length (body qos m)

-- The bytes of it that are written: all for PUBLISH, the first for the others.
abbrev pub length_field : ℕ → Message → Bytes
length_field qos (published topic mid msg) =
    length_bytes 3 (announced qos (published topic mid msg))
length_field qos m = length_byte (announced qos m) ∷ []

abbrev pub frame : ℕ → ℕ → Message → Bytes
frame dup qos m = (kind m * 16 + dup * 8 + qos * 2) ∷ (length_field qos m ++ body qos m)

-- What the fields of the format can hold.
abbrev pub IsTopic : Bytes × ℕ → Type 0
IsTopic (name, q) = length name < 2 ^ 16

abbrev pub IsName : Bytes → Type 0
IsName name = length name < 2 ^ 16

abbrev pub Fits : ℕ → Message → Type 0
Fits qos (connection reserved code) = Unit {0}
Fits qos (published topic mid msg) =
    (length topic < 2 ^ 16)
    × (mid < 2 ^ 16)
    × (length (body qos (published topic mid msg)) < 2 ^ 28)
Fits qos (acknowledged a mid) = mid < 2 ^ 16
Fits qos (subscribing mid tops) =
    (mid < 2 ^ 16) × All IsTopic tops × (length (topics_bytes tops) < 2 ^ 28)
Fits qos (subscribed mid q) = mid < 2 ^ 16
Fits qos (unsubscribing mid names) =
    (mid < 2 ^ 16) × All IsName names × (length (names_bytes names) < 2 ^ 28)
Fits qos (unsubscribed mid) = mid < 2 ^ 16
Fits qos pong = Unit {0}

-- A topic of which ReadPack can tell that it is there: the loop wants four bytes at least.
abbrev pub IsReadable : Bytes × ℕ → Type 0
IsReadable (name, q) = (0 < length name) × (length name < 2 ^ 16)

abbrev pub IsReadableName : Bytes → Type 0
IsReadableName name = (1 < length name) × (length name < 2 ^ 16)

-- The messages whose frames ReadPack reads to their end. A PUBLISH must have a topic, two bytes or more
-- behind it, and a length of three bytes; SUBSCRIBE and UNSUBSCRIBE a length of one byte.
abbrev pub IsReceivable : ℕ → Message → Type 0
IsReceivable qos (published topic mid msg) =
    (0 < length topic)
    × (length topic < 2 ^ 16)
    × (mid < 2 ^ 16)
    × (2 ≤ length (id_bytes qos mid ++ msg))
    × (length (body qos (published topic mid msg)) < 2 ^ 21)
IsReceivable qos (subscribing mid tops) =
    (mid < 2 ^ 16) × All IsReadable tops × (length (topics_bytes tops) < 128)
IsReceivable qos (unsubscribing mid names) =
    (mid < 2 ^ 16) × All IsReadableName names × (length (names_bytes names) < 128)
IsReceivable qos m = Fits qos m

-- What the receiver has for the variable header. A CONNACK is skipped, and a PUBLISH at QoS 0 carries
-- no id.
abbrev pub received : ℕ → Message → Variable
received qos (connection reserved code) = nil
received qos (published topic mid msg) =
    publish (record { topic_name = some topic; mid = if ltb 0 qos then mid else 0; msg = msg })
received qos m = variable_of m

-- The packet that the receiver has: the retain flag is lost on the way.
abbrev pub received_pack : ℕ → ℕ → Message → Pack
received_pack dup qos m = record (pack_of dup qos 0 (announced qos m) m) {
  variable = received qos m;
}
