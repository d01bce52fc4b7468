-- ===== src/Mqtt/Read/Login.antt =====
-- The CONNECT packet of a client, as the protocol prescribes it.
use lodos.Base.{
  ℕ, ◌+◌, ◌*◌, ◌/◌, ◌%◌, ◌^◌, ◌<◌, ◌≤◌, ◌≡◌, Bool, true, false, Option, none, some, [], ◌++◌, arith,
  ltb, length, append_assoc, le→ltb, lt→ltb, ◌||◌,
}
use native.Mathlib.Nat.{add-zero, add_assoc}
use lodos.Io.Result.{ok}
use lodos.Io.Reader.{Bytes}
use lodos.Mqtt.Message.{text}
use lodos.Mqtt.Pack.{Connect}
use lodos.Mqtt.Read.{parse_flags, read_will, read_uname, read_upassword}
use lodos.Mqtt.Read.Fields.{read_string-text}

pub record Login : Type 0 where
  pub protocol : Bytes
  pub version : ℕ
  pub keep_alive_timer : ℕ
  pub clean_session : Bool
  pub id : Bytes
  pub will_retain : Bool
  pub will_qos : ℕ
  pub will : Option (Bytes × Bytes)
  pub uname : Option Bytes
  pub upassword : Option Bytes

abbrev pub bit : Bool → ℕ
bit true = 1
bit false = 0

abbrev pub is_some {ℓ} : {A : Type ℓ} → Option A → Bool
is_some none = false
is_some (some a) = true

abbrev pub flag_byte : Bool → Bool → Bool → ℕ → Bool → Bool → ℕ
flag_byte u p r q w c =
    bit u * 128 + (bit p * 64 + (bit r * 32 + (q * 8 + (bit w * 4 + (bit c * 2 + 0)))))

-- The top bit of a field of bits, and what is below it.
top_bit : (b : Bool) (k r : ℕ) → r < k → ltb 0 ((bit b * k + r) / k) ≡ b
top_bit true k r h = lt→ltb 0 _ (grind arith)
top_bit false k r h = le→ltb 0 _ (grind arith)

low_bits : (b : Bool) (k r : ℕ) → r < k → (bit b * k + r) % k ≡ r
low_bits true k r h = grind arith
low_bits false k r h = grind arith

bit-le : (b : Bool) → bit b ≤ 1
bit-le true = omega arith
bit-le false = omega arith

-- The eight bits of the flag byte come back as the fields of the struct; the reserved one is 0.
pub parse_flags-flag_byte :
    (u p r w c : Bool) (q : ℕ) (conn : Connect)
    → q < 4
    → parse_flags (flag_byte u p r q w c) conn ≡ record conn {
      user_name = u || conn.user_name;
      password = p || conn.password;
      will_retain = r || conn.will_retain;
      will_qos = q;
      will_flag = w || conn.will_flag;
      clean_session = c || conn.clean_session;
    }
unfolding parse_flags
parse_flags-flag_byte u p r w c q conn h =
    rw
      (
        low_bits u 128 b1 (omega (arith, bit-le u, bit-le p, bit-le r, bit-le w, bit-le c)),
        top_bit u 128 b1 (omega (arith, bit-le u, bit-le p, bit-le r, bit-le w, bit-le c)),
      )
      (rw
        (
          low_bits p 64 b2 (omega (arith, bit-le u, bit-le p, bit-le r, bit-le w, bit-le c)),
          top_bit p 64 b2 (omega (arith, bit-le u, bit-le p, bit-le r, bit-le w, bit-le c)),
        )
        (rw
          (
            low_bits r 32 b3 (omega (arith, bit-le u, bit-le p, bit-le r, bit-le w, bit-le c)),
            top_bit r 32 b3 (omega (arith, bit-le u, bit-le p, bit-le r, bit-le w, bit-le c)),
          )
          (rw (q_low, q_high)
            (rw
              (
                low_bits w 4 b5 (omega (arith, bit-le u, bit-le p, bit-le r, bit-le w, bit-le c)),
                top_bit w 4 b5 (omega (arith, bit-le u, bit-le p, bit-le r, bit-le w, bit-le c)),
              )
              (rw (low_bits c 2 0 (omega arith), top_bit c 2 0 (omega arith)))))))
  where
    b5 : ℕ
    b5 = bit c * 2 + 0

    b4 : ℕ
    b4 = bit w * 4 + b5

    q_low : (q * 8 + b4) % 8 ≡ b4
    q_low = omega (arith, bit-le u, bit-le p, bit-le r, bit-le w, bit-le c)

    q_high : (q * 8 + b4) / 8 ≡ q
    q_high = omega (arith, bit-le u, bit-le p, bit-le r, bit-le w, bit-le c)

    b3 : ℕ
    b3 = q * 8 + b4

    b2 : ℕ
    b2 = bit r * 32 + b3

    b1 : ℕ
    b1 = bit p * 64 + b2

-- What the reader makes of the optional parts.
abbrev pub with_will : Option (Bytes × Bytes) → Connect → Connect
with_will none conn = conn
with_will (some (topic, msg)) conn = record conn { will_topic = some topic; will_msg = some msg }

abbrev pub will_bytes : Option (Bytes × Bytes) → Bytes
will_bytes none = []
will_bytes (some (topic, msg)) = text topic ++ text msg

abbrev pub will_length : Option (Bytes × Bytes) → ℕ
will_length none = 0
will_length (some (topic, msg)) = length topic + length msg

abbrev pub WillFits : Option (Bytes × Bytes) → Type 0
WillFits none = Unit {0}
WillFits (some (topic, msg)) = (length topic < 2 ^ 16) × (length msg < 2 ^ 16)

abbrev pub name_bytes : Option Bytes → Bytes
name_bytes none = []
name_bytes (some t) = text t

abbrev pub name_length : Option Bytes → ℕ
name_length none = 0
name_length (some t) = length t

abbrev pub NameFits : Option Bytes → Type 0
NameFits none = Unit {0}
NameFits (some t) = length t < 2 ^ 16

pub read_will-some :
    (total used : ℕ) (conn : Connect) (will : Option (Bytes × Bytes)) (s : Bytes)
    → conn.will_flag ≡ is_some will
    → WillFits will
    → used + will_length will ≤ total
    → read_will total (conn, used) (will_bytes will ++ s)
      ≡ (ok (with_will will conn, used + will_length will), s)
unfolding read_will
read_will-some total used conn none s hf h hl = rw (hf, add-zero used)
read_will-some total used conn (some (topic, msg)) s hf (ht, hm) hl =
    rw (hf, append_assoc (text topic) (text msg) s, read_string-text topic (text msg ++ s) ht)
      (rw (le→ltb total (used + length topic) (omega arith))
        (rw (read_string-text msg s hm) (rw (add_assoc used (length topic) (length msg)))))

abbrev pub with_uname : Option Bytes → Connect → Connect
with_uname none conn = conn
with_uname (some t) conn = record conn { uname = some t }

abbrev pub with_upassword : Option Bytes → Connect → Connect
with_upassword none conn = conn
with_upassword (some t) conn = record conn { upassword = some t }

pub read_uname-name :
    (total used : ℕ) (conn : Connect) (name : Option Bytes) (s : Bytes)
    → conn.user_name ≡ is_some name
    → NameFits name
    → used < total
    → used + name_length name ≤ total
    → read_uname total (conn, used) (name_bytes name ++ s)
      ≡ (ok (with_uname name conn, used + name_length name), s)
unfolding read_uname
read_uname-name total used conn none s hf h h0 hl = rw (hf, add-zero used)
read_uname-name total used conn (some t) s hf h h0 hl =
    rw (hf, lt→ltb used total h0)
      (rw (read_string-text t s h) (rw (le→ltb total (used + length t) hl)))

pub read_upassword-name :
    (total used : ℕ) (conn : Connect) (name : Option Bytes) (s : Bytes)
    → conn.password ≡ is_some name
    → NameFits name
    → used < total
    → used + name_length name ≤ total
    → read_upassword total (conn, used) (name_bytes name ++ s)
      ≡ (ok (with_upassword name conn, used + name_length name), s)
unfolding read_upassword
read_upassword-name total used conn none s hf h h0 hl = rw (hf, add-zero used)
read_upassword-name total used conn (some t) s hf h h0 hl =
    rw (hf, lt→ltb used total h0)
      (rw (read_string-text t s h) (rw (le→ltb total (used + length t) hl)))
