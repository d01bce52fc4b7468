-- ===== src/Mqtt/Read/Connects.antt =====
-- ReadPack on the CONNECT packet of a client.
use lodos.Base.{
  ℕ, ◌+◌, ◌*◌, ◌^◌, ◌<◌, ◌≤◌, ◌≡◌, refl, Bool, true, false, Option, none, some, ◌∷◌, ◌++◌, arith,
  ◌||◌, length, append_assoc, length-append, le→ltb,
}
use lodos.Io.Result.{ok}
use lodos.Io.Reader.{Bytes, read_byte}
use lodos.Mqtt.Kinds
use lodos.Mqtt.Length.{length_bytes}
use lodos.Mqtt.Message.{be16, text}
use lodos.Mqtt.Pack.{Connect, new_connect, connect}
use lodos.Mqtt.Read.{read_connect_header, read_connect, read_variable, read_pack}
use lodos.Mqtt.Read.Fields.{read_int-be16, read_string-text}
use lodos.Mqtt.Read.Login.{
  Login, is_some, flag_byte, parse_flags-flag_byte, with_will, will_bytes, will_length, WillFits,
  with_uname, with_upassword, name_bytes, name_length, NameFits, read_will-some, read_uname-name,
  read_upassword-name,
}
use lodos.Mqtt.Read.RoundTrip.{read_pack-parts, read_length-short, announced_pack}

abbrev pub flags : Login → ℕ
flags l =
    flag_byte (is_some l.uname) (is_some l.upassword) l.will_retain l.will_qos (is_some l.will)
      l.clean_session

abbrev pub optional_bytes : Login → Bytes
optional_bytes l = will_bytes l.will ++ (name_bytes l.uname ++ name_bytes l.upassword)

abbrev pub connect_body : Login → Bytes
connect_body l =
    text l.protocol
    ++ (l.version ∷ flags l ∷ (be16 l.keep_alive_timer ++ (text l.id ++ optional_bytes l)))

abbrev pub connect_header : Login → Connect
connect_header l = record new_connect {
  protocol = some l.protocol;
  version = l.version;
  keep_alive_timer = l.keep_alive_timer;
  user_name = is_some l.uname;
  password = is_some l.upassword;
  will_retain = l.will_retain;
  will_qos = l.will_qos;
  will_flag = is_some l.will;
  clean_session = l.clean_session;
  id = some l.id;
}

abbrev pub connect_of : Login → Connect
connect_of l = with_upassword l.upassword (with_uname l.uname (with_will l.will (connect_header l)))

-- What the fields of the packet can hold, and an identifier of 1 to 23 bytes.
pub record IsValid (l : Login) : Type 0 where
  pub protocol_fits : length l.protocol < 2 ^ 16
  pub timer_fits : l.keep_alive_timer < 2 ^ 16
  pub id_nonempty : 1 ≤ length l.id
  pub id_short : length l.id ≤ 23
  pub qos_fits : l.will_qos < 4
  pub will_fits : WillFits l.will
  pub uname_fits : NameFits l.uname
  pub upassword_fits : NameFits l.upassword
  pub length_fits : length (connect_body l) < 2 ^ 21

or_false : (b : Bool) → (b || false) ≡ b
or_false true = refl
or_false false = refl

read_connect_header-body :
    (l : Login) (total : ℕ) (s : Bytes)
    → IsValid l
    → length l.protocol + 4 ≤ total
    → read_connect_header total
        (text l.protocol ++ (l.version ∷ flags l ∷ (be16 l.keep_alive_timer ++ (text l.id ++ s))))
      ≡ (ok (connect_header l, 2 + length l.protocol + 4 + length l.id), s)
unfolding read_connect_header read_byte
read_connect_header-body l total s v h =
    rw (read_string-text l.protocol after_protocol v.protocol_fits) (
      rw
        (
          le→ltb total (length l.protocol + 4) h,
          read_int-be16 l.keep_alive_timer (text l.id ++ s) v.timer_fits,
        )
        (rw
          (
            parse_flags-flag_byte (is_some l.uname) (is_some l.upassword) l.will_retain
                (is_some l.will) l.clean_session l.will_qos _ v.qos_fits,
            read_string-text l.id s (omega arith),
          )
          (rw (le→ltb 23 (length l.id) v.id_short, le→ltb (length l.id) 1 v.id_nonempty)
            (rw (or_false (is_some l.uname), or_false (is_some l.upassword), or_false l.will_retain)
              (rw (or_false (is_some l.will), or_false l.clean_session))))))
  where
    after_protocol : Bytes
    after_protocol = l.version ∷ flags l ∷ (be16 l.keep_alive_timer ++ (text l.id ++ s))

length-connect_body :
    (l : Login)
    → length (connect_body l) ≡ length l.protocol + length l.id + 8 + length (optional_bytes l)
length-connect_body l = omega (
  arith,
  length-append l.protocol
      (l.version ∷ flags l ∷ (be16 l.keep_alive_timer ++ (text l.id ++ optional_bytes l))),
  length-append l.id (optional_bytes l),
)

will_length-le : (w : Option (Bytes × Bytes)) → will_length w ≤ length (will_bytes w)
will_length-le none = omega arith
will_length-le (some (topic, msg)) = omega (arith, length-append (text topic) (text msg))

name_length-le : (t : Option Bytes) → name_length t ≤ length (name_bytes t)
name_length-le none = omega arith
name_length-le (some t) = omega arith

user_name-with_will :
    (w : Option (Bytes × Bytes)) (c : Connect) → (with_will w c).user_name ≡ c.user_name
user_name-with_will none c = refl
user_name-with_will (some p) c = refl

password-with_uname :
    (t : Option Bytes) (w : Option (Bytes × Bytes)) (c : Connect)
    → (with_uname t (with_will w c)).password ≡ c.password
password-with_uname none none c = refl
password-with_uname none (some p) c = refl
password-with_uname (some t) none c = refl
password-with_uname (some t) (some p) c = refl

-- The part of CONNECT that depends on the flags.
read_connect-parts :
    (l : Login) (total : ℕ) (s : Bytes)
    → IsValid l
    → length l.protocol + length l.id + 8 + length (optional_bytes l) ≤ total
    → read_connect total (
        text l.protocol
        ++ (l.version
            ∷ flags l
            ∷ (be16 l.keep_alive_timer
                ++ (text l.id
                    ++ (will_bytes l.will
                        ++ (name_bytes l.uname ++ (name_bytes l.upassword ++ s)))))))
      ≡ (ok (connect (connect_of l)), s)
unfolding read_connect
read_connect-parts l total s v h = rw (read_connect_header-body l total after_id v (omega arith)) (
    rw
      (read_will-some total used (connect_header l) l.will after_will refl v.will_fits (
        omega
          (arith, size, will_length-le l.will, name_length-le l.uname, name_length-le l.upassword)))
      (rw
        (read_uname-name total used_will willed l.uname after_uname
          (user_name-with_will l.will (connect_header l)) v.uname_fits
          (omega (
            arith,
            size,
            will_length-le l.will,
            name_length-le l.uname,
            name_length-le l.upassword,
          ))
          (omega (
            arith,
            size,
            will_length-le l.will,
            name_length-le l.uname,
            name_length-le l.upassword,
          )))
        (rw (
          read_upassword-name total (used_will + name_length l.uname) (with_uname l.uname willed)
            l.upassword s (password-with_uname l.uname l.will (connect_header l)) v.upassword_fits
            (omega (
              arith,
              size,
              will_length-le l.will,
              name_length-le l.uname,
              name_length-le l.upassword,
            ))
            (omega (
              arith,
              size,
              will_length-le l.will,
              name_length-le l.uname,
              name_length-le l.upassword,
            ))))))
  where
    willed : Connect
    willed = with_will l.will (connect_header l)

    after_uname : Bytes
    after_uname = name_bytes l.upassword ++ s

    after_will : Bytes
    after_will = name_bytes l.uname ++ after_uname

    after_id : Bytes
    after_id = will_bytes l.will ++ after_will

    used : ℕ
    used = 2 + length l.protocol + 4 + length l.id

    used_will : ℕ
    used_will = used + will_length l.will

    size :
        length (optional_bytes l)
        ≡ length (will_bytes l.will)
          + (length (name_bytes l.uname) + length (name_bytes l.upassword))
    size = rw (
      length-append (will_bytes l.will) (name_bytes l.uname ++ name_bytes l.upassword),
      length-append (name_bytes l.uname) (name_bytes l.upassword),
    )

-- The body again, with the brackets to the right.
connect_body-append :
    (l : Login) (s : Bytes)
    → connect_body l ++ s
      ≡ text l.protocol
        ++ (l.version
            ∷ flags l
            ∷ (be16 l.keep_alive_timer
                ++ (text l.id
                    ++ (will_bytes l.will
                        ++ (name_bytes l.uname ++ (name_bytes l.upassword ++ s))))))
connect_body-append l s = simp append_assoc

-- ReadPack reads the CONNECT packet of a client whole: every field comes back as it was sent, the will,
-- the user name and the password where the flags announce them, and the bytes behind it stay.
pub read_pack-connect :
    (dup qos : ℕ) (l : Login) (s : Bytes)
    → dup < 2
    → qos < 4
    → IsValid l
    → read_pack (
        ((Kinds.connect * 16 + dup * 8 + qos * 2)
          ∷ (length_bytes 3 (length (connect_body l)) ++ connect_body l))
        ++ s)
      ≡ (
        ok (
            announced_pack Kinds.connect dup qos
              (length (connect_body l))
              (connect (connect_of l))),
        s,
      )
unfolding read_variable
read_pack-connect dup qos l s hd hq v =
    read_pack-parts Kinds.connect dup qos (length (connect_body l)) _ (connect_body l) s _ hd hq
      (read_length-short _ (connect_body l ++ s) v.length_fits)
      (rw (connect_body-append l s)
        (read_connect-parts l (length (connect_body l)) s v (omega (arith, length-connect_body l))))
