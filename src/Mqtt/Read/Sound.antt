-- ===== src/Mqtt/Read/Sound.antt =====
-- ReadPack answers on every stream of bytes.
use lodos.Base.{
  ℕ, zero, suc, ◌+◌, ◌-◌, ◌<◌, ◌≤◌, ◌≡◌, refl, List, [], ◌∷◌, ◌++◌, arith, ltb, length, some,
  Bool-cases, inl, inr, ap, length-append, ltb→lt, le→leb, le→ltb, Bool, true, false, ◌||◌,
  if◌then◌else◌,
}
use lodos.Io.Result.{Result, ok, err, eof, panic, stuck, pure, fail_if, ◌>>◌, Error}
use lodos.Io.Reader.{Bytes, Reader, read_byte}
use lodos.Io.Reader.Sound.{
  Answers, IsSound, IsSound-read_full, IsSound-bind, IsSound-if, IsSound-pure, IsSound-read_byte,
  IsSound-attempt, IsSound-unchecked, sound_rules,
}
use lodos.Mqtt.Length.Sound.{IsSound-read_length}
use lodos.Mqtt.Pack.{Pack, Topics, Connect}
use lodos.Mqtt.Read.{
  read_int, read_string, read_will, read_uname, read_upassword, read_connect_header, read_connect,
  read_message, read_publish, read_puback, read_topics, read_subscribe, read_suback, read_un_topics,
  read_unsubscribe, read_unsuback, skip, read_variable, read_rest, read_pack,
}

pub read_int-Answers : (s : Bytes) → Answers s (read_int s)
unfolding read_int
read_int-Answers [] = ([], refl)
read_int-Answers (a ∷ []) = (a ∷ [], refl)
read_int-Answers (a ∷ b ∷ s) = rw (le→leb 2 (length (a ∷ b ∷ s)) (omega arith)) (a ∷ b ∷ [], refl)

IsSound-read_int : IsSound read_int
IsSound-read_int = record { at = read_int-Answers }

IsSound-read_string : IsSound read_string
unfolding read_string
IsSound-read_string = search (sound_rules, IsSound-read_int)

IsSound-read_topics :
    (fuel vlen : ℕ) (acc : List Topics) → vlen < fuel → IsSound (read_topics fuel vlen acc)
unfolding read_topics
IsSound-read_topics zero vlen acc h = absurd (omega arith)
IsSound-read_topics (suc fuel) vlen acc h = record {
  at = λ s. elim (Bool-cases (ltb 3 vlen)) [
    | inl e ↦ rw e (
        (IsSound-attempt read_int _ (pure acc) IsSound-read_int
            (λ nlen. IsSound-unchecked nlen _ (λ buf.
              IsSound-attempt read_byte _ (pure acc) IsSound-read_byte
                (λ q.
                  IsSound-read_topics fuel (vlen - 2 - nlen - 1)
                    (acc ++ (record { name = some buf; qos = q } ∷ []))
                    (ground (arith, ltb→lt 3 vlen e)))
                (IsSound-pure acc)))
            (IsSound-pure acc)).at
          s)
    | inr e ↦ rw e ([], refl)
  ];
}

IsSound-read_un_topics :
    (fuel vlen : ℕ) (acc : List Topics) → vlen < fuel → IsSound (read_un_topics fuel vlen acc)
unfolding read_un_topics
IsSound-read_un_topics zero vlen acc h = absurd (omega arith)
IsSound-read_un_topics (suc fuel) vlen acc h = record {
  at = λ s. elim (Bool-cases (ltb 3 vlen)) [
    | inl e ↦ rw e (
        (IsSound-attempt read_int _ (pure acc) IsSound-read_int
            (λ nlen. IsSound-unchecked nlen _ (λ buf.
              IsSound-read_un_topics fuel (vlen - 2 - nlen)
                (acc ++ (record { name = some buf; qos = 0 } ∷ []))
                (ground (arith, ltb→lt 3 vlen e))))
            (IsSound-pure acc)).at
          s)
    | inr e ↦ rw e ([], refl)
  ];
}

IsSound-read_will : (n : ℕ) (c : Connect × ℕ) → IsSound (read_will n c)
unfolding read_will
IsSound-read_will n (conn, used) = search (sound_rules, IsSound-read_string) depth 9

IsSound-read_uname : (n : ℕ) (c : Connect × ℕ) → IsSound (read_uname n c)
unfolding read_uname
IsSound-read_uname n (conn, used) = search (sound_rules, IsSound-read_string) depth 9

IsSound-read_upassword : (n : ℕ) (c : Connect × ℕ) → IsSound (read_upassword n c)
unfolding read_upassword
IsSound-read_upassword n (conn, used) = search (sound_rules, IsSound-read_string) depth 9

IsSound-read_connect_header : (n : ℕ) → IsSound (read_connect_header n)
unfolding read_connect_header
IsSound-read_connect_header n = search (sound_rules, IsSound-read_string, IsSound-read_int) depth 12

ruleset field_rules = (
  sound_rules, IsSound-read_int, IsSound-read_string, IsSound-read_will, IsSound-read_uname,
  IsSound-read_upassword, IsSound-read_connect_header,
)

IsSound-read_connect : (n : ℕ) → IsSound (read_connect n)
unfolding read_connect
IsSound-read_connect n = search field_rules depth 9

-- Behind a test that fails, what follows may use that it did not.
IsSound-guarded :
    {A : Type 0} (b : Bool) (e : Error) (k : Reader A)
    → (b ≡ false → IsSound k)
    → IsSound (fail_if b e >> k)
IsSound-guarded true e k h = record { at = λ s. ([], refl) }
IsSound-guarded false e k h = record { at = λ s. (h refl).at s }

IsSound-read_message : (n used : ℕ) → used ≤ n → IsSound (read_message n used)
IsSound-read_message n used h = rw (le→ltb n used h) (IsSound-read_full (n - used))

-- The length of the message behind the tests of PUBLISH is not negative.
used-le :
    (b : Bool) (n k : ℕ) → (ltb k 1 || ltb n (k + 4)) ≡ false → (if b then k + 2 + 2 else k + 2) ≤ n
used-le true n k h = ground (arith, h)
used-le false n k h = ground (arith, h)

IsSound-read_publish : (qos n : ℕ) → IsSound (read_publish qos n)
unfolding read_publish
IsSound-read_publish qos n = IsSound-bind read_string _ IsSound-read_string λ (topic, k).
    IsSound-guarded _ _ _ λ h.
      IsSound-bind (if ltb 0 qos then read_int else pure 0) _
        (IsSound-if (ltb 0 qos) _ _ IsSound-read_int (IsSound-pure 0))
        λ mid.
          IsSound-bind (read_message n _) _ (IsSound-read_message n _ (used-le (ltb 0 qos) n k h))
            λ msg. IsSound-pure _

IsSound-read_puback : (n : ℕ) → IsSound (read_puback n)
unfolding read_puback
IsSound-read_puback n = search field_rules

IsSound-read_subscribe : (n : ℕ) → IsSound (read_subscribe n)
unfolding read_subscribe
IsSound-read_subscribe n =
    search (field_rules, λ (acc : List Topics). IsSound-read_topics (n + 1) n acc (omega arith))

IsSound-read_suback : (n : ℕ) → IsSound (read_suback n)
unfolding read_suback
IsSound-read_suback n = search field_rules

IsSound-read_unsubscribe : (n : ℕ) → IsSound (read_unsubscribe n)
unfolding read_unsubscribe
IsSound-read_unsubscribe n =
    search (field_rules, λ (acc : List Topics). IsSound-read_un_topics (n + 1) n acc (omega arith))

IsSound-read_unsuback : (n : ℕ) → IsSound (read_unsuback n)
unfolding read_unsuback
IsSound-read_unsuback n = search field_rules

IsSound-skip : (n : ℕ) → IsSound (skip n)
unfolding skip
IsSound-skip n = search field_rules

IsSound-read_variable : (pack : Pack) → IsSound (read_variable pack)
unfolding read_variable
IsSound-read_variable pack =
    search
      (
        IsSound-if, IsSound-pure, IsSound-read_connect, IsSound-read_publish, IsSound-read_puback,
        IsSound-read_subscribe, IsSound-read_suback, IsSound-read_unsubscribe,
        IsSound-read_unsuback, IsSound-skip,
      )
      depth 16

IsSound-read_rest : (fixed : ℕ) → IsSound (read_rest fixed)
unfolding read_rest
IsSound-read_rest fixed = search (sound_rules, IsSound-read_length, IsSound-read_variable)

IsSound-read_pack : IsSound read_pack
unfolding read_pack
IsSound-read_pack = IsSound-bind read_byte read_rest IsSound-read_byte IsSound-read_rest

-- Every stream of bytes gets an answer from ReadPack: a packet or an error. It does not panic and its
-- loops end, and what it leaves is the end of the stream.
pub read_pack-Answers : (s : Bytes) → Answers s (read_pack s)
read_pack-Answers s = IsSound-read_pack.at s

Answers-length :
    {A : Type 0} (s : Bytes) (r : Result A × Bytes) (a : A) (rest : Bytes)
    → Answers s r
    → r ≡ (ok a, rest)
    → length rest ≤ length s
Answers-length s (ok b, t) a rest (front, h) e = ground (arith, ap length h, length-append front t)
Answers-length s (err x, t) a rest h e = cc
Answers-length s (panic, t) a rest h e = absurd h
Answers-length s (stuck, t) a rest h e = absurd h

-- A packet takes a byte at least.
pub read_pack-shorter :
    (s : Bytes) (p : Pack) (rest : Bytes) → read_pack s ≡ (ok p, rest) → length rest < length s
unfolding read_pack read_byte
read_pack-shorter [] p rest e = cc
read_pack-shorter (b ∷ s) p rest e =
    omega (arith, Answers-length s (read_rest b s) p rest ((IsSound-read_rest b).at s) e)

pub read_pack-nil : read_pack [] ≡ (err eof, [])
unfolding read_pack read_byte
read_pack-nil = refl
