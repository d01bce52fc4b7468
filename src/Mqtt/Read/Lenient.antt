-- ===== src/Mqtt/Read/Lenient.antt =====
-- SUBSCRIBE and UNSUBSCRIBE packets that are cut off, and those too long for their length field.
use lodos.Base.{
  ℕ, zero, suc, ◌+◌, ◌-◌, ◌*◌, ◌<◌, ◌≡◌, refl, List, [], ◌∷◌, ◌++◌, arith, ltb, some, Bool-cases,
  inl, inr, ltb→lt,
}
use lodos.Io.Result.{Result, ok, err, panic, stuck, pure, attempt}
use lodos.Io.Reader.{Bytes, Reader, read_byte, read_full_unchecked}
use lodos.Io.Reader.Sound.{Answers, read_byte-Answers}
use lodos.Mqtt.Pack.{Topics, subscribe, unsubscribe}
use lodos.Mqtt.Read.{read_int, read_topics, read_subscribe, read_un_topics, read_unsubscribe}
use lodos.Mqtt.Read.Fields.{read_int-two}
use lodos.Mqtt.Read.Sound.{read_int-Answers}

-- A call that ended with a value.
abbrev pub Returns : {A : Type 0} → Result A × Bytes → Type 0
Returns {A} r = (a : A) × (rest : Bytes) × (r ≡ (ok a, rest))

attempt-Returns :
    {A B : Type 0} (s : Bytes) (r : Result A × Bytes) (f : A → Reader B) (g : Reader B)
    → Answers s r
    → ((a : A) (t : Bytes) → Returns (f a t))
    → ((t : Bytes) → Returns (g t))
    → Returns (attempt r f g)
attempt-Returns s (ok a, t) f g h hf hg = hf a t
attempt-Returns s (err e, t) f g h hf hg = hg t
attempt-Returns s (panic, t) f g h hf hg = absurd h
attempt-Returns s (stuck, t) f g h hf hg = absurd h

read_topics-Returns :
    (fuel vlen : ℕ) (acc : List Topics) (s : Bytes)
    → vlen < fuel
    → Returns (read_topics fuel vlen acc s)
unfolding read_topics
read_topics-Returns zero vlen acc s h = absurd (omega arith)
read_topics-Returns (suc fuel) vlen acc s h = elim (Bool-cases (ltb 3 vlen)) [
  | inl e ↦ rw e (
      attempt-Returns s (read_int s) _ (pure acc) (read_int-Answers s)
        (λ nlen t.
          let (buf, u) = read_full_unchecked nlen t in
          attempt-Returns u (read_byte u) _ (pure acc) (read_byte-Answers u)
            (λ q v.
              read_topics-Returns fuel (vlen - 2 - nlen - 1)
                (acc ++ (record { name = some buf; qos = q } ∷ [])) v
                (ground (arith, ltb→lt 3 vlen e)))
            (λ v. (acc, v, refl)))
        (λ t. (acc, t, refl)))
  | inr e ↦ rw e (acc, s, refl)
]

read_un_topics-Returns :
    (fuel vlen : ℕ) (acc : List Topics) (s : Bytes)
    → vlen < fuel
    → Returns (read_un_topics fuel vlen acc s)
unfolding read_un_topics
read_un_topics-Returns zero vlen acc s h = absurd (omega arith)
read_un_topics-Returns (suc fuel) vlen acc s h = elim (Bool-cases (ltb 3 vlen)) [
  | inl e ↦ rw e (
      attempt-Returns s (read_int s) _ (pure acc) (read_int-Answers s)
        (λ nlen t.
          let (buf, u) = read_full_unchecked nlen t in
          read_un_topics-Returns fuel (vlen - 2 - nlen)
            (acc ++ (record { name = some buf; qos = 0 } ∷ [])) u (ground (arith, ltb→lt 3 vlen e)))
        (λ t. (acc, t, refl)))
  | inr e ↦ rw e (acc, s, refl)
]

-- Once the message id of a SUBSCRIBE or an UNSUBSCRIBE is there ReadPack reports no error, wherever the
-- stream ends: the packet comes back with the id and some list of topics.
pub read_subscribe-lenient :
    (n a b : ℕ) (s : Bytes)
    → ((tops : List Topics) × (rest : Bytes) × (read_subscribe n (a ∷ b ∷ s)
          ≡ (ok (subscribe (record { mid = a * 256 + b; topics = tops })), rest)))
      × ((tops : List Topics) × (rest : Bytes) × (read_unsubscribe n (a ∷ b ∷ s)
            ≡ (ok (unsubscribe (record { mid = a * 256 + b; topics = tops })), rest)))
unfolding read_subscribe read_unsubscribe
read_subscribe-lenient n a b s =
    let (tops, t, e) = read_topics-Returns (n + 1) n [] s (omega arith) in
    let (names, u, d) = read_un_topics-Returns (n + 1) n [] s (omega arith) in
    ((tops, t, rw (read_int-two a b s, e)), (names, u, rw (read_int-two a b s, d)))
