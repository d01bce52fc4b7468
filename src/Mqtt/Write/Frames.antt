-- ===== src/Mqtt/Write/Frames.antt =====
-- DelayWritePack writes the frame of every message.
use lodos.Base.{
  ℕ, ◌+◌, ◌/◌, ◌%◌, ◌^◌, ◌<◌, ◌≡◌, ap, ◌∙◌, some, List, [], ◌∷◌, ◌++◌, ltb, length, map, All, arith,
  length-append, append_assoc, Bool-cases, inl, inr,
}
use lodos.Io.Result.{pure}
use lodos.Io.Reader.{Bytes}
use lodos.Io.Writer.{Writer, write}
use lodos.Io.Writer.Writes.{Writes, Writes-write, Writes-nil, Writes->>}
use lodos.Mqtt.Length.{length_bytes, length_byte}
use lodos.Mqtt.Length.RoundTrip.{get_remaining_length-some}
use lodos.Mqtt.Message.{
  be16, text, topics_bytes, names_bytes, IsTopic, IsName, topic_of, un_topic_of,
}
use lodos.Mqtt.Write.{
  write_full, write_byte, write_int, write_string, write_length, first, write_length_byte,
  sum_topics, write_topics, sum_un_topics, write_un_topics,
}
use mathlib.Core.Path.{fun_ext}

pub Writes-write_full : (bs : Bytes) → Writes (write_full bs) bs
unfolding write_full
Writes-write_full [] = Writes-nil
Writes-write_full (b ∷ bs) = Writes-write (b ∷ bs)

pub Writes-write_int : (i : ℕ) → i < 2 ^ 16 → Writes (write_int i) (be16 i)
unfolding write_int
Writes-write_int i h =
    let e : i % 2 ^ 16 / 256 ≡ i / 256 = omega arith in
    rw e (Writes-write ((i / 256) ∷ (i % 256) ∷ []))

pub Writes-write_string : (s : Bytes) → length s < 2 ^ 16 → Writes (write_string (some s)) (text s)
unfolding write_string
Writes-write_string s h =
    Writes->> (write_int (length s)) (write_full s) (be16 (length s)) s
      (Writes-write_int (length s) h) (Writes-write_full s)

pub Writes-write_length : (n : ℕ) → n < 2 ^ 28 → Writes (write_length n) (length_bytes 3 n)
unfolding write_length
Writes-write_length n h = rw (get_remaining_length-some n h) (Writes-write_full (length_bytes 3 n))

first-length_bytes : (n : ℕ) → first (length_bytes 3 n) ≡ pure (length_byte n)
unfolding first length_bytes
first-length_bytes n = elim (Bool-cases (ltb n 128)) [ inl e ↦ rw e | inr e ↦ rw e ]

write_length_byte-at :
    (n : ℕ) → n < 2 ^ 28 → (w : Writer) → write_length_byte n w ≡ write (length_byte n ∷ []) w
unfolding write_length_byte write_byte
write_length_byte-at n h w = rw (get_remaining_length-some n h, first-length_bytes n)

pub Writes-write_length_byte :
    (n : ℕ) → n < 2 ^ 28 → Writes (write_length_byte n) (length_byte n ∷ [])
Writes-write_length_byte n h =
    rw (fun_ext (write_length_byte-at n h)) (Writes-write (length_byte n ∷ []))

pub sum_topics-map :
    (t : ℕ) (tops : List (Bytes × ℕ))
    → sum_topics t (map topic_of tops) ≡ pure (t + length (topics_bytes tops))
unfolding sum_topics
sum_topics-map t [] = ap pure (omega arith)
sum_topics-map t ((name, q) ∷ tops) =
    sum_topics-map (t + 2 + length name + 1) tops
    ∙ ap pure (omega (arith, length-append name (q ∷ topics_bytes tops)))

pub sum_un_topics-map :
    (t : ℕ) (names : List Bytes)
    → sum_un_topics t (map un_topic_of names) ≡ pure (t + length (names_bytes names))
unfolding sum_un_topics
sum_un_topics-map t [] = ap pure (omega arith)
sum_un_topics-map t (name ∷ names) =
    sum_un_topics-map (t + 2 + length name) names
    ∙ ap pure (omega (arith, length-append name (names_bytes names)))

pub Writes-write_topics :
    (tops : List (Bytes × ℕ))
    → All IsTopic tops
    → Writes (write_topics (map topic_of tops)) (topics_bytes tops)
unfolding write_topics write_byte
Writes-write_topics [] h = Writes-nil
Writes-write_topics ((name, q) ∷ tops) (hn, h) =
    rw (append_assoc (be16 (length name)) name (q ∷ topics_bytes tops)) (
      Writes->> (write_int (length name)) _ (be16 (length name)) (name ++ (q ∷ topics_bytes tops))
        (Writes-write_int (length name) hn)
        (Writes->> (write_full name) _ name (q ∷ topics_bytes tops) (Writes-write_full name) (
          Writes->> (write (q ∷ [])) _ (q ∷ []) (topics_bytes tops) (Writes-write (q ∷ []))
            (Writes-write_topics tops h))))

pub Writes-write_un_topics :
    (names : List Bytes)
    → All IsName names
    → Writes (write_un_topics (map un_topic_of names)) (names_bytes names)
unfolding write_un_topics
Writes-write_un_topics [] h = Writes-nil
Writes-write_un_topics (name ∷ names) (hn, h) =
    rw (append_assoc (be16 (length name)) name (names_bytes names)) (
      Writes->> (write_int (length name)) _ (be16 (length name)) (name ++ names_bytes names)
        (Writes-write_int (length name) hn)
        (Writes->> (write_full name) _ name (names_bytes names) (Writes-write_full name)
          (Writes-write_un_topics names h)))
