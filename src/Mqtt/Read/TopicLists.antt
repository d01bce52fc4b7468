-- ===== src/Mqtt/Read/TopicLists.antt =====
-- The topic lists of SUBSCRIBE and UNSUBSCRIBE.
use lodos.Base.{
  ℕ, zero, suc, ◌+◌, ◌-◌, ◌^◌, ◌<◌, ◌≤◌, ◌≡◌, ap, ◌∙◌, List, [], ◌∷◌, ◌++◌, length, arith,
  append_assoc, append-nil, lt→ltb, le→ltb, map, All, length-append,
}
use lodos.Io.Result.{ok}
use lodos.Io.Reader.{Bytes, read_byte, read_full_unchecked-append}
use lodos.Mqtt.Pack.{Topics}
use lodos.Mqtt.Message.{
  text, topics_bytes, names_bytes, IsReadable, IsReadableName, topic_of, un_topic_of,
}
use lodos.Mqtt.Read.{read_topics, read_un_topics}
use lodos.Mqtt.Read.Fields.{read_int-be16}

-- One round of the loop on a topic that is there in full.
read_topics-cons :
    (fuel vlen : ℕ) (acc : List Topics) (name : Bytes) (q : ℕ) (s : Bytes)
    → length name < 2 ^ 16
    → 3 < vlen
    → read_topics (suc fuel) vlen acc (text name ++ (q ∷ s))
      ≡ read_topics fuel (vlen - 2 - length name - 1) (acc ++ (topic_of (name, q) ∷ [])) s
unfolding read_topics read_byte
read_topics-cons fuel vlen acc name q s hn hv =
    rw (lt→ltb 3 vlen hv, read_int-be16 (length name) (name ++ (q ∷ s)) hn)
      (rw (read_full_unchecked-append name (q ∷ s)))

-- The loop reads the topics of a list, one after the other, and ends behind the last one: also where
-- the length counts up to three bytes more than the list has, as it does if it includes the message id.
pub read_topics-topics_bytes :
    (tops : List (Bytes × ℕ)) (extra fuel : ℕ) (acc : List Topics) (s : Bytes)
    → All IsReadable tops
    → extra ≤ 3
    → length (topics_bytes tops) < fuel
    → read_topics fuel (length (topics_bytes tops) + extra) acc (topics_bytes tops ++ s)
      ≡ (ok (acc ++ map topic_of tops), s)
read_topics-topics_bytes tops extra zero acc s h he hf = absurd (omega arith)
read_topics-topics_bytes [] extra (suc fuel) acc s h he hf =
    unfold read_topics in rw (le→ltb 3 (0 + extra) (omega arith), append-nil acc)
read_topics-topics_bytes ((name, q) ∷ tops) extra (suc fuel) acc s ((hp, hn), h) he hf =
    rw (append_assoc (text name) (q ∷ topics_bytes tops) s) (
      read_topics-cons fuel _ acc name q (topics_bytes tops ++ s) hn (omega (arith, size))
      ∙ ap (λ v. read_topics fuel v (acc ++ (top ∷ [])) (topics_bytes tops ++ s)) left
      ∙ read_topics-topics_bytes tops extra fuel (acc ++ (top ∷ [])) s h he (omega (arith, size))
      ∙ ap (λ (xs : List Topics). (ok xs, s)) (append_assoc acc (top ∷ []) (map topic_of tops)))
  where
    top : Topics
    top = topic_of (name, q)

    size : length (topics_bytes ((name, q) ∷ tops)) ≡ length (topics_bytes tops) + length name + 3
    size = omega (arith, length-append name (q ∷ topics_bytes tops))

    left :
        length (topics_bytes ((name, q) ∷ tops)) + extra - 2 - length name - 1
        ≡ length (topics_bytes tops) + extra
    left = omega (arith, size)

read_un_topics-cons :
    (fuel vlen : ℕ) (acc : List Topics) (name s : Bytes)
    → length name < 2 ^ 16
    → 3 < vlen
    → read_un_topics (suc fuel) vlen acc (text name ++ s)
      ≡ read_un_topics fuel (vlen - 2 - length name) (acc ++ (un_topic_of name ∷ [])) s
unfolding read_un_topics
read_un_topics-cons fuel vlen acc name s hn hv =
    rw (lt→ltb 3 vlen hv, read_int-be16 (length name) (name ++ s) hn)
      (rw (read_full_unchecked-append name s))

-- The same for the loop of UNSUBSCRIBE, which wants names of two bytes at least.
pub read_un_topics-names_bytes :
    (names : List Bytes) (extra fuel : ℕ) (acc : List Topics) (s : Bytes)
    → All IsReadableName names
    → extra ≤ 3
    → length (names_bytes names) < fuel
    → read_un_topics fuel (length (names_bytes names) + extra) acc (names_bytes names ++ s)
      ≡ (ok (acc ++ map un_topic_of names), s)
read_un_topics-names_bytes names extra zero acc s h he hf = absurd (omega arith)
read_un_topics-names_bytes [] extra (suc fuel) acc s h he hf =
    unfold read_un_topics in rw (le→ltb 3 (0 + extra) (omega arith), append-nil acc)
read_un_topics-names_bytes (name ∷ names) extra (suc fuel) acc s ((hp, hn), h) he hf =
    rw (append_assoc (text name) (names_bytes names) s) (
      read_un_topics-cons fuel _ acc name (names_bytes names ++ s) hn (omega (arith, size))
      ∙ ap (λ v. read_un_topics fuel v (acc ++ (top ∷ [])) (names_bytes names ++ s)) left
      ∙ read_un_topics-names_bytes names extra fuel (acc ++ (top ∷ [])) s h he (omega (arith, size))
      ∙ ap (λ (xs : List Topics). (ok xs, s)) (append_assoc acc (top ∷ []) (map un_topic_of names)))
  where
    top : Topics
    top = un_topic_of name

    size : length (names_bytes (name ∷ names)) ≡ length (names_bytes names) + length name + 2
    size = omega (arith, length-append name (names_bytes names))

    left :
        length (names_bytes (name ∷ names)) + extra - 2 - length name
        ≡ length (names_bytes names) + extra
    left = omega (arith, size)
