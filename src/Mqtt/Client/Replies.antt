-- ===== src/Mqtt/Client/Replies.antt =====
-- The answers of waitPack to the messages that a peer sends.
use lodos.Base.{
  ℕ, ◌≡◌, sym, ap, Bool, true, false, Option, none, some, List, [], ◌∷◌, ◌++◌, map, ◌==◌, ltb,
  if◌then◌else◌, arith, append-nil, append_assoc, Bool-cases, inl, inr,
}
use mathlib.Core.List.{map-append}
use mathlib.Core.Path.{subst}
use lodos.Io.Result.{Error, ok, pure, ◌>>=◌, ◌>>◌}
use lodos.Io.Reader.{Bytes}
use lodos.Mqtt.Client.{
  Client, C, write, on_recover, on_publish, on_pub_rec, on_pub_rel, answer_topics, on_subscribe,
  on_unsubscribe, on_pack, wait_pack,
}
use lodos.Mqtt.Message.{Message, Ack, topic_of, received_pack}
use lodos.Mqtt.Pack.{
  Pack, get_pub_ack_pack, get_pub_rec_pack, get_pub_rel_pack, get_pub_comp_pack, get_sub_ack_pack,
  get_unsub_ack_pack,
}
use lodos.Mqtt.Queue.{PackAndType, no_delay, queue_write_pack}

-- One SUBACK for each topic that is asked for at QoS 2.
abbrev pub sub_acks : ℕ → List (Bytes × ℕ) → List Pack
sub_acks mid [] = []
sub_acks mid ((name, q) ∷ tops) =
    (if q == 2 then get_sub_ack_pack mid ∷ [] else []) ++ sub_acks mid tops

-- What the protocol of the package answers to a message at a QoS.
abbrev pub answers : ℕ → Message → List Pack
answers qos (Message.published topic mid msg) =
    if qos == 1
    then get_pub_ack_pack mid ∷ []
    else if qos == 2
    then get_pub_rec_pack mid ∷ []
    else []
answers qos (Message.acknowledged Ack.rec mid) = get_pub_rel_pack mid ∷ []
answers qos (Message.acknowledged Ack.rel mid) = get_pub_comp_pack mid ∷ []
answers qos (Message.subscribing mid tops) = sub_acks mid tops
answers qos (Message.unsubscribing mid names) = get_unsub_ack_pack mid ∷ []
answers qos m = []

-- The messages that the layer above gets.
abbrev pub passed_on : Message → Pack → List Pack
passed_on (Message.published topic mid msg) p = p ∷ []
passed_on (Message.subscribing mid tops) p = p ∷ []
passed_on (Message.unsubscribing mid names) p = p ∷ []
passed_on m p = []

abbrev item : Pack → PackAndType
item p = record { pack = some p; typ = no_delay }

-- The client with these packets behind its queue, and these handed to the layer above.
abbrev pub answered : List Pack → List Pack → Client → Client
answered ps up c = record c {
  queue = record c.queue { write_chan = c.queue.write_chan ++ map item ps };
  recovered = c.recovered ++ up;
}

write-at :
    (p : Pack) (c : Client)
    → c.queue.write_error ≡ none
    → write p c ≡ (ok none, answered (p ∷ []) [] c)
unfolding write queue_write_pack
write-at p c h = ground (arith, append-nil c.recovered)

stay : (c : Client) → answered [] [] c ≡ c
stay c = ground (arith, append-nil c.recovered, append-nil c.queue.write_chan)

join :
    (ps qs us vs : List Pack) (c : Client)
    → answered qs vs (answered ps us c) ≡ answered (ps ++ qs) (us ++ vs) c
join ps qs us vs c = simp (map-append, append_assoc)

-- An action that ends without error, adds these packets to the queue and hands these on, where the queue
-- has no error.
record Gives (ps us : List Pack) (m : C) : Type 0 where
  at : (c : Client) → c.queue.write_error ≡ none → m c ≡ (ok none, answered ps us c)

Gives-write : (p : Pack) → Gives (p ∷ []) [] (write p)
Gives-write p = record { at = write-at p }

Gives-pure : Gives [] [] (pure none)
Gives-pure = record { at = λ c h. ap (λ d. (ok none, d)) (sym (stay c)) }

Gives-bind :
    (ps us qs vs : List Pack) (m : C) (f : Option Error → C)
    → Gives ps us m
    → Gives qs vs (f none)
    → Gives (ps ++ qs) (us ++ vs) (m >>= f)
Gives-bind ps us qs vs m f hm hf = record {
  at = λ c h. rw (hm.at c h, hf.at (answered ps us c) h, join ps qs us vs c);
}

Gives-recover : (p : Pack) → Gives [] (p ∷ []) (on_recover p >> pure none)
unfolding on_recover
Gives-recover p = record { at = λ c h. ground (arith, append-nil c.queue.write_chan) }

Gives-if :
    (b : Bool) (ps qs : List Pack) (m k : C)
    → Gives ps [] m
    → Gives qs [] k
    → Gives (if b then ps else qs) [] (if b then m else k)
Gives-if true ps qs m k hm hk = hm
Gives-if false ps qs m k hm hk = hk

Gives-answer_topics :
    (mid : ℕ) (tops : List (Bytes × ℕ))
    → Gives (sub_acks mid tops) [] (answer_topics mid (map topic_of tops) none)
unfolding answer_topics
Gives-answer_topics mid [] = Gives-pure
Gives-answer_topics mid ((name, q) ∷ tops) =
    Gives-bind _ [] (sub_acks mid tops) []
      (if q == 2 then write (get_sub_ack_pack mid) else pure none)
      (answer_topics mid (map topic_of tops))
      (Gives-if (q == 2) (get_sub_ack_pack mid ∷ []) [] _ (pure none) (Gives-write _) Gives-pure)
      (Gives-answer_topics mid tops)

-- Then the packet is handed on.
Gives-then_recover :
    (ps : List Pack) (m : C) (p : Pack)
    → Gives ps [] m
    → Gives ps (p ∷ []) (m >>= λ e. on_recover p >> pure e)
Gives-then_recover ps m p hm =
    subst (λ qs. Gives qs (p ∷ []) (m >>= λ e. on_recover p >> pure e)) (append-nil ps)
      (Gives-bind ps [] [] (p ∷ []) m (λ e. on_recover p >> pure e) hm (Gives-recover p))

Gives-on_pack :
    (dup qos : ℕ) (m : Message)
    → Gives
        (answers qos m)
        (passed_on m (received_pack dup qos m))
        (on_pack (received_pack dup qos m))
unfolding on_pack on_publish on_pub_rec on_pub_rel on_subscribe on_unsubscribe
Gives-on_pack dup qos (Message.published topic mid msg) = elim (Bool-cases (ltb 0 qos)) [
  | inl e ↦ rw e (
      Gives-then_recover _ _ _ (
        Gives-if (qos == 1) _ _ _ _ (Gives-write _)
          (Gives-if (qos == 2) _ [] _ _ (Gives-write _) Gives-pure)))
  | inr e ↦
      let one : (qos == 1) ≡ false = ground arith in
      let two : (qos == 2) ≡ false = ground arith in
      rw (e, one, two) (Gives-then_recover _ _ _ Gives-pure)
]
Gives-on_pack dup qos (Message.acknowledged Ack.rec mid) = Gives-write _
Gives-on_pack dup qos (Message.acknowledged Ack.rel mid) = Gives-write _
Gives-on_pack dup qos (Message.subscribing mid tops) =
    Gives-then_recover _ _ _ (Gives-answer_topics mid tops)
Gives-on_pack dup qos (Message.unsubscribing mid names) = Gives-then_recover _ _ _ (Gives-write _)
Gives-on_pack dup qos (Message.acknowledged Ack.ack mid) = Gives-pure
Gives-on_pack dup qos (Message.acknowledged Ack.comp mid) = Gives-pure
Gives-on_pack dup qos _ = Gives-pure

-- waitPack answers each receivable message but CONNECT and PINGREQ, which are not among these, as the protocol
-- of the package says: PUBACK or PUBREC with the
-- id of a PUBLISH at QoS 1 or 2, PUBREL to PUBREC, PUBCOMP to PUBREL, one SUBACK for each topic of a
-- SUBSCRIBE at QoS 2, UNSUBACK to UNSUBSCRIBE, and to the other messages of these nothing. The answers join the queue in this order,
-- PUBLISH, SUBSCRIBE and UNSUBSCRIBE are handed to the layer above once, and nothing else of the client
-- changes. (For a queue that has no error.)
pub wait_pack-answers :
    (dup qos : ℕ) (m : Message) (c : Client)
    → c.queue.write_error ≡ none
    → wait_pack (record { pack = received_pack dup qos m; err = none }) c
      ≡ (ok none, answered (answers qos m) (passed_on m (received_pack dup qos m)) c)
unfolding wait_pack
wait_pack-answers dup qos m c h = (Gives-on_pack dup qos m).at c h
