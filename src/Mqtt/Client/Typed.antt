-- ===== src/Mqtt/Client/Typed.antt =====
-- A packet that ReadPack made is one that waitPack can take: its type assertions hold.
use lodos.Base.{
  All, some, ℕ, ◌≡◌, refl, ap, ◌∙◌, Bool, true, false, Option, none, List, [], ◌∷◌, ◌==◌,
  if◌then◌else◌, arith, ==_iff,
}
use lodos.Io.Result.{Io, Error, ok, pure, deref, ◌>>=◌, ◌>>◌}
use lodos.Io.Reader.{Bytes}
use lodos.Mqtt.Client.{
  Client, C, write, on_recover, alive_from, on_connect, on_publish, on_pub_rec, on_pub_rel,
  answer_topics, on_subscribe, on_unsubscribe, on_ping, on_pack, wait_pack,
}
use lodos.Mqtt.Kinds
use lodos.Mqtt.Pack.{
  Pack, Variable, Topics, Connect, connect, publish, puback, subscribe, unsubscribe,
}
use lodos.Mqtt.Read.{read_pack}
use lodos.Mqtt.Read.Tags.{tag, tag_of, Named, AllNamed, Fits, read_pack-tag}

-- An action that comes back with a value from every state.
record IsTotal {A : Type 0} (m : Io Client A) : Type 0 where
  at : (c : Client) → (a : A) × (c' : Client) × (m c ≡ (ok a, c'))

IsTotal-pure : {A : Type 0} (a : A) → IsTotal (pure {S = Client} a)
IsTotal-pure a = record { at = λ c. (a, c, refl) }

IsTotal-bind :
    {A B : Type 0} (m : Io Client A) (f : A → Io Client B)
    → IsTotal m
    → ((a : A) → IsTotal (f a))
    → IsTotal (m >>= f)
IsTotal-bind m f hm hf = record {
  at = λ c. let (a, c', e) = hm.at c in let (b, c'', e') = (hf a).at c' in (b, c'', rw e e');
}

IsTotal-then :
    {A B : Type 0} (m : Io Client A) (k : Io Client B) → IsTotal m → IsTotal k → IsTotal (m >> k)
IsTotal-then m k hm hk = record {
  at = λ c. let (a, c', e) = hm.at c in let (b, c'', e') = hk.at c' in (b, c'', rw e e');
}

IsTotal-if :
    {A : Type 0} (b : Bool) (m k : Io Client A)
    → IsTotal m
    → IsTotal k
    → IsTotal (if b then m else k)
IsTotal-if true m k hm hk = hm
IsTotal-if false m k hm hk = hk

IsTotal-write : (p : Pack) → IsTotal (write p)
unfolding write
IsTotal-write p = record { at = λ c. (_, _, refl) }

IsTotal-on_recover : (p : Pack) → IsTotal (on_recover p)
unfolding on_recover
IsTotal-on_recover p = record { at = λ c. (tt, _, refl) }

ruleset total_rules =
    (IsTotal-pure, IsTotal-bind, IsTotal-then, IsTotal-if, IsTotal-write, IsTotal-on_recover)

IsTotal-deref : (o : Option Bytes) (b : Bytes) → o ≡ some b → IsTotal (deref {S = Client} o)
IsTotal-deref o b h = record { at = λ c. (b, c, rw h refl) }

IsTotal-answer_topics :
    (mid : ℕ) (tops : List Topics) (e : Option Error)
    → All Named tops
    → IsTotal (answer_topics mid tops e)
unfolding answer_topics
IsTotal-answer_topics mid [] e h = IsTotal-pure e
IsTotal-answer_topics mid (top ∷ tops) e ((name, named), h) =
    IsTotal-bind (deref top.name) _ (IsTotal-deref top.name name named) λ _.
      IsTotal-bind (if top.qos == 2 then write _ else pure e) _ (search total_rules)
        (λ e'. IsTotal-answer_topics mid tops e' h)

IsTotal-alive_from : (info : Connect) → IsTotal (alive_from info)
unfolding alive_from
IsTotal-alive_from info = record { at = λ c. (tt, _, refl) }

IsTotal-on_connect : (v : Variable) → IsTotal (on_connect v)
unfolding on_connect
IsTotal-on_connect (connect info) = search (total_rules, IsTotal-alive_from)
IsTotal-on_connect _ = IsTotal-pure _

IsTotal-on_publish : (p : Pack) (v : Variable) → tag v ≡ Kinds.publish → IsTotal (on_publish p v)
unfolding on_publish
IsTotal-on_publish p (publish pub') h = search total_rules depth 9
IsTotal-on_publish p _ h = absurd (omega (arith, h))

IsTotal-on_pub_rec : (v : Variable) → tag v ≡ Kinds.puback → IsTotal (on_pub_rec v)
unfolding on_pub_rec
IsTotal-on_pub_rec (puback ack) h = search total_rules
IsTotal-on_pub_rec _ h = absurd (omega (arith, h))

IsTotal-on_pub_rel : (v : Variable) → tag v ≡ Kinds.puback → IsTotal (on_pub_rel v)
unfolding on_pub_rel
IsTotal-on_pub_rel (puback ack) h = search total_rules
IsTotal-on_pub_rel _ h = absurd (omega (arith, h))

IsTotal-on_subscribe :
    (p : Pack) (v : Variable) → tag v ≡ Kinds.subscribe → AllNamed v → IsTotal (on_subscribe p v)
unfolding on_subscribe
IsTotal-on_subscribe p (subscribe sub) h named =
    IsTotal-bind (answer_topics sub.mid sub.topics none) _
      (IsTotal-answer_topics sub.mid sub.topics none named) (λ e. search total_rules)
IsTotal-on_subscribe p _ h named = absurd (omega (arith, h))

IsTotal-on_unsubscribe :
    (p : Pack) (v : Variable) → tag v ≡ Kinds.unsubscribe → IsTotal (on_unsubscribe p v)
unfolding on_unsubscribe
IsTotal-on_unsubscribe p (unsubscribe sub) h = search total_rules
IsTotal-on_unsubscribe p _ h = absurd (omega (arith, h))

IsTotal-on_ping : (p : Pack) → IsTotal (on_ping p)
unfolding on_ping
IsTotal-on_ping p = search total_rules

-- A test on the type, which the branch may use.
IsTotal-test :
    (b : Bool) (m k : C)
    → (b ≡ true → IsTotal m)
    → (b ≡ false → IsTotal k)
    → IsTotal (if b then m else k)
IsTotal-test true m k hm hk = hm refl
IsTotal-test false m k hm hk = hk refl

tag_at :
    (p : Pack) (n : ℕ)
    → tag p.variable ≡ tag_of p.msg_type
    → (p.msg_type == n) ≡ true
    → tag p.variable ≡ tag_of n
tag_at p n h e = h ∙ ap tag_of ((==_iff p.msg_type n).0 e)

IsTotal-on_pack : (p : Pack) → Fits (tag_of p.msg_type) p.variable → IsTotal (on_pack p)
unfolding on_pack
IsTotal-on_pack p (h, named) =
    search
      (
        IsTotal-test,
        IsTotal-on_connect,
        IsTotal-on_ping,
        IsTotal-pure none,
        λ (e : (p.msg_type == Kinds.publish) ≡ true).
            IsTotal-on_publish p p.variable (tag_at p Kinds.publish h e),
        λ (e : (p.msg_type == Kinds.pubrec) ≡ true).
            IsTotal-on_pub_rec p.variable (tag_at p Kinds.pubrec h e),
        λ (e : (p.msg_type == Kinds.pubrel) ≡ true).
            IsTotal-on_pub_rel p.variable (tag_at p Kinds.pubrel h e),
        λ (e : (p.msg_type == Kinds.subscribe) ≡ true).
            IsTotal-on_subscribe p p.variable (tag_at p Kinds.subscribe h e) named,
        λ (e : (p.msg_type == Kinds.unsubscribe) ≡ true).
            IsTotal-on_unsubscribe p p.variable (tag_at p Kinds.unsubscribe h e),
      )
      depth 16

-- waitPack does not panic on a packet that ReadPack returned, in whatever state the connection is: its type
-- assertions hold, the topics of a SUBSCRIBE have names, and it comes back with nil or an error.
pub wait_pack-read_pack :
    (s : Bytes) (p : Pack) (rest : Bytes) (c : Client)
    → read_pack s ≡ (ok p, rest)
    → (e : Option Error) × (c' : Client) × (wait_pack (record { pack = p; err = none }) c
        ≡ (ok e, c'))
unfolding wait_pack
wait_pack-read_pack s p rest c h = (IsTotal-on_pack p (read_pack-tag s p rest h)).at c
