-- ===== src/Mqtt/Read/Tags.antt =====
-- Which variable header ReadPack makes for which message type.
use lodos.Base.{
  ℕ, zero, suc, ◌+◌, List, [], ◌∷◌, ◌++◌, some, All, if_both, ltb, ◌≡◌, refl, Bool, true, false,
  if◌then◌else◌, ◌==◌,
}
use mathlib.Core.Path.{subst}
use lodos.Io.Result.{Result, Error, ok, err, panic, stuck, next, pure, attempt, fail, ◌>>=◌, ◌>>◌}
use lodos.Io.Reader.{Bytes, Reader, read_byte}
use lodos.Mqtt.Kinds
use lodos.Mqtt.Length.{read_length}
use lodos.Mqtt.Pack.{
  Pack, Variable, Topics, Connect, Publish, Puback, Suback, UnSubscribe, UnSuback, nil, connect,
  connack, publish, puback, subscribe, suback, unsubscribe, unsuback,
}
use lodos.Mqtt.Read.{
  read_connect, read_int, read_topics, read_publish, read_puback, read_subscribe, read_suback,
  read_unsubscribe, read_unsuback, skip, read_variable, read_rest, read_pack, parse_fixed,
}

-- The structs of the variable header by number: the first message type that carries it, 0 for nil.
abbrev pub tag : Variable → ℕ
tag nil = 0
tag (connect c) = Kinds.connect
tag (connack a) = Kinds.connack
tag (publish p) = Kinds.publish
tag (puback a) = Kinds.puback
tag (subscribe s) = Kinds.subscribe
tag (suback a) = Kinds.suback
tag (unsubscribe s) = Kinds.unsubscribe
tag (unsuback a) = Kinds.unsuback

abbrev pub tag_of : ℕ → ℕ
tag_of typ =
    if typ == Kinds.connect
    then Kinds.connect
    else if typ == Kinds.publish
    then Kinds.publish
    else if typ == Kinds.puback
    then Kinds.puback
    else if typ == Kinds.pubrel
    then Kinds.puback
    else if typ == Kinds.pubrec
    then Kinds.puback
    else if typ == Kinds.pubcomp
    then Kinds.puback
    else if typ == Kinds.subscribe
    then Kinds.subscribe
    else if typ == Kinds.suback
    then Kinds.suback
    else if typ == Kinds.unsubscribe
    then Kinds.unsubscribe
    else if typ == Kinds.unsuback
    then Kinds.unsuback
    else if typ == Kinds.pingreq
    then 0
    else if typ == Kinds.disconnect
    then 0
    else 0

-- The topics of a SUBSCRIBE have names.
abbrev pub Named : Topics → Type 0
Named top = (name : Bytes) × (top.name ≡ some name)

abbrev pub AllNamed : Variable → Type 0
AllNamed (subscribe s) = All Named s.topics
AllNamed _ = Unit {0}

-- A struct of this number, with names.
abbrev pub Fits : ℕ → Variable → Type 0
Fits n v = (tag v ≡ n) × AllNamed v

-- Whatever the reader returns has this tag.
record HasTag (n : ℕ) (m : Reader Variable) : Type 0 where
  at : (s : Bytes) (v : Variable) (rest : Bytes) → m s ≡ (ok v, rest) → Fits n v

next-HasTag :
    {A : Type 0} (n : ℕ) (r : Result A × Bytes) (f : A → Reader Variable) (v : Variable)
    (rest : Bytes)
    → ((a : A) → HasTag n (f a))
    → next r f ≡ (ok v, rest)
    → Fits n v
next-HasTag n (ok a, t) f v rest h e = (h a).at t v rest e
next-HasTag n (err x, t) f v rest h e = absurd (cc e)
next-HasTag n (panic, t) f v rest h e = absurd (cc e)
next-HasTag n (stuck, t) f v rest h e = absurd (cc e)

HasTag-bind :
    {A : Type 0} (n : ℕ) (m : Reader A) (f : A → Reader Variable)
    → ((a : A) → HasTag n (f a))
    → HasTag n (m >>= f)
HasTag-bind n m f h = record { at = λ s v rest e. next-HasTag n (m s) f v rest h e }

HasTag-then :
    {A : Type 0} (n : ℕ) (m : Reader A) (k : Reader Variable) → HasTag n k → HasTag n (m >> k)
HasTag-then n m k h = record { at = λ s v rest e. next-HasTag n (m s) (λ _. k) v rest (λ _. h) e }

value-eq :
    {A : Type 0} {a b : A} {s t : Bytes} → ◌≡◌ {A = Result A × Bytes} (ok a, s) (ok b, t) → a ≡ b
value-eq e = cc

HasTag-pure : (v : Variable) → AllNamed v → HasTag (tag v) (pure v)
HasTag-pure v h = record { at = λ s a rest e. subst (Fits (tag v)) (value-eq e) (refl, h) }

HasTag-nil : HasTag 0 (pure nil)
HasTag-nil = HasTag-pure nil tt

HasTag-fail : (n : ℕ) (x : Error) → HasTag n (fail x)
HasTag-fail n x = record { at = λ s a rest e. absurd (cc e) }

-- Both branches of a test that is no test of the type.
HasTag-either :
    (b : Bool) (n : ℕ) (x y : Reader Variable)
    → HasTag n x
    → HasTag n y
    → HasTag n (if b then x else y)
HasTag-either true n x y hx hy = hx
HasTag-either false n x y hx hy = hy

HasTag-if :
    (b : Bool) (n m : ℕ) (x y : Reader Variable)
    → HasTag n x
    → HasTag m y
    → HasTag (if b then n else m) (if b then x else y)
HasTag-if true n m x y hx hy = hx
HasTag-if false n m x y hx hy = hy

ruleset tag_rules = (HasTag-bind, HasTag-then, HasTag-fail, HasTag-either)

HasTag-read_connect : (n : ℕ) → HasTag Kinds.connect (read_connect n)
unfolding read_connect
HasTag-read_connect n = search (tag_rules, λ (c : Connect). HasTag-pure (connect c) tt) depth 9

HasTag-read_publish : (qos n : ℕ) → HasTag Kinds.publish (read_publish qos n)
unfolding read_publish
HasTag-read_publish qos n = search (tag_rules, λ (p : Publish). HasTag-pure (publish p) tt) depth 9

HasTag-read_puback : (n : ℕ) → HasTag Kinds.puback (read_puback n)
unfolding read_puback
HasTag-read_puback n = search (tag_rules, λ (p : Puback). HasTag-pure (puback p) tt)

-- What a reader gives, whatever it reads, satisfies P.
abbrev Gives : {A : Type 0} → (A → Type 0) → Result A × Bytes → Type 0
Gives P (ok a, rest) = P a
Gives P (err e, rest) = Unit {0}
Gives P (panic, rest) = Unit {0}
Gives P (stuck, rest) = Unit {0}

attempt-Gives :
    {A B : Type 0} (P : B → Type 0) (r : Result A × Bytes) (f : A → Reader B) (g : Reader B)
    → ((a : A) (t : Bytes) → Gives P (f a t))
    → ((t : Bytes) → Gives P (g t))
    → Gives P (attempt r f g)
attempt-Gives P (ok a, t) f g hf hg = hf a t
attempt-Gives P (err e, t) f g hf hg = hg t
attempt-Gives P (panic, t) f g hf hg = tt
attempt-Gives P (stuck, t) f g hf hg = tt

add-Named :
    (name : Bytes) (q : ℕ) (acc : List Topics)
    → All Named acc
    → All Named (acc ++ (record { name = some name; qos = q } ∷ []))
add-Named name q [] h = ((name, refl), tt)
add-Named name q (top ∷ acc) (p, h) = (p, add-Named name q acc h)

read_topics-Named :
    (fuel vlen : ℕ) (acc : List Topics) (s : Bytes)
    → All Named acc
    → Gives (All Named) (read_topics fuel vlen acc s)
unfolding read_topics
read_topics-Named zero vlen acc s h = tt
read_topics-Named (suc fuel) vlen acc s h =
    if_both (Gives (All Named)) (ltb 3 vlen) _ _
      (attempt-Gives (All Named) (read_int s) _ (pure acc)
        (λ nlen t.
          attempt-Gives (All Named) (read_byte _) _ (pure acc)
            (λ q u. read_topics-Named fuel _ _ u (add-Named _ q acc h)) (λ u. h))
        (λ t. h))
      h

next-Named :
    (n : ℕ) (r : Result (List Topics) × Bytes) (f : List Topics → Reader Variable) (v : Variable)
    (rest : Bytes)
    → Gives (All Named) r
    → ((tops : List Topics) → All Named tops → HasTag n (f tops))
    → next r f ≡ (ok v, rest)
    → Fits n v
next-Named n (ok a, t) f v rest g h e = (h a g).at t v rest e
next-Named n (err x, t) f v rest g h e = absurd (cc e)
next-Named n (panic, t) f v rest g h e = absurd (cc e)
next-Named n (stuck, t) f v rest g h e = absurd (cc e)

HasTag-read_subscribe : (n : ℕ) → HasTag Kinds.subscribe (read_subscribe n)
unfolding read_subscribe
HasTag-read_subscribe n = HasTag-bind Kinds.subscribe read_int _ λ mid. record {
  at = λ s v rest e.
      next-Named Kinds.subscribe (read_topics (n + 1) n [] s) _ v rest
        (read_topics-Named (n + 1) n [] s tt)
        (λ tops h. HasTag-pure (subscribe (record { mid = mid; topics = tops })) h) e;
}

HasTag-read_suback : (n : ℕ) → HasTag Kinds.suback (read_suback n)
unfolding read_suback
HasTag-read_suback n = search (tag_rules, λ (p : Suback). HasTag-pure (suback p) tt)

HasTag-read_unsubscribe : (n : ℕ) → HasTag Kinds.unsubscribe (read_unsubscribe n)
unfolding read_unsubscribe
HasTag-read_unsubscribe n = search (tag_rules, λ (p : UnSubscribe). HasTag-pure (unsubscribe p) tt)

HasTag-read_unsuback : (n : ℕ) → HasTag Kinds.unsuback (read_unsuback n)
unfolding read_unsuback
HasTag-read_unsuback n = search (tag_rules, λ (p : UnSuback). HasTag-pure (unsuback p) tt)

HasTag-skip : (n : ℕ) → HasTag 0 (skip n)
unfolding skip
HasTag-skip n = search (tag_rules, HasTag-nil)

HasTag-read_variable : (pack : Pack) → HasTag (tag_of pack.msg_type) (read_variable pack)
unfolding read_variable
HasTag-read_variable pack =
    search
      (
        HasTag-if, HasTag-read_connect, HasTag-read_publish, HasTag-read_puback,
        HasTag-read_subscribe, HasTag-read_suback, HasTag-read_unsubscribe, HasTag-read_unsuback,
        HasTag-skip, HasTag-nil,
      )
      depth 16

next-pack :
    {A : Type 0} (r : Result A × Bytes) (f : A → Reader Pack) (p : Pack) (rest : Bytes)
    → ((a : A) (t : Bytes)
        → f a t ≡ (ok p, rest)
        → r ≡ (ok a, t)
        → Fits (tag_of p.msg_type) p.variable)
    → next r f ≡ (ok p, rest)
    → Fits (tag_of p.msg_type) p.variable
next-pack (ok a, t) f p rest h e = h a t e refl
next-pack (err x, t) f p rest h e = absurd (cc e)
next-pack (panic, t) f p rest h e = absurd (cc e)
next-pack (stuck, t) f p rest h e = absurd (cc e)

-- The variable header of a packet that ReadPack returns is the struct of its message type, and the topics of a
-- SUBSCRIBE have names.
pub read_pack-tag :
    (s : Bytes) (p : Pack) (rest : Bytes)
    → read_pack s ≡ (ok p, rest)
    → Fits (tag_of p.msg_type) p.variable
unfolding read_pack read_rest
read_pack-tag s p rest e =
    next-pack (read_byte s) _ p rest
      (λ fixed t e' _.
        next-pack (read_length t) _ p rest
          (λ n u e'' _.
            next-pack (read_variable (parse_fixed fixed n) u) _ p rest
              (λ v w e3 ev.
                subst (λ (x : Pack). Fits (tag_of x.msg_type) x.variable) (value-eq e3)
                  ((HasTag-read_variable (parse_fixed fixed n)).at u v w ev))
              e'')
          e')
      e
