-- ===== src/Io/Writer/Writes.antt =====
-- Actions that write a known string of bytes, whatever the connection does meanwhile.
use lodos.Base.{
  ◌≡◌, refl, ap, ◌∙◌, sym, ◌≢◌, ◌⊎◌, inl, inr, Bool, true, false, List, [], ◌∷◌, ◌++◌, append_assoc,
  append-nil, arith, Prefix,
}
use lodos.Io.Result.{Io, Result, ok, err, panic, stuck, next, pure, ◌>>◌}
use lodos.Io.Reader.{Bytes}
use lodos.Io.Writer.{Writer, settle, write}

-- `r` is the outcome of writing `bs` from `w` on. If it went well all of `bs` is behind what was
-- buffered. If not, a front of `bs` is, the error stays, and there was one before or the connection
-- failed. Nothing else happens: no panic, and nothing that was written is taken back.
abbrev pub Written : Bytes → Writer → Result (Unit {0}) × Writer → Type 0
Written bs w (ok _, w') =
    (w' ≡ record w { buffered = w.buffered ++ bs; faults = w'.faults })
    × ((fs : List Bool) × (w.faults ≡ fs ++ w'.faults))
Written bs w (err e, w') =
    ((front : Bytes) × Prefix front bs
      × (w' ≡ record w { buffered = w.buffered ++ front; broken = true; faults = w'.faults }))
    × ((w.broken ≡ true) ⊎ (w.faults ≢ []))
Written bs w (panic, w') = ⊥
Written bs w (stuck, w') = ⊥

pub record Writes (m : Io Writer (Unit {0})) (bs : Bytes) : Type 0 where
  pub at : (w : Writer) → Written bs w (m w)

settle-Written :
    (b : Bool) (fs : List Bool) (bs : Bytes) (w : Writer)
    → w.broken ≡ b
    → w.faults ≡ fs
    → Written bs w (settle b fs (λ v. record v { buffered = v.buffered ++ bs }) w)
settle-Written true fs bs w hb hf = (([], (bs, refl), cc (append-nil w.buffered)), inl hb)
settle-Written false [] bs w hb hf = (refl, ([], refl))
settle-Written false (false ∷ fs) bs w hb hf = (refl, (false ∷ [], hf))
settle-Written false (true ∷ fs) bs w hb hf =
    (([], (bs, refl), cc (append-nil w.buffered)), inr (λ e. cc))

pub Writes-write : (bs : Bytes) → Writes (write bs) bs
unfolding write
Writes-write bs = record { at = λ w. settle-Written w.broken w.faults bs w refl refl }

pub Writes-nil : Writes (pure tt) []
Writes-nil = record { at = λ w. (cc (append-nil w.buffered), ([], refl)) }

append-eq-nil_right {ℓ} : {A : Type ℓ} (xs ys : List A) → xs ++ ys ≡ [] → ys ≡ []
append-eq-nil_right [] ys e = e
append-eq-nil_right (x ∷ xs) ys e = cc

why_before :
    (bs : Bytes) (w v : Writer) (fs : List Bool)
    → v ≡ record w { buffered = w.buffered ++ bs; faults = v.faults }
    → w.faults ≡ fs ++ v.faults
    → (v.broken ≡ true) ⊎ (v.faults ≢ [])
    → (w.broken ≡ true) ⊎ (w.faults ≢ [])
why_before bs w v fs hv hf (inl h) = inl (cc (ap (λ (u : Writer). u.broken) hv))
why_before bs w v fs hv hf (inr h) = inr (λ e. h (append-eq-nil_right fs v.faults (sym hf ∙ e)))

then-Written :
    (bs cs : Bytes) (w v : Writer) (fs : List Bool)
    → v ≡ record w { buffered = w.buffered ++ bs; faults = v.faults }
    → w.faults ≡ fs ++ v.faults
    → (r : Result (Unit {0}) × Writer) → Written cs v r
    → Written (bs ++ cs) w r
then-Written bs cs w v fs hv hf (ok _, u) (e, (gs, eg)) = (
  ground (arith, append_assoc w.buffered bs cs),
  (fs ++ gs, ground (arith, append_assoc fs gs u.faults)),
)
then-Written bs cs w v fs hv hf (err x, u) ((front, (back, ep), e), why) = (
  (
    bs ++ front,
    (back, ground (arith, append_assoc bs front back)),
    ground (arith, append_assoc w.buffered bs front),
  ),
  why_before bs w v fs hv hf why,
)
then-Written bs cs w v fs hv hf (panic, u) h = h
then-Written bs cs w v fs hv hf (stuck, u) h = h

next-Written :
    (bs cs : Bytes) (w : Writer) (k : Io Writer (Unit {0}))
    → Writes k cs
    → (r : Result (Unit {0}) × Writer) → Written bs w r
    → Written (bs ++ cs) w (next r (λ _. k))
next-Written bs cs w k hk (ok _, v) (e, (fs, ef)) = then-Written bs cs w v fs e ef (k v) (hk.at v)
next-Written bs cs w k hk (err x, v) ((front, (back, ep), e), why) =
    ((front, (back ++ cs, ground (arith, append_assoc front back cs)), e), why)
next-Written bs cs w k hk (panic, v) h = h
next-Written bs cs w k hk (stuck, v) h = h

pub Writes->> :
    (m k : Io Writer (Unit {0})) (bs cs : Bytes)
    → Writes m bs
    → Writes k cs
    → Writes (m >> k) (bs ++ cs)
Writes->> m k bs cs hm hk = record { at = λ w. next-Written bs cs w k hk (m w) (hm.at w) }

-- On a connection that does not fail, the outcome is known.
pub Written-calm :
    (bs : Bytes) (w : Writer) (r : Result (Unit {0}) × Writer)
    → Written bs w r
    → w.broken ≡ false
    → w.faults ≡ []
    → r ≡ (ok tt, record w { buffered = w.buffered ++ bs })
Written-calm bs w (ok _, v) (e, (fs, ef)) hb hf =
    ground (arith, append-eq-nil_right fs v.faults (sym ef ∙ hf))
Written-calm bs w (err x, v) (p, inl h) hb hf = cc
Written-calm bs w (err x, v) (p, inr h) hb hf = absurd (h hf)
Written-calm bs w (panic, v) h hb hf = absurd h
Written-calm bs w (stuck, v) h hb hf = absurd h
