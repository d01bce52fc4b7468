-- ===== src/Io/Writer/Stream.antt =====
-- The bytes that a writer was given, sent or not.
use lodos.Base.{
  ◌≡◌, refl, ap, ◌∙◌, sym, Bool, true, false, List, [], ◌∷◌, ◌++◌, append_assoc, append-nil, arith,
  Prefix,
}
use lodos.Io.Result.{Result, ok, err, panic, stuck, next}
use lodos.Io.Reader.{Bytes}
use lodos.Io.Writer.{Writer, settle, flush}
use lodos.Io.Writer.Writes.{Written}

abbrev pub stream : Writer → Bytes
stream w = w.sent ++ w.buffered

-- All of `bs` is behind what was there, or the call failed and a front of it is.
abbrev pub Delivered : Bytes → Writer → Result (Unit {0}) × Writer → Type 0
Delivered bs w (ok _, w') = stream w' ≡ stream w ++ bs
Delivered bs w (err e, w') = (front : Bytes) × Prefix front bs × (stream w' ≡ stream w ++ front)
Delivered bs w (panic, w') = ⊥
Delivered bs w (stuck, w') = ⊥

pub Written-Delivered :
    (bs : Bytes) (w : Writer) (r : Result (Unit {0}) × Writer) → Written bs w r → Delivered bs w r
Written-Delivered bs w (ok _, v) (e, _) = ap stream e ∙ sym (append_assoc w.sent w.buffered bs)
Written-Delivered bs w (err x, v) ((front, p, e), _) =
    (front, p, ap stream e ∙ sym (append_assoc w.sent w.buffered front))
Written-Delivered bs w (panic, v) h = h
Written-Delivered bs w (stuck, v) h = h

settle-Delivered :
    (b : Bool) (fs : List Bool) (w : Writer)
    → Delivered [] w (settle b fs (λ v. record v { sent = v.sent ++ v.buffered; buffered = [] }) w)
settle-Delivered true fs w = ([], ([], refl), sym (append-nil (stream w)))
settle-Delivered false [] w = refl
settle-Delivered false (false ∷ fs) w = refl
settle-Delivered false (true ∷ fs) w = ([], ([], refl), sym (append-nil (stream w)))

-- A flush moves bytes, and neither adds nor loses one.
pub Delivered-flush : (w : Writer) → Delivered [] w (flush w)
unfolding flush
Delivered-flush w = settle-Delivered w.broken w.faults w

Prefix-nil : {A : Type 0} (xs : List A) → Prefix xs [] → xs ≡ []
Prefix-nil [] h = refl
Prefix-nil (x ∷ xs) (ys, e) = cc

after_flush :
    (bs : Bytes) (w v : Writer)
    → stream v ≡ stream w ++ bs
    → (r : Result (Unit {0}) × Writer) → Delivered [] v r
    → Delivered bs w r
after_flush bs w v e (ok _, u) h = ground (arith, append-nil (stream v))
after_flush bs w v e (err x, u) (front, (back, p), h) = (
  bs,
  ([], sym (append-nil bs)),
  ground (arith, Prefix-nil front (back, p), append-nil (stream v)),
)
after_flush bs w v e (panic, u) h = h
after_flush bs w v e (stuck, u) h = h

pub Delivered-then_flush :
    (bs : Bytes) (w : Writer) (r : Result (Unit {0}) × Writer)
    → Delivered bs w r
    → Delivered bs w (next r (λ _. flush))
Delivered-then_flush bs w (ok _, v) h = after_flush bs w v h (flush v) (Delivered-flush v)
Delivered-then_flush bs w (err x, v) h = h
Delivered-then_flush bs w (panic, v) h = h
Delivered-then_flush bs w (stuck, v) h = h
