-- ===== src/Mqtt/Queue/ReadLoop.antt =====
-- ReadPackInLoop on every stream, and on a stream of frames.
use lodos.Base.{
  ℕ, zero, suc, ◌<◌, ◌≡◌, refl, List, [], ◌∷◌, ◌++◌, All, arith, length, length-append,
}
use lodos.Io.Result.{Error, Result, ok, err, eof, panic, stuck}
use lodos.Io.Reader.{Bytes}
use lodos.Io.Reader.Sound.{Answers}
use lodos.Mqtt.Message.{Message, frame, IsReceivable, received_pack}
use lodos.Mqtt.Pack.{Pack}
use lodos.Mqtt.Queue.{read_loop, read_pack_in_loop, after_read}
use lodos.Mqtt.Read.{read_pack}
use lodos.Mqtt.Read.RoundTrip.{read_pack-frame}
use lodos.Mqtt.Read.Sound.{read_pack-nil, read_pack-shorter, read_pack-Answers}

-- What ends the loop is an error of ReadPack.
abbrev pub EndsByError : List Pack × Result (Unit {0}) → Type 0
EndsByError (packs, r) = (e : Error) × (r ≡ err e)

after_read-EndsByError :
    (s : Bytes) (r : Result Pack × Bytes) (more : Bytes → List Pack × Result (Unit {0}))
    → Answers s r
    → ((p : Pack) (rest : Bytes) → r ≡ (ok p, rest) → EndsByError (more rest))
    → EndsByError (after_read r more)
after_read-EndsByError s (ok p, rest) more h hm = hm p rest refl
after_read-EndsByError s (err e, rest) more h hm = (e, refl)
after_read-EndsByError s (panic, rest) more h hm = absurd h
after_read-EndsByError s (stuck, rest) more h hm = absurd h

read_loop-EndsByError : (fuel : ℕ) (s : Bytes) → length s < fuel → EndsByError (read_loop fuel s)
unfolding read_loop
read_loop-EndsByError zero s h = absurd (omega arith)
read_loop-EndsByError (suc fuel) s h =
    after_read-EndsByError s (read_pack s) (read_loop fuel) (read_pack-Answers s)
      (λ p rest e. read_loop-EndsByError fuel rest (omega (arith, read_pack-shorter s p rest e)))

-- On every finite stream the loop of ReadPackInLoop ends, and by an error of ReadPack that it reports.
pub read_pack_in_loop-EndsByError : (s : Bytes) → EndsByError (read_pack_in_loop s)
unfolding read_pack_in_loop
read_pack_in_loop-EndsByError s = read_loop-EndsByError (suc (length s)) s (omega arith)

-- A message with the flags of its packet.
pub record Sent : Type 0 where
  pub dup : ℕ
  pub qos : ℕ
  pub message : Message

pub record IsReceivableSent (m : Sent) : Type 0 where
  pub dup_fits : m.dup < 2
  pub qos_fits : m.qos < 4
  pub receivable : IsReceivable m.qos m.message

abbrev pub frames : List Sent → Bytes
frames [] = []
frames (m ∷ ms) = frame m.dup m.qos m.message ++ frames ms

abbrev pub packs : List Sent → List Pack
packs [] = []
packs (m ∷ ms) = received_pack m.dup m.qos m.message ∷ packs ms

read_loop-frames :
    (ms : List Sent) (fuel : ℕ)
    → All IsReceivableSent ms
    → length (frames ms) < fuel
    → read_loop fuel (frames ms) ≡ (packs ms, err eof)
unfolding read_loop
read_loop-frames ms zero h hf = absurd (omega arith)
read_loop-frames [] (suc fuel) h hf = rw read_pack-nil
read_loop-frames (m ∷ ms) (suc fuel) (hm, h) hf =
    rw (read_pack-frame m.dup m.qos m.message (frames ms) hm.dup_fits hm.qos_fits hm.receivable) (
      rw (
        read_loop-frames ms fuel h
          (omega (arith, length-append (frame m.dup m.qos m.message) (frames ms)))))

-- A stream of frames of receivable messages (a SUBSCRIBE with topics within the bound that its loop reads, and
-- the like) arrives as the list of the packets that were sent, in their order, and then the end of the stream;
-- each packet comes less its retain flag, less the content of a CONNACK, and less the id that a PUBLISH at
-- QoS 0 was given.
pub read_pack_in_loop-frames :
    (ms : List Sent) → All IsReceivableSent ms → read_pack_in_loop (frames ms) ≡ (packs ms, err eof)
unfolding read_pack_in_loop
read_pack_in_loop-frames ms h = read_loop-frames ms (suc (length (frames ms))) h (omega arith)
