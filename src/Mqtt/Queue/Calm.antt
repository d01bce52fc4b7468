-- ===== src/Mqtt/Queue/Calm.antt =====
-- The queue on a connection that does not fail: writeLoop gives the writer everything that it was asked for.
use lodos.Base.{
  ℕ, zero, suc, ◌+◌, ◌≤◌, ◌≡◌, sym, ◌∙◌, false, none, List, [], ◌∷◌, ◌++◌, map, All, arith,
  append_assoc, append-nil, length, length-append, replicate,
}
use mathlib.Core.Path.{subst}
use lodos.Io.Result.{ok}
use lodos.Io.Reader.{Bytes}
use lodos.Io.Writer.{Writer}
use lodos.Io.Writer.Stream.{stream, Delivered}
use lodos.Io.Writer.Writes.{Written-calm}
use lodos.Mqtt.Queue.{PackQueue, send, new_pack_queue, write_item, write_round, step, run}
use lodos.Mqtt.Queue.Jobs.{
  Call, event, IsSendableCall, taken, accepted, Job, now, later, push, item, job_bytes,
  IsSendableJob, write_item-Delivered,
}
use lodos.Mqtt.Queue.Order.{
  IsRunning, settle-IsRunning, request-IsRunning, send-none, write_round-running, start-IsRunning,
  after,
}
use lodos.Mqtt.Write.Packets.{delay_write_pack-Written, write_pack-sent, flush-at}

pub record IsCalm (w : Writer) : Type 0 where
  pub whole : w.broken ≡ false
  pub faultless : w.faults ≡ []

pub write_item-calm :
    (j : Job) (w : Writer)
    → IsCalm w
    → IsSendableJob j
    → (v : Writer) × (write_item (item j) w ≡ (ok tt, v)) × IsCalm v
unfolding write_item
write_item-calm (now e) w c h = (
  _,
  write_pack-sent e.dup e.qos e.retain e.len e.message w h.dup_fits h.qos_fits h.message_fits
      c.whole c.faultless,
  record { whole = c.whole; faultless = c.faultless },
)
write_item-calm (later e) w c h = (
  _,
  Written-calm _ w _
      (delay_write_pack-Written e.dup e.qos e.retain e.len e.message w h.dup_fits h.qos_fits
        h.message_fits)
      c.whole c.faultless,
  record { whole = c.whole; faultless = c.faultless },
)
write_item-calm push w c h =
    (_, flush-at w c.whole c.faultless, record { whole = c.whole; faultless = c.faultless })

-- The loop runs on a calm connection.
pub record IsDraining (base : Bytes) (jobs : List Job) (q : PackQueue) : Type 0 where
  pub running : IsRunning base jobs q
  pub calm : IsCalm q.w

pub round-IsDraining :
    (base : Bytes) (j : Job) (js : List Job) (q : PackQueue)
    → IsDraining base (j ∷ js) q
    → IsDraining base js (write_round q)
round-IsDraining base j js q d =
    let (v, p, calm) = write_item-calm j q.w d.calm d.running.sendable.0 in
    rw (write_round-running (j ∷ js) q d.running, p)
      (record {
        running = settle-IsRunning base js q j v d.running (
            subst (Delivered (job_bytes j) q.w) p
              (write_item-Delivered j q.w d.running.sendable.0));
        calm = calm;
      })

pub round-nothing : (base : Bytes) (q : PackQueue) → IsDraining base [] q → write_round q ≡ q
round-nothing base q d = write_round-running [] q d.running

request-IsDraining :
    (base : Bytes) (js : List Job) (q : PackQueue) (j : Job)
    → IsDraining base js q
    → IsSendableJob j
    → (js' : List Job) × IsDraining (base ++ job_bytes j) js' (send (item j) q.write_error q).1
      × (length js' ≤ suc (length js))
request-IsDraining base js q j d h = (
  js ++ (j ∷ []),
  rw (send-none (item j) q.write_error q d.running.no_error)
      (record { running = request-IsRunning base js q j d.running h; calm = d.calm }),
  omega (arith, length-append js (j ∷ [])),
)

step-IsDraining :
    (c : Call) (base : Bytes) (js : List Job) (q : PackQueue)
    → IsDraining base js q
    → IsSendableCall c
    → (js' : List Job) × IsDraining (base ++ taken c none) js' (step (event c) q)
      × (length js' ≤ suc (length js))
unfolding step
step-IsDraining (Call.write e) base js q d h = request-IsDraining base js q (now e) d h
step-IsDraining (Call.write_delayed e) base js q d h = request-IsDraining base js q (later e) d h
step-IsDraining Call.flushes base js q d h = request-IsDraining base js q push d tt
step-IsDraining Call.round base [] q d h =
    ([], rw (append-nil base, round-nothing base q d) d, omega arith)
step-IsDraining Call.round base (j ∷ js) q d h =
    (js, rw (append-nil base) (round-IsDraining base j js q d), omega arith)

pub run-IsDraining :
    (cs : List Call) (base : Bytes) (js : List Job) (q : PackQueue)
    → IsDraining base js q
    → All IsSendableCall cs
    → (js' : List Job) × IsDraining (base ++ accepted cs q) js' (run (map event cs) q)
      × (length js' ≤ length js + length cs)
unfolding run
run-IsDraining [] base js q d h = (js, rw (append-nil base) d, omega arith)
run-IsDraining (c ∷ cs) base js q d (hc, h) =
    let (js1, d1, n1) = step-IsDraining c base js q d hc in
    let (js2, d2, n2) = run-IsDraining cs (base ++ taken c none) js1 (step (event c) q) d1 h in
    (
      js2,
      subst
          (λ o.
            IsDraining (base ++ (taken c o ++ accepted cs (step (event c) q))) js2
              (run (map event cs) (step (event c) q)))
          (sym d.running.no_error)
          (subst (λ b. IsDraining b js2 (run (map event cs) (step (event c) q)))
            (append_assoc base (taken c none) (accepted cs (step (event c) q))) d2),
      omega arith,
    )

-- `n` rounds of writeLoop.
abbrev pub rounds : ℕ → List Call
rounds n = replicate n Call.round

rounds-IsDraining :
    (n : ℕ) (base : Bytes) (js : List Job) (q : PackQueue)
    → IsDraining base js q
    → length js ≤ n
    → IsDraining base [] (run (map event (rounds n)) q)
unfolding run step
rounds-IsDraining zero base [] q d h = d
rounds-IsDraining zero base (j ∷ js) q d h = absurd (omega arith)
rounds-IsDraining (suc n) base [] q d h =
    subst (λ x. IsDraining base [] (run (map event (rounds n)) x)) (sym (round-nothing base q d))
      (rounds-IsDraining n base [] q d (omega arith))
rounds-IsDraining (suc n) base (j ∷ js) q d h =
    rounds-IsDraining n base js (write_round q) (round-IsDraining base j js q d) (omega arith)

pub start-IsDraining :
    (read_timeout alive : ℕ) (w : Writer)
    → w.broken ≡ false
    → w.faults ≡ []
    → IsDraining (stream w) [] (new_pack_queue read_timeout w alive)
unfolding new_pack_queue
start-IsDraining read_timeout alive w hb hf = record {
  running = start-IsRunning read_timeout alive w;
  calm = record { whole = hb; faultless = hf };
}

pub stream_drains :
    (cs : List Call) (read_timeout alive : ℕ) (w : Writer)
    → All IsSendableCall cs
    → w.broken ≡ false
    → w.faults ≡ []
    → (stream (run (map event (rounds (length cs))) (after cs read_timeout alive w)).w
        ≡ stream w ++ accepted cs (new_pack_queue read_timeout w alive))
      × ((run (map event (rounds (length cs))) (after cs read_timeout alive w)).write_chan ≡ [])
      × ((run (map event (rounds (length cs))) (after cs read_timeout alive w)).write_error ≡ none)
stream_drains cs read_timeout alive w h hb hf =
    let start = new_pack_queue read_timeout w alive in
    let base = stream w ++ accepted cs start in
    let (js, d, n) =
      run-IsDraining cs (stream w) [] start (start-IsDraining read_timeout alive w hb hf) h in
    let done =
      rounds-IsDraining (length cs) base js (after cs read_timeout alive w) d (omega arith) in
    (sym (append-nil _) ∙ done.running.whole, done.running.waiting, done.running.no_error)
