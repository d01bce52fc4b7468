-- ===== src/Mqtt/Queue/Drains.antt =====
-- On a connection that does not fail, writeLoop sends everything that it was asked for.
use lodos.Base.{
  ℕ, zero, suc, ◌≤◌, ◌≡◌, refl, ap, sym, ◌∙◌, false, none, List, [], ◌∷◌, ◌++◌, map, All, arith,
  append-nil, length, length-append,
}
use mathlib.Core.Path.{subst}
use lodos.Io.Result.{Result}
use lodos.Io.Reader.{Bytes}
use lodos.Io.Writer.{Writer}
use lodos.Io.Writer.Stream.{stream}
use lodos.Mqtt.Queue.{PackQueue, send, new_pack_queue, write_item, write_round, step, run}
use lodos.Mqtt.Queue.Jobs.{
  Call, event, IsSendableCall, accepted, Job, now, later, push, item, job_bytes, IsSendableJob,
}
use lodos.Mqtt.Queue.Order.{request-IsRunning, send-none, write_round-running, after}
use lodos.Mqtt.Write.Packets.{write_pack-sent, flush-at}
use lodos.Mqtt.Queue.Calm.{
  IsCalm, IsDraining, write_item-calm, round-IsDraining, round-nothing, start-IsDraining,
  run-IsDraining, stream_drains, rounds,
}

-- The jobs that leave nothing in the buffer, and the calls that make them.
abbrev Empties : Job → Type 0
Empties (now e) = Unit {0}
Empties (later e) = ⊥
Empties push = Unit {0}

abbrev pub Sends : Call → Type 0
Sends (Call.write e) = Unit {0}
Sends (Call.write_delayed e) = ⊥
Sends Call.flushes = Unit {0}
Sends Call.round = ⊥

write_item-empty :
    (j : Job) (w : Writer)
    → IsCalm w
    → IsSendableJob j
    → Empties j
    → (write_item (item j) w).1.buffered ≡ []
unfolding write_item
write_item-empty (now e) w c h u =
    ap (λ (r : Result (Unit {0}) × Writer). r.1.buffered)
      (write_pack-sent e.dup e.qos e.retain e.len e.message w h.dup_fits h.qos_fits h.message_fits
        c.whole c.faultless)
write_item-empty (later e) w c h u = absurd u
write_item-empty push w c h u =
    ap (λ (r : Result (Unit {0}) × Writer). r.1.buffered) (flush-at w c.whole c.faultless)

-- Nothing is in the buffer, or the last job that waits will empty it.
abbrev WillEmpty : List Job → Writer → Type 0
WillEmpty [] w = w.buffered ≡ []
WillEmpty (j ∷ []) w = Empties j
WillEmpty (j ∷ js) w = WillEmpty js w

WillEmpty-last : (js : List Job) (j : Job) (w : Writer) → Empties j → WillEmpty (js ++ (j ∷ [])) w
WillEmpty-last [] j w h = h
WillEmpty-last (k ∷ []) j w h = h
WillEmpty-last (k ∷ l ∷ js) j w h = WillEmpty-last (l ∷ js) j w h

WillEmpty-any :
    (j : Job) (js : List Job) (w v : Writer) → WillEmpty (j ∷ js) w → WillEmpty (j ∷ js) v
WillEmpty-any j [] w v h = h
WillEmpty-any j (k ∷ js) w v h = WillEmpty-any k js w v h

round-writer :
    (base : Bytes) (j : Job) (js : List Job) (q : PackQueue)
    → IsDraining base (j ∷ js) q
    → (write_round q).w ≡ (write_item (item j) q.w).1
round-writer base j js q d =
    let (v, p, calm) = write_item-calm j q.w d.calm d.running.sendable.0 in
    rw (write_round-running (j ∷ js) q d.running, p) refl

round-WillEmpty :
    (base : Bytes) (j : Job) (js : List Job) (q : PackQueue)
    → IsDraining base (j ∷ js) q
    → WillEmpty (j ∷ js) q.w
    → WillEmpty js (write_round q).w
round-WillEmpty base j [] q d h =
    ap (λ (v : Writer). v.buffered) (round-writer base j [] q d)
    ∙ write_item-empty j q.w d.calm d.running.sendable.0 h
round-WillEmpty base j (k ∷ js) q d h = WillEmpty-any k js q.w _ h

rounds-empty :
    (n : ℕ) (base : Bytes) (js : List Job) (q : PackQueue)
    → IsDraining base js q
    → length js ≤ n
    → WillEmpty js q.w
    → (run (map event (rounds n)) q).w.buffered ≡ []
unfolding run step
rounds-empty zero base [] q d h e = e
rounds-empty zero base (j ∷ js) q d h e = absurd (omega arith)
rounds-empty (suc n) base [] q d h e =
    subst (λ x. (run (map event (rounds n)) x).w.buffered ≡ []) (sym (round-nothing base q d))
      (rounds-empty n base [] q d (omega arith) e)
rounds-empty (suc n) base (j ∷ js) q d h e =
    rounds-empty n base js (write_round q) (round-IsDraining base j js q d) (omega arith)
      (round-WillEmpty base j js q d e)

after-last :
    (cs : List Call) (c : Call) (q : PackQueue)
    → run (map event (cs ++ (c ∷ []))) q ≡ step (event c) (run (map event cs) q)
unfolding run
after-last [] c q = refl
after-last (d ∷ cs) c q = after-last cs c (step (event d) q)

last_request :
    (j : Job) (base : Bytes) (js : List Job) (q : PackQueue)
    → IsDraining base js q
    → IsSendableJob j
    → Empties j
    → (base' : Bytes) × (js' : List Job) × IsDraining base' js' (send (item j) q.write_error q).1
      × (length js' ≤ suc (length js))
      × WillEmpty js' (send (item j) q.write_error q).1.w
last_request j base js q d h s = (
  base ++ job_bytes j,
  js ++ (j ∷ []),
  rw (send-none (item j) q.write_error q d.running.no_error)
      (record { running = request-IsRunning base js q j d.running h; calm = d.calm }),
  omega (arith, length-append js (j ∷ [])),
  WillEmpty-last js j _ s,
)

All-last :
    (cs : List Call) (c : Call)
    → All IsSendableCall (cs ++ (c ∷ []))
    → All IsSendableCall cs × IsSendableCall c
All-last [] c (h, hs) = (tt, h)
All-last (d ∷ cs) c (h, hs) = let (hs', hc) = All-last cs c hs in ((h, hs'), hc)

stream-empty : (w : Writer) → w.buffered ≡ [] → w.sent ≡ stream w
stream-empty w h = sym (append-nil w.sent) ∙ ap (λ b. w.sent ++ b) (sym h)

-- A request that sends is the last of the jobs then.
last-WillEmpty :
    (c : Call) (base : Bytes) (js : List Job) (q : PackQueue)
    → IsDraining base js q
    → IsSendableCall c
    → Sends c
    → (base' : Bytes) × (js' : List Job) × IsDraining base' js' (step (event c) q)
      × (length js' ≤ suc (length js))
      × WillEmpty js' (step (event c) q).w
unfolding step
last-WillEmpty (Call.write e) base js q d h s = last_request (now e) base js q d h s
last-WillEmpty (Call.write_delayed e) base js q d h s = absurd s
last-WillEmpty Call.flushes base js q d h s = last_request push base js q d tt s
last-WillEmpty Call.round base js q d h s = absurd s

-- On a connection that does not fail, whatever calls were made and however the rounds of writeLoop came between them: if
-- the last call is a WritePack or a Flush, then with one more round for each call the accepted frames have all been
-- sent on the connection in the order of their calls, behind what stood in the buffer; nothing is left in the buffer,
-- nothing waits, and there is no error. (Each packet says a message that fits its frame.)
pub run_drains :
    (cs : List Call) (c : Call) (read_timeout alive : ℕ) (w : Writer)
    → All IsSendableCall (cs ++ (c ∷ []))
    → Sends c
    → w.broken ≡ false
    → w.faults ≡ []
    → let all = cs ++ (c ∷ []) in
      let q = run (map event (rounds (length all))) (after all read_timeout alive w) in
      (q.w.sent ≡ stream w ++ accepted all (new_pack_queue read_timeout w alive))
      × (q.w.buffered ≡ [])
      × (q.write_chan ≡ [])
      × (q.write_error ≡ none)
run_drains cs c read_timeout alive w h s hb hf =
    let all = cs ++ (c ∷ []) in
    let start = new_pack_queue read_timeout w alive in
    let (whole, waits, calm) = stream_drains all read_timeout alive w h hb hf in
    let (h1, h2) = All-last cs c h in
    let (js, d, n) =
      run-IsDraining cs (stream w) [] start (start-IsDraining read_timeout alive w hb hf) h1 in
    let (base, js', d', n', e) = last-WillEmpty c _ js (run (map event cs) start) d h2 s in
    let empty =
      subst (λ x. (run (map event (rounds (length all))) x).w.buffered ≡ [])
        (sym (after-last cs c start))
        (rounds-empty (length all) base js' (step (event c) (run (map event cs) start)) d'
          (omega (arith, length-append cs (c ∷ []))) e) in
    let v = (run (map event (rounds (length all))) (after all read_timeout alive w)).w in
    (stream-empty v empty ∙ whole, empty, waits, calm)
