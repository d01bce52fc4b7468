-- ===== src/Mqtt/Queue/Order.antt =====
-- What reaches the connection, for every interleaving of the callers with writeLoop.
use lodos.Base.{
  ℕ, ◌≡◌, refl, sym, ap, ◌∙◌, ◌⊎◌, inl, inr, true, false, Option, none, some, List, [], ◌∷◌, ◌++◌,
  map, All, append_assoc, append-nil, Prefix, if_true, if_false,
}
use mathlib.Core.Path.{subst}
use lodos.Io.Result.{Error, Result, ok, err, panic, stuck}
use lodos.Io.Reader.{Bytes}
use lodos.Io.Writer.{Writer}
use lodos.Io.Writer.Stream.{stream, Delivered}
use lodos.Mqtt.Queue.{
  PackQueue, PackAndType, send, new_pack_queue, write_item, settle, receive, write_round, step, run,
}
use lodos.Mqtt.Queue.Jobs.{
  Call, write, write_delayed, flushes, round, event, IsSendableCall, taken, accepted, Job, now,
  later, push, item, job_bytes, jobs_bytes, IsSendableJob, write_item-Delivered,
}

-- The loop runs, and what it has written and what waits make up `base`.
pub record IsRunning (base : Bytes) (jobs : List Job) (q : PackQueue) : Type 0 where
  pub goes_on : q.finished ≡ false
  pub no_error : q.write_error ≡ none
  pub no_crash : q.crashed ≡ false
  pub waiting : q.write_chan ≡ map item jobs
  pub sendable : All IsSendableJob jobs
  pub whole : stream q.w ++ jobs_bytes jobs ≡ base

-- The loop has ended on an error, and what it has written is a front of `base`.
record IsFailed (base : Bytes) (q : PackQueue) : Type 0 where
  ended : q.finished ≡ true
  no_crash : q.crashed ≡ false
  error : Error
  has_error : q.write_error ≡ some error
  front : Prefix (stream q.w) base

abbrev Inv : Bytes → PackQueue → Type 0
Inv base q = ((jobs : List Job) × IsRunning base jobs q) ⊎ IsFailed base q

map-append_one :
    (js : List Job) (j : Job) → map item (js ++ (j ∷ [])) ≡ map item js ++ (item j ∷ [])
map-append_one [] j = refl
map-append_one (k ∷ js) j = ap (λ xs. item k ∷ xs) (map-append_one js j)

jobs_bytes-append_one :
    (js : List Job) (j : Job) → jobs_bytes (js ++ (j ∷ [])) ≡ jobs_bytes js ++ job_bytes j
jobs_bytes-append_one [] j = append-nil (job_bytes j)
jobs_bytes-append_one (k ∷ js) j =
    ap (λ xs. job_bytes k ++ xs) (jobs_bytes-append_one js j)
    ∙ sym (append_assoc (job_bytes k) (jobs_bytes js) (job_bytes j))

All-append_one :
    (js : List Job) (j : Job)
    → All IsSendableJob js
    → IsSendableJob j
    → All IsSendableJob (js ++ (j ∷ []))
All-append_one [] j h hj = (hj, tt)
All-append_one (k ∷ js) j (hk, h) hj = (hk, All-append_one js j h hj)

-- A request while the loop runs joins the jobs that wait.
pub request-IsRunning :
    (base : Bytes) (js : List Job) (q : PackQueue) (j : Job)
    → IsRunning base js q
    → IsSendableJob j
    → IsRunning
        (base ++ job_bytes j)
        (js ++ (j ∷ []))
        (record q { write_chan = q.write_chan ++ (item j ∷ []) })
request-IsRunning base js q j r h = record {
  goes_on = r.goes_on;
  no_error = r.no_error;
  no_crash = r.no_crash;
  waiting = rw (r.waiting, map-append_one js j);
  sendable = All-append_one js j r.sendable h;
  whole = rw (
    jobs_bytes-append_one js j,
    ← append_assoc (stream q.w) (jobs_bytes js) (job_bytes j),
    r.whole,
  );
}

pub settle-IsRunning :
    (base : Bytes) (js : List Job) (q : PackQueue) (j : Job) (v : Writer)
    → IsRunning base (j ∷ js) q
    → Delivered (job_bytes j) q.w (ok tt, v)
    → IsRunning base js (record q { write_chan = map item js; w = v })
settle-IsRunning base js q j v r d = record {
  goes_on = r.goes_on;
  no_error = r.no_error;
  no_crash = r.no_crash;
  waiting = refl;
  sendable = r.sendable.1;
  whole = rw d (append_assoc (stream q.w) (job_bytes j) (jobs_bytes js) ∙ r.whole);
}

settle-Inv :
    (base : Bytes) (js : List Job) (q : PackQueue) (j : Job) (r : Result (Unit {0}) × Writer)
    → IsRunning base (j ∷ js) q
    → Delivered (job_bytes j) q.w r
    → Inv base (settle r (record q { write_chan = map item js }))
settle-Inv base js q j (ok _, v) r d = inl (js, settle-IsRunning base js q j v r d)
settle-Inv base js q j (err e, v) r (front, (back, p), d) = inr (record {
  ended = refl;
  no_crash = r.no_crash;
  error = e;
  has_error = refl;
  front = (back ++ jobs_bytes js, rw (d, ← r.whole, p) (simp append_assoc));
})
settle-Inv base js q j (panic, v) r d = absurd d
settle-Inv base js q j (stuck, v) r d = absurd d

pub send-none :
    (pt : PackAndType) (o : Option Error) (q : PackQueue)
    → o ≡ none
    → (send pt o q).1 ≡ record q { write_chan = q.write_chan ++ (pt ∷ []) }
send-none pt none q h = refl
send-none pt (some e) q h = cc

pub send-some :
    (pt : PackAndType) (o : Option Error) (q : PackQueue) {e : Error}
    → o ≡ some e
    → (send pt o q).1 ≡ q
send-some pt none q h = cc
send-some pt (some e) q h = refl

receive-Inv :
    (base : Bytes) (js : List Job) (q : PackQueue)
    → IsRunning base js q
    → Inv base (receive (map item js) q)
receive-Inv base [] q r = inl ([], r)
receive-Inv base (j ∷ js) q r =
    settle-Inv base js q j (write_item (item j) q.w) r (write_item-Delivered j q.w r.sendable.0)

pub write_round-running :
    (js : List Job) (q : PackQueue) {base : Bytes}
    → IsRunning base js q
    → write_round q ≡ receive (map item js) q
unfolding write_round
write_round-running js q r =
    if_false q.finished q _ r.goes_on ∙ ap (λ chan. receive chan q) r.waiting

step-running :
    (c : Call) (base : Bytes) (js : List Job) (q : PackQueue)
    → IsRunning base js q
    → IsSendableCall c
    → Inv (base ++ taken c none) (step (event c) q)
unfolding step
step-running (write e) base js q r h =
    rw (send-none (item (now e)) q.write_error q r.no_error)
      (inl (js ++ (now e ∷ []), request-IsRunning base js q (now e) r h))
step-running (write_delayed e) base js q r h =
    rw (send-none (item (later e)) q.write_error q r.no_error)
      (inl (js ++ (later e ∷ []), request-IsRunning base js q (later e) r h))
step-running flushes base js q r h =
    rw (send-none (item push) q.write_error q r.no_error)
      (inl (js ++ (push ∷ []), request-IsRunning base js q push r tt))
step-running round base js q r h =
    rw (append-nil base, write_round-running js q r) (receive-Inv base js q r)

step-failed :
    (c : Call) (base : Bytes) (q : PackQueue) (f : IsFailed base q)
    → (step (event c) q ≡ q) × (taken c q.write_error ≡ [])
unfolding step write_round
step-failed (write e) base q f = (send-some _ q.write_error q f.has_error, rw f.has_error)
step-failed (write_delayed e) base q f = (send-some _ q.write_error q f.has_error, rw f.has_error)
step-failed flushes base q f = (send-some _ q.write_error q f.has_error, refl)
step-failed round base q f = (if_true q.finished q _ f.ended, refl)

step-Inv :
    (c : Call) (base : Bytes) (q : PackQueue)
    → Inv base q
    → IsSendableCall c
    → Inv (base ++ taken c q.write_error) (step (event c) q)
step-Inv c base q (inl (js, r)) h =
    subst (λ o. Inv (base ++ taken c o) (step (event c) q)) (sym r.no_error)
      (step-running c base js q r h)
step-Inv c base q (inr f) h =
    let (same, none_taken) = step-failed c base q f in
    rw (same, none_taken, append-nil base) (inr f)

run-Inv :
    (cs : List Call) (base : Bytes) (q : PackQueue)
    → Inv base q
    → All IsSendableCall cs
    → Inv (base ++ accepted cs q) (run (map event cs) q)
unfolding run
run-Inv [] base q v h = rw (append-nil base) v
run-Inv (c ∷ cs) base q v (hc, h) =
    rw (← append_assoc base (taken c q.write_error) (accepted cs (step (event c) q)))
      (run-Inv cs (base ++ taken c q.write_error) (step (event c) q) (step-Inv c base q v hc) h)

pub start-IsRunning :
    (read_timeout alive : ℕ) (w : Writer)
    → IsRunning (stream w) [] (new_pack_queue read_timeout w alive)
unfolding new_pack_queue
start-IsRunning read_timeout alive w = record {
  goes_on = refl;
  no_error = refl;
  no_crash = refl;
  waiting = refl;
  sendable = tt;
  whole = append-nil (stream w);
}

start-Inv :
    (read_timeout alive : ℕ) (w : Writer) → Inv (stream w) (new_pack_queue read_timeout w alive)
start-Inv read_timeout alive w = inl ([], start-IsRunning read_timeout alive w)

abbrev pub after : List Call → ℕ → ℕ → Writer → PackQueue
after cs read_timeout alive w = run (map event cs) (new_pack_queue read_timeout w alive)

-- Whatever callers ask for and however their requests fall between the rounds of writeLoop, and whenever
-- the connection fails: what was written is a front of the frames that the queue accepted, in the order
-- of the requests, and the loop did not panic. (Each packet says a message that fits its frame.)
pub run_prefix :
    (cs : List Call) (read_timeout alive : ℕ) (w : Writer)
    → All IsSendableCall cs
    → Prefix
        (stream (after cs read_timeout alive w).w)
        (stream w ++ accepted cs (new_pack_queue read_timeout w alive))
      × ((after cs read_timeout alive w).crashed ≡ false)
run_prefix cs read_timeout alive w h =
    elim (run-Inv cs (stream w) _ (start-Inv read_timeout alive w) h) [
      | inl (js, r) ↦ ((jobs_bytes js, sym r.whole), r.no_crash)
      | inr f ↦ (f.front, f.no_crash)
    ]

whole_if_empty :
    (base : Bytes) (js : List Job) (q : PackQueue)
    → IsRunning base js q
    → q.write_chan ≡ []
    → stream q.w ≡ base
whole_if_empty base [] q r h = sym (append-nil (stream q.w)) ∙ r.whole
whole_if_empty base (j ∷ js) q r h = cc (r.waiting, h)

-- Once the loop has received everything, and reported no error, exactly the accepted frames were written. (Each packet says a message that fits its frame.)
pub run_drained :
    (cs : List Call) (read_timeout alive : ℕ) (w : Writer)
    → All IsSendableCall cs
    → (after cs read_timeout alive w).write_chan ≡ []
    → (after cs read_timeout alive w).write_error ≡ none
    → stream (after cs read_timeout alive w).w
      ≡ stream w ++ accepted cs (new_pack_queue read_timeout w alive)
run_drained cs read_timeout alive w h empty fine =
    elim (run-Inv cs (stream w) _ (start-Inv read_timeout alive w) h) [
      | inl (js, r) ↦ whole_if_empty _ js _ r empty
      | inr f ↦ cc (f.has_error, fine)
    ]
