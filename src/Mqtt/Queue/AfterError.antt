-- ===== src/Mqtt/Queue/AfterError.antt =====
-- The queue after writeLoop has ended on an error.
use lodos.Base.{◌≡◌, refl, ap, ◌∙◌, true, some, List, [], ◌∷◌, if_true}
use lodos.Io.Result.{Error}
use lodos.Mqtt.Queue.{PackQueue, Event, write_round, step, run}
use lodos.Mqtt.Queue.Order.{send-some}

step_after_error :
    (e : Event) (q : PackQueue) {x : Error}
    → q.write_error ≡ some x
    → q.finished ≡ true
    → step e q ≡ q
unfolding step write_round
step_after_error (Event.write p) q h f = send-some _ q.write_error q h
step_after_error (Event.write_delayed p) q h f = send-some _ q.write_error q h
step_after_error Event.flushes q h f = send-some _ q.write_error q h
step_after_error Event.round q h f = if_true q.finished q _ f

-- Once writeLoop has ended on an error the queue is dead: no request and no round changes it any more.
pub run_after_error :
    (es : List Event) (q : PackQueue) (x : Error)
    → q.write_error ≡ some x
    → q.finished ≡ true
    → run es q ≡ q
unfolding run
run_after_error [] q x h f = refl
run_after_error (e ∷ es) q x h f =
    ap (run es) (step_after_error e q h f) ∙ run_after_error es q x h f
