-- ===== src/Gate/Remote/Served.antt =====
-- The gate as the server of the calls of gate/base/session.go: the functions that gate/base/mqtt_gate.go registers,
-- called by their names.
use lodos.Base.{ℕ, Bool, Option, none, some, List, [], ◌∷◌, ◌==◌, if◌then◌else◌, length, same}
use lodos.Gate.Session.{Session}
use lodos.Gate.Handler
use lodos.Gate.Handler.{Gate, Storage}
use lodos.Gate.Handler.Many.{send_batch, is_connect}
use lodos.Gate.Remote.{
  Fn, updates, binds, unbinds, pushes, sends, sends_batch, asks_connect, closes, Param, text, body,
  settings, a_session, a_bool, a_count, nil, not_adapted, timed_out, failed, Outcome, fails, gives,
  Services,
}
use lodos.Io.Result.{Error, Result, ok, err, panic, stuck}
use lodos.Io.Reader.{Bytes}
use lodos.Utils.BeeMap.{BeeMap}

-- How many parameters the functions have.
abbrev pub arity : Fn → ℕ
arity updates = 1
arity binds = 2
arity unbinds = 1
arity pushes = 2
arity sends = 3
arity sends_batch = 3
arity asks_connect = 2
arity closes = 1

-- What the caller gets of the results: those but the last, or the last where it is an error. A function that panics ends
-- the process of the gate, and its caller waits for its time.
abbrev pub of_session : {G : Type 0} → Result (Option Session) × G → Outcome × G
of_session (ok (some s), g) = (gives (a_session s ∷ []), g)
of_session (ok none, g) = (gives (nil ∷ []), g)
of_session (err e, g) = (fails failed, g)
of_session (panic, g) = (fails timed_out, g)
of_session (stuck, g) = (fails timed_out, g)

abbrev of_error : {G : Type 0} → Result (Option Error) × G → Outcome × G
of_error (ok none, g) = (gives [], g)
of_error (ok (some e), g) = (fails failed, g)
of_error (err e, g) = (fails failed, g)
of_error (panic, g) = (fails timed_out, g)
of_error (stuck, g) = (fails timed_out, g)

abbrev of_unit : {G : Type 0} → Result (Unit {0}) × G → Outcome × G
of_unit (ok u, g) = (gives [], g)
of_unit (err e, g) = (fails failed, g)
of_unit (panic, g) = (fails timed_out, g)
of_unit (stuck, g) = (fails timed_out, g)

abbrev of_count : {G : Type 0} → Result (ℕ × Option Error) × G → Outcome × G
of_count (ok (n, none), g) = (gives (a_count n ∷ []), g)
of_count (ok (n, some e), g) = (fails failed, g)
of_count (err e, g) = (fails failed, g)
of_count (panic, g) = (fails timed_out, g)
of_count (stuck, g) = (fails timed_out, g)

abbrev of_bool : {G : Type 0} → Result Bool → G → Outcome × G
of_bool (ok b) g = (gives (a_bool b ∷ []), g)
of_bool (err e) g = (fails failed, g)
of_bool panic g = (fails timed_out, g)
of_bool stuck g = (fails timed_out, g)

module _ {M S : Type 0} (bm : BeeMap M ℕ) (storage : Option (Storage S))
    (parse : Bytes → Result Session) where
  -- The functions on parameters of their types. (Parameters of other types, which no call of a session gives, make the
  -- call of reflection panic.)
  abbrev pub invoked : Fn → List Param → Gate M S → Outcome × Gate M S
  invoked updates (text id ∷ []) g = of_session (Handler.update bm storage parse id g)
  invoked binds (text id ∷ text userid ∷ []) g =
      of_session (Handler.bind bm storage parse id userid g)
  invoked unbinds (text id ∷ []) g = of_session (Handler.unbind bm storage parse id g)
  invoked pushes (text id ∷ settings m ∷ []) g = of_session (Handler.push bm storage parse id m g)
  invoked sends (text id ∷ text topic ∷ body content ∷ []) g =
      of_error (Handler.send bm storage parse id topic content g)
  invoked sends_batch (text ids ∷ text topic ∷ body content ∷ []) g =
      of_count (send_batch bm storage parse ids topic content g)
  invoked asks_connect (text id ∷ text userid ∷ []) g =
      of_bool (is_connect bm storage parse userid g) g
  invoked closes (text id ∷ []) g = of_unit (Handler.close bm storage parse id g)
  invoked f params g = (fails timed_out, g)

  -- runFunc compares the number of parameters first.
  abbrev pub served : Fn → List Param → Gate M S → Outcome × Gate M S
  served f params g =
      if length params == arity f then invoked f params g else (fails not_adapted, g)

  -- The servers of an application that knows one gate.
  abbrev pub gate_services : Bytes → Services (Gate M S)
  gate_services gate_id = record {
    found = λ id g. same id gate_id;
    call = λ id f params g. served f params g;
    call_nr = λ id f params g. (none, (served f params g).1);
  }
