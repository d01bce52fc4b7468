-- ===== src/Gate/Remote.antt =====
-- gate/base/session.go: the calls of a session, held by any server, to the gate that its client is connected to.
pub mod Served
pub mod Wire
pub mod Mirrors
mod Runs
pub mod Unreached
use lodos.Base.{ℕ, Bool, true, false, Option, none, some, List, [], ◌∷◌, if◌then◌else◌, is_empty}
use lodos.Gate.Session.{Session, Settings, made, set_key, set_settings}
use lodos.Io.Result.{Result, ok, err, panic, stuck}
use lodos.Io.Reader.{Bytes}
use lodos.Utils.Numbers.{ℤ, pos}

-- The functions of a gate that are called by their names, with what they are given and what they give back.
pub data Fn : Type 0 where
  updates binds unbinds pushes sends sends_batch asks_connect closes : Fn

pub data Param : Type 0 where
  text : Bytes → Param
  body : Bytes → Param
  settings : Option Settings → Param
  number : ℤ → Param

pub data Value : Type 0 where
  a_session : Session → Value
  a_bool : Bool → Value
  a_count : ℕ → Value
  nil another : Value

-- The errors of the calls, then those of a gate that a call brings back.
pub data RemoteError : Type 0 where
  no_app no_service not_converted unsupported : RemoteError
  not_adapted timed_out failed : RemoteError

-- What Call gives: an error, or the results.
pub data Outcome : Type 0 where
  fails : RemoteError → Outcome
  gives : List Value → Outcome

-- GetServerById of the application, and Call and CallNR of the server that it finds, on the state of the servers.
pub record Services (W : Type 0) : Type 0 where
  pub found : Bytes → W → Bool
  pub call : Bytes → Fn → List Param → W → (Outcome × W)
  pub call_nr : Bytes → Fn → List Param → W → (Option RemoteError × W)

-- update: the carrier of traces and the token are no fields of the model, and update does not copy them.
abbrev pub copied : Session → Session → Session
copied r s = record s {
  userid = r.userid;
  ip = r.ip;
  network = r.network;
  sessionid = r.sessionid;
  serverid = r.serverid;
  settings = r.settings;
}

-- What Update, UnBind and Push make of the results of their call.
abbrev pub refreshed : Outcome → Session → Option RemoteError × Session
refreshed (fails e) s = (some e, s)
refreshed (gives []) s = (none, s)
refreshed (gives (a_session r ∷ vs)) s = (none, copied r s)
refreshed (gives (v ∷ vs)) s = (some not_converted, s)

-- What Bind makes of them: the text of its error asks for the type of the result, and panics at nil. Bind recovers
-- from that, and returns no error.
abbrev pub bound : Outcome → Session → Option RemoteError × Session
bound (gives (nil ∷ vs)) s = (none, s)
bound o s = refreshed o s

abbrev pub error_of : Outcome → Option RemoteError
error_of (fails e) = some e
error_of (gives vs) = none

-- `count[0].(int64)`
abbrev pub count_of : Outcome → Result (ℕ × Option RemoteError)
count_of (fails e) = ok (0, some e)
count_of (gives (a_count n ∷ vs)) = ok (n, none)
count_of (gives vs) = panic

abbrev pub answer_of : Outcome → Bool × Option RemoteError
answer_of (fails e) = (false, some e)
answer_of (gives (a_bool b ∷ vs)) = (b, none)
answer_of (gives vs) = (false, some unsupported)

-- IsGuest, with the judge of the session and that of its application, and the judge that the session has then.
abbrev by_judge : Option (Session → Bool) → Session → Bool
by_judge none s = is_empty s.userid
by_judge (some judge) s = judge s

abbrev pub chosen_judge :
    Option (Session → Bool) → Option (Session → Bool) → Session → Option (Session → Bool)
chosen_judge (some judge) of_app s = some judge
chosen_judge none of_app s = if s.has_app then of_app else none

pub is_guest :
    Option (Session → Bool) → Option (Session → Bool) → Session → Bool × Option (Session → Bool)
is_guest own of_app s = let judge = chosen_judge own of_app s in (by_judge judge s, judge)

-- Clone, whose inject asks the application for its tracer.
pub clone : Session → Result Session
clone s = if s.has_app then ok s else panic

module _ {W : Type 0} (services : Services W) where
  -- The guards of every call: the application is not nil, and the server is found.
  abbrev reached : {A : Type 0} → (RemoteError → A) → A → Session → W → A
  reached refuse go s w =
      if s.has_app
      then (if services.found s.serverid w then go else refuse no_service)
      else refuse no_app

  abbrev called : Fn → List Param → Session → W → Outcome × W
  called f params s w = services.call s.serverid f params w

  abbrev pub Reply : Type 0
  Reply = Option RemoteError × (Session × W)

  abbrev pub refused : Session → W → RemoteError → Reply
  refused s w e = (some e, (s, w))

  -- A call whose outcome changes the session.
  abbrev pub settled :
      (Outcome → Session → Option RemoteError × Session) → Outcome × W → Session → Reply
  settled take (o, w) s = let (e, s') = take o s in (e, (s', w))

  pub update : Session → W → Reply
  update s w =
      reached (refused s w) (settled refreshed (called updates (text s.sessionid ∷ []) s w) s) s w

  pub bind : Bytes → Session → W → Reply
  bind userid s w =
      reached (refused s w)
        (settled bound (called binds (text s.sessionid ∷ text userid ∷ []) s w) s) s w

  pub unbind : Session → W → Reply
  unbind s w =
      reached (refused s w) (settled refreshed (called unbinds (text s.sessionid ∷ []) s w) s) s w

  pub push : Session → W → Reply
  push s w =
      reached (refused s w)
        (settled refreshed (called pushes (text s.sessionid ∷ settings s.settings ∷ []) s w) s) s w

  pub set_push : Bytes → Bytes → Session → W → Reply
  unfolding push
  set_push key value s w =
      if s.has_app
      then push (set_settings (some (set_key key (some value) (made s.settings))) s) w
      else refused s w no_app

  -- The calls that leave the session as it is.
  abbrev pub just_refused : W → RemoteError → Option RemoteError × W
  just_refused w e = (some e, w)

  abbrev just_called : Outcome × W → Option RemoteError × W
  just_called (o, w) = (error_of o, w)

  pub send : Bytes → Bytes → Session → W → Option RemoteError × W
  send topic content s w =
      reached (just_refused w)
        (just_called (called sends (text s.sessionid ∷ text topic ∷ body content ∷ []) s w)) s w

  pub send_nr : Bytes → Bytes → Session → W → Option RemoteError × W
  send_nr topic content s w =
      reached (just_refused w)
        (services.call_nr s.serverid sends (text s.sessionid ∷ text topic ∷ body content ∷ []) w) s
        w

  -- `Call("Close", 5, Sessionid)`
  pub close : Session → W → Option RemoteError × W
  close s w =
      reached (just_refused w)
        (just_called (called closes (number (pos 5) ∷ text s.sessionid ∷ []) s w)) s w

  abbrev counted : Outcome × W → Result (ℕ × Option RemoteError) × W
  counted (o, w) = (count_of o, w)

  pub send_batch : Bytes → Bytes → Bytes → Session → W → Result (ℕ × Option RemoteError) × W
  send_batch sessionids topic content s w =
      reached (λ e. (ok (0, some e), w))
        (counted (called sends_batch (text sessionids ∷ text topic ∷ body content ∷ []) s w)) s w

  abbrev answered : Outcome × W → (Bool × Option RemoteError) × W
  answered (o, w) = (answer_of o, w)

  pub is_connect : Bytes → Session → W → (Bool × Option RemoteError) × W
  is_connect userid s w =
      reached (λ e. ((false, some e), w))
        (answered (called asks_connect (text s.sessionid ∷ text userid ∷ []) s w)) s w
