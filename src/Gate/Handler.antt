-- ===== src/Gate/Handler.antt =====
-- gate/base/gate_handler.go: the sessions of a gate and the operations that other servers call on them.
pub mod Operations
pub mod Many
pub mod Binding
pub mod Shown
mod Runs
use lodos.Base.{
  ℕ, suc, ◌+◌, Bool, true, false, not, Option, none, some, List, [], ◌∷◌, ◌==◌, if◌then◌else◌, map,
  same, is_empty, split_at,
}
use lodos.Gate.Session
use lodos.Gate.Session.{Session, Settings, set_userid, set_settings}
use lodos.Io.Result.{Error, Result, ok, err, panic, stuck, no_session, type_not_allowed}
use lodos.Io.Reader.{Bytes}
use lodos.Utils.BeeMap.{BeeMap, values}
use lodos.Mqtt.Client.{Client, write_msg}

-- An agent of gate/base/mqtt_agent.go; its session is nil until its client has logged in.
pub record Agent : Type 0 where
  pub session : Option Session
  pub client : Client
  pub is_closed : Bool
  pub conn_closed : Bool
  pub send_num : ℕ

-- agent.WriteMsg
abbrev pub wrote : Result (Option Error) × Client → Agent → Result (Option Error) × Agent
wrote (r, client) agent = (r, record agent { client = client; send_num = suc agent.send_num })

-- `gate.StorageHandler`
pub record Storage (S : Type 0) : Type 0 where
  pub storage : Bytes → Session → S → Option Error × S
  pub query : Bytes → S → Result (Option Bytes)

-- The agents are objects that the map points to, by their number.
pub record Gate (M S : Type 0) : Type 0 where
  pub sessions : M
  pub agents : ℕ → Agent
  pub stored : S

module _ {M S : Type 0} where
  abbrev pub put_agent : ℕ → Agent → Gate M S → Gate M S
  put_agent a agent g = record g { agents = λ b. if b == a then agent else g.agents b }

  abbrev pub put_session : ℕ → Session → Gate M S → Gate M S
  put_session a s g = put_agent a (record (g.agents a) { session = some s }) g

  -- `if h.gate.GetStorageHandler() != nil && GetUserid() != ""`; an error is only logged.
  abbrev pub persist : Option (Storage S) → Session → Gate M S → Gate M S
  persist none s g = g
  persist (some h) s g =
      if is_empty s.userid then g else record g { stored = (h.storage s.userid s g.stored).1 }

  -- `agent.GetSession().F()`: a nil session panics.
  abbrev on_session :
      Option Session
      → (Session → Result (Option Session) × Gate M S)
      → Gate M S
      → Result (Option Session) × Gate M S
  on_session none f g = (panic, g)
  on_session (some s) f g = f s

  abbrev on_agent :
      Option ℕ
      → (ℕ → Session → Result (Option Session) × Gate M S)
      → Gate M S
      → Result (Option Session) × Gate M S
  on_agent none f g = (err no_session, g)
  on_agent (some a) f g = on_session (g.agents a).session (f a) g

  -- The deferred function of Bind: after a panic both results are nil.
  abbrev recover : Result (Option Session) × Gate M S → Result (Option Session) × Gate M S
  recover (panic, g) = (ok none, g)
  recover r = r

-- `for k, v := range current { settings[k] = v }`
abbrev pub over : Settings → Settings → Settings
over current old key = elim (current key) [ none ↦ old key | some v ↦ some v ]

-- The settings after Bind has found those of an earlier connection, and whether they are stored anew.
abbrev pub merged : Option Settings → Option Settings → Option Settings
merged none old = old
merged (some current) none = some current
merged (some current) (some old) = some (over current old)

abbrev pub is_set : Option Settings → Bool
is_set none = false
is_set (some settings) = true

module _ {M S : Type 0} (bm : BeeMap M ℕ) (storage : Option (Storage S))
    (new_session : Bytes → Result Session) where
  abbrev with_old : Result Session → ℕ → Session → Gate M S → Result (Option Session) × Gate M S
  with_old (ok old) a s g =
      let s' = set_settings (merged s.settings old.settings) s in
      let g' = put_session a s' g in
      (ok (some s'), if is_set s.settings then persist storage s' g' else g')
  with_old (err e) a s g = (ok (some s), g)
  with_old panic a s g = (panic, g)
  with_old stuck a s g = (stuck, g)

  abbrev with_data :
      Result (Option Bytes) → ℕ → Session → Gate M S → Result (Option Session) × Gate M S
  with_data (ok (some data')) a s g = with_old (new_session data') a s g
  with_data (ok none) a s g = (ok (some s), g)
  with_data (err e) a s g = (ok (some s), g)
  with_data panic a s g = (panic, g)
  with_data stuck a s g = (stuck, g)

  abbrev restore : Option (Storage S) → ℕ → Session → Gate M S → Result (Option Session) × Gate M S
  restore none a s g = (ok (some s), g)
  restore (some h) a s g =
      if is_empty s.userid then (ok (some s), g) else with_data (h.query s.userid g.stored) a s g

  pub bind : Bytes → Bytes → Gate M S → Result (Option Session) × Gate M S
  bind sessionid userid g = recover (
      on_agent (bm.lookup sessionid g.sessions)
        (λ a s. let s' = set_userid userid s in restore storage a s' (put_session a s' g)) g)

  pub unbind : Bytes → Gate M S → Result (Option Session) × Gate M S
  unbind sessionid g =
      on_agent (bm.lookup sessionid g.sessions)
        (λ a s. let s' = set_userid [] s in (ok (some s'), put_session a s' g)) g

  -- Set, Remove and Push: a change of the session, which is then stored.
  abbrev change : (Session → Session) → Bytes → Gate M S → Result (Option Session) × Gate M S
  change f sessionid g =
      on_agent (bm.lookup sessionid g.sessions)
        (λ a s. (ok (some (f s)), persist storage (f s) (put_session a (f s) g))) g

  pub set : Bytes → Bytes → Bytes → Gate M S → Result (Option Session) × Gate M S
  set sessionid key value = change (Session.set key value) sessionid

  pub remove : Bytes → Bytes → Gate M S → Result (Option Session) × Gate M S
  remove sessionid key = change (Session.remove key) sessionid

  pub push : Bytes → Option Settings → Gate M S → Result (Option Session) × Gate M S
  push sessionid settings = change (set_settings settings) sessionid

  pub update : Bytes → Gate M S → Result (Option Session) × Gate M S
  update sessionid g = elim (bm.lookup sessionid g.sessions) [
    | none ↦ (err no_session, g)
    | some a ↦ (ok (g.agents a).session, g)
  ]

  abbrev agent_write : ℕ → Bytes → Bytes → Gate M S → Result (Option Error) × Gate M S
  agent_write a topic body g =
      let (r, agent) = wrote (write_msg topic body (g.agents a).client) (g.agents a) in
      (r, put_agent a agent g)

  pub send : Bytes → Bytes → Bytes → Gate M S → Result (Option Error) × Gate M S
  send sessionid topic body g = elim (bm.lookup sessionid g.sessions) [
    | none ↦ (err no_session, g)
    | some a ↦ agent_write a topic body g
  ]

  -- agent.Close
  pub close : Bytes → Gate M S → Result (Unit {0}) × Gate M S
  close sessionid g = elim (bm.lookup sessionid g.sessions) [
    | none ↦ (err no_session, g)
    | some a ↦ (ok tt, put_agent a (record (g.agents a) { conn_closed = true }) g)
  ]

  -- Connect and DisConnect, less the call of the learner.
  abbrev id_of : Option Session → Option Bytes
  id_of none = none
  id_of (some s) = some s.sessionid

  pub connect : ℕ → Gate M S → Gate M S
  connect a g = elim (id_of (g.agents a).session) [
    | none ↦ g
    | some id ↦ record g { sessions = bm.insert id a g.sessions }
  ]

  pub disconnect : ℕ → Gate M S → Gate M S
  disconnect a g = elim (id_of (g.agents a).session) [
    | none ↦ g
    | some id ↦ record g { sessions = bm.delete id g.sessions }
  ]
