-- ===== src/Gate/Handler/Many.antt =====
-- gate/base/gate_handler.go: the operations on many sessions.
pub mod Batches
use lodos.Base.{
  ℕ, suc, Bool, true, not, Option, none, some, List, [], ◌∷◌, ◌==◌, if◌then◌else◌, map, same,
  is_empty, split_at,
}
use lodos.Gate.Session.{Session}
use lodos.Gate.Handler.{Storage, Gate, put_agent, agent_write}
use lodos.Io.Result.{Error, Result, ok, err, panic, stuck, no_session}
use lodos.Io.Reader.{Bytes}
use lodos.Utils.BeeMap.{BeeMap, values}

module _ {M S : Type 0} (bm : BeeMap M ℕ) (storage : Option (Storage S))
    (new_session : Bytes → Result Session) where
  -- The loops of SendBatch and BroadCast: how many writes gave no error, and the error of the last one.
  abbrev pub counted :
      Result (Option Error) × Gate M S
      → (ℕ → Option Error → Gate M S → Result (ℕ × Option Error) × Gate M S)
      → ℕ
      → Result (ℕ × Option Error) × Gate M S
  counted (ok none, g) more count = more (suc count) none g
  counted (ok (some e), g) more count = more count (some e) g
  counted (err e, g) more count = more count (some e) g
  counted (panic, g) more count = (panic, g)
  counted (stuck, g) more count = (stuck, g)

  pub send_each :
      Bytes
      → Bytes
      → List (Option ℕ)
      → ℕ
      → Option Error
      → Gate M S
      → Result (ℕ × Option Error) × Gate M S
  send_each topic body [] count e g = (ok (count, e), g)
  send_each topic body (none ∷ found) count e g = send_each topic body found count e g
  send_each topic body (some a ∷ found) count e g =
      counted (agent_write bm storage new_session a topic body g) (send_each topic body found) count

  pub send_batch : Bytes → Bytes → Bytes → Gate M S → Result (ℕ × Option Error) × Gate M S
  send_batch sessionids topic body g =
      send_each topic body (map (λ id. bm.lookup id g.sessions) (split_at b',' sessionids)) 0 none g

  pub broadcast : Bytes → Bytes → Gate M S → Result (ℕ × Option Error) × Gate M S
  broadcast topic body g = send_each topic body (map some (values (bm.items g.sessions))) 0 none g

  -- The loop of IsConnect.
  abbrev answer : Option Session → Bool → Bytes → Result Bool → Result Bool
  answer none is_closed userid rest = panic
  answer (some s) is_closed userid rest = if same s.userid userid then ok (not is_closed) else rest

  abbrev is_connect_among : List ℕ → Bytes → Gate M S → Result Bool
  is_connect_among [] userid g = err no_session
  is_connect_among (a ∷ found) userid g =
      answer (g.agents a).session (g.agents a).is_closed userid (is_connect_among found userid g)

  pub is_connect : Bytes → Gate M S → Result Bool
  is_connect userid g = is_connect_among (values (bm.items g.sessions)) userid g

  abbrev close_each : List ℕ → Gate M S → Gate M S
  close_each [] g = g
  close_each (a ∷ found) g =
      close_each found (put_agent a (record (g.agents a) { conn_closed = true }) g)

  pub on_destroy : Gate M S → Gate M S
  on_destroy g =
      let g' = close_each (values (bm.items g.sessions)) g in
      record g' { sessions = bm.delete_all g'.sessions }
