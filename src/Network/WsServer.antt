-- ===== src/Network/WsServer.antt =====
-- network/ws_server.go: the handler of a request that opens a web socket, many of which run at once, and Close.
pub mod Serving
use lodos.Base.{
  ℕ, zero, suc, ◌≡◌, Bool, true, false, Option, none, some, List, [], ◌∷◌, ltb, same, if◌then◌else◌,
}
use lodos.Io.Result.{Result, ok, err, panic, stuck}
use lodos.Io.Reader.{Bytes}
use lodos.Network.Conns.{ConnSet, Has, len}
use lodos.Network.TcpServer.{max_conns}
use lodos.Network.Turns.{Turns, no_turns, hand, let_in, turn_away, clean, leave, close_all}
use lodos.Utils.Numbers.{ℤ, pos, negsuc}

-- What Start puts right of its settings: MaxMsgLen has no sign, and the timeout is in milliseconds.
pub record Settings : Type 0 where
  pub max_conn_num : ℕ
  pub max_msg_len : ℕ
  pub http_timeout : ℕ

abbrev pub or_default : ℕ → ℤ → ℕ
or_default d (pos zero) = d
or_default d (pos (suc n)) = suc n
or_default d (negsuc n) = d

abbrev pub settings : ℤ → ℕ → ℤ → Settings
settings max msg timeout = record {
  max_conn_num = max_conns max;
  max_msg_len = or_default 4096 (pos msg);
  http_timeout = or_default 10000 timeout;
}

pub record WsHandler : Type 0 where
  pub max_conn_num : ℕ
  pub turns : Turns

unfoldable pub start : Settings → WsHandler
start s = record { max_conn_num = s.max_conn_num; turns = no_turns }

-- ServeHTTP up to the lock; `upgrade` is the connection that the upgrade of the request gives, if it succeeds.
abbrev pub get : Bytes
get = 71 ∷ 69 ∷ 84 ∷ []

abbrev pub method_not_allowed : ℕ
method_not_allowed = 405

unfoldable pub upgrade_request : Bytes → Option ℕ → WsHandler → Option ℕ × WsHandler
upgrade_request method upgrade h =
    if same method get then upgraded upgrade else (some method_not_allowed, h)
  where
    upgraded : Option ℕ → Option ℕ × WsHandler
    upgraded none = (none, h)
    upgraded (some c) = (none, record h { turns = hand c h.turns })

-- From the lock on.
abbrev with_turns : WsHandler → Result Turns → Result WsHandler
with_turns h (ok t) = ok (record h { turns = t })
with_turns h (err e) = err e
with_turns h panic = panic
with_turns h stuck = stuck

abbrev pub turned_away : ℕ → WsHandler → WsHandler
turned_away c h = record h { turns = turn_away c h.turns }

unfoldable pub admit : ℕ → WsHandler → Result WsHandler
admit c h = elim h.turns.conns [
  | none ↦ ok (turned_away c h)
  | some xs ↦
      if ltb (len h.turns.conns) h.max_conn_num
      then with_turns h (let_in c h.turns)
      else ok (turned_away c h)
]

-- What may happen next: a request comes in, or a goroutine takes its turn at the lock.
pub data Step (h : WsHandler) : WsHandler → Type 0 where
  requests : (method : Bytes) (upgrade : Option ℕ) → Step h (upgrade_request method upgrade h).1
  admits : (c : ℕ) {g : WsHandler} → Has c h.turns.held → admit c h ≡ ok g → Step h g
  cleans : (c : ℕ) → Has c h.turns.agents → Step h (record h { turns = clean c h.turns })
  leaves : (c : ℕ) → Has c h.turns.cleaning → Step h (record h { turns = leave c h.turns })
  closes_all : Step h (record h { turns = close_all h.turns })

pub data Reach (h : WsHandler) : WsHandler → Type 0 where
  here : Reach h h
  later : {g k : WsHandler} → Reach h g → Step g k → Reach h k
