-- ===== src/Network/TcpServer.antt =====
-- network/tcp_server.go: the loop that accepts connections, the goroutines that serve them, and Close.
pub mod Backoff
pub mod Invariant
pub mod Serving
use lodos.Base.{
  ℕ, zero, suc, ◌*◌, ◌≡◌, Bool, true, false, Option, none, some, List, [], ◌∷◌, ◌++◌, ltb,
  if◌then◌else◌, ◌==◌,
}
use lodos.Io.Result.{Result, ok, err, panic, stuck}
use lodos.Network.Conns.{ConnSet, Has, remove, len, put, delete, members}
use lodos.Utils.Numbers.{ℤ, pos, negsuc}

-- Where the goroutine of run stands: it has not started, waits in Accept, has a connection at hand that
-- it has not looked at, or has returned.
pub data Loop : Type 0 where
  not_started accepting returned : Loop
  has : ℕ → Loop

-- `accepted` and `closed` list the connections that Accept gave and those whose Close was called,
-- newest first; `agents` those whose agent runs, `cleaning` those whose agent is past its run. wgLn counts
-- the loop, wgConns the goroutines of agents and of cleaning.
pub record TcpServer : Type 0 where
  pub max_conn_num : ℕ
  pub temp_delay : ℕ
  pub listening : Bool
  pub loop : Loop
  pub conns : ConnSet
  pub accepted : List ℕ
  pub agents : List ℕ
  pub cleaning : List ℕ
  pub closed : List ℕ

-- The default of init for the number of connections.
abbrev pub max_conns : ℤ → ℕ
max_conns (pos zero) = 10000
max_conns (pos (suc n)) = suc n
max_conns (negsuc n) = 10000

-- init, on a listener that could be made.
unfoldable pub init : ℤ → TcpServer
init max = record {
  max_conn_num = max_conns max;
  temp_delay = 0;
  listening = true;
  loop = not_started;
  conns = some [];
  accepted = [];
  agents = [];
  cleaning = [];
  closed = [];
}

-- How long run sleeps, in milliseconds, after an error of Accept that is temporary.
abbrev pub next_delay : ℕ → ℕ
next_delay d = let e = if d == 0 then 5 else d * 2 in if ltb 1000 e then 1000 else e

-- run from the lock on, for a connection that Accept gave.
abbrev started : ℕ → Result ConnSet → TcpServer → Result TcpServer
started c (ok cs) s = ok (record s { loop = accepting; conns = cs; agents = c ∷ s.agents })
started c (err e) s = err e
started c panic s = panic
started c stuck s = stuck

unfoldable pub admit : ℕ → TcpServer → Result TcpServer
admit c s =
    if ltb (len s.conns) s.max_conn_num
    then started c (put c s.conns) s
    else ok (record s { loop = accepting; closed = c ∷ s.closed })

-- The goroutine of an agent that has run: it closes the connection, then takes it out of the set.
abbrev pub clean : ℕ → TcpServer → TcpServer
clean c s = record s {
  agents = remove c s.agents;
  cleaning = c ∷ s.cleaning;
  closed = c ∷ s.closed;
}

abbrev pub leave : ℕ → TcpServer → TcpServer
leave c s = record s { cleaning = remove c s.cleaning; conns = delete c s.conns }

-- Close under the lock, once wgLn is down to zero.
abbrev pub close_all : TcpServer → TcpServer
close_all s = record s { closed = members s.conns ++ s.closed; conns = none }

-- Whether wgLn counts the loop.
abbrev pub counted : Loop → Bool
counted not_started = false
counted accepting = true
counted returned = false
counted (has c) = true

-- What may happen next. Accept gives a connection on an open listener only; the goroutines take
-- turns at every lock and every call that waits.
pub data Step (s : TcpServer) : TcpServer → Type 0 where
  starts : s.loop ≡ not_started → Step s (record s { loop = accepting })
  accepts :
      (c : ℕ)
      → s.loop ≡ accepting
      → s.listening ≡ true
      → Step s (record s { loop = has c; temp_delay = 0; accepted = c ∷ s.accepted })
  retries : s.loop ≡ accepting → Step s (record s { temp_delay = next_delay s.temp_delay })
  fails : s.loop ≡ accepting → Step s (record s { loop = returned })
  admits : (c : ℕ) {t : TcpServer} → s.loop ≡ has c → admit c s ≡ ok t → Step s t
  cleans : (c : ℕ) → Has c s.agents → Step s (clean c s)
  leaves : (c : ℕ) → Has c s.cleaning → Step s (leave c s)
  closes_listener : Step s (record s { listening = false })
  closes_all : s.listening ≡ false → counted s.loop ≡ false → Step s (close_all s)

pub data Reach (s : TcpServer) : TcpServer → Type 0 where
  here : Reach s s
  later : {t u : TcpServer} → Reach s t → Step t u → Reach s u
