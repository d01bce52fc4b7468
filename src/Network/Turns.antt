-- ===== src/Network/Turns.antt =====
-- The turns of the goroutines that share a set of connections in network/ws_server.go and network/tcp_client.go:
-- the parts of WSHandler.ServeHTTP and TCPClient.connect that are the same code, and of the two Closes.
pub mod Tracked
use lodos.Base.{ℕ, Option, none, some, List, [], ◌∷◌, ◌++◌}
use lodos.Io.Result.{Result, ok, err, panic, stuck}
use lodos.Network.Conns.{ConnSet, Has, remove, put, delete, members}

-- `given` lists the connections that were opened, `held` those whose goroutine has not had the lock yet,
-- `agents` those whose agent runs, `cleaning` those whose agent is past its run, `closed` those whose Close was
-- called, each with the newest first.
pub record Turns : Type 0 where
  pub conns : ConnSet
  pub given : List ℕ
  pub held : List ℕ
  pub agents : List ℕ
  pub cleaning : List ℕ
  pub closed : List ℕ

abbrev pub no_turns : Turns
no_turns = record {
  conns = some [];
  given = [];
  held = [];
  agents = [];
  cleaning = [];
  closed = [];
}

-- A connection is opened.
abbrev pub hand : ℕ → Turns → Turns
hand c t = record t { given = c ∷ t.given; held = c ∷ t.held }

-- Under the lock: it goes into the set, and its agent runs; a nil map panics.
abbrev with_agent : ℕ → Result ConnSet → Turns → Result Turns
with_agent c (ok cs) t = ok (record t { conns = cs; held = remove c t.held; agents = c ∷ t.agents })
with_agent c (err e) t = err e
with_agent c panic t = panic
with_agent c stuck t = stuck

abbrev pub let_in : ℕ → Turns → Result Turns
let_in c t = with_agent c (put c t.conns) t

-- Or it is closed.
abbrev pub turn_away : ℕ → Turns → Turns
turn_away c t = record t { held = remove c t.held; closed = c ∷ t.closed }

-- The cleanup behind an agent's run: the close, and the delete under the lock.
abbrev pub clean : ℕ → Turns → Turns
clean c t = record t {
  agents = remove c t.agents;
  cleaning = c ∷ t.cleaning;
  closed = c ∷ t.closed;
}

abbrev pub leave : ℕ → Turns → Turns
leave c t = record t { cleaning = remove c t.cleaning; conns = delete c t.conns }

-- Close under the lock.
abbrev pub close_all : Turns → Turns
close_all t = record t { closed = members t.conns ++ t.closed; conns = none }
