-- ===== src/Network/TcpClient.antt =====
-- network/tcp_client.go: the goroutines that keep connections to a server, and Close.
pub mod Connects
use lodos.Base.{
  ℕ, zero, suc, ◌+◌, ◌≡◌, Bool, true, false, Option, none, some, List, [], ◌∷◌, if◌then◌else◌,
}
use lodos.Io.Result.{Result, ok, err, panic, stuck}
use lodos.Network.Conns.{ConnSet, Has}
use lodos.Network.Turns.{Turns, no_turns, hand, let_in, turn_away, clean, leave, close_all}
use lodos.Network.WsServer.{or_default}
use lodos.Utils.Numbers.{ℤ}

-- `dialling` counts the goroutines of connect that are at dial. (ConnectInterval is in milliseconds; it
-- and PendingWriteNum are read by nothing that is modelled.)
pub record TcpClient : Type 0 where
  pub conn_num : ℕ
  pub connect_interval : ℕ
  pub pending_write_num : ℕ
  pub auto_reconnect : Bool
  pub close_flag : Bool
  pub dialling : ℕ
  pub turns : Turns

-- init and the loop of Start, which starts ConnNum goroutines.
unfoldable pub init : ℤ → ℤ → ℤ → Bool → TcpClient
init num interval pending auto = record {
  conn_num = or_default 1 num;
  connect_interval = or_default 3000 interval;
  pending_write_num = or_default 100 pending;
  auto_reconnect = auto;
  close_flag = false;
  dialling = 0;
  turns = no_turns;
}

unfoldable pub start : ℤ → ℤ → ℤ → Bool → TcpClient
start num interval pending auto =
    let c = init num interval pending auto in record c { dialling = c.conn_num }

-- dial, once round its loop: what the dial gave, if it gave a connection. The result is what dial returns, or
-- `none` where it goes round again; an inner `none` is a nil connection.
unfoldable pub dial : Option ℕ → TcpClient → Option (Option ℕ)
dial (some conn) c = some (some conn)
dial none c = if c.close_flag then some none else none

-- connect up to the lock, with what dial returns.
unfoldable pub dialled : ℕ → Option ℕ → TcpClient → TcpClient
dialled rest none c = record c { dialling = rest }
dialled rest (some conn) c = record c { dialling = rest; turns = hand conn c.turns }

-- connect from the lock on.
abbrev with_turns : TcpClient → Result Turns → Result TcpClient
with_turns c (ok t) = ok (record c { turns = t })
with_turns c (err e) = err e
with_turns c panic = panic
with_turns c stuck = stuck

unfoldable pub admit : ℕ → TcpClient → Result TcpClient
admit conn c =
    if c.close_flag
    then ok (record c { turns = turn_away conn c.turns })
    else with_turns c (let_in conn c.turns)

-- The end of the cleanup, and `goto reconnect`.
pub leave_or_reconnect : ℕ → TcpClient → TcpClient
leave_or_reconnect conn c = record c {
  turns = leave conn c.turns;
  dialling = if c.auto_reconnect then suc c.dialling else c.dialling;
}

-- Close under the lock.
unfoldable pub close : TcpClient → TcpClient
close c = record c { close_flag = true; turns = close_all c.turns }

pub data Step (c : TcpClient) : TcpClient → Type 0 where
  dials :
      (rest : ℕ) (attempt : Option ℕ) {conn : Option ℕ}
      → c.dialling ≡ suc rest
      → dial attempt c ≡ some conn
      → Step c (dialled rest conn c)
  admits : (conn : ℕ) {d : TcpClient} → Has conn c.turns.held → admit conn c ≡ ok d → Step c d
  cleans : (conn : ℕ) → Has conn c.turns.agents → Step c (record c { turns = clean conn c.turns })
  leaves : (conn : ℕ) → Has conn c.turns.cleaning → Step c (leave_or_reconnect conn c)
  closes : Step c (close c)

pub data Reach (c : TcpClient) : TcpClient → Type 0 where
  here : Reach c c
  later : {d e : TcpClient} → Reach c d → Step d e → Reach c e
