-- ===== src/Network/Runs.antt =====
-- Runs of the connections, servers and clients of network on concrete inputs.
use lodos.Base.{
  ℕ, suc, ◌≤◌, ◌≡◌, refl, ◌⊎◌, inl, true, false, none, some, List, [], ◌∷◌, ◌++◌, length,
}
use lodos.Io.Result.{ok}
use lodos.Io.Reader.{Bytes}
use lodos.Network.Conns.{Has, Holds, len}
use lodos.Network.TcpConn.{Socket, TcpConn, Op, writes, closes, close, write, run}
use lodos.Network.TcpConn.Silent.{run-close}
use lodos.Network.TcpServer.{
  TcpServer, has, returned, max_conns, init, admit, Reach, here, later, starts, accepts, retries,
  fails, admits, closes_listener, closes_all,
}
use lodos.Network.TcpServer.Serving.{Reach-Bounded}
use lodos.Network.TcpClient
use lodos.Network.TcpClient.{TcpClient}
use lodos.Network.TcpClient.Connects.{goroutines, Reach-Connecting}
use lodos.Network.WsServer
use lodos.Network.WsServer.{WsHandler, Settings, settings, get}
use lodos.Network.WsServer.Serving.{Reach-Upgraded}
use lodos.Network.WsConn
use lodos.Network.WsConn.{WsConn, new_ws_conn}
use lodos.Network.WsConn.InOrder.{joined, handed, successes, Reach-InOrder}
use lodos.Utils.Numbers.{pos, negsuc}

-- A server of one connection: 7 is served, 8 is turned away, and the server is closed.
abbrev server : TcpServer
server = record {
  max_conn_num = 1;
  temp_delay = 0;
  listening = false;
  loop = returned;
  conns = none;
  accepted = 8 ∷ 7 ∷ [];
  agents = 7 ∷ [];
  cleaning = [];
  closed = 7 ∷ 8 ∷ [];
}

server-Reach : Reach (init (pos 1)) server
unfolding init admit
server-Reach =
    later
      (later
        (later
          (later
            (later
              (later (later (later (later here (starts refl)) (retries refl)) (accepts 7 refl refl))
                (admits 7 refl refl))
              (accepts 8 refl refl))
            (admits 8 refl refl))
          closes_listener)
        (fails refl))
      (closes_all refl refl)

Reach-Bounded_example :
    (len server.conns ≤ max_conns (pos 1))
    × (((server.loop ≡ has 8) × (t : TcpServer) × (admit 8 server ≡ ok t))
        ⊎ (Holds 8 server.conns ⊎ Has 8 server.closed))
Reach-Bounded_example = Reach-Bounded (pos 1) server 8 server-Reach (inl refl)

-- A socket that keeps what was written to it and counts its closes.
abbrev Wire : Type 0
Wire = List Bytes × ℕ

abbrev wire : Socket Wire
wire = record {
  write = λ b s. (ok (length b), (b ∷ s.0, s.1));
  close = λ s. (none, (s.0, suc s.1));
  set_linger = λ n s. s;
  is_tcp = λ s. true;
}

abbrev written : TcpConn Wire
written = record { conn = ((104 ∷ 105 ∷ []) ∷ [], 0); close_flag = false }

abbrev later_ops : List Op
later_ops = closes ∷ writes (some (1 ∷ [])) ∷ closes ∷ []

abbrev ended : TcpConn Wire
ended = record { conn = ((104 ∷ 105 ∷ []) ∷ [], 1); close_flag = true }

run-close_example :
    (run wire later_ops (close wire written).1 ≡ (close wire written).1)
    × (write wire (some (9 ∷ [])) (run wire later_ops (close wire written).1)
        ≡ (ok 0, (close wire written).1))
run-close_example = run-close wire later_ops written (some (9 ∷ [])) tt

close_once : (close wire written).1 ≡ ended
unfolding close
close_once = refl

abbrev limits : Settings
limits = settings (pos 1) 0 (negsuc 0)

-- A handler of one connection: 4 is served and leaves, 5 is upgraded but finds the server closed.
abbrev handler : WsHandler
handler = record {
  max_conn_num = 1;
  turns = record {
    conns = none;
    given = 5 ∷ 4 ∷ [];
    held = [];
    agents = [];
    cleaning = [];
    closed = 5 ∷ 4 ∷ [];
  };
}

handler-Reach : WsServer.Reach (WsServer.start limits) handler
unfolding WsServer.start WsServer.upgrade_request WsServer.admit
handler-Reach =
    WsServer.later
      (WsServer.later
        (WsServer.later
          (WsServer.later
            (WsServer.later
              (WsServer.later (WsServer.later WsServer.here (WsServer.requests get (some 4)))
                (WsServer.admits 4 (inl refl) refl))
              (WsServer.requests get (some 5)))
            (WsServer.cleans 4 (inl refl)))
          (WsServer.leaves 4 (inl refl)))
        WsServer.closes_all)
      (WsServer.admits 5 (inl refl) refl)

Reach-Upgraded_example :
    (len handler.turns.conns ≤ limits.max_conn_num)
    × ((Has 5 handler.turns.held × (g : WsHandler) × (WsServer.admit 5 handler ≡ ok g))
        ⊎ (Holds 5 handler.turns.conns ⊎ Has 5 handler.turns.closed))
Reach-Upgraded_example = Reach-Upgraded limits handler 5 handler-Reach (inl refl)

-- A client of two connections, one of which comes up behind a Close.
abbrev client : TcpClient
client = record {
  conn_num = 2;
  connect_interval = 3000;
  pending_write_num = 100;
  auto_reconnect = true;
  close_flag = true;
  dialling = 0;
  turns = record {
    conns = none;
    given = 2 ∷ 1 ∷ [];
    held = [];
    agents = 1 ∷ [];
    cleaning = [];
    closed = 2 ∷ 1 ∷ [];
  };
}

client-Reach : TcpClient.Reach (TcpClient.start (pos 2) (pos 0) (negsuc 4) true) client
unfolding TcpClient.start TcpClient.init TcpClient.dial TcpClient.dialled TcpClient.admit
    TcpClient.close
client-Reach =
    TcpClient.later
      (TcpClient.later
        (TcpClient.later
          (TcpClient.later (TcpClient.later TcpClient.here (TcpClient.dials 1 (some 1) refl refl))
            (TcpClient.admits 1 (inl refl) refl))
          TcpClient.closes)
        (TcpClient.dials 0 (some 2) refl refl))
      (TcpClient.admits 2 (inl refl) refl)

Reach-Connecting_example :
    (goroutines client ≤ 2)
    × ((Has 2 client.turns.held × (d : TcpClient) × (TcpClient.admit 2 client ≡ ok d))
        ⊎ (Holds 2 client.turns.conns ⊎ Has 2 client.turns.closed))
Reach-Connecting_example =
    Reach-Connecting (pos 2) (pos 0) (negsuc 4) true client 2 client-Reach (inl refl)

-- One message of three bytes, read by two: the second Read waits.
abbrev socket : WsConn
socket = record {
  buffer = 3 ∷ [];
  signal = none;
  reading = WsConn.waits 2;
  messages = (1 ∷ 2 ∷ 3 ∷ []) ∷ [];
  returned = ok (1 ∷ 2 ∷ []) ∷ [];
  raced = false;
}

socket-Reach : WsConn.Reach new_ws_conn socket
unfolding new_ws_conn WsConn.receive WsConn.look WsConn.copy
socket-Reach =
    WsConn.later
      (WsConn.later
        (WsConn.later
          (WsConn.later
            (WsConn.later (WsConn.later WsConn.here (WsConn.reads 2 refl))
              (WsConn.receives (ok (1 ∷ 2 ∷ 3 ∷ [])) refl))
            (WsConn.wakes 2 none refl refl))
          (WsConn.looks_at 2 refl))
        (WsConn.ends 2 refl))
      (WsConn.reads 2 refl)

Reach-InOrder_example :
    (handed socket.returned ++ socket.buffer ≡ joined socket.messages)
    × (successes socket.returned ≤ length socket.messages)
Reach-InOrder_example = Reach-InOrder socket socket-Reach refl
