-- ===== src/Network/TcpConn.antt =====
-- network/tcp_conn.go: a connection that is closed once and not written to after that. The net.Conn below it
-- is a parameter, given by what its calls do to its own state.
pub mod Silent
use lodos.Base.{
  ℕ, ◌≡◌, refl, Bool, true, false, Option, none, some, List, [], ◌∷◌, if◌then◌else◌, if_true,
}
use lodos.Io.Result.{Result, ok, err, panic, stuck, Error}
use lodos.Io.Reader.{Bytes}

-- What a TCPConn calls of its net.Conn. `set_linger` is a call on *net.TCPConn, and `is_tcp` tells whether the
-- connection is one: a tls.Conn is not.
pub record Socket (S : Type 0) : Type 0 where
  pub write : Bytes → S → (Result ℕ × S)
  pub close : S → (Option Error × S)
  pub set_linger : ℕ → S → S
  pub is_tcp : S → Bool

-- `none` is a nil slice.
pub data Op : Type 0 where
  writes : Option Bytes → Op
  closes : Op
  destroys : Op

pub record TcpConn (S : Type 0) : Type 0 where
  pub conn : S
  pub close_flag : Bool

abbrev pub new_tcp_conn : {S : Type 0} → S → TcpConn S
new_tcp_conn s = record { conn = s; close_flag = false }

module _ {S : Type 0} (socket : Socket S) where
  abbrev on : {A : Type 0} → TcpConn S → (A × S) → (A × TcpConn S)
  on t (a, s) = (a, record t { conn = s })

  -- Write: a count, or what the connection comes back with.
  pub write : Option Bytes → TcpConn S → Result ℕ × TcpConn S
  write none t = (ok 0, t)
  write (some b) t = if t.close_flag then (ok 0, t) else on t (socket.write b t.conn)

  unfoldable pub close : TcpConn S → Option Error × TcpConn S
  close t =
      if t.close_flag then (none, t) else on (record t { close_flag = true }) (socket.close t.conn)

  -- doDestroy, under the lock of Destroy: a type assertion that fails panics before anything is done.
  pub destroy : TcpConn S → Result (Unit {0}) × TcpConn S
  destroy t =
      if socket.is_tcp t.conn
      then (
        ok tt,
        record { conn = (socket.close (socket.set_linger 0 t.conn)).1; close_flag = true },
      )
      else (panic, t)

  pub run : List Op → TcpConn S → TcpConn S
  unfolding write close destroy
  run [] t = t
  run (writes b ∷ ops) t = run ops (write b t).1
  run (closes ∷ ops) t = run ops (close t).1
  run (destroys ∷ ops) t = run ops (destroy t).1

  -- The operations without a Destroy.
  abbrev pub IsPlain : List Op → Type 0
  IsPlain [] = Unit {0}
  IsPlain (writes b ∷ ops) = IsPlain ops
  IsPlain (closes ∷ ops) = IsPlain ops
  IsPlain (destroys ∷ ops) = ⊥
