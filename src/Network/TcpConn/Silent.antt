-- ===== src/Network/TcpConn/Silent.antt =====
-- A TCPConn that is closed leaves its connection alone.
use lodos.Base.{◌≡◌, refl, Bool-cases, true, inl, inr, Option, none, some, List, [], ◌∷◌, if_true}
use lodos.Io.Result.{ok}
use lodos.Io.Reader.{Bytes}
use lodos.Network.TcpConn.{
  Socket, TcpConn, Op, writes, closes, destroys, write, close, run, IsPlain,
}

module _ {S : Type 0} (socket : Socket S) where
  close-flag : (t : TcpConn S) → (close socket t).1.close_flag ≡ true
  unfolding close
  close-flag t = elim (Bool-cases t.close_flag) [ inl e ↦ rw e | inr e ↦ rw e ]

  write_closed :
      (b : Option Bytes) (t : TcpConn S) → t.close_flag ≡ true → write socket b t ≡ (ok 0, t)
  unfolding write
  write_closed none t e = refl
  write_closed (some b) t e = if_true t.close_flag _ _ e

  close_closed : (t : TcpConn S) → t.close_flag ≡ true → close socket t ≡ (none, t)
  unfolding close
  close_closed t e = if_true t.close_flag _ _ e

  run_closed :
      (ops : List Op) (t : TcpConn S)
      → IsPlain socket ops
      → t.close_flag ≡ true
      → run socket ops t ≡ t
  unfolding run
  run_closed [] t p e = refl
  run_closed (writes b ∷ ops) t p e = rw (write_closed b t e) (run_closed ops t p e)
  run_closed (closes ∷ ops) t p e = rw (close_closed t e) (run_closed ops t p e)
  run_closed (destroys ∷ ops) t p e = absurd p

  -- After a Close, whatever Writes and Closes follow, the connection below stands as the Close left it, and one
  -- Write more gives a count of zero without an error.
  pub run-close :
      (ops : List Op) (t : TcpConn S) (b : Option Bytes)
      → IsPlain socket ops
      → let u = (close socket t).1 in
        (run socket ops u ≡ u) × (write socket b (run socket ops u) ≡ (ok 0, u))
  run-close ops t b p =
      let e = close-flag t in
      let q = run_closed ops (close socket t).1 p e in
      (q, rw q (write_closed b (close socket t).1 e))
