-- ===== src/Io/Writer.antt =====
-- `bufio.Writer` over the connection.
pub mod Writes
pub mod Stream
use lodos.Base.{Bool, true, false, List, [], ◌∷◌, ◌++◌}
use lodos.Io.Result.{Io, Result, ok, err, broken_pipe}
use lodos.Io.Reader.{Bytes}

-- `sent` has left for the connection, `buffered` has not. `faults` says of each further call whether
-- the connection fails in it, and calls past its end succeed: it stands for what the network does,
-- and for where a full buffer is flushed early. `broken` is the writer's error, which stays.
pub record Writer : Type 0 where
  pub sent : Bytes
  pub buffered : Bytes
  pub broken : Bool
  pub faults : List Bool

abbrev settle : Bool → List Bool → (Writer → Writer) → Writer → Result (Unit {0}) × Writer
settle true fs f w = (err broken_pipe, w)
settle false [] f w = (ok tt, f w)
settle false (false ∷ fs) f w = (ok tt, f (record w { faults = fs }))
settle false (true ∷ fs) f w = (err broken_pipe, record w { broken = true; faults = fs })

-- Every method first returns the error of an earlier one. Of a call that fails itself no byte counts.
call : (Writer → Writer) → Io Writer (Unit {0})
call f w = settle w.broken w.faults f w

-- `Write`, and `WriteByte` for one byte: all of the bytes or an error.
unfoldable pub write : Bytes → Io Writer (Unit {0})
unfolding call
write b = call (λ w. record w { buffered = w.buffered ++ b })

unfoldable pub flush : Io Writer (Unit {0})
unfolding call
flush = call (λ w. record w { sent = w.sent ++ w.buffered; buffered = [] })
