-- ===== src/Network/WsConn.antt =====
-- network/ws_conn.go: the messages of a web socket read as a stream of bytes. The socket is known by what its
-- ReadMessage gives: messages and errors. The buffer is not under a lock: `raced` says that a Write of the buffer
-- has come while a Read was at the buffer. What the buffer holds after such a race is not known; the model has what
-- it would hold if the calls had taken turns.
pub mod InOrder
use lodos.Base.{
  ℕ, zero, suc, ◌≡◌, Bool, true, false, Option, none, some, List, [], ◌∷◌, ◌++◌, take, drop,
  if◌then◌else◌, is_empty, length, leb, ◌||◌,
}
use lodos.Io.Result.{Error, eof, Result, ok, err, panic, stuck}
use lodos.Io.Reader.{Bytes}

-- Where a Read into a slice of n bytes stands: before the first receive from buf_lock, at the look at the
-- buffer, before the second receive, at the read of the buffer; or there is none.
pub data Reading : Type 0 where
  idle : Reading
  waits looks waits_again copies : ℕ → Reading

-- `signal` is what the goroutine of newWSConn is sending on buf_lock, where it is: `some none` is nil. `returned`
-- lists what the Reads gave, newest first.
pub record WsConn : Type 0 where
  pub buffer : Bytes
  pub signal : Option (Option Error)
  pub reading : Reading
  pub messages : List Bytes
  pub returned : List (Result Bytes)
  pub raced : Bool

unfoldable pub new_ws_conn : WsConn
new_ws_conn = record {
  buffer = [];
  signal = none;
  reading = idle;
  messages = [];
  returned = [];
  raced = false;
}

-- Whether a Read is between its receive and the end of its call, where it looks at the buffer or reads it.
abbrev pub at_buffer : Reading → Bool
at_buffer idle = false
at_buffer (waits n) = false
at_buffer (looks n) = true
at_buffer (waits_again n) = false
at_buffer (copies n) = true

-- The goroutine's loop, at what ReadMessage gives; `messages` has the newest first.
unfoldable pub receive : Result Bytes → WsConn → WsConn
receive (ok b) c = record c {
  buffer = c.buffer ++ b;
  signal = some none;
  messages = b ∷ c.messages;
  raced = c.raced || at_buffer c.reading;
}
receive (err e) c = record c { signal = some (some e) }
receive panic c = c
receive stuck c = c

-- Buffer.Read of the package bytes, into n bytes.
abbrev pub buffer_read : ℕ → Bytes → Result Bytes × Bytes
buffer_read n [] = (if leb n 0 then ok [] else err eof, [])
buffer_read n (b ∷ bs) = (ok (take n (b ∷ bs)), drop n (b ∷ bs))

abbrev pub finish : Result Bytes → WsConn → WsConn
finish r c = record c { reading = idle; returned = r ∷ c.returned }

-- A receive from buf_lock, which goes on to `next` at nil.
abbrev pub woken : Option Error → Reading → WsConn → WsConn
woken none next c = record c { signal = none; reading = next }
woken (some e) next c = finish (err e) (record c { signal = none })

-- The look at the length of the buffer, and its read.
unfoldable pub look : ℕ → WsConn → WsConn
look n c =
    if is_empty c.buffer
    then record c { reading = waits_again n }
    else record c { reading = copies n }

unfoldable pub copy : ℕ → WsConn → WsConn
copy n c = let (r, rest) = buffer_read n c.buffer in finish r (record c { buffer = rest })

-- What may happen next. The goroutine waits in its send until a Read takes it.
pub data Step (c : WsConn) : WsConn → Type 0 where
  receives : (r : Result Bytes) → c.signal ≡ none → Step c (receive r c)
  reads : (n : ℕ) → c.reading ≡ idle → Step c (record c { reading = waits n })
  wakes :
      (n : ℕ) (e : Option Error)
      → c.reading ≡ waits n
      → c.signal ≡ some e
      → Step c (woken e (looks n) c)
  looks_at : (n : ℕ) → c.reading ≡ looks n → Step c (look n c)
  wakes_again :
      (n : ℕ) (e : Option Error)
      → c.reading ≡ waits_again n
      → c.signal ≡ some e
      → Step c (woken e (copies n) c)
  ends : (n : ℕ) → c.reading ≡ copies n → Step c (copy n c)

pub data Reach (c : WsConn) : WsConn → Type 0 where
  here : Reach c c
  later : {d e : WsConn} → Reach c d → Step d e → Reach c e
