-- ===== src/Network/WsConn/InOrder.antt =====
-- The Reads of a web socket give the bytes of its messages in order, one message at least for each Read.
use lodos.Base.{
  false, ℕ, ◌+◌, ◌≤◌, ◌≡◌, refl, sym, ap, ◌∙◌, Option, none, some, List, [], ◌∷◌, ◌++◌,
  take-append-drop, append-nil, append_assoc, length, is_empty, if_both, arith, leb,
}
use lodos.Io.Result.{Error, Result, ok, err, panic, stuck}
use lodos.Io.Reader.{Bytes}
use lodos.Network.WsConn.{
  Reading, idle, waits, looks, waits_again, copies, WsConn, new_ws_conn, receive, buffer_read,
  woken, look, copy, Step, receives, reads, wakes, looks_at, wakes_again, ends, Reach, here, later,
}

-- Lists with the newest first, as one string of bytes.
abbrev pub joined : List Bytes → Bytes
joined [] = []
joined (b ∷ bs) = joined bs ++ b

abbrev pub given : Result Bytes → Bytes
given (ok b) = b
given (err e) = []
given panic = []
given stuck = []

abbrev pub handed : List (Result Bytes) → Bytes
handed [] = []
handed (r ∷ rs) = handed rs ++ given r

abbrev one_if_ok : Result Bytes → ℕ
one_if_ok (ok b) = 1
one_if_ok (err e) = 0
one_if_ok panic = 0
one_if_ok stuck = 0

abbrev pub successes : List (Result Bytes) → ℕ
successes [] = 0
successes (r ∷ rs) = one_if_ok r + successes rs

-- The messages that a Read has taken and not given back yet, and those that wait in the send.
abbrev under_way : Reading → ℕ
under_way idle = 0
under_way (waits n) = 0
under_way (looks n) = 1
under_way (waits_again n) = 1
under_way (copies n) = 1

abbrev signalled : Option (Option Error) → ℕ
signalled none = 0
signalled (some none) = 1
signalled (some (some e)) = 0

pub record IsOrdered (c : WsConn) : Type 0 where
  pub in_order : handed c.returned ++ c.buffer ≡ joined c.messages
  pub one_each :
      successes c.returned + (under_way c.reading + signalled c.signal) ≤ length c.messages

buffer_read-splits : (n : ℕ) (b : Bytes) → given (buffer_read n b).0 ++ (buffer_read n b).1 ≡ b
buffer_read-splits n [] = if_both (λ (r : Result Bytes). given r ++ [] ≡ []) (leb n 0) _ _ refl refl
buffer_read-splits n (b ∷ bs) = take-append-drop n (b ∷ bs)

one_if_ok-le : (r : Result Bytes) → one_if_ok r ≤ 1
one_if_ok-le (ok b) = omega arith
one_if_ok-le (err e) = omega arith
one_if_ok-le panic = omega arith
one_if_ok-le stuck = omega arith

receive-IsOrdered :
    (r : Result Bytes) (c : WsConn) → c.signal ≡ none → IsOrdered c → IsOrdered (receive r c)
unfolding receive
receive-IsOrdered (ok b) c q v = record {
  in_order = sym (append_assoc (handed c.returned) c.buffer b) ∙ ap (λ x. x ++ b) v.in_order;
  one_each = omega (arith, ap signalled q, v.one_each);
}
receive-IsOrdered (err e) c q v = record {
  in_order = v.in_order;
  one_each = omega (arith, ap signalled q, v.one_each);
}
receive-IsOrdered panic c q v = v
receive-IsOrdered stuck c q v = v

-- A Read that is woken holds the message that was signalled, or gives the error.
woken-IsOrdered :
    (e : Option Error) (next : Reading) (c : WsConn)
    → c.signal ≡ some e
    → under_way next ≤ 1 + under_way c.reading
    → IsOrdered c
    → IsOrdered (woken e next c)
woken-IsOrdered none next c q le v = record {
  in_order = v.in_order;
  one_each = omega (arith, ap signalled q, le, v.one_each);
}
woken-IsOrdered (some e) next c q le v = record {
  in_order = ap (λ x. x ++ c.buffer) (append-nil (handed c.returned)) ∙ v.in_order;
  one_each = omega (arith, ap signalled q, v.one_each);
}

moved-IsOrdered :
    (k : Reading) (c : WsConn)
    → under_way k ≡ under_way c.reading
    → IsOrdered c
    → IsOrdered (record c { reading = k })
moved-IsOrdered k c q v = record { in_order = v.in_order; one_each = omega (arith, q, v.one_each) }

copy-IsOrdered : (n : ℕ) (c : WsConn) → c.reading ≡ copies n → IsOrdered c → IsOrdered (copy n c)
unfolding copy
copy-IsOrdered n c q v = record {
  in_order =
      append_assoc (handed c.returned) (given (buffer_read n c.buffer).0) (buffer_read n c.buffer).1
      ∙ (ap (λ x. handed c.returned ++ x) (buffer_read-splits n c.buffer) ∙ v.in_order);
  one_each = omega (arith, ap under_way q, one_if_ok-le (buffer_read n c.buffer).0, v.one_each);
}

Step-IsOrdered : {c d : WsConn} → Step c d → IsOrdered c → IsOrdered d
unfolding look
Step-IsOrdered {c} (receives r q) v = receive-IsOrdered r c q v
Step-IsOrdered {c} (reads n q) v = moved-IsOrdered (waits n) c (sym (ap under_way q)) v
Step-IsOrdered {c} (wakes n e q p) v =
    woken-IsOrdered e (looks n) c p (omega (arith, ap under_way q)) v
Step-IsOrdered {c} (looks_at n q) v =
    if_both IsOrdered (is_empty c.buffer) _ _
      (moved-IsOrdered (waits_again n) c (sym (ap under_way q)) v)
      (moved-IsOrdered (copies n) c (sym (ap under_way q)) v)
Step-IsOrdered {c} (wakes_again n e q p) v =
    woken-IsOrdered e (copies n) c p (omega (arith, ap under_way q)) v
Step-IsOrdered {c} (ends n q) v = copy-IsOrdered n c q v

pub Reach-IsOrdered : {c : WsConn} → Reach new_ws_conn c → IsOrdered c
unfolding new_ws_conn
Reach-IsOrdered here = record { in_order = refl; one_each = omega arith }
Reach-IsOrdered (later r st) = Step-IsOrdered st (Reach-IsOrdered r)

-- Whatever the socket gives and however the goroutine and the Reads take their turns, as long as no message has been
-- written to the buffer while a Read was at it, what the Reads gave with what is in the buffer is the messages
-- that came, in order and without a gap; and no more Reads have come back without an error than messages have
-- come, whatever the buffer holds.
pub Reach-InOrder :
    (c : WsConn)
    → Reach new_ws_conn c
    → c.raced ≡ false
    → (handed c.returned ++ c.buffer ≡ joined c.messages)
      × (successes c.returned ≤ length c.messages)
Reach-InOrder c r q = let v = Reach-IsOrdered r in (v.in_order, omega (arith, v.one_each))
