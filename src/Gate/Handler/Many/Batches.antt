-- ===== src/Gate/Handler/Many/Batches.antt =====
-- SendBatch and BroadCast.
use lodos.Base.{
  split_at, ℕ, suc, ◌+◌, ◌≤◌, ◌≡◌, refl, ap, arith, Option, none, some, List, [], ◌∷◌, map, length,
}
use lodos.Gate.Session.{Session}
use lodos.Gate.Handler.{Storage, Gate, put_agent, wrote, agent_write}
use lodos.Gate.Handler.Many.{counted, send_each, send_batch}
use lodos.Io.Result.{Error, Result, ok}
use lodos.Io.Reader.{Bytes}
use lodos.Utils.BeeMap.{BeeMap}
use lodos.Mqtt.Client.Sends.{write_msg-total}

module _ {M S : Type 0} (bm : BeeMap M ℕ) (storage : Option (Storage S))
    (new_session : Bytes → Result Session) where
  agent_write-total :
      (a : ℕ) (topic body : Bytes) (g : Gate M S)
      → (e : Option Error) × (g' : Gate M S) × (agent_write bm storage new_session a topic body g
          ≡ (ok e, g'))
  agent_write-total a topic body g =
      let (e, c', p) = write_msg-total topic body (g.agents a).client in
      (e, _, ap (λ r. ((wrote r (g.agents a)).0, put_agent a (wrote r (g.agents a)).1 g)) p)

  -- The loop returns, with a count of `bound` at most.
  abbrev Counts : Result (ℕ × Option Error) × Gate M S → ℕ → Type 0
  Counts r bound =
      (n : ℕ) × (e : Option Error) × (g' : Gate M S) × (r ≡ (ok (n, e), g')) × (n ≤ bound)

  counted-Counts :
      (o : Option Error) (g : Gate M S)
      (more : ℕ → Option Error → Gate M S → Result (ℕ × Option Error) × Gate M S) (count left : ℕ)
      → ((m : ℕ) (x : Option Error) (g : Gate M S) → Counts (more m x g) (m + left))
      → Counts (counted bm storage new_session (ok o, g) more count) (count + suc left)
  counted-Counts none g more count left h =
      let (n, e, g', p, q) = h (suc count) none g in (n, e, g', p, omega arith)
  counted-Counts (some x) g more count left h =
      let (n, e, g', p, q) = h count (some x) g in (n, e, g', p, omega arith)

  send_each-Counts :
      (topic body : Bytes) (found : List (Option ℕ)) (count : ℕ) (e : Option Error) (g : Gate M S)
      → Counts (send_each bm storage new_session topic body found count e g) (count + length found)
  unfolding send_each
  send_each-Counts topic body [] count e g = (count, e, g, refl, omega arith)
  send_each-Counts topic body (none ∷ found) count e g =
      let (n, e', g', p, q) = send_each-Counts topic body found count e g in
      (n, e', g', p, omega arith)
  send_each-Counts topic body (some a ∷ found) count e g =
      let (o, g1, w) = agent_write-total a topic body g in
      rw w (
        counted-Counts o g1 (send_each bm storage new_session topic body found) count (length found)
          (λ m x g2. send_each-Counts topic body found m x g2))

  length-map : {A B : Type 0} (f : A → B) (xs : List A) → length (map f xs) ≡ length xs
  length-map f [] = refl
  length-map f (x ∷ xs) = ap suc (length-map f xs)

  -- SendBatch returns a number of messages and an error or nil, and the number is that of the ids at most.
  pub send_batch-total :
      (ids topic body : Bytes) (g : Gate M S)
      → (n : ℕ) × (e : Option Error) × (g' : Gate M S) × (send_batch bm storage new_session ids
            topic body g
          ≡ (ok (n, e), g'))
        × (n ≤ length (split_at b',' ids))
  unfolding send_batch
  send_batch-total ids topic body g =
      let found = map (λ id. bm.lookup id g.sessions) (split_at b',' ids) in
      let (n, e, g', p, q) = send_each-Counts topic body found 0 none g in
      (n, e, g', p, omega (arith, length-map (λ id. bm.lookup id g.sessions) (split_at b',' ids)))
