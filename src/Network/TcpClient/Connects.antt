-- ===== src/Network/TcpClient/Connects.antt =====
-- What holds of a client at every moment, its Close included.
use lodos.Base.{
  ℕ, suc, ◌+◌, ◌≤◌, ◌≡◌, refl, sym, ◌∙◌, ◌⊎◌, inl, inr, Bool, Bool-cases, Option-cases, true,
  Option, none, some, List, if_true, if_false, length, arith,
}
use mathlib.Core.Path.{subst}
use lodos.Io.Result.{ok}
use lodos.Network.Conns.{Has, Holds, ConnSet, delete, length-remove, length-remove_less}
use lodos.Network.Turns.{turn_away}
use lodos.Network.Turns.Tracked.{
  IsTracked, no_turns-IsTracked, hand-IsTracked, let_in_set, let_in_set-IsTracked,
  turn_away-IsTracked, clean-IsTracked, leave-IsTracked, close_all-IsTracked,
}
use lodos.Network.TcpClient.{
  TcpClient, init, start, dialled, admit, leave_or_reconnect, close, Step, dials, admits, cleans,
  leaves, closes, Reach, here, later,
}
use lodos.Network.WsServer.{or_default}
use lodos.Utils.Numbers.{ℤ}

-- The goroutines of connect: those at dial, those with a connection at hand, and those that serve one.
abbrev pub goroutines : TcpClient → ℕ
goroutines c =
    c.dialling + (length c.turns.held + (length c.turns.agents + length c.turns.cleaning))

pub record IsConnecting (m : ℕ) (c : TcpClient) : Type 0 where
  pub bounded : goroutines c ≤ m
  pub shut : c.turns.conns ≡ none → c.close_flag ≡ true
  pub tracked : IsTracked c.turns

abbrev with_agent : ℕ → List ℕ → TcpClient → TcpClient
with_agent conn xs c = record c { turns = let_in_set conn xs c.turns }

abbrev turned_away : ℕ → TcpClient → TcpClient
turned_away conn c = record c { turns = turn_away conn c.turns }

ok_eq : {c d : TcpClient} → ok c ≡ ok d → c ≡ d
ok_eq e = cc e

-- The two ends of connect's turn with a connection.
admit-cases :
    {m : ℕ} (conn : ℕ) (c : TcpClient)
    → IsConnecting m c
    → ((xs : List ℕ) × (c.turns.conns ≡ some xs) × (admit conn c ≡ ok (with_agent conn xs c)))
      ⊎ (admit conn c ≡ ok (turned_away conn c))
unfolding admit
admit-cases conn c v = elim (Bool-cases c.close_flag) [
  | inl b ↦ inr (if_true c.close_flag _ _ b)
  | inr b ↦ elim (Option-cases c.turns.conns) [
    | inl q ↦ absurd (cc (b, v.shut q))
    | inr (xs, q) ↦ inl (xs, q, if_false c.close_flag _ _ b ∙ rw q)
  ]
]

delete_nil : (c : ℕ) (cs : ConnSet) → delete c cs ≡ none → cs ≡ none
delete_nil c none h = refl
delete_nil c (some xs) h = cc h

dialled-IsConnecting :
    {m : ℕ} (rest : ℕ) (conn : Option ℕ) (c : TcpClient)
    → c.dialling ≡ suc rest
    → IsConnecting m c
    → IsConnecting m (dialled rest conn c)
unfolding dialled
dialled-IsConnecting rest none c e v = record {
  bounded = omega (arith, e, v.bounded);
  shut = v.shut;
  tracked = v.tracked;
}
dialled-IsConnecting rest (some conn) c e v = record {
  bounded = omega (arith, e, v.bounded);
  shut = v.shut;
  tracked = hand-IsTracked conn c.turns v.tracked;
}

admit-IsConnecting :
    {m : ℕ} (conn : ℕ) (c d : TcpClient)
    → Has conn c.turns.held
    → admit conn c ≡ ok d
    → IsConnecting m c
    → IsConnecting m d
admit-IsConnecting {m} conn c d h e v = elim (admit-cases conn c v) [
  | inl (xs, q, r) ↦ subst (IsConnecting m) (ok_eq (sym r ∙ e)) (record {
    bounded = omega (arith, length-remove_less conn c.turns.held h, v.bounded);
    shut = λ n. cc n;
    tracked = let_in_set-IsTracked conn xs c.turns q v.tracked;
  })
  | inr r ↦ subst (IsConnecting m) (ok_eq (sym r ∙ e)) (record {
    bounded = omega (arith, length-remove conn c.turns.held, v.bounded);
    shut = v.shut;
    tracked = turn_away-IsTracked conn c.turns v.tracked;
  })
]

Step-IsConnecting : {m : ℕ} {c d : TcpClient} → Step c d → IsConnecting m c → IsConnecting m d
unfolding leave_or_reconnect close
Step-IsConnecting {m} {c} (dials rest attempt {conn} e q) v = dialled-IsConnecting rest conn c e v
Step-IsConnecting {m} {c} {d} (admits conn h e) v = admit-IsConnecting conn c d h e v
Step-IsConnecting {m} {c} (cleans conn h) v = record {
  bounded = omega (arith, length-remove_less conn c.turns.agents h, v.bounded);
  shut = v.shut;
  tracked = clean-IsTracked conn c.turns v.tracked;
}
Step-IsConnecting {m} {c} (leaves conn h) v = record {
  bounded = ground (arith, length-remove_less conn c.turns.cleaning h, v.bounded);
  shut = λ q. v.shut (delete_nil conn c.turns.conns q);
  tracked = leave-IsTracked conn c.turns h v.tracked;
}
Step-IsConnecting {m} {c} closes v = record {
  bounded = v.bounded;
  shut = λ q. refl;
  tracked = close_all-IsTracked c.turns v.tracked;
}

module _ (num interval pending : ℤ) (auto : Bool) where
  Reach-IsConnecting :
      {c : TcpClient}
      → Reach (start num interval pending auto) c
      → IsConnecting (or_default 1 num) c
  unfolding start init
  Reach-IsConnecting here = record {
    bounded = omega arith;
    shut = λ q. cc q;
    tracked = no_turns-IsTracked;
  }
  Reach-IsConnecting (later r st) = Step-IsConnecting st (Reach-IsConnecting r)

  -- Whatever the dials give, and in whatever order the goroutines of connect and a Close of the client take their
  -- turns after Start: there are at most ConnNum goroutines of connect, ConnNum as init sets it; and every connection
  -- that was ever dialled waits for the turn of its goroutine, which does not panic, though Close makes the
  -- map nil, or it is in the map, or its Close was called. (A map that is nil holds none.)
  pub Reach-Connecting :
      (c : TcpClient) (conn : ℕ)
      → Reach (start num interval pending auto) c
      → Has conn c.turns.given
      → (goroutines c ≤ or_default 1 num)
        × ((Has conn c.turns.held × (d : TcpClient) × (admit conn c ≡ ok d))
            ⊎ (Holds conn c.turns.conns ⊎ Has conn c.turns.closed))
  Reach-Connecting c conn r m =
      let v = Reach-IsConnecting r in
      (
        v.bounded,
        elim (v.tracked.kept conn m) [
          | inl k ↦ elim (admit-cases conn c v) [
            | inl (xs, q, e) ↦ inl (k, with_agent conn xs c, e)
            | inr e ↦ inl (k, turned_away conn c, e)
          ]
          | inr k ↦ inr k
        ],
      )
