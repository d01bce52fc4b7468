-- ===== src/Network/WsServer/Serving.antt =====
-- What holds of a server of web sockets at every moment, its Close included.
use lodos.Base.{
  ℕ, ◌≤◌, ◌<◌, ◌≡◌, refl, sym, ◌∙◌, ◌⊎◌, inl, inr, Bool-cases, Option-cases, Option, none, some,
  List, ltb, if_both, length, arith, same,
}
use mathlib.Core.Path.{subst}
use lodos.Io.Result.{ok}
use lodos.Io.Reader.{Bytes}
use lodos.Network.Conns.{Has, Holds, len, length-remove, len-delete}
use lodos.Network.Turns.Tracked.{
  IsTracked, no_turns-IsTracked, hand-IsTracked, let_in_set, let_in_set-IsTracked,
  turn_away-IsTracked, clean-IsTracked, leave-IsTracked, close_all-IsTracked,
}
use lodos.Network.WsServer.{
  Settings, WsHandler, start, get, upgrade_request, admit, turned_away, Step, requests, admits,
  cleans, leaves, closes_all, Reach, here, later,
}

pub record IsServing (m : ℕ) (h : WsHandler) : Type 0 where
  pub limit : h.max_conn_num ≡ m
  pub bounded : len h.turns.conns ≤ h.max_conn_num
  pub tracked : IsTracked h.turns

abbrev with_agent : ℕ → List ℕ → WsHandler → WsHandler
with_agent c xs h = record h { turns = let_in_set c xs h.turns }

ok_eq : {g h : WsHandler} → ok g ≡ ok h → g ≡ h
ok_eq e = cc e

-- The two ends of a handler's turn with a connection.
admit-cases :
    (c : ℕ) (h : WsHandler)
    → ((xs : List ℕ) × (h.turns.conns ≡ some xs)
        × (length xs < h.max_conn_num)
        × (admit c h ≡ ok (with_agent c xs h)))
      ⊎ (admit c h ≡ ok (turned_away c h))
unfolding admit
admit-cases c h = elim (Option-cases h.turns.conns) [
  | inl q ↦ inr (rw q)
  | inr (xs, q) ↦ elim (Bool-cases (ltb (length xs) h.max_conn_num)) [
    | inl b ↦ inl (xs, q, ground (arith, b), rw (q, b))
    | inr b ↦ inr (rw (q, b))
  ]
]

upgrade-IsServing :
    {m : ℕ} (method : Bytes) (upgrade : Option ℕ) (h : WsHandler)
    → IsServing m h
    → IsServing m (upgrade_request method upgrade h).1
unfolding upgrade_request
upgrade-IsServing {m} method none h v =
    if_both (λ (r : Option ℕ × WsHandler). IsServing m r.1) (same method get) _ _ v v
upgrade-IsServing {m} method (some c) h v =
    if_both (λ (r : Option ℕ × WsHandler). IsServing m r.1) (same method get) _ _
      (record {
        limit = v.limit;
        bounded = v.bounded;
        tracked = hand-IsTracked c h.turns v.tracked;
      })
      v

admit-IsServing :
    {m : ℕ} (c : ℕ) (h g : WsHandler) → admit c h ≡ ok g → IsServing m h → IsServing m g
admit-IsServing {m} c h g e v = elim (admit-cases c h) [
  | inl (xs, q, lt, r) ↦ subst (IsServing m) (ok_eq (sym r ∙ e)) (record {
    limit = v.limit;
    bounded = omega (arith, length-remove c xs, lt);
    tracked = let_in_set-IsTracked c xs h.turns q v.tracked;
  })
  | inr r ↦ subst (IsServing m) (ok_eq (sym r ∙ e)) (record {
    limit = v.limit;
    bounded = v.bounded;
    tracked = turn_away-IsTracked c h.turns v.tracked;
  })
]

Step-IsServing : {m : ℕ} {h g : WsHandler} → Step h g → IsServing m h → IsServing m g
Step-IsServing {m} {h} (requests method upgrade) v = upgrade-IsServing method upgrade h v
Step-IsServing {m} {h} {g} (admits c a e) v = admit-IsServing c h g e v
Step-IsServing {m} {h} (cleans c a) v = record {
  limit = v.limit;
  bounded = v.bounded;
  tracked = clean-IsTracked c h.turns v.tracked;
}
Step-IsServing {m} {h} (leaves c a) v = record {
  limit = v.limit;
  bounded = omega (arith, len-delete c h.turns.conns, v.bounded);
  tracked = leave-IsTracked c h.turns a v.tracked;
}
Step-IsServing {m} {h} closes_all v = record {
  limit = v.limit;
  bounded = omega arith;
  tracked = close_all-IsTracked h.turns v.tracked;
}

Reach-IsServing : (s : Settings) {h : WsHandler} → Reach (start s) h → IsServing s.max_conn_num h
unfolding start
Reach-IsServing s here = record {
  limit = refl;
  bounded = omega arith;
  tracked = no_turns-IsTracked;
}
Reach-IsServing s (later r st) = Step-IsServing st (Reach-IsServing s r)

admit_total : (c : ℕ) (h : WsHandler) → (g : WsHandler) × (admit c h ≡ ok g)
admit_total c h = elim (admit-cases c h) [
  | inl (xs, q, lt, r) ↦ (with_agent c xs h, r)
  | inr r ↦ (turned_away c h, r)
]

-- Whatever requests come, and in whatever order their handlers, the agents and a Close of the server take their
-- turns after Start: the set holds at most MaxConnNum connections; and every connection that was ever upgraded
-- waits for the turn of its handler, which does not panic, or it is in the set, or its Close was called. (A
-- set that is nil holds none.)
pub Reach-Upgraded :
    (s : Settings) (h : WsHandler) (c : ℕ)
    → Reach (start s) h
    → Has c h.turns.given
    → (len h.turns.conns ≤ s.max_conn_num)
      × ((Has c h.turns.held × (g : WsHandler) × (admit c h ≡ ok g))
          ⊎ (Holds c h.turns.conns ⊎ Has c h.turns.closed))
Reach-Upgraded s h c r m =
    let v = Reach-IsServing s r in
    (
      omega (arith, v.bounded, v.limit),
      elim (v.tracked.kept c m) [
        | inl k ↦ let (g, q) = admit_total c h in inl (k, g, q)
        | inr k ↦ inr k
      ],
    )
