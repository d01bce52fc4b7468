-- ===== src/Network/TcpServer/Serving.antt =====
-- What holds of a server of TCP connections at every moment, its Close included.
use lodos.Base.{ℕ, ◌≤◌, ◌≡◌, refl, sym, ◌∙◌, ◌⊎◌, inl, inr, arith}
use mathlib.Core.Path.{subst}
use lodos.Io.Result.{ok}
use lodos.Network.Conns.{Has, Holds, len}
use lodos.Network.TcpServer.{
  accepting, returned, has, TcpServer, max_conns, init, next_delay, admit, Step, starts, accepts,
  retries, fails, admits, cleans, leaves, closes_listener, closes_all, Reach, here, later,
}
use lodos.Utils.Numbers.{ℤ}
use lodos.Network.TcpServer.Invariant.{
  IsServing, init-IsServing, with_agent, turned_away, ok_eq, counted-HandEmpty, idle-HandEmpty,
  loop-IsServing, accept-IsServing, admit-cases, with_agent-IsServing, turned_away-IsServing,
  clean-IsServing, leave-IsServing, close_all-IsServing,
}

module _ {m : ℕ} where
  pub Step-IsServing : {s t : TcpServer} → Step s t → IsServing m s → IsServing m t
  Step-IsServing {s} (starts e) v =
      loop-IsServing s accepting s.temp_delay (idle-HandEmpty e (λ c n. cc n)) (λ c n. cc n) v
  Step-IsServing {s} (accepts c e on) v = accept-IsServing s c (idle-HandEmpty e (λ c n. cc n)) on v
  Step-IsServing {s} (retries e) v =
      loop-IsServing s s.loop (next_delay s.temp_delay) (idle-HandEmpty e (λ c n. cc n))
        (idle-HandEmpty e (λ c n. cc n)) v
  Step-IsServing {s} (fails e) v =
      loop-IsServing s returned s.temp_delay (idle-HandEmpty e (λ c n. cc n)) (λ c n. cc n) v
  Step-IsServing {s} (admits c e q) v = elim (admit-cases c s e v) [
    | inl (xs, p, lt, r) ↦
        subst (IsServing m) (ok_eq (sym r ∙ q)) (with_agent-IsServing c xs s e p lt v)
    | inr (full, r) ↦ subst (IsServing m) (ok_eq (sym r ∙ q)) (turned_away-IsServing c s e v)
  ]
  Step-IsServing {s} (cleans c m) v = clean-IsServing c s v
  Step-IsServing {s} (leaves c m) v = leave-IsServing c s m v
  Step-IsServing {s} closes_listener v = record {
    limit = v.limit;
    bounded = v.bounded;
    shut = λ q. (refl, (v.shut q).1);
    kept = v.kept;
    cleaned = v.cleaned;
  }
  Step-IsServing {s} (closes_all off e) v = close_all-IsServing s off (counted-HandEmpty s.loop e) v

pub Reach-IsServing : (max : ℤ) {s : TcpServer} → Reach (init max) s → IsServing (max_conns max) s
Reach-IsServing max here = init-IsServing max
Reach-IsServing max (later r st) = Step-IsServing st (Reach-IsServing max r)

admit_total :
    {m : ℕ} (c : ℕ) (s : TcpServer)
    → s.loop ≡ has c
    → IsServing m s
    → (t : TcpServer) × (admit c s ≡ ok t)
admit_total c s e v = elim (admit-cases c s e v) [
  | inl (xs, p, lt, r) ↦ (with_agent c xs s, r)
  | inr (full, r) ↦ (turned_away c s, r)
]

-- Whatever the listener gives and in whatever order the loop, the agents and a Close of the server take their
-- turns after init: the set holds at most the number of connections that init set; and every connection
-- that Accept ever gave is at hand, where the loop's turn with it does not panic, though Close makes the set
-- nil, or it is in the set, or its Close was called. (A set that is nil holds none.)
pub Reach-Bounded :
    (max : ℤ) (s : TcpServer) (c : ℕ)
    → Reach (init max) s
    → Has c s.accepted
    → (len s.conns ≤ max_conns max)
      × (((s.loop ≡ has c) × (t : TcpServer) × (admit c s ≡ ok t))
          ⊎ (Holds c s.conns ⊎ Has c s.closed))
Reach-Bounded max s c r h =
    let v = Reach-IsServing max r in
    (
      omega (arith, v.bounded, v.limit),
      elim (v.kept c h) [
        | inl e ↦ let (t, q) = admit_total c s e v in inl (e, t, q)
        | inr k ↦ inr k
      ],
    )
