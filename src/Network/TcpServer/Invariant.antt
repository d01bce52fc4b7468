-- ===== src/Network/TcpServer/Invariant.antt =====
-- The invariant of a server of TCP connections, and each of its operations.
use lodos.Base.{
  ℕ, ◌≤◌, ◌<◌, ◌≡◌, refl, sym, ap, ◌∙◌, ◌⊎◌, inl, inr, Bool-cases, Option-cases, true, false, none,
  some, List, ◌∷◌, ltb, length, arith,
}
use mathlib.Core.Path.{subst}
use lodos.Io.Result.{ok}
use lodos.Network.Conns.{
  ConnSet, Has, Holds, remove, len, delete, length-remove, Has-remove, Has-remove_back,
  Holds-delete, len-delete, Has-left, Has-right, Holds-members,
}
use lodos.Network.TcpServer.{
  Loop, not_started, accepting, returned, has, TcpServer, max_conns, init, admit, clean, leave,
  close_all, counted,
}
use lodos.Utils.Numbers.{ℤ}

-- Where a connection that Accept gave is: at hand, in the set, or closed.
abbrev pub IsKept : TcpServer → ℕ → Type 0
IsKept s c = (s.loop ≡ has c) ⊎ (Holds c s.conns ⊎ Has c s.closed)

abbrev pub HandEmpty : Loop → Type 0
HandEmpty l = (c : ℕ) → l ≡ has c → ⊥

pub record IsServing (m : ℕ) (s : TcpServer) : Type 0 where
  pub limit : s.max_conn_num ≡ m
  pub bounded : len s.conns ≤ s.max_conn_num
  pub shut : s.conns ≡ none → (s.listening ≡ false) × HandEmpty s.loop
  pub kept : (c : ℕ) → Has c s.accepted → IsKept s c
  pub cleaned : (c : ℕ) → Has c s.cleaning → Has c s.closed

pub init-IsServing : (max : ℤ) → IsServing (max_conns max) (init max)
unfolding init
init-IsServing max = record {
  limit = refl;
  bounded = omega arith;
  shut = λ e. cc e;
  kept = λ c h. absurd h;
  cleaned = λ c h. absurd h;
}

abbrev pub with_agent : ℕ → List ℕ → TcpServer → TcpServer
with_agent c xs s = record s {
  loop = accepting;
  conns = some (c ∷ remove c xs);
  agents = c ∷ s.agents;
}

abbrev pub turned_away : ℕ → TcpServer → TcpServer
turned_away c s = record s { loop = accepting; closed = c ∷ s.closed }

pub has_eq : {a b : ℕ} → has a ≡ has b → a ≡ b
has_eq h = cc h

pub ok_eq : {s t : TcpServer} → ok s ≡ ok t → s ≡ t
ok_eq h = cc h

delete_nil : (c : ℕ) (cs : ConnSet) → delete c cs ≡ none → cs ≡ none
delete_nil c none h = refl
delete_nil c (some xs) h = cc h

pub counted-HandEmpty : (l : Loop) → counted l ≡ false → HandEmpty l
counted-HandEmpty not_started h c e = cc e
counted-HandEmpty accepting h c e = cc e
counted-HandEmpty returned h c e = cc e
counted-HandEmpty (has b) h c e = cc h

pub idle-HandEmpty : {l k : Loop} → l ≡ k → HandEmpty k → HandEmpty l
idle-HandEmpty q e c n = e c (sym q ∙ n)

module _ {m : ℕ} where
  -- A step of the loop that gives no connection and has none at hand.
  pub loop-IsServing :
      (s : TcpServer) (l : Loop) (d : ℕ)
      → HandEmpty s.loop
      → HandEmpty l
      → IsServing m s
      → IsServing m (record s { loop = l; temp_delay = d })
  loop-IsServing s l d e e' v = record {
    limit = v.limit;
    bounded = v.bounded;
    shut = λ q. ((v.shut q).0, e');
    kept = λ c h. elim (v.kept c h) [ inl q ↦ absurd (e c q) | inr r ↦ inr r ];
    cleaned = v.cleaned;
  }

  pub accept-IsServing :
      (s : TcpServer) (c : ℕ)
      → HandEmpty s.loop
      → s.listening ≡ true
      → IsServing m s
      → IsServing m (record s { loop = has c; temp_delay = 0; accepted = c ∷ s.accepted })
  accept-IsServing s c e opened v = record {
    limit = v.limit;
    bounded = v.bounded;
    shut = λ q. absurd (cc (opened, (v.shut q).0));
    kept = λ b h. elim h [
      | inl q ↦ inl (ap has (sym q))
      | inr m ↦ elim (v.kept b m) [ inl q ↦ absurd (e b q) | inr r ↦ inr r ]
    ];
    cleaned = v.cleaned;
  }

  -- The two ends of run's turn with a connection.
  pub admit-cases :
      (c : ℕ) (s : TcpServer)
      → s.loop ≡ has c
      → IsServing m s
      → ((xs : List ℕ) × (s.conns ≡ some xs)
          × (length xs < s.max_conn_num)
          × (admit c s ≡ ok (with_agent c xs s)))
        ⊎ ((s.max_conn_num ≤ len s.conns) × (admit c s ≡ ok (turned_away c s)))
  unfolding admit
  admit-cases c s e v = elim (Option-cases s.conns) [
    | inl q ↦ absurd ((v.shut q).1 c e)
    | inr (xs, q) ↦ elim (Bool-cases (ltb (length xs) s.max_conn_num)) [
      | inl b ↦ inl (xs, q, ground (arith, b), rw (q, b))
      | inr b ↦ inr (rw q (ground (arith, b)), rw (q, b))
    ]
  ]

  pub with_agent-IsServing :
      (c : ℕ) (xs : List ℕ) (s : TcpServer)
      → s.loop ≡ has c
      → s.conns ≡ some xs
      → length xs < s.max_conn_num
      → IsServing m s
      → IsServing m (with_agent c xs s)
  with_agent-IsServing c xs s e q lt v = record {
    limit = v.limit;
    bounded = omega (arith, length-remove c xs, lt);
    shut = λ n. cc n;
    kept = λ b h. elim (v.kept b h) [
      | inl at ↦ inr (inl (inl (has_eq (sym at ∙ e))))
      | inr (inl m) ↦ elim (Has-remove b c xs (subst (Holds b) q m)) [
        | inl same ↦ inr (inl (inl same))
        | inr r ↦ inr (inl (inr r))
      ]
      | inr (inr m) ↦ inr (inr m)
    ];
    cleaned = v.cleaned;
  }

  pub turned_away-IsServing :
      (c : ℕ) (s : TcpServer) → s.loop ≡ has c → IsServing m s → IsServing m (turned_away c s)
  turned_away-IsServing c s e v = record {
    limit = v.limit;
    bounded = v.bounded;
    shut = λ q. ((v.shut q).0, λ b n. cc n);
    kept = λ b h. elim (v.kept b h) [
      | inl at ↦ inr (inr (inl (has_eq (sym at ∙ e))))
      | inr (inl m) ↦ inr (inl m)
      | inr (inr m) ↦ inr (inr (inr m))
    ];
    cleaned = λ b h. inr (v.cleaned b h);
  }

  pub clean-IsServing : (c : ℕ) (s : TcpServer) → IsServing m s → IsServing m (clean c s)
  clean-IsServing c s v = record {
    limit = v.limit;
    bounded = v.bounded;
    shut = v.shut;
    kept = λ b h. elim (v.kept b h) [
      | inl at ↦ inl at
      | inr (inl m) ↦ inr (inl m)
      | inr (inr m) ↦ inr (inr (inr m))
    ];
    cleaned = λ b h. elim h [ inl e ↦ inl e | inr m ↦ inr (v.cleaned b m) ];
  }

  pub leave-IsServing :
      (c : ℕ) (s : TcpServer) → Has c s.cleaning → IsServing m s → IsServing m (leave c s)
  leave-IsServing c s m v = record {
    limit = v.limit;
    bounded = omega (arith, len-delete c s.conns, v.bounded);
    shut = λ q. v.shut (delete_nil c s.conns q);
    kept = λ b h. elim (v.kept b h) [
      | inl at ↦ inl at
      | inr (inl held) ↦ elim (Holds-delete b c s.conns held) [
        | inl same ↦ inr (inr (subst (λ x. Has x s.closed) (sym same) (v.cleaned c m)))
        | inr r ↦ inr (inl r)
      ]
      | inr (inr g) ↦ inr (inr g)
    ];
    cleaned = λ b h. v.cleaned b (Has-remove_back b c s.cleaning h);
  }

  pub close_all-IsServing :
      (s : TcpServer)
      → s.listening ≡ false
      → HandEmpty s.loop
      → IsServing m s
      → IsServing m (close_all s)
  close_all-IsServing s off e v = record {
    limit = v.limit;
    bounded = omega arith;
    shut = λ q. (off, e);
    kept = λ b h. elim (v.kept b h) [
      | inl at ↦ absurd (e b at)
      | inr (inl held) ↦ inr (inr (Has-left b _ s.closed (Holds-members b s.conns held)))
      | inr (inr g) ↦ inr (inr (Has-right b _ s.closed g))
    ];
    cleaned = λ b h. Has-right b _ s.closed (v.cleaned b h);
  }
