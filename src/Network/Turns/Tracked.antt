-- ===== src/Network/Turns/Tracked.antt =====
-- Every connection that was opened is held, in the set or closed.
use lodos.Base.{ℕ, ◌≡◌, sym, ◌⊎◌, inl, inr, none, some, List, ◌∷◌}
use mathlib.Core.Path.{subst}
use lodos.Io.Result.{ok}
use lodos.Network.Conns.{
  ConnSet, Has, Holds, remove, delete, Has-remove, Has-remove_back, Holds-delete, Has-left,
  Has-right, Holds-members,
}
use lodos.Network.Turns.{Turns, no_turns, hand, let_in, turn_away, clean, leave, close_all}

pub record IsTracked (t : Turns) : Type 0 where
  pub kept : (c : ℕ) → Has c t.given → Has c t.held ⊎ (Holds c t.conns ⊎ Has c t.closed)
  pub serving : (c : ℕ) → Has c t.agents → Holds c t.conns ⊎ Has c t.closed
  pub cleaned : (c : ℕ) → Has c t.cleaning → Has c t.closed

pub no_turns-IsTracked : IsTracked no_turns
no_turns-IsTracked = record {
  kept = λ c h. absurd h;
  serving = λ c h. absurd h;
  cleaned = λ c h. absurd h;
}

pub hand-IsTracked : (c : ℕ) (t : Turns) → IsTracked t → IsTracked (hand c t)
hand-IsTracked c t v = record {
  kept = λ b h. elim h [
    | inl e ↦ inl (inl e)
    | inr m ↦ elim (v.kept b m) [ inl k ↦ inl (inr k) | inr r ↦ inr r ]
  ];
  serving = v.serving;
  cleaned = v.cleaned;
}

abbrev pub let_in_set : ℕ → List ℕ → Turns → Turns
let_in_set c xs t = record t {
  conns = some (c ∷ remove c xs);
  held = remove c t.held;
  agents = c ∷ t.agents;
}

pub let_in-eq :
    (c : ℕ) (xs : List ℕ) (t : Turns) → t.conns ≡ some xs → let_in c t ≡ ok (let_in_set c xs t)
let_in-eq c xs t q = rw q

-- What the set held, it holds with one more in it.
Holds-more :
    (b c : ℕ) (xs : List ℕ) (cs : ConnSet) → cs ≡ some xs → Holds b cs → Has b (c ∷ remove c xs)
Holds-more b c xs cs q m = elim (Has-remove b c xs (subst (Holds b) q m)) [
  | inl e ↦ inl e
  | inr r ↦ inr r
]

pub let_in_set-IsTracked :
    (c : ℕ) (xs : List ℕ) (t : Turns)
    → t.conns ≡ some xs
    → IsTracked t
    → IsTracked (let_in_set c xs t)
let_in_set-IsTracked c xs t q v = record {
  kept = λ b h. elim (v.kept b h) [
    | inl k ↦ elim (Has-remove b c t.held k) [ inl e ↦ inr (inl (inl e)) | inr r ↦ inl r ]
    | inr (inl m) ↦ inr (inl (Holds-more b c xs t.conns q m))
    | inr (inr m) ↦ inr (inr m)
  ];
  serving = λ b h. elim h [
    | inl e ↦ inl (inl e)
    | inr a ↦ elim (v.serving b a) [ inl m ↦ inl (Holds-more b c xs t.conns q m) | inr m ↦ inr m ]
  ];
  cleaned = v.cleaned;
}

pub turn_away-IsTracked : (c : ℕ) (t : Turns) → IsTracked t → IsTracked (turn_away c t)
turn_away-IsTracked c t v = record {
  kept = λ b h. elim (v.kept b h) [
    | inl k ↦ elim (Has-remove b c t.held k) [ inl e ↦ inr (inr (inl e)) | inr r ↦ inl r ]
    | inr (inl m) ↦ inr (inl m)
    | inr (inr m) ↦ inr (inr (inr m))
  ];
  serving = λ b h. elim (v.serving b h) [ inl m ↦ inl m | inr m ↦ inr (inr m) ];
  cleaned = λ b h. inr (v.cleaned b h);
}

pub clean-IsTracked : (c : ℕ) (t : Turns) → IsTracked t → IsTracked (clean c t)
clean-IsTracked c t v = record {
  kept = λ b h. elim (v.kept b h) [
    | inl k ↦ inl k
    | inr (inl m) ↦ inr (inl m)
    | inr (inr m) ↦ inr (inr (inr m))
  ];
  serving = λ b h. elim (v.serving b (Has-remove_back b c t.agents h)) [
    | inl m ↦ inl m
    | inr m ↦ inr (inr m)
  ];
  cleaned = λ b h. elim h [ inl e ↦ inl e | inr m ↦ inr (v.cleaned b m) ];
}

-- What is in the set is there still, or was the connection that leaves, which is closed.
Holds-left :
    (b c : ℕ) (t : Turns)
    → IsTracked t
    → Has c t.cleaning
    → Holds b t.conns
    → Holds b (delete c t.conns) ⊎ Has b t.closed
Holds-left b c t v m h = elim (Holds-delete b c t.conns h) [
  | inl e ↦ inr (subst (λ x. Has x t.closed) (sym e) (v.cleaned c m))
  | inr r ↦ inl r
]

pub leave-IsTracked : (c : ℕ) (t : Turns) → Has c t.cleaning → IsTracked t → IsTracked (leave c t)
leave-IsTracked c t m v = record {
  kept = λ b h. elim (v.kept b h) [
    | inl k ↦ inl k
    | inr (inl held) ↦ inr (Holds-left b c t v m held)
    | inr (inr g) ↦ inr (inr g)
  ];
  serving = λ b h. elim (v.serving b h) [ inl held ↦ Holds-left b c t v m held | inr g ↦ inr g ];
  cleaned = λ b h. v.cleaned b (Has-remove_back b c t.cleaning h);
}

pub close_all-IsTracked : (t : Turns) → IsTracked t → IsTracked (close_all t)
close_all-IsTracked t v = record {
  kept = λ b h. elim (v.kept b h) [
    | inl k ↦ inl k
    | inr (inl held) ↦ inr (inr (Has-left b _ t.closed (Holds-members b t.conns held)))
    | inr (inr g) ↦ inr (inr (Has-right b _ t.closed g))
  ];
  serving = λ b h. inr (elim (v.serving b h) [
    | inl held ↦ Has-left b _ t.closed (Holds-members b t.conns held)
    | inr g ↦ Has-right b _ t.closed g
  ]);
  cleaned = λ b h. Has-right b _ t.closed (v.cleaned b h);
}

-- Once the set is nil, what was opened is held or closed.
pub kept-shut :
    (c : ℕ) (t : Turns)
    → IsTracked t
    → t.conns ≡ none
    → Has c t.given
    → Has c t.held ⊎ Has c t.closed
kept-shut c t v q h = elim (v.kept c h) [
  | inl k ↦ inl k
  | inr (inl held) ↦ absurd (subst (Holds c) q held)
  | inr (inr g) ↦ inr g
]
