-- ===== src/Seq/Runs.antt =====
-- The theorem on sequence numbers at a concrete section.
use lodos.Base.{
  ℕ, ◌≡◌, ◌≤◌, sym, ◌∙◌, Bool-cases, inl, inr, none, some, [], ◌∷◌, if_true, if_false, arith,
}
use lodos.Seq.{Section, same_id, put_user, get_seqs}
use lodos.Seq.Fresh.{IsWithin, Grown, get_seqs-Grown}
use lodos.Utils.Numbers.{ℤ, pos}

-- One user, at the limit of its section.
abbrev empty_section : Section
empty_section = record { begin_id = pos 0; users = λ id. none; max_seq = 7; step = 10 }

abbrev small_section : Section
small_section = put_user (pos 5) 7 empty_section

at_limit : (u : ℕ) → some 7 ≡ some u → u ≤ 7
at_limit u h = let eq : 7 ≡ u = cc h in omega (arith, eq)

user_at_limit : (id : ℤ) (u : ℕ) → small_section.users id ≡ some u → u ≤ 7
user_at_limit id u e = elim (Bool-cases (same_id id (pos 5))) [
  | inl m ↦ at_limit u (sym (if_true (same_id id (pos 5)) (some 7) none m) ∙ e)
  | inr m ↦ absurd (cc (sym (if_false (same_id id (pos 5)) (some 7) none m) ∙ e))
]

small_section-IsWithin : IsWithin 3 small_section
small_section-IsWithin = record {
  step_positive = omega arith;
  room = omega arith;
  within = user_at_limit;
}

get_seqs-Grown_example :
    Grown small_section
      (get_seqs (pos 5 ∷ pos 6 ∷ pos 5 ∷ []) small_section).0
      (get_seqs (pos 5 ∷ pos 6 ∷ pos 5 ∷ []) small_section).1
get_seqs-Grown_example =
    get_seqs-Grown (pos 5 ∷ pos 6 ∷ pos 5 ∷ []) small_section small_section-IsWithin
