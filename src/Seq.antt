-- ===== src/Seq.antt =====
-- addon/seq/base/section.go: the sequence numbers of the users of a section.
pub mod Fresh
mod Runs
use lodos.Base.{
  ℕ, suc, ◌+◌, ◌%◌, ◌^◌, Bool, true, false, ◌||◌, Option, none, some, List, [], ◌∷◌, ltb, ◌==◌,
  if◌then◌else◌,
}
use lodos.Utils.Numbers.{ℤ, pos, negsuc}

-- An int64 as its 64 bits, and its order.
abbrev pub wrap : ℕ → ℕ
wrap n = n % 2 ^ 64

abbrev pub before : ℕ → ℕ → Bool
before a b = ltb ((a + 2 ^ 63) % 2 ^ 64) ((b + 2 ^ 63) % 2 ^ 64)

-- `seq.Sequence` is not positive.
abbrev not_positive : ℕ → Bool
not_positive n = (n == 0) || before n 0

-- `section`: for each user its current sequence number.
pub record Section : Type 0 where
  pub begin_id : ℤ
  pub users : ℤ → Option ℕ
  pub max_seq : ℕ
  pub step : ℕ

-- NewSection; none is its error.
pub new_section : ℤ → ℕ → ℕ → Option Section
new_section flag max_seq step =
    if not_positive step || not_positive max_seq
    then none
    else some (record { begin_id = flag; users = λ id. none; max_seq = max_seq; step = step })

-- Whether two ids are the same.
abbrev pub same_id : ℤ → ℤ → Bool
same_id (pos m) (pos n) = m == n
same_id (negsuc m) (negsuc n) = m == n
same_id _ _ = false

abbrev pub put_user : ℤ → ℕ → Section → Section
put_user id cur_seq s = record s { users = λ j. if same_id j id then some cur_seq else s.users j }

abbrev added : Option ℕ → ℤ → ℕ → Section → Option Section
added (some u) id cur_seq s = none
added none id cur_seq s = some (put_user id cur_seq s)

-- AddUser; none is its error.
pub add_user : ℤ → ℕ → Section → Option Section
add_user id cur_seq s = added (s.users id) id cur_seq s

-- `if u.curSeq > s.maxSeq { s.maxSeq += step }`
abbrev limit : ℕ → ℕ → ℕ → ℕ
limit max_seq step cur_seq = if before max_seq cur_seq then wrap (max_seq + step) else max_seq

abbrev raised : ℕ → Section → Section
raised cur_seq s = record s { max_seq = limit s.max_seq s.step cur_seq }

abbrev of_user : Option ℕ → ℤ → Section → Option ℕ × Section
of_user none id s = (none, s)
of_user (some u) id s = (some (wrap (u + 1)), raised (wrap (u + 1)) (put_user id (wrap (u + 1)) s))

-- GetSeq
pub get_seq : ℤ → Section → Option ℕ × Section
get_seq id s = of_user (s.users id) id s

-- Calls of GetSeq for users in any order, and the numbers that they get.
abbrev pub noted : ℤ → Option ℕ → List (ℤ × ℕ) → List (ℤ × ℕ)
noted id none later = later
noted id (some q) later = (id, q) ∷ later

pub get_seqs : List ℤ → Section → List (ℤ × ℕ) × Section
unfolding get_seq
get_seqs [] s = ([], s)
get_seqs (id ∷ ids) s =
    let (o, s1) = get_seq id s in let (later, s2) = get_seqs ids s1 in (noted id o later, s2)
