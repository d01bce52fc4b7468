-- ===== src/Conf/Comments.antt =====
-- What is left of a configuration file.
use lodos.Base.{
  ℕ, zero, suc, ◌≤◌, ◌<◌, ◌≡◌, refl, ap, ◌∙◌, inl, inr, Bool-cases, true, false, ◌||◌, none, some,
  List, [], ◌∷◌, ◌++◌, ◌==◌, take, length, length-append, append_assoc, All, if_false,
  if◌then◌else◌, has_prefix, arith,
}
use lodos.Io.Reader.{Bytes}
use lodos.Conf.{
  buffer_size, with_front, cut, sliced, read_slice, slashes, is_comment, kept, after_slice,
  read_loop, read_file,
}

abbrev pub newline : ℕ
newline = b'\n'

-- A text without an end of a line, that fits into the buffer with one.
abbrev pub NoEnd : Bytes → Type 0
NoEnd = All (λ (b : ℕ). (b == newline) ≡ false)

abbrev pub IsLine : ℕ → Bytes → Type 0
IsLine n l = NoEnd l × (length l < n)

-- The lines, each with its end.
abbrev pub ended : List Bytes → Bytes
ended [] = []
ended (l ∷ ls) = l ++ (newline ∷ ended ls)

abbrev pub without_comments : List Bytes → List Bytes
without_comments [] = []
without_comments (l ∷ ls) =
    let rest = without_comments ls in if is_comment l then rest else l ∷ rest

cut-line :
    (n : ℕ) (l rest : Bytes)
    → NoEnd l
    → length l < n
    → cut n (l ++ (newline ∷ rest)) ≡ some (l ++ (newline ∷ []), rest)
cut-line zero l rest v h = absurd (omega (arith, h))
cut-line (suc n) [] rest v h = refl
cut-line (suc n) (b ∷ l) rest (e, v) h =
    if_false (b == newline) _ _ e ∙ ap (with_front b) (cut-line n l rest v (omega (arith, h)))

cut-none : (n : ℕ) (l : Bytes) → NoEnd l → cut n l ≡ none
cut-none zero l v = refl
cut-none (suc n) [] v = refl
cut-none (suc n) (b ∷ l) (e, v) = if_false (b == newline) _ _ e ∙ ap (with_front b) (cut-none n l v)

take_all : (n : ℕ) (l : Bytes) → length l ≤ n → take n l ≡ l
take_all zero [] h = refl
take_all zero (b ∷ l) h = absurd (omega (arith, h))
take_all (suc n) [] h = refl
take_all (suc n) (b ∷ l) h = ap (λ x. b ∷ x) (take_all n l (omega (arith, h)))

-- The end of a line does not make it a comment, nor stop it from being one.
is_comment-ended : (l : Bytes) → is_comment (l ++ (newline ∷ [])) ≡ is_comment l
is_comment-ended [] = refl
is_comment-ended (b ∷ l) = elim (Bool-cases ((b == 9) || (b == b' '))) [
  | inl e ↦ rw e (is_comment-ended l)
  | inr e ↦ rw e (second l)
]
  where
    second :
        (l : Bytes) → has_prefix (b ∷ (l ++ (newline ∷ []))) slashes ≡ has_prefix (b ∷ l) slashes
    second [] = refl
    second (c ∷ l) = refl

read_slice-line :
    (n : ℕ) (l rest : Bytes)
    → IsLine n l
    → read_slice n (l ++ (newline ∷ rest)) ≡ ((l ++ (newline ∷ []), true), rest)
read_slice-line n l rest (v, h) = ap (sliced n (l ++ (newline ∷ rest))) (cut-line n l rest v h)

read_slice-last : (n : ℕ) (l : Bytes) → IsLine n l → read_slice n l ≡ ((l, false), [])
read_slice-last n l (v, h) =
    ap (sliced n l) (cut-none n l v) ∙ ap (λ x. ((x, false), [])) (take_all n l (omega (arith, h)))

kept-eq :
    (l : Bytes) (ls : List Bytes) (last : Bytes)
    → kept (l ++ (newline ∷ [])) (some (ended (without_comments ls) ++ last))
      ≡ some (ended (without_comments (l ∷ ls)) ++ last)
kept-eq l ls last = elim (Bool-cases (is_comment l)) [
  | inl e ↦ rw (is_comment-ended l, e)
  | inr e ↦ rw (is_comment-ended l, e) (ap some (joined l (ended (without_comments ls)) last))
]
  where
    joined :
        (l t last : Bytes) → (l ++ (newline ∷ [])) ++ (t ++ last) ≡ (l ++ (newline ∷ t)) ++ last
    joined [] t last = refl
    joined (b ∷ l) t last = ap (λ x. b ∷ x) (joined l t last)

read_loop-lines :
    (n : ℕ) (ls : List Bytes) (last : Bytes) (fuel : ℕ)
    → All (IsLine n) ls
    → IsLine n last
    → length ls < fuel
    → read_loop n fuel (ended ls ++ last) ≡ some (ended (without_comments ls) ++ last)
unfolding read_loop
read_loop-lines n ls last zero v w h = absurd (omega (arith, h))
read_loop-lines n [] last (suc fuel) v w h =
    ap (λ r. after_slice r (read_loop n fuel r.1)) (read_slice-last n last w)
read_loop-lines n (l ∷ ls) last (suc fuel) (p, v) w h =
    ap (λ s. after_slice (read_slice n s) (read_loop n fuel (read_slice n s).1))
      (append_assoc l (newline ∷ ended ls) last)
    ∙ (ap (λ r. after_slice r (read_loop n fuel r.1)) (read_slice-line n l (ended ls ++ last) p)
        ∙ (ap (kept (l ++ (newline ∷ []))) (read_loop-lines n ls last fuel v w (omega (arith, h)))
            ∙ kept-eq l ls last))

length-ended : (ls : List Bytes) → length ls ≤ length (ended ls)
length-ended [] = omega arith
length-ended (l ∷ ls) = omega (arith, length-append l (newline ∷ ended ls), length-ended ls)

-- Of a file of lines that fit into the buffer, each with its end, and a text behind them that has none and fits too, is
-- left what the file is without the lines that are comments, in order; the text behind them is left even
-- where it is a comment.
pub read_file-lines :
    (ls : List Bytes) (last : Bytes)
    → All (IsLine buffer_size) ls
    → IsLine buffer_size last
    → read_file (ended ls ++ last) ≡ some (ended (without_comments ls) ++ last)
unfolding read_file
read_file-lines ls last v w =
    read_loop-lines buffer_size ls last (suc (length (ended ls ++ last))) v w
      (omega (arith, length-append (ended ls) last, length-ended ls))
