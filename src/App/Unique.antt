-- ===== src/App/Unique.antt =====
-- What it means for settings to name each module once: the rules of CheckModuleSettings in app/module_manager.go.
use lodos.Base.{
  ◌≡◌, refl, ap, ◌∙◌, Bool, Bool-cases, inl, inr, same-eq, true, false, List, [], ◌∷◌, ◌++◌, ◌&&◌,
  ◌||◌, not, map, same, arith,
}
use lodos.App.{ModuleSettings, Modules}
use lodos.Io.Reader.{Bytes}

-- The keys of the maps gid and pid.
abbrev pub among : Bytes → List Bytes → Bool
among k [] = false
among k (j ∷ js) = same k j || among k js

-- Every key differs from the keys before it, and from those that are known.
abbrev pub all_new : List Bytes → List Bytes → Bool
all_new known [] = true
all_new known (k ∷ ks) = not (among k known) && all_new (k ∷ known) ks

abbrev pub ids : List ModuleSettings → List Bytes
ids ms = map (λ (m : ModuleSettings). m.id) ms

abbrev pub process_ids : List ModuleSettings → List Bytes
process_ids ms = map (λ (m : ModuleSettings). m.process_id) ms

abbrev pub all_ids : Modules → List Bytes
all_ids [] = []
all_ids ((typ, ms) ∷ rest) = ids ms ++ all_ids rest

-- No type has two modules in one process.
abbrev pub is_apart : Modules → Bool
is_apart [] = true
is_apart ((typ, ms) ∷ rest) = all_new [] (process_ids ms) && is_apart rest

abbrev pub pushed : List Bytes → List Bytes → List Bytes
pushed known [] = known
pushed known (k ∷ ks) = pushed (k ∷ known) ks

pub all_new-append :
    (known ks js : List Bytes)
    → all_new known (ks ++ js) ≡ (all_new known ks && all_new (pushed known ks) js)
all_new-append known [] js = refl
all_new-append known (k ∷ ks) js = ground (arith, all_new-append (k ∷ known) ks js)

-- A key that is known comes in no list of new keys.
pub all_new-among :
    (k : Bytes) (known ks : List Bytes)
    → among k known ≡ true
    → all_new known ks ≡ true
    → among k ks ≡ false
all_new-among k known [] h a = refl
all_new-among k known (y ∷ ys) h a =
    let new : (not (among y known) && all_new (y ∷ known) ys) ≡ true = a in
    elim (Bool-cases (same k y)) [
      | inl e ↦ absurd (ground (arith, h, new, ap (λ j. among j known) (same-eq k y e)))
      | inr e ↦
          ap (λ b. b || among k ys) e
          ∙ all_new-among k (y ∷ known) ys (ground (arith, h)) (ground (arith, new))
    ]
