-- ===== src/Utils/BeeMap.antt =====
-- The map with a lock of utils/safemap.go, a copy of that of beego: an interface.
pub mod Pairs
use lodos.Base.{◌≡◌, ◌⊎◌, Bool, false, Option, none, some, List, [], ◌∷◌, same, if◌then◌else◌, All}
use lodos.Io.Reader.{Bytes}

-- The map holds for each key a value; `items` are its pairs, in the order of a range over it.
pub record BeeMap (M V : Type 0) : Type 0 where
  pub lookup : Bytes → M → Option V
  pub insert : Bytes → V → M → M
  pub delete : Bytes → M → M
  pub delete_all : M → M
  pub items : M → List (Bytes × V)

module _ {A : Type 0} where
  abbrev pub values : List (Bytes × A) → List A
  values [] = []
  values ((k, v) ∷ rest) = v ∷ values rest

  abbrev pub HasNot : Bytes → List (Bytes × A) → Type 0
  HasNot key rest = All (λ (p : Bytes × A). same p.0 key ≡ false) rest

  -- No key comes twice.
  abbrev pub Distinct : List (Bytes × A) → Type 0
  Distinct [] = Unit {0}
  Distinct ((k, v) ∷ rest) = HasNot k rest × Distinct rest

  -- The pair is one of the list.
  abbrev pub Held : Bytes → A → List (Bytes × A) → Type 0
  Held k v [] = ⊥
  Held k v ((j, w) ∷ rest) = ((j ≡ k) × (w ≡ v)) ⊎ Held k v rest

-- What a map does.
pub record IsMap {M V : Type 0} (bm : BeeMap M V) : Type 0 where
  pub lookup-insert :
      (j k : Bytes) (v : V) (m : M)
      → bm.lookup j (bm.insert k v m) ≡ (if same j k then some v else bm.lookup j m)
  pub lookup-delete :
      (j k : Bytes) (m : M)
      → bm.lookup j (bm.delete k m) ≡ (if same j k then none else bm.lookup j m)
  pub items_sound : (m : M) → All (λ (p : Bytes × V). bm.lookup p.0 m ≡ some p.1) (bm.items m)
  pub items_complete : (k : Bytes) (v : V) (m : M) → bm.lookup k m ≡ some v → Held k v (bm.items m)
  pub items_distinct : (m : M) → Distinct (bm.items m)
