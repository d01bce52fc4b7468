-- ===== src/App/Manager.antt =====
-- app/module_manager.go: which modules of a process run, and in what order they start and end.
pub mod Checks
pub mod Starts
use lodos.Base.{
  ℕ, zero, suc, Bool, true, false, Option, none, some, List, [], ◌∷◌, ◌++◌, ◌==◌, ◌||◌,
  if◌then◌else◌, length, map, same,
}
use lodos.Io.Result.{Result, ok, err, panic, stuck}
use lodos.Io.Reader.{Bytes}
use lodos.App.{ModuleSettings, Modules, at}
use lodos.App.Unique.{among}

-- The loops of CheckModuleSettings.
pub check_type : List Bytes → List Bytes → List ModuleSettings → Result (List Bytes)
check_type gid pid [] = ok gid
check_type gid pid (m ∷ ms) =
    let rest = check_type (m.id ∷ gid) (m.process_id ∷ pid) ms in
    if among m.id gid then panic else if among m.process_id pid then panic else rest

abbrev and_then : Result (List Bytes) → (List Bytes → Result (Unit {0})) → Result (Unit {0})
and_then (ok gid) f = f gid
and_then (err e) f = err e
and_then panic f = panic
and_then stuck f = stuck

pub check_types : List Bytes → Modules → Result (Unit {0})
unfolding check_type
check_types gid [] = ok tt
check_types gid ((typ, ms) ∷ rest) = and_then (check_type gid [] ms) (λ gid'. check_types gid' rest)

-- CheckModuleSettings
abbrev pub check_module_settings : Modules → Result (Unit {0})
check_module_settings modules = check_types [] modules

-- `moduleManager`: the types of the modules that are registered, the settings that each of them has got, and the
-- modules that run, by their number.
pub record ModuleManager : Type 0 where
  pub mods : List Bytes
  pub settings : ℕ → Option ModuleSettings
  pub run_mods : List ℕ

-- The loop over the settings of the module's type.
pub match_settings : Bytes → ℕ → List ModuleSettings → ModuleManager → ModuleManager
match_settings process i [] mg = mg
match_settings process i (m ∷ ms) mg = match_settings process i ms (
    if same process m.process_id
    then record mg {
      settings = λ j. if j == i then some m else mg.settings j;
      run_mods = mg.run_mods ++ (i ∷ []);
    }
    else mg)

-- The loop over the types, which ends at that of the module.
abbrev pub settings_of : Bytes → Modules → List ModuleSettings
settings_of typ [] = []
settings_of typ ((t, ms) ∷ rest) =
    let later = settings_of typ rest in if same typ t then ms else later

-- The loop over the modules, from number i.
pub init_mods : Bytes → Modules → ℕ → List Bytes → ModuleManager → ModuleManager
unfolding match_settings
init_mods process modules i [] mg = mg
init_mods process modules i (typ ∷ mods) mg =
    init_mods process modules (suc i) mods (match_settings process i (settings_of typ modules) mg)

-- What Init starts: the modules with the settings that they have at the end of the loops.
abbrev pub started : ModuleManager → List (ℕ × Option ModuleSettings)
started mg = map (λ i. (i, mg.settings i)) mg.run_mods

-- Register
abbrev pub register : Bytes → ModuleManager → ModuleManager
register typ mg = record mg { mods = mg.mods ++ (typ ∷ []) }

-- Init, behind the check of the settings.
abbrev after_check : Result (Unit {0}) → ModuleManager → Result ModuleManager
after_check (ok u) mg = ok mg
after_check (err e) mg = err e
after_check panic mg = panic
after_check stuck mg = stuck

pub init : Bytes → Modules → ModuleManager → Result ModuleManager
unfolding init_mods check_types
init process modules mg =
    after_check (check_module_settings modules) (init_mods process modules 0 mg.mods mg)

-- The loop of Destroy over the modules that run, from the last one down: the order in which they end.
abbrev ends : Option ℕ → List ℕ → List ℕ
ends none rest = rest
ends (some i) rest = i ∷ rest

pub destroy_below : ℕ → List ℕ → List ℕ
destroy_below zero run_mods = []
destroy_below (suc n) run_mods = ends (at n run_mods) (destroy_below n run_mods)

-- Destroy
pub destroy : ModuleManager → List ℕ
unfolding destroy_below
destroy mg = destroy_below (length mg.run_mods) mg.run_mods
