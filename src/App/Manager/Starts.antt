-- ===== src/App/Manager/Starts.antt =====
-- Which modules Init starts.
use lodos.Base.{
  ℕ, suc, ◌<◌, Option, none, some, List, [], ◌∷◌, ◌++◌, ◌==◌, if◌then◌else◌, same, All,
}
use lodos.App.{ModuleSettings, Modules}
use lodos.App.Manager.{ModuleManager, settings_of}
use lodos.Io.Reader.{Bytes}

-- The first of the settings that are meant for the process.
abbrev setting_for : Bytes → List ModuleSettings → Option ModuleSettings
setting_for process [] = none
setting_for process (m ∷ ms) = if same process m.process_id then some m else setting_for process ms

abbrev one : ℕ → Option ModuleSettings → List (ℕ × Option ModuleSettings)
one i none = []
one i (some m) = (i, some m) ∷ []

-- What should start: in the order of the modules, each that has settings for the process, once, with them.
abbrev pub expected : Bytes → Modules → ℕ → List Bytes → List (ℕ × Option ModuleSettings)
expected process modules i [] = []
expected process modules i (typ ∷ mods) =
    one i (setting_for process (settings_of typ modules)) ++ expected process modules (suc i) mods

abbrev placed : ℕ → Option ModuleSettings → ModuleManager → ModuleManager
placed i none mg = mg
placed i (some m) mg = record mg {
  settings = λ j. if j == i then some m else mg.settings j;
  run_mods = mg.run_mods ++ (i ∷ []);
}

-- The numbers of the modules that run are below i.
abbrev Below : ℕ → List ℕ → Type 0
Below i rs = All (λ j. j < i) rs
