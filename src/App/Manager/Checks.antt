-- ===== src/App/Manager/Checks.antt =====
-- The settings that CheckModuleSettings accepts.
use lodos.Base.{
  ◌≡◌, refl, sym, ap, ◌∙◌, Bool, true, false, List, [], ◌∷◌, ◌&&◌, if◌then◌else◌, arith,
}
use lodos.App.{ModuleSettings, Modules}
use lodos.App.Manager.{check_type, check_types, check_module_settings, and_then}
use lodos.App.Unique.{all_new, ids, process_ids, all_ids, is_apart, pushed, all_new-append}
use lodos.Io.Result.{ok, panic}
use lodos.Io.Reader.{Bytes}

check_type-eq :
    (gid pid : List Bytes) (ms : List ModuleSettings)
    → check_type gid pid ms ≡ (
        if all_new gid (ids ms) && all_new pid (process_ids ms)
        then ok (pushed gid (ids ms))
        else panic)
unfolding check_type
check_type-eq gid pid [] = refl
check_type-eq gid pid (m ∷ ms) = ground (arith, check_type-eq (m.id ∷ gid) (m.process_id ∷ pid) ms)

-- The check goes on behind a type, or ends.
check_rest :
    (a b : Bool) (gid : List Bytes) (rest : Modules) (c d : Bool)
    → check_types gid rest ≡ (if c && d then ok tt else panic)
    → and_then (if a && b then ok gid else panic) (λ g. check_types g rest)
      ≡ (if (a && c) && (b && d) then ok tt else panic)
check_rest true true gid rest c d h = h
check_rest true false gid rest true d h = refl
check_rest true false gid rest false d h = refl
check_rest false b gid rest c d h = refl

check_types-eq :
    (gid : List Bytes) (ms : Modules)
    → check_types gid ms ≡ (if all_new gid (all_ids ms) && is_apart ms then ok tt else panic)
unfolding check_types
check_types-eq gid [] = refl
check_types-eq gid ((typ, ms) ∷ rest) =
    ap (λ r. and_then r (λ g. check_types g rest)) (check_type-eq gid [] ms)
    ∙ (check_rest (all_new gid (ids ms)) (all_new [] (process_ids ms)) (pushed gid (ids ms)) rest
          (all_new (pushed gid (ids ms)) (all_ids rest)) (is_apart rest)
          (check_types-eq (pushed gid (ids ms)) rest)
        ∙ ap (λ b. if b && (all_new [] (process_ids ms) && is_apart rest) then ok tt else panic)
            (sym (all_new-append gid (ids ms) (all_ids rest))))

-- CheckModuleSettings accepts the settings in which no id is used twice and no type has two modules in one process,
-- and panics at all others.
pub check_module_settings-all_new :
    (modules : Modules)
    → check_module_settings modules
      ≡ (if all_new [] (all_ids modules) && is_apart modules then ok tt else panic)
check_module_settings-all_new modules = check_types-eq [] modules
