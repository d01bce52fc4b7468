-- ===== src/App.antt =====
-- app/app.go: the servers that an application knows and how a call finds one of them.
pub mod Manager
pub mod Unique
pub mod Registers
pub mod Routing
mod Runs
use lodos.Base.{
  ℕ, zero, suc, ◌%◌, Bool, true, false, not, Option, none, some, List, [], ◌∷◌, ◌++◌, ◌==◌, ◌&&◌,
  if◌then◌else◌, length, same, is_empty, split_at,
}
use lodos.Io.Result.{Result, ok, err, panic, stuck}
use lodos.Io.Reader.{Bytes}

-- `conf.ModuleSettings`; of the settings of RabbitMQ and Redis only whether they are there.
pub record ModuleSettings : Type 0 where
  pub id : Bytes
  pub process_id : Bytes
  pub rabbitmq : Bool
  pub redis_uri : Bytes
  pub has_redis : Bool

-- `conf.Conf.Modules` in the order of a range over it: the types with their settings.
abbrev pub Modules : Type 0
Modules = List (Bytes × List ModuleSettings)

-- A module's session; of its client which of the three clients it was told to open.
pub record ModuleSession : Type 0 where
  pub id : Bytes
  pub m_type : Bytes
  pub has_local : Bool
  pub has_remote : Bool
  pub has_redis : Bool

-- The map of servers, the newest first.
abbrev pub Servers : Type 0
Servers = List (Bytes × ModuleSession)

abbrev pub find : Bytes → Servers → Option ModuleSession
find id [] = none
find id ((k, s) ∷ rest) = if same id k then some s else find id rest

-- The session of NewRPCClient and NewModuleSession; a module of this process needs no remote client.
abbrev pub session_of : Bytes → Bytes → ModuleSettings → ModuleSession
session_of process typ m =
    let elsewhere = not (same process m.process_id) in
    record {
      id = m.id;
      m_type = typ;
      has_local = false;
      has_remote = elsewhere && m.rabbitmq;
      has_redis = elsewhere && (m.has_redis && not (is_empty m.redis_uri));
    }

-- The loops of OnInit.
abbrev unless_known : {A : Type 0} → Option ModuleSession → Result A → Result A
unless_known none rest = rest
unless_known (some m) rest = panic

pub init_type : Bytes → Bytes → List ModuleSettings → Servers → Result Servers
init_type process typ [] servers = ok servers
init_type process typ (m ∷ ms) servers =
    unless_known (find m.id servers)
      (init_type process typ ms ((m.id, session_of process typ m) ∷ servers))

abbrev and_then : Result Servers → (Servers → Result Servers) → Result Servers
and_then (ok servers) f = f servers
and_then (err e) f = err e
and_then panic f = panic
and_then stuck f = stuck

pub init_types : Bytes → Modules → Servers → Result Servers
unfolding init_type
init_types process [] servers = ok servers
init_types process ((typ, ms) ∷ rest) servers =
    and_then (init_type process typ ms servers) (init_types process rest)

-- OnInit
abbrev pub on_init : Bytes → Modules → Result Servers
on_init process modules = init_types process modules []

-- RegisterLocalClient
abbrev with_local : Bytes → Servers → Servers
with_local id [] = []
with_local id ((k, s) ∷ rest) =
    let later = with_local id rest in
    if same id k then (k, record s { has_local = true }) ∷ rest else (k, s) ∷ later

abbrev registered : Option ModuleSession → Bytes → Servers → Option Servers
registered none id servers = none
registered (some s) id servers = some (with_local id servers)

pub register_local_client : Bytes → Servers → Option Servers
register_local_client id servers = registered (find id servers) id servers

-- A function that chooses a server for a type and a hash.
abbrev pub Route : Type 0
Route = Bytes → Bytes → Option ModuleSession

-- GetServersByType, over the servers in the order of this range.
abbrev pub get_servers_by_type : Bytes → List ModuleSession → List ModuleSession
get_servers_by_type typ [] = []
get_servers_by_type typ (s ∷ servers) =
    let rest = get_servers_by_type typ servers in if same s.m_type typ then s ∷ rest else rest

abbrev pub at : {A : Type 0} → ℕ → List A → Option A
at n [] = none
at zero (a ∷ rest) = some a
at (suc n) (a ∷ rest) = at n rest

-- The default route of NewApp, with crc32.ChecksumIEEE and the servers in the order of its range.
pub default_route : (Bytes → ℕ) → List ModuleSession → Route
default_route checksum order typ hash =
    let servers = get_servers_by_type typ order in
    if length servers == 0 then none else at (checksum hash % length servers) servers

abbrev or_default : Option Route → Route → Route
or_default none default = default
or_default (some route) default = route

-- GetRouteServer: `type@id` goes to that server, everything else through the route of the type.
abbrev by_id :
    Bytes → Bytes → Servers → (Bytes → Option Route) → Route → Bytes → Option ModuleSession
by_id typ id servers routes default hash =
    if is_empty id then or_default (routes typ) default typ hash else find id servers

abbrev by_filter :
    List Bytes → Servers → (Bytes → Option Route) → Route → Bytes → Option ModuleSession
by_filter [] servers routes default hash = none
by_filter (typ ∷ id ∷ []) servers routes default hash = by_id typ id servers routes default hash
by_filter (typ ∷ rest) servers routes default hash = or_default (routes typ) default typ hash

pub get_route_server :
    Servers → (Bytes → Option Route) → Route → Bytes → Bytes → Option ModuleSession
get_route_server servers routes default filter hash =
    by_filter (split_at b'@' filter) servers routes default hash
