-- ===== src/App/Registers.antt =====
-- What OnInit registers.
use lodos.Base.{◌≡◌, true, false, some, List, [], ◌∷◌, ◌++◌, ◌↔◌}
use lodos.App.{ModuleSettings, Modules, ModuleSession, Servers, find, session_of}
use lodos.Io.Result.{Result}
use lodos.Io.Reader.{Bytes}

abbrev Listed : Type 0
Listed = Bytes × ModuleSettings

abbrev tagged : Bytes → List ModuleSettings → List Listed
tagged typ [] = []
tagged typ (m ∷ ms) = (typ, m) ∷ tagged typ ms

-- The settings, each with its type.
abbrev pub listed : Modules → List Listed
listed [] = []
listed ((typ, ms) ∷ rest) = tagged typ ms ++ listed rest

abbrev ids_of : List Listed → List Bytes
ids_of [] = []
ids_of ((typ, m) ∷ l) = m.id ∷ ids_of l

abbrev keys : Servers → List Bytes
keys [] = []
keys ((k, s) ∷ servers) = k ∷ keys servers

abbrev added : Bytes → List Listed → Servers → Servers
added process [] servers = servers
added process ((typ, m) ∷ l) servers = added process l ((m.id, session_of process typ m) ∷ servers)

-- Which remote clients a module has, by the process that it is to run in: in this one none; elsewhere that of
-- RabbitMQ where its settings name it, and that of Redis where they have a Redis with an address.
abbrev pub RemoteClients : Bytes → ModuleSettings → ModuleSession → Type 0
RemoteClients process m s =
    (m.process_id ≡ process → (s.has_remote ≡ false) × (s.has_redis ≡ false))
    × (¬ (m.process_id ≡ process)
        → (s.has_remote ≡ m.rabbitmq)
          × ((s.has_redis ≡ true) ↔ ((m.has_redis ≡ true) × ¬ (m.redis_uri ≡ []))))

-- A module is found under its id, with its type, without a local client, and with its remote clients.
abbrev pub Registered : Bytes → Servers → Listed → Type 0
Registered process servers (typ, m) =
    (s : ModuleSession) × (find m.id servers ≡ some s)
    × (s.id ≡ m.id)
    × (s.m_type ≡ typ)
    × (s.has_local ≡ false)
    × RemoteClients process m s
