-- ===== src/Daemon.antt =====
-- cmd/neutrinod/main.go, internal/config/config.go, internal/interface/web-socket/server.go and the
-- middleware, and the connection of internal/infrastructure/storage/db/pg/db_service.go: how the daemon
-- is configured, put together and stopped.
pub mod Middleware
pub mod Launching
pub mod Stopping
use neutrino_elements.Prelude.{
  ℕ, Bool, true, false, ◌&&◌, ◌||◌, not, List, [], ◌∷◌, ◌++◌, Option, none, some, Result, ok, err,
  Error, codes, bytes_eq, if◌then◌else◌, ◌>>=◌,
}
use neutrino_elements.Protocol.Network.{Magic, magic_regtest, genesis_checkpoint}
use neutrino_elements.Node.Peers.{PeersState}
use neutrino_elements.Node.Service.{new_node}
use neutrino_elements.Client.Config.{State, text_at}

-- The defaults of `LoadConfig` for texts; `regtest` is the name that go-elements gives the network.
abbrev pub defaults : List ℕ → State
defaults regtest =
    (codes "NEUTRINOD_URL", codes "localhost:8000")
    ∷ (codes "EXPLORER_URL", codes "http://localhost:3001")
    ∷ (codes "PEER_URL", codes "localhost:18886")
    ∷ (codes "NETWORK", regtest)
    ∷ (codes "DB_USER", codes "root")
    ∷ (codes "DB_PASS", codes "secret")
    ∷ (codes "DB_HOST", codes "127.0.0.1")
    ∷ (codes "DB_PORT", codes "5432")
    ∷ (codes "DB_NAME", codes "neutrino-elements")
    ∷ (codes "DB_MIGRATION_PATH", codes "file://internal/infrastructure/storage/db/pg/migration")
    ∷ []

-- The names that go-elements gives its networks.
pub record NetworkNames : Type 0 where
  pub liquid : List ℕ
  pub testnet : List ℕ
  pub regtest : List ℕ

-- The variables of the environment that are set and not empty, with names as viper makes them of a
-- prefix and a key.
abbrev pub Environment : Type 0
Environment = List ℕ → Option (List ℕ)

-- `GetString`: viper takes the variable of the environment, and else the default.
unfoldable pub get_string : NetworkNames → Environment → List ℕ → List ℕ
get_string names env key = elim (env (codes "NEUTRINO_ELEMENTS_" ++ key)) [
  | some v ↦ v
  | none ↦ text_at key (defaults names.regtest)
]

unfoldable pub load_config : NetworkNames → Environment → Result (Unit {0})
load_config names env =
    let network_name = get_string names env (codes "NETWORK") in
    if not (bytes_eq network_name names.liquid)
      && (not (bytes_eq network_name names.testnet) && not (bytes_eq network_name names.regtest))
    then err Error.invalid
    else ok tt

pub record DbConfig : Type 0 where
  pub db_user : List ℕ
  pub db_password : List ℕ
  pub db_host : List ℕ
  -- as fmt prints the port
  pub db_port : List ℕ
  pub db_name : List ℕ
  pub migration_source_url : List ℕ

-- `insecureDataSourceStr`.
unfoldable pub insecure_data_source_str : DbConfig → List ℕ
insecure_data_source_str c =
    codes "postgresql://"
    ++ (c.db_user
        ++ (codes ":"
            ++ (c.db_password
                ++ (codes "@"
                    ++ (c.db_host
                        ++ (codes ":"
                            ++ (c.db_port
                                ++ (codes "/" ++ (c.db_name ++ codes "?sslmode=disable")))))))))

-- What the migration returns; `no_change` is ErrNoChange.
pub data Migration : Type 0 where
  migrated no_change broken : Migration

-- `migrateDb` behind its preparation.
unfoldable pub migrate_db : Result Migration → Result (Unit {0})
migrate_db (err e) = err e
migrate_db (ok Migration.migrated) = ok tt
migrate_db (ok Migration.no_change) = ok tt
migrate_db (ok Migration.broken) = err Error.external

-- `NewDbService`, over the driver: sqlx.Connect, and the migration from a source on a database.
unfoldable pub new_db_service :
    {D : Type 0} → (List ℕ → Result D) → (D → List ℕ → Result Migration) → DbConfig → Result D
unfolding insecure_data_source_str migrate_db
new_db_service connect migration c = connect (insecure_data_source_str c) >>= λ db.
    migrate_db (migration db c.migration_source_url) >>= λ _. ok db

-- The settings of `main`, where fmt prints the port that viper reads.
unfoldable pub db_config : NetworkNames → Environment → (List ℕ → List ℕ) → DbConfig
unfolding get_string
db_config names env print_port = record {
  db_user = get_string names env (codes "DB_USER");
  db_password = get_string names env (codes "DB_PASS");
  db_host = get_string names env (codes "DB_HOST");
  db_port = print_port (get_string names env (codes "DB_PORT"));
  db_name = get_string names env (codes "DB_NAME");
  migration_source_url = get_string names env (codes "DB_MIGRATION_PATH");
}

-- What `main` has put together when `Start` has made its scanner: the database, the node and the hash
-- of the first block that the scanner is given.
pub record Launch (D : Type 0) : Type 0 where
  pub database : D
  pub magic : Magic
  pub peers : PeersState
  pub genesis : List ℕ

-- The text that `Start` makes the hash of the scanner's first block of.
abbrev pub scanner_genesis : List ℕ
scanner_genesis = genesis_checkpoint magic_regtest

-- `main` up to `Start`, and `Start` up to `scanner.New`. An error is fatal.
unfoldable pub launch :
    {D : Type 0}
    → NetworkNames
    → Environment
    → (List ℕ → List ℕ)
    → (List ℕ → Result D)
    → (D → List ℕ → Result Migration)
    → Result (Launch D)
launch names env print_port connect migration = load_config names env >>= λ _.
    new_db_service connect migration (db_config names env print_port) >>= λ db.
    new_node (get_string names env (codes "NETWORK")) >>= λ node.
    ok (record { database = db; magic = node.0; peers = node.1; genesis = scanner_genesis })

-- The goroutines that a stop has to wait for: a channel without a buffer is received from by one that
-- runs, and else the send waits for ever.
pub record Goroutines : Type 0 where
  -- `handleSubscribers` and `handleOnChainNotifications` of the web socket handler
  pub ws_subscribers : Bool
  pub ws_notifications : Bool
  -- `handleOnChainEvents` and `handleSubscribers` of the notification service
  pub on_chain_events : Bool
  pub service_subscribers : Bool

pub data Stopped : Type 0 where
  ws_subscribers_stopped ws_notifications_stopped : Stopped
  on_chain_events_stopped service_subscribers_stopped : Stopped
  scanner_stopped node_stopped error_channel_closed : Stopped

-- A send to the quit channel of a goroutine, and what comes after it.
unfoldable pub send_quit : Bool → Stopped → List Stopped → List Stopped
send_quit runs stopped later = if runs then stopped ∷ later else []

-- `Stop` of the notification service, and what comes after it.
unfoldable pub stop_notification_service : Goroutines → List Stopped → List Stopped
unfolding send_quit
stop_notification_service g later =
    send_quit g.on_chain_events on_chain_events_stopped
      (send_quit g.service_subscribers service_subscribers_stopped later)

-- `Stop` of the web socket handler, and what comes after it.
unfoldable pub stop_handler : Goroutines → List Stopped → List Stopped
unfolding send_quit stop_notification_service
stop_handler g later =
    send_quit g.ws_subscribers ws_subscribers_stopped
      (send_quit g.ws_notifications ws_notifications_stopped (stop_notification_service g later))

-- The deferred function of the server's shutdown.
unfoldable pub shutdown : Goroutines → List Stopped
unfolding stop_handler
shutdown g = stop_handler g (scanner_stopped ∷ node_stopped ∷ error_channel_closed ∷ [])
