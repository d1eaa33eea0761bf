-- ===== src/Runs/Daemons.antt =====
-- Runs of cmd/neutrinod.
use neutrino_elements.Prelude.{
  ℕ, ◌≡◌, ◌≢◌, refl, Bool, true, false, List, [], ◌∷◌, none, some, Result, ok, err, Error, All,
  codes, bytes_eq, if◌then◌else◌,
}
use neutrino_elements.Protocol.VarInt.{ℤ}
use neutrino_elements.Protocol.Network.{magic_liquid, network_magic, genesis_checkpoint}
use neutrino_elements.Scanner.Requests.{EventType}
use neutrino_elements.Scanner.Descriptor.{watch_descriptor_wallet}
use neutrino_elements.Application.{
  Subscriber, NotificationService, handle_subscribers, handle_subscriber,
}
use neutrino_elements.Node.Service.{new_node}
use neutrino_elements.Daemon.{
  NetworkNames, Environment, Migration, Launch, Goroutines, launch, get_string, load_config,
  new_db_service, migrate_db, shutdown,
}
use neutrino_elements.Daemon.Launching.{launch_genesis}
use neutrino_elements.Daemon.Stopping.{IsBefore, shutdown-failed}

abbrev names : NetworkNames
names = record { liquid = codes "liquid"; testnet = codes "testnet"; regtest = codes "regtest" }

-- The variable of the network is set.
abbrev environment : Environment
environment key =
    if bytes_eq key (codes "NEUTRINO_ELEMENTS_NETWORK") then some (codes "liquid") else none

abbrev launched : Launch (List ℕ)
launched = record {
  database = [];
  magic = magic_liquid;
  peers = record { peers = []; peers_pong_ch = [] };
  genesis = codes "00902a6b70c2ca83b5d9c815d96a0e2f4202179316970d14ea1847dae5b1ca21";
}

is_liquid : get_string names environment (codes "NETWORK") ≡ codes "liquid"
unfolding get_string bytes_eq
is_liquid = refl

not_regtest : get_string names environment (codes "NETWORK") ≢ codes "regtest"
not_regtest h = let e : codes "liquid" ≡ codes "regtest" = rw (← is_liquid) h in absurd (cc)

launch_genesis_example :
    (network_magic (get_string names environment (codes "NETWORK")) ≡ ok magic_liquid)
    × (launched.genesis ≢ genesis_checkpoint magic_liquid)
unfolding launch load_config get_string bytes_eq new_db_service migrate_db new_node network_magic
    genesis_checkpoint
launch_genesis_example =
    launch_genesis names environment (λ port. port) (λ source. ok [])
      (λ db source. ok Migration.no_change) launched refl not_regtest

abbrev failing : Subscriber
failing = record {
  id = 1;
  block_height = ℤ.pos 8;
  events = EventType.unspent_utxo ∷ [];
  wallet_descriptor = [];
}

abbrev parse : List ℕ → Result (List ℕ)
parse desc = err Error.external

abbrev ranged : List ℕ → Bool
ranged wallet = true

abbrev no_scripts : Bool → List ℕ → Result (List (List ℕ))
no_scripts r wallet = ok []

abbrev service : NotificationService
service = record { subscribers = []; queue = []; receiving = true }

abbrev goroutines : Goroutines
goroutines = record {
  ws_subscribers = true;
  ws_notifications = true;
  on_chain_events = true;
  service_subscribers = false;
}

shutdown-failed_example : All IsBefore (shutdown goroutines)
unfolding handle_subscribers handle_subscriber watch_descriptor_wallet
shutdown-failed_example =
    shutdown-failed parse ranged no_scripts failing [] service Error.external [] goroutines refl
      refl refl
