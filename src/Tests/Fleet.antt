-- ===== src/Tests/Fleet.antt =====
-- A connector with one gateway `g1`, one Agent and one node, and what its surroundings answer.
use secure_connect_connector.Package.{Connector, Libraries, Surroundings}
use Prim.Native.String.{◌++◌}
use secure_connect_connector.AgentDirectory.{Agent, AgentDirectory, AgentsJsonEntry, Network}
use secure_connect_connector.Crypto.{Library}
use secure_connect_connector.DnsCache.{timed_out}
use secure_connect_connector.Dto.{
  ConnectorHeartbeatResponse, Entitlement, HeartbeatNode, PolicyBundle,
}
use secure_connect_connector.GatewayEnd.{Disk, GatewayEndQueue, GatewayEndReport, Serde, renamed}
use secure_connect_connector.Heartbeat.{HttpResponse, Parsers}
use secure_connect_connector.Policy.{PolicyState}
use secure_connect_connector.TunnelManager.{TunnelManager, WireGuard, done, v4, write_to_network}
use secure_connect_connector.Tests.Data.{internal_ip, no_names, two_flows, web_rule}
use secure_connect_connector.Base.{List, Option, [], false, none, some, suc, true, zero, ℕ, ◌∷◌}

abbrev pub zeros : ℕ → List ℕ
zeros zero = []
zeros (suc n) = 0 ∷ zeros n

-- Every key is 32 zero bytes, and every signature 64.
abbrev pub crypto : Library
crypto = record {
  hex_decode = λ _. some (zeros 32);
  base64_decode = λ _. some (zeros 64);
  is_ed25519_key = λ _. true;
  ed25519_verifies = λ _ _ _. true;
  ecdsa_p256_verifies = λ _ _ _. false;
}

abbrev pub node : HeartbeatNode
node = record { node_id = "n1"; ip_address = "10.0.0.10"; wireguard_public_key = some "pk" }

abbrev pub entitled : Entitlement
entitled = record { user_id = "u1"; device_public_key = some "k1" }

abbrev pub bundle : PolicyBundle
bundle = record {
  gateway_id = "g1";
  location = "l";
  hostname = "h";
  access_mode = "m";
  endpoints = [];
  port_rules = some (web_rule ∷ []);
  entitlement_list = entitled ∷ [];
}

abbrev pub fresh_package : ConnectorHeartbeatResponse
fresh_package = record {
  connector_id = "c1";
  connector_public_key = some "own";
  connector_virtual_ip = some "10.9.0.1";
  generated_at = "0";
  expires_at = "later";
  nonce = "n";
  policy_bundles = bundle ∷ [];
  node_list = node ∷ [];
}

abbrev pub parsers : Parsers
parsers = record {
  reason_of = λ _. none;
  heartbeat_response = λ _. some fresh_package;
  deregister_response = λ _. some (record {
    connector_id = "c1";
    connector_public_key = "own";
    status = "DEREGISTERED";
    generated_at = "0";
    expires_at = "later";
    nonce = "n";
  });
  permitted_key = λ _. some "hex";
  parse_from_rfc3339 = λ _. some 9;
}

abbrev pub agrees : HttpResponse
agrees = record { status = 200; signature_header = some (some "sig"); body = some [] }

abbrev pub network : Network
network = record {
  agents_json = some agrees;
  registry = λ _. some agrees;
  heartbeat_at = λ _ _. some agrees;
  deregister_at = λ _ _. some agrees;
}

abbrev pub agent : Agent
agent = record { ip_address = "10.1.1.1"; base_url = "https://10.1.1.1" }

abbrev pub entry : AgentsJsonEntry
entry = record { ip_address = " 10.1.1.1"; status = "Operational" }

abbrev pub directory : AgentDirectory
directory = record {
  base_url_for = λ ip. "https://" ++ ip;
  parse_agents_json = λ _. some (entry ∷ []);
  registry_base_url = "https://registry/";
  state = record { last_listed = []; last_answered = none };
}

-- A `Tunn` is the time since its last handshake, plus one, or 0 before the first.
abbrev handshake_age : ℕ → Option ℕ
handshake_age zero = none
handshake_age (suc n) = some n

abbrev pub wireguard : WireGuard
wireguard = record {
  Tunn = ℕ;
  new_tunn = λ _ _. 0;
  format_handshake_initiation = λ t. (t, write_to_network (1 ∷ []));
  decapsulate = λ t _ _. (t, done);
  encapsulate = λ t _. (t, done);
  update_timers = λ t. (t, done);
  time_since_last_handshake = handshake_age;
  base64_decode = λ _. some (zeros 32);
  parse_ip = λ _. some (v4 internal_ip);
}

-- The bytes are the reports themselves.
abbrev pub serde : Serde
serde = record {
  Bytes = List GatewayEndReport;
  to_vec = λ reports. reports;
  from_slice = λ reports. some reports;
}

abbrev pub libraries : Libraries
libraries = record {
  wireguard = wireguard;
  crypto = crypto;
  parsers = parsers;
  serde = serde;
  digest = λ _. "sha";
  error_text = λ _. "expired";
}

abbrev pub around : Surroundings (List GatewayEndReport)
around = record {
  network = network;
  utc_now = 7;
  now_ms = 7000;
  instant = 7;
  pending_saving = renamed;
  acknowledge_saving = renamed;
  enqueue_saving = renamed;
  lookup = λ _. timed_out;
  new_report_id = λ _. "r";
}

abbrev pub in_force : PolicyState
in_force = record {
  connector_id = "c1";
  generated_at = "0";
  expires_at = "later";
  policy_bundles = bundle ∷ [];
  node_list = node ∷ [];
}

abbrev pub no_tunnels : TunnelManager wireguard
no_tunnels = record { tunnels = []; next_index = 0 }

abbrev pub no_file : Disk (List GatewayEndReport)
no_file = record { queue_file = none; tmp_file = none }

abbrev pub no_reports : GatewayEndQueue (List GatewayEndReport)
no_reports = record { disk = no_file; reports = [] }

abbrev pub connector : Connector libraries
connector = record {
  directory = directory;
  policy_store = record { state = some in_force };
  audit_log = [];
  tunnel_manager = no_tunnels;
  flow_table = two_flows;
  dns_cache = no_names;
  admission_pollers = record { connector_id = none; tasks = [] };
  gateway_end_queue = no_reports;
}
