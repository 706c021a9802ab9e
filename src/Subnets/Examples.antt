-- ===== src/Subnets/Examples.antt =====
-- A cluster whose install config cannot be read and one where all can, with an address of the API server
-- outside the services.
use netobserv_operator.Slices.Labels.Checks.{fc_texts}
use netobserv_operator.Base.{
  List, ℕ, Text, text, ◌≡◌, refl, true, ok, err, some, none, [], ◌∷◌, text_eq, Result, Option,
  if◌then◌else◌,
}
use netobserv_operator.Slices.Nets.{net_contains, nets_of, IpNet, Ip}
use netobserv_operator.Subnets.{
  NetworkConfig, add_api_server_ips, read_subnets, ip_to_cidr, read_network_operator_config,
  read_cluster_config, read_network_config, get_open_shift_subnets, Cluster,
}

abbrev address : ℕ → Ip
address n = record { is_v4 = true; number = n }

abbrev parse_service : Text → Result Text IpNet
parse_service t =
    if text_eq t (text "172.30.0.0/16")
    then ok (record { ip = address 2887647232; ones = 16; bits = 32 })
    else err (text "invalid")

abbrev parse_address : Text → Option Ip
parse_address t =
    if text_eq t (text "172.30.0.1")
    then some (address 2887647233)
    else if text_eq t (text "10.0.0.1")
    then some (address 167772161)
    else none

abbrev cluster : Cluster
cluster = record {
  has_cno = true;
  network = ok (record {
    cluster_network = text "10.128.0.0/14" ∷ [];
    service_network = text "172.30.0.0/16" ∷ [];
    auto_assign_cidrs = none;
  });
  cluster_config = err (text "forbidden");
  network_operator = ok none;
  api_server_ips = text "172.30.0.1" ∷ text "10.0.0.1" ∷ text "?" ∷ [];
  unmarshal = λ t. err (text "invalid");
  parse_cidr = parse_service;
  parse_ip = parse_address;
}

get_open_shift_subnets_test : fc_texts (get_open_shift_subnets cluster).0 ≡ (
    text "100.64.0.0/16"
    ∷ text "100.88.0.0/16"
    ∷ text "169.254.0.0/17"
    ∷ text "10.128.0.0/14"
    ∷ text "172.30.0.0/16"
    ∷ text "10.0.0.1/32"
    ∷ [])
unfolding get_open_shift_subnets read_subnets add_api_server_ips fc_texts read_network_config
    read_cluster_config read_network_operator_config ip_to_cidr nets_of net_contains text_eq text
get_open_shift_subnets_test = refl

abbrev service_network : NetworkConfig
service_network = record {
  cluster_network = text "10.128.0.0/14" ∷ [];
  service_network = text "172.30.0.0/16" ∷ [];
  auto_assign_cidrs = some [];
}

abbrev raw_config : Text
raw_config = text "machineNetwork"

abbrev unmarshal_machines : Text → Result Text (List Text)
unmarshal_machines t =
    if text_eq t raw_config then ok (text "10.1.0.0/16" ∷ []) else err (text "invalid")

abbrev readable : Cluster
readable = record {
  has_cno = true;
  network = ok service_network;
  cluster_config = ok ((text "install-config", raw_config) ∷ []);
  network_operator = ok none;
  api_server_ips = text "172.30.0.1" ∷ text "10.0.0.1" ∷ text "?" ∷ [];
  unmarshal = unmarshal_machines;
  parse_cidr = parse_service;
  parse_ip = parse_address;
}
