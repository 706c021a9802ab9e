-- ===== src/Subnets.antt =====
-- internal/controller/flp/detect_subnets.go, which finds the subnets of an OpenShift cluster, with IPToCIDR
-- of internal/pkg/helper/ip.go.
--
-- What the API server answers to the three reads, the parsers of Go's standard library and the reading of
-- the install config by yaml.v2 are parameters. An absent list is empty.
pub mod Detected
mod Examples
use netobserv_operator.Base.{
  Bool, true, false, not, ◌||◌, Option, none, some, List, [], ◌∷◌, ◌++◌, any, Text, text, text_eq,
  Result, ok, err, load, Text-discrete, if◌then◌else◌,
}
use netobserv_operator.Slices.Labels.{FcSubnetLabel}
use netobserv_operator.Slices.Nets.{nets_of, IpNet, Ip, net_contains}

-- The Network of config.openshift.io
pub record NetworkConfig : Type 0 where
  pub cluster_network : List Text  -- the CIDRs
  pub service_network : List Text
  pub auto_assign_cidrs : Option (List Text)  -- of ExternalIP, nil without it

-- OVNKubernetesConfig of the Network of operator.openshift.io
pub record OvnKubernetesConfig : Type 0 where
  pub v4_internal_subnet : Text
  pub internal_transit_switch_subnet : Option Text  -- of IPv4, nil without it
  pub internal_masquerade_subnet : Option Text  -- of GatewayConfig, nil without it

-- What the program takes from outside
pub record Cluster : Type 0 where
  pub has_cno : Bool
  pub network : Result Text NetworkConfig
  pub cluster_config : Result Text (List (Text × Text))  -- the data of the config map
  pub network_operator : Result Text (Option OvnKubernetesConfig)
  pub api_server_ips : List Text
  pub unmarshal : Text → Result Text (List Text)  -- the machine networks of an install config
  pub parse_cidr : Text → Result Text IpNet
  pub parse_ip : Text → Option Ip

-- The error that wraps another, and the text before it
abbrev wrapped_by {ℓ} : {A : Type ℓ} → Text → Text → Result Text A
wrapped_by message e = err (message ++ e)

pub record Networks : Type 0 where
  pub pods : List Text
  pub services : List Text
  pub ext_ips : List Text

abbrev no_networks : Networks
no_networks = record { pods = []; services = []; ext_ips = [] }

abbrev list_or_empty : Option (List Text) → List Text
list_or_empty none = []
list_or_empty (some l) = l

unfoldable pub read_network_config : Cluster → Result Text Networks
unfolding text
read_network_config c = elim c.network [
  | err e ↦ wrapped_by (text "can't get Network (config) information: ") e
  | ok n ↦ ok (record {
    pods = n.cluster_network;
    services = n.service_network;
    ext_ips = list_or_empty n.auto_assign_cidrs;
  })
]

abbrev machines_of : Cluster → Option Text → Result Text (List Text)
unfolding text
machines_of c none =
    err (text "can't find key \"install-config\" in \"cluster-config-v1\" ConfigMap")
machines_of c (some raw_config) = elim (c.unmarshal raw_config) [
  | err e ↦ wrapped_by (text "can't deserialize content of \"cluster-config-v1\" ConfigMap: ") e
  | ok cidrs ↦ ok cidrs
]

unfoldable pub read_machine_from_config : Cluster → List (Text × Text) → Result Text (List Text)
unfolding text machines_of
read_machine_from_config c data' = machines_of c (load Text-discrete (text "install-config") data')

unfoldable pub read_cluster_config : Cluster → Result Text (List Text)
unfolding text
read_cluster_config c = elim c.cluster_config [
  | err e ↦ wrapped_by (text "can't read \"cluster-config-v1\" ConfigMap: ") e
  | ok data' ↦ read_machine_from_config c data'
]

abbrev non_empty_or : Text → Text → Text
non_empty_or default [] = default
non_empty_or default (b ∷ s) = b ∷ s

abbrev given_or : Text → Option Text → Text
given_or default none = default
given_or default (some s) = non_empty_or default s

abbrev ovn_subnets : Option OvnKubernetesConfig → List Text
unfolding text
ovn_subnets none = text "100.64.0.0/16" ∷ text "100.88.0.0/16" ∷ text "169.254.0.0/17" ∷ []
ovn_subnets (some o) =
    non_empty_or (text "100.64.0.0/16") o.v4_internal_subnet
    ∷ given_or (text "100.88.0.0/16") o.internal_transit_switch_subnet
    ∷ given_or (text "169.254.0.0/17") o.internal_masquerade_subnet
    ∷ []

unfoldable pub read_network_operator_config : Cluster → Result Text (List Text)
unfolding text ovn_subnets
read_network_operator_config c = elim c.network_operator [
  | err e ↦ wrapped_by (text "can't get Network (operator) information: ") e
  | ok o ↦ ok (ovn_subnets o)
]

abbrev with_length : Text → Option Ip → Text
unfolding text
with_length t none = []
with_length t (some ip) = if ip.is_v4 then t ++ text "/32" else t ++ text "/128"

unfoldable pub ip_to_cidr : Cluster → Text → Text
unfolding with_length
ip_to_cidr c t = with_length t (c.parse_ip t)

abbrev pub is_covered_by : List IpNet → Ip → Bool
is_covered_by nets ip = any (λ n. net_contains n ip) nets

abbrev pub with_ip : Cluster → List IpNet → Text → Option Ip → List Text → List Text
with_ip c nets t none services = services
with_ip c nets t (some ip) services =
    if is_covered_by nets ip then services else services ++ (ip_to_cidr c t ∷ [])

-- The services with the addresses of the API server that no network has
unfoldable pub add_api_server_ips : Cluster → List IpNet → List Text → List Text → List Text
add_api_server_ips c nets [] services = services
add_api_server_ips c nets (t ∷ ts) services =
    add_api_server_ips c nets ts (with_ip c nets t (c.parse_ip t) services)

abbrev pub value_or {ℓ} : {A : Type ℓ} → A → Result Text A → A
value_or default (err e) = default
value_or default (ok a) = a

abbrev errors_of {ℓ} : {A : Type ℓ} → Result Text A → List Text
errors_of (err e) = e ∷ []
errors_of (ok a) = []

abbrev labelled : Text → List Text → List FcSubnetLabel
labelled name [] = []
labelled name (c ∷ cs) = record { cidrs = c ∷ cs; name = name } ∷ []

-- The networks of services and machines that are known before the API server
abbrev pub svc_machine_cidrs : Cluster → List IpNet
svc_machine_cidrs c =
    nets_of c.parse_cidr (value_or no_networks (read_network_config c)).services
    ++ nets_of c.parse_cidr (value_or [] (read_cluster_config c))

-- The subnets, and the errors that are joined, with the network operator
unfoldable pub read_subnets : Cluster → List FcSubnetLabel × List Text
unfolding text
read_subnets c =
    let network = read_network_config c in
    let known = value_or no_networks network in
    let cluster_machines = read_cluster_config c in
    let services = add_api_server_ips c (svc_machine_cidrs c) c.api_server_ips known.services in
    let more_machines = read_network_operator_config c in
    let machines = value_or [] cluster_machines ++ value_or [] more_machines in
    (
      labelled (text "Machines") machines
          ++ (labelled (text "Pods") known.pods
              ++ (labelled (text "Services") services
                  ++ labelled (text "EXT:ExternalIP") known.ext_ips)),
      errors_of network ++ (errors_of cluster_machines ++ errors_of more_machines),
    )

unfoldable pub get_open_shift_subnets : Cluster → List FcSubnetLabel × List Text
get_open_shift_subnets c = if c.has_cno then read_subnets c else ([], [])
