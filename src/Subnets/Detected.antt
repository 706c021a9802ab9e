-- ===== src/Subnets/Detected.antt =====
-- The labels of a cluster all of whose configuration can be read.
use netobserv_operator.Base.{
  List, [], ◌∷◌, ◌++◌, any, Option, none, some, Text, text, if◌then◌else◌,
}
use netobserv_operator.Slices.Labels.{FcSubnetLabel}
use netobserv_operator.Slices.Nets.{IpNet, Ip, net_contains}
use netobserv_operator.Subnets.{Cluster}

-- The network of one address: with 32 bits for IPv4 and 128 for IPv6, unless a known network has it
abbrev host_cidr : List IpNet → Text → Option Ip → List Text
host_cidr known t none = []
host_cidr known t (some ip) =
    if any (λ n. net_contains n ip) known
    then []
    else if ip.is_v4
    then (t ++ text "/32") ∷ []
    else (t ++ text "/128") ∷ []

unfoldable pub host_cidrs : Cluster → List IpNet → List Text → List Text
unfolding host_cidr text
host_cidrs c known [] = []
host_cidrs c known (t ∷ ts) = host_cidr known t (c.parse_ip t) ++ host_cidrs c known ts

abbrev pub label : Text → List Text → FcSubnetLabel
label name cidrs = record { cidrs = cidrs; name = name }

abbrev pub label_if_any : Text → List Text → List FcSubnetLabel
label_if_any name [] = []
label_if_any name (c ∷ cs) = label name (c ∷ cs) ∷ []
