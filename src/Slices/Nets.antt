-- ===== src/Slices/Nets.antt =====
-- IP networks, net.IPNet with Contains and Mask.Size of Go's standard library, as
-- internal/controller/flp/slices.go uses them.
--
-- An address is the number of its bits, of an IPv4 address (To4) or of another; `ones` and `bits` are what
-- Mask.Size answers. A network that is written as ::ffff:a.b.c.d/n is one of IPv4 with a mask of 128 bits.
use netobserv_operator.Base.{
  List, [], ◌∷◌, Text, Result, ok, err, ◌++◌, refl, zero, suc, subst, Bool, true, false, not, ◌&&◌,
  ◌==◌, leb, ℕ, ◌+◌, ◌-◌, ◌*◌, ◌/◌, ◌^◌, ◌≤◌, ◌≡◌, sym, arith, if◌then◌else◌,
}
use native.Mathlib.Nat.{mul_assoc, div-div-eq-div-mul, pow-suc}

pub record Ip : Type 0 where
  pub is_v4 : Bool
  pub number : ℕ

pub record IpNet : Type 0 where
  pub ip : Ip
  pub ones : ℕ
  pub bits : ℕ

abbrev same : Bool → Bool → Bool
same true b = b
same false b = not b

-- The size of the blocks of addresses that a network divides the space into
abbrev block : IpNet → ℕ
block n = 2 ^ (n.bits - n.ones)

-- `n.Contains(ip)`
unfoldable pub net_contains : IpNet → Ip → Bool
net_contains n ip = same ip.is_v4 n.ip.is_v4 && ip.number / block n == n.ip.number / block n

-- The test for a network that is fully included in another
unfoldable pub covers : IpNet → IpNet → Bool
unfolding net_contains
covers other cidr = net_contains other cidr.ip && leb other.ones cidr.ones

abbrev pub net_of : Result Text IpNet → List IpNet
net_of (err e) = []
net_of (ok n) = n ∷ []

-- The networks of the texts that net.ParseCIDR takes
unfoldable pub nets_of : (Text → Result Text IpNet) → List Text → List IpNet
nets_of parse_cidr [] = []
nets_of parse_cidr (t ∷ ts) = net_of (parse_cidr t) ++ nets_of parse_cidr ts

-- A network of IPv4 with a mask that is not of IPv4, as of one that is written in IPv6
unfoldable pub is_mapped : IpNet → Bool
is_mapped n = not (n.bits == (if n.ip.is_v4 then 32 else 128))

pow_add : (m n : ℕ) → 2 ^ (m + n) ≡ 2 ^ m * 2 ^ n
pow_add m zero = let e : m + 0 ≡ m = omega arith in rw e (omega arith)
pow_add m (suc n) =
    let e : m + suc n ≡ suc (m + n) = omega arith in
    rw (e, pow-suc 2 (m + n), pow-suc 2 n, pow_add m n) (mul_assoc (2 ^ m) (2 ^ n) 2)

div_pow : (x i j : ℕ) → x / 2 ^ (i + j) ≡ x / 2 ^ i / 2 ^ j
div_pow x i j = rw (pow_add i j) (sym (div-div-eq-div-mul x (2 ^ i) (2 ^ j)))

coarser : (x y i j : ℕ) → x / 2 ^ i ≡ y / 2 ^ i → x / 2 ^ (i + j) ≡ y / 2 ^ (i + j)
coarser x y i j e = rw (div_pow x i j, div_pow y i j, e) refl

coarser_le : (x y i k : ℕ) → i ≤ k → x / 2 ^ i ≡ y / 2 ^ i → x / 2 ^ k ≡ y / 2 ^ k
coarser_le x y i k h e =
    subst (λ n. x / 2 ^ n ≡ y / 2 ^ n) (omega (arith, h)) (coarser x y i (k - i) e)

-- What is in a network is in those that cover it.
pub net_contains-covers :
    (other cidr : IpNet) (ip : Ip)
    → is_mapped other ≡ false
    → is_mapped cidr ≡ false
    → covers other cidr ≡ true
    → net_contains cidr ip ≡ true
    → net_contains other ip ≡ true
unfolding covers net_contains is_mapped
net_contains-covers other cidr ip po pc h e =
    let finer : cidr.bits - cidr.ones ≤ other.bits - other.ones = ground (arith, po, pc, h, e) in
    let q =
      coarser_le ip.number cidr.ip.number (cidr.bits - cidr.ones) (other.bits - other.ones) finer
        (ground (arith, e)) in
    ground (arith, h, e, q)
