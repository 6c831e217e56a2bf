-- ===== src/Types.antt =====
-- pkg/tools/types/ip_types.go, mac.go and route.go: Go's addresses and those of the VPP API.
--
-- `Ip` is net.IP, a slice of bytes (nil is the empty one). `to4`, `ip_equal`, `cidr_mask` and
-- `mask_size` are the standard library's To4, IP.Equal, CIDRMask and IPMask.Size; a mask is held by
-- its size, and `uncanonical` is any mask that has none. The generated code of the VPP API is not in
-- the repository: `AddressUnion` has the two ways in which a union is filled and the zero value, and
-- its getters are the parameter `UnionApi`.
pub mod RoundTrip
pub mod Tests
use sdk_vpp.Prelude.{
  ℕ, zero, suc, ◌+◌, ◌-◌, ◌%◌, ◌≡◌, Bool, true, false, ◌&&◌, ◌||◌, List, [], ◌∷◌, ◌++◌, Option,
  none, some, length, take, drop, replicate, ltb, leb, ◌==◌, if◌then◌else◌,
}

abbrev pub Ip : Type 0
Ip = List ℕ

-- bytealg.Equal
unfoldable pub bytes_eq : Ip → Ip → Bool
bytes_eq [] [] = true
bytes_eq [] (y ∷ ys) = false
bytes_eq (x ∷ xs) [] = false
bytes_eq (x ∷ xs) (y ∷ ys) = (x == y) && bytes_eq xs ys

abbrev pub v4_in_v6_prefix : List ℕ
v4_in_v6_prefix = replicate 10 0 ++ 255 ∷ 255 ∷ []

-- To4 returns nil for what is no IPv4 address.
unfoldable pub to4 : Ip → Option Ip
unfolding bytes_eq
to4 ip =
    if length ip == 4
    then some ip
    else if (length ip == 16) && bytes_eq (take 12 ip) v4_in_v6_prefix
    then some (drop 12 ip)
    else none

-- x == nil
abbrev pub is_none {ℓ} : {A : Type ℓ} → Option A → Bool
is_none none = true
is_none (some a) = false

unfoldable pub is_v6 : Ip → Bool
is_v6 ip = is_none (to4 ip)

unfoldable pub ip_equal : Ip → Ip → Bool
unfolding bytes_eq
ip_equal ip x =
    if length ip == length x
    then bytes_eq ip x
    else if (length ip == 4) && (length x == 16)
    then bytes_eq (take 12 x) v4_in_v6_prefix && bytes_eq ip (drop 12 x)
    else if (length ip == 16) && (length x == 4)
    then bytes_eq (take 12 ip) v4_in_v6_prefix && bytes_eq (drop 12 ip) x
    else false

-- copy(a[:], xs) on a zeroed array of n bytes
unfoldable pub copy_array : ℕ → List ℕ → List ℕ
copy_array n xs = take n xs ++ replicate (n - length xs) 0

pub data AddressFamily : Type 0 where
  address_ip4 address_ip6 : AddressFamily

pub data AddressUnion : Type 0 where
  union_zero : AddressUnion
  union_ip4 union_ip6 : List ℕ → AddressUnion

pub record Address : Type 0 where
  pub af : AddressFamily
  pub un : AddressUnion

pub record Prefix : Type 0 where
  pub address : Address
  pub len : ℕ

pub data IpMask : Type 0 where
  mask : ℕ → ℕ → IpMask
  uncanonical : IpMask

pub record IpNet : Type 0 where
  pub ip : Ip
  pub net_mask : IpMask

unfoldable pub mask_size : IpMask → ℕ × ℕ
mask_size (mask ones bits) = (ones, bits)
mask_size uncanonical = (0, 0)

-- CIDRMask returns nil, which has no size, outside its range.
unfoldable pub cidr_mask : ℕ → ℕ → IpMask
cidr_mask ones bits =
    if ((bits == 32) || (bits == 128)) && leb ones bits then mask ones bits else uncanonical

-- The two branches of ToVppAddress, on what To4 returned.
unfoldable pub vpp_address : Ip → Option Ip → Address
unfolding copy_array
vpp_address addr none = record { af = address_ip6; un = union_ip6 (copy_array 16 addr) }
vpp_address addr (some v4) = record { af = address_ip4; un = union_ip4 (copy_array 4 v4) }

unfoldable pub to_vpp_address : Ip → Address
to_vpp_address addr = vpp_address addr (to4 addr)

-- ip_types.Prefix{}
abbrev pub zero_prefix : Prefix
zero_prefix = record { address = record { af = address_ip4; un = union_zero }; len = 0 }

unfoldable pub to_vpp_prefix : Option IpNet → Prefix
unfolding to_vpp_address mask_size
to_vpp_prefix none = zero_prefix
to_vpp_prefix (some p) = record {
  address = to_vpp_address p.ip;
  len = (mask_size p.net_mask).0 % 256;
}

-- AddressWithPrefix and Prefix are one type in the VPP API.
unfoldable pub to_vpp_address_with_prefix : Option IpNet → Prefix
unfolding to_vpp_prefix
to_vpp_address_with_prefix p = to_vpp_prefix p

-- GetIP4 and GetIP6 of the generated code return what the union was filled with.
pub record UnionApi : Type 0 where
  pub get_ip4 : AddressUnion → List ℕ
  pub get_ip6 : AddressUnion → List ℕ
  pub get_ip4_lem : (b : List ℕ) → get_ip4 (union_ip4 b) ≡ b
  pub get_ip6_lem : (b : List ℕ) → get_ip6 (union_ip6 b) ≡ b

unfoldable pub is_ip6 : AddressFamily → Bool
is_ip6 address_ip6 = true
is_ip6 address_ip4 = false

module _ (api : UnionApi) where
  unfoldable pub from_vpp_ip_address_union : AddressUnion → Bool → Ip
  from_vpp_ip_address_union un is_ipv6 = if is_ipv6 then api.get_ip6 un else api.get_ip4 un

  unfoldable pub from_vpp_address : Address → Ip
  unfolding from_vpp_ip_address_union is_ip6
  from_vpp_address addr = from_vpp_ip_address_union addr.un (is_ip6 addr.af)

  unfoldable pub from_vpp_prefix : Prefix → IpNet
  unfolding from_vpp_address cidr_mask is_ip6
  from_vpp_prefix p = record {
    ip = from_vpp_address p.address;
    net_mask = cidr_mask p.len (if is_ip6 p.address.af then 128 else 32);
  }

  unfoldable pub from_vpp_address_with_prefix : Prefix → IpNet
  unfolding from_vpp_prefix
  from_vpp_address_with_prefix p = from_vpp_prefix p

-- mac.go: six bytes of a hardware address
unfoldable pub to_vpp_mac_address : List ℕ → List ℕ
unfolding copy_array
to_vpp_mac_address hardware_addr = copy_array 6 hardware_addr

pub data FibProto : Type 0 where
  proto_ip4 proto_ip6 : FibProto

unfoldable pub is_v6_to_fib_proto : Bool → FibProto
is_v6_to_fib_proto is_ipv6 = if is_ipv6 then proto_ip6 else proto_ip4
