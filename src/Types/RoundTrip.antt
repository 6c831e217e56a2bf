-- ===== src/Types/RoundTrip.antt =====
-- An address or a prefix that is handed to VPP and read back is the same one.
use mathlib.Core.List.{append-nil}
use sdk_vpp.Prelude.{
  ℕ, ◌-◌, ◌≤◌, ◌≡◌, refl, ◌⊎◌, ◌≢◌, inl, inr, true, false, List, [], ◌∷◌, Option, none, some,
  length, take, take-length, drop, length-drop, ◌==◌, arith, Bool-cases, ==_iff, if◌then◌else◌,
}
use sdk_vpp.Types.{
  Ip, bytes_eq, to4, ip_equal, copy_array, IpNet, mask, UnionApi, to_vpp_address, vpp_address,
  to_vpp_prefix, from_vpp_address, from_vpp_prefix, is_v6, v4_in_v6_prefix,
}

bytes_eq_refl : (xs : Ip) → bytes_eq xs xs ≡ true
unfolding bytes_eq
bytes_eq_refl [] = refl
bytes_eq_refl (x ∷ xs) = ground (arith, bytes_eq_refl xs)

copy_array_exact : (n : ℕ) (xs : List ℕ) → length xs ≡ n → copy_array n xs ≡ xs
unfolding copy_array
copy_array_exact n xs h =
    let rest : n - length xs ≡ 0 = omega arith in rw (rest, take-length n xs h) (append-nil xs)

pub ip_equal_refl : (ip : Ip) → ip_equal ip ip ≡ true
unfolding ip_equal
ip_equal_refl ip = ground (arith, bytes_eq_refl ip)

-- What To4 returns: nil, the four bytes themselves, or the tail of a mapped address.
data To4View (ip : Ip) : Option Ip → Type 0 where
  is_four : length ip ≡ 4 → To4View ip (some ip)
  is_mapped :
      length ip ≡ 16 → bytes_eq (take 12 ip) v4_in_v6_prefix ≡ true → To4View ip (some (drop 12 ip))
  is_other : length ip ≢ 4 → To4View ip none

four_false : {n : ℕ} → (n == 4) ≡ false → n ≢ 4
four_false h = ground arith

to4-To4View : (ip : Ip) → To4View ip (to4 ip)
unfolding to4
to4-To4View ip = elim (Bool-cases (length ip == 4)) [
  | inl four ↦ rw four (is_four ((==_iff _ _).0 four))
  | inr not_four ↦ rw not_four (elim (Bool-cases (length ip == 16)) [
    | inr short ↦ rw short (is_other (four_false not_four))
    | inl long ↦ rw long (elim (Bool-cases (bytes_eq (take 12 ip) v4_in_v6_prefix)) [
      | inl mapped ↦ rw mapped (is_mapped ((==_iff _ _).0 long) mapped)
      | inr plain ↦ rw plain (is_other (four_false not_four))
    ])
  ])
]

-- The width of the address family under which VPP holds an address.
unfoldable pub family_bits : Ip → ℕ
unfolding is_v6
family_bits ip = if is_v6 ip then 128 else 32

abbrev pub net : Ip → ℕ → IpNet
net ip ones = record { ip = ip; net_mask = mask ones (family_bits ip) }

module _ (api : UnionApi) where
  address_view :
      (ip : Ip) (o : Option Ip)
      → To4View ip o
      → (length ip ≡ 4) ⊎ (length ip ≡ 16)
      → ip_equal (from_vpp_address api (vpp_address ip o)) ip ≡ true
  unfolding vpp_address from_vpp_address
  address_view ip o (is_four h) size =
      rw (api.get_ip4_lem (copy_array 4 ip), copy_array_exact 4 ip h) (ip_equal_refl ip)
  address_view ip o (is_mapped h m) size =
      let h' : length (drop 12 ip) ≡ 4 = omega (arith, length-drop 12 ip) in
      rw (api.get_ip4_lem (copy_array 4 (drop 12 ip)), copy_array_exact 4 (drop 12 ip) h')
        (unfold ip_equal in rw (h', h, m) (bytes_eq_refl (drop 12 ip)))
  address_view ip o (is_other h) (inl four) = absurd (h four)
  address_view ip o (is_other h) (inr long) =
      rw (api.get_ip6_lem (copy_array 16 ip), copy_array_exact 16 ip long) (ip_equal_refl ip)

  -- An address of four or sixteen bytes that is converted to the VPP API and back is equal to itself,
  -- as net.IP.Equal compares them (an IPv4 address in sixteen bytes comes back in four).
  from_vpp_address-to_vpp_address :
      (ip : Ip)
      → (length ip ≡ 4) ⊎ (length ip ≡ 16)
      → ip_equal (from_vpp_address api (to_vpp_address ip)) ip ≡ true
  unfolding to_vpp_address
  from_vpp_address-to_vpp_address ip size = address_view ip (to4 ip) (to4-To4View ip) size

  mask_view :
      (ip : Ip) (ones : ℕ) (o : Option Ip)
      → to4 ip ≡ o
      → ones ≤ family_bits ip
      → (from_vpp_prefix api (to_vpp_prefix (some (net ip ones)))).net_mask
        ≡ mask ones (family_bits ip)
  unfolding to_vpp_prefix from_vpp_prefix to_vpp_address family_bits vpp_address
  mask_view ip ones none e fits = rw (e, family_bits, is_v6, vpp_address) (ground arith)
  mask_view ip ones (some v4) e fits = rw (e, family_bits, is_v6, vpp_address) (ground arith)

  -- A prefix with an address of four or sixteen bytes and a length that fits the family under which VPP
  -- holds it comes back from the VPP API with an equal address and with the same mask.
  pub from_vpp_prefix-to_vpp_prefix :
      (ip : Ip) (ones : ℕ)
      → (length ip ≡ 4) ⊎ (length ip ≡ 16)
      → ones ≤ family_bits ip
      → (ip_equal (from_vpp_prefix api (to_vpp_prefix (some (net ip ones)))).ip ip ≡ true)
        × ((from_vpp_prefix api (to_vpp_prefix (some (net ip ones)))).net_mask
            ≡ mask ones (family_bits ip))
  unfolding to_vpp_prefix from_vpp_prefix
  from_vpp_prefix-to_vpp_prefix ip ones size fits =
      (from_vpp_address-to_vpp_address ip size, mask_view ip ones (to4 ip) refl fits)
