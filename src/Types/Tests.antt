-- ===== src/Types/Tests.antt =====
-- Instances of the round trips of addresses, and runs.
use sdk_vpp.Prelude.{◌≡◌, refl, inl, true, ◌∷◌, arith, ◌≤◌}
use sdk_vpp.Types.{
  Ip, ip_equal, mask, to_vpp_address, from_vpp_address, to_vpp_prefix, from_vpp_prefix, to4,
  vpp_address, is_v6,
}
use sdk_vpp.Prelude.{some}
use sdk_vpp.Samples.{unions, ten}
use sdk_vpp.Types.RoundTrip.{from_vpp_prefix-to_vpp_prefix, net, family_bits}

-- 10.0.0.1 in sixteen bytes
abbrev mapped : Ip
mapped = 0 ∷ 0 ∷ 0 ∷ 0 ∷ 0 ∷ 0 ∷ 0 ∷ 0 ∷ 0 ∷ 0 ∷ 255 ∷ 255 ∷ ten

mapped_is_four : from_vpp_address unions (to_vpp_address mapped) ≡ ten
unfolding from_vpp_address to_vpp_address to4 vpp_address
mapped_is_four = refl

ten_fits : 24 ≤ family_bits ten
unfolding family_bits is_v6 to4
ten_fits = omega arith

from_vpp_prefix-to_vpp_prefix_example :
    (ip_equal (from_vpp_prefix unions (to_vpp_prefix (some (net ten 24)))).ip ten ≡ true)
    × ((from_vpp_prefix unions (to_vpp_prefix (some (net ten 24)))).net_mask
        ≡ mask 24 (family_bits ten))
from_vpp_prefix-to_vpp_prefix_example =
    from_vpp_prefix-to_vpp_prefix unions ten 24 (inl refl) ten_fits
