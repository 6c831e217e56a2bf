-- ===== src/Metadata.antt =====
-- The metadata that the chain elements keep for each connection, once for its client side and once
-- for its server side: `metadata.Map(ctx, isClient)` of the sdk, a map with the operations of Go's
-- sync.Map. Each package stores under a key of its own, hence in a slot of its own: for most of them a
-- value of an unexported type, under which no other package can store; wireguard/peer stores under
-- the text of a public key, which is taken to be no other package's key.
pub mod Slot
pub mod Laws
pub mod Ifindex
pub mod Loopback
pub mod Vrf
pub mod Vlan
pub mod Up
pub mod Peer
pub mod Pinhole
pub mod Wireguard
use sdk_vpp.Prelude.{ℕ, Bool, Option, none, String, []}
use sdk_vpp.Prelude.Assoc.{Map}

-- pinhole.IPPort (pkg/networkservice/pinhole/ipport.go)
pub record IpPort : Type 0 where
  pub ip : String
  pub port : ℕ

pub record Metadata : Type 0 where
  pub if_index : Option ℕ
  pub loopback : Option ℕ
  pub vrf_v4 : Option ℕ
  pub vrf_v6 : Option ℕ
  pub vlan : Option ℕ
  pub wait_till_up : Option Bool
  pub peers : Map String ℕ
  pub extra : Option IpPort
  pub public_key : Option String

abbrev pub no_metadata : Metadata
no_metadata = record {
  if_index = none;
  loopback = none;
  vrf_v4 = none;
  vrf_v6 = none;
  vlan = none;
  wait_till_up = none;
  peers = [];
  extra = none;
  public_key = none;
}
