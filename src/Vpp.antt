-- ===== src/Vpp.antt =====
-- The VPP binary API as the program uses it. VPP itself and the generated bindings are not in the
-- repository: `Vpp` is a parameter that answers a message after any history of messages.
use sdk_vpp.Prelude.{ℕ, Bool, List, Option, String}
use sdk_vpp.Types.{Prefix, Address, AddressUnion, FibProto}

-- An error of VPP, of another library or of a later chain element, `errors.New`, `errors.Wrap`, and
-- `errors.Wrapf(err, "connection closed with error: %s", closeErr)`.
pub data Error : Type 0 where
  foreign : ℕ → Error
  new : String → Error
  wrap : String → Error → Error
  wrap_closed : Error → Error → Error

pub data Action : Type 0 where
  deny permit : Action

pub record AclRule : Type 0 where
  pub is_permit : Action
  pub proto : ℕ
  pub src_prefix : Prefix
  pub dst_prefix : Prefix
  pub srcport_or_icmptype_first : ℕ
  pub srcport_or_icmptype_last : ℕ
  pub dstport_or_icmpcode_first : ℕ
  pub dstport_or_icmpcode_last : ℕ

pub record AclAddReplace : Type 0 where
  pub acl_index : ℕ
  pub tag : String
  pub count : ℕ
  pub r : List AclRule

pub record AclInterfaceSetAclList : Type 0 where
  pub sw_if_index : ℕ
  pub count : ℕ
  pub n_input : ℕ
  pub acls : List ℕ

pub record FibPath : Type 0 where
  pub sw_if_index : ℕ
  pub proto : FibProto
  pub nh : AddressUnion

pub record L3xcUpdate : Type 0 where
  pub sw_if_index : ℕ
  pub is_ip6 : Bool
  pub n_paths : ℕ
  pub paths : List FibPath

pub record CnatEndpoint : Type 0 where
  pub addr : Address
  pub sw_if_index : ℕ
  pub port : ℕ

pub record CnatEndpointTuple : Type 0 where
  pub dst_ep : CnatEndpoint
  pub src_ep : CnatEndpoint

pub data LbType : Type 0 where
  lb_default lb_maglev : LbType

pub record CnatTranslation : Type 0 where
  pub vip : CnatEndpoint
  pub id : ℕ
  pub ip_proto : ℕ
  pub is_real_ip : ℕ
  pub lb_type : LbType
  pub n_paths : ℕ
  pub paths : List CnatEndpointTuple

pub record BridgeDomainAddDel : Type 0 where
  pub is_add : Bool
  pub bd_id : ℕ
  pub flood : Bool
  pub forward : Bool
  pub learn : Bool
  pub uu_flood : Bool

pub record SetL2Bridge : Type 0 where
  pub rx_sw_if_index : ℕ
  pub bd_id : ℕ
  pub shg : ℕ
  pub enable : Bool

-- The fields of a path that the program sets for a route; the others are 0.
pub record RoutePath : Type 0 where
  pub sw_if_index : ℕ
  pub weight : ℕ
  pub proto : FibProto
  pub nh : AddressUnion

pub record IpRoute : Type 0 where
  pub table_id : ℕ
  pub prefix : Prefix
  pub n_paths : ℕ
  pub paths : List RoutePath

pub record VxlanTunnel : Type 0 where
  pub is_add : Bool
  pub instance_id : ℕ
  pub src_address : Address
  pub dst_address : Address
  pub decap_next_index : ℕ
  pub vni : ℕ
  pub src_port : ℕ
  pub dst_port : ℕ

pub record WireguardInterface : Type 0 where
  pub user_instance : ℕ
  pub private_key : List ℕ
  pub port : ℕ
  pub src_ip : Address

pub record WireguardPeer : Type 0 where
  pub sw_if_index : ℕ
  pub public_key : List ℕ
  pub persistent_keepalive : ℕ
  pub n_allowed_ips : ℕ
  pub allowed_ips : List Prefix
  pub port : ℕ
  pub endpoint : Address

-- The messages, with their fields in the order of the comment behind them.
pub data Call : Type 0 where
  create_loopback : Call
  delete_loopback : ℕ → Call  -- SwIfIndex
  ip_table_allocate : ℕ → Bool → Call  -- TableID, IsIP6
  ip_table_add_del : Bool → ℕ → Bool → Call  -- IsAdd, TableID, IsIP6
  sw_interface_set_table : ℕ → Bool → ℕ → Call  -- SwIfIndex, IsIPv6, VrfID
  bridge_domain_add_del : BridgeDomainAddDel → Call
  sw_interface_set_l2_bridge : SetL2Bridge → Call
  delete_subif : ℕ → Call  -- SwIfIndex
  sw_interface_set_mtu : ℕ → List ℕ → Call  -- SwIfIndex, Mtu
  sw_interface_set_l2_xconnect : ℕ → ℕ → Bool → Call  -- RxSwIfIndex, TxSwIfIndex, Enable
  l3xc_update : L3xcUpdate → Call
  l3xc_del : ℕ → Bool → Call  -- SwIfIndex, IsIP6
  acl_add_replace : AclAddReplace → Call
  acl_del : ℕ → Call  -- ACLIndex
  acl_dump : ℕ → Call  -- ACLIndex
  acl_interface_list_dump : ℕ → Call  -- SwIfIndex
  acl_interface_set_acl_list : AclInterfaceSetAclList → Call
  cnat_translation_update : CnatTranslation → Call
  cnat_translation_del : ℕ → Call  -- ID
  sw_interface_dump : Call
  sw_interface_dump_named : String → Call  -- NameFilter, with NameFilterValid
  ip_address_dump : ℕ → Bool → Call  -- SwIfIndex, IsIPv6
  sw_interface_dump_at : ℕ → Call  -- SwIfIndex
  sw_interface_set_flags : ℕ → Bool → Call  -- SwIfIndex, whether Flags is ADMIN_UP
  want_interface_events : Call  -- of this process, with EnableDisable
  sw_interface_add_del_address : ℕ → Bool → Prefix → Call  -- SwIfIndex, IsAdd, Prefix
  sw_interface_set_unnumbered : ℕ → ℕ → Bool → Call  -- SwIfIndex, UnnumberedSwIfIndex, IsAdd
  ip_route_add_del : Bool → Bool → IpRoute → Call  -- IsAdd, IsMultipath, Route
  add_node_next : String → String → Call  -- NodeName, NextName
  vxlan_add_del_tunnel_v3 : VxlanTunnel → Call
  wireguard_interface_create : Bool → WireguardInterface → Call  -- GenerateKey, Interface
  wireguard_interface_delete : ℕ → Call  -- SwIfIndex
  wireguard_peer_add : WireguardPeer → Call
  wireguard_peer_remove : ℕ → Call  -- PeerIndex
  create_vlan_subif : ℕ → ℕ → Call  -- SwIfIndex, VlanID
  l2_interface_vlan_tag_rewrite : ℕ → ℕ → ℕ → ℕ → ℕ → Call  -- SwIfIndex, VtrOp, PushDot1q, Tag1, Tag2

-- `is_sub`: the Type is IF_API_TYPE_SUB; `is_link_up`: Flags has LINK_UP
pub record SwInterfaceDetails : Type 0 where
  pub sw_if_index : ℕ
  pub interface_name : String
  pub is_link_up : Bool
  pub is_sub : Bool
  pub sub_id : ℕ
  pub mtu : List ℕ

pub record AclDetails : Type 0 where
  pub acl_index : ℕ
  pub tag : String

pub record AclInterfaceListDetails : Type 0 where
  pub n_input : ℕ
  pub acls : List ℕ

-- The first argument is the history, newest first. `fails` is the error of a message, if any;
-- `index` is the index in the reply (SwIfIndex, TableID, BdID, ACLIndex, NextIndex, PeerIndex or ID); a dump streams a list
-- that ends by `stream_error` or, without one, by io.EOF.
pub record Vpp : Type 0 where
  pub fails : List Call → Call → Option Error
  pub index : List Call → Call → ℕ
  pub interfaces : List Call → Call → List SwInterfaceDetails
  pub addresses : List Call → Call → List Prefix
  pub acls : List Call → Call → List AclDetails
  pub interface_acls : List Call → Call → List AclInterfaceListDetails
  pub stream_error : List Call → Call → Option Error

-- ^uint32(0)
abbrev pub max_uint32 : ℕ
max_uint32 = 4294967295
