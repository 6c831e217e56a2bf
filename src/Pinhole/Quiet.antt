-- ===== src/Pinhole/Quiet.antt =====
-- create only sends messages.
use sdk_vpp.Prelude.{ℕ, String, Bool, true, false, List, [], ◌∷◌, if◌then◌else◌}
use sdk_vpp.Types.{Ip, UnionApi}
use sdk_vpp.Vpp.{Vpp, AclDetails, AclInterfaceListDetails, SwInterfaceDetails}
use sdk_vpp.Exec.{◌>>=◌, pure}
use sdk_vpp.Exec.Quiet.{Quiet, quiet, >>=-Quiet, if-Quiet}
use sdk_vpp.Pinhole.{
  Stream, recv, add_if, add_to_acl_list_if_needed, acl_detail, acl_details, addresses_of,
  split_acls, interface_acl_indices, interfaces_acl_details, has_address, find_interface,
  tunnel_ip_sw_if_index, set_if_grown, open_on, create,
}

module _ {S : Type 0} (v : Vpp) where
  add_if-Quiet :
      (b : Bool) (ip : Ip) (port : ℕ) (tag : String) (egress : Bool) (indices : List ℕ)
      → Quiet (add_if {S = S} v b ip port tag egress indices)
  unfolding add_if
  add_if-Quiet false ip port tag egress indices = search quiet
  add_if-Quiet true ip port tag egress indices = search quiet

  recv-Quiet : {A : Type 0} (stream : Stream A) → Quiet (recv {S = S} stream)
  unfolding recv
  recv-Quiet ([], end) = search quiet
  recv-Quiet (a ∷ rest, end) = search quiet

  split_acls-Quiet : (d : AclInterfaceListDetails) → Quiet (split_acls {S = S} v d)
  unfolding split_acls
  split_acls-Quiet d = search quiet

  acl_detail-Quiet : (i : ℕ) → Quiet (acl_detail {S = S} v i)
  unfolding acl_detail
  acl_detail-Quiet i = search (quiet, recv-Quiet)

  acl_details-Quiet : (indices : List ℕ) → Quiet (acl_details {S = S} v indices)
  unfolding acl_details
  acl_details-Quiet [] = search quiet
  acl_details-Quiet (i ∷ indices) =
      >>=-Quiet (acl_detail v i) (λ d. acl_details v indices >>= λ ds. pure (d ∷ ds))
        (acl_detail-Quiet i)
        (λ d.
          >>=-Quiet (acl_details v indices) (λ ds. pure (d ∷ ds)) (acl_details-Quiet indices)
            (λ ds. search quiet))

  interfaces_acl_details-Quiet : (i : ℕ) → Quiet (interfaces_acl_details {S = S} v i)
  unfolding interfaces_acl_details interface_acl_indices
  interfaces_acl_details-Quiet i = search (quiet, recv-Quiet, acl_details-Quiet, split_acls-Quiet)

  find_interface-Quiet :
      (api : UnionApi) (ip : Ip) (ds : List SwInterfaceDetails)
      → Quiet (find_interface {S = S} v api ip ds)
  unfolding find_interface
  find_interface-Quiet api ip [] = search quiet
  find_interface-Quiet api ip (d ∷ ds) =
      >>=-Quiet (addresses_of v ip d)
        (λ addresses.
          if has_address api ip addresses then pure d.sw_if_index else find_interface v api ip ds)
        (search quiet)
        (λ addresses.
          if-Quiet (has_address api ip addresses) (pure d.sw_if_index) (find_interface v api ip ds)
            (search quiet) (find_interface-Quiet api ip ds))

  tunnel_ip_sw_if_index-Quiet :
      (api : UnionApi) (ip : Ip) → Quiet (tunnel_ip_sw_if_index {S = S} v api ip)
  unfolding tunnel_ip_sw_if_index
  tunnel_ip_sw_if_index-Quiet api ip = search (quiet, find_interface-Quiet)

  set_if_grown-Quiet :
      (i before : ℕ) (ingress egress : List ℕ)
      → Quiet (set_if_grown {S = S} v i before ingress egress)
  unfolding set_if_grown
  set_if_grown-Quiet i before ingress egress = search quiet

  open_on-Quiet :
      (ip : Ip) (port : ℕ) (tag : String) (i : ℕ) (acls : List AclDetails × List AclDetails)
      → Quiet (open_on {S = S} v ip port tag i acls)
  unfolding open_on add_to_acl_list_if_needed
  open_on-Quiet ip port tag i (ingress, egress) = search (quiet, add_if-Quiet, set_if_grown-Quiet)

  pub create-Quiet :
      (api : UnionApi) (ip : Ip) (port : ℕ) (tag : String)
      → Quiet (create {S = S} v api ip port tag)
  unfolding create
  create-Quiet api ip port tag =
      search (quiet, tunnel_ip_sw_if_index-Quiet, interfaces_acl_details-Quiet, open_on-Quiet)
