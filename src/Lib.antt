-- ===== src/Lib.antt =====
-- Verification of the Network Service Mesh SDK for VPP (sdk-vpp).
--
-- The program is a set of chain elements that set up VPP for the connections of a network service. A
-- request passes through the chain; each element does its work by messages to VPP before or after the
-- rest of the chain, keeps what it needs in the metadata of the connection or in a map of its own, and
-- undoes its work in Close, or when something later fails.
--
-- Foundations
--   Prelude: shared names, Boolean tests, lists over the native numbers, keys, association lists.
--   Types: pkg/tools/types (ip_types.go, mac.go, route.go).
--   Vpp: the messages of the VPP binary API that the program sends. VPP is a parameter: a record of
--     functions that answer a message after any history of messages, with an error or with a reply.
--   Exec: functions that change state, send messages and return an error or panic. What was done
--     before an error stays done. Exec/Quiet: actions that only send messages.
--   Chain: requests, connections and the rest of the chain, which is a parameter.
--   Samples: concrete values for tests.
--
-- Components
--   Metadata: pkg/tools/ifindex and the metadata.go of loopback, vrf, up, vlan, wireguard,
--     wireguard/peer and pinhole: a slot for each key and side of a connection.
--   Loopback: pkg/networkservice/loopback: createLoopback is create_loopback_for, del is del; request
--     and close are those of client.go and server.go.
--   Vrf: pkg/networkservice/vrf: create, attach, del, delV46 and Request and Close of both sides.
--   BridgeDomain: pkg/networkservice/xconnect/l2bridgedomain: addBridgeDomain, delBridgeDomain and the
--     server.
--   L2xconnect, L3xconnect: pkg/networkservice/xconnect/l2xconnect and l3xconnect.
--   Acl: pkg/networkservice/acl: create, aclAdd and the server.
--   Routes: pkg/networkservice/connectioncontext/ipcontext/routes: addDel, routeAddDel, toRoute and
--     Request and Close of both sides; Routes/Fib is the forwarding table that the messages build.
--   IpAddress: pkg/networkservice/connectioncontext/ipcontext/ipaddress: addDel, dumpIps and Request.
--   InterfaceUp: pkg/networkservice/up: up, waitForUpLinkUp, initFunc and Request; VPP's events are a
--     parameter, the list of those received before the context is done.
--   Pinhole: pkg/networkservice/pinhole: common.go; Pinhole/Element is ipport.go, client.go, server.go.
--   Vl3lb: pkg/networkservice/vl3lb: handler.go; Vl3lb/Monitor is filterConnections and the loop of
--     balanceNSE in common.go.
--   VxlanMechanism: pkg/networkservice/mechanisms/vxlan: addDel and Request and Close of both sides.
--   WireguardMechanism: pkg/networkservice/mechanisms/wireguard: createInterface, delInterface and
--     Request and Close of both sides; WireguardMechanism/Peer is the package peer.
--   VlanMechanism: pkg/networkservice/mechanisms/vlan: addSubIf, delSubIf and the client;
--     VlanMechanism/Vtr is l2vtr, VlanMechanism/Mtu is mtu.
--   ContextMtu: pkg/networkservice/connectioncontext/mtu: setConnContextMTU, setVPPMTU and Request.
--   TunnelMtu: pkg/networkservice/mechanisms/vxlan/mtu, wireguard/mtu and ipsec/mtu: getMTU, init and
--     Request of both sides, with the overhead of each package.
--
-- How it is modelled
--   A 32-bit counter wraps around where the source's does (loopback counts, MTU differences). No
--   definition needs fuel: every loop of the modelled code runs over a list, a stream being the list
--   of what it sends and how it ends. A nil pointer that is followed is the outcome `panic`. Logging,
--   timing and the contexts of grpc are left out. Code that holds a mutex, or runs in a
--   serialize.Executor, is one atomic step. The monitors of vl3lb share a handler without a lock; the run
--   of one is modelled while no other is between its steps, and their interleavings are not. A map of
--   pointers is a map of values that is written back at each change. Of an error's text the arguments that are formatted into it are left out or stand
--   unquoted. The typed views of a mechanism, keys of cryptography and VPP's events are parameters of
--   the components that use them. The chains that the constructors build are not modelled, but
--   WireguardMechanism/Ends composes two elements.
--
-- Not modelled: the memif, ipsec and kernel mechanisms, unnumbered interfaces, peerup and ipsecup,
--   tag, metrics, nsmonitor, afxdppinhole, the client of vl3lb (it starts goroutines on streams of the
--   registry), the forwarder chain (construction only) and the host tools (I/O).
pub mod Acl
pub mod BridgeDomain
pub mod Chain
pub mod ContextMtu
pub mod Exec
pub mod InterfaceUp
pub mod IpAddress
pub mod L2xconnect
pub mod L3xconnect
pub mod Loopback
pub mod Metadata
pub mod Pinhole
pub mod Prelude
pub mod Routes
pub mod Samples
pub mod TunnelMtu
pub mod Types
pub mod Vl3lb
pub mod VlanMechanism
pub mod Vpp
pub mod Vrf
pub mod VxlanMechanism
pub mod WireguardMechanism
