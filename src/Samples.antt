-- ===== src/Samples.antt =====
-- Concrete values for the tests and the instances of the theorems.
use sdk_vpp.Prelude.{none, some, [], ◌∷◌, refl, ℕ, List}
use sdk_vpp.Types.{Ip, UnionApi, AddressUnion, union_zero, union_ip4, union_ip6}
use sdk_vpp.Vpp.{Vpp}
use sdk_vpp.Exec.{State, pure}
use sdk_vpp.Chain.{Connection, Request, Next, Payload}
use sdk_vpp.Metadata.{no_metadata}

-- A VPP that accepts everything and numbers its replies by 7.
abbrev pub willing : Vpp
willing = record {
  fails = λ h c. none;
  index = λ h c. 7;
  interfaces = λ h c. [];
  addresses = λ h c. [];
  acls = λ h c. [];
  interface_acls = λ h c. [];
  stream_error = λ h c. none;
}

abbrev pub fresh : {S : Type 0} → S → State S
fresh o = record { calls = []; client = no_metadata; server = no_metadata; own = o }

abbrev pub filled : AddressUnion → List ℕ
filled union_zero = []
filled (union_ip4 b) = b
filled (union_ip6 b) = b

abbrev pub unions : UnionApi
unions = record {
  get_ip4 = filled;
  get_ip6 = filled;
  get_ip4_lem = λ b. refl;
  get_ip6_lem = λ b. refl;
}

-- 10.0.0.1
abbrev pub ten : Ip
ten = 10 ∷ 0 ∷ 0 ∷ 1 ∷ []

abbrev pub conn : Payload → Connection
conn p = record {
  id = "c";
  network_service = "ns";
  payload = p;
  labels = [];
  mechanism = none;
  context = none;
}

abbrev pub asking : Payload → Request
asking p = record { connection = some (conn p); mechanism_preferences = [] }

-- The rest of a chain that grants everything and changes nothing
abbrev pub granting : {S : Type 0} → Payload → Next S
granting p = record { request = λ r. pure (conn p); close = λ c. pure tt }
