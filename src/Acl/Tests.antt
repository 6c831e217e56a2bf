-- ===== src/Acl/Tests.antt =====
-- Instances of the theorems on access lists, and runs.
use sdk_vpp.Prelude.{ℕ, ◌≡◌, refl, Bool, true, false, Option, none, some, List, [], ◌∷◌}
use sdk_vpp.Prelude.Assoc.{lookup, insert, erase}
use sdk_vpp.Prelude.Keys.{string_eq}
use sdk_vpp.Types.{Prefix, zero_prefix}
use sdk_vpp.Vpp.{Vpp, Error, foreign, Call, AclRule, Action, acl_del}
use sdk_vpp.Exec.{State, ok, err}
use sdk_vpp.Chain.{Payload}
use sdk_vpp.Metadata.{no_metadata}
use sdk_vpp.Samples.{willing, conn, asking, granting}
use sdk_vpp.Acl.{AclIndices, acl_add, request, close}
use sdk_vpp.Acl.Mirror.{Packet, turned, decide, acl_add-turned}
use sdk_vpp.Acl.Lifecycle.{ingress, egress, both, adding, acl_life, failed_egress-leaks}

-- Packets from port 80 pass.
abbrev web : AclRule
web = record {
  is_permit = Action.permit;
  proto = 6;
  src_prefix = zero_prefix;
  dst_prefix = zero_prefix;
  srcport_or_icmptype_first = 80;
  srcport_or_icmptype_last = 80;
  dstport_or_icmpcode_first = 0;
  dstport_or_icmpcode_last = 65535;
}

abbrev everywhere : Prefix → ℕ → Bool
everywhere p a = true

abbrev answer : Packet ℕ
answer = record { proto = 6; src = 1; dst = 2; src_port = 80; dst_port = 5000 }

answer_passes : decide everywhere (acl_add "t" false (web ∷ [])).r answer ≡ some Action.permit
unfolding decide acl_add
answer_passes = refl

acl_add-turned_example :
    (decide everywhere (acl_add "t" true (web ∷ [])).r (turned answer)
      ≡ decide everywhere (acl_add "t" false (web ∷ [])).r answer)
    × ((acl_add "t" true (web ∷ [])).count ≡ (acl_add "t" false (web ∷ [])).count)
acl_add-turned_example = acl_add-turned everywhere "t" (web ∷ []) (turned answer) refl

-- Echo requests (type 8, code 0) pass.
abbrev ping : AclRule
ping = record {
  is_permit = Action.permit;
  proto = 1;
  src_prefix = zero_prefix;
  dst_prefix = zero_prefix;
  srcport_or_icmptype_first = 8;
  srcport_or_icmptype_last = 8;
  dstport_or_icmpcode_first = 0;
  dstport_or_icmpcode_last = 0;
}

abbrev echo : Packet ℕ
echo = record { proto = 1; src = 1; dst = 2; src_port = 8; dst_port = 0 }

-- The ingress list lets an echo request through, the egress list not the one of the other direction:
-- its rule asks for type 0 and code 8.
echo_unmatched :
    (decide everywhere (acl_add "t" false (ping ∷ [])).r echo ≡ some Action.permit)
    × (decide everywhere (acl_add "t" true (ping ∷ [])).r (turned echo) ≡ none)
unfolding decide acl_add
echo_unmatched = (refl, refl)

abbrev ready : State AclIndices
ready = record {
  calls = [];
  client = no_metadata;
  server = record no_metadata { if_index = some 2 };
  own = [];
}

no_lists : lookup "c" ready.own ≡ none
unfolding lookup
no_lists = refl

acl_life_example :
    let t = (request willing (web ∷ []) (granting Payload.ip) (asking Payload.ip) ready).1 in
    let lists = both willing [] (conn Payload.ip) (web ∷ []) in
    let calls = adding willing [] (conn Payload.ip) (web ∷ []) 2 in
    (request willing (web ∷ []) (granting Payload.ip) (asking Payload.ip) ready
      ≡ (ok (conn Payload.ip), record ready { calls = calls; own = insert "c" lists [] }))
    × (request willing (web ∷ []) (granting Payload.ip) (asking Payload.ip) t
        ≡ (ok (conn Payload.ip), t))
    × ((close willing (granting Payload.ip) (conn Payload.ip) t).0 ≡ ok tt)
    × ((close willing (granting Payload.ip) (conn Payload.ip) t).1.calls
        ≡ acl_del 1 ∷ acl_del 0 ∷ calls)
    × (lookup "c" (close willing (granting Payload.ip) (conn Payload.ip) t).1.own ≡ none)
acl_life_example =
    acl_life willing (granting Payload.ip) web [] (asking Payload.ip) (conn Payload.ip) 2 ready
      (λ t. refl) (λ t. refl) refl no_lists (λ h c. refl)

-- Accepts the first message only.
abbrev once : List Call → Option Error
once [] = none
once (c ∷ h) = some (foreign 1)

abbrev once_willing : Vpp
once_willing = record willing { fails = λ h c. once h }

failed_egress-leaks_example :
    request once_willing (web ∷ []) (granting Payload.ip) (asking Payload.ip) ready ≡ (
      err (record {
        conn = none;
        error = Error.wrap "vppapi ACLAddReplace returned error" (foreign 1);
      }),
      record ready {
        calls = egress (conn Payload.ip) (web ∷ []) ∷ ingress (conn Payload.ip) (web ∷ []) ∷ [];
        own = erase "c" [];
      },
    )
failed_egress-leaks_example =
    failed_egress-leaks once_willing (granting Payload.ip) web [] (asking Payload.ip)
      (conn Payload.ip) 2 ready (λ t. refl) (λ t. refl) refl no_lists (foreign 1) refl refl
