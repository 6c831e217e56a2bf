-- ===== src/Acl/Mirror.antt =====
-- The list of the egress direction, seen as what it decides on packets.
use sdk_vpp.Prelude.{
  ℕ, ◌≡◌, refl, String, Bool, true, false, ◌&&◌, ◌||◌, Option, none, some, List, [], ◌∷◌, leb, ◌==◌,
  if◌then◌else◌, map,
}
use sdk_vpp.Types.{Prefix}
use sdk_vpp.Vpp.{AclRule, Action}
use sdk_vpp.Acl.{acl_add, mirror_rule}

-- A packet: its addresses are of any type, with a test that tells whether a prefix holds one.
pub record Packet (A : Type 0) : Type 0 where
  pub proto : ℕ
  pub src : A
  pub dst : A
  pub src_port : ℕ
  pub dst_port : ℕ

-- ICMP and ICMPv6: a packet has a type and a code in place of the ports.
abbrev pub is_icmp : ℕ → Bool
is_icmp proto = (proto == 1) || (proto == 58)

-- The packet of the other direction. Its ports change places; an ICMP type and code do not.
abbrev pub turned : {A : Type 0} → Packet A → Packet A
turned p =
    if is_icmp p.proto
    then record p { src = p.dst; dst = p.src }
    else record p { src = p.dst; dst = p.src; src_port = p.dst_port; dst_port = p.src_port }

-- Both the addresses and the two other fields change places, whatever they are.
abbrev swapped : {A : Type 0} → Packet A → Packet A
swapped p = record p { src = p.dst; dst = p.src; src_port = p.dst_port; dst_port = p.src_port }

abbrev pub between : ℕ → ℕ → ℕ → Bool
between lo hi n = leb lo n && leb n hi

module _ {A : Type 0} (inside : Prefix → A → Bool) where
  abbrev pub src_matches : AclRule → Packet A → Bool
  src_matches r p =
      inside r.src_prefix p.src
      && between r.srcport_or_icmptype_first r.srcport_or_icmptype_last p.src_port

  abbrev pub dst_matches : AclRule → Packet A → Bool
  dst_matches r p =
      inside r.dst_prefix p.dst
      && between r.dstport_or_icmpcode_first r.dstport_or_icmpcode_last p.dst_port

  abbrev pub matches : AclRule → Packet A → Bool
  matches r p = (r.proto == p.proto) && (src_matches r p && dst_matches r p)

  -- The action of the first rule that matches
  unfoldable pub decide : List AclRule → Packet A → Option Action
  decide [] p = none
  decide (r ∷ rules) p = if matches r p then some r.is_permit else decide rules p

  and_swap : (a b c : Bool) → a && (b && c) ≡ a && (c && b)
  and_swap true true true = refl
  and_swap true true false = refl
  and_swap true false true = refl
  and_swap true false false = refl
  and_swap false b c = refl

  matches-mirror_rule :
      (r : AclRule) (p : Packet A) → matches (mirror_rule r) p ≡ matches r (swapped p)
  unfolding mirror_rule
  matches-mirror_rule r p =
      and_swap (r.proto == p.proto) (dst_matches r (swapped p)) (src_matches r (swapped p))

  decide_mirrored :
      (rules : List AclRule) (p : Packet A)
      → decide (map mirror_rule rules) p ≡ decide rules (swapped p)
  unfolding decide mirror_rule
  decide_mirrored [] p = refl
  decide_mirrored (r ∷ rules) p = rw (matches-mirror_rule r p) (rw (decide_mirrored rules p) refl)

  -- On a packet that is neither of ICMP nor of ICMPv6, the egress list decides what the ingress list of
  -- the same rules decides on the packet of the other direction; the egress list has as many rules.
  pub acl_add-turned :
      (tag : String) (rules : List AclRule) (p : Packet A)
      → is_icmp p.proto ≡ false
      → (decide (acl_add tag true rules).r p ≡ decide (acl_add tag false rules).r (turned p))
        × ((acl_add tag true rules).count ≡ (acl_add tag false rules).count)
  unfolding acl_add
  acl_add-turned tag rules p ported = simp ported (decide_mirrored rules p, refl)
