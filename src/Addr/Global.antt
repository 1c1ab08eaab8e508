-- ===== src/Addr/Global.antt =====
-- crust/src/util/util.rs: which addresses count as global, against a table of address blocks.
use crust_futures.Base.{
  ℕ, ◌*◌, ◌+◌, ◌/◌, ◌<◌, ◌≡◌, ◌∙◌, Bool, false, not, ◌&&◌, ◌||◌, ◌==◌, leb, List, [], ◌∷◌, any,
  arith,
}
use crust_futures.Addr.{
  Ipv4Addr, ipv4_addr_is_global, is_loopback, is_link_local, is_multicast, is_broadcast,
  is_unspecified_v4,
}

-- The address as a 32-bit number.
abbrev pub value : Ipv4Addr → ℕ
value ip = ip.a * 0x1000000 + ip.b * 0x10000 + ip.c * 0x100 + ip.d

pub record IsIpv4 (ip : Ipv4Addr) : Type 0 where
  pub a_lt : ip.a < 256
  pub b_lt : ip.b < 256
  pub c_lt : ip.c < 256
  pub d_lt : ip.d < 256

-- A block is a prefix and the number of addresses that share it.
abbrev Block : Type 0
Block = ℕ × ℕ

abbrev in_block : ℕ → Block → Bool
in_block n (prefix, size) = n / size == prefix

-- The reserved blocks: 127/8, 10/8, 172.16/12, 192.168/16, 169.254/16, 224/4, the broadcast
-- address, the three blocks for documentation, and the unspecified address.
abbrev pub reserved : List Block
reserved =
    (127, 0x1000000)
    ∷ (10, 0x1000000)
    ∷ (0xac1, 0x100000)
    ∷ (0xc0a8, 0x10000)
    ∷ (0xa9fe, 0x10000)
    ∷ (0xe, 0x10000000)
    ∷ (0xffffffff, 1)
    ∷ (0xc00002, 0x100)
    ∷ (0xc63364, 0x100)
    ∷ (0xcb0071, 0x100)
    ∷ (0, 1)
    ∷ []

or_flat :
    (p q r s t u v w x y z : Bool)
    → not (p || (q || r || s) || t || u || v || (w || x || y) || z)
      ≡ not (p || (q || (r || (s || (t || (u || (v || (w || (x || (y || (z || false)))))))))))
or_flat p q r s t u v w x y z = ground arith

module _ (ip : Ipv4Addr) (v : IsIpv4 ip) where
  abbrev n : ℕ
  n = value ip

  private_12 : (ip.a == 172 && leb 16 ip.b && leb ip.b 31) ≡ in_block n (0xac1, 0x100000)
  private_12 = ground arith

  private_16 : (ip.a == 192 && ip.b == 168) ≡ in_block n (0xc0a8, 0x10000)
  private_16 = ground arith

  link_local : is_link_local ip ≡ in_block n (0xa9fe, 0x10000)
  link_local = ground arith

  multicast : is_multicast ip ≡ in_block n (0xe, 0x10000000)
  multicast = ground arith

  broadcast : is_broadcast ip ≡ in_block n (0xffffffff, 1)
  broadcast = ground arith

  unspecified : is_unspecified_v4 ip ≡ in_block n (0, 1)
  unspecified = ground arith

  top_octet : (k : ℕ) → (ip.a == k) ≡ in_block n (k, 0x1000000)
  top_octet k = ground arith

  doc_1 : (ip.a == 192 && ip.b == 0 && ip.c == 2) ≡ in_block n (0xc00002, 0x100)
  doc_1 = ground arith

  doc_2 : (ip.a == 198 && ip.b == 51 && ip.c == 100) ≡ in_block n (0xc63364, 0x100)
  doc_2 = ground arith

  doc_3 : (ip.a == 203 && ip.b == 0 && ip.c == 113) ≡ in_block n (0xcb0071, 0x100)
  doc_3 = ground arith

-- An IPv4 address is global exactly when its 32-bit number lies in none of the reserved blocks.
pub ipv4_addr_is_global_iff :
    (ip : Ipv4Addr) → IsIpv4 ip → ipv4_addr_is_global ip ≡ not (any (in_block (value ip)) reserved)
unfolding ipv4_addr_is_global
ipv4_addr_is_global_iff ip v =
    or_flat (is_loopback ip) (ip.a == 10) (ip.a == 172 && leb 16 ip.b && leb ip.b 31)
      (ip.a == 192 && ip.b == 168) (is_link_local ip) (is_multicast ip) (is_broadcast ip)
      (ip.a == 192 && ip.b == 0 && ip.c == 2) (ip.a == 198 && ip.b == 51 && ip.c == 100)
      (ip.a == 203 && ip.b == 0 && ip.c == 113) (is_unspecified_v4 ip)
    ∙ λ i. not (
        top_octet ip v 127 i
        || (top_octet ip v 10 i
            || (private_12 ip v i
                || (private_16 ip v i
                    || (link_local ip v i
                        || (multicast ip v i
                            || (broadcast ip v i
                                || (doc_1 ip v i
                                    || (doc_2 ip v i
                                        || (doc_3 ip v i || (unspecified ip v i || false)))))))))))
