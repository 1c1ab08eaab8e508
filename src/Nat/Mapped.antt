-- ===== src/Nat/Mapped.antt =====
-- crust/src/net/nat: which addresses a socket is given.
use crust_futures.Base.{
  not-true, ◌≡◌, refl, sym, ap, subst, ◌∙◌, List, [], ◌++◌, map, keep, any, Option, none, some,
  Bool, true, false, not, Result, ok, err, ◌>>=◌, inl, inr, Memᴰ, Memᴰ-cons, Memᴰ-somes,
  of_Memᴰ-somes, ◌↔◌, Memᴰ-map, of_Memᴰ-map, of_Memᴰ-keep, Memᴰ-keep_of, Memᴰ-append_left,
  Memᴰ-append_right, of_Memᴰ-append, Bool-cases, bind_ok, All, All-of, All-at,
}
use crust_futures.Addr.{
  Ipv4Addr, IpAddr, v4, SocketAddr, is_loopback, is_unspecified, ip_addr_is_global,
}
use crust_futures.Nat.{
  Ifv4, MappingContext, ipv4s, ipv6s, new, expand_unspecified_addr, add_peer_stuns, Outside,
  map_port, mappings, forced_ports, mapped_addrs, mapped_tcp_socket,
}

module _ {G : Type 0} where
  -- The addresses of a machine's interfaces are not the loopback one, and the peers to ask are outside.
  pub record IsContext (mc : MappingContext G) : Type 0 where
    pub no_loopback : All (λ ifv4. is_loopback ifv4.ip ≡ false) mc.our_ifv4s
    pub stuns_are_global : All (λ a. ip_addr_is_global a.ip ≡ true) mc.peer_stuns

  pub new-IsContext :
      {E : Type 0} (force : Bool) (ifs : Result E (List IpAddr)) (search : Ipv4Addr → Option G)
      {mc : MappingContext G}
      → new force ifs search ≡ ok mc
      → IsContext mc
  unfolding new
  new-IsContext force (err e) search h = cc
  new-IsContext force (ok ifs) search {mc} h =
      let ips = keep (λ ip. not (is_loopback ip)) (ipv4s ifs) in
      let to_if : Ipv4Addr → Ifv4 G =
        λ ip. record { ip = ip; gateway = search ip; force_include_port = force } in
      let made : MappingContext G = record {
        our_ifv4s = map to_if ips;
        our_ifv6s = ipv6s ifs;
        peer_stuns = [];
      } in
      let q : made ≡ mc = cc in
      subst IsContext q (record {
        no_loopback = All-of _ (map to_if ips) (λ ifv4 m.
            let (ip, e, there) = of_Memᴰ-map to_if ips ifv4 m in
            ap (λ i. is_loopback i.ip) e
            ∙ not-true (is_loopback ip)
                (of_Memᴰ-keep (λ ip. not (is_loopback ip)) (ipv4s ifs) ip there).1);
        stuns_are_global = tt;
      })

  -- Adding peers keeps a context one, whatever their addresses.
  pub add_peer_stuns-IsContext :
      (addrs : List SocketAddr) (mc : MappingContext G)
      → IsContext mc
      → IsContext (add_peer_stuns addrs mc)
  unfolding add_peer_stuns
  add_peer_stuns-IsContext addrs mc h = record {
    no_loopback = h.no_loopback;
    stuns_are_global =
        All-of _ (mc.peer_stuns ++ keep (λ elt. ip_addr_is_global elt.ip) addrs) (λ a m.
          elim (of_Memᴰ-append mc.peer_stuns (keep (λ elt. ip_addr_is_global elt.ip) addrs) a m) [
            | inl old ↦
                All-at (λ a. ip_addr_is_global a.ip ≡ true) mc.peer_stuns a h.stuns_are_global old
            | inr added ↦ (of_Memᴰ-keep (λ elt. ip_addr_is_global elt.ip) addrs a added).1
          ]);
  }

module _ {G : Type 0} (net : Outside G) (mc : MappingContext G) (bound : SocketAddr) where
  -- An address that a gateway of an interface maps the socket to, or that a peer sees it at.
  pub data IsMapping (x : SocketAddr) : Type 0 where
    by_gateway :
        (ifv4 : Ifv4 G) (g : G)
        → Memᴰ ifv4 mc.our_ifv4s
        → ifv4.gateway ≡ some g
        → net.get_any_address g (record { ip = v4 ifv4.ip; port = bound.port }) ≡ some x
        → IsMapping x
    by_peer : (a : SocketAddr) → Memᴰ a mc.peer_stuns → net.stun bound a ≡ some x → IsMapping x

  -- Where an address of the socket comes from.
  pub data Origin (x : SocketAddr) : Type 0 where
    itself : is_unspecified bound.ip ≡ false → x ≡ bound → Origin x
    of_interface :
        (ifv4 : Ifv4 G)
        → is_unspecified bound.ip ≡ true
        → Memᴰ ifv4 mc.our_ifv4s
        → x ≡ (record { ip = v4 ifv4.ip; port = bound.port })
        → Origin x
    of_mapping : IsMapping x → Origin x
    with_port :
        (a : SocketAddr)
        → any (λ ifv4. ifv4.force_include_port) mc.our_ifv4s ≡ true
        → IsMapping a
        → ip_addr_is_global a.ip ≡ true
        → x ≡ (record { ip = a.ip; port = bound.port })
        → Origin x

  abbrev at_port : Ifv4 G → SocketAddr
  at_port ifv4 = record { ip = v4 ifv4.ip; port = bound.port }

  gateway_gave :
      (ifv4 : Ifv4 G) (o : Option G) (x : SocketAddr)
      → ifv4.gateway ≡ o
      → Memᴰ ifv4 mc.our_ifv4s
      → map_port net bound ifv4 o ≡ some x
      → IsMapping x
  unfolding map_port
  gateway_gave ifv4 none x e m h = cc
  gateway_gave ifv4 (some g) x e m h = by_gateway ifv4 g m e h

  mappings-IsMapping : (x : SocketAddr) → Memᴰ x (mappings net mc bound) → IsMapping x
  unfolding mappings
  mappings-IsMapping x m =
      let of_ifs = map (λ ifv4. map_port net bound ifv4 ifv4.gateway) mc.our_ifv4s in
      let of_peers = map (λ peer_stun. net.stun bound peer_stun) mc.peer_stuns in
      elim (of_Memᴰ-append of_ifs of_peers (some x) (of_Memᴰ-somes (of_ifs ++ of_peers) x m)) [
        | inl g ↦
            let (ifv4, e, there) =
              of_Memᴰ-map (λ ifv4. map_port net bound ifv4 ifv4.gateway) mc.our_ifv4s (some x) g in
            gateway_gave ifv4 ifv4.gateway x refl there (sym e)
        | inr p ↦
            let (a, e, there) = of_Memᴰ-map (λ a. net.stun bound a) mc.peer_stuns (some x) p in
            by_peer a there (sym e)
      ]

  IsMapping-mappings : (x : SocketAddr) → IsMapping x → Memᴰ x (mappings net mc bound)
  unfolding mappings map_port
  IsMapping-mappings x (by_gateway ifv4 g m e h) =
      let of_if : Ifv4 G → Option SocketAddr = λ ifv4. map_port net bound ifv4 ifv4.gateway in
      let of_peers = map (λ peer_stun. net.stun bound peer_stun) mc.peer_stuns in
      let q : of_if ifv4 ≡ some x = ap (map_port net bound ifv4) e ∙ h in
      Memᴰ-somes (map of_if mc.our_ifv4s ++ of_peers) x (
        Memᴰ-append_left (map of_if mc.our_ifv4s) of_peers (some x)
          (subst (λ o. Memᴰ o (map of_if mc.our_ifv4s)) q (Memᴰ-map of_if mc.our_ifv4s ifv4 m)))
  IsMapping-mappings x (by_peer a m h) =
      let of_ifs = map (λ ifv4. map_port net bound ifv4 ifv4.gateway) mc.our_ifv4s in
      let of_peers = map (λ peer_stun. net.stun bound peer_stun) mc.peer_stuns in
      Memᴰ-somes (of_ifs ++ of_peers) x (
        Memᴰ-append_right of_ifs of_peers (some x)
          (subst (λ o. Memᴰ o of_peers) h (Memᴰ-map (λ a. net.stun bound a) mc.peer_stuns a m)))

  expand_from : (x : SocketAddr) → Memᴰ x (expand_unspecified_addr mc bound) → Origin x
  unfolding expand_unspecified_addr
  expand_from x m = elim (Bool-cases (is_unspecified bound.ip)) [
    | inr e ↦ elim (Memᴰ-cons (rw e at m)) [ inl q ↦ itself e q | inr m' ↦ elim m' [ ] ]
    | inl e ↦
        let (ifv4, q, there) = of_Memᴰ-map at_port mc.our_ifv4s x (rw e at m) in
        of_interface ifv4 e there q
  ]

  forced_from :
      (force : Bool) (x : SocketAddr)
      → any (λ ifv4. ifv4.force_include_port) mc.our_ifv4s ≡ force
      → Memᴰ x (forced_ports net force bound (mappings net mc bound))
      → Origin x
  unfolding forced_ports
  forced_from false x e m = elim m [ ]
  forced_from true x e m =
      let (a, q, there) =
        of_Memᴰ-map (λ a. record { ip = a.ip; port = bound.port })
          (keep (λ a. ip_addr_is_global a.ip) (mappings net mc bound)) x m in
      let (given, global) =
        of_Memᴰ-keep (λ a. ip_addr_is_global a.ip) (mappings net mc bound) a there in
      with_port a e (mappings-IsMapping a given) global q

  mapped-Origin : (x : SocketAddr) → Memᴰ x (mapped_addrs net mc bound) → Origin x
  unfolding mapped_addrs
  mapped-Origin x m =
      let force = any (λ ifv4. ifv4.force_include_port) mc.our_ifv4s in
      let given = mappings net mc bound in
      elim (of_Memᴰ-append (expand_unspecified_addr mc bound)
        (forced_ports net force bound given ++ given) x m) [
          | inl own ↦ expand_from x own
          | inr more ↦ elim (of_Memᴰ-append (forced_ports net force bound given) given x more) [
            | inl forced ↦ forced_from force x refl forced
            | inr found ↦ of_mapping (mappings-IsMapping x found)
          ]
        ]

  Origin-mapped : (x : SocketAddr) → Origin x → Memᴰ x (mapped_addrs net mc bound)
  unfolding mapped_addrs expand_unspecified_addr forced_ports
  Origin-mapped x (itself e q) = rw e (Memᴰ.head q)
  Origin-mapped x (of_interface ifv4 e m q) = rw e (
      Memᴰ-append_left (map at_port mc.our_ifv4s) _ x (
        subst (λ y. Memᴰ y (map at_port mc.our_ifv4s)) (sym q)
          (Memᴰ-map at_port mc.our_ifv4s ifv4 m)))
  Origin-mapped x (of_mapping h) =
      let force = any (λ ifv4. ifv4.force_include_port) mc.our_ifv4s in
      let given = mappings net mc bound in
      Memᴰ-append_right (expand_unspecified_addr mc bound)
        (forced_ports net force bound given ++ given) x
        (Memᴰ-append_right (forced_ports net force bound given) given x (IsMapping-mappings x h))
  Origin-mapped x (with_port a e h g q) =
      let given = mappings net mc bound in
      let ported : SocketAddr → SocketAddr = λ a. record { ip = a.ip; port = bound.port } in
      let global = keep (λ a. ip_addr_is_global a.ip) given in
      let there : Memᴰ x (map ported global) =
        subst (λ y. Memᴰ y (map ported global)) (sym q)
          (Memᴰ-map ported global a
            (Memᴰ-keep_of (λ a. ip_addr_is_global a.ip) given a (IsMapping-mappings a h) g)) in
      Memᴰ-append_right (expand_unspecified_addr mc bound) _ x
        (rw e (Memᴰ-append_left (map ported global) given x there))

module _ {G : Type 0} (net : Outside G) (mc : MappingContext G) where
  -- The addresses of a mapped socket are just these: the one that it is bound to or, if that is
  -- unspecified, its port on each interface; those that gateways and peers give; and, if the port is
  -- forced, the socket's port on the global ones of them.
  pub mapped_iff :
      (addr x : SocketAddr) {bound : SocketAddr} {addrs : List SocketAddr}
      → mapped_tcp_socket net mc addr ≡ ok (bound, addrs)
      → Memᴰ x addrs ↔ Origin net mc bound x
  unfolding mapped_tcp_socket
  mapped_iff addr x {bound} {addrs} h =
      let (b, e, k) =
        bind_ok (net.new_reusably_bound addr)
          (λ addr. net.timeout >>= λ _. ok (addr, mapped_addrs net mc addr)) h in
      let (u, e', k') = bind_ok net.timeout (λ _. ok (b, mapped_addrs net mc b)) k in
      let made : SocketAddr × List SocketAddr = (b, mapped_addrs net mc b) in
      let given : SocketAddr × List SocketAddr = (bound, addrs) in
      let q : made ≡ given = cc in
      subst (λ p. Memᴰ x p.1 ↔ Origin net mc p.0 x) q
        (mapped-Origin net mc b x, Origin-mapped net mc b x)
