-- ===== src/Service/Addresses.antt =====
-- crust/src/service.rs: the addresses under which a service can be reached.
use crust_futures.Base.{
  ◌≡◌, ◌⊎◌, ◌↔◌, sym, ap, ◌∙◌, subst, [], ◌∷◌, ◌++◌, some, Result, ok, bind_ok, Memᴰ, inl, inr,
}
use crust_futures.Addr.{SocketAddr}
use crust_futures.Net.{IoError}
use crust_futures.ConnectionInfo.{PrivConnectionInfo, pub_connection_info}
use crust_futures.Listener
use crust_futures.Listener.{Incoming}
use crust_futures.Listener.Advertised.{listener_iff}
use crust_futures.Nat.{Outside, mapped_tcp_socket}
use crust_futures.Nat.Mapped.{Origin, mapped_iff}
use crust_futures.Acceptor
use crust_futures.Acceptor.{Acceptor}
use crust_futures.Service.{
  Service, unspecified_at, port_or_any, start_listener, prepare_connection_info,
}

module _ {U D G : Type 0} (net : Outside G) (s : Service U D G) where
  -- A listener that is started adds to the addresses of the service just those under which its socket
  -- can be reached: its own, those of the interfaces, and those that gateways and peers give.
  pub start_listener_iff :
      (listen : SocketAddr → Result IoError SocketAddr) (incoming : Incoming) (x : SocketAddr)
      {local_addr : SocketAddr} {s' : Service U D G}
      → start_listener net listen incoming s ≡ ok (local_addr, s')
      → (bound : SocketAddr) × (listen bound ≡ ok local_addr)
        × (Memᴰ x s'.acceptor.listeners.current
            ↔ (Memᴰ x s.acceptor.listeners.current ⊎ Origin net s.mc bound x))
  unfolding start_listener Acceptor.listener
  start_listener_iff listen incoming x {local_addr} {s'} h =
      let at_port = unspecified_at (port_or_any s.config.tcp_acceptor_port) in
      let (r, e, k) = bind_ok (Acceptor.listener net listen incoming at_port s.mc s.acceptor) _ h in
      let (mapped, e', k') = bind_ok (mapped_tcp_socket net s.mc at_port) _ e in
      let (local', e'', k'') = bind_ok (listen mapped.0) _ k' in
      let added = Listener.listener mapped.1 incoming s.acceptor.listeners in
      let accepted : SocketAddr × Acceptor U D = (
        local',
        record (s.acceptor) {
          listeners = added.0;
          listeners_tx = s.acceptor.listeners_tx ++ added.1 ∷ [];
        },
      ) in
      let q : accepted ≡ r = cc in
      let started : SocketAddr × Service U D G = (r.0, record s { acceptor = r.1 }) in
      let given : SocketAddr × Service U D G = (local_addr, s') in
      let q' : started ≡ given = cc in
      let there : added.0.current ≡ s'.acceptor.listeners.current =
        ap (λ p. p.1.listeners.current) q ∙ ap (λ p. p.1.acceptor.listeners.current) q' in
      let of_listener = listener_iff mapped.1 incoming s.acceptor.listeners x in
      let of_mapping = mapped_iff net s.mc at_port x e' in
      (
        mapped.0,
        e'' ∙ ap (λ p. ok p.0) q ∙ ap (λ p. ok p.0) q',
        subst (λ l. Memᴰ x l ↔ (Memᴰ x s.acceptor.listeners.current ⊎ Origin net s.mc mapped.0 x))
            there
            (
              λ m. elim (of_listener.0 m) [ inl old ↦ inl old | inr new ↦ inr (of_mapping.0 new) ],
              λ o. of_listener.1 (elim o [ inl old ↦ inl old | inr new ↦ inr (of_mapping.1 new) ]),
            ),
      )

  -- The connection info that a service prepares gives the addresses that it listens on, and just those
  -- under which the new socket for hole punching can be reached; the public part gives both.
  pub prepare_connection_info_iff :
      (x : SocketAddr) {info : PrivConnectionInfo U}
      → (prepare_connection_info net s).1 ≡ ok info
      → (bound : SocketAddr) × (info.hole_punch_socket ≡ some bound)
        × ((pub_connection_info info).id ≡ s.our_uid)
        × ((pub_connection_info info).for_direct ≡ s.acceptor.listeners.current)
        × (Memᴰ x (pub_connection_info info).for_hole_punch ↔ Origin net s.mc bound x)
  unfolding prepare_connection_info Acceptor.addresses Listener.addresses pub_connection_info
  prepare_connection_info_iff x {info} h =
      let (mapped, e, k) = bind_ok (mapped_tcp_socket net s.mc (unspecified_at 0)) _ h in
      let made : PrivConnectionInfo U = record {
        id = s.our_uid;
        for_direct = s.acceptor.listeners.current;
        for_hole_punch = mapped.1;
        hole_punch_socket = some mapped.0;
      } in
      let q : made ≡ info = cc in
      (
        mapped.0,
        ap (λ i. i.hole_punch_socket) (sym q),
        ap (λ i. i.id) (sym q),
        ap (λ i. i.for_direct) (sym q),
        subst (λ i. Memᴰ x i.for_hole_punch ↔ Origin net s.mc mapped.0 x) q
            (mapped_iff net s.mc (unspecified_at 0) x e),
      )
