-- ===== src/HolePunch/Agree.antt =====
-- crust/src/net/nat/hole_punch.rs: only the addresses that it is given are connected to.
use crust_futures.Base.{
  ◌≡◌, refl, ap, sym, ◌∙◌, List, [], ◌∷◌, ◌++◌, map, map-agree, Result, ok, err, ◌>>=◌, Memᴰ,
}
use crust_futures.Addr.{SocketAddr}
use crust_futures.Net.{IoError}
use crust_futures.HolePunch.{Attempted, Puncher, at_addr, bind_all, tcp_hole_punch}

module _ {T : Type 0} (P : Puncher T) where
  cons_same :
      (addr : SocketAddr) (addrs : List SocketAddr) (r : Result IoError (List SocketAddr))
      → r ≡ (r >>= λ _. ok addrs)
      → (r >>= λ s. ok (addr ∷ s)) ≡ ((r >>= λ s. ok (addr ∷ s)) >>= λ _. ok (addr ∷ addrs))
  cons_same addr addrs (ok s) h = let q : s ≡ addrs = cc in ap (λ l. ok (addr ∷ l)) q
  cons_same addr addrs (err e) h = refl

  bind_step :
      (addr : SocketAddr) (addrs : List SocketAddr) (b : Result IoError (Unit {0}))
      (r : Result IoError (List SocketAddr))
      → r ≡ (r >>= λ _. ok addrs)
      → (b >>= λ _. r >>= λ s. ok (addr ∷ s))
        ≡ ((b >>= λ _. r >>= λ s. ok (addr ∷ s)) >>= λ _. ok (addr ∷ addrs))
  bind_step addr addrs (err e) r h = refl
  bind_step addr addrs (ok x) r h = cons_same addr addrs r h

  -- The sockets are for the addresses that were given.
  bind_all_same :
      (addrs : List SocketAddr) → bind_all P addrs ≡ (bind_all P addrs >>= λ _. ok addrs)
  unfolding bind_all
  bind_all_same [] = refl
  bind_all_same (addr ∷ addrs) =
      bind_step addr addrs (P.new_reusably_bound addr) (bind_all P addrs) (bind_all_same addrs)

module _ {T : Type 0} (P : Puncher T) (bind' : SocketAddr → Result IoError (Unit {0}))
    (stream' : SocketAddr → Attempted T) where
  abbrev pub other : Puncher T
  other = record P { new_reusably_bound = bind'; connect_stream = stream' }

  bind_all-agree :
      (addrs : List SocketAddr)
      → ((addr : SocketAddr) → Memᴰ addr addrs → P.new_reusably_bound addr ≡ bind' addr)
      → bind_all P addrs ≡ bind_all other addrs
  unfolding bind_all
  bind_all-agree [] h = refl
  bind_all-agree (addr ∷ addrs) h =
      rw (h addr (Memᴰ.head refl), bind_all-agree addrs (λ a m. h a (Memᴰ.tail m))) refl

  with_all :
      {A : Type 0} (addrs : List SocketAddr) (r : Result IoError (List SocketAddr))
      (f g : List SocketAddr → Result IoError A)
      → r ≡ (r >>= λ _. ok addrs)
      → f addrs ≡ g addrs
      → (r >>= f) ≡ (r >>= g)
  with_all addrs (err e) f g h q = refl
  with_all addrs (ok s) f g h q = let e : s ≡ addrs = cc in ap f e ∙ q ∙ ap g (sym e)

  -- What else the network does does not matter.
  pub tcp_hole_punch-agree :
      (addrs : List SocketAddr)
      → ((addr : SocketAddr)
          → Memᴰ addr addrs
          → (P.new_reusably_bound addr ≡ bind' addr) × (P.connect_stream addr ≡ stream' addr))
      → tcp_hole_punch P addrs ≡ tcp_hole_punch other addrs
  unfolding tcp_hole_punch
  tcp_hole_punch-agree addrs h =
      let heard : map (λ addr. at_addr addr (P.connect_stream addr)) addrs
          ≡ map (λ addr. at_addr addr (stream' addr)) addrs =
        map-agree _ _ addrs (λ addr m. ap (at_addr addr) (h addr m).1) in
      ap
        (λ r. P.local_addr >>= λ _. r >>= λ s.
          P.listen >>= λ _. ok (map (λ addr. at_addr addr (P.connect_stream addr)) s ++ P.incoming))
        (bind_all-agree addrs (λ a m. (h a m).0))
      ∙ ap (λ r. P.local_addr >>= λ _. r)
          (with_all addrs (bind_all other addrs)
            (λ s. P.listen >>= λ _.
              ok (map (λ addr. at_addr addr (P.connect_stream addr)) s ++ P.incoming))
            (λ s. P.listen >>= λ _. ok (map (λ addr. at_addr addr (stream' addr)) s ++ P.incoming))
            (bind_all_same other addrs) (ap (λ l. P.listen >>= λ _. ok (l ++ P.incoming)) heard))
