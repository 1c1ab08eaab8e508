-- ===== src/Compat/Map/Laws.antt =====
-- crust/src/compat/connection_map.rs: the map's operations against its look-up.
use crust_futures.Base.{
  ◌≡◌, refl, subst, ◌∙◌, List, [], ◌∷◌, Option, none, some, Bool, true, false, not, ◌&&◌, same,
  same→eq, eq→same, if◌then◌else◌, keep, Bool-cases, Option-cases, inl, inr, arith,
}
use crust_futures.Addr.{IpAddr, SocketAddr, CrustUser, Uid}
use crust_futures.Compat.Map.{
  PeerWrapper, State, get, erase, is_some, is_listed, contains_peer, insert_peer, remove,
  whitelist_filter,
}

module _ {U : Type 0} (uids : Uid U) where
  -- No uid stands twice in the map.
  abbrev pub Distinct : List (U × PeerWrapper) → Type 0
  Distinct [] = Unit {0}
  Distinct ((u, w) ∷ m) = (get uids u m ≡ none) × Distinct m

  pub get-erase :
      (u v : U) (m : List (U × PeerWrapper))
      → get uids v (erase uids u m) ≡ (if same uids.eq u v then none else get uids v m)
  unfolding get erase
  get-erase u v [] = ground arith
  get-erase u v ((k, w) ∷ m) = ground (
    arith,
    get-erase u v m,
    same→eq uids.eq k u,
    same→eq uids.eq k v,
    eq→same uids.eq u v,
    eq→same uids.eq k v,
    same→eq uids.eq u v,
  )

  -- What a filter of the map leaves of one look-up.
  abbrev pub filtered : (U × PeerWrapper → Bool) → U → Option PeerWrapper → Option PeerWrapper
  filtered p u none = none
  filtered p u (some w) = if p (u, w) then some w else none

  get-keep-none :
      (p : U × PeerWrapper → Bool) (u : U) (m : List (U × PeerWrapper))
      → get uids u m ≡ none
      → get uids u (keep p m) ≡ none
  unfolding get
  get-keep-none p u [] e = refl
  get-keep-none p u ((k, w) ∷ m) e = ground (arith, get-keep-none p u m)

  get-keep :
      (p : U × PeerWrapper → Bool) (u : U) (m : List (U × PeerWrapper))
      → Distinct m
      → get uids u (keep p m) ≡ filtered p u (get uids u m)
  unfolding get
  get-keep p u [] d = refl
  get-keep p u ((k, w) ∷ m) d = elim (Bool-cases (same uids.eq k u)) [
    | inl e ↦
        let k≡u : k ≡ u = same→eq uids.eq k u e in
        elim (Bool-cases (p (k, w))) [
          | inl q ↦
              let q' : p (u, w) ≡ true = subst (λ z. p (z, w) ≡ true) k≡u q in rw (q, e, q') refl
          | inr q ↦
              let q' : p (u, w) ≡ false = subst (λ z. p (z, w) ≡ false) k≡u q in
              rw (q, e, q') (get-keep-none p u m (subst (λ z. get uids z m ≡ none) k≡u d.0))
        ]
    | inr e ↦ elim (Bool-cases (p (k, w))) [
      | inl q ↦ rw (q, e) (get-keep p u m d.1)
      | inr q ↦ rw (q, e) (get-keep p u m d.1)
    ]
  ]

  pub erase-Distinct : (u : U) (m : List (U × PeerWrapper)) → Distinct m → Distinct (erase uids u m)
  unfolding erase
  erase-Distinct u [] d = tt
  erase-Distinct u ((k, w) ∷ m) d = elim (Bool-cases (same uids.eq k u)) [
    | inl e ↦ rw e (erase-Distinct u m d.1)
    | inr e ↦ rw e (get-erase u k m ∙ ground (arith, d.0), erase-Distinct u m d.1)
  ]

  pub keep-Distinct :
      (p : U × PeerWrapper → Bool) (m : List (U × PeerWrapper)) → Distinct m → Distinct (keep p m)
  keep-Distinct p [] d = tt
  keep-Distinct p ((k, w) ∷ m) d = elim (Bool-cases (p (k, w))) [
    | inl e ↦ rw e (get-keep-none p k m d.0, keep-Distinct p m d.1)
    | inr e ↦ rw e (keep-Distinct p m d.1)
  ]

  absent :
      (uid v : U) (m : List (U × PeerWrapper))
      → get uids uid m ≡ none
      → get uids v m ≡ (if same uids.eq uid v then none else get uids v m)
  absent uid v m e = elim (Bool-cases (same uids.eq uid v)) [
    | inl h ↦ rw h (subst (λ z. get uids z m ≡ none) (same→eq uids.eq uid v h) e)
    | inr h ↦ rw h refl
  ]

module _ {U B : Type 0} (uids : Uid U) where
  -- A peer is inserted exactly when its uid is not connected; then a look-up finds the new
  -- connection under that uid, and what it found before under every other. Otherwise nothing
  -- changes. A uid still stands once in the map.
  pub insert_peer_lem :
      (uid v : U) (kind : CrustUser) (addr : SocketAddr) (s : State U B)
      → Distinct uids s.map
      → let (s', done) = insert_peer uids uid kind addr s in
        (done ≡ not (contains_peer uids uid s))
        × (get uids v s'.map ≡ (
            if done && same uids.eq uid v
            then some (record { conn = s.next_conn; addr = addr; kind = kind })
            else get uids v s.map))
        × Distinct uids s'.map
  unfolding insert_peer get
  insert_peer_lem uid v kind addr s d = elim (Option-cases (get uids uid s.map)) [
    | inl e ↦ rw (e, is_some) (refl, refl, (e, d))
    | inr (w, e) ↦ rw (e, is_some) (refl, refl, d)
  ]

  -- `remove` tells whether the uid was connected, and disconnects that uid and no other.
  pub remove_lem :
      (uid v : U) (s : State U B)
      → Distinct uids s.map
      → let (s', done) = remove uids uid s in
        (done ≡ contains_peer uids uid s)
        × (get uids v s'.map ≡ (if same uids.eq uid v then none else get uids v s.map))
        × Distinct uids s'.map
  unfolding remove contains_peer
  remove_lem uid v s d = elim (Option-cases (get uids uid s.map)) [
    | inl e ↦ rw (e, is_some) (refl, absent uids uid v s.map e, d)
    | inr (w, e) ↦
        rw (e, is_some) (refl, get-erase uids uid v s.map, erase-Distinct uids uid s.map d)
  ]

  -- The white lists keep exactly the peers whose address is on the list of their kind.
  pub whitelist_filter_lem :
      (client_ips node_ips : List IpAddr) (v : U) (s : State U B)
      → Distinct uids s.map
      → (get uids v (whitelist_filter uids client_ips node_ips s).map
          ≡ filtered uids (λ e. is_listed client_ips node_ips e.1) v (get uids v s.map))
        × Distinct uids (whitelist_filter uids client_ips node_ips s).map
  unfolding whitelist_filter
  whitelist_filter_lem client_ips node_ips v s d =
      let p : U × PeerWrapper → Bool = λ e. is_listed client_ips node_ips e.1 in
      (get-keep uids p v s.map d, keep-Distinct uids p s.map d)
