-- ===== src/Compat/Map/Stale.antt =====
-- crust/src/compat/connection_map.rs: a reading task that outlives its connection.
use crust_futures.Base.{
  suc, ◌≡◌, refl, subst, sym, ap, ◌∙◌, List, [], ◌∷◌, ◌++◌, none, some, true, false, eq→same,
  if◌then◌else◌, arith, Memᴰ,
}
use crust_futures.Addr.{SocketAddr, CrustUser, Uid}
use crust_futures.Compat.Map.{
  PeerWrapper, ReadTask, State, get, erase, fire, without, is_some, contains_peer, insert_peer,
  removed, remove, finish,
}
use crust_futures.Compat.Event.{lost_peer}
use crust_futures.Compat.Map.Laws.{get-erase}

module _ {U : Type 0} (uids : Uid U) where
  get-erase_self : (u : U) (m : List (U × PeerWrapper)) → get uids u (erase uids u m) ≡ none
  get-erase_self u m =
      get-erase uids u u m ∙ ap (λ b. if b then none else get uids u m) (eq→same uids.eq u u refl)

module _ {U : Type 0} where
  fire_head :
      (t : ReadTask U) (ts : List (ReadTask U))
      → fire t.conn (t ∷ ts) ≡ record t { notified = true } ∷ fire t.conn ts
  unfolding fire
  fire_head t ts = ground arith

module _ {U B : Type 0} (uids : Uid U) where
  finish_found :
      (t : ReadTask U) (w : PeerWrapper) (s : State U B)
      → get uids t.uid s.map ≡ some w
      → finish uids t s ≡ record s {
        map = erase uids t.uid s.map;
        tasks = fire w.conn (without t.conn s.tasks);
        events = s.events ++ lost_peer t.uid ∷ [];
      }
  unfolding finish remove removed
  finish_found t w s e =
      ap
        (λ o.
          let s' = (removed uids o t.uid (record s { tasks = without t.conn s.tasks })).0 in
          record s' { events = s'.events ++ lost_peer t.uid ∷ [] })
        e

  remove_found :
      (u : U) (w : PeerWrapper) (s : State U B)
      → get uids u s.map ≡ some w
      → remove uids u s ≡ (record s { map = erase uids u s.map; tasks = fire w.conn s.tasks }, true)
  unfolding remove removed
  remove_found u w s e = ap (λ o. removed uids o u s) e

  -- The state behind a peer that was inserted.
  abbrev with_peer : U → CrustUser → SocketAddr → State U B → State U B
  with_peer uid kind addr s = record s {
    map = (uid, record { conn = s.next_conn; addr = addr; kind = kind }) ∷ s.map;
    tasks = record { conn = s.next_conn; uid = uid; kind = kind; notified = false } ∷ s.tasks;
    next_conn = suc s.next_conn;
  }

  insert_new :
      (uid : U) (kind : CrustUser) (addr : SocketAddr) (s : State U B)
      → contains_peer uids uid s ≡ false
      → insert_peer uids uid kind addr s ≡ (with_peer uid kind addr s, true)
  unfolding insert_peer
  insert_new uid kind addr s h =
      ap (λ b. if b then (s, false) else (with_peer uid kind addr s, true)) h

  get_new :
      (uid : U) (kind : CrustUser) (addr : SocketAddr) (s : State U B)
      → get uids uid (with_peer uid kind addr s).map
        ≡ some (record { conn = s.next_conn; addr = addr; kind = kind })
  unfolding get
  get_new uid kind addr s = rw (eq→same uids.eq uid uid refl) refl

  -- A task that ends reports its uid as lost and disconnects whatever connection that uid has at
  -- that time, its own or a later one: the later one is dropped, and its drop notice fires.
  pub finish_disconnects :
      (t : ReadTask U) (w : PeerWrapper) (s : State U B)
      → get uids t.uid s.map ≡ some w
      → let s' = finish uids t s in
        (contains_peer uids t.uid s' ≡ false)
        × (s'.events ≡ s.events ++ lost_peer t.uid ∷ [])
        × (s'.tasks ≡ fire w.conn (without t.conn s.tasks))
  unfolding contains_peer
  finish_disconnects t w s e =
      let end = finish_found t w s e in
      (
        ap (λ x. is_some (get uids t.uid x.map)) end ∙ ap is_some (get-erase_self uids t.uid s.map),
        ap (λ x. x.events) end,
        ap (λ x. x.tasks) end,
      )

  -- A peer that is disconnected and connected again before the reading task of its first
  -- connection has run loses the second one when that task does: it is connected, and then it is
  -- not, though nobody has disconnected it again.
  pub reconnect_lost :
      (uid : U) (k1 k2 : CrustUser) (a1 a2 : SocketAddr) (s : State U B)
      → contains_peer uids uid s ≡ false
      → let s1 = (insert_peer uids uid k1 a1 s).0 in
        let s2 = (remove uids uid s1).0 in
        let s3 = (insert_peer uids uid k2 a2 s2).0 in
        let old : ReadTask U = record {
          conn = s.next_conn;
          uid = uid;
          kind = k1;
          notified = true;
        } in
        (contains_peer uids uid s3 ≡ true)
        × Memᴰ old s3.tasks
        × (contains_peer uids uid (finish uids old s3) ≡ false)
  unfolding contains_peer
  reconnect_lost uid k1 k2 a1 a2 s h =
      let S1 = with_peer uid k1 a1 s in
      let S2 : State U B = record S1 {
        map = erase uids uid S1.map;
        tasks = fire s.next_conn S1.tasks;
      } in
      let S3 = with_peer uid k2 a2 S2 in
      let old : ReadTask U = record { conn = s.next_conn; uid = uid; kind = k1; notified = true } in
      let first = ap (λ x. x.0) (insert_new uid k1 a1 s h) in
      let second = ap (λ x. x.0) (remove_found uid _ S1 (get_new uid k1 a1 s)) in
      let third =
        ap (λ x. x.0) (insert_new uid k2 a2 S2 (ap is_some (get-erase_self uids uid S1.map))) in
      let path =
        ap (λ x. (insert_peer uids uid k2 a2 (remove uids uid x).0).0) first
        ∙ ap (λ x. (insert_peer uids uid k2 a2 x).0) second
        ∙ third in
      let lost = finish_disconnects old _ S3 (get_new uid k2 a2 S2) in
      subst
        (λ x.
          (contains_peer uids uid x ≡ true)
          × Memᴰ old x.tasks
          × (contains_peer uids uid (finish uids old x) ≡ false))
        (sym path)
        (
          ap is_some (get_new uid k2 a2 S2),
          Memᴰ.tail (subst (Memᴰ old) (sym (fire_head _ s.tasks)) (Memᴰ.head refl)),
          lost.0,
        )
