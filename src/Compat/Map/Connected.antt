-- ===== src/Compat/Map/Connected.antt =====
-- crust/src/compat/connection_map.rs: the map and the reading tasks agree, through every operation.
use crust_futures.Base.{
  ℕ, suc, ◌<◌, ◌≡◌, ◌≢◌, refl, sym, ap, ◌∙◌, subst, List, [], ◌∷◌, Option, none, some, Bool, true,
  false, not, ◌⊎◌, inl, inr, same, same→eq, eq→same, if◌then◌else◌, keep, Bool-cases, Option-cases,
  Memᴰ, Memᴰ-cons, arith, All, All-at, All-of, Memᴰ-keep_of, of_Memᴰ-keep,
}
use crust_futures.Addr.{IpAddr, SocketAddr, CrustUser, Uid}
use crust_futures.Compat.Map.{
  PeerWrapper, ReadTask, State, get, erase, fire_all, without, is_some, contains_peer, insert_peer,
  removed, remove, is_listed, whitelist_filter, clear,
}
use crust_futures.Compat.Map.Laws.{Distinct, erase-Distinct, keep-Distinct}
use crust_futures.Compat.Map.Entries.{
  Apart, conns, get-Memᴰ, Memᴰ-get, of_Memᴰ-erase, Memᴰ-erase_of, Apart-unique, conns-fire_all,
  fire_all_live, fire_all_kept, of_Memᴰ-without, Memᴰ-without_of, All-without, Apart-without,
}

module _ {U : Type 0} where
  -- The task that reads from the connection of an entry, and has had no notice.
  abbrev pub task_of : U × PeerWrapper → ReadTask U
  task_of (u, w) = record { conn = w.conn; uid = u; kind = w.kind; notified = false }

module _ {U : Type 0} (uids : Uid U) where
  -- The connection of a task without a notice is the one that its uid has in the map.
  abbrev pub Lives : Bool → ReadTask U → List (U × PeerWrapper) → Type 0
  Lives true t m = Unit {0}
  Lives false t m = (w : PeerWrapper) × (get uids t.uid m ≡ some w) × (w.conn ≡ t.conn)

  Lives-of :
      (b : Bool) (t : ReadTask U) (m : List (U × PeerWrapper))
      → (b ≡ false → (w : PeerWrapper) × (get uids t.uid m ≡ some w) × (w.conn ≡ t.conn))
      → Lives b t m
  Lives-of true t m h = tt
  Lives-of false t m h = h refl

module _ {U B : Type 0} (uids : Uid U) where
  -- The map names a uid once, and each of its connections has a task that reads from it; a
  -- connection has one task, and a task without a notice reads from a connection of the map.
  pub record IsConnected (s : State U B) : Type 0 where
    pub distinct : Distinct uids s.map
    pub apart : Apart (conns s.tasks)
    pub fresh : All (λ c. c < s.next_conn) (conns s.tasks)
    pub mapped : All (λ e. Memᴰ (task_of e) s.tasks) s.map
    pub live : All (λ t. Lives uids t.notified t s.map) s.tasks

module _ {U B : Type 0} (uids : Uid U) (s : State U B) (c : IsConnected uids s) where
  pub task_there : (e : U × PeerWrapper) → Memᴰ e s.map → Memᴰ (task_of e) s.tasks
  task_there e m = All-at (λ x. Memᴰ (task_of x) s.tasks) s.map e c.mapped m

  pub entry_there :
      (t : ReadTask U)
      → Memᴰ t s.tasks
      → t.notified ≡ false
      → (w : PeerWrapper) × (get uids t.uid s.map ≡ some w) × (w.conn ≡ t.conn)
  entry_there t m n =
      subst (λ b. Lives uids b t s.map) n
        (All-at (λ x. Lives uids x.notified x s.map) s.tasks t c.live m)

  -- Two entries of one connection are of one uid.
  pub one_uid :
      (e x : U × PeerWrapper) → Memᴰ e s.map → Memᴰ x s.map → e.1.conn ≡ x.1.conn → e.0 ≡ x.0
  one_uid e x m n q =
      ap (λ z. z.uid)
        (Apart-unique (task_of e) (task_of x) s.tasks c.apart (task_there e m) (task_there x n) q)

  -- Entries leave the map, and the notices of their connections fire.
  pub dropped-IsConnected :
      (m' d : List (U × PeerWrapper))
      → Distinct uids m'
      → ((e : U × PeerWrapper) → Memᴰ e d → Memᴰ e s.map)
      → ((e : U × PeerWrapper)
          → Memᴰ e m'
          → Memᴰ e s.map × ((x : U × PeerWrapper) → Memᴰ x d → x.0 ≢ e.0))
      → ((e : U × PeerWrapper) → Memᴰ e s.map → Memᴰ e d ⊎ Memᴰ e m')
      → IsConnected uids (record s { map = m'; tasks = fire_all d s.tasks })
  dropped-IsConnected m' d distinct gone stays splits = record {
    distinct = distinct;
    apart = subst Apart (sym (conns-fire_all d s.tasks)) c.apart;
    fresh = subst (All (λ k. k < s.next_conn)) (sym (conns-fire_all d s.tasks)) c.fresh;
    mapped =
        All-of (λ e. Memᴰ (task_of e) (fire_all d s.tasks)) m'
          (λ e m.
            let (old, away) = stays e m in
            fire_all_kept d (task_of e) s.tasks (task_there e old)
              (λ x k q. away x k (one_uid x e (gone x k) old q)));
    live =
        All-of (λ t. Lives uids t.notified t m') (fire_all d s.tasks)
          (λ t m. Lives-of uids t.notified t m' (λ n.
            let (old, away) = fire_all_live d t s.tasks m n in
            let (w, found, q) = entry_there t old n in
            elim (splits (t.uid, w) (get-Memᴰ uids t.uid w s.map found)) [
              | inl k ↦ absurd (away (t.uid, w) k q)
              | inr k ↦ (w, Memᴰ-get uids (t.uid, w) m' distinct k, q)
            ]));
  }

module _ {U B : Type 0} (uids : Uid U) (s : State U B) (c : IsConnected uids s) where
  removed-IsConnected :
      (u : U) (o : Option PeerWrapper)
      → get uids u s.map ≡ o
      → IsConnected uids (removed uids o u s).0
  unfolding removed fire_all
  removed-IsConnected u none e = c
  removed-IsConnected u (some w) e =
      dropped-IsConnected uids s c (erase uids u s.map) ((u, w) ∷ [])
        (erase-Distinct uids u s.map c.distinct)
        (λ x m. elim (Memᴰ-cons m) [
          | inl q ↦ subst (λ z. Memᴰ z s.map) (sym q) (get-Memᴰ uids u w s.map e)
          | inr n ↦ elim n [ ]
        ])
        (λ x m.
          let (old, away) = of_Memᴰ-erase uids u x s.map m in
          (
            old,
            λ y k. elim (Memᴰ-cons k) [
              | inl q ↦ λ r. away (ap (λ z. z.0) (sym q) ∙ r)
              | inr n ↦ elim n [ ]
            ],
          ))
        (λ x m. elim (Memᴰ-erase_of uids u x s.map m) [
          | inl q ↦
              let found = Memᴰ-get uids x s.map c.distinct m in
              let w≡ : some w ≡ some x.1 = sym e ∙ (ap (λ z. get uids z s.map) q ∙ found) in
              let w≡x : w ≡ x.1 = cc in inl (Memᴰ.head (λ i. (sym q i, sym w≡x i)))
          | inr k ↦ inr k
        ])

  pub remove-IsConnected : (u : U) → IsConnected uids (remove uids u s).0
  unfolding remove
  remove-IsConnected u = removed-IsConnected u (get uids u s.map) refl

  pub whitelist_filter-IsConnected :
      (client_ips node_ips : List IpAddr)
      → IsConnected uids (whitelist_filter uids client_ips node_ips s)
  unfolding whitelist_filter
  whitelist_filter-IsConnected client_ips node_ips =
      let p : U × PeerWrapper → Bool = λ e. is_listed client_ips node_ips e.1 in
      dropped-IsConnected uids s c (keep p s.map) (keep (λ e. not (p e)) s.map)
        (keep-Distinct uids p s.map c.distinct) (λ x m. (of_Memᴰ-keep (λ e. not (p e)) s.map x m).0)
        (λ x m.
          let (old, listed) = of_Memᴰ-keep p s.map x m in
          (
            old,
            λ y k q.
                let (there, unlisted) = of_Memᴰ-keep (λ e. not (p e)) s.map y k in
                let fx = Memᴰ-get uids x s.map c.distinct old in
                let fy = Memᴰ-get uids y s.map c.distinct there in
                let both : some y.1 ≡ some x.1 = sym fy ∙ (ap (λ z. get uids z s.map) q ∙ fx) in
                let w≡ : y.1 ≡ x.1 = cc in
                let clash : false ≡ true =
                  sym (ap not listed)
                  ∙ (ap (λ w. not (is_listed client_ips node_ips w)) (sym w≡) ∙ unlisted) in
                cc,
          ))
        (λ x m. elim (Bool-cases (p x)) [
          | inl e ↦ inr (Memᴰ-keep_of p s.map x m e)
          | inr e ↦ inl (Memᴰ-keep_of (λ y. not (p y)) s.map x m (ap not e))
        ])

  pub clear-IsConnected : IsConnected uids (clear uids s)
  unfolding clear
  clear-IsConnected =
      dropped-IsConnected uids s c [] s.map tt (λ x m. m) (λ x m. elim m [ ]) (λ x m. inl m)

  -- The task of a connection that the map does not have goes.
  pub without-IsConnected :
      (k : ℕ)
      → ((e : U × PeerWrapper) → Memᴰ e s.map → k ≢ e.1.conn)
      → IsConnected uids (record s { tasks = without k s.tasks })
  without-IsConnected k away = record {
    distinct = c.distinct;
    apart = Apart-without k s.tasks c.apart;
    fresh = All-without (λ x. x < s.next_conn) k s.tasks c.fresh;
    mapped =
        All-of (λ e. Memᴰ (task_of e) (without k s.tasks)) s.map
          (λ e m. Memᴰ-without_of k (task_of e) s.tasks (task_there uids s c e m) (away e m));
    live =
        All-of (λ t. Lives uids t.notified t s.map) (without k s.tasks)
          (λ t m.
            All-at (λ x. Lives uids x.notified x s.map) s.tasks t c.live
              (of_Memᴰ-without k t s.tasks m));
  }

module _ {U B : Type 0} (uids : Uid U) (s : State U B) (c : IsConnected uids s) where
  pub insert_peer-IsConnected :
      (u : U) (kind : CrustUser) (addr : SocketAddr)
      → IsConnected uids (insert_peer uids u kind addr s).0
  unfolding insert_peer contains_peer get
  insert_peer-IsConnected u kind addr = elim (Option-cases (get uids u s.map)) [
    | inr (w, e) ↦ rw (e, is_some) c
    | inl e ↦
        rw (e, is_some)
          (record {
            distinct = (e, c.distinct);
            apart = (above s.next_conn (conns s.tasks) c.fresh, c.apart);
            fresh = (omega arith, raised s.next_conn (conns s.tasks) c.fresh);
            mapped = (
              Memᴰ.head refl,
              All-of (λ x. Memᴰ (task_of x) (new_task ∷ s.tasks)) s.map
                  (λ x m. Memᴰ.tail (task_there uids s c x m)),
            );
            live = (
              (new_peer, rw (eq→same uids.eq u u refl) refl, refl),
              All-of (λ t. Lives uids t.notified t ((u, new_peer) ∷ s.map)) s.tasks
                  (λ t m. Lives-of uids t.notified t ((u, new_peer) ∷ s.map) (λ n.
                    let (w, found, q) = entry_there uids s c t m n in
                    (w, past t.uid w e found, q))),
            );
          })
  ]
    where
      new_peer : PeerWrapper
      new_peer = record { conn = s.next_conn; addr = addr; kind = kind }

      new_task : ReadTask U
      new_task = record { conn = s.next_conn; uid = u; kind = kind; notified = false }

      above : (n : ℕ) (cs : List ℕ) → All (λ k. k < n) cs → All (λ k. k ≢ n) cs
      above n [] a = tt
      above n (k ∷ cs) a = (λ q. omega arith, above n cs a.1)

      raised : (n : ℕ) (cs : List ℕ) → All (λ k. k < n) cs → All (λ k. k < suc n) cs
      raised n [] a = tt
      raised n (k ∷ cs) a = (omega arith, raised n cs a.1)

      past :
          (v : U) (w : PeerWrapper)
          → get uids u s.map ≡ none
          → get uids v s.map ≡ some w
          → (if same uids.eq u v then some new_peer else get uids v s.map) ≡ some w
      past v w absent found = elim (Bool-cases (same uids.eq u v)) [
        | inr q ↦ rw q found
        | inl q ↦
            let u≡v : u ≡ v = same→eq uids.eq u v q in
            let clash : some w ≡ none =
              sym found ∙ (ap (λ z. get uids z s.map) (sym u≡v) ∙ absent) in
            cc
      ]
