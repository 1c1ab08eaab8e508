-- ===== src/Compat/Map/Steps.antt =====
-- crust/src/compat/connection_map.rs: the runs of a connection map, by its owner's calls and by the
-- steps of its reading tasks.
use crust_futures.Base.{
  ℕ, ◌≡◌, refl, sym, ap, ◌∙◌, subst, List, [], ◌∷◌, ◌++◌, Option, none, some, Bool, false, inl, inr,
  Memᴰ, Bool-cases, same, eq→same, if◌then◌else◌,
}
use crust_futures.Addr.{IpAddr, SocketAddr, CrustUser, Uid}
use crust_futures.Compat.Event.{Event, lost_peer}
use crust_futures.Compat.Map.{
  PeerWrapper, ReadTask, State, new, get, erase, without, insert_peer, removed, remove, sent_to,
  send, whitelist_filter, clear, receive, finish,
}
use crust_futures.Compat.Map.Laws.{get-erase}
use crust_futures.Compat.Map.Entries.{Apart-unique, Memᴰ-get, fire_there, fire-without}
use crust_futures.Compat.Map.Connected.{
  IsConnected, task_of, task_there, entry_there, insert_peer-IsConnected, remove-IsConnected,
  whitelist_filter-IsConnected, clear-IsConnected, without-IsConnected,
}

module _ {U B : Type 0} (uids : Uid U) where
  -- A step of the map: a call of its owner, a message on a connection, or the end of a task.
  pub data Step (s : State U B) : State U B → Type 0 where
    inserts :
        (u : U) (kind : CrustUser) (addr : SocketAddr) → Step s (insert_peer uids u kind addr s).0
    removes : (u : U) → Step s (remove uids u s).0
    sends :
        (accepts : ℕ → Bool) (u : U) (msg : B) (priority : ℕ)
        → Step s (send uids accepts u msg priority s).0
    filters :
        (client_ips node_ips : List IpAddr) → Step s (whitelist_filter uids client_ips node_ips s)
    clears : Step s (clear uids s)
    receives : (t : ReadTask U) (msg : B) → Memᴰ t s.tasks → Step s (receive uids t msg s)
    finishes : (t : ReadTask U) → Memᴰ t s.tasks → Step s (finish uids t s)
    -- Other events go over the same channel.
    tells : (e : Event U B) → Step s (record s { events = s.events ++ e ∷ [] })

  pub data Reach (s : State U B) : State U B → Type 0 where
    here : Reach s s
    next : {t u : State U B} → Reach s t → Step t u → Reach s u

  told-IsConnected :
      (s : State U B) (sent : List (ℕ × ℕ × B)) (events : List (Event U B))
      → IsConnected uids s
      → IsConnected uids (record s { sent = sent; events = events })
  told-IsConnected s sent events c = record {
    distinct = c.distinct;
    apart = c.apart;
    fresh = c.fresh;
    mapped = c.mapped;
    live = c.live;
  }

  -- Taking the task off first comes to the same.
  removed-without :
      (u : U) (k : ℕ) (o : Option PeerWrapper) (s : State U B)
      → (removed uids o u (record s { tasks = without k s.tasks })).0
        ≡ record (removed uids o u s).0 { tasks = without k (removed uids o u s).0.tasks }
  unfolding removed
  removed-without u k none s = refl
  removed-without u k (some w) s =
      ap (λ ts. record s { map = erase uids u s.map; tasks = ts }) (fire-without w.conn k s.tasks)

  removed_there :
      (u : U) (o : Option PeerWrapper) (t : ReadTask U) (s : State U B)
      → Memᴰ t s.tasks
      → (x : ReadTask U) × Memᴰ x (removed uids o u s).0.tasks × (x.conn ≡ t.conn) × (x.uid ≡ t.uid)
  unfolding removed
  removed_there u none t s m = (t, m, refl, refl)
  removed_there u (some w) t s m = fire_there w.conn t s.tasks m

  removed_absent :
      (u : U) (o : Option PeerWrapper) (s : State U B)
      → get uids u s.map ≡ o
      → get uids u (removed uids o u s).0.map ≡ none
  unfolding removed
  removed_absent u none s e = e
  removed_absent u (some w) s e =
      get-erase uids u u s.map
      ∙ ap (λ b. if b then none else get uids u s.map) (eq→same uids.eq u u refl)

  finish-IsConnected :
      (s : State U B) (t : ReadTask U)
      → IsConnected uids s
      → Memᴰ t s.tasks
      → IsConnected uids (finish uids t s)
  unfolding finish remove
  finish-IsConnected s t c m =
      let s1 = (remove uids t.uid s).0 in
      let c1 : IsConnected uids s1 = remove-IsConnected uids s c t.uid in
      let (x, there, same_conn, same_uid) = removed_there t.uid (get uids t.uid s.map) t s m in
      let gone : get uids t.uid s1.map ≡ none =
        removed_absent t.uid (get uids t.uid s.map) s refl in
      let s2 : State U B = record s1 { tasks = without t.conn s1.tasks } in
      let c2 : IsConnected uids s2 = without-IsConnected uids s1 c1 t.conn (λ e k q.
        let one : task_of e ≡ x =
          Apart-unique (task_of e) x s1.tasks c1.apart (task_there uids s1 c1 e k) there
            (sym q ∙ sym same_conn) in
        let owner : e.0 ≡ t.uid = ap (λ z. z.uid) one ∙ same_uid in
        let found = Memᴰ-get uids e s1.map c1.distinct k in
        let clash : some e.1 ≡ none = sym found ∙ (ap (λ z. get uids z s1.map) owner ∙ gone) in
        cc) in
      subst (λ z. IsConnected uids (record z { events = z.events ++ lost_peer t.uid ∷ [] }))
        (sym (removed-without t.uid t.conn (get uids t.uid s.map) s))
        (told-IsConnected s2 s2.sent (s2.events ++ lost_peer t.uid ∷ []) c2)

  sent_to-IsConnected :
      (o : Option PeerWrapper) (accepts : ℕ → Bool) (msg : B) (priority : ℕ) (s : State U B)
      → IsConnected uids s
      → IsConnected uids (sent_to uids o accepts priority msg s).0
  unfolding sent_to
  sent_to-IsConnected none accepts msg priority s c = c
  sent_to-IsConnected (some w) accepts msg priority s c = elim (Bool-cases (accepts w.conn)) [
    | inl e ↦ rw e (told-IsConnected s (s.sent ++ (w.conn, priority, msg) ∷ []) s.events c)
    | inr e ↦ rw e c
  ]

  Step-IsConnected : {s t : State U B} → Step s t → IsConnected uids s → IsConnected uids t
  unfolding receive send
  Step-IsConnected {s} (inserts u kind addr) c = insert_peer-IsConnected uids s c u kind addr
  Step-IsConnected {s} (removes u) c = remove-IsConnected uids s c u
  Step-IsConnected {s} (sends accepts u msg priority) c =
      sent_to-IsConnected (get uids u s.map) accepts msg priority s c
  Step-IsConnected {s} (filters client_ips node_ips) c =
      whitelist_filter-IsConnected uids s c client_ips node_ips
  Step-IsConnected {s} clears c = clear-IsConnected uids s c
  Step-IsConnected {s} (receives t msg m) c = told-IsConnected s s.sent _ c
  Step-IsConnected {s} (finishes t m) c = finish-IsConnected s t c m
  Step-IsConnected {s} (tells e) c = told-IsConnected s s.sent _ c

  pub new-IsConnected : IsConnected {B = B} uids (new uids)
  unfolding new
  new-IsConnected = record { distinct = tt; apart = tt; fresh = tt; mapped = tt; live = tt }

  -- However a connection map is used, and whatever its reading tasks do, it names a uid once, each of
  -- its connections has exactly one task that reads from it and has had no notice, and a task
  -- without a notice reads from a connection of the map.
  pub Reach-IsConnected : {s t : State U B} → Reach s t → IsConnected uids s → IsConnected uids t
  Reach-IsConnected here c = c
  Reach-IsConnected (next r st) c = Step-IsConnected st (Reach-IsConnected r c)

  -- From a new map on, the end of a task that has had no notice takes its own connection off the map,
  -- and leaves the look-up of every other uid as it was.
  pub finish_own :
      (s : State U B) (t : ReadTask U) (v : U)
      → Reach (new uids) s
      → Memᴰ t s.tasks
      → t.notified ≡ false
      → ((w : PeerWrapper) × (get uids t.uid s.map ≡ some w) × (w.conn ≡ t.conn))
        × (get uids v (finish uids t s).map
            ≡ (if same uids.eq t.uid v then none else get uids v s.map))
  unfolding finish remove removed
  finish_own s t v r m n =
      let c = Reach-IsConnected r new-IsConnected in
      let (w, found, q) = entry_there uids s c t m n in
      (
        (w, found, q),
        ap
              (λ o.
                get uids v
                  (removed uids o t.uid (record s { tasks = without t.conn s.tasks })).0.map)
              found
            ∙ get-erase uids t.uid v s.map,
      )
