-- ===== src/Compat/Map/Announced.antt =====
-- crust/src/compat/connection_map.rs: the events about peers, and the reading tasks that cause them.
use crust_futures.Base.{
  keep, not, ℕ, ◌≡◌, refl, sym, ap, ◌∙◌, subst, List, [], ◌∷◌, ◌++◌, map, Option, none, some, Bool,
  Memᴰ, Memᴰ-append_right, Bool-cases, ◌==◌, inl, inr, All, arith,
}
use crust_futures.Addr.{IpAddr, SocketAddr, CrustUser, Uid}
use crust_futures.Compat.Event.{
  Event, bootstrap_accept, bootstrap_connect, connect_success, lost_peer, new_message,
}
use crust_futures.Compat.Map.{
  PeerWrapper, ReadTask, State, get, fire, fire_all, without, contains_peer, insert_peer, removed,
  remove, sent_to, send, whitelist_filter, is_listed, clear, receive, finish,
}

module _ {U : Type 0} where
  abbrev owners : List (ReadTask U) → List U
  owners = map (λ t. t.uid)

  owners-fire : (c : ℕ) (ts : List (ReadTask U)) → owners (fire c ts) ≡ owners ts
  unfolding fire
  owners-fire c [] = refl
  owners-fire c (t ∷ ts) = ground (arith, owners-fire c ts)

  owners-fire_all :
      (d : List (U × PeerWrapper)) (ts : List (ReadTask U)) → owners (fire_all d ts) ≡ owners ts
  unfolding fire_all
  owners-fire_all [] ts = refl
  owners-fire_all ((v, w) ∷ d) ts = owners-fire_all d (fire w.conn ts) ∙ owners-fire w.conn ts

  All-owners-without :
      (P : U → Type 0) (c : ℕ) (ts : List (ReadTask U))
      → All P (owners ts)
      → All P (owners (without c ts))
  unfolding without
  All-owners-without P c [] a = tt
  All-owners-without P c (t ∷ ts) a = elim (Bool-cases (t.conn == c)) [
    | inl e ↦ rw e (All-owners-without P c ts a.1)
    | inr e ↦ rw e (a.0, All-owners-without P c ts a.1)
  ]

  known_later :
      (seen more us : List U) → All (λ u. Memᴰ u seen) us → All (λ u. Memᴰ u (more ++ seen)) us
  known_later seen more [] a = tt
  known_later seen more (u ∷ us) a =
      (Memᴰ-append_right more seen u a.0, known_later seen more us a.1)

  owner_known :
      (l : List U) (t : ReadTask U) (ts : List (ReadTask U))
      → All (λ u. Memᴰ u l) (owners ts)
      → Memᴰ t ts
      → Memᴰ t.uid l
  owner_known l t [] a n = elim n [ ]
  owner_known l t (x ∷ ts) a (Memᴰ.head e) = subst (λ z. Memᴰ z.uid l) (sym e) a.0
  owner_known l t (x ∷ ts) a (Memᴰ.tail n) = owner_known l t ts a.1 n

module _ {U B : Type 0} where
  -- The peer that an event tells to be connected.
  abbrev pub announced : Event U B → List U
  announced (bootstrap_accept u kind) = u ∷ []
  announced (bootstrap_connect u addr) = u ∷ []
  announced (connect_success u) = u ∷ []
  announced e = []

  -- An event about a connected peer comes behind one that announced it.
  abbrev pub Allowed : List U → Event U B → Type 0
  Allowed seen (lost_peer u) = Memᴰ u seen
  Allowed seen (new_message u kind msg) = Memᴰ u seen
  Allowed seen e = Unit {0}

  abbrev pub InOrder : List U → List (Event U B) → Type 0
  InOrder seen [] = Unit {0}
  InOrder seen (e ∷ es) = Allowed seen e × InOrder (announced e ++ seen) es

  abbrev pub after : List U → List (Event U B) → List U
  after seen [] = seen
  after seen (e ∷ es) = after (announced e ++ seen) es

  after-append :
      (seen : List U) (es : List (Event U B)) (e : Event U B)
      → after seen (es ++ e ∷ []) ≡ announced e ++ after seen es
  after-append seen [] e = refl
  after-append seen (x ∷ es) e = after-append (announced x ++ seen) es e

  InOrder-append :
      (seen : List U) (es : List (Event U B)) (e : Event U B)
      → InOrder seen es
      → Allowed (after seen es) e
      → InOrder seen (es ++ e ∷ [])
  InOrder-append seen [] e o a = (a, tt)
  InOrder-append seen (x ∷ es) e o a = (o.0, InOrder-append (announced x ++ seen) es e o.1 a)

  -- The events are in order, and every task reads from a peer that they have announced.
  pub record Tells (s : State U B) : Type 0 where
    pub told : InOrder [] s.events
    pub known : All (λ u. Memᴰ u (after [] s.events)) (owners s.tasks)

module _ {U B : Type 0} where
  -- An event is sent that is allowed; the tasks may change, if they are of announced peers.
  pub tell-Tells :
      (s : State U B) (e : Event U B)
      → Tells s
      → Allowed (after [] s.events) e
      → Tells (record s { events = s.events ++ e ∷ [] })
  tell-Tells s e t a = record {
    told = InOrder-append [] s.events e t.told a;
    known =
        subst (λ l. All (λ u. Memᴰ u l) (owners s.tasks)) (sym (after-append [] s.events e))
          (known_later (after [] s.events) (announced e) (owners s.tasks) t.known);
  }

  retask-Tells :
      (s s' : State U B)
      → s'.events ≡ s.events
      → owners s'.tasks ≡ owners s.tasks
      → Tells s
      → Tells s'
  retask-Tells s s' e o t = record {
    told = subst (InOrder []) (sym e) t.told;
    known =
        subst (λ l. All (λ u. Memᴰ u (after [] l)) (owners s'.tasks)) (sym e)
          (subst (All (λ u. Memᴰ u (after [] s.events))) (sym o) t.known);
  }

module _ {U B : Type 0} (uids : Uid U) where
  -- A peer is inserted and announced.
  pub insert-Tells :
      (uid : U) (kind : CrustUser) (addr : SocketAddr) (e : Event U B) (s : State U B)
      → announced e ≡ uid ∷ []
      → Allowed (after [] s.events) e
      → Tells s
      → Tells (record (insert_peer uids uid kind addr s).0 {
        events = (insert_peer uids uid kind addr s).0.events ++ e ∷ [];
      })
  unfolding insert_peer
  insert-Tells uid kind addr e s q a t = elim (Bool-cases (contains_peer uids uid s)) [
    | inl c ↦ rw c (tell-Tells s e t a)
    | inr c ↦
        let t' = tell-Tells s e t a in
        let heard : Memᴰ uid (after [] (s.events ++ e ∷ [])) =
          subst (Memᴰ uid) (sym (after-append [] s.events e ∙ ap (λ l. l ++ after [] s.events) q))
            (Memᴰ.head refl) in
        rw c (record { told = t'.told; known = (heard, t'.known) })
  ]

  removed-Tells :
      (u : U) (o : Option PeerWrapper) (s : State U B) → Tells s → Tells (removed uids o u s).0
  unfolding removed
  removed-Tells u none s t = t
  removed-Tells u (some w) s t = record {
    told = t.told;
    known =
        subst (All (λ u. Memᴰ u (after [] s.events))) (sym (owners-fire w.conn s.tasks)) t.known;
  }

  removed-events :
      (u : U) (o : Option PeerWrapper) (s : State U B) → (removed uids o u s).0.events ≡ s.events
  unfolding removed
  removed-events u none s = refl
  removed-events u (some w) s = refl

  sent_to-Tells :
      (o : Option PeerWrapper) (accepts : ℕ → Bool) (priority : ℕ) (msg : B) (s : State U B)
      → Tells s
      → Tells (sent_to uids o accepts priority msg s).0
  unfolding sent_to
  sent_to-Tells none accepts priority msg s t = t
  sent_to-Tells (some w) accepts priority msg s t = elim (Bool-cases (accepts w.conn)) [
    | inl e ↦ rw e (record { told = t.told; known = t.known })
    | inr e ↦ rw e t
  ]

  pub whitelist_filter-Tells :
      (client_ips node_ips : List IpAddr) (s : State U B)
      → Tells s
      → Tells (whitelist_filter uids client_ips node_ips s)
  unfolding whitelist_filter
  whitelist_filter-Tells client_ips node_ips s t =
      retask-Tells s _ refl
        (owners-fire_all (keep (λ e. not (is_listed client_ips node_ips e.1)) s.map) s.tasks) t

  pub clear-Tells : (s : State U B) → Tells s → Tells (clear uids s)
  unfolding clear
  clear-Tells s t = retask-Tells s _ refl (owners-fire_all s.map s.tasks) t

  pub remove-Tells : (u : U) (s : State U B) → Tells s → Tells (remove uids u s).0
  unfolding remove
  remove-Tells u s t = removed-Tells u (get uids u s.map) s t

  pub send-Tells :
      (accepts : ℕ → Bool) (u : U) (msg : B) (priority : ℕ) (s : State U B)
      → Tells s
      → Tells (send uids accepts u msg priority s).0
  unfolding send
  send-Tells accepts u msg priority s t = sent_to-Tells (get uids u s.map) accepts priority msg s t

  pub receive-Tells :
      (r : ReadTask U) (msg : B) (s : State U B)
      → Tells s
      → Memᴰ r s.tasks
      → Tells (receive uids r msg s)
  unfolding receive
  receive-Tells r msg s t m =
      tell-Tells s (new_message r.uid r.kind msg) t
        (owner_known (after [] s.events) r s.tasks t.known m)

  pub finish-Tells :
      (r : ReadTask U) (s : State U B) → Tells s → Memᴰ r s.tasks → Tells (finish uids r s)
  unfolding finish
  finish-Tells r s t m =
      let s1 : State U B = record s { tasks = without r.conn s.tasks } in
      let t1 : Tells s1 = record {
        told = t.told;
        known = All-owners-without (λ u. Memᴰ u (after [] s.events)) r.conn s.tasks t.known;
      } in
      let o = get uids r.uid s1.map in
      tell-Tells (removed uids o r.uid s1).0 (lost_peer r.uid) (removed-Tells r.uid o s1 t1) (
        subst (λ l. Memᴰ r.uid (after [] l)) (sym (removed-events r.uid o s1))
          (owner_known (after [] s.events) r s.tasks t.known m))
