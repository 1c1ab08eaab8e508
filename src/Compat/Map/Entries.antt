-- ===== src/Compat/Map/Entries.antt =====
-- crust/src/compat/connection_map.rs: the entries of the map against its look-up, and the reading
-- tasks that a drop notice reaches.
use crust_futures.Base.{
  ℕ, ◌≡◌, ◌≢◌, refl, sym, ap, ◌∙◌, subst, List, [], ◌∷◌, map, none, some, true, false, ◌⊎◌, inl,
  inr, same, same→eq, eq→same, ◌==◌, Bool-cases, Memᴰ, Memᴰ-cons, arith, All, All-at,
}
use crust_futures.Addr.{Uid}
use crust_futures.Compat.Map.{PeerWrapper, ReadTask, get, erase, fire, fire_all, without}
use crust_futures.Compat.Map.Laws.{Distinct}

module _ {U : Type 0} (uids : Uid U) where
  pub get-Memᴰ :
      (u : U) (w : PeerWrapper) (m : List (U × PeerWrapper)) → get uids u m ≡ some w → Memᴰ (u, w) m
  unfolding get
  get-Memᴰ u w [] e = cc
  get-Memᴰ u w ((v, x) ∷ m) e = elim (Bool-cases (same uids.eq v u)) [
    | inl q ↦
        let e' : some x ≡ some w = rw q at e in
        let x≡w : x ≡ w = cc in Memᴰ.head (λ i. (sym (same→eq uids.eq v u q) i, sym x≡w i))
    | inr q ↦ Memᴰ.tail (get-Memᴰ u w m (rw q at e))
  ]

  pub Memᴰ-get :
      (e : U × PeerWrapper) (m : List (U × PeerWrapper))
      → Distinct uids m
      → Memᴰ e m
      → get uids e.0 m ≡ some e.1
  unfolding get
  Memᴰ-get e [] d h = elim h [ ]
  Memᴰ-get e ((v, x) ∷ m) d (Memᴰ.head q) =
      rw (eq→same uids.eq v e.0 (ap (λ p. p.0) (sym q))) (ap (λ p. some p.1) (sym q))
  Memᴰ-get e ((v, x) ∷ m) d (Memᴰ.tail h) = elim (Bool-cases (same uids.eq v e.0)) [
    | inl q ↦
        let v≡u : v ≡ e.0 = same→eq uids.eq v e.0 q in
        let absent : get uids e.0 m ≡ none = subst (λ z. get uids z m ≡ none) v≡u d.0 in
        let found = Memᴰ-get e m d.1 h in cc
    | inr q ↦ rw q (Memᴰ-get e m d.1 h)
  ]

  pub of_Memᴰ-erase :
      (u : U) (e : U × PeerWrapper) (m : List (U × PeerWrapper))
      → Memᴰ e (erase uids u m)
      → Memᴰ e m × (u ≢ e.0)
  unfolding erase
  of_Memᴰ-erase u e [] h = elim h [ ]
  of_Memᴰ-erase u e ((v, x) ∷ m) h = elim (Bool-cases (same uids.eq v u)) [
    | inl q ↦ let (h', ne) = of_Memᴰ-erase u e m (rw q at h) in (Memᴰ.tail h', ne)
    | inr q ↦ elim (Memᴰ-cons (rw q at h)) [
      | inl p ↦ (Memᴰ.head p, λ r. let hit = eq→same uids.eq v u (sym (r ∙ ap (λ z. z.0) p)) in cc)
      | inr t ↦ let (h', ne) = of_Memᴰ-erase u e m t in (Memᴰ.tail h', ne)
    ]
  ]

  pub Memᴰ-erase_of :
      (u : U) (e : U × PeerWrapper) (m : List (U × PeerWrapper))
      → Memᴰ e m
      → (u ≡ e.0) ⊎ Memᴰ e (erase uids u m)
  unfolding erase
  Memᴰ-erase_of u e [] h = elim h [ ]
  Memᴰ-erase_of u e ((v, x) ∷ m) h = elim (Bool-cases (same uids.eq v u)) [
    | inl q ↦ elim (Memᴰ-cons h) [
      | inl p ↦ inl (sym (same→eq uids.eq v u q) ∙ sym (ap (λ z. z.0) p))
      | inr t ↦ rw q (Memᴰ-erase_of u e m t)
    ]
    | inr q ↦ elim (Memᴰ-cons h) [
      | inl p ↦ inr (rw q (Memᴰ.head p))
      | inr t ↦ elim (Memᴰ-erase_of u e m t) [ inl r ↦ inl r | inr r ↦ inr (rw q (Memᴰ.tail r)) ]
    ]
  ]

-- No number stands twice.
abbrev pub Apart : List ℕ → Type 0
Apart [] = Unit {0}
Apart (c ∷ cs) = All (λ d. d ≢ c) cs × Apart cs

module _ {U : Type 0} where
  abbrev pub conns : List (ReadTask U) → List ℕ
  conns = map (λ t. t.conn)

  pub Memᴰ-conns : (t : ReadTask U) (ts : List (ReadTask U)) → Memᴰ t ts → Memᴰ t.conn (conns ts)
  Memᴰ-conns t [] m = elim m [ ]
  Memᴰ-conns t (x ∷ ts) (Memᴰ.head e) = Memᴰ.head (ap (λ z. z.conn) e)
  Memᴰ-conns t (x ∷ ts) (Memᴰ.tail m) = Memᴰ.tail (Memᴰ-conns t ts m)

  -- A connection has one task.
  pub Apart-unique :
      (t x : ReadTask U) (ts : List (ReadTask U))
      → Apart (conns ts)
      → Memᴰ t ts
      → Memᴰ x ts
      → t.conn ≡ x.conn
      → t ≡ x
  Apart-unique t x [] a m n e = elim m [ ]
  Apart-unique t x (y ∷ ts) a m n e = elim (Memᴰ-cons m) [
    | inl p ↦ elim (Memᴰ-cons n) [
      | inl q ↦ p ∙ sym q
      | inr n' ↦ absurd (
          All-at (λ d. d ≢ y.conn) (conns ts) x.conn a.0 (Memᴰ-conns x ts n')
            (sym e ∙ ap (λ z. z.conn) p))
    ]
    | inr m' ↦ elim (Memᴰ-cons n) [
      | inl q ↦ absurd (
          All-at (λ d. d ≢ y.conn) (conns ts) t.conn a.0 (Memᴰ-conns t ts m')
            (e ∙ ap (λ z. z.conn) q))
      | inr n' ↦ Apart-unique t x ts a.1 m' n' e
    ]
  ]

  pub conns-fire : (c : ℕ) (ts : List (ReadTask U)) → conns (fire c ts) ≡ conns ts
  unfolding fire
  conns-fire c [] = refl
  conns-fire c (t ∷ ts) = ground (arith, conns-fire c ts)

  pub conns-fire_all :
      (d : List (U × PeerWrapper)) (ts : List (ReadTask U)) → conns (fire_all d ts) ≡ conns ts
  unfolding fire_all
  conns-fire_all [] ts = refl
  conns-fire_all ((v, w) ∷ d) ts = conns-fire_all d (fire w.conn ts) ∙ conns-fire w.conn ts

  pub fire_live :
      (c : ℕ) (t : ReadTask U) (ts : List (ReadTask U))
      → Memᴰ t (fire c ts)
      → t.notified ≡ false
      → Memᴰ t ts × (c ≢ t.conn)
  unfolding fire
  fire_live c t [] m n = elim m [ ]
  fire_live c t (x ∷ ts) m n = elim (Bool-cases (x.conn == c)) [
    | inl e ↦ elim (Memᴰ-cons (rw e at m)) [
      | inl q ↦ let clash : true ≡ false = sym (ap (λ z. z.notified) q) ∙ n in cc
      | inr m' ↦ let (h, ne) = fire_live c t ts m' n in (Memᴰ.tail h, ne)
    ]
    | inr e ↦ elim (Memᴰ-cons (rw e at m)) [
      | inl q ↦
          (Memᴰ.head q, λ r. let same_conn : c ≡ x.conn = r ∙ ap (λ z. z.conn) q in ground arith)
      | inr m' ↦ let (h, ne) = fire_live c t ts m' n in (Memᴰ.tail h, ne)
    ]
  ]

  pub fire_kept :
      (c : ℕ) (t : ReadTask U) (ts : List (ReadTask U))
      → Memᴰ t ts
      → c ≢ t.conn
      → Memᴰ t (fire c ts)
  unfolding fire
  fire_kept c t [] m ne = elim m [ ]
  fire_kept c t (x ∷ ts) m ne = elim (Memᴰ-cons m) [
    | inl q ↦
        let miss : (x.conn == c) ≡ false = elim (Bool-cases (x.conn == c)) [
          | inl e ↦
              absurd (ne (let r : x.conn ≡ c = ground arith in sym r ∙ ap (λ z. z.conn) (sym q)))
          | inr e ↦ e
        ] in
        rw miss (Memᴰ.head q)
    | inr m' ↦ elim (Bool-cases (x.conn == c)) [
      | inl e ↦ rw e (Memᴰ.tail (fire_kept c t ts m' ne))
      | inr e ↦ rw e (Memᴰ.tail (fire_kept c t ts m' ne))
    ]
  ]

  pub fire_all_live :
      (d : List (U × PeerWrapper)) (t : ReadTask U) (ts : List (ReadTask U))
      → Memᴰ t (fire_all d ts)
      → t.notified ≡ false
      → Memᴰ t ts × ((e : U × PeerWrapper) → Memᴰ e d → e.1.conn ≢ t.conn)
  unfolding fire_all
  fire_all_live [] t ts m n = (m, λ e k. elim k [ ])
  fire_all_live ((v, w) ∷ d) t ts m n =
      let (m', away) = fire_all_live d t (fire w.conn ts) m n in
      let (h, ne) = fire_live w.conn t ts m' n in
      (
        h,
        λ e k. elim (Memᴰ-cons k) [
          | inl q ↦ λ r. ne (ap (λ z. z.1.conn) (sym q) ∙ r)
          | inr k' ↦ away e k'
        ],
      )

  pub fire_all_kept :
      (d : List (U × PeerWrapper)) (t : ReadTask U) (ts : List (ReadTask U))
      → Memᴰ t ts
      → ((e : U × PeerWrapper) → Memᴰ e d → e.1.conn ≢ t.conn)
      → Memᴰ t (fire_all d ts)
  unfolding fire_all
  fire_all_kept [] t ts m away = m
  fire_all_kept ((v, w) ∷ d) t ts m away =
      fire_all_kept d t (fire w.conn ts) (fire_kept w.conn t ts m (away (v, w) (Memᴰ.head refl)))
        (λ e k. away e (Memᴰ.tail k))

  -- A task that a notice reaches is still there, for the same connection and uid.
  pub fire_there :
      (c : ℕ) (t : ReadTask U) (ts : List (ReadTask U))
      → Memᴰ t ts
      → (x : ReadTask U) × Memᴰ x (fire c ts) × (x.conn ≡ t.conn) × (x.uid ≡ t.uid)
  unfolding fire
  fire_there c t [] m = elim m [ ]
  fire_there c t (y ∷ ts) m = elim (Memᴰ-cons m) [
    | inl q ↦ elim (Bool-cases (y.conn == c)) [
      | inl e ↦ (
        record y { notified = true },
        rw e (Memᴰ.head refl),
        ap (λ z. z.conn) (sym q),
        ap (λ z. z.uid) (sym q),
      )
      | inr e ↦ (y, rw e (Memᴰ.head refl), ap (λ z. z.conn) (sym q), ap (λ z. z.uid) (sym q))
    ]
    | inr m' ↦
        let (x, h, p, q) = fire_there c t ts m' in
        elim (Bool-cases (y.conn == c)) [
          | inl e ↦ (x, rw e (Memᴰ.tail h), p, q)
          | inr e ↦ (x, rw e (Memᴰ.tail h), p, q)
        ]
  ]

  pub fire-without :
      (c k : ℕ) (ts : List (ReadTask U)) → fire c (without k ts) ≡ without k (fire c ts)
  unfolding fire without
  fire-without c k [] = refl
  fire-without c k (t ∷ ts) = ground (arith, fire-without c k ts)

  pub of_Memᴰ-without :
      (c : ℕ) (t : ReadTask U) (ts : List (ReadTask U)) → Memᴰ t (without c ts) → Memᴰ t ts
  unfolding without
  of_Memᴰ-without c t [] m = m
  of_Memᴰ-without c t (x ∷ ts) m = elim (Bool-cases (x.conn == c)) [
    | inl e ↦ Memᴰ.tail (of_Memᴰ-without c t ts (rw e at m))
    | inr e ↦ elim (Memᴰ-cons (rw e at m)) [
      | inl q ↦ Memᴰ.head q
      | inr m' ↦ Memᴰ.tail (of_Memᴰ-without c t ts m')
    ]
  ]

  pub Memᴰ-without_of :
      (c : ℕ) (t : ReadTask U) (ts : List (ReadTask U))
      → Memᴰ t ts
      → c ≢ t.conn
      → Memᴰ t (without c ts)
  unfolding without
  Memᴰ-without_of c t [] m ne = m
  Memᴰ-without_of c t (x ∷ ts) m ne = elim (Bool-cases (x.conn == c)) [
    | inl e ↦ elim (Memᴰ-cons m) [
      | inl q ↦ absurd (ne (let r : x.conn ≡ c = ground arith in sym r ∙ ap (λ z. z.conn) (sym q)))
      | inr m' ↦ rw e (Memᴰ-without_of c t ts m' ne)
    ]
    | inr e ↦ elim (Memᴰ-cons m) [
      | inl q ↦ rw e (Memᴰ.head q)
      | inr m' ↦ rw e (Memᴰ.tail (Memᴰ-without_of c t ts m' ne))
    ]
  ]

  pub All-without :
      (P : ℕ → Type 0) (c : ℕ) (ts : List (ReadTask U))
      → All P (conns ts)
      → All P (conns (without c ts))
  unfolding without
  All-without P c [] a = tt
  All-without P c (t ∷ ts) a = elim (Bool-cases (t.conn == c)) [
    | inl e ↦ rw e (All-without P c ts a.1)
    | inr e ↦ rw e (a.0, All-without P c ts a.1)
  ]

  pub Apart-without :
      (c : ℕ) (ts : List (ReadTask U)) → Apart (conns ts) → Apart (conns (without c ts))
  unfolding without
  Apart-without c [] a = tt
  Apart-without c (t ∷ ts) a = elim (Bool-cases (t.conn == c)) [
    | inl e ↦ rw e (Apart-without c ts a.1)
    | inr e ↦ rw e (All-without (λ d. d ≢ t.conn) c ts a.0, Apart-without c ts a.1)
  ]
