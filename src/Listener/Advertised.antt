-- ===== src/Listener/Advertised.antt =====
-- crust/src/net/listener.rs: the advertised addresses, and the polls of the incoming side.
use crust_futures.Base.{
  ℕ, zero, suc, ◌+◌, ◌≤◌, ◌≡◌, refl, subst, sym, ap, ◌∙◌, ◌↔◌, ◌⊎◌, List, [], ◌∷◌, ◌++◌, Option,
  none, some, Bool, true, false, not, ok, err, ready, not_ready, if◌then◌else◌, contains, length,
  length-append, Memᴰ, contains→Memᴰ, Memᴰ→contains, Memᴰ-cons, Memᴰ-keep_of, of_Memᴰ-keep,
  Memᴰ-append_left, Memᴰ-append_right, of_Memᴰ-append, Bool-cases, inl, inr, arith, All,
}
use crust_futures.Addr.{SocketAddr, SocketAddr-discrete}
use crust_futures.Listener.{
  Addresses, Incoming, Entry, Polled, extend, publish, listener, retire, SocketIncoming, init, last,
  swap_in, Walk, accept, on_accepted, walk, poll,
}

-- The addresses that are advertised after a listener is retired are those before it that the
-- listener did not bring.
retire_iff :
    (addrs : List SocketAddr) (a : Addresses) (x : SocketAddr)
    → Memᴰ x (retire addrs a).current ↔ (Memᴰ x a.current × (Memᴰ x addrs → ⊥))
unfolding retire publish
retire_iff addrs a x = (
  λ m.
      let (here, out) = of_Memᴰ-keep p a.current x m in
      (
        here,
        λ brought.
            let e = Memᴰ→contains SocketAddr-discrete addrs x brought in
            let clash : false ≡ true = ap not (sym e) ∙ out in cc,
      ),
  λ h. Memᴰ-keep_of p a.current x h.0 (absent h.1),
)
  where
    p : SocketAddr → Bool
    p y = not (contains SocketAddr-discrete addrs y)

    absent : (Memᴰ x addrs → ⊥) → p x ≡ true
    absent h = elim (Bool-cases (contains SocketAddr-discrete addrs x)) [
      | inl e ↦ absurd (h (contains→Memᴰ SocketAddr-discrete addrs x e))
      | inr e ↦ ap not e
    ]

extend_one :
    (current : List SocketAddr) (y x : SocketAddr)
    → Memᴰ x (if contains SocketAddr-discrete current y then current else current ++ y ∷ [])
      ↔ (Memᴰ x current ⊎ (x ≡ y))
extend_one current y x = elim (Bool-cases (contains SocketAddr-discrete current y)) [
  | inl e ↦ rw e (
    inl,
    λ h. elim h [
      | inl m ↦ m
      | inr q ↦ subst (λ z. Memᴰ z current) (sym q) (contains→Memᴰ SocketAddr-discrete current y e)
    ],
  )
  | inr e ↦ rw e (
    λ m. elim (of_Memᴰ-append current (y ∷ []) x m) [
      | inl h ↦ inl h
      | inr h ↦ elim (Memᴰ-cons h) [ inl q ↦ inr q | inr none_left ↦ elim none_left [ ] ]
    ],
    λ h. elim h [
      | inl m ↦ Memᴰ-append_left current (y ∷ []) x m
      | inr q ↦ Memᴰ-append_right current (y ∷ []) x (Memᴰ.head q)
    ],
  )
]

extend_iff :
    (current addrs : List SocketAddr) (x : SocketAddr)
    → Memᴰ x (extend current addrs) ↔ (Memᴰ x current ⊎ Memᴰ x addrs)
unfolding extend
extend_iff current [] x = (inl, λ h. elim h [ inl m ↦ m | inr m ↦ elim m [ ] ])
extend_iff current (y ∷ ys) x =
    let one = extend_one current y x in
    let rest =
      extend_iff (if contains SocketAddr-discrete current y then current else current ++ y ∷ []) ys
        x in
    (
      λ m. elim (rest.0 m) [
        | inl h ↦ elim (one.0 h) [ inl k ↦ inl k | inr q ↦ inr (Memᴰ.head q) ]
        | inr h ↦ inr (Memᴰ.tail h)
      ],
      λ h. rest.1 (elim h [
        | inl m ↦ inl (one.1 (inl m))
        | inr m ↦ elim (Memᴰ-cons m) [ inl q ↦ inl (one.1 (inr q)) | inr k ↦ inr k ]
      ]),
    )

-- A new listener adds its addresses to the advertised ones, and to no others.
pub listener_iff :
    (addrs : List SocketAddr) (incoming : Incoming) (a : Addresses) (x : SocketAddr)
    → Memᴰ x (listener addrs incoming a).0.current ↔ (Memᴰ x a.current ⊎ Memᴰ x addrs)
unfolding listener publish
listener_iff addrs incoming a x = extend_iff a.current addrs x

-- Two listeners, and the handle of the first is gone.
abbrev pub first_gone : List SocketAddr → List SocketAddr → Incoming → Addresses → SocketIncoming
first_gone addrs addrs' incoming a =
    let (a', old) = listener addrs incoming a in
    let (a'', live) = listener addrs' Incoming.idle a' in
    record {
      rx = live ∷ [];
      rx_closed = false;
      listeners = record old { is_held = false } ∷ [];
      addresses = a'';
    }

-- After two listeners are made that share an address, the address is advertised. If the handle of
-- the first is dropped, a poll keeps the second, which is still held and brought the address, and
-- yet the address is advertised no more.
pub shared_lost :
    (addrs addrs' : List SocketAddr) (incoming : Incoming) (a : Addresses) (x : SocketAddr)
    → Memᴰ x addrs
    → Memᴰ x addrs'
    → Memᴰ x (first_gone addrs addrs' incoming a).addresses.current
      × ((w : Walk) × (poll 2 (first_gone addrs addrs' incoming a) ≡ some w)
          × (w.listeners ≡ record { is_held = true; incoming = Incoming.idle; addrs = addrs' } ∷ [])
          × (Memᴰ x w.addresses.current → ⊥))
unfolding poll walk swap_in last init accept on_accepted listener
shared_lost addrs addrs' incoming a x old_brought live_brought =
    let a' = (listener addrs incoming a).0 in
    let a'' = (listener addrs' Incoming.idle a').0 in
    (
      (listener_iff addrs' Incoming.idle a' x).1 (inr live_brought),
      (_, refl, refl, λ m. ((retire_iff addrs a'' x).0 m).1 old_brought),
    )

length-init : (x : Entry) (xs : List Entry) → length (init (x ∷ xs)) ≡ length xs
unfolding init
length-init x [] = refl
length-init x (y ∷ ys) = ap suc (length-init y ys)

length-swap_in : (es : List Entry) → length (swap_in es) ≡ length es
unfolding swap_in
length-swap_in [] = refl
length-swap_in (e ∷ es) = ap suc (length-init e es)

abbrev AllHeld : List Entry → Type 0
AllHeld = All (λ e. e.is_held ≡ true)

-- What a poll that gives `r` leaves: if it found nothing, no entry whose handle is gone.
abbrev pub Leaves : Polled → List Entry → Type 0
Leaves (ok not_ready) ls = AllHeld ls
Leaves (ok (ready (some addr))) ls = Unit {0}
Leaves (ok (ready none)) ls = ⊥
Leaves (err e) ls = Unit {0}

abbrev pub Ends : Option Walk → Type 0
Ends o = (w : Walk) × (o ≡ some w) × Leaves w.result w.listeners

accepted-Ends :
    (inc : Incoming) (ls : List Entry) (a : Addresses) (kept : Option Walk)
    → Ends kept
    → Ends (
        on_accepted
          (accept inc).0
          (λ r. some (record { listeners = ls; addresses = a; result = r }))
          kept)
unfolding accept on_accepted
accepted-Ends (Incoming.connection addr rest) ls a kept h = (_, refl, tt)
accepted-Ends (Incoming.broken e rest) ls a kept h = (_, refl, tt)
accepted-Ends Incoming.idle ls a kept h = h
accepted-Ends Incoming.ended ls a kept h = h

AllHeld-append :
    (xs : List Entry) (e : Entry) → AllHeld xs → e.is_held ≡ true → AllHeld (xs ++ e ∷ [])
AllHeld-append [] e h q = (q, tt)
AllHeld-append (x ∷ xs) e h q = (h.0, AllHeld-append xs e h.1 q)

walk-Ends :
    (fuel : ℕ) (front es : List Entry) (a : Addresses)
    → length es ≤ fuel
    → AllHeld front
    → Ends (walk fuel front es a)
unfolding walk
walk-Ends zero front [] a h q = (_, refl, q)
walk-Ends (suc fuel) front [] a h q = (_, refl, q)
walk-Ends zero front (e ∷ es) a h q = absurd (omega arith)
walk-Ends (suc fuel) front (e ∷ es) a h q =
    let held_case =
      on_accepted (accept e.incoming).0
        (λ r. some (record {
          listeners = front ++ record e { incoming = (accept e.incoming).1 } ∷ es;
          addresses = a;
          result = r;
        }))
        (walk fuel (front ++ e ∷ []) es a) in
    let gone_case = walk fuel front (swap_in es) (retire e.addrs a) in
    elim (Bool-cases e.is_held) [
      | inr gone ↦
          subst (λ b. Ends (if b then held_case else gone_case)) (sym gone)
            (walk-Ends fuel front (swap_in es) (retire e.addrs a) (omega (arith, length-swap_in es))
              q)
      | inl held ↦
          subst (λ b. Ends (if b then held_case else gone_case)) (sym held)
            (accepted-Ends e.incoming (front ++ record e { incoming = (accept e.incoming).1 } ∷ es)
              a (walk fuel (front ++ e ∷ []) es a)
              (walk-Ends fuel (front ++ e ∷ []) es a (omega arith) (AllHeld-append front e q held)))
    ]

-- While the channel of new listeners is open, as many turns as there are listeners end a poll:
-- with a connection, with an error, or with nothing. In the last case every listener that is left
-- still has its handle.
pub poll-Ends :
    (s : SocketIncoming) → s.rx_closed ≡ false → Ends (poll (length s.listeners + length s.rx) s)
unfolding poll
poll-Ends s h = rw h (
    walk-Ends (length s.listeners + length s.rx) [] (s.listeners ++ s.rx) s.addresses
      (omega (arith, length-append s.listeners s.rx)) tt)
