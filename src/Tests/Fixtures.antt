-- ===== src/Tests/Fixtures.antt =====
-- Concrete parameters: a codec, a transport, a timer, identifiers, addresses.
use crust_futures.Base.{
  subst, sym, Memᴰ, map, ℕ, zero, suc, ◌≤◌, ◌≡◌, refl, ap, ◌∙◌, ◌↔◌, ◌⊎◌, List, [], ◌∷◌, true,
  false, Result, ok, err, leb, ltb, arith, ℕ_discrete, Memᴰ, map,
}
use crust_futures.Addr.{IpAddr, v4, SocketAddr, Uid}
use crust_futures.Net.{Codec, Race}
use crust_futures.Socket.Task.{Transport, Answer, accepted, refused}
use crust_futures.Peer.{Timer}
use crust_futures.Config.{default_settings}
use crust_futures.Bootstrap.Accept.{Acceptor}
use crust_futures.Bootstrap.Try.{Clock}

-- Messages are their own frames.
abbrev pub plain : {M : Type 0} → Codec M M
plain = record { Error = Unit {0}; serialise = λ m. m; deserialise = λ m. ok m }

abbrev take : ℕ → ℕ → ℕ × Answer (Unit {0})
take zero d = (zero, refused)
take (suc n) d = (n, accepted)

-- A transport that has room for a number of frames.
abbrev pub buffer : Transport (Unit {0}) ℕ
buffer = record {
  State = ℕ;
  start_send = take;
  poll_complete = λ s. (s, accepted);
  close = λ s. ok tt;
}

pub leb_iff : (d t : ℕ) → (leb d t ≡ true) ↔ (d ≤ t)
leb_iff d t = (λ h. ground arith, λ h. ground arith)

abbrev pub timer : Timer
timer = record { is_due = leb; is_due_iff = leb_iff }

pub ltb_total : (x y : ℕ) → (ltb x y ≡ true) ⊎ (ltb y x ≡ true) ⊎ (x ≡ y)
ltb_total x y = ground arith

pub ltb_asymm : (x y : ℕ) → ltb x y ≡ true → ltb y x ≡ false
ltb_asymm x y h = ground arith

pub ltb_irrefl : (x : ℕ) → ltb x x ≡ false
ltb_irrefl x = ground arith

abbrev pub numbers : Uid ℕ
numbers = record {
  eq = ℕ_discrete;
  lt = ltb;
  lt_total = ltb_total;
  lt_asymm = ltb_asymm;
  lt_irrefl = ltb_irrefl;
}

abbrev pub ip_of : ℕ → IpAddr
ip_of n = v4 (record { a = 8; b = 8; c = 8; d = n })

abbrev pub addr_of : ℕ → SocketAddr
addr_of n = record { ip = ip_of n; port = 5000 }

-- The first success of a list, or the errors.
abbrev pub first : {E A : Type 0} → List (Result E A) → Result (List E) A
first [] = err []
first (ok x ∷ rs) = ok x
first (err e ∷ rs) = elim (first rs) [ ok x ↦ ok x | err es ↦ err (e ∷ es) ]

pub first_ok : {E A : Type 0} (rs : List (Result E A)) (a : A) → first rs ≡ ok a → Memᴰ (ok a) rs
first_ok [] a h = cc
first_ok (ok x ∷ rs) a h = let q : a ≡ x = cc in Memᴰ.head (ap ok q)
first_ok {E} {A} (err e ∷ rs) a h = Memᴰ.tail (first_ok rs a (kept (first rs) h))
  where
    kept :
        (r : Result (List E) A)
        → (elim r as (λ _. Result (List E) A) [ ok x ↦ ok x | err es ↦ err (e ∷ es) ]) ≡ ok a
        → r ≡ ok a
    kept (ok x) h = h
    kept (err es) h = cc

pub first_err :
    {E A : Type 0} (rs : List (Result E A)) (es : List E) → first rs ≡ err es → rs ≡ map err es
first_err [] es h = let q : [] ≡ es = cc in ap (map err) q
first_err (ok x ∷ rs) es h = cc
first_err {E} {A} (err e ∷ rs) es h = kept (first rs) h (first_err rs)
  where
    kept :
        (r : Result (List E) A)
        → (elim r as (λ _. Result (List E) A) [ ok x ↦ ok x | err fs ↦ err (e ∷ fs) ]) ≡ err es
        → ((fs : List E) → r ≡ err fs → rs ≡ map err fs)
        → err e ∷ rs ≡ map err es
    kept (ok x) k rec = cc
    kept (err fs) k rec =
        let q : e ∷ fs ≡ es = cc in ap (λ l. err e ∷ l) (rec fs refl) ∙ ap (map err) q

pub no_ok_in_errs :
    {E A : Type 0} (es : List E) (a : A) → Memᴰ {A = Result E A} (ok a) (map err es) → ⊥
no_ok_in_errs [] a m = elim m [ ]
no_ok_in_errs (e ∷ es) a (Memᴰ.head q) = cc
no_ok_in_errs (e ∷ es) a (Memᴰ.tail m) = no_ok_in_errs es a m

pub err_in_errs :
    {E A : Type 0} (es : List E) (e : E) → Memᴰ e es → Memᴰ {A = Result E A} (err e) (map err es)
err_in_errs [] e m = elim m [ ]
err_in_errs (f ∷ es) e (Memᴰ.head q) = Memᴰ.head (ap err q)
err_in_errs (f ∷ es) e (Memᴰ.tail m) = Memᴰ.tail (err_in_errs es e m)

abbrev pub first_race : {E A : Type 0} → Race E A
first_race {E} {A} = record {
  apply = first;
  apply_ok = first_ok;
  apply_err = λ rs es a h m. no_ok_in_errs es a (subst (λ l. Memᴰ (ok a) l) (first_err rs es h) m);
  apply_errs =
      λ rs es e h m. subst (λ l. Memᴰ (err e) l) (sym (first_err rs es h)) (err_in_errs es e m);
}

-- An acceptor of the uid 1 without white lists, and with a network that has no name.
abbrev pub acceptor : {D : Type 0} → Acceptor ℕ D (Unit {0})
acceptor = record {
  uids = numbers;
  our_uid = 1;
  sha3_256 = λ name. name;
  config = record { cfg = default_settings; observers = [] };
  on_disc = ok default_settings;
  connect = λ addr. ok tt;
  first_ok = first_race;
  now = 1000;
  timers = ok tt;
}

abbrev pub clock : Clock
clock = record { now = 1000; timers = ok tt }
