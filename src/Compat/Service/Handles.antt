-- ===== src/Compat/Service/Handles.antt =====
-- crust/src/compat/service.rs: the drop notices that the state holds, and the tasks that they stop.
pub mod Kept
use crust_futures.Base.{
  ℕ, suc, ◌≡◌, ◌≢◌, ◌⊎◌, ◌<◌, ◌≤◌, refl, sym, ap, ◌∙◌, subst, List, [], ◌∷◌, ◌++◌, Option, none,
  some, Bool, true, false, Result, ok, err, Memᴰ, if◌then◌else◌, Bool-cases, ◌==◌, inl, inr, arith,
}
use crust_futures.Addr.{SocketAddr, CrustUser, Uid}
use crust_futures.Net.{IoError}
use crust_futures.Compat.Map
use crust_futures.Compat.Service
use crust_futures.Compat.Service.{ServiceState, Job, Task}
use crust_futures.Compat.Service.Runs
use crust_futures.Compat.Service.Runs.{Command, Step, Run}

module _ {U : Type 0} where
  -- What is held for a task `n` of a job: its notice, for the jobs that have one.
  unfoldable pub IsHeld : Option ℕ → Option ℕ → Option ℕ → Job U → ℕ → Type 0
  IsHeld a b l Service.accepting n = a ≡ some n
  IsHeld a b l (Service.bootstrapping blacklist discover user) n = b ≡ some n
  IsHeld a b l Service.starting n = l ≡ some n
  IsHeld a b l (Service.listening port) n = l ≡ some n
  IsHeld a b l (Service.preparing token) n = Unit
  IsHeld a b l (Service.connecting uid) n = Unit

  -- The tasks in the order of their numbers, the newest first, each below a bound and either told to
  -- stop or with its notice held.
  unfoldable pub AreHeld : Option ℕ → Option ℕ → Option ℕ → ℕ → List (Task U) → Type 0
  unfolding IsHeld
  AreHeld a b l k [] = Unit
  AreHeld a b l k (t ∷ ts) =
      (t.id < k) × ((t.notified ≡ true) ⊎ IsHeld a b l t.job t.id) × AreHeld a b l t.id ts

  raise :
      (a b l : Option ℕ) (k m : ℕ) (ts : List (Task U))
      → k ≤ m
      → AreHeld a b l k ts
      → AreHeld a b l m ts
  unfolding AreHeld
  raise a b l k m [] le h = tt
  raise a b l k m (t ∷ ts) le h = (omega (arith, le, h.0), h.1, h.2)

  -- A notice goes: its task is told, and the others keep theirs.
  notify-AreHeld :
      (a b l a' b' l' : Option ℕ) (n k : ℕ) (ts : List (Task U))
      (keeps : (j : Job U) (m : ℕ) → m ≢ n → IsHeld a b l j m → IsHeld a' b' l' j m)
      → AreHeld a b l k ts
      → AreHeld a' b' l' k (Service.notify n ts)
  unfolding AreHeld Service.notify
  notify-AreHeld a b l a' b' l' n k [] keeps h = tt
  notify-AreHeld a b l a' b' l' n k (t ∷ ts) keeps h = elim (Bool-cases (t.id == n)) [
    | inl e ↦ rw e (h.0, inl refl, notify-AreHeld a b l a' b' l' n t.id ts keeps h.2)
    | inr e ↦
        let ne : t.id ≢ n = λ q. ground (arith, e, q) in
        let stays : (t.notified ≡ true) ⊎ IsHeld a' b' l' t.job t.id = elim h.1 [
          | inl told ↦ inl told
          | inr held ↦ inr (keeps t.job t.id ne held)
        ] in
        rw e (h.0, stays, notify-AreHeld a b l a' b' l' n t.id ts keeps h.2)
  ]

  pub rehold :
      (a b l a' b' l' : Option ℕ) (k : ℕ) (ts : List (Task U))
      (keeps : (j : Job U) (m : ℕ) → IsHeld a b l j m → IsHeld a' b' l' j m)
      → AreHeld a b l k ts
      → AreHeld a' b' l' k ts
  unfolding AreHeld
  rehold a b l a' b' l' k [] keeps h = tt
  rehold a b l a' b' l' k (t ∷ ts) keeps h = (
    h.0,
    elim h.1 [ inl told ↦ inl told | inr held ↦ inr (keeps t.job t.id held) ],
    rehold a b l a' b' l' t.id ts keeps h.2,
  )

  pub end_task-AreHeld :
      (a b l : Option ℕ) (n k : ℕ) (ts : List (Task U))
      → AreHeld a b l k ts
      → AreHeld a b l k (Service.end_task n ts)
  unfolding AreHeld Service.end_task
  end_task-AreHeld a b l n k [] h = tt
  end_task-AreHeld a b l n k (t ∷ ts) h = elim (Bool-cases (t.id == n)) [
    | inl e ↦ rw e (
        raise a b l t.id k (Service.end_task n ts) (omega (arith, h.0))
          (end_task-AreHeld a b l n t.id ts h.2))
    | inr e ↦ rw e (h.0, h.1, end_task-AreHeld a b l n t.id ts h.2)
  ]

  -- No task from the bound on is there, so its job is not set.
  set_job_above :
      (a b l : Option ℕ) (n k : ℕ) (job : Job U) (ts : List (Task U))
      → AreHeld a b l k ts
      → k ≤ n
      → Service.set_job n job ts ≡ ts
  unfolding AreHeld Service.set_job
  set_job_above a b l n k job [] h le = refl
  set_job_above a b l n k job (t ∷ ts) h le =
      let e : (t.id == n) ≡ false = ground (arith, h.0, le) in
      rw e (ap (λ us. t ∷ us) (set_job_above a b l n t.id job ts h.2 (omega (arith, h.0, le))))

  below :
      (a b l : Option ℕ) (k : ℕ) (ts : List (Task U)) (t : Task U)
      → AreHeld a b l k ts
      → Memᴰ t ts
      → t.id < k
  unfolding AreHeld
  below a b l k [] t h m = elim m [ ]
  below a b l k (u ∷ us) t h (Memᴰ.head e) = subst (λ v. v.id < k) (sym e) h.0
  below a b l k (u ∷ us) t h (Memᴰ.tail m) =
      let lt = below a b l u.id us t h.2 m in omega (arith, lt, h.0)

  pub listen-AreHeld :
      (a b l : Option ℕ) (port k : ℕ) (ts : List (Task U)) (t : Task U)
      → Memᴰ t ts
      → t.job ≡ Service.starting
      → AreHeld a b l k ts
      → AreHeld a b l k (Service.set_job t.id (Service.listening port) ts)
  unfolding AreHeld Service.set_job
  listen-AreHeld a b l port k [] t m j h = elim m [ ]
  listen-AreHeld a b l port k (u ∷ us) t (Memᴰ.head e) j h =
      let same : (u.id == t.id) ≡ true = ground (arith, ap (λ v. v.id) e) in
      let job : u.job ≡ Service.starting = ap (λ v. v.job) (sym e) ∙ j in
      let held : (u.notified ≡ true) ⊎ (l ≡ some u.id) = elim h.1 [
        | inl told ↦ inl told
        | inr q ↦ inr (subst (λ v. IsHeld a b l v u.id) job q)
      ] in
      let le : u.id ≤ t.id = ground (arith, ap (λ v. v.id) e) in
      rw (same, set_job_above a b l t.id u.id (Service.listening port) us h.2 le) (h.0, held, h.2)
  listen-AreHeld a b l port k (u ∷ us) t (Memᴰ.tail m) j h =
      let lt = below a b l u.id us t h.2 m in
      let other : (u.id == t.id) ≡ false = ground (arith, lt) in
      rw other (h.0, h.1, listen-AreHeld a b l port u.id us t m j h.2)

  pub release :
      (o a b l a' b' l' : Option ℕ) (k : ℕ) (ts : List (Task U))
      (keeps : (j : Job U) (m : ℕ) → o ≢ some m → IsHeld a b l j m → IsHeld a' b' l' j m)
      → AreHeld a b l k ts
      → AreHeld a' b' l' k (Service.drop_notify o ts)
  unfolding Service.drop_notify
  release none a b l a' b' l' k ts keeps h =
      rehold a b l a' b' l' k ts (λ j m q. keeps j m (λ e. cc) q) h
  release (some n) a b l a' b' l' k ts keeps h =
      notify-AreHeld a b l a' b' l' n k ts (λ j m ne q. keeps j m (λ e. ne (some_inj e)) q) h
    where
      some_inj : {m : ℕ} → some n ≡ some m → m ≡ n
      some_inj e = cc

  -- A task other than the one of a handle does not mind another handle.
  pub new_acceptor :
      (a a' b l : Option ℕ) (j : Job U) (m : ℕ) → a ≢ some m → IsHeld a b l j m → IsHeld a' b l j m
  unfolding IsHeld
  new_acceptor a a' b l Service.accepting m ne q = absurd (ne q)
  new_acceptor a a' b l (Service.bootstrapping blacklist discover user) m ne q = q
  new_acceptor a a' b l Service.starting m ne q = q
  new_acceptor a a' b l (Service.listening port) m ne q = q
  new_acceptor a a' b l (Service.preparing token) m ne q = tt
  new_acceptor a a' b l (Service.connecting uid) m ne q = tt

  pub new_connect :
      (a b b' l : Option ℕ) (j : Job U) (m : ℕ) → b ≢ some m → IsHeld a b l j m → IsHeld a b' l j m
  unfolding IsHeld
  new_connect a b b' l Service.accepting m ne q = q
  new_connect a b b' l (Service.bootstrapping blacklist discover user) m ne q = absurd (ne q)
  new_connect a b b' l Service.starting m ne q = q
  new_connect a b b' l (Service.listening port) m ne q = q
  new_connect a b b' l (Service.preparing token) m ne q = tt
  new_connect a b b' l (Service.connecting uid) m ne q = tt

  pub new_listener :
      (a b l l' : Option ℕ) (j : Job U) (m : ℕ) → l ≢ some m → IsHeld a b l j m → IsHeld a b l' j m
  unfolding IsHeld
  new_listener a b l l' Service.accepting m ne q = q
  new_listener a b l l' (Service.bootstrapping blacklist discover user) m ne q = q
  new_listener a b l l' Service.starting m ne q = absurd (ne q)
  new_listener a b l l' (Service.listening port) m ne q = absurd (ne q)
  new_listener a b l l' (Service.preparing token) m ne q = tt
  new_listener a b l l' (Service.connecting uid) m ne q = tt

-- Every task of the state is told to stop, or its notice is held where its job's is.
unfoldable pub HoldsHandles : {U B : Type 0} → ServiceState U B → Type 0
unfolding AreHeld
HoldsHandles s = AreHeld s.bootstrap_acceptor s.bootstrap_connect s.tcp_listener s.next_task s.tasks
