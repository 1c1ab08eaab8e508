-- ===== src/Bootstrap/Search/Found.antt =====
-- crust/src/net/peer/connect/bootstrap/bootstrap.rs: the peer that is bootstrapped to.
use crust_futures.Base.{
  ◌≡◌, ◌⊎◌, sym, ap, ◌∙◌, subst, List, ◌++◌, map, keep, contains, somes, Option, some, Bool, false,
  not, Result, ok, err, map_err, ◌>>=◌, Memᴰ, Memᴰ-map, Memᴰ-somes, Memᴰ-keep_of,
}
use crust_futures.Addr.{SocketAddr, SocketAddr-discrete, node}
use crust_futures.Net.{IoError, Codec}
use crust_futures.Config.{ConfigSettings}
use crust_futures.Handshake.{NameHash, ExternalReachability, HandshakeMessage}
use crust_futures.Peer.{Peer}
use crust_futures.Bootstrap.Try.{TryPeerError, Reply}
use crust_futures.Bootstrap.Try.Granted.{IsGrant}
use crust_futures.Bootstrap.Search.{
  FileHandlers, new_cache, read_cache_file, BootstrapError, read_cache, service_discovery,
  all_peers_failed, timer_io, Around, try_at, sd_peers, bootstrap,
}

module _ {U D F E : Type 0} (C : Codec (HandshakeMessage U) D) (files : FileHandlers F E)
    (w : Around U D C.Error) (our_uid : U) (name_hash : NameHash)
    (reach : ExternalReachability) where
  abbrev try_each :
      List SocketAddr → List (Option (Result (SocketAddr × TryPeerError C.Error) (Peer U D)))
  try_each = map (λ addr. try_at C files w our_uid name_hash reach addr (w.contact addr))

  module _ (blacklist : List SocketAddr) (discover : Bool) (config : ConfigSettings) where
    abbrev allowed : List SocketAddr → List SocketAddr
    allowed = keep (λ addr. not (contains SocketAddr-discrete blacklist addr))

    -- Where a peer that was bootstrapped to comes from: its address is in the cache, in the settings or
    -- found on the local network, it is not on the blacklist, and its grant came from there.
    pub record IsFound (p : Peer U D) : Type 0 where
      pub cache : F
      pub cache_is : new_cache files config.bootstrap_cache_name ≡ ok cache
      pub found : List SocketAddr
      pub found_is : sd_peers C files w discover config ≡ ok found
      pub addr : SocketAddr
      pub is_known :
          Memᴰ addr (read_cache_file files cache)
          ⊎ Memᴰ addr config.hard_coded_contacts
          ⊎ Memᴰ addr found
      pub is_allowed : contains SocketAddr-discrete blacklist addr ≡ false
      pub reply : Reply D
      pub answers : w.contact addr ≡ some (ok tt, reply)
      pub grants : IsGrant C w.clock reply p
      pub of_kind : p.kind ≡ node

    failed_on :
        {cache : F} {found : List SocketAddr} {v : List (SocketAddr × TryPeerError C.Error)}
        (c : Result E F) (f : Result IoError (List SocketAddr)) (t : Result IoError (Unit {0}))
        (k : F → List SocketAddr → Result (List (SocketAddr × TryPeerError C.Error)) (Peer U D))
        → (map_err read_cache c >>= λ cache. map_err service_discovery f >>= λ found.
            map_err timer_io t >>= λ _. map_err all_peers_failed (k cache found))
          ≡ err (all_peers_failed v)
        → c ≡ ok cache
        → f ≡ ok found
        → k cache found ≡ err v
    failed_on (err e) f t k h a b = cc
    failed_on (ok c) (err e) t k h a b = cc
    failed_on (ok c) (ok f) (err e) k h a b = cc
    failed_on {cache} {found} {v} (ok c) (ok f) (ok t) k h a b =
        let q : c ≡ cache = cc in
        let q' : f ≡ found = cc in
        lost (k cache found) (
          ap (λ x. map_err all_peers_failed (k x found)) (sym q)
          ∙ ap (λ x. map_err all_peers_failed (k c x)) (sym q')
          ∙ h)
      where
        lost :
            (r : Result (List (SocketAddr × TryPeerError C.Error)) (Peer U D))
            → Path
                (Result (BootstrapError E C.Error) (Peer U D))
                (map_err all_peers_failed r)
                (err (all_peers_failed v))
            → r ≡ err v
        lost (ok p) h = cc
        lost (err es) h = let q : es ≡ v = cc in ap err q

    -- When all peers have failed, no known address that is not on the blacklist gave a peer in time.
    pub all_failed :
        {cache : F} {found : List SocketAddr} {v : List (SocketAddr × TryPeerError C.Error)}
        (addr : SocketAddr) (p : Peer U D)
        → bootstrap C files w our_uid name_hash reach blacklist discover config
          ≡ err (all_peers_failed v)
        → new_cache files config.bootstrap_cache_name ≡ ok cache
        → sd_peers C files w discover config ≡ ok found
        → Memᴰ addr (read_cache_file files cache ++ (config.hard_coded_contacts ++ found))
        → contains SocketAddr-discrete blacklist addr ≡ false
        → ¬ (try_at C files w our_uid name_hash reach addr (w.contact addr) ≡ some (ok p))
    unfolding bootstrap
    all_failed {cache} {found} {v} addr p h a b m out e =
        let known = read_cache_file files cache ++ (config.hard_coded_contacts ++ found) in
        let tried = try_each (allowed known) in
        let lost =
          failed_on (new_cache files config.bootstrap_cache_name)
            (sd_peers C files w discover config) w.timeout
            (λ cache found. w.race.apply (
              somes (
                try_each (
                  allowed (read_cache_file files cache ++ (config.hard_coded_contacts ++ found))))))
            h a b in
        let there =
          Memᴰ-keep_of (λ addr. not (contains SocketAddr-discrete blacklist addr)) known addr m
            (ap not out) in
        w.race.apply_err (somes tried) v p lost (
          Memᴰ-somes tried (ok p) (
            subst (λ o. Memᴰ o tried) e
              (Memᴰ-map (λ addr. try_at C files w our_uid name_hash reach addr (w.contact addr))
                (allowed known) addr there)))
