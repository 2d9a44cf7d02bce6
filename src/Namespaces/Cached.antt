-- ===== src/Namespaces/Cached.antt =====
-- The cache of the namespace manager answers what the API answered when it was filled.
use kubecloudscaler.Base.{
  ◌≡◌, refl, sym, ap, ◌∙◌, ℕ, ◌+◌, ◌<◌, true, none, List, String, lt→ltb, is_empty, Result, ok,
}
use kubecloudscaler.Cluster.{ApiError}
use kubecloudscaler.Namespaces.{
  cache_ttl, Config, Manager, refresh_namespace_cache, discovered, new_manager,
  read_cached_namespaces, cache_or, set_namespace_list,
}
use kubecloudscaler.Namespaces.Excluded.{set_namespace_list-answer, source, keep_if_ok, holding}

-- The manager after one call that asked the API, which answered `names`.
filled :
    (own : String) (now : ℕ) (names : List String) (config : Config) (nm : Manager)
    → is_empty config.namespaces ≡ true
    → read_cached_namespaces now nm config.exclude_namespaces ≡ none
    → (set_namespace_list own now (ok names) config nm).2 ≡ holding names (now + cache_ttl)
unfolding set_namespace_list discovered refresh_namespace_cache
filled own now names config nm e miss =
    rw e (ap (λ q. (cache_or own now (ok names) config nm q).2) miss)

-- For five minutes after a call that asked the API, a call answers what it would have answered at
-- that time, without asking again: whatever the API would say, and with other namespaces excluded
-- too. Neither configuration names namespaces.
pub cached_as_listed :
    (own : String) (now later : ℕ) (names : List String) (listed : Result ApiError (List String))
    (config config₂ : Config) (nm : Manager)
    → is_empty config.namespaces ≡ true
    → is_empty config₂.namespaces ≡ true
    → read_cached_namespaces now nm config.exclude_namespaces ≡ none
    → later < now + cache_ttl
    → (set_namespace_list own later listed config₂
        (set_namespace_list own now (ok names) config nm).2).0
      ≡ (set_namespace_list own now (ok names) config₂ new_manager).0
cached_as_listed own now later names listed config config₂ nm e e₂ miss soon =
    ap (λ m. (set_namespace_list own later listed config₂ m).0)
      (filled own now names config nm e miss)
    ∙ set_namespace_list-answer own later listed config₂ (holding names (now + cache_ttl))
    ∙ ap (keep_if_ok _) (hit ∙ sym fresh_source)
    ∙ sym (set_namespace_list-answer own now (ok names) config₂ new_manager)
  where
    hit : source later listed config₂ (holding names (now + cache_ttl)) ≡ ok names
    hit = rw (e₂, lt→ltb later (now + cache_ttl) soon) refl

    fresh_source : source now (ok names) config₂ new_manager ≡ ok names
    fresh_source = rw e₂ refl
