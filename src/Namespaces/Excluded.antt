-- ===== src/Namespaces/Excluded.antt =====
-- Which namespaces SetNamespaceList answers.
use kubecloudscaler.Base.{
  ◌≡◌, refl, sym, ap, ◌∙◌, inl, inr, ℕ, ◌+◌, Bool, true, false, ◌&&◌, ◌||◌, not, Bool-cases, Option,
  none, some, List, [], ◌∷◌, String, str_eq, ltb, is_empty, remove_if, contains, if◌then◌else◌,
  Result, ok, err,
}
use kubecloudscaler.Cluster.{ApiError}
use kubecloudscaler.Namespaces.{
  cache_ttl, Config, Manager, Slice, delete_func, default_exclude_namespaces, exclude_own_namespace,
  exclude, fresh, without, read_cached_namespaces, refresh_namespace_cache, discovered, cache_or,
  unconfigured, set_namespace_list,
}

module _ {A : Type 0} where
  pub remove_if-remove_if :
      (p q : A → Bool) (xs : List A) → remove_if q (remove_if p xs) ≡ remove_if (λ x. p x || q x) xs
  remove_if-remove_if p q [] = refl
  remove_if-remove_if p q (x ∷ xs) = elim (Bool-cases (p x)) [
    | inl e ↦ rw e (remove_if-remove_if p q xs)
    | inr e ↦ rw e (ap (λ l. if q x then l else x ∷ l) (remove_if-remove_if p q xs) ∙ refl)
  ]

  pub remove_if-none : (p : A → Bool) (xs : List A) → ((x : A) → p x ≡ false) → remove_if p xs ≡ xs
  remove_if-none p [] h = refl
  remove_if-none p (x ∷ xs) h = rw (h x) (ap (λ l. x ∷ l) (remove_if-none p xs h))

  pub remove_if-ext :
      (p q : A → Bool) (xs : List A) → ((x : A) → p x ≡ q x) → remove_if p xs ≡ remove_if q xs
  remove_if-ext p q [] h = refl
  remove_if-ext p q (x ∷ xs) h =
      rw (h x) (ap (λ l. if q x then l else x ∷ l) (remove_if-ext p q xs h))

-- The operator's own namespace, and the system namespaces where they are excluded.
abbrev pub barred : (force : Bool) → (own : String) → String → Bool
barred force own ns =
    (force && contains default_exclude_namespaces ns) || (not (str_eq own "") && str_eq ns own)

own-elems :
    (own : String) (s : Slice)
    → (exclude_own_namespace own s).elems
      ≡ remove_if (λ ns. not (str_eq own "") && str_eq ns own) s.elems
unfolding exclude_own_namespace delete_func
own-elems own s = elim (Bool-cases (str_eq own "")) [
  | inl e ↦ rw e (sym (remove_if-none (λ ns. false) s.elems (λ ns. refl)))
  | inr e ↦ rw e refl
]

pub exclude-elems :
    (force : Bool) (own : String) (s : Slice)
    → (exclude force own s).elems ≡ remove_if (barred force own) s.elems
unfolding delete_func
exclude-elems true own s =
    own-elems own (delete_func (λ ns. contains default_exclude_namespaces ns) s)
    ∙ remove_if-remove_if _ _ s.elems
exclude-elems false own s = own-elems own s

abbrev pub unexpired :
    (now : ℕ)
    → Result ApiError (List String)
    → Option (List String)
    → (expiry : ℕ) → Result ApiError (List String)
unexpired now listed none expiry = listed
unexpired now listed (some names) expiry = if ltb now expiry then ok names else listed

-- Where the names come from: the configuration, else the cache if it has not expired, else the API.
abbrev pub source :
    (now : ℕ) → Result ApiError (List String) → Config → Manager → Result ApiError (List String)
source now listed config nm =
    if is_empty config.namespaces
    then unexpired now listed nm.cached_ns_list nm.cache_expiry
    else ok config.namespaces

abbrev pub keep_if_ok :
    (String → Bool) → Result ApiError (List String) → Result ApiError (List String)
keep_if_ok bad (err e) = err e
keep_if_ok bad (ok names) = ok (remove_if bad names)

discovered-answer :
    (own : String) (config : Config) (names : List String) (nm : Manager)
    → (discovered own config (ok (without config.exclude_namespaces names), nm)).0
      ≡ ok (
          remove_if
            (λ ns.
              contains config.exclude_namespaces ns
              || barred config.force_exclude_system_namespaces own ns)
            names)
unfolding discovered
discovered-answer own config names nm = ap ok (
    exclude-elems config.force_exclude_system_namespaces own
      (fresh (without config.exclude_namespaces names))
    ∙ remove_if-remove_if (λ ns. contains config.exclude_namespaces ns)
        (barred config.force_exclude_system_namespaces own) names)

refreshed-answer :
    (own : String) (now : ℕ) (listed : Result ApiError (List String)) (config : Config)
    (nm : Manager)
    → (discovered own config (refresh_namespace_cache now listed nm config.exclude_namespaces)).0
      ≡ keep_if_ok
          (λ ns.
            contains config.exclude_namespaces ns
            || barred config.force_exclude_system_namespaces own ns)
          listed
unfolding refresh_namespace_cache discovered
refreshed-answer own now (err e) config nm = refl
refreshed-answer own now (ok names) config nm =
    discovered-answer own config names
      (record { cached_ns_list = some names; cache_expiry = now + cache_ttl })

abbrev pub holding : List String → (expiry : ℕ) → Manager
holding names expiry = record { cached_ns_list = some names; cache_expiry = expiry }

pub read-fresh :
    (now : ℕ) (names : List String) (expiry : ℕ) (excluded : List String)
    → ltb now expiry ≡ true
    → read_cached_namespaces now (holding names expiry) excluded ≡ some (without excluded names)
unfolding read_cached_namespaces
read-fresh now names expiry excluded e = rw e refl

read-stale :
    (now : ℕ) (names : List String) (expiry : ℕ) (excluded : List String)
    → ltb now expiry ≡ false
    → read_cached_namespaces now (holding names expiry) excluded ≡ none
unfolding read_cached_namespaces
read-stale now names expiry excluded e = rw e refl

unconfigured-answer :
    (own : String) (now : ℕ) (listed : Result ApiError (List String)) (config : Config)
    (cached : Option (List String)) (expiry : ℕ)
    → (unconfigured own now listed config
        (record { cached_ns_list = cached; cache_expiry = expiry })).0
      ≡ keep_if_ok
          (λ ns.
            contains config.exclude_namespaces ns
            || barred config.force_exclude_system_namespaces own ns)
          (unexpired now listed cached expiry)
unfolding read_cached_namespaces
unconfigured-answer own now listed config none expiry =
    refreshed-answer own now listed config (record { cached_ns_list = none; cache_expiry = expiry })
unconfigured-answer own now listed config (some names) expiry = elim (Bool-cases (ltb now expiry)) [
  | inl e ↦
      (ap (λ q. (cache_or own now listed config (holding names expiry) q).0)
          (read-fresh now names expiry config.exclude_namespaces e)
        ∙ discovered-answer own config names (holding names expiry))
      ∙ rw e refl
  | inr e ↦
      (ap (λ q. (cache_or own now listed config (holding names expiry) q).0)
          (read-stale now names expiry config.exclude_namespaces e)
        ∙ refreshed-answer own now listed config (holding names expiry))
      ∙ rw e refl
]

-- SetNamespaceList answers the names of its source, in order, less three kinds: excluded names
-- (where the configuration names no namespaces), system namespaces (where they are excluded), and
-- the operator's own namespace (where it is known). It fails only if the API does.
pub set_namespace_list-answer :
    (own : String) (now : ℕ) (listed : Result ApiError (List String)) (config : Config)
    (nm : Manager)
    → (set_namespace_list own now listed config nm).0
      ≡ keep_if_ok
          (λ ns.
            (is_empty config.namespaces && contains config.exclude_namespaces ns)
            || barred config.force_exclude_system_namespaces own ns)
          (source now listed config nm)
unfolding set_namespace_list
set_namespace_list-answer own now listed config nm =
    elim (Bool-cases (is_empty config.namespaces)) [
      | inl e ↦ rw e (unconfigured-answer own now listed config nm.cached_ns_list nm.cache_expiry)
      | inr e ↦ rw e (
          ap ok
            (exclude-elems config.force_exclude_system_namespaces own (fresh config.namespaces)))
    ]
