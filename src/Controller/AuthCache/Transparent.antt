-- ===== src/Controller/AuthCache/Transparent.antt =====
-- The client cache answers what the factory would.
use kubecloudscaler.Base.{
  ◌≡◌, refl, sym, ap, ◌∙◌, inl, inr, Bool, true, false, ◌&&◌, Bool-cases, Option, none, some, List,
  [], ◌∷◌, String, str_eq, eq_iff, All, if◌then◌else◌, Result, ok, err,
}
use kubecloudscaler.Controller.{CacheKey, Entry}
use kubecloudscaler.Controller.AuthCache.{same_key, lookup, store, built, found, get_or_build}

both : (a b : Bool) → (a && b) ≡ true → (a ≡ true) × (b ≡ true)
both true b e = (refl, e)
both false b e = cc

same_key-eq : (k j : CacheKey) → same_key k j ≡ true → k ≡ j
same_key-eq k j e =
    let (a, b) = both (str_eq k.namespace j.namespace) (str_eq k.name j.name) e in
    λ i. record {
      namespace = (eq_iff k.namespace j.namespace).0 a i;
      name = (eq_iff k.name j.name).0 b i;
    }

-- A secret's content, so the client built from it, is determined by its key and its version.
module _ {C : Type 0} (factory : CacheKey → (rv : String) → Result String C) where
  abbrev pub Sound : List (Entry C) → Type 0
  Sound = All (λ e. factory e.key e.resource_version ≡ ok e.client)

  store-Sound :
      (e : Entry C) (entries : List (Entry C))
      → factory e.key e.resource_version ≡ ok e.client
      → Sound entries
      → Sound (store e entries)
  store-Sound e [] h _ = (h, tt)
  store-Sound e (f ∷ fs) h (k, ks) = elim (Bool-cases (same_key e.key f.key)) [
    | inl a ↦ rw a (h, ks)
    | inr a ↦ rw a (k, store-Sound e fs h ks)
  ]

  hit-Sound :
      (k : CacheKey) (f e : Entry C) (later : Option (Entry C)) (b : Bool)
      → same_key k f.key ≡ b
      → factory f.key f.resource_version ≡ ok f.client
      → (later ≡ some e → factory k e.resource_version ≡ ok e.client)
      → (if b then some f else later) ≡ some e
      → factory k e.resource_version ≡ ok e.client
  hit-Sound k f e later true a h rest found = cc (h, same_key-eq k f.key a, found)
  hit-Sound k f e later false a h rest found = rest found

  lookup-Sound :
      (k : CacheKey) (entries : List (Entry C)) (e : Entry C)
      → Sound entries
      → lookup k entries ≡ some e
      → factory k e.resource_version ≡ ok e.client
  lookup-Sound k [] e _ found = cc
  lookup-Sound k (f ∷ fs) e (h, hs) found =
      hit-Sound k f e (lookup k fs) (same_key k f.key) refl h (lookup-Sound k fs e hs) found

  built-Sound :
      (key : CacheKey) (rv : String) (entries : List (Entry C)) (r : Result String C)
      → factory key rv ≡ r
      → Sound entries
      → ((built key rv r entries).0 ≡ r) × Sound (built key rv r entries).1
  built-Sound key rv entries (err e) eq h = (refl, h)
  built-Sound key rv entries (ok c) eq h =
      (refl, store-Sound (record { key = key; resource_version = rv; client = c }) entries eq h)

  found-Sound :
      (key : CacheKey) (rv : String) (entries : List (Entry C)) (o : Option (Entry C))
      → lookup key entries ≡ o
      → Sound entries
      → ((found key rv (factory key rv) o entries).0 ≡ factory key rv)
        × Sound (found key rv (factory key rv) o entries).1
  found-Sound key rv entries none eq h = built-Sound key rv entries _ refl h
  found-Sound key rv entries (some e) eq h = elim (Bool-cases (str_eq e.resource_version rv)) [
    | inl a ↦ rw a (
      sym (lookup-Sound key entries e h eq) ∙ ap (factory key) ((eq_iff e.resource_version rv).0 a),
      h,
    )
    | inr a ↦ rw a (built-Sound key rv entries _ refl h)
  ]

  -- The cache is transparent: a lookup answers what the factory would build for that secret at that
  -- version, error or client, and it keeps every entry what the factory built for its key and version.
  -- A secret's version determines its content.
  pub get_or_build-Sound :
      (key : CacheKey) (rv : String) (entries : List (Entry C))
      → Sound entries
      → ((get_or_build key rv (factory key rv) entries).0 ≡ factory key rv)
        × Sound (get_or_build key rv (factory key rv) entries).1
  unfolding get_or_build
  get_or_build-Sound key rv entries h = found-Sound key rv entries (lookup key entries) refl h
