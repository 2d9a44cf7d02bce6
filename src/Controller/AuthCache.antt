-- ===== src/Controller/AuthCache.antt =====
-- internal/controller/k8s/service/handlers/auth_cache.go: the clients are built once for each version of
-- a secret.
pub mod Transparent
use kubecloudscaler.Base.{
  ◌≡◌, refl, Bool, true, false, ◌&&◌, Option, none, some, List, [], ◌∷◌, String, str_eq,
  if◌then◌else◌, Result, ok, err,
}
use kubecloudscaler.Controller.{CacheKey, Entry}

abbrev pub same_key : CacheKey → CacheKey → Bool
same_key k j = str_eq k.namespace j.namespace && str_eq k.name j.name

module _ {C : Type 0} where
  abbrev pub lookup : CacheKey → List (Entry C) → Option (Entry C)
  lookup k [] = none
  lookup k (e ∷ es) = if same_key k e.key then some e else lookup k es

  abbrev pub store : Entry C → List (Entry C) → List (Entry C)
  store e [] = e ∷ []
  store e (f ∷ fs) = if same_key e.key f.key then e ∷ fs else f ∷ store e fs

  abbrev pub built :
      CacheKey → (rv : String) → Result String C → List (Entry C) → Result String C × List (Entry C)
  built key rv (err e) entries = (err e, entries)
  built key rv (ok c) entries =
      (ok c, store (record { key = key; resource_version = rv; client = c }) entries)

  abbrev pub found :
      CacheKey
      → (rv : String) → (build : Result String C) → Option (Entry C)
      → List (Entry C)
      → Result String C × List (Entry C)
  found key rv build none entries = built key rv build entries
  found key rv build (some e) entries =
      if str_eq e.resource_version rv then (ok e.client, entries) else built key rv build entries

  -- `build` is what the factory answers.
  unfoldable pub get_or_build :
      CacheKey
      → (rv : String) → (build : Result String C) → List (Entry C)
      → Result String C × List (Entry C)
  get_or_build key rv build entries = found key rv build (lookup key entries) entries
