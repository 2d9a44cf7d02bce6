-- ===== src/Namespaces.antt =====
-- pkg/k8s/utils/namespace_manager.go: the namespaces and the label selector that the resources of a
-- scaler are listed with. A slice of the source shares its array with the slice that it was cut
-- from; `slices.DeleteFunc` works in that array.
pub mod Excluded
pub mod Aliasing
pub mod Cached
pub mod Selector
use kubecloudscaler.Base.{
  ℕ, ◌+◌, ◌-◌, Bool, true, false, ◌&&◌, not, Option, none, some, List, [], ◌∷◌, ◌++◌, String,
  str_eq, ltb, length, replicate, is_empty, remove_if, contains, if◌then◌else◌, Dict, empty, Result,
  ok, err,
}
use kubecloudscaler.Time.{second}
use kubecloudscaler.Period.{Period}
use kubecloudscaler.Cluster.{ApiError}

-- metaV1.LabelSelectorOperator and LabelSelectorRequirement.
pub data Operator : Type 0 where
  in_values not_in_values exists does_not_exist : Operator

pub record Requirement : Type 0 where
  pub key : String
  pub operator : Operator
  pub values : List String

pub record LabelSelector : Type 0 where
  pub match_labels : Dict String
  pub match_expressions : List Requirement

pub record Config : Type 0 where
  pub namespaces : List String
  pub exclude_namespaces : List String
  pub label_selector : Option LabelSelector
  pub period : Option Period
  pub force_exclude_system_namespaces : Bool
  pub names : List String

pub record K8sResource : Type 0 where
  pub names : List String
  pub ns_list : List String
  pub label_selector : String
  pub period : Option Period

-- The fields of namespaceManager that change.
pub record Manager : Type 0 where
  pub cached_ns_list : Option (List String)
  pub cache_expiry : ℕ

-- NewNamespaceManager.
abbrev pub new_manager : Manager
new_manager = record { cached_ns_list = none; cache_expiry = 0 }

-- namespaceCacheTTL, five minutes in nanoseconds.
abbrev pub cache_ttl : ℕ
cache_ttl = 300000000000

abbrev pub default_exclude_namespaces : List String
default_exclude_namespaces = "kube-system" ∷ []

abbrev pub ignore_key : String
ignore_key = "kubecloudscaler.cloud/ignore"

-- A slice of strings: its elements, and what the shared array holds after them.
pub record Slice : Type 0 where
  pub elems : List String
  pub beyond : List String

-- `slices.DeleteFunc`: the elements that stay move to the front of the array, and those that they
-- leave behind are set to "".
unfoldable pub delete_func : (String → Bool) → Slice → Slice
delete_func del s = record {
  elems = remove_if del s.elems;
  beyond = replicate (length s.elems - length (remove_if del s.elems)) "" ++ s.beyond;
}

abbrev pub exclude_system_namespaces : Slice → Slice
exclude_system_namespaces = delete_func (λ ns. contains default_exclude_namespaces ns)

-- `own` is the environment's POD_NAMESPACE, "" if it is not set.
unfoldable pub exclude_own_namespace : (own : String) → Slice → Slice
exclude_own_namespace own s = if str_eq own "" then s else delete_func (λ ns. str_eq ns own) s

-- The loop that copies the names that are not excluded.
abbrev pub without : (exclude names : List String) → List String
without exclude names = remove_if (λ ns. contains exclude ns) names

unfoldable pub read_cached_namespaces : (now : ℕ) → Manager → List String → Option (List String)
read_cached_namespaces now nm exclude = elim nm.cached_ns_list [
  | none ↦ none
  | some names ↦ if ltb now nm.cache_expiry then some (without exclude names) else none
]

-- `listed` is the API's answer: the names of the namespaces.
unfoldable pub refresh_namespace_cache :
    (now : ℕ)
    → Result ApiError (List String)
    → Manager
    → List String
    → Result ApiError (List String) × Manager
refresh_namespace_cache now (err e) nm exclude = (err e, nm)
refresh_namespace_cache now (ok names) nm exclude = (
  ok (without exclude names),
  record { cached_ns_list = some names; cache_expiry = now + cache_ttl },
)

abbrev pub exclude : (force : Bool) → (own : String) → Slice → Slice
exclude force own s = exclude_own_namespace own (if force then exclude_system_namespaces s else s)

-- A list that the code has just made: nothing else sees its array.
abbrev pub fresh : List String → Slice
fresh names = record { elems = names; beyond = [] }

-- The answer, the configuration, whose array may have changed, and the manager.
abbrev pub Listed : Type 0
Listed = Result ApiError (List String) × Config × Manager

abbrev pub configured : (own : String) → Config → Manager → Listed
configured own config nm =
    let s = exclude config.force_exclude_system_namespaces own (fresh config.namespaces) in
    (ok s.elems, record config { namespaces = s.elems ++ s.beyond }, nm)

unfoldable pub discovered :
    (own : String) → Config → Result ApiError (List String) × Manager → Listed
discovered own config (err e, nm) = (err e, config, nm)
discovered own config (ok names, nm) =
    (ok (exclude config.force_exclude_system_namespaces own (fresh names)).elems, config, nm)

-- Without configured namespaces: the cache if there is one that holds, else the API.
abbrev pub cache_or :
    (own : String)
    → (now : ℕ) → Result ApiError (List String)
    → Config
    → Manager
    → (cached : Option (List String)) → Listed
cache_or own now listed config nm (some cached) = discovered own config (ok cached, nm)
cache_or own now listed config nm none =
    discovered own config (refresh_namespace_cache now listed nm config.exclude_namespaces)

abbrev pub unconfigured :
    (own : String) → (now : ℕ) → Result ApiError (List String) → Config → Manager → Listed
unconfigured own now listed config nm =
    cache_or own now listed config nm (read_cached_namespaces now nm config.exclude_namespaces)

unfoldable pub set_namespace_list :
    (own : String) → (now : ℕ) → Result ApiError (List String) → Config → Manager → Listed
set_namespace_list own now listed config nm =
    if is_empty config.namespaces
    then unconfigured own now listed config nm
    else configured own config nm

-- Labels of the custom selector overwrite, and its requirements on the ignore label are left out.
unfoldable pub merge_label_selectors : LabelSelector → LabelSelector → LabelSelector
merge_label_selectors default custom = record {
  match_labels =
      λ k. elim (custom.match_labels k) [ some v ↦ some v | none ↦ default.match_labels k ];
  match_expressions =
      default.match_expressions
      ++ remove_if (λ r. str_eq r.key ignore_key) custom.match_expressions;
}

abbrev pub default_selector : LabelSelector
default_selector = record {
  match_labels = empty;
  match_expressions = record { key = ignore_key; operator = does_not_exist; values = [] } ∷ [];
}

abbrev pub selector : Option LabelSelector → LabelSelector
selector none = default_selector
selector (some custom) = merge_label_selectors default_selector custom

-- `format` is metaV1.FormatLabelSelector.
module _ (format : LabelSelector → String) where
  abbrev pub searched : Listed → Result ApiError (List String × String) × Config × Manager
  searched (err e, c, m) = (err e, c, m)
  searched (ok ns_list, c, m) = (ok (ns_list, format (selector c.label_selector)), c, m)

  unfoldable pub prepare_search :
      (own : String)
      → (now : ℕ) → Result ApiError (List String)
      → Config
      → Manager
      → Result ApiError (List String × String) × Config × Manager
  prepare_search own now listed config nm = searched (set_namespace_list own now listed config nm)

  abbrev pub resource_of :
      Result ApiError (List String × String) × Config × Manager
      → Result ApiError K8sResource × Config × Manager
  resource_of (err e, c, m) = (err e, c, m)
  resource_of (ok (ns_list, s), c, m) = (
    ok (record { names = c.names; ns_list = ns_list; label_selector = s; period = c.period }),
    c,
    m,
  )

  unfoldable pub init_config :
      (own : String)
      → (now : ℕ) → Result ApiError (List String)
      → Config
      → Manager
      → Result ApiError K8sResource × Config × Manager
  init_config own now listed config nm = resource_of (prepare_search own now listed config nm)
