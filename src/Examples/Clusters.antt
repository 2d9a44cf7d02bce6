-- ===== src/Examples/Clusters.antt =====
-- The processor, the namespaces and the caches: the theorems at concrete inputs.
use kubecloudscaler.Base.{
  ◌≡◌, refl, ap, ◌∙◌, ◌↔◌, inl, inr, eq_iff, Bool, true, false, ◌||◌, some, none, List, [], ◌∷◌,
  String, str_eq, Result, ok, err, arith, if◌then◌else◌, if-elim, empty, insert,
}
use kubecloudscaler.Strategy.{Item}
use kubecloudscaler.Strategy.Access.{ReplicasSpec, replicas_access}
use kubecloudscaler.Strategy.IntReplicas
use kubecloudscaler.Strategy.History.{Strategy}
use kubecloudscaler.Cluster.{ApiError, not_found, Client}
use kubecloudscaler.Processor
use kubecloudscaler.Processor.{no_results}
use kubecloudscaler.Processor.Accounts.{Accounted, process_all_accounts}
use kubecloudscaler.Processor.Selection.{Selected, process_resources_safe}
use kubecloudscaler.Namespaces.{
  Config, LabelSelector, new_manager, set_namespace_list, read_cached_namespaces, selector,
  ignore_key,
}
use kubecloudscaler.Namespaces.Excluded.{set_namespace_list-answer}
use kubecloudscaler.Namespaces.Aliasing.{second_list_has_blanks}
use kubecloudscaler.Namespaces.Cached.{cached_as_listed}
use kubecloudscaler.Namespaces.Selector.{Selects, selector_ignores}
use kubecloudscaler.Controller.{CacheKey, Entry}
use kubecloudscaler.Controller.AuthCache.{get_or_build}
use kubecloudscaler.Controller.AuthCache.Transparent.{Sound, get_or_build-Sound}
use kubecloudscaler.Examples.Fixtures.{stamp, down, Rest, web}

abbrev Web : Type 0
Web = Item (ReplicasSpec Rest)

abbrev db : Web
db = record web { name = "db" }

-- Two deployments.
abbrev Pair : Type 0
Pair = Web × Web

abbrev two : Pair
two = (web, db)

abbrev get_named : (name : String) → Pair → Result ApiError Web
get_named name w =
    if str_eq "web" name
    then ok (record w.0 { name = name })
    else if str_eq "db" name
    then ok (record w.1 { name = name })
    else err not_found

abbrev put : Web → Pair → Pair
put y w = if str_eq "db" y.name then (w.0, y) else (y, w.1)

abbrev client : Client Pair (ReplicasSpec Rest)
client = record {
  list = λ w ns. (ok (w.0 ∷ w.1 ∷ []), w);
  get = λ w ns name. (get_named name w, w);
  update = λ w ns y. (ok tt, put y w);
}

abbrev strategy : Strategy (ReplicasSpec Rest)
strategy = IntReplicas.apply_scaling stamp (replicas_access Rest)

abbrev text : Processor.Error → String
text e = "error"

process_all_accounts_example :
    Accounted client strategy "deployment" text down [] [] (web ∷ db ∷ []) no_results two (
      Processor.process_all client strategy "deployment" text down [] []
        (web ∷ db ∷ [])
        no_results
        two)
process_all_accounts_example =
    process_all_accounts client strategy "deployment" text down [] [] (web ∷ db ∷ []) no_results two

keeps_name : (x y : Web) (b : Bool) → strategy x "down" down ≡ ok (b, y) → y.name ≡ x.name
unfolding IntReplicas.apply_scaling IntReplicas.scale
keeps_name x y b h = cc h

get_named-name : (name : String) (w : Pair) (x : Web) → get_named name w ≡ ok x → x.name ≡ name
get_named-name name w x h = ground (arith, h)

or_false : (b : Bool) → (b || false) ≡ true → b ≡ true
or_false true e = refl
or_false false e = e

clash : ¬ (false ≡ true)
clash e = cc e

put_web : (y : Web) (w : Pair) → Selected ("web" ∷ []) y.name → w.1 ≡ db → (put y w).1 ≡ db
put_web y w (inl e) h = absurd (cc e)
put_web y w (inr e) h =
    if-elim {A = Pair} (λ q. q.1 ≡ db) (str_eq "db" y.name)
      (λ q. absurd (clash (ap (str_eq "db") same ∙ q))) (λ q. h)
  where
    same : "web" ≡ y.name
    same = (eq_iff "web" y.name).0 (or_false (str_eq "web" y.name) e)

process_resources_safe_example :
    (Processor.process_resources client strategy "deployment" text down
      ("web" ∷ [])
      ("prod" ∷ [])
      two).2.1
    ≡ db
process_resources_safe_example =
    process_resources_safe client strategy "deployment" text down ("web" ∷ []) ("prod" ∷ [])
      (λ w. w.1 ≡ db) (λ w ns h. h) (λ w ns name h. h) (λ w ns y sel h. put_web y w sel h)
      (λ w v ns name x e. get_named-name name w x (ap (λ q. q.0) e)) keeps_name two refl

abbrev config : Config
config = record {
  namespaces = "kube-system" ∷ "prod" ∷ [];
  exclude_namespaces = [];
  label_selector = none;
  period = none;
  force_exclude_system_namespaces = true;
  names = [];
}

abbrev discovering : Config
discovering = record config { namespaces = []; exclude_namespaces = "dev" ∷ [] }

set_namespace_list-answer_example :
    (set_namespace_list "operators" 0
      (ok ("dev" ∷ "prod" ∷ "operators" ∷ []))
      discovering
      new_manager).0
    ≡ ok ("prod" ∷ [])
set_namespace_list-answer_example =
    set_namespace_list-answer "operators" 0 (ok ("dev" ∷ "prod" ∷ "operators" ∷ [])) discovering
      new_manager

second_list_has_blanks_example :
    (set_namespace_list "" 0
      (ok [])
      (set_namespace_list "" 0 (ok []) config new_manager).1
      new_manager).0
    ≡ ok ("prod" ∷ "" ∷ [])
second_list_has_blanks_example =
    second_list_has_blanks "" 0 0 (ok []) (ok []) config new_manager new_manager refl

cached_as_listed_example :
    (set_namespace_list "" 5
      (err not_found)
      discovering
      (set_namespace_list "" 0 (ok ("dev" ∷ "prod" ∷ [])) discovering new_manager).2).0
    ≡ (set_namespace_list "" 0 (ok ("dev" ∷ "prod" ∷ [])) discovering new_manager).0
unfolding read_cached_namespaces
cached_as_listed_example =
    cached_as_listed "" 0 5 ("dev" ∷ "prod" ∷ []) (err not_found) discovering discovering
      new_manager refl refl refl (omega arith)

abbrev custom : LabelSelector
custom = record { match_labels = insert "app" "web" empty; match_expressions = [] }

selector_ignores_example :
    Selects (selector (some custom)) (insert ignore_key "" (insert "app" "web" empty))
    ↔ ((true ≡ false) × Selects custom (insert ignore_key "" (insert "app" "web" empty)))
selector_ignores_example = selector_ignores custom (insert ignore_key "" (insert "app" "web" empty))

abbrev key : CacheKey
key = record { namespace = "operators"; name = "remote" }

abbrev factory : CacheKey → (rv : String) → Result String String
factory k rv = if str_eq rv "2" then err "expired" else ok rv

abbrev entries : List (Entry String)
entries = record { key = key; resource_version = "1"; client = "1" } ∷ []

get_or_build-Sound_example :
    ((get_or_build key "3" (factory key "3") entries).0 ≡ ok "3")
    × Sound factory (get_or_build key "3" (factory key "3") entries).1
get_or_build-Sound_example = get_or_build-Sound factory key "3" entries (refl, tt)
