-- ===== src/Examples/Stores.antt =====
-- A cluster that keeps deployments in a table: the theorem on passes at a concrete input.
use kubecloudscaler.Base.{
  ◌≡◌, refl, ap, ◌∙◌, ◌&&◌, inl, inr, Bool, true, false, Bool-cases, eq_iff, Option, none, some,
  List, [], ◌∷◌, String, str_eq, if◌then◌else◌, Result, ok, err, arith, ℤ, pos,
}
use mathlib.Core.Path.{subst}
use kubecloudscaler.Annotations.{orig_value, remove_annotations}
use kubecloudscaler.Strconv.{format_int}
use kubecloudscaler.Period.{Period}
use kubecloudscaler.Strategy.{Item}
use kubecloudscaler.Strategy.Access.{ReplicasSpec, replicas_access}
use kubecloudscaler.Strategy.IntReplicas.{apply_scaling, apply_scaling-KeepsKey}
use kubecloudscaler.Cluster.{ApiError, not_found, Client}
use kubecloudscaler.Processor
use kubecloudscaler.Processor.{Error}
use kubecloudscaler.Processor.Passes.{IsStore, Once, here, Lists, passes}
use kubecloudscaler.Processor.Restored.{processed_restored, processed_scaled}
use kubecloudscaler.Examples.Fixtures.{stamp, Rest, web, down, up, restore}

abbrev Web : Type 0
Web = Item (ReplicasSpec Rest)

abbrev Table : Type 0
Table = String → String → Option Web

abbrev has_key : Web → (namespace name : String) → Bool
has_key x ns n = str_eq x.namespace ns && str_eq x.name n

abbrev checked : (namespace name : String) → Option Web → Option Web
checked ns n none = none
checked ns n (some x) = if has_key x ns n then some x else none

find : Table → (namespace name : String) → Option Web
find w ns n = checked ns n (w ns n)

abbrev answer : Option Web → Result ApiError Web
answer none = err not_found
answer (some x) = ok x

abbrev listed : Option Web → List Web
listed none = []
listed (some x) = x ∷ []

abbrev put : Web → Table → Table
put y w ns n = if has_key y ns n then some y else w ns n

abbrev client : Client Table (ReplicasSpec Rest)
client = record {
  list = λ w ns. (ok (listed (find w ns "web")), w);
  get = λ w ns n. (answer (find w ns n), w);
  update = λ w ns y. (ok tt, put y w);
}

both : (a b : Bool) → (a && b) ≡ true → (a ≡ true) × (b ≡ true)
both true b h = (refl, h)
both false b h = absurd (cc h)

key_of : (y : Web) (ns n : String) → has_key y ns n ≡ true → (y.namespace ≡ ns) × (y.name ≡ n)
key_of y ns n e =
    let (p, q) = both (str_eq y.namespace ns) (str_eq y.name n) e in
    ((eq_iff y.namespace ns).0 p, (eq_iff y.name n).0 q)

checked_key :
    (ns n : String) (o : Option Web) (x : Web)
    → checked ns n o ≡ some x
    → (x.namespace ≡ ns) × (x.name ≡ n)
checked_key ns n none x h = absurd (cc h)
checked_key ns n (some y) x h = by_key (has_key y ns n) refl h
  where
    by_key :
        (b : Bool)
        → has_key y ns n ≡ b
        → ◌≡◌ {A = Option Web} (if b then some y else none) (some x)
        → (x.namespace ≡ ns) × (x.name ≡ n)
    by_key true e h =
        let same : x ≡ y = cc h in
        (
          ap (λ z. z.namespace) same ∙ (key_of y ns n e).0,
          ap (λ z. z.name) same ∙ (key_of y ns n e).1,
        )
    by_key false e h = absurd (cc h)

has_own_key : (y : Web) → has_key y y.namespace y.name ≡ true
has_own_key y = rw ((eq_iff y.namespace y.namespace).1 refl, (eq_iff y.name y.name).1 refl) refl

checked_own : (y : Web) → checked y.namespace y.name (some y) ≡ some y
checked_own y = rw (has_own_key y) refl

store : IsStore client find
unfolding find
store = record {
  got = λ w ns n x found. rw found refl;
  missing = λ w ns n lost. rw lost refl;
  named = λ w ns n x found. checked_key ns n (w ns n) x found;
  updated = λ w y. refl;
  written = λ w y. rw (has_own_key y) (checked_own y);
  untouched = λ w y ns n other. elim (Bool-cases (has_key y ns n)) [
    | inl e ↦ absurd (other (key_of y ns n e))
    | inr e ↦ rw e refl
  ];
}

no_text : Error → String
no_text e = ""

abbrev Listed : Period → Table → Type 0
Listed q v =
    Lists client find store (apply_scaling stamp (replicas_access Rest))
      (apply_scaling-KeepsKey stamp (replicas_access Rest)) "deployment" no_text [] ("prod" ∷ []) q
      "prod" "web" v

lists_web : (q : Period) (v : Table) (y : Web) → find v "prod" "web" ≡ some y → Listed q v
unfolding Processor.list_resources Processor.list_all
lists_web q v y found =
    let (same_ns, same_n) = store.named v "prod" "web" y found in
    (
      y ∷ [],
      rw found refl,
      subst (λ ns. Once ns "web" (y ∷ [])) same_ns
          (subst (λ n. Once y.namespace n (y ∷ [])) same_n (here y [] tt)),
    )

abbrev with_web : Table
with_web ns n = if has_key web ns n then some web else none

processed_restored_example :
    find
      (passes client find store
        (apply_scaling stamp (replicas_access Rest))
        (apply_scaling-KeepsKey stamp (replicas_access Rest))
        "deployment"
        no_text
        []
        ("prod" ∷ [])
        (down ∷ up ∷ restore ∷ [])
        with_web)
      "prod"
      "web"
    ≡ some (record web { annotations = remove_annotations web.annotations })
unfolding find
processed_restored_example =
    processed_restored client find store stamp (replicas_access Rest) "deployment" no_text []
      ("prod" ∷ []) web down (up ∷ []) restore with_web lists_web (inl refl, (inr refl, tt))
      (refl, refl) refl (omega arith, omega arith) refl

processed_scaled_example :
    (y : Web) × (find
        (passes client find store
          (apply_scaling stamp (replicas_access Rest))
          (apply_scaling-KeepsKey stamp (replicas_access Rest))
          "deployment"
          no_text
          []
          ("prod" ∷ [])
          (down ∷ up ∷ [])
          with_web)
        "prod"
        "web"
      ≡ some y)
    × (y.spec.replicas ≡ some (pos 8))
    × (y.annotations orig_value ≡ some "3")
    × ((v : Option ℤ) → record y.spec { replicas = v } ≡ record web.spec { replicas = v })
    × (remove_annotations y.annotations ≡ remove_annotations web.annotations)
unfolding find format_int
processed_scaled_example =
    processed_scaled client find store stamp (replicas_access Rest) "deployment" no_text []
      ("prod" ∷ []) web (down ∷ []) up with_web lists_web (inl refl, (inr refl, tt)) refl refl
