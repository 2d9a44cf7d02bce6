-- ===== src/Processor.antt =====
-- pkg/k8s/resources/base/processor.go: all resources of one kind, listed, scaled and sent back.
pub mod Accounts
pub mod Selection
pub mod Passes
pub mod Restored
use kubecloudscaler.Base.{
  Bool, true, false, not, ◌||◌, Option, none, some, List, [], ◌∷◌, ◌++◌, String, Result, ok, err,
  is_empty, remove_if, contains, if◌then◌else◌,
}
use kubecloudscaler.Api.{ScalerStatusSuccess, ScalerStatusFailed}
use kubecloudscaler.Period.{Period}
use kubecloudscaler.Strategy
use kubecloudscaler.Strategy.{Item, Applied}
use kubecloudscaler.Strategy.History.{Strategy}
use kubecloudscaler.Cluster.{ApiError, canceled, deadline_exceeded, Client}

pub data Error : Type 0 where
  api : ApiError → Error
  strategy : Strategy.Error → Error

-- errors.Is(err, context.Canceled) || errors.Is(err, context.DeadlineExceeded)
abbrev pub is_stop : Error → Bool
is_stop (api canceled) = true
is_stop (api deadline_exceeded) = true
is_stop _ = false

pub record Results : Type 0 where
  pub success : List ScalerStatusSuccess
  pub failed : List ScalerStatusFailed

abbrev pub no_results : Results
no_results = record { success = []; failed = [] }

-- `if err != nil { … }` after a call that answers a result and leaves a world.
abbrev pub branch {ℓ κ} :
    {W E : Type 0} {A : Type ℓ} {B : Type κ}
    → Result E A × W
    → (failed : E → W → B) → (got : A → W → B) → B
branch (err e, w) failed got = failed e w
branch (ok a, w) failed got = got a w

-- `kind` is the strategy's GetKind and `text` is err.Error().
module _ {W S : Type 0} (client : Client W S) (apply : Strategy S) (kind : String)
    (text : Error → String) (period : Period) (names namespaces : List String) where
  abbrev pub append_failure : (name : String) → Error → Results → Results
  append_failure name e r = record r {
    failed = r.failed ++ record { kind = kind; name = name; reason = text e } ∷ [];
  }

  abbrev pub append_success : (name : String) → Results → Results
  append_success name r = record r {
    success = r.success ++ record { kind = kind; name = name; comment = "" } ∷ [];
  }

  -- The error that was returned, if any, the lists, and the world.
  abbrev pub Step : Type 0
  Step = Option Error × Results × W

  unfoldable pub after_update : Item S → Results → Result ApiError (Unit {0}) × W → Step
  after_update item r (err e, w) = (some (api e), append_failure item.name (api e) r, w)
  after_update item r (ok _, w) = (none, append_success item.name r, w)

  unfoldable pub after_scaling : Item S → Results → W → Applied S → Step
  after_scaling item r w (err e) = (some (strategy e), append_failure item.name (strategy e) r, w)
  after_scaling item r w (ok (true, y)) = (none, r, w)
  after_scaling item r w (ok (false, y)) = after_update item r (client.update w y.namespace y)

  unfoldable pub after_get : Item S → Results → Result ApiError (Item S) × W → Step
  after_get item r (err e, w) = (some (api e), append_failure item.name (api e) r, w)
  after_get item r (ok x, w) = after_scaling item r w (apply x period.type period)

  unfoldable pub process_resource : W → Item S → Results → Step
  process_resource w item r = after_get item r (client.get w item.namespace item.name)

  -- An error that is not the context's is dropped, and the loop goes on.
  abbrev pub stop_or : Step → (rest : Results → W → Step) → Step
  stop_or (none, r, w) rest = rest r w
  stop_or (some e, r, w) rest = if is_stop e then (some e, r, w) else rest r w

  unfoldable pub process_all : List (Item S) → Results → W → Step
  process_all [] r w = (none, r, w)
  process_all (item ∷ items) r w = stop_or (process_resource w item r) (process_all items)

  -- The listings of the namespaces in order, appended.
  unfoldable pub list_all : List String → List (Item S) → W → Result Error (List (Item S)) × W
  list_all [] items w = (ok items, w)
  list_all (ns ∷ nss) items w =
      branch (client.list w ns) (λ e v. (err (api e), v)) (λ more v. list_all nss (items ++ more) v)

  abbrev pub select : List (Item S) → List (Item S)
  select items =
      if is_empty names then items else remove_if (λ item. not (contains names item.name)) items

  unfoldable pub list_resources : W → Result Error (List (Item S)) × W
  list_resources w =
      branch (list_all namespaces [] w) (λ e v. (err e, v)) (λ items v. (ok (select items), v))

  unfoldable pub process_resources : W → Step
  process_resources w =
      branch (list_resources w) (λ e v. (some e, no_results, v))
        (λ items v. process_all items no_results v)
