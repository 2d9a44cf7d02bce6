-- ===== src/Processor/Passes.antt =====
-- processor.go over a cluster that keeps what it is told: what each pass leaves of a resource, and
-- passes one after another.
use mathlib.Core.Path.{subst}
use kubecloudscaler.Base.{
  ◌≡◌, refl, ap, sym, ◌∙◌, true, false, Option, none, some, List, [], ◌∷◌, All, String, Result, ok,
  err,
}
use kubecloudscaler.Period.{Period}
use kubecloudscaler.Strategy.{Item, Applied}
use kubecloudscaler.Strategy.History.{Strategy, KeepsKey, Steps, finished, applied}
use kubecloudscaler.Cluster.{ApiError, not_found, Client}
use kubecloudscaler.Processor
use kubecloudscaler.Processor.{Error, Results, no_results, branch}

-- A cluster that answers every call, as the resources that it holds: `find` is what it holds.
pub record IsStore {W S : Type 0} (client : Client W S)
    (find : W → (namespace name : String) → Option (Item S)) : Type 0 where
  pub got :
      (w : W) (ns n : String) (x : Item S) → find w ns n ≡ some x → client.get w ns n ≡ (ok x, w)
  pub missing :
      (w : W) (ns n : String) → find w ns n ≡ none → client.get w ns n ≡ (err not_found, w)
  pub named :
      (w : W) (ns n : String) (x : Item S)
      → find w ns n ≡ some x
      → (x.namespace ≡ ns) × (x.name ≡ n)
  pub updated : (w : W) (y : Item S) → (client.update w y.namespace y).0 ≡ ok tt
  pub written :
      (w : W) (y : Item S) → find (client.update w y.namespace y).1 y.namespace y.name ≡ some y
  pub untouched :
      (w : W) (y : Item S) (ns n : String)
      → ¬ ((y.namespace ≡ ns) × (y.name ≡ n))
      → find (client.update w y.namespace y).1 ns n ≡ find w ns n

abbrev pub Other : {S : Type 0} → Item S → (namespace name : String) → Type 0
Other j ns n = ¬ ((j.namespace ≡ ns) × (j.name ≡ n))

-- One resource of the list has this key.
pub data Once {S : Type 0} : (namespace name : String) → List (Item S) → Type 0 where
  here :
      (j : Item S) (js : List (Item S))
      → All (λ k. Other k j.namespace j.name) js
      → Once j.namespace j.name (j ∷ js)
  later :
      {ns n : String} (j : Item S) (js : List (Item S))
      → Other j ns n
      → Once ns n js
      → Once ns n (j ∷ js)

module _ {W S : Type 0} (client : Client W S)
    (find : W → (namespace name : String) → Option (Item S)) (store : IsStore client find)
    (apply : Strategy S) (keeps_key : KeepsKey apply) (kind : String) (text : Error → String)
    (names namespaces : List String) where
  abbrev Step : Type 0
  Step = Option Error × Results × W

  module _ (p : Period) where
    abbrev stop_or : Step → (Results → W → Step) → Step
    stop_or = Processor.stop_or client apply kind text p names namespaces

    -- The loop goes on, and the resources elsewhere are as before.
    abbrev Passed : Item S → W → Step → Type 0
    Passed j w s =
        ((rest : Results → W → Step) → stop_or s rest ≡ rest s.1 s.2)
        × ((ns n : String) → Other j ns n → find s.2 ns n ≡ find w ns n)

    update-Passed :
        (j y : Item S) (r : Results) (w : W) (u : Result ApiError (Unit {0}) × W)
        → u.0 ≡ ok tt
        → ((ns n : String) → Other j ns n → find u.1 ns n ≡ find w ns n)
        → Passed j w (Processor.after_update client apply kind text p names namespaces j r u)
    unfolding Processor.after_update
    update-Passed j y r w (err e, v) fine elsewhere = absurd (cc fine)
    update-Passed j y r w (ok a, v) fine elsewhere = (λ rest. refl, elsewhere)

    scaling-Passed :
        (j x : Item S) (r : Results) (w : W) (a : Applied S)
        → apply x p.type p ≡ a
        → (x.namespace ≡ j.namespace) × (x.name ≡ j.name)
        → Passed j w (Processor.after_scaling client apply kind text p names namespaces j r w a)
    unfolding Processor.after_scaling
    scaling-Passed j x r w (err e) eq key = (λ rest. refl, λ ns n o. refl)
    scaling-Passed j x r w (ok (true, y)) eq key = (λ rest. refl, λ ns n o. refl)
    scaling-Passed j x r w (ok (false, y)) eq key =
        let (same_ns, same_n) = keeps_key x y p false eq in
        update-Passed j y r w (client.update w y.namespace y) (store.updated w y) (λ ns n other.
          store.untouched w y ns n
            (λ k. other (sym key.0 ∙ sym same_ns ∙ k.0, sym key.1 ∙ sym same_n ∙ k.1)))

    resource-Passed :
        (j : Item S) (r : Results) (w : W) (o : Option (Item S))
        → find w j.namespace j.name ≡ o
        → Passed j w (Processor.process_resource client apply kind text p names namespaces w j r)
    unfolding Processor.process_resource Processor.after_get
    resource-Passed j r w none eq =
        subst
          (λ g. Passed j w (Processor.after_get client apply kind text p names namespaces j r g))
          (sym (store.missing w j.namespace j.name eq)) (λ rest. refl, λ ns n o. refl)
    resource-Passed j r w (some x) eq =
        subst
          (λ g. Passed j w (Processor.after_get client apply kind text p names namespaces j r g))
          (sym (store.got w j.namespace j.name x eq))
          (scaling-Passed j x r w (apply x p.type p) refl (store.named w j.namespace j.name x eq))

    after_update_world :
        (item : Item S) (r : Results) (u : Result ApiError (Unit {0}) × W)
        → (Processor.after_update client apply kind text p names namespaces item r u).2 ≡ u.1
    unfolding Processor.after_update
    after_update_world item r (err e, v) = refl
    after_update_world item r (ok a, v) = refl

    -- A resource that the strategy changes is what it answers.
    resource_changed :
        (j x y : Item S) (r : Results) (w : W)
        → find w j.namespace j.name ≡ some x
        → apply x p.type p ≡ ok (false, y)
        → find
            (Processor.process_resource client apply kind text p names namespaces w j r).2
            j.namespace
            j.name
          ≡ some y
    unfolding Processor.process_resource Processor.after_get Processor.after_scaling
    resource_changed j x y r w found changed =
        let (x_ns, x_n) = store.named w j.namespace j.name x found in
        let (y_ns, y_n) = keeps_key x y p false changed in
        rw (store.got w j.namespace j.name x found) (
          rw changed (
            ap (λ v. find v j.namespace j.name)
              (after_update_world j r (client.update w y.namespace y))
            ∙ subst (λ ns. find (client.update w y.namespace y).1 ns j.name ≡ some y) (y_ns ∙ x_ns)
                (subst (λ n. find (client.update w y.namespace y).1 y.namespace n ≡ some y)
                  (y_n ∙ x_n) (store.written w y))))

    abbrev process_all : List (Item S) → Results → W → Step
    process_all = Processor.process_all client apply kind text p names namespaces

    others_kept :
        (items : List (Item S)) (r : Results) (w : W) (ns n : String)
        → All (λ j. Other j ns n) items
        → find (process_all items r w).2 ns n ≡ find w ns n
    unfolding Processor.process_all
    others_kept [] r w ns n others = refl
    others_kept (j ∷ js) r w ns n (other, others) =
        let (on, elsewhere) = resource-Passed j r w (find w j.namespace j.name) refl in
        ap (λ s. find s.2 ns n) (on (process_all js))
        ∙ others_kept js _ _ ns n others
        ∙ elsewhere ns n other

    once_changed :
        (ns n : String) (items : List (Item S)) (x y : Item S) (r : Results) (w : W)
        → Once ns n items
        → find w ns n ≡ some x
        → apply x p.type p ≡ ok (false, y)
        → find (process_all items r w).2 ns n ≡ some y
    unfolding Processor.process_all
    once_changed _ _ _ x y r w (here j js others) found changed =
        let (on, elsewhere) = resource-Passed j r w (find w j.namespace j.name) refl in
        ap (λ s. find s.2 j.namespace j.name) (on (process_all js))
        ∙ others_kept js _ _ j.namespace j.name others
        ∙ resource_changed j x y r w found changed
    once_changed ns n _ x y r w (later j js other once) found changed =
        let (on, elsewhere) = resource-Passed j r w (find w j.namespace j.name) refl in
        ap (λ s. find s.2 ns n) (on (process_all js))
        ∙ once_changed ns n js x y _ _ once (elsewhere ns n other ∙ found) changed

    -- ProcessResources.
    abbrev pub pass : W → W
    pass w = (Processor.process_resources client apply kind text p names namespaces w).2

    abbrev pub Lists : (ns n : String) → W → Type 0
    Lists ns n w =
        (items : List (Item S)) × (Processor.list_resources client apply kind text p names
            namespaces w
          ≡ (ok items, w))
        × Once ns n items

    pass_changed :
        (ns n : String) (x y : Item S) (w : W)
        → Lists ns n w
        → find w ns n ≡ some x
        → apply x p.type p ≡ ok (false, y)
        → find (pass w) ns n ≡ some y
    unfolding Processor.process_resources
    pass_changed ns n x y w (items, listed, once) found changed =
        ap
          (λ q.
            find
              (branch {B = Step} q (λ e v. (some e, no_results, v))
                (λ js v. process_all js no_results v)).2
              ns n)
          listed
        ∙ once_changed ns n items x y no_results w once found changed

  abbrev pub passes : List Period → W → W
  passes [] w = w
  passes (p ∷ ps) w = passes ps (pass p w)

  -- A run of passes leaves a resource as the steps of the strategy do: of a cluster that answers every
  -- call, whose listings name the resource once.
  pub passes-Steps :
      (ns n : String) (ps : List Period) (x z : Item S) (w : W)
      → ((p : Period) (v : W) (y : Item S) → find v ns n ≡ some y → Lists p ns n v)
      → Steps apply ps x z
      → find w ns n ≡ some x
      → find (passes ps w) ns n ≡ some z
  passes-Steps ns n _ x _ w lists (finished _) found = found
  passes-Steps ns n (p ∷ ps) x z w lists (applied _ _ changed steps) found =
      passes-Steps ns n ps _ z (pass p w) lists steps
        (pass_changed p ns n x _ w (lists p w x found) found changed)
