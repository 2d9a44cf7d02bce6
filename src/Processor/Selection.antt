-- ===== src/Processor/Selection.antt =====
-- Which resources processor.go may change: those that the names of the scaler select.
use kubecloudscaler.Base.{
  ◌≡◌, refl, ◌⊎◌, inl, inr, Bool, true, false, not, Bool-cases, Option, none, some, List, [], ◌∷◌,
  ◌++◌, All, String, Result, ok, err, is_empty, remove_if, contains, if◌then◌else◌,
}
use kubecloudscaler.Period.{Period}
use kubecloudscaler.Strategy.{Item, Applied}
use kubecloudscaler.Strategy.History.{Strategy}
use kubecloudscaler.Cluster.{ApiError, Client}
use kubecloudscaler.Processor
use kubecloudscaler.Processor.{Error, is_stop, Results, api, strategy, no_results, branch}

-- No names select every resource.
abbrev pub Selected : (names : List String) → String → Type 0
Selected names name = (is_empty names ≡ true) ⊎ (contains names name ≡ true)

module _ {W S : Type 0} (client : Client W S) (apply : Strategy S) (kind : String)
    (text : Error → String) (period : Period) (names namespaces : List String) where
  abbrev Step : Type 0
  Step = Option Error × Results × W

  abbrev select : List (Item S) → List (Item S)
  select = Processor.select client apply kind text period names namespaces

  abbrev process_all : List (Item S) → Results → W → Step
  process_all = Processor.process_all client apply kind text period names namespaces

  removed_others :
      (items : List (Item S))
      → All (λ x. contains names x.name ≡ true) (remove_if (λ x. not (contains names x.name)) items)
  removed_others [] = tt
  removed_others (x ∷ items) = elim (Bool-cases (contains names x.name)) [
    | inl e ↦ rw e (e, removed_others items)
    | inr e ↦ rw e (removed_others items)
  ]

  All-map :
      (P Q : Item S → Type 0) (items : List (Item S))
      → ((x : Item S) → P x → Q x)
      → All P items
      → All Q items
  All-map P Q [] f h = tt
  All-map P Q (x ∷ items) f (h, hs) = (f x h, All-map P Q items f hs)

  All-All : (P : Item S → Type 0) (items : List (Item S)) → ((x : Item S) → P x) → All P items
  All-All P [] f = tt
  All-All P (x ∷ items) f = (f x, All-All P items f)

  if-Selected :
      (b : Bool) (items : List (Item S))
      → is_empty names ≡ b
      → All
          (λ x. Selected names x.name)
          (if b then items else remove_if (λ x. not (contains names x.name)) items)
  if-Selected true items e = All-All (λ x. Selected names x.name) items (λ x. inl e)
  if-Selected false items e =
      All-map (λ x. contains names x.name ≡ true) (λ x. Selected names x.name) _ (λ x h. inr h)
        (removed_others items)

  -- `Inv` is what the calls of the API keep, an update only when the resource is selected.
  module _ (Inv : W → Type 0) (lists : (w : W) (ns : String) → Inv w → Inv (client.list w ns).1)
      (gets : (w : W) (ns name : String) → Inv w → Inv (client.get w ns name).1)
      (updates : (w : W) (ns : String) (y : Item S)
        → Selected names y.name
        → Inv w
        → Inv (client.update w ns y).1)
      (named : (w v : W) (ns name : String) (x : Item S)
        → client.get w ns name ≡ (ok x, v)
        → x.name ≡ name)
      (keeps_name : (x y : Item S) (b : Bool)
        → apply x period.type period ≡ ok (b, y)
        → y.name ≡ x.name) where
    update_safe :
        (item : Item S) (r : Results) (u : Result ApiError (Unit {0}) × W)
        → Inv u.1
        → Inv (Processor.after_update client apply kind text period names namespaces item r u).2
    unfolding Processor.after_update
    update_safe item r (err e, w) h = h
    update_safe item r (ok a, w) h = h

    scaling_safe :
        (item x : Item S) (r : Results) (w : W) (a : Applied S)
        → apply x period.type period ≡ a
        → Selected names x.name
        → Inv w
        → Inv (Processor.after_scaling client apply kind text period names namespaces item r w a).2
    unfolding Processor.after_scaling
    scaling_safe item x r w (err e) eq sel h = h
    scaling_safe item x r w (ok (true, y)) eq sel h = h
    scaling_safe item x r w (ok (false, y)) eq sel h =
        update_safe item r _ (updates w y.namespace y (rw (keeps_name x y false eq) sel) h)

    get_safe :
        (item : Item S) (r : Results) (w : W) (g : Result ApiError (Item S) × W)
        → client.get w item.namespace item.name ≡ g
        → Selected names item.name
        → Inv g.1
        → Inv (Processor.after_get client apply kind text period names namespaces item r g).2
    unfolding Processor.after_get
    get_safe item r w (err e, v) eq sel h = h
    get_safe item r w (ok x, v) eq sel h =
        scaling_safe item x r v _ refl (rw (named w v _ _ x eq) sel) h

    abbrev stop_or : Step → (Results → W → Step) → Step
    stop_or = Processor.stop_or client apply kind text period names namespaces

    stop_safe :
        (s : Step) (rest : Results → W → Step)
        → Inv s.2
        → ((r : Results) (w : W) → Inv w → Inv (rest r w).2)
        → Inv (stop_or s rest).2
    stop_safe (none, r, w) rest h k = k r w h
    stop_safe (some e, r, w) rest h k = elim (Bool-cases (is_stop e)) [
      | inl stop ↦ rw stop h
      | inr on ↦ rw on (k r w h)
    ]

    all_safe :
        (items : List (Item S)) (r : Results) (w : W)
        → All (λ x. Selected names x.name) items
        → Inv w
        → Inv (Processor.process_all client apply kind text period names namespaces items r w).2
    unfolding Processor.process_all Processor.process_resource
    all_safe [] r w sel h = h
    all_safe (item ∷ items) r w (now, later) h =
        stop_safe _ _ (get_safe item r w _ refl now (gets w _ _ h))
          (λ r₁ w₁ h₁. all_safe items r₁ w₁ later h₁)

    branch_safe {ℓ} :
        {E : Type 0} {A : Type ℓ} {B : Type ℓ} (P : B → Type 0) (g : Result E A × W)
        (failed : E → W → B) (got : A → W → B)
        → Inv g.1
        → ((e : E) (v : W) → Inv v → P (failed e v))
        → ((a : A) (v : W) → Inv v → P (got a v))
        → P (branch g failed got)
    branch_safe P (err e, v) failed got h k l = k e v h
    branch_safe P (ok a, v) failed got h k l = l a v h

    list_safe :
        (nss : List String) (items : List (Item S)) (w : W)
        → Inv w
        → Inv (Processor.list_all client apply kind text period names namespaces nss items w).1
    unfolding Processor.list_all
    list_safe [] items w h = h
    list_safe (ns ∷ nss) items w h =
        branch_safe {B = Result Error (List (Item S)) × W} (λ q. Inv q.1) (client.list w ns) _ _
          (lists w ns h) (λ e v k. k) (λ more v k. list_safe nss (items ++ more) v k)

    processed_safe :
        (q : Result Error (List (Item S)) × W)
        → Inv q.1
        → Inv
            (branch
              (branch q (λ e v. (err e, v)) (λ items v. (ok (select items), v)))
              (λ e v. (some e, no_results, v))
              (λ items v. process_all items no_results v)).2
    processed_safe (err e, v) h = h
    processed_safe (ok items, v) h =
        all_safe (select items) no_results v (if-Selected (is_empty names) items refl) h

    -- Processing changes no resource that the names do not select: whatever the listings, the reads
    -- and the updates of selected resources keep, it keeps, on every path. It needs a read to answer
    -- the resource of that name, and a strategy that does not rename.
    pub process_resources_safe :
        (w : W)
        → Inv w
        → Inv (Processor.process_resources client apply kind text period names namespaces w).2
    unfolding Processor.process_resources Processor.list_resources
    process_resources_safe w h =
        processed_safe
          (Processor.list_all client apply kind text period names namespaces namespaces [] w)
          (list_safe namespaces [] w h)
