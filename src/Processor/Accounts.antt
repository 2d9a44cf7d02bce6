-- ===== src/Processor/Accounts.antt =====
-- What processor.go reports of each resource that it listed.
use mathlib.Core.List.{append_assoc, append-nil}
use kubecloudscaler.Base.{
  ◌≡◌, refl, sym, ap, ◌∙◌, inl, inr, Bool-cases, Bool, true, false, Option, none, some, List, [],
  ◌∷◌, ◌++◌, map, String, Result, ok, err, if◌then◌else◌,
}
use kubecloudscaler.Api.{ScalerStatusSuccess, ScalerStatusFailed}
use kubecloudscaler.Period.{Period}
use kubecloudscaler.Strategy
use kubecloudscaler.Strategy.{Item, Applied}
use kubecloudscaler.Strategy.History.{Strategy}
use kubecloudscaler.Cluster.{ApiError, Client}
use kubecloudscaler.Processor
use kubecloudscaler.Processor.{Error, is_stop, Results, api, strategy}

-- What became of one resource: sent to the cluster, already restored, or failed.
pub data Outcome : Type 0 where
  scaled restored : Outcome
  failed : Error → Outcome

abbrev pub error_of : Outcome → Option Error
error_of (failed e) = some e
error_of _ = none

abbrev pub stops : Outcome → Bool
stops (failed e) = is_stop e
stops _ = false

module _ {W S : Type 0} (client : Client W S) (apply : Strategy S) (kind : String)
    (text : Error → String) (period : Period) (names namespaces : List String) where
  abbrev pub successes : List (Item S × Outcome) → List ScalerStatusSuccess
  successes [] = []
  successes ((item, scaled) ∷ done) =
      record { kind = kind; name = item.name; comment = "" } ∷ successes done
  successes ((item, restored) ∷ done) = successes done
  successes ((item, failed e) ∷ done) = successes done

  abbrev pub failures : List (Item S × Outcome) → List ScalerStatusFailed
  failures [] = []
  failures ((item, failed e) ∷ done) =
      record { kind = kind; name = item.name; reason = text e } ∷ failures done
  failures ((item, restored) ∷ done) = failures done
  failures ((item, scaled) ∷ done) = failures done

  -- Every resource comes after one that did not stop the loop, and the error is that of the resource
  -- that did.
  abbrev pub Ends : Option Error → List (Item S × Outcome) → (rest : List (Item S)) → Type 0
  Ends e [] rest = (e ≡ none) × (rest ≡ [])
  Ends e ((item, o) ∷ done) rest =
      if stops o then (e ≡ error_of o) × (done ≡ []) else Ends e done rest

  -- What became of one resource, by what the calls answered, from the world before to the one after:
  -- `scaled` is what the cluster took, and `restored` what the strategy left.
  pub data Became (item : Item S) (w : W) : Outcome → W → Type 0 where
    not_read :
        (e : ApiError) (v : W)
        → client.get w item.namespace item.name ≡ (err e, v)
        → Became item w (failed (api e)) v
    not_scaled :
        (x : Item S) (e : Strategy.Error) (v : W)
        → client.get w item.namespace item.name ≡ (ok x, v)
        → apply x period.type period ≡ err e
        → Became item w (failed (strategy e)) v
    left :
        (x y : Item S) (v : W)
        → client.get w item.namespace item.name ≡ (ok x, v)
        → apply x period.type period ≡ ok (true, y)
        → Became item w restored v
    taken :
        (x y : Item S) (v u : W)
        → client.get w item.namespace item.name ≡ (ok x, v)
        → apply x period.type period ≡ ok (false, y)
        → client.update v y.namespace y ≡ (ok tt, u)
        → Became item w scaled u
    not_taken :
        (x y : Item S) (e : ApiError) (v u : W)
        → client.get w item.namespace item.name ≡ (ok x, v)
        → apply x period.type period ≡ ok (false, y)
        → client.update v y.namespace y ≡ (err e, u)
        → Became item w (failed (api e)) u

  -- The outcomes of resources one after another, from the world before to the one after.
  pub data Run : W → List (Item S × Outcome) → W → Type 0 where
    over : (w : W) → Run w [] w
    then_on :
        {w v u : W} {ds : List (Item S × Outcome)} (item : Item S) (o : Outcome)
        → Became item w o v
        → Run v ds u
        → Run w ((item, o) ∷ ds) u

  abbrev reported : Results → List (Item S × Outcome) → Results
  reported r done = record {
    success = r.success ++ successes done;
    failed = r.failed ++ failures done;
  }

  append_both :
      (r : Results) (xs ys : List ScalerStatusSuccess) (us vs : List ScalerStatusFailed)
      → ◌≡◌ {A = Results}
          (record { success = (r.success ++ xs) ++ ys; failed = (r.failed ++ us) ++ vs })
          (record { success = r.success ++ (xs ++ ys); failed = r.failed ++ (us ++ vs) })
  append_both r xs ys us vs i = record {
    success = append_assoc r.success xs ys i;
    failed = append_assoc r.failed us vs i;
  }

  reported-nil : (r : Results) → r ≡ reported r []
  reported-nil r i = record {
    success = sym (append-nil r.success) i;
    failed = sym (append-nil r.failed) i;
  }

  abbrev Step : Type 0
  Step = Option Error × Results × W

  abbrev stop_or : Step → (Results → W → Step) → Step
  stop_or = Processor.stop_or client apply kind text period names namespaces

  abbrev after_update : Item S → Results → Result ApiError (Unit {0}) × W → Step
  after_update = Processor.after_update client apply kind text period names namespaces

  abbrev after_scaling : Item S → Results → W → Applied S → Step
  after_scaling = Processor.after_scaling client apply kind text period names namespaces

  abbrev process_all : List (Item S) → Results → W → Step
  process_all = Processor.process_all client apply kind text period names namespaces

  -- A step that reports outcome `o`, which is what became of the resource.
  abbrev Reports : Item S → Results → W → Step → Type 0
  Reports item r w s =
      (o : Outcome) × (v : W) × (s ≡ (error_of o, reported r ((item, o) ∷ []), v))
      × Became item w o v

  update_outcome :
      (item x y : Item S) (r : Results) (w v : W) (u : Result ApiError (Unit {0}) × W)
      → client.get w item.namespace item.name ≡ (ok x, v)
      → apply x period.type period ≡ ok (false, y)
      → client.update v y.namespace y ≡ u
      → Reports item r w (after_update item r u)
  unfolding Processor.after_update
  update_outcome item x y r w v (err e, u) got changed sent =
      (failed (api e), u, simp (append-nil r.success), not_taken x y e v u got changed sent)
  update_outcome item x y r w v (ok a, u) got changed sent =
      (scaled, u, simp (append-nil r.failed), taken x y v u got changed sent)

  scaling_outcome :
      (item x : Item S) (r : Results) (w v : W) (a : Applied S)
      → client.get w item.namespace item.name ≡ (ok x, v)
      → apply x period.type period ≡ a
      → Reports item r w (after_scaling item r v a)
  unfolding Processor.after_scaling
  scaling_outcome item x r w v (err e) got is =
      (failed (strategy e), v, simp (append-nil r.success), not_scaled x e v got is)
  scaling_outcome item x r w v (ok (true, y)) got is =
      (restored, v, simp (append-nil r.success, append-nil r.failed), left x y v got is)
  scaling_outcome item x r w v (ok (false, y)) got is =
      update_outcome item x y r w v (client.update v y.namespace y) got is refl

  get_outcome :
      (item : Item S) (r : Results) (w : W) (g : Result ApiError (Item S) × W)
      → client.get w item.namespace item.name ≡ g
      → Reports item r w
          (Processor.after_get client apply kind text period names namespaces item r g)
  unfolding Processor.after_get
  get_outcome item r w (err e, v) got =
      (failed (api e), v, simp (append-nil r.success), not_read e v got)
  get_outcome item r w (ok x, v) got =
      scaling_outcome item x r w v (apply x period.type period) got refl

  reported-cons :
      (r : Results) (d : Item S × Outcome) (done : List (Item S × Outcome))
      → reported (reported r (d ∷ [])) done ≡ reported r (d ∷ done)
  reported-cons r (item, scaled) done = append_both r _ _ _ _
  reported-cons r (item, restored) done = append_both r _ _ _ _
  reported-cons r (item, failed e) done = append_both r _ _ _ _

  -- The error, what became of the resources that were reached, those that were not, and the world.
  abbrev pub Accounted : (items : List (Item S)) → Results → W → Step → Type 0
  Accounted items r w s =
      (e : Option Error) × (done : List (Item S × Outcome)) × (rest : List (Item S)) × (v : W) × (s
        ≡ (e, reported r done, v))
      × (map (λ d. d.0) done ++ rest ≡ items)
      × Ends e done rest
      × Run w done v

  goes_on :
      (item : Item S) (o : Outcome) (items : List (Item S)) (r : Results) (w v : W) (s : Step)
      → Became item w o v
      → stops o ≡ false
      → Accounted items (reported r ((item, o) ∷ [])) v s
      → Accounted (item ∷ items) r w s
  goes_on item o items r w v s became on (e, done, rest, u, run, split, ends, all) = (
    e,
    (item, o) ∷ done,
    rest,
    u,
    run ∙ ap (λ q. (e, q, u)) (reported-cons r (item, o) done),
    ap (λ l. item ∷ l) split,
    rw on ends,
    then_on item o became all,
  )

  after_outcome :
      (item : Item S) (o : Outcome) (items : List (Item S)) (r : Results) (w v : W)
      (rest : Results → W → Step)
      → Became item w o v
      → Accounted items (reported r ((item, o) ∷ [])) v (rest (reported r ((item, o) ∷ [])) v)
      → Accounted (item ∷ items) r w (stop_or (error_of o, reported r ((item, o) ∷ []), v) rest)
  after_outcome item scaled items r w v rest b h = goes_on item scaled items r w v _ b refl h
  after_outcome item restored items r w v rest b h = goes_on item restored items r w v _ b refl h
  after_outcome item (failed e) items r w v rest b h = elim (Bool-cases (is_stop e)) [
    | inl stop ↦ rw stop (
      some e,
      (item, failed e) ∷ [],
      items,
      v,
      refl,
      refl,
      rw stop (refl, refl),
      then_on item (failed e) b (over v),
    )
    | inr on ↦ rw on (goes_on item (failed e) items r w v _ b on h)
  ]

  -- All listed resources are accounted for, in the order of the list, by what the calls answered from
  -- one world to the next. A resource is a success, once, exactly where it was read, the strategy
  -- changed it and the cluster took the update; a failure, once, with the text of the error that the
  -- read, the strategy or the update answered; and in neither list where the strategy reports it
  -- as restored already, and then no update is sent. The loop ends early only at an error of the
  -- context, with that error, and then the resources not reached are in neither list.
  pub process_all_accounts :
      (items : List (Item S)) (r : Results) (w : W) → Accounted items r w (process_all items r w)
  unfolding Processor.process_all Processor.process_resource
  process_all_accounts [] r w =
      (none, [], [], w, ap (λ q. (none, q, w)) (reported-nil r), refl, (refl, refl), over w)
  process_all_accounts (item ∷ items) r w =
      let (o, v, e, became) = get_outcome item r w (client.get w item.namespace item.name) refl in
      rw e (
        after_outcome item o items r w v (process_all items) became
          (process_all_accounts items (reported r ((item, o) ∷ [])) v))
