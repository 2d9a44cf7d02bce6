-- ===== src/Controller/Scaling/Runs.antt =====
-- scaling_handler.go: what a run over the kinds of resources does, kind by kind.
use kubecloudscaler.Base.{◌≡◌, refl, List, [], ◌∷◌, ◌++◌, String, Result, ok, err}
use kubecloudscaler.Processor.{Results}
use kubecloudscaler.Namespaces.{Config}
use kubecloudscaler.Resources
use kubecloudscaler.Resources.{Clients, run_resource}
use kubecloudscaler.Controller.{Services}
use kubecloudscaler.Controller.Scaling.{collect, scale_kinds}

module _ {W Rest : Type 0} (services : Services W Rest) (clients : Clients W Rest) where
  -- From the lists, the configuration and the world before to those after: the lists of a kind follow
  -- those before it, and a kind that fails is one failure with its error's text.
  pub data Runs : List String → Results → Config → W → Results → Config → W → Type 0 where
    over : (r : Results) (config : Config) (w : W) → Runs [] r config w r config w
    ran :
        {kinds : List String} {r' : Results} {d d' : Config} {v u : W} (kind : String)
        (r s : Results) (config : Config) (w : W)
        → run_resource clients services.outside kind (services.now w) config w ≡ (ok s, d, v)
        → Runs kinds
            (record { success = r.success ++ s.success; failed = r.failed ++ s.failed })
            d
            v
            r'
            d'
            u
        → Runs (kind ∷ kinds) r config w r' d' u
    failed :
        {kinds : List String} {r' : Results} {d d' : Config} {v u : W} (kind : String) (r : Results)
        (e : Resources.Error) (config : Config) (w : W)
        → run_resource clients services.outside kind (services.now w) config w ≡ (err e, d, v)
        → Runs kinds
            (record {
              success = r.success;
              failed =
                  r.failed
                  ++ record { kind = kind; name = "N/A"; reason = services.resource_text e } ∷ [];
            })
            d
            v
            r'
            d'
            u
        → Runs (kind ∷ kinds) r config w r' d' u

  -- What a step of the loop hands on.
  abbrev Run : List String → Results → Config → W → Results × Config × W → Type 0
  Run kinds r config w (r', d', u) = Runs kinds r config w r' d' u

  collect-Runs :
      (kind : String) (kinds : List String) (r : Results) (config : Config) (w : W)
      (a : Result Resources.Error Results × Config × W)
      (rest : (s : Results) (d : Config) (v : W)
        → Run kinds s d v (scale_kinds services clients kinds s d v))
      → run_resource clients services.outside kind (services.now w) config w ≡ a
      → Run (kind ∷ kinds) r config w (
          scale_kinds services clients kinds
            (collect services kind r a).0
            (collect services kind r a).1
            (collect services kind r a).2)
  collect-Runs kind kinds r config w (err e, d, v) rest ran_to =
      failed kind r e config w ran_to (rest _ d v)
  collect-Runs kind kinds r config w (ok s, d, v) rest ran_to =
      ran kind r s config w ran_to (rest _ d v)

  pub scale_kinds-Runs :
      (kinds : List String) (r : Results) (config : Config) (w : W)
      → Run kinds r config w (scale_kinds services clients kinds r config w)
  unfolding scale_kinds
  scale_kinds-Runs [] r config w = over r config w
  scale_kinds-Runs (kind ∷ kinds) r config w =
      collect-Runs kind kinds r config w _ (scale_kinds-Runs kinds) refl
