-- ===== src/ActivePeriod/Choice.antt =====
-- Which period SetActivePeriod chooses.
use mathlib.Core.Path.{subst}
use kubecloudscaler.Base.{
  ℕ, suc, ◌≡◌, refl, true, false, List, [], ◌∷◌, ok, arith, ◌↔◌, Bool-cases, Result-cases, inl, inr,
}
use kubecloudscaler.Api.{ScalerPeriod}
use kubecloudscaler.Period.{Runtime, Period, new}
use kubecloudscaler.ActivePeriod.{first_active, choose, noaction_period}

-- The first period that is active at its own reading of the clock, where all before it were loaded
-- and inactive; the fallback, where all of them were.
pub data IsFirst (rt : Runtime) (clock : ℕ → ℕ) (fallback : Period)
    : ℕ → List ScalerPeriod → Period → Type 0 where
  none_active : {i : ℕ} → IsFirst rt clock fallback i [] fallback
  here :
      {i : ℕ} {p : ScalerPeriod} {ps : List ScalerPeriod} {r : Period}
      → new rt (clock i) p ≡ ok r
      → r.is_active ≡ true
      → IsFirst rt clock fallback i (p ∷ ps) r
  later :
      {i : ℕ} {p : ScalerPeriod} {ps : List ScalerPeriod} {q r : Period}
      → new rt (clock i) p ≡ ok q
      → q.is_active ≡ false
      → IsFirst rt clock fallback (suc i) ps r
      → IsFirst rt clock fallback i (p ∷ ps) r

module _ (rt : Runtime) (clock : ℕ → ℕ) (fallback : Period) where
  first_active_sound :
      (i : ℕ) (ps : List ScalerPeriod) (r : Period)
      → first_active rt clock i ps fallback ≡ ok r
      → IsFirst rt clock fallback i ps r
  unfolding first_active
  first_active_sound i [] r h = subst (IsFirst rt clock fallback i []) (cc h) none_active
  first_active_sound i (p ∷ ps) r h = elim (Result-cases (new rt (clock i) p)) [
    | inr (e, bad) ↦ absurd (ground arith)
    | inl (q, loaded) ↦ elim (Bool-cases q.is_active) [
      | inl on ↦ subst (IsFirst rt clock fallback i (p ∷ ps)) (ground arith) (here loaded on)
      | inr off ↦ later loaded off (first_active_sound (suc i) ps r (ground arith))
    ]
  ]

  first_active_complete :
      {i : ℕ} {ps : List ScalerPeriod} {r : Period}
      → IsFirst rt clock fallback i ps r
      → first_active rt clock i ps fallback ≡ ok r
  unfolding first_active
  first_active_complete none_active = refl
  first_active_complete (here loaded on) = rw loaded (rw on refl)
  first_active_complete (later loaded off rest) = rw loaded (rw off (first_active_complete rest))

-- Without a forced restore, SetActivePeriod works on the first period of the list that is active when
-- it is evaluated, provided that all before it load and are inactive; if all load and none is
-- active, on the noaction period. It fails exactly where there is no such period.
pub choose_iff :
    (rt : Runtime) (clock : ℕ → ℕ) (ps : List ScalerPeriod) (fallback r : Period)
    → new rt (clock 0) noaction_period ≡ ok fallback
    → (choose rt clock ps false ≡ ok r) ↔ IsFirst rt clock fallback 1 ps r
unfolding choose
choose_iff rt clock ps fallback r loaded =
    rw loaded (first_active_sound rt clock fallback 1 ps r, first_active_complete rt clock fallback)
