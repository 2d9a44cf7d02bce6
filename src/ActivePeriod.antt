-- ===== src/ActivePeriod.antt =====
-- internal/utils/utils.go: SetActivePeriod chooses the period to apply and records it in the status.
pub mod Choice
pub mod RunOnce
pub mod Forced
use kubecloudscaler.Base.{
  ℕ, suc, ◌+◌, Bool, true, false, ◌&&◌, not, Option, none, some, List, [], ◌∷◌, String, str_eq,
  if◌then◌else◌, Result, ok, err, ◌>>=◌, or_error,
}
use kubecloudscaler.Api.{ScalerPeriod, ScalerStatus, ScalerStatusPeriod, day_all}
use kubecloudscaler.Period.{Runtime, Period, deref, new}

pub data Error : Type 0 where
  load_noaction_period load_period : Error

abbrev pub noaction : String
noaction = "noaction"

abbrev pub noaction_period : ScalerPeriod
noaction_period = record {
  type = noaction;
  time = record {
    recurring = some (record {
      days = day_all ∷ [];
      start_time = "00:00";
      end_time = "23:59";
      timezone = none;
      once = some false;
      grace_period = none;
      reverse = none;
    });
    fixed = none;
  };
  min_replicas = none;
  max_replicas = none;
  name = noaction;
}

-- Each call of New reads the clock once more: `clock i` is the reading of the i-th call.
-- The loop over the periods; without an active one it leaves `fallback`.
unfoldable pub first_active :
    Runtime
    → (clock : ℕ → ℕ) → (i : ℕ) → List ScalerPeriod
    → (fallback : Period) → Result Error Period
first_active rt clock i [] fallback = ok fallback
first_active rt clock i (p ∷ ps) fallback = or_error (new rt (clock i) p) load_period >>= λ cur.
    if cur.is_active then ok cur else first_active rt clock (suc i) ps fallback

unfoldable pub choose :
    Runtime → (clock : ℕ → ℕ) → List ScalerPeriod → (force_restore : Bool) → Result Error Period
choose rt clock periods force_restore =
    or_error (new rt (clock 0) noaction_period) load_noaction_period >>= λ fallback.
    if force_restore then ok fallback else first_active rt clock 1 periods fallback

-- `run_once` is the period returned together with ErrRunOncePeriod.
pub data Outcome : Type 0 where
  failed : Error → Outcome
  run_once : Period → Outcome
  active : Period → Outcome

-- Whether the recorded period has this hash.
abbrev recorded : ScalerStatus → String → Bool
recorded st hash = elim st.current_period [ none ↦ false | some cp ↦ str_eq cp.spec_sha hash ]

abbrev pub record_period : Period → ScalerStatus → ScalerStatus
record_period p st = record st {
  current_period = some (record {
    spec = some p.original_time;
    spec_sha = p.hash;
    name = p.name;
    type = p.type;
    successful = [];
    failed = [];
  });
}

-- From the run-once test on.
unfoldable pub apply_choice : Result Error Period → ScalerStatus → Outcome × ScalerStatus
apply_choice (err e) st = (failed e, st)
apply_choice (ok p) st =
    if deref p.once false && recorded st p.hash
    then (run_once p, st)
    else (active p, record_period p st)

unfoldable pub set_active_period :
    Runtime
    → (clock : ℕ → ℕ) → List ScalerPeriod
    → ScalerStatus
    → (force_restore : Bool) → Outcome × ScalerStatus
set_active_period rt clock periods st force_restore =
    apply_choice (choose rt clock periods force_restore) st
