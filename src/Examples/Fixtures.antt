-- ===== src/Examples/Fixtures.antt =====
-- The data of the examples: one resource of each kind, three periods, one scaler.
use kubecloudscaler.Base.{ℕ, true, Option, none, some, [], ◌∷◌, String, ℤ, pos, empty, insert}
use kubecloudscaler.Time.{utc}
use kubecloudscaler.Api.{RecurringPeriod, ScalerPeriod}
use kubecloudscaler.Period.{Runtime, Period}
use kubecloudscaler.Strategy.{Item}
use kubecloudscaler.Strategy.Access.{ReplicasSpec, CronJobSpec, HpaSpec, ScaledObjectSpec}

abbrev pub stamp : ℕ → String
stamp t = "2024-01-01T00:00:00Z"

abbrev pub office_hours : RecurringPeriod
office_hours = record {
  days = "monday" ∷ "Tue" ∷ [];
  start_time = "09:00";
  end_time = "17:30";
  timezone = none;
  once = some true;
  grace_period = none;
  reverse = none;
}

abbrev pub period_of : (type : String) → (lo hi : ℤ) → Period
period_of type lo hi = record {
  spec = office_hours;
  original_time = record { recurring = some office_hours; fixed = none };
  name = "office";
  type = type;
  is_active = true;
  hash = "sha";
  start_time = 0;
  end_time = 0;
  grace_period = pos 0;
  once = some true;
  min_replicas = lo;
  max_replicas = hi;
}

abbrev pub down : Period
down = period_of "down" (pos 0) (pos 1)

abbrev pub up : Period
up = period_of "up" (pos 2) (pos 8)

abbrev pub restore : Period
restore = period_of "noaction" (pos 1) (pos 1)

abbrev pub item_of : {S : Type 0} → S → Item S
item_of spec = record {
  name = "web";
  namespace = "prod";
  annotations = insert "team" "blue" empty;
  spec = spec;
}

abbrev pub Rest : Type 0
Rest = Unit {0}

abbrev pub web : Item (ReplicasSpec Rest)
web = item_of (record { replicas = some (pos 3); rest = tt })

abbrev pub job : Item (CronJobSpec Rest)
job = item_of (record { suspend = none; rest = tt })

abbrev pub autoscaler : Item (HpaSpec Rest)
autoscaler = item_of (record { min_replicas = none; max_replicas = pos 10; rest = tt })

abbrev pub scaled_object : Item (ScaledObjectSpec Rest)
scaled_object =
    item_of
      (record { min_replica_count = some (pos 1); max_replica_count = some (pos 4); rest = tt })

abbrev pub runtime : Runtime
runtime = record {
  lower_table = λ c. c;
  load_location = λ name. none;
  local = utc;
  spec_sha = λ p. "sha";
}

abbrev pub scaler_period : (min_replicas max_replicas : Option ℤ) → ScalerPeriod
scaler_period lo hi = record {
  type = "down";
  time = record { recurring = some office_hours; fixed = none };
  min_replicas = lo;
  max_replicas = hi;
  name = "office";
}
