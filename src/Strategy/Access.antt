-- ===== src/Strategy/Access.antt =====
-- The accessors that the adapters of pkg/k8s/resources hand to the strategies, with the one law that
-- restoring relies on: a write forgets the write before it.
use kubecloudscaler.Base.{
  ◌≡◌, refl, Bool, Option, none, some, ℤ, pos, negsuc, ltb_ℤ, ◌^◌, ◌-◌, if◌then◌else◌,
}
use kubecloudscaler.Period.{deref}

-- One pointer field of a spec.
pub record FieldAccess (S : Type 0) (V : Type 0) : Type 0 where
  pub get : S → Option V
  pub set : Option V → S → S
  pub get-set : (v : Option V) (s : S) → get (set v s) ≡ v
  pub set-get : (s : S) → set (get s) s ≡ s
  pub set-set : (v w : Option V) (s : S) → set v (set w s) ≡ set v s

-- The two bounds of a spec. The strategies always pass a maximum.
pub record BoundsAccess (S : Type 0) : Type 0 where
  pub get : S → Option ℤ × Option ℤ
  pub set : Option ℤ → Option ℤ → S → S
  pub set-set :
      (lo lo' : Option ℤ) (hi hi' : ℤ) (s : S)
      → set lo (some hi) (set lo' (some hi') s) ≡ set lo (some hi) s

-- deployments and statefulsets: `Spec.Replicas`. What else the spec holds is `Rest`.
pub record ReplicasSpec (Rest : Type 0) : Type 0 where
  pub replicas : Option ℤ
  pub rest : Rest

abbrev pub replicas_access : (Rest : Type 0) → FieldAccess (ReplicasSpec Rest) ℤ
replicas_access Rest = record {
  get = λ s. s.replicas;
  set = λ v s. record s { replicas = v };
  get-set = λ v s. refl;
  set-get = λ s. refl;
  set-set = λ v w s. refl;
}

-- cronjobs: `Spec.Suspend`.
pub record CronJobSpec (Rest : Type 0) : Type 0 where
  pub suspend : Option Bool
  pub rest : Rest

abbrev pub suspend_access : (Rest : Type 0) → FieldAccess (CronJobSpec Rest) Bool
suspend_access Rest = record {
  get = λ s. s.suspend;
  set = λ v s. record s { suspend = v };
  get-set = λ v s. refl;
  set-get = λ s. refl;
  set-set = λ v w s. refl;
}

-- hpa: the minimum is a pointer, the maximum is not.
pub record HpaSpec (Rest : Type 0) : Type 0 where
  pub min_replicas : Option ℤ
  pub max_replicas : ℤ
  pub rest : Rest

abbrev pub hpa_access : (Rest : Type 0) → BoundsAccess (HpaSpec Rest)
hpa_access Rest = record {
  get = λ s. (s.min_replicas, some s.max_replicas);
  set = λ lo hi s. record s { min_replicas = lo; max_replicas = deref hi s.max_replicas };
  set-set = λ lo lo' hi hi' s. refl;
}

-- scaledobjects: a missing minimum is written as 0.
pub record ScaledObjectSpec (Rest : Type 0) : Type 0 where
  pub min_replica_count : Option ℤ
  pub max_replica_count : Option ℤ
  pub rest : Rest

abbrev set_some : Option ℤ → Option ℤ → Option ℤ
set_some none old = old
set_some (some v) old = some v

abbrev pub scaled_object_access : (Rest : Type 0) → BoundsAccess (ScaledObjectSpec Rest)
scaled_object_access Rest = record {
  get = λ s. (s.min_replica_count, s.max_replica_count);
  set = λ lo hi s. record s {
    min_replica_count = some (deref lo (pos 0));
    max_replica_count = set_some hi s.max_replica_count;
  };
  set-set = λ lo lo' hi hi' s. refl;
}

-- github_autoscalingrunnersets: `int` fields, read as int32 by clamping.
pub record RunnerSetSpec (Rest : Type 0) : Type 0 where
  pub min_runners : Option ℤ
  pub max_runners : Option ℤ
  pub rest : Rest

abbrev pub clamp_int32 : ℤ → ℤ
clamp_int32 v =
    if ltb_ℤ (pos (2 ^ 31 - 1)) v
    then pos (2 ^ 31 - 1)
    else if ltb_ℤ v (negsuc (2 ^ 31 - 1))
    then negsuc (2 ^ 31 - 1)
    else v

abbrev pub int_to_int32 : Option ℤ → Option ℤ
int_to_int32 none = none
int_to_int32 (some v) = some (clamp_int32 v)

abbrev pub runner_set_access : (Rest : Type 0) → BoundsAccess (RunnerSetSpec Rest)
runner_set_access Rest = record {
  get = λ s. (int_to_int32 s.min_runners, some (clamp_int32 (deref s.max_runners (pos 0))));
  set = λ lo hi s. record s { min_runners = lo; max_runners = set_some hi s.max_runners };
  set-set = λ lo lo' hi hi' s. refl;
}
