-- ===== src/Annotations.antt =====
-- pkg/k8s/utils/annotation_manager.go: the annotations that remember the original value of a resource.
-- The map that GetAnnotations returns is the resource's own, so a removal changes the resource also
-- where SetAnnotations is not called.
pub mod Laws
use kubecloudscaler.Base.{
  ℕ, Bool, true, false, ◌&&◌, Option, none, some, String, if◌then◌else◌, ℤ, pos, to_int32, Result,
  ok, err, ◌>>=◌, Dict, insert, delete_prefix, insert_missing,
}
use kubecloudscaler.Strconv.{format_int, atoi, format_bool, parse_bool}
use kubecloudscaler.Api
use kubecloudscaler.Period.{Period, deref}

abbrev pub prefix : String
prefix = "kubecloudscaler.cloud"

-- The constants of pkg/consts/annotations.go behind the prefix and a slash.
abbrev pub orig_value : String
orig_value = "kubecloudscaler.cloud/original-value"

abbrev pub min_orig_value : String
min_orig_value = "kubecloudscaler.cloud/min-original-value"

abbrev pub max_orig_value : String
max_orig_value = "kubecloudscaler.cloud/max-original-value"

abbrev pub period_type : String
period_type = "kubecloudscaler.cloud/period-type"

abbrev pub period_start_time : String
period_start_time = "kubecloudscaler.cloud/period-start-time"

abbrev pub period_end_time : String
period_end_time = "kubecloudscaler.cloud/period-end-time"

abbrev pub period_timezone : String
period_timezone = "kubecloudscaler.cloud/period-timezone"

pub data Error : Type 0 where
  parsing_min parsing_max parsing_bool parsing_int : Error

abbrev pub Annotations : Type 0
Annotations = Dict String

-- `if period.Spec.Timezone != nil`
abbrev add_timezone : Option String → Annotations → Annotations
add_timezone none m = m
add_timezone (some zone) m = insert period_timezone zone m

-- `stamp` is `Format(time.RFC3339)`: what it writes is read by nobody.
module _ (stamp : ℕ → String) where
  unfoldable pub add_annotations : Annotations → Option Period → Annotations
  add_annotations m none = m
  add_annotations m (some p) = add_timezone p.spec.timezone (
      insert period_end_time (stamp p.end_time)
        (insert period_start_time (stamp p.start_time) (insert period_type p.type m)))

  unfoldable pub add_min_max_annotations :
      Annotations → Option Period → (min_replicas : Option ℤ) → (max : ℤ) → Annotations
  add_min_max_annotations m p min_replicas max = insert_missing max_orig_value (format_int max) (
      insert_missing min_orig_value (format_int (deref min_replicas (pos 0))) (add_annotations m p))

  unfoldable pub add_bool_annotations : Annotations → Option Period → Bool → Annotations
  add_bool_annotations m p value =
      insert_missing orig_value (format_bool value) (add_annotations m p)

  unfoldable pub add_int_annotations : Annotations → Option Period → Option ℤ → Annotations
  add_int_annotations m p value =
      insert_missing orig_value (format_int (deref value (pos 0))) (add_annotations m p)

unfoldable pub remove_annotations : Annotations → Annotations
remove_annotations m = delete_prefix prefix m

-- An annotation that is missing counts as restored, and reads as the zero value.
pub record Read (A : Type 0) : Type 0 where
  pub restored : Bool
  pub value : A

abbrev parsed : {A : Type 0} → Option A → Error → Result Error (Read A)
parsed none e = err e
parsed (some v) e = ok (record { restored = false; value = v })

abbrev pub read_int : Option String → Error → Result Error (Read ℤ)
read_int none e = ok (record { restored = true; value = pos 0 })
read_int (some rep) e = parsed (atoi rep) e

abbrev pub read_bool : Option String → Error → Result Error (Read Bool)
read_bool none e = ok (record { restored = true; value = false })
read_bool (some rep) e = parsed (parse_bool rep) e

unfoldable pub restore_min_max_annotations :
    Annotations → Result Error (Bool × Option ℤ × ℤ × Annotations)
restore_min_max_annotations m = do
  lo ← read_int (m min_orig_value) parsing_min
  hi ← read_int (m max_orig_value) parsing_max
  ok (lo.restored && hi.restored, some (to_int32 lo.value), to_int32 hi.value, remove_annotations m)

unfoldable pub restore_bool_annotations :
    Annotations → Result Error (Bool × Option Bool × Annotations)
restore_bool_annotations m = do
  r ← read_bool (m orig_value) parsing_bool
  ok (r.restored, some r.value, remove_annotations m)

unfoldable pub restore_int_annotations : Annotations → Result Error (Bool × Option ℤ × Annotations)
restore_int_annotations m = do
  r ← read_int (m orig_value) parsing_int
  ok (r.restored, some (to_int32 r.value), remove_annotations m)
