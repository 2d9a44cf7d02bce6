-- ===== src/Api/Conversion.antt =====
-- api/v1alpha1/conversion_annotations.go, and what the conversions between the versions of the API
-- share. encoding/json is a parameter.
pub mod V1alpha1
pub mod V1alpha2
pub mod RoundTrip
use Prim.Native.Char.{code}
use Prim.Native.String
use Prim.Native.String.{◌++◌}
use kubecloudscaler.Base.{
  Option, none, some, List, [], ◌∷◌, String, str_eq, ◌==◌, if◌then◌else◌, Dict, insert, delete,
}
use kubecloudscaler.Api.{ScalerPeriod, ScalerStatus}

-- An object of some version: its metadata, of which only the annotations are looked at, its spec and
-- its status. A conversion copies the metadata; that the two objects share one map of annotations is
-- left out, since the old one is not used again.
pub record Object (Meta Spec : Type 0) : Type 0 where
  pub meta : Meta
  pub annotations : Dict String
  pub spec : Spec
  pub status : ScalerStatus

abbrev pub annotation_exclude_resources : String
annotation_exclude_resources = "kubecloudscaler.cloud/conversion-v1alpha1-excludeResources"

abbrev pub annotation_gcp_deployment_time : String
annotation_gcp_deployment_time =
    "kubecloudscaler.cloud/conversion-v1alpha1-gcp-deploymentTimeAnnotation"

abbrev pub annotation_gcp_default_period_type : String
annotation_gcp_default_period_type =
    "kubecloudscaler.cloud/conversion-v1alpha1-gcp-defaultPeriodType"

unfoldable pub set_conversion_annotation : (key value : String) → Dict String → Dict String
set_conversion_annotation key value m = if str_eq value "" then m else insert key value m

-- The value, the empty text if there is none, and the annotations without it.
unfoldable pub get_conversion_annotation : (key : String) → Dict String → String × Dict String
get_conversion_annotation key m = (elim (m key) [ none ↦ "" | some v ↦ v ], delete key m)

-- json.Marshal of a slice of texts and json.Unmarshal into one.
pub record Json : Type 0 where
  pub marshal : List String → Option String
  pub unmarshal : String → Option (List String)

-- `strings.Join(s, ",")` and `strings.Split(s, ",")`.
abbrev join_comma : List String → String
join_comma [] = ""
join_comma (x ∷ []) = x
join_comma (x ∷ y ∷ xs) = x ++ ("," ++ join_comma (y ∷ xs))

abbrev before : List String → String → List String
before [] c = c ∷ []
before (p ∷ ps) c = (c ++ p) ∷ ps

split_comma : String → List String
split_comma String.[] = "" ∷ []
split_comma (String.◌∷◌ c s) =
    if code c == b',' then "" ∷ split_comma s else before (split_comma s) (String.◌∷◌ c "")

module _ (json : Json) where
  unfoldable pub encode_string_slice : List String → String
  encode_string_slice [] = ""
  encode_string_slice (x ∷ xs) = elim (json.marshal (x ∷ xs)) [
    | none ↦ join_comma (x ∷ xs)
    | some t ↦ t
  ]

  unfoldable pub decode_string_slice : String → List String
  unfolding split_comma
  decode_string_slice s =
      if str_eq s "" then [] else elim (json.unmarshal s) [ none ↦ split_comma s | some xs ↦ xs ]

-- The loop over the periods: a nil pointer is left out.
abbrev pub periods_of : List (Option ScalerPeriod) → List ScalerPeriod
periods_of [] = []
periods_of (none ∷ ps) = periods_of ps
periods_of (some p ∷ ps) = p ∷ periods_of ps

abbrev pub pointers_of : List ScalerPeriod → List (Option ScalerPeriod)
pointers_of [] = []
pointers_of (p ∷ ps) = some p ∷ pointers_of ps
