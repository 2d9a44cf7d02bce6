-- ===== src/Gcp.antt =====
-- pkg/gcp/utils: the Compute API as the GCP scaler sees it, and the instances of a region. Package
-- cloud.google.com/go/compute is a parameter: a world of type `W` stands for all that its calls
-- change.
pub mod VmInstances
pub mod Controller
use Prim.Native.Char.{code}
use Prim.Native.String
use Prim.Native.String.{◌++◌}
use mathlib.Core.List.{◌++◌ as append_list}
use kubecloudscaler.Base.{
  ℕ, Bool, true, false, ◌&&◌, ◌||◌, Option, none, some, List, [], ◌∷◌, String, str_eq, ◌==◌,
  is_empty, if◌then◌else◌, Dict, Result, ok, err, ◌>>=◌, ◌>>◌, fail_if,
}
use kubecloudscaler.Namespaces.{LabelSelector}
use kubecloudscaler.Period.{Period}

-- A field that is not set reads as the empty text; the labels may be a nil map.
pub record Instance : Type 0 where
  pub name : String
  pub zone : String
  pub status : Option String
  pub labels : Option (Dict String)

-- A zone operation: whether it is done, and its errors.
pub record Operation : Type 0 where
  pub is_done : Bool
  pub errors : List String

-- Which channel `select` takes next, while an operation is waited for.
pub data Event : Type 0 where
  tick timeout cancelled : Event

pub data Error : Type 0 where
  no_project no_region no_zone unknown_state timed_out context_done : Error
  get_region_failed list_failed start_failed stop_failed get_operation_failed : String → Error
  operation_failed : List String → Error

-- ClientSet. The listing of a zone is the instances that the iterator answers, and the error that ends
-- it, if one does. `events` is what the waiting of an operation meets, from now on.
pub record ClientSet (W : Type 0) : Type 0 where
  pub get_region : W → (project : String) → (region : String) → Result String (List String)
  pub list_instances :
      W → (project : String) → (zone : String) → (filter : String) → List Instance × Option String
  pub start_instance :
      W → (project : String) → (zone : String) → (name : String) → Result String String × W
  pub stop_instance :
      W → (project : String) → (zone : String) → (name : String) → Result String String × W
  pub get_operation :
      W → (project : String) → (zone : String) → (operation : String) → Result String Operation × W
  pub events : W → List Event

pub record Config (W : Type 0) : Type 0 where
  pub project_id : String
  pub region : String
  pub client : Option (ClientSet W)
  pub names : List String
  pub label_selector : Option LabelSelector
  pub period : Option Period
  pub wait_for_operation : Bool
  pub dry_run : Bool
  pub default_period_type : String

abbrev pub running : String
running = "RUNNING"

abbrev pub stopped : String
stopped = "TERMINATED"

-- What follows the last slash, if there is one.
pub after_slash : String → Option String
after_slash String.[] = none
after_slash (String.◌∷◌ c s) = elim (after_slash s) [
  | some t ↦ some t
  | none ↦ if code c == b'/' then some s else none
]

-- `parts[len(parts)-1]` of `strings.Split(s, "/")`.
unfoldable pub last_part : String → String
unfolding after_slash
last_part s = elim (after_slash s) [ none ↦ s | some t ↦ t ]

abbrev last_parts : List String → List String
last_parts [] = []
last_parts (z ∷ zs) = last_part z ∷ last_parts zs

-- The nil client is tested after the two texts.
unfoldable pub get_zones_from_region :
    {W : Type 0} → Option (ClientSet W) → (project region : String) → W → Result Error (List String)
get_zones_from_region none project region w =
    fail_if (str_eq project "") no_project
    >> fail_if (str_eq region "") no_region
    >> err (get_region_failed "regions client is nil")
get_zones_from_region (some c) project region w =
    fail_if (str_eq project "") no_project
    >> fail_if (str_eq region "") no_region
    >> elim (c.get_region w project region) [
      | err e ↦ err (get_region_failed e)
      | ok zones ↦ ok (last_parts zones)
    ]

-- One label of the filter; `keys` answers the keys of a map in the order in which Go visits them.
abbrev label_filter : Dict String → String → String
label_filter m k = "labels." ++ (k ++ ("=" ++ elim (m k) [ none ↦ "" | some v ↦ v ]))

abbrev join_and : Dict String → List String → String
join_and m [] = ""
join_and m (k ∷ []) = label_filter m k
join_and m (k ∷ j ∷ ks) = label_filter m k ++ (" AND " ++ join_and m (j ∷ ks))

-- The expressions of the selector are left out.
unfoldable pub build_filter : (keys : Dict String → List String) → Option LabelSelector → String
build_filter keys none = ""
build_filter keys (some sel) = join_and sel.match_labels (keys sel.match_labels)

unfoldable pub get_instances_in_zones :
    {W : Type 0}
    → ClientSet W
    → (project filter : String) → (zones : List String) → W
    → Result Error (List Instance)
get_instances_in_zones c project filter [] w = ok []
get_instances_in_zones c project filter (zone ∷ zones) w =
    let (found, failure) = c.list_instances w project zone filter in
    elim failure [
      | some e ↦ err (list_failed e)
      | none ↦
          get_instances_in_zones c project filter zones w >>= λ rest. ok (append_list found rest)
    ]

abbrev pub get_instance_status : Instance → String
get_instance_status i = elim i.status [ none ↦ "" | some s ↦ s ]

abbrev pub is_instance_transitioning : Instance → Bool
is_instance_transitioning i =
    str_eq (get_instance_status i) "STOPPING" || str_eq (get_instance_status i) "STARTING"

abbrev has_label : Dict String → Dict String → String → Bool
has_label labels wanted k =
    str_eq (elim (labels k) [ none ↦ "" | some v ↦ v ]) (elim (wanted k) [ none ↦ "" | some v ↦ v ])

abbrev has_labels : Dict String → Dict String → List String → Bool
has_labels labels wanted [] = true
has_labels labels wanted (k ∷ ks) = has_label labels wanted k && has_labels labels wanted ks

unfoldable pub matches_label_selector :
    (keys : Dict String → List String) → Instance → LabelSelector → Bool
matches_label_selector keys i sel = elim i.labels [
  | none ↦ false
  | some labels ↦ has_labels labels sel.match_labels (keys sel.match_labels)
]

unfoldable pub filter_instances_by_labels :
    (keys : Dict String → List String) → List Instance → Option LabelSelector → List Instance
filter_instances_by_labels keys is none = is
filter_instances_by_labels keys [] (some sel) = []
filter_instances_by_labels keys (i ∷ is) (some sel) =
    let rest = filter_instances_by_labels keys is (some sel) in
    if matches_label_selector keys i sel then i ∷ rest else rest
