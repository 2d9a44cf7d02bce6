-- ===== src/Examples/Conversions.antt =====
-- Objects of the older versions: the theorems at concrete inputs.
use Prim.Native.Char.{Char, code}
use kubecloudscaler.Base.{
  ◌==◌, if◌then◌else◌, Bool, ap, inl, inr, Bool-cases, eq_iff, ◌∙◌, str_eq, ◌≡◌, refl, true, false,
  Option, none, some, List, [], ◌∷◌, String, empty, insert, Dict,
}
use kubecloudscaler.Api.{ScalerPeriod}
use kubecloudscaler.Api.Specs
use kubecloudscaler.Api.Conversion.{Object, Json, annotation_gcp_default_period_type}
use kubecloudscaler.Api.Conversion.V1alpha1
use kubecloudscaler.Api.Conversion.RoundTrip.{
  ReadsBack, k8s_from_hub-k8s_to_hub, gcp_from_hub-gcp_to_hub, k8s_from_hub_loses_names,
}
use kubecloudscaler.Examples.Periods.{office, no_status}

-- An encoding that is read back: a mark before each character, another after each text.
write_text : String → String → String
write_text String.[] tail = String.◌∷◌ ";" tail
write_text (String.◌∷◌ c s) tail = String.◌∷◌ "." (String.◌∷◌ c (write_text s tail))

write_texts : List String → String
write_texts [] = ""
write_texts (x ∷ xs) = write_text x (write_texts xs)

add_char : Char → List String → List String
add_char c [] = String.◌∷◌ c "" ∷ []
add_char c (x ∷ xs) = String.◌∷◌ c x ∷ xs

read_texts : (marked : Bool) → String → List String
read_texts marked String.[] = []
read_texts true (String.◌∷◌ c s) = add_char c (read_texts false s)
read_texts false (String.◌∷◌ d s) =
    if code d == b'.' then read_texts true s else "" ∷ read_texts false s

read-write_text :
    (x tail : String) → read_texts false (write_text x tail) ≡ x ∷ read_texts false tail
unfolding write_text read_texts add_char
read-write_text String.[] tail = refl
read-write_text (String.◌∷◌ c s) tail = ap (add_char c) (read-write_text s tail)

read-write_texts : (xs : List String) → read_texts false (write_texts xs) ≡ xs
unfolding write_texts read_texts
read-write_texts [] = refl
read-write_texts (x ∷ xs) =
    read-write_text x (write_texts xs) ∙ ap (λ ys. x ∷ ys) (read-write_texts xs)

is_long : String → Bool
is_long String.[] = false
is_long (String.◌∷◌ c s) = true

not_empty : (t : String) → is_long t ≡ true → str_eq t "" ≡ false
unfolding is_long
not_empty t long = elim (Bool-cases (str_eq t "")) [
  | inl e ↦ absurd (cc (long, ap is_long ((eq_iff t "").0 e)))
  | inr e ↦ e
]

write_text_long : (x tail : String) → is_long (write_text x tail) ≡ true
unfolding is_long write_text
write_text_long String.[] tail = refl
write_text_long (String.◌∷◌ c s) tail = refl

abbrev json : Json
json = record { marshal = λ xs. some (write_texts xs); unmarshal = λ t. some (read_texts false t) }

json-ReadsBack : ReadsBack json
unfolding write_texts
json-ReadsBack x xs = (
  write_texts (x ∷ xs),
  refl,
  not_empty _ (write_text_long x (write_texts xs)),
  ap some (read-write_texts (x ∷ xs)),
)

abbrev Name : Type 0
Name = String

abbrev k8s : (names : List String) → Object Name Specs.K8sSpec
k8s names = record {
  meta = "nightly";
  annotations = insert "team" "blue" empty;
  spec = record {
    dry_run = false;
    periods = office ∷ [];
    resources = record { types = "cronjobs" ∷ []; names = names; label_selector = none };
    config = record {
      namespaces = "shop" ∷ [];
      exclude_namespaces = [];
      force_exclude_system_namespaces = true;
      deployment_time_annotation = "";
      disable_events = false;
      auth_secret = none;
      restore_on_delete = true;
    };
  };
  status = no_status;
}

k8s_from_hub_loses_names_example :
    V1alpha1.k8s_to_hub json (V1alpha1.k8s_from_hub json (k8s ("report" ∷ []))) ≡ k8s []
k8s_from_hub_loses_names_example = k8s_from_hub_loses_names json (k8s ("report" ∷ [])) refl

-- The first period is a nil pointer.
abbrev old_k8s : List (Option ScalerPeriod) → Object Name V1alpha1.K8sSpec
old_k8s periods = record {
  meta = "nightly";
  annotations = insert "team" "blue" empty;
  spec = record {
    dry_run = false;
    periods = periods;
    namespaces = "shop" ∷ [];
    exclude_namespaces = [];
    force_exclude_system_namespaces = true;
    resources = "cronjobs" ∷ [];
    exclude_resources = "report" ∷ "a, b" ∷ [];
    label_selector = none;
    deployment_time_annotation = "";
    disable_events = false;
    auth_secret = none;
    restore_on_delete = true;
  };
  status = no_status;
}

k8s_from_hub-k8s_to_hub_example :
    V1alpha1.k8s_from_hub json (V1alpha1.k8s_to_hub json (old_k8s (none ∷ some office ∷ [])))
    ≡ old_k8s (some office ∷ [])
k8s_from_hub-k8s_to_hub_example =
    k8s_from_hub-k8s_to_hub json json-ReadsBack (old_k8s (none ∷ some office ∷ [])) refl

abbrev old_gcp : Dict String → Object Name V1alpha1.GcpSpec
old_gcp annotations = record {
  meta = "nightly";
  annotations = annotations;
  spec = record {
    dry_run = false;
    periods = some office ∷ [];
    project_id = "shop";
    region = "europe-west1";
    resources = [];
    exclude_resources = "report" ∷ [];
    label_selector = none;
    deployment_time_annotation = "deployed-at";
    auth_secret = none;
    restore_on_delete = true;
    wait_for_operation = false;
  };
  status = no_status;
}

gcp_from_hub-gcp_to_hub_example :
    V1alpha1.gcp_from_hub json (V1alpha1.gcp_to_hub json (old_gcp empty))
    ≡ old_gcp (insert annotation_gcp_default_period_type "down" empty)
gcp_from_hub-gcp_to_hub_example =
    gcp_from_hub-gcp_to_hub json json-ReadsBack (old_gcp empty) refl refl refl
