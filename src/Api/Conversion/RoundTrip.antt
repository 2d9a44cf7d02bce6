-- ===== src/Api/Conversion/RoundTrip.antt =====
-- api/v1alpha1 and api/v1alpha2: what survives a conversion to the hub and back.
use kubecloudscaler.Base.{
  ◌≡◌, refl, ap, sym, ◌∙◌, ◌⊎◌, fun_ext, inl, inr, Bool-cases, eq_iff, true, false, none, some,
  List, [], ◌∷◌, String, str_eq, if◌then◌else◌, Dict, insert, delete,
}
use kubecloudscaler.Api.{ScalerPeriod}
use kubecloudscaler.Api.Specs
use kubecloudscaler.Api.Conversion.{
  Object, Json, annotation_exclude_resources, annotation_gcp_deployment_time,
  annotation_gcp_default_period_type, set_conversion_annotation, get_conversion_annotation,
  encode_string_slice, decode_string_slice, periods_of, pointers_of,
}
use kubecloudscaler.Api.Conversion.V1alpha1
use kubecloudscaler.Api.Conversion.V1alpha2

pub periods_of-pointers_of : (ps : List ScalerPeriod) → periods_of (pointers_of ps) ≡ ps
periods_of-pointers_of [] = refl
periods_of-pointers_of (p ∷ ps) = ap (λ qs. p ∷ qs) (periods_of-pointers_of ps)

-- A key that is absent is not missed.
pub delete_absent : (k : String) (m : Dict String) → m k ≡ none → delete k m ≡ m
delete_absent k m absent = fun_ext λ j. elim (Bool-cases (str_eq k j)) [
  | inl e ↦ rw e (sym absent ∙ ap m ((eq_iff k j).0 e))
  | inr e ↦ rw e refl
]

delete-insert : (k v : String) (m : Dict String) → delete k (insert k v m) ≡ delete k m
delete-insert k v m =
    fun_ext λ j. elim (Bool-cases (str_eq k j)) [ inl e ↦ rw e refl | inr e ↦ rw e refl ]

pairs : {A B : Type 0} {a a' : A} {b b' : B} → a ≡ a' → b ≡ b' → ◌≡◌ {A = A × B} (a, b) (a', b')
pairs p q = λ i. (p i, q i)

-- What is written under a key is read back, and nothing is left of it.
pub get-set :
    (k v : String) (m : Dict String)
    → m k ≡ none
    → get_conversion_annotation k (set_conversion_annotation k v m) ≡ (v, m)
unfolding get_conversion_annotation set_conversion_annotation
get-set k v m absent = elim (Bool-cases (str_eq v "")) [
  | inl e ↦ rw e (pairs (rw absent (sym ((eq_iff v "").0 e))) (delete_absent k m absent))
  | inr e ↦
      rw e (pairs (rw ((eq_iff k k).1 refl) refl) (delete-insert k v m ∙ delete_absent k m absent))
]

pub get_absent :
    (k : String) (m : Dict String) → m k ≡ none → get_conversion_annotation k m ≡ ("", m)
unfolding get_conversion_annotation
get_absent k m absent = pairs (rw absent refl) (delete_absent k m absent)

-- Another key is in nobody's way.
pub get-set_other :
    (j k w : String) (m : Dict String)
    → str_eq j k ≡ false
    → get_conversion_annotation k (set_conversion_annotation j w m) ≡ (
      (get_conversion_annotation k m).0,
      set_conversion_annotation j w (get_conversion_annotation k m).1,
    )
unfolding get_conversion_annotation set_conversion_annotation
get-set_other j k w m differ = elim (Bool-cases (str_eq w "")) [
  | inl e ↦ rw e refl
  | inr e ↦ rw e (pairs (rw differ refl) (fun_ext λ i. both i (Bool-cases (str_eq k i))))
]
  where
    both :
        (i : String)
        → (str_eq k i ≡ true) ⊎ (str_eq k i ≡ false)
        → delete k (insert j w m) i ≡ insert j w (delete k m) i
    both i (inl e) = rw e (rw (ap (str_eq j) (sym ((eq_iff k i).0 e)) ∙ differ) refl)
    both i (inr e) = rw e refl

get-set_both :
    (j k w v : String) (m : Dict String)
    → str_eq j k ≡ false
    → m k ≡ none
    → get_conversion_annotation k (set_conversion_annotation j w (set_conversion_annotation k v m))
      ≡ (v, set_conversion_annotation j w m)
get-set_both j k w v m differ absent =
    get-set_other j k w (set_conversion_annotation k v m) differ
    ∙ ap (λ p. (p.0, set_conversion_annotation j w p.1)) (get-set k v m absent)

-- json.Marshal of a slice that is not empty answers a text, not empty, that json.Unmarshal reads back.
abbrev pub ReadsBack : Json → Type 0
ReadsBack json =
    (x : String) (xs : List String)
    → (t : String) × (json.marshal (x ∷ xs) ≡ some t)
      × (str_eq t "" ≡ false)
      × (json.unmarshal t ≡ some (x ∷ xs))

module _ (json : Json) (reads_back : ReadsBack json) where
  -- A slice is read back, an empty one too.
  excluded-encode : (xs : List String) → V1alpha1.excluded json (encode_string_slice json xs) ≡ xs
  unfolding encode_string_slice decode_string_slice
  excluded-encode [] = refl
  excluded-encode (x ∷ xs) =
      let (t, written, not_empty, read) = reads_back x xs in
      let encoded : encode_string_slice json (x ∷ xs) ≡ t =
        rw (written, encode_string_slice) refl in
      ap (V1alpha1.excluded json) encoded ∙ rw (not_empty, read) refl

  module _ {Meta : Type 0} where
    -- A K8s object of v1alpha1 comes back from the hub as it was, less the nil pointers among its
    -- periods: the excluded resources, which the hub does not have, travel as an annotation. Where the
    -- object has no annotation of that key, and JSON is read back as it was written.
    pub k8s_from_hub-k8s_to_hub :
        (x : Object Meta V1alpha1.K8sSpec)
        → x.annotations annotation_exclude_resources ≡ none
        → V1alpha1.k8s_from_hub json (V1alpha1.k8s_to_hub json x)
          ≡ record x { spec = record x.spec { periods = pointers_of (periods_of x.spec.periods) } }
    unfolding V1alpha1.k8s_to_hub V1alpha1.k8s_from_hub
    k8s_from_hub-k8s_to_hub x absent =
        let back : List String → Dict String → Object Meta V1alpha1.K8sSpec = λ es m. record x {
          annotations = m;
          spec = record x.spec {
            periods = pointers_of (periods_of x.spec.periods);
            exclude_resources = es;
          };
        } in
        ap (λ p. back (V1alpha1.excluded json p.0) p.1)
          (get-set annotation_exclude_resources (encode_string_slice json x.spec.exclude_resources)
            x.annotations absent)
        ∙ ap (λ es. back es x.annotations) (excluded-encode x.spec.exclude_resources)

    -- A Gcp object of v1alpha1 comes back from the hub as it was, less the nil pointers among its
    -- periods, and with one more annotation, the default period type that it has in the hub. Where it
    -- has none of the annotations of a conversion before, and JSON is read back as it was written.
    pub gcp_from_hub-gcp_to_hub :
        (x : Object Meta V1alpha1.GcpSpec)
        → x.annotations annotation_exclude_resources ≡ none
        → x.annotations annotation_gcp_deployment_time ≡ none
        → x.annotations annotation_gcp_default_period_type ≡ none
        → V1alpha1.gcp_from_hub json (V1alpha1.gcp_to_hub json x) ≡ record x {
          annotations = insert annotation_gcp_default_period_type "down" x.annotations;
          spec = record x.spec { periods = pointers_of (periods_of x.spec.periods) };
        }
    unfolding V1alpha1.gcp_to_hub V1alpha1.gcp_from_hub set_conversion_annotation
    gcp_from_hub-gcp_to_hub x no_excluded no_time no_type =
        let excludes = encode_string_slice json x.spec.exclude_resources in
        let time = x.spec.deployment_time_annotation in
        let marked : Dict String → Dict String = λ m.
          set_conversion_annotation annotation_gcp_deployment_time time
            (set_conversion_annotation annotation_exclude_resources excludes m) in
        let back : String → List String → String × Dict String → Object Meta V1alpha1.GcpSpec =
          λ type es p. record x {
            annotations = set_conversion_annotation annotation_gcp_default_period_type type p.1;
            spec = record x.spec {
              periods = pointers_of (periods_of x.spec.periods);
              exclude_resources = es;
              deployment_time_annotation = p.0;
            };
          } in
        let timed : Dict String → String × Dict String =
          get_conversion_annotation annotation_gcp_deployment_time in
        let read : String → String × Dict String → Object Meta V1alpha1.GcpSpec =
          λ type p. back type (V1alpha1.excluded json p.0) (timed p.1) in
        ap
          (λ p.
            read (if str_eq p.0 "" then "down" else p.0)
              (get_conversion_annotation annotation_exclude_resources (marked p.1)))
          (get_absent annotation_gcp_default_period_type x.annotations no_type)
        ∙ ap (read "down") (
            get-set_both annotation_gcp_deployment_time annotation_exclude_resources time excludes
              x.annotations refl no_excluded)
        ∙ ap (back "down" (V1alpha1.excluded json excludes))
            (get-set annotation_gcp_deployment_time time x.annotations no_time)
        ∙ ap (λ es. back "down" es (time, x.annotations)) (excluded-encode x.spec.exclude_resources)

module _ {Meta : Type 0} where
  -- A hub object goes through v1alpha2 as it is, and so does a v1alpha2 object through the hub, less
  -- the nil pointers among its periods: for K8s and for Gcp.
  pub v1alpha2_faithful :
      (k : Object Meta Specs.K8sSpec) (g : Object Meta Specs.GcpSpec)
      (k' : Object Meta V1alpha2.K8sSpec) (g' : Object Meta V1alpha2.GcpSpec)
      → (V1alpha2.k8s_to_hub (V1alpha2.k8s_from_hub k) ≡ k)
        × (V1alpha2.gcp_to_hub (V1alpha2.gcp_from_hub g) ≡ g)
        × (V1alpha2.k8s_from_hub (V1alpha2.k8s_to_hub k') ≡ record k' {
          spec = record k'.spec { periods = pointers_of (periods_of k'.spec.periods) };
        })
        × (V1alpha2.gcp_from_hub (V1alpha2.gcp_to_hub g') ≡ record g' {
          spec = record g'.spec { periods = pointers_of (periods_of g'.spec.periods) };
        })
  unfolding V1alpha2.k8s_to_hub V1alpha2.k8s_from_hub V1alpha2.gcp_to_hub V1alpha2.gcp_from_hub
  v1alpha2_faithful k g k' g' = (
    ap (λ ps. record k { spec = record k.spec { periods = ps } })
        (periods_of-pointers_of k.spec.periods),
    ap (λ ps. record g { spec = record g.spec { periods = ps } })
        (periods_of-pointers_of g.spec.periods),
    refl,
    refl,
  )

  -- A K8s object of the hub that is read and written in v1alpha1 loses the names that it selects, so
  -- that it selects by its labels and its namespaces alone; all else comes back. Where it has no
  -- annotation of that conversion.
  pub k8s_from_hub_loses_names :
      (json : Json) (x : Object Meta Specs.K8sSpec)
      → x.annotations annotation_exclude_resources ≡ none
      → V1alpha1.k8s_to_hub json (V1alpha1.k8s_from_hub json x)
        ≡ record x { spec = record x.spec { resources = record x.spec.resources { names = [] } } }
  unfolding V1alpha1.k8s_to_hub V1alpha1.k8s_from_hub encode_string_slice set_conversion_annotation
  k8s_from_hub_loses_names json x absent =
      let back : List ScalerPeriod → Dict String → Object Meta Specs.K8sSpec = λ ps m. record x {
        annotations = m;
        spec = record x.spec { periods = ps; resources = record x.spec.resources { names = [] } };
      } in
      ap
        (λ p. back (periods_of (pointers_of x.spec.periods)) (
          set_conversion_annotation annotation_exclude_resources
            (encode_string_slice json (V1alpha1.excluded json p.0)) p.1))
        (get_absent annotation_exclude_resources x.annotations absent)
      ∙ ap (λ ps. back ps x.annotations) (periods_of-pointers_of x.spec.periods)
