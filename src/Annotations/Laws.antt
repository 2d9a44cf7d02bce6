-- ===== src/Annotations/Laws.antt =====
-- What the annotations keep: the first recorded original value, and every key of somebody else.
use kubecloudscaler.Base.{
  ℕ, ◌≡◌, refl, ap, ◌∙◌, fun_ext, Bool, true, false, Option, none, some, String, str_eq, eq_iff,
  starts_with, arith, ℤ, pos, IsInt32, to_int32_of_IsInt32, ok, insert, delete_prefix,
  insert_missing, has, Bool-cases, inl, inr,
}
use kubecloudscaler.Strconv.{format_int, format_bool}
use kubecloudscaler.Strconv.RoundTrip.{atoi-format_int, parse_bool-format_bool}
use kubecloudscaler.Period.{Period, deref}
use kubecloudscaler.Annotations.{
  prefix, orig_value, min_orig_value, max_orig_value, period_type, period_start_time,
  period_end_time, period_timezone, Annotations, add_timezone, add_annotations,
  add_min_max_annotations, add_bool_annotations, add_int_annotations, remove_annotations,
  restore_min_max_annotations, restore_bool_annotations, restore_int_annotations,
}

-- A key of the scaler is gone after a removal, whatever it held.
delete_prefix-insert :
    (k v : String) (m : Annotations)
    → starts_with k prefix ≡ true
    → delete_prefix prefix (insert k v m) ≡ delete_prefix prefix m
delete_prefix-insert k v m own = fun_ext λ j. elim (Bool-cases (starts_with j prefix)) [
  | inl e ↦ rw e
  | inr e ↦ elim (Bool-cases (str_eq k j)) [
    | inl same ↦ absurd (cc ((eq_iff k j).0 same))
    | inr differs ↦ rw (e, differs)
  ]
]

delete_prefix-insert_missing :
    (k v : String) (m : Annotations)
    → starts_with k prefix ≡ true
    → delete_prefix prefix (insert_missing k v m) ≡ delete_prefix prefix m
unfolding insert_missing
delete_prefix-insert_missing k v m own = elim (Bool-cases (has k m)) [
  | inl e ↦ rw e
  | inr e ↦ rw e (delete_prefix-insert k v m own)
]

remove-add_timezone :
    (zone : Option String) (m : Annotations)
    → delete_prefix prefix (add_timezone zone m) ≡ delete_prefix prefix m
remove-add_timezone none m = refl
remove-add_timezone (some z) m = delete_prefix-insert period_timezone z m refl

-- What a key holds after `if !isExists { m[k] = v }`.
insert_missing_self :
    (k v : String) (m : Annotations) → insert_missing k v m k ≡ some (deref (m k) v)
unfolding insert_missing
insert_missing_self k v m = ground (arith, eq_iff k k)

insert_missing_ne :
    (k v j : String) (m : Annotations) → str_eq k j ≡ false → insert_missing k v m j ≡ m j
unfolding insert_missing
insert_missing_ne k v j m h = ground arith

module _ (stamp : ℕ → String) where
  remove-add_annotations :
      (m : Annotations) (p : Option Period)
      → delete_prefix prefix (add_annotations stamp m p) ≡ delete_prefix prefix m
  unfolding add_annotations
  remove-add_annotations m none = refl
  remove-add_annotations m (some p) =
      remove-add_timezone p.spec.timezone _
      ∙ (delete_prefix-insert period_end_time (stamp p.end_time) _ refl
          ∙ (delete_prefix-insert period_start_time (stamp p.start_time) _ refl
              ∙ delete_prefix-insert period_type p.type m refl))

  -- The keys of the original values are none of the period's keys.
  abbrev IsKept : String → Type 0
  IsKept k = (m : Annotations) (p : Option Period) → add_annotations stamp m p k ≡ m k

  orig-IsKept : IsKept orig_value
  unfolding add_annotations
  orig-IsKept m none = refl
  orig-IsKept m (some p) = ground arith

  min-IsKept : IsKept min_orig_value
  unfolding add_annotations
  min-IsKept m none = refl
  min-IsKept m (some p) = ground arith

  max-IsKept : IsKept max_orig_value
  unfolding add_annotations
  max-IsKept m none = refl
  max-IsKept m (some p) = ground arith

  module _ (m : Annotations) (p : Option Period) where
    -- Adding annotations keeps the original value that is recorded, or records the given one, and
    -- touches only the scaler's own keys.
    pub add_int_annotations_lem :
        (v : Option ℤ)
        → (add_int_annotations stamp m p v orig_value
            ≡ some (deref (m orig_value) (format_int (deref v (pos 0)))))
          × (remove_annotations (add_int_annotations stamp m p v) ≡ remove_annotations m)
    unfolding add_int_annotations remove_annotations
    add_int_annotations_lem v = (
      insert_missing_self orig_value _ _
          ∙ ap (λ o. some (deref o (format_int (deref v (pos 0))))) (orig-IsKept m p),
      delete_prefix-insert_missing orig_value _ _ refl ∙ remove-add_annotations m p,
    )

    pub add_bool_annotations_lem :
        (v : Bool)
        → (add_bool_annotations stamp m p v orig_value
            ≡ some (deref (m orig_value) (format_bool v)))
          × (remove_annotations (add_bool_annotations stamp m p v) ≡ remove_annotations m)
    unfolding add_bool_annotations remove_annotations
    add_bool_annotations_lem v = (
      insert_missing_self orig_value _ _
          ∙ ap (λ o. some (deref o (format_bool v))) (orig-IsKept m p),
      delete_prefix-insert_missing orig_value _ _ refl ∙ remove-add_annotations m p,
    )

    pub add_min_max_annotations_lem :
        (lo : Option ℤ) (hi : ℤ)
        → (add_min_max_annotations stamp m p lo hi min_orig_value
            ≡ some (deref (m min_orig_value) (format_int (deref lo (pos 0)))))
          × (add_min_max_annotations stamp m p lo hi max_orig_value
              ≡ some (deref (m max_orig_value) (format_int hi)))
          × (remove_annotations (add_min_max_annotations stamp m p lo hi) ≡ remove_annotations m)
    unfolding add_min_max_annotations remove_annotations
    add_min_max_annotations_lem lo hi = (
      insert_missing_ne max_orig_value _ min_orig_value _ refl
          ∙ (insert_missing_self min_orig_value _ _
              ∙ ap (λ o. some (deref o (format_int (deref lo (pos 0))))) (min-IsKept m p)),
      insert_missing_self max_orig_value _ _
          ∙ ap (λ o. some (deref o (format_int hi)))
              (insert_missing_ne min_orig_value _ max_orig_value _ refl ∙ max-IsKept m p),
      delete_prefix-insert_missing max_orig_value _ _ refl
          ∙ (delete_prefix-insert_missing min_orig_value _ _ refl ∙ remove-add_annotations m p),
    )

-- What a restore reads back.
pub restore_int_lem :
    (m : Annotations) (v : ℤ)
    → IsInt32 v
    → m orig_value ≡ some (format_int v)
    → restore_int_annotations m ≡ ok (false, some v, remove_annotations m)
unfolding restore_int_annotations
restore_int_lem m v range e =
    rw (e, atoi-format_int v range) (rw (to_int32_of_IsInt32 v range) refl)

pub restore_bool_lem :
    (m : Annotations) (v : Bool)
    → m orig_value ≡ some (format_bool v)
    → restore_bool_annotations m ≡ ok (false, some v, remove_annotations m)
unfolding restore_bool_annotations
restore_bool_lem m v e = rw (e, parse_bool-format_bool v) refl

pub restore_min_max_lem :
    (m : Annotations) (lo hi : ℤ)
    → IsInt32 lo
    → IsInt32 hi
    → m min_orig_value ≡ some (format_int lo)
    → m max_orig_value ≡ some (format_int hi)
    → restore_min_max_annotations m ≡ ok (false, some lo, hi, remove_annotations m)
unfolding restore_min_max_annotations
restore_min_max_lem m lo hi lo_range hi_range e f =
    rw (e, atoi-format_int lo lo_range)
      (rw (f, atoi-format_int hi hi_range)
        (rw (to_int32_of_IsInt32 lo lo_range, to_int32_of_IsInt32 hi hi_range) refl))
