-- ===== src/Namespaces/Aliasing.antt =====
-- What SetNamespaceList leaves in the configuration whose slice it cuts.
use kubecloudscaler.Base.{
  ◌≡◌, inl, inr, refl, ap, ◌∙◌, ℕ, zero, suc, ◌+◌, ◌-◌, Bool, true, false, ◌&&◌, not, Bool-cases,
  List, [], ◌∷◌, ◌++◌, String, str_eq, eq_iff, length, length-append, replicate, is_empty,
  remove_if, contains, Result, ok, arith, ◌≤◌,
}
use kubecloudscaler.Cluster.{ApiError}
use kubecloudscaler.Namespaces.{
  Config, Manager, Slice, delete_func, default_exclude_namespaces, exclude_own_namespace, exclude,
  fresh, configured, set_namespace_list,
}
use kubecloudscaler.Namespaces.Excluded.{barred, exclude-elems}

from_zero : (n : ℕ) → n ≡ 0 + n
from_zero n = omega arith

from_suc : (m n : ℕ) → suc (m + n) ≡ suc m + n
from_suc m n = omega arith

module _ {A : Type 0} where
  length-remove_if : (p : A → Bool) (xs : List A) → length (remove_if p xs) ≤ length xs
  length-remove_if p [] = omega arith
  length-remove_if p (x ∷ xs) = elim (Bool-cases (p x)) [
    | inl e ↦ rw e (omega (arith, length-remove_if p xs))
    | inr e ↦ rw e (omega (arith, length-remove_if p xs))
  ]

  remove_if-append :
      (p : A → Bool) (xs ys : List A) → remove_if p (xs ++ ys) ≡ remove_if p xs ++ remove_if p ys
  remove_if-append p [] ys = refl
  remove_if-append p (x ∷ xs) ys = elim (Bool-cases (p x)) [
    | inl e ↦ rw e (remove_if-append p xs ys)
    | inr e ↦ rw e (ap (λ l. x ∷ l) (remove_if-append p xs ys))
  ]

  remove_if-replicate :
      (p : A → Bool) (n : ℕ) (x : A) → p x ≡ false → remove_if p (replicate n x) ≡ replicate n x
  remove_if-replicate p zero x e = refl
  remove_if-replicate p (suc n) x e = rw e (ap (λ l. x ∷ l) (remove_if-replicate p n x e))

  remove_if_idem : (p : A → Bool) (xs : List A) → remove_if p (remove_if p xs) ≡ remove_if p xs
  remove_if_idem p [] = refl
  remove_if_idem p (x ∷ xs) = elim (Bool-cases (p x)) [
    | inl e ↦ rw e (remove_if_idem p xs)
    | inr e ↦ rw (e, e) (ap (λ l. x ∷ l) (remove_if_idem p xs))
  ]

  length-replicate : (n : ℕ) (x : A) → length (replicate n x) ≡ n
  length-replicate zero x = refl
  length-replicate (suc n) x = ap suc (length-replicate n x)

  is_empty-length : (xs ys : List A) → length xs ≡ length ys → is_empty xs ≡ is_empty ys
  is_empty-length [] [] e = refl
  is_empty-length [] (y ∷ ys) e = ground (arith, e)
  is_empty-length (x ∷ xs) [] e = ground (arith, e)
  is_empty-length (x ∷ xs) (y ∷ ys) e = refl

  replicate-append : (m n : ℕ) (x : A) → replicate m x ++ replicate n x ≡ replicate (m + n) x
  replicate-append zero n x = ap (λ k. replicate k x) (from_zero n)
  replicate-append (suc m) n x =
      ap (λ l. x ∷ l) (replicate-append m n x) ∙ ap (λ k. replicate k x) (from_suc m n)

-- A slice of the array of `names` names: what is not in it any more is "".
record Blanked (names : List String) (s : Slice) : Type 0 where
  shorter : length s.elems ≤ length names
  blanks : s.beyond ≡ replicate (length names - length s.elems) ""

delete_func-Blanked :
    (names : List String) (del : String → Bool) (s : Slice)
    → Blanked names s
    → Blanked names (delete_func del s)
unfolding delete_func
delete_func-Blanked names del s b = record {
  shorter = omega (arith, length-remove_if del s.elems, b.shorter);
  blanks =
      ap (λ l. replicate (length s.elems - length (remove_if del s.elems)) "" ++ l) b.blanks
      ∙ replicate-append _ _ ""
      ∙ ap (λ n. replicate n "") (omega (arith, length-remove_if del s.elems, b.shorter));
}

none_left : (n : ℕ) → 0 ≡ n - n
none_left n = omega arith

fresh-Blanked : (names : List String) → Blanked names (fresh names)
fresh-Blanked names = record {
  shorter = omega arith;
  blanks = ap (λ n. replicate n "") (none_left (length names));
}

own-Blanked :
    (names : List String) (own : String) (s : Slice)
    → Blanked names s
    → Blanked names (exclude_own_namespace own s)
unfolding exclude_own_namespace
own-Blanked names own s b = elim (Bool-cases (str_eq own "")) [
  | inl e ↦ rw e b
  | inr e ↦ rw e (delete_func-Blanked names (λ ns. str_eq ns own) s b)
]

exclude-Blanked :
    (force : Bool) (own : String) (names : List String)
    → Blanked names (exclude force own (fresh names))
exclude-Blanked true own names = own-Blanked names own _ (
    delete_func-Blanked names (λ ns. contains default_exclude_namespaces ns) _
      (fresh-Blanked names))
exclude-Blanked false own names = own-Blanked names own _ (fresh-Blanked names)

-- The number of configured namespaces that are not listed.
abbrev pub left_out : (own : String) → Config → ℕ
left_out own config =
    length config.namespaces
    - length (remove_if (barred config.force_exclude_system_namespaces own) config.namespaces)

configured-array :
    (own : String) (config : Config) (nm : Manager)
    → (configured own config nm).1.namespaces
      ≡ remove_if (barred config.force_exclude_system_namespaces own) config.namespaces
        ++ replicate (left_out own config) ""
configured-array own config nm =
    let f = config.force_exclude_system_namespaces in
    let b = exclude-Blanked f own config.namespaces in
    ap (λ l. (exclude f own (fresh config.namespaces)).elems ++ l) b.blanks
    ∙ ap (λ l. l ++ replicate (length config.namespaces - length l) "")
        (exclude-elems f own (fresh config.namespaces))

own-blank : (own : String) → (not (str_eq own "") && str_eq "" own) ≡ false
own-blank own = ground (arith, eq_iff own "", eq_iff "" own)

barred-blank : (force : Bool) (own : String) → barred force own "" ≡ false
barred-blank true own = own-blank own
barred-blank false own = own-blank own

second_list_lem :
    (force : Bool) (own : String) (names : List String) (n : ℕ)
    → remove_if (barred force own) (remove_if (barred force own) names ++ replicate n "")
      ≡ remove_if (barred force own) names ++ replicate n ""
second_list_lem force own names n =
    remove_if-append (barred force own) (remove_if (barred force own) names) (replicate n "")
    ∙ ap (λ l. l ++ remove_if (barred force own) (replicate n ""))
        (remove_if_idem (barred force own) names)
    ∙ ap (λ l. remove_if (barred force own) names ++ l)
        (remove_if-replicate _ n "" (barred-blank force own))

length-configured :
    (p : String → Bool) (names : List String)
    → length (remove_if p names ++ replicate (length names - length (remove_if p names)) "")
      ≡ length names
length-configured p names = omega (
  arith,
  length-append (remove_if p names) (replicate (length names - length (remove_if p names)) ""),
  length-replicate {A = String} (length names - length (remove_if p names)) "",
  length-remove_if p names,
)

configured-list :
    (own : String) (now : ℕ) (listed : Result ApiError (List String)) (config : Config)
    (nm : Manager)
    → is_empty config.namespaces ≡ false
    → set_namespace_list own now listed config nm ≡ configured own config nm
unfolding set_namespace_list
configured-list own now listed config nm e = rw e refl

configured-answer :
    (own : String) (config : Config) (nm : Manager)
    → (configured own config nm).0
      ≡ ok (remove_if (barred config.force_exclude_system_namespaces own) config.namespaces)
configured-answer own config nm =
    ap ok (exclude-elems config.force_exclude_system_namespaces own (fresh config.namespaces))

-- The slice of the configuration is cut in place, so a second call with the same configuration, which
-- is what a second resource type makes, lists one empty name for each namespace that the first call
-- left out. An empty name lists the resources of all namespaces. Where namespaces are configured.
pub second_list_has_blanks :
    (own : String) (now now₂ : ℕ) (listed listed₂ : Result ApiError (List String)) (config : Config)
    (nm nm₂ : Manager)
    → is_empty config.namespaces ≡ false
    → (set_namespace_list own now₂ listed₂ (set_namespace_list own now listed config nm).1 nm₂).0
      ≡ ok (
          remove_if (barred config.force_exclude_system_namespaces own) config.namespaces
          ++ replicate (left_out own config) "")
second_list_has_blanks own now now₂ listed listed₂ config nm nm₂ e =
    let f = config.force_exclude_system_namespaces in
    let c = (configured own config nm).1 in
    let array = configured-array own config nm in
    ap (λ q. (set_namespace_list own now₂ listed₂ q.1 nm₂).0)
      (configured-list own now listed config nm e)
    ∙ ap (λ q. q.0)
        (configured-list own now₂ listed₂ c nm₂ (
          ap is_empty array
          ∙ is_empty-length _ config.namespaces (length-configured (barred f own) config.namespaces)
          ∙ e))
    ∙ configured-answer own c nm₂
    ∙ ap (λ l. ok (remove_if (barred f own) l)) array
    ∙ ap ok (second_list_lem f own config.namespaces (left_out own config))
