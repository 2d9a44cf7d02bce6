-- ===== src/Gcp/VmInstances/Zone.antt =====
-- pkg/gcp/resources/vm-instances: the zone of an instance, read from left to right.
use Prim.Native.Char.{Char, code}
use Prim.Native.String.{◌++◌}
use text.Mathlib.TextLemmas.{append_assoc, append-nil, nil-append, cons-append}
use kubecloudscaler.Base.{
  ◌≡◌, refl, sym, ◌∙◌, ap, inl, inr, Bool, Bool-cases, true, false, Option, none, some, String,
  str_eq, eq_iff, ◌==◌, if◌then◌else◌,
}
use kubecloudscaler.Gcp.{Instance, after_slash, last_part}
use kubecloudscaler.Gcp.VmInstances.{trim_slash, extract_zone_from_instance}

-- What was read since the last slash, where a slash at the end of the text does not count.
abbrev pub zone_in : (read : String) → String → String
zone_in read String.[] = read
zone_in read (String.◌∷◌ c String.[]) = if code c == b'/' then read else read ++ String.◌∷◌ c ""
zone_in read (String.◌∷◌ c (String.◌∷◌ d s)) =
    let fresh = zone_in "" (String.◌∷◌ d s) in
    let more = zone_in (read ++ String.◌∷◌ c "") (String.◌∷◌ d s) in
    if code c == b'/' then fresh else more

abbrev pub zone_of : Instance → String
zone_of i = zone_in "" i.zone

-- What follows a slash, or else the text after what was read before.
abbrev last_of : (read text : String) → Option String → String
last_of read text none = read ++ text
last_of read text (some t) = t

one_char :
    (read : String) (c : Char) (b : Bool)
    → (code c == b'/') ≡ b
    → last_of read (trim_slash (String.◌∷◌ c "")) (after_slash (trim_slash (String.◌∷◌ c "")))
      ≡ (if b then read else read ++ String.◌∷◌ c "")
unfolding trim_slash after_slash
one_char read c true e = rw e (append-nil read)
one_char read c false e = rw e (rw e refl)

longer :
    (read text : String) (c : Char) (b : Bool) (o : Option String)
    → (code c == b'/') ≡ b
    → after_slash text ≡ o
    → last_of read (String.◌∷◌ c text) (after_slash (String.◌∷◌ c text))
      ≡ (if b then last_of "" text o else last_of (read ++ String.◌∷◌ c "") text o)
unfolding after_slash
longer read text c true none e f = rw f (rw e (sym (nil-append text)))
longer read text c false none e f = rw f (
    rw e (
      ap (λ t. read ++ t) (sym (cons-append c "" text ∙ ap (String.◌∷◌ c) (nil-append text)))
      ∙ sym (append_assoc read (String.◌∷◌ c "") text)))
longer read text c true (some t) e f = rw f refl
longer read text c false (some t) e f = rw f refl

zone_in-last :
    (read s : String) → zone_in read s ≡ last_of read (trim_slash s) (after_slash (trim_slash s))
unfolding trim_slash after_slash
zone_in-last read String.[] = sym (append-nil read)
zone_in-last read (String.◌∷◌ c String.[]) = sym (one_char read c _ refl)
zone_in-last read (String.◌∷◌ c (String.◌∷◌ d s)) =
    let fresh = zone_in-last "" (String.◌∷◌ d s) in
    let more = zone_in-last (read ++ String.◌∷◌ c "") (String.◌∷◌ d s) in
    (λ j. if code c == b'/' then fresh j else more j)
    ∙ sym (longer read (trim_slash (String.◌∷◌ d s)) c _ _ refl refl)

last_part-last : (s : String) (o : Option String) → after_slash s ≡ o → last_part s ≡ last_of "" s o
unfolding last_part
last_part-last s none e = rw (e, last_part) (sym (nil-append s))
last_part-last s (some t) e = rw (e, last_part) refl

-- The code splits the text at its slashes, once a slash at the end is gone.
pub extract_zone-agree : (i : Instance) → extract_zone_from_instance i ≡ zone_of i
unfolding extract_zone_from_instance
extract_zone-agree i = elim (Bool-cases (str_eq i.zone "")) [
  | inl e ↦ rw (e, extract_zone_from_instance) (sym (ap (zone_in "") ((eq_iff i.zone "").0 e)))
  | inr e ↦
      rw (e, extract_zone_from_instance)
        (last_part-last (trim_slash i.zone) _ refl ∙ sym (zone_in-last "" i.zone))
]
