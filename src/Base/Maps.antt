-- ===== src/Base/Maps.antt =====
-- Go maps with string keys, as functions: a missing key is `none`. A nil map and an empty map read
-- alike, and the code creates the map before it writes to it.
use Prim.Native.String.{String}
use mathlib.Core.Bool.{Bool, true, false}
use mathlib.Core.Option.{Option, none, some}
use text.Mathlib.Text.{◌==◌ as str_eq, starts_with}
use kubecloudscaler.Base.Tests.{if◌then◌else◌}

abbrev pub Dict : Type 0 → Type 0
Dict V = String → Option V

module _ {V : Type 0} where
  abbrev pub empty : Dict V
  empty k = none

  abbrev pub insert : String → V → Dict V → Dict V
  insert k v m j = if str_eq k j then some v else m j

  abbrev pub delete : String → Dict V → Dict V
  delete k m j = if str_eq k j then none else m j

  -- `_, isExists := m[k]`
  abbrev pub has : String → Dict V → Bool
  has k m = elim (m k) [ some v ↦ true | none ↦ false ]

  -- The loop that deletes each key with the prefix.
  abbrev pub delete_prefix : String → Dict V → Dict V
  delete_prefix p m j = if starts_with j p then none else m j

  -- `if !isExists { m[k] = v }`
  unfoldable pub insert_missing : String → V → Dict V → Dict V
  insert_missing k v m = if has k m then m else insert k v m
