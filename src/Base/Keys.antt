-- ===== src/Base/Keys.antt =====
-- Sets of text keys in insertion order (`Map` and `Set` seen as their keys), and sums over them.
use Prim.Native.Nat.{ℕ, suc, ◌+◌}
use Prim.Native.String.{String}
use mathlib.Core.Path.{◌≡◌, refl}
use mathlib.Core.Bool.{Bool, true, false, ◌||◌}
use mathlib.Core.List.{List, [], ◌∷◌, ◌++◌}
use mathlib.Core.Option.{Option, none, some}
use native.Mathlib.Omega.{arith}
use text.Mathlib.Text.{◌==◌ as str_eq}
use text.Mathlib.TextEquality.{eq_iff}
use chatgpt_remote_mcp.Base.Tests.{if◌then◌else◌}
use chatgpt_remote_mcp.Base.Lists.{length}
use chatgpt_remote_mcp.Base.Dicts.{Dict, lookup, put, lookup-put}

abbrev pub mem : String → List String → Bool
mem k [] = false
mem k (j ∷ ks) = str_eq j k || mem k ks

abbrev pub remove : String → List String → List String
remove k [] = []
remove k (j ∷ ks) = if str_eq j k then remove k ks else j ∷ remove k ks

-- A key that is there keeps its place.
abbrev pub add : String → List String → List String
add k ks = if mem k ks then ks else ks ++ k ∷ []

abbrev pub Distinct : List String → Type 0
Distinct [] = Unit
Distinct (k ∷ ks) = (mem k ks ≡ false) × Distinct ks

pub mem-remove :
    (k j : String) (ks : List String)
    → mem j (remove k ks) ≡ (if str_eq k j then false else mem j ks)
mem-remove k j [] = ground (arith, eq_iff k j)
mem-remove k j (i ∷ ks) = ground (arith, eq_iff k j, eq_iff i k, eq_iff i j, mem-remove k j ks)

pub mem-snoc :
    (k j : String) (ks : List String)
    → mem j (ks ++ k ∷ []) ≡ (if str_eq k j then true else mem j ks)
mem-snoc k j [] = ground arith
mem-snoc k j (i ∷ ks) = ground (arith, mem-snoc k j ks)

pub Distinct-remove : (k : String) (ks : List String) → Distinct ks → Distinct (remove k ks)
Distinct-remove k [] d = tt
Distinct-remove k (j ∷ ks) d =
    ground (arith, mem-remove k j ks, eq_iff k j, Distinct-remove k ks d.1)

pub Distinct-snoc :
    (k : String) (ks : List String) → Distinct ks → mem k ks ≡ false → Distinct (ks ++ k ∷ [])
Distinct-snoc k [] d h = (refl, tt)
Distinct-snoc k (j ∷ ks) d h =
    ground (arith, mem-snoc k j ks, eq_iff k j, eq_iff j k, Distinct-snoc k ks d.1)

pub remove_absent : (k : String) (ks : List String) → mem k ks ≡ false → remove k ks ≡ ks
remove_absent k [] h = refl
remove_absent k (j ∷ ks) h = ground (arith, remove_absent k ks)

pub length-remove :
    (k : String) (ks : List String)
    → Distinct ks
    → mem k ks ≡ true
    → suc (length (remove k ks)) ≡ length ks
length-remove k [] d h = cc
length-remove k (j ∷ ks) d h =
    ground (arith, eq_iff j k, remove_absent k ks, length-remove k ks d.1)

module _ {ℓ} {V : Type ℓ} (f : V → ℕ) where
  -- What a key's value counts for; a key with no value counts nothing.
  abbrev pub count_of : Option V → ℕ
  count_of none = 0
  count_of (some v) = f v

  abbrev pub sum_over : Dict V → List String → ℕ
  sum_over m [] = 0
  sum_over m (k ∷ ks) = count_of (lookup k m) + sum_over m ks

  pub sum_over-put_absent :
      (k : String) (v : V) (m : Dict V) (ks : List String)
      → mem k ks ≡ false
      → sum_over (put k v m) ks ≡ sum_over m ks
  sum_over-put_absent k v m [] h = refl
  sum_over-put_absent k v m (j ∷ ks) h =
      ground (arith, lookup-put k j v m, eq_iff k j, eq_iff j k, sum_over-put_absent k v m ks)

  pub sum_over-put :
      (k : String) (v : V) (m : Dict V) (ks : List String)
      → Distinct ks
      → mem k ks ≡ true
      → sum_over (put k v m) ks + count_of (lookup k m) ≡ sum_over m ks + f v
  sum_over-put k v m [] d h = cc
  sum_over-put k v m (j ∷ ks) d h = ground (
    arith,
    lookup-put k j v m,
    eq_iff k j,
    eq_iff j k,
    sum_over-put_absent k v m ks,
    sum_over-put k v m ks d.1,
  )

  pub sum_over-remove :
      (k : String) (m : Dict V) (ks : List String)
      → Distinct ks
      → mem k ks ≡ true
      → sum_over m (remove k ks) + count_of (lookup k m) ≡ sum_over m ks
  sum_over-remove k m [] d h = cc
  sum_over-remove k m (j ∷ ks) d h =
      ground (arith, eq_iff j k, remove_absent k ks, sum_over-remove k m ks d.1)

  pub sum_over-snoc :
      (k : String) (m : Dict V) (ks : List String)
      → sum_over m (ks ++ k ∷ []) ≡ sum_over m ks + count_of (lookup k m)
  sum_over-snoc k m [] = omega arith
  sum_over-snoc k m (j ∷ ks) = omega (arith, sum_over-snoc k m ks)
