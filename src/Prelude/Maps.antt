-- ===== src/Prelude/Maps.antt =====
-- Go maps with text keys, as partial functions. The program's iteration order is never modelled by
-- these: where the code ranges over a map, the model takes the order as an argument.
use Prim.Native.String.{String}
use mathlib.Core.Logic.{◌⊎◌, ◌≢◌}
use mathlib.Core.Option.{Option, none, some}
use mathlib.Core.Path.{◌≡◌}
use native.Mathlib.Omega.{arith}
use text.Mathlib.Text.{◌==◌ as str_eq}
use text.Mathlib.TextEquality.{eq_iff}
use yzj_bot_bridge.Prelude.Tests.{if◌then◌else◌}

abbrev pub Dict {ℓ} : Type ℓ → Type ℓ
Dict V = String → Option V

module _ {ℓ} {V : Type ℓ} where
  abbrev pub empty_dict : Dict V
  empty_dict k = none

  abbrev pub put : String → V → Dict V → Dict V
  put k v m j = if str_eq k j then some v else m j

  abbrev pub delete : String → Dict V → Dict V
  delete k m j = if str_eq k j then none else m j

  -- An entry found after a write is the one written, or an older one under another key.
  pub put_cases :
      (k : String) (v : V) (m : Dict V) (j : String) (w : V)
      → put k v m j ≡ some w
      → ((k ≡ j) × (v ≡ w)) ⊎ ((k ≢ j) × (m j ≡ some w))
  put_cases k v m j w h = ground (arith, eq_iff k j)

  pub delete_cases :
      (k : String) (m : Dict V) (j : String) (w : V)
      → delete k m j ≡ some w
      → (k ≢ j) × (m j ≡ some w)
  delete_cases k m j w h = ground (arith, eq_iff k j)

  pub put_self : (k : String) (v : V) (m : Dict V) → put k v m k ≡ some v
  put_self k v m = ground (arith, eq_iff k k)

  pub put_other : (k j : String) (v : V) (m : Dict V) → k ≢ j → put k v m j ≡ m j
  put_other k j v m h = ground (arith, eq_iff k j)
