-- ===== src/Prelude/Maps.antt =====
-- Python dictionaries with text keys, read and written by key.
-- A dictionary that is never iterated over is the function from keys to entries.
use Prim.Native.String.{String}
use mathlib.Core.Path.{◌≡◌, refl}
use mathlib.Core.Option.{Option, none, some}
use mathlib.Core.List.{List, [], ◌∷◌, map}
use text.Mathlib.Text.{◌==◌}
use text.Mathlib.TextPositions.{eq_refl}
use comm_guard.Prelude.Tests.{if◌then◌else◌}

abbrev pub Dict {ℓ} : Type ℓ → Type ℓ
Dict V = String → Option V

module _ {ℓ} {V : Type ℓ} where
  abbrev pub empty_dict : Dict V
  empty_dict k = none

  -- d[k] = v
  unfoldable pub put : Dict V → String → V → Dict V
  put d k v j = if k == j then some v else d j

  -- d.get(k, default)
  abbrev pub get_or : V → Option V → V
  get_or v none = v
  get_or v (some w) = w

  pub put_self : (d : Dict V) (k : String) (v : V) → put d k v k ≡ some v
  unfolding put
  put_self d k v = simp eq_refl

  pub put_lem : (d : Dict V) (k j : String) (v : V) → put d k v j ≡ (if k == j then some v else d j)
  unfolding put
  put_lem d k j v = refl

  -- A dictionary that is iterated over, in insertion order.
  unfoldable pub lookup : String → List (String × V) → Option V
  lookup k [] = none
  lookup k ((j, v) ∷ rest) = if j == k then some v else lookup k rest

  unfoldable pub insert : String → V → List (String × V) → List (String × V)
  insert k v [] = (k, v) ∷ []
  insert k v ((j, w) ∷ rest) = if j == k then (k, v) ∷ rest else (j, w) ∷ insert k v rest

  abbrev pub keys : List (String × V) → List String
  keys = map (λ e. e.0)
