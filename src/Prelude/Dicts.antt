-- ===== src/Prelude/Dicts.antt =====
-- A Python dict with texts for keys, in insertion order.
use Prim.Native.String.{String}
use mathlib.Core.Path.{◌≡◌, refl}
use mathlib.Core.Option.{Option, none, some}
use mathlib.Core.List.{List, [], ◌∷◌}
use native.Mathlib.Omega.{arith}
use text.Mathlib.Text.{◌==◌}
use text.Mathlib.TextEquality.{eq_iff}
use guillotina_oauth_server.Prelude.Tests.{if◌then◌else◌}

abbrev pub Dict {ℓ} : Type ℓ → Type ℓ
Dict V = List (String × V)

module _ {ℓ} {V : Type ℓ} where
  -- `d.get(k)`
  unfoldable pub get : Dict V → String → Option V
  get [] k = none
  get ((j, v) ∷ d) k = if j == k then some v else get d k

  -- `d[k] = v`: a key that is there keeps its place.
  unfoldable pub put : Dict V → String → V → Dict V
  put [] k v = (k, v) ∷ []
  put ((j, w) ∷ d) k v = if j == k then (j, v) ∷ d else (j, w) ∷ put d k v

  pub get-put :
      (d : Dict V) (k : String) (v : V) (j : String)
      → get (put d k v) j ≡ (if k == j then some v else get d j)
  unfolding get put
  get-put [] k v j = refl
  get-put ((i, w) ∷ d) k v j = ground (arith, eq_iff k j, eq_iff i k, eq_iff i j, get-put d k v j)
