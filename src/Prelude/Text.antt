-- ===== src/Prelude/Text.antt =====
-- Native texts: concatenation, membership, splitting and ordering, as Python's `str` has them.
use Prim.Native.Nat.{compare, Ordering}
use Prim.Native.Char.{code}
use Prim.Native.String.{String, ◌++◌ as ◌++◌}
use mathlib.Core.Bool.{Bool, true, false}
use mathlib.Core.List.{List, [], ◌∷◌}
use text.Mathlib.Text.{◌==◌}
use guillotina_oauth_server.Prelude.Tests.{if◌then◌else◌}
use guillotina_oauth_server.Prelude.Lists.{any, all}

-- `s + t`
abbrev pub concat : String → String → String
concat s t = s ++ t

-- `sep.join(parts)`
unfoldable pub join : String → List String → String
join sep [] = ""
join sep (s ∷ []) = s
join sep (s ∷ t ∷ rest) = s ++ (sep ++ join sep (t ∷ rest))

-- `s in texts`
abbrev pub member : String → List String → Bool
member s texts = any (λ t. t == s) texts

-- `set(xs).issubset(set(ys))`
abbrev pub is_subset : List String → List String → Bool
is_subset xs ys = all (λ x. member x ys) xs

-- `s <= t`, by code points
unfoldable pub text_leb : String → String → Bool
text_leb String.[] t = true
text_leb (String.◌∷◌ c s) String.[] = false
text_leb (String.◌∷◌ c s) (String.◌∷◌ d t) =
    let rest = text_leb s t in
    elim (compare (code c) (code d)) [
      | Ordering.lt ↦ true
      | Ordering.gt ↦ false
      | Ordering.eq ↦ rest
    ]

insert_sorted : String → List String → List String
unfolding text_leb
insert_sorted s [] = s ∷ []
insert_sorted s (t ∷ rest) = if text_leb s t then s ∷ t ∷ rest else t ∷ insert_sorted s rest

-- `sorted(texts)`
unfoldable pub sorted : List String → List String
unfolding insert_sorted
sorted [] = []
sorted (s ∷ rest) = insert_sorted s (sorted rest)
