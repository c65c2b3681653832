-- ===== src/Prelude/CharLaws.antt =====
-- The searches of `Chars` in a text that is put together.
use Prim.Native.Nat.{ℕ}
use Prim.Native.Char.{Char, code}
use Prim.Native.String.{String}
use mathlib.Core.Path.{◌≡◌, refl, ap, ◌∙◌}
use mathlib.Core.Bool.{false, ◌||◌}
use mathlib.Core.Option.{some}
use native.Mathlib.Omega.{arith}
use text.Mathlib.TextLemmas.{nil-append, cons-append}
use guillotina_oauth_server.Prelude.Text.{concat}
use guillotina_oauth_server.Prelude.Chars.{has_char, partition}

pub partition-concat :
    (c : Char) (s t : String)
    → has_char (code c) s ≡ false
    → partition (code c) (concat s (String.◌∷◌ c t)) ≡ (s, some t)
unfolding partition has_char
partition-concat c String.[] t h = rw (nil-append (String.◌∷◌ c t)) (ground arith)
partition-concat c (String.◌∷◌ d s) t h =
    rw (cons-append d s (String.◌∷◌ c t)) (ground (arith, partition-concat c s t (ground arith)))

pub has_char-concat :
    (c : ℕ) (s t : String) → has_char c (concat s t) ≡ (has_char c s || has_char c t)
unfolding has_char
has_char-concat c String.[] t = rw (nil-append t) refl
has_char-concat c (String.◌∷◌ d s) t =
    rw (cons-append d s t) (ground (arith, has_char-concat c s t))

pub one_char : (c : Char) (t : String) → concat (String.◌∷◌ c "") t ≡ String.◌∷◌ c t
one_char c t = cons-append c "" t ∙ ap (String.◌∷◌ c) (nil-append t)
