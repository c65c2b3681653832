-- ===== src/Utils/Request/SplitJoin.antt =====
-- utils/request.py: `" ".join(...)` and `.split()` undo each other on words.
use Prim.Native.Char.{Char, code}
use text.Mathlib.TextLemmas.{nil-append, cons-append}
use guillotina_oauth_server.Prelude.{
  ◌≡◌, refl, ap, sym, subst, ◌∙◌, String, Bool, true, false, not, List, [], ◌∷◌, arith, ◌==◌,
  if◌then◌else◌, concat, join, all_chars, All, one_char, Bool-cases, inl, inr,
}
use guillotina_oauth_server.Utils.Request.Words.{is_space, first_word, split}

abbrev pub no_space : String → Bool
no_space s = all_chars (λ c. not (is_space c)) s

-- A text that `split` can return: not empty, with no space in it.
abbrev pub IsWord : String → Type 0
IsWord s = ((s == "") ≡ false) × (no_space s ≡ true)

-- The clauses of `first_word`, with `is_space` left shut.
first_word_cons :
    (c : Char) (s : String)
    → first_word (String.◌∷◌ c s) ≡ (
        if is_space (code c)
        then ("", split s)
        else (String.◌∷◌ c (first_word s).0, (first_word s).1))
unfolding first_word split
first_word_cons c s = refl

no_space_cons :
    (c : Char) (s : String)
    → no_space (String.◌∷◌ c s) ≡ true
    → (is_space (code c) ≡ false) × (no_space s ≡ true)
unfolding all_chars
no_space_cons c s h = (ground arith, ground arith)

no_space_more :
    (c : Char) (s : String)
    → is_space (code c) ≡ false
    → no_space s ≡ true
    → no_space (String.◌∷◌ c s) ≡ true
unfolding all_chars
no_space_more c s letter h = ground arith

no_space_nil : no_space "" ≡ true
unfolding all_chars
no_space_nil = refl

first_word-concat :
    (w t : String) → no_space w ≡ true → first_word (concat w (String.◌∷◌ " " t)) ≡ (w, split t)
first_word-concat String.[] t h =
    rw (nil-append (String.◌∷◌ " " t)) (first_word_cons " " t ∙ unfold is_space in refl)
first_word-concat (String.◌∷◌ c w) t h =
    let (letter, others) = no_space_cons c w h in
    ap first_word (cons-append c w (String.◌∷◌ " " t))
    ∙ first_word_cons c (concat w (String.◌∷◌ " " t))
    ∙ rw letter (ap (λ r. (String.◌∷◌ c r.0, r.1)) (first_word-concat w t others))

first_word-alone : (w : String) → no_space w ≡ true → first_word w ≡ (w, [])
first_word-alone String.[] h = unfold first_word in refl
first_word-alone (String.◌∷◌ c w) h =
    let (letter, others) = no_space_cons c w h in
    first_word_cons c w ∙ rw letter (ap (λ r. (String.◌∷◌ c r.0, r.1)) (first_word-alone w others))

-- What `split` makes of the first word and the rest.
abbrev with_word : String × List String → List String
with_word (word, rest) = if word == "" then rest else word ∷ rest

split_lem : (s : String) → split s ≡ with_word (first_word s)
unfolding split
split_lem s = refl

joined :
    (w v : String) (ws : List String)
    → join " " (w ∷ v ∷ ws) ≡ concat w (String.◌∷◌ " " (join " " (v ∷ ws)))
unfolding join
joined w v ws = ap (concat w) (one_char " " (join " " (v ∷ ws)))

join_one : (w : String) → join " " (w ∷ []) ≡ w
unfolding join
join_one w = refl

-- Words that are joined are split again.
pub split-join : (ws : List String) → All IsWord ws → split (join " " ws) ≡ ws
split-join [] h = unfold join in split_lem "" ∙ unfold first_word in refl
split-join (w ∷ []) (word, rest) =
    ap split (join_one w) ∙ split_lem w ∙ ap with_word (first_word-alone w word.1) ∙ rw word.0 refl
split-join (w ∷ v ∷ ws) (word, rest) =
    ap split (joined w v ws)
    ∙ split_lem (concat w (String.◌∷◌ " " (join " " (v ∷ ws))))
    ∙ ap with_word (first_word-concat w (join " " (v ∷ ws)) word.1)
    ∙ rw word.0 (ap (λ xs. w ∷ xs) (split-join (v ∷ ws) rest))

-- A first word has no space in it, and the rest are words.
abbrev WordFirst : String × List String → Type 0
WordFirst (word, rest) = (no_space word ≡ true) × All IsWord rest

with_word-All : (r : String × List String) → WordFirst r → All IsWord (with_word r)
with_word-All (word, rest) (spaceless, words) = elim (Bool-cases (word == "")) [
  | inl e ↦ rw e words
  | inr e ↦ rw e ((e, spaceless), words)
]

first_word-WordFirst : (s : String) → WordFirst (first_word s)
first_word-WordFirst String.[] = unfold first_word in (unfold all_chars in refl, tt)
first_word-WordFirst (String.◌∷◌ c s) =
    let ih = first_word-WordFirst s in
    subst WordFirst (sym (first_word_cons c s)) (elim (Bool-cases (is_space (code c))) [
      | inl e ↦
          rw e
            (no_space_nil, subst (All IsWord) (sym (split_lem s)) (with_word-All (first_word s) ih))
      | inr e ↦ rw e (no_space_more c (first_word s).0 e ih.0, ih.1)
    ])

-- What a text is split into are words.
pub split-IsWord : (s : String) → All IsWord (split s)
split-IsWord s =
    subst (All IsWord) (sym (split_lem s)) (with_word-All (first_word s) (first_word-WordFirst s))
