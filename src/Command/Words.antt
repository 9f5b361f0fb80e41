-- ===== src/Command/Words.antt =====
-- How `sstream >> word` cuts a command into words, pkg/storage/bplustree/utils.cpp.
use godbee.Base.{◌≡◌, refl, sym, ap, ◌∙◌, false, List, [], ◌∷◌, ◌++◌}
use mathlib.Core.List.{append-nil, append_assoc}
use godbee.Command.{Str, is_space, words_from, words}

-- A word: some bytes, none of them white space.
abbrev pub AreNoSpaces : Str → Type 0
AreNoSpaces [] = Unit
AreNoSpaces (c ∷ s) = (is_space c ≡ false) × AreNoSpaces s

abbrev pub IsWord : Str → Type 0
IsWord [] = ⊥
IsWord (c ∷ s) = AreNoSpaces (c ∷ s)

abbrev pub AreWords : List Str → Type 0
AreWords [] = Unit
AreWords (w ∷ ws) = IsWord w × AreWords ws

-- Words with one space between them.
abbrev pub join : List Str → Str
join [] = []
join (w ∷ []) = w
join (w ∷ v ∷ ws) = w ++ (32 ∷ join (v ∷ ws))

words_from-append :
    (word s rest : Str) → AreNoSpaces s → words_from word (s ++ rest) ≡ words_from (word ++ s) rest
unfolding words_from
words_from-append word [] rest h = ap (λ w. words_from w rest) (sym (append-nil word))
words_from-append word (c ∷ s) rest h = rw h.0 (
    words_from-append (word ++ (c ∷ [])) s rest h.1
    ∙ ap (λ w. words_from w rest) (append_assoc word (c ∷ []) s))

pub words-word : (w rest : Str) → IsWord w → words (w ++ (32 ∷ rest)) ≡ w ∷ words rest
unfolding words_from
words-word [] rest h = absurd h
words-word (c ∷ w) rest h = words_from-append [] (c ∷ w) (32 ∷ rest) h

words-last : (w : Str) → IsWord w → words w ≡ w ∷ []
unfolding words_from
words-last [] h = absurd h
words-last (c ∷ w) h = ap words (sym (append-nil (c ∷ w))) ∙ words_from-append [] (c ∷ w) [] h

-- Words that are written with one space between them are read back.
pub words-join : (ws : List Str) → AreWords ws → words (join ws) ≡ ws
unfolding words_from
words-join [] h = refl
words-join (w ∷ []) h = words-last w h.0
words-join (w ∷ v ∷ ws) h =
    words-word w (join (v ∷ ws)) h.0 ∙ ap (λ l. w ∷ l) (words-join (v ∷ ws) h.1)
