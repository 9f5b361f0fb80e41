-- ===== src/Command/Quotes.antt =====
-- What `readArg` of pkg/storage/bplustree/utils.cpp makes of a quoted argument and of a plain one.
use godbee.Base.{
  ℕ, ◌≡◌, ◌≢◌, refl, sym, ap, ◌∙◌, true, false, Option, some, List, [], ◌∷◌, ◌++◌, ◌==◌, arith,
}
use mathlib.Core.List.{append_assoc}
use godbee.Command.{
  Str, last, drop_last, has, Arg, unquoted, join_words, is_quote, quoted_arg, read_arg,
}
use godbee.Command.Words.{join}

-- The words of a quoted text: the closing quote stands behind the last word.
abbrev pub close : ℕ → List Str → List Str
close q [] = []
close q (w ∷ []) = (w ++ (q ∷ [])) ∷ []
close q (w ∷ v ∷ ws) = w ∷ close q (v ∷ ws)

-- Words that are not empty and have no quote in them.
abbrev pub AreUnquoted : ℕ → List Str → Type 0
AreUnquoted q [] = Unit
AreUnquoted q (w ∷ ws) = (w ≢ []) × (has q w ≡ false) × AreUnquoted q ws

last_snoc : (stray q : ℕ) (s : Str) → last stray (s ++ (q ∷ [])) ≡ q
last_snoc stray q [] = refl
last_snoc stray q (c ∷ s) = last_snoc c q s

drop_last_snoc : (q : ℕ) (s : Str) → drop_last (s ++ (q ∷ [])) ≡ s
drop_last_snoc q [] = refl
drop_last_snoc q (c ∷ []) = refl
drop_last_snoc q (c ∷ d ∷ s) = ap (λ l. c ∷ l) (drop_last_snoc q (d ∷ s))

unquoted_snoc :
    (q : ℕ) (s : Str) (rest : List Str)
    → unquoted (s ++ (q ∷ [])) rest ≡ some (record { valid = true; text = s; rest = rest })
unquoted_snoc q [] rest = refl
unquoted_snoc q (c ∷ s) rest =
    ap (λ l. some (record { valid = true; text = l; rest = rest })) (drop_last_snoc q (c ∷ s))

last-has : (stray q c : ℕ) (s : Str) → has q (c ∷ s) ≡ false → (last c s == q) ≡ false
last-has stray q c [] h = ground arith
last-has stray q c (d ∷ s) h = last-has stray q d s (ground arith)

join_words-close :
    (stray q : ℕ) (arg w : Str) (ws rest : List Str)
    → AreUnquoted q (w ∷ ws)
    → join_words stray q arg (close q (w ∷ ws) ++ rest)
      ≡ some (record { valid = true; text = arg ++ (32 ∷ join (w ∷ ws)); rest = rest })
unfolding join_words
join_words-close stray q arg w [] rest h =
    let same_last : (last stray (w ++ (q ∷ [])) == q) ≡ true =
      ground (arith, last_snoc stray q w) in
    rw (same_last, drop_last_snoc q w, h.1)
      (ap (λ l. unquoted l rest) (sym (append_assoc arg (32 ∷ w) (q ∷ [])))
        ∙ unquoted_snoc q (arg ++ (32 ∷ w)) rest)
join_words-close stray q arg [] (v ∷ ws) rest h = absurd (h.0 refl)
join_words-close stray q arg (c ∷ w) (v ∷ ws) rest h =
    rw (last-has stray q c w h.1, h.1)
      (join_words-close stray q (arg ++ (32 ∷ c ∷ w)) v ws rest h.2
        ∙ ap (λ l. some (record { valid = true; text = l; rest = rest }))
            (append_assoc arg (32 ∷ c ∷ w) (32 ∷ join (v ∷ ws))))

-- The words of a text between quotes: the first one has the opening quote in front.
abbrev pub quoted : ℕ → List Str → List Str
quoted q [] = []
quoted q (w ∷ []) = (q ∷ (w ++ (q ∷ []))) ∷ []
quoted q (w ∷ v ∷ ws) = (q ∷ w) ∷ close q (v ∷ ws)

-- A text between quotes is read as its words with one space between them, whatever follows it.
pub read_arg-quoted :
    (stray q : ℕ) (w : Str) (ws rest : List Str)
    → is_quote q ≡ true
    → AreUnquoted q (w ∷ ws)
    → read_arg stray (quoted q (w ∷ ws) ++ rest)
      ≡ some (record { valid = true; text = join (w ∷ ws); rest = rest })
unfolding read_arg quoted_arg
read_arg-quoted stray q w [] rest e h =
    let same_last : (last stray (w ++ (q ∷ [])) == q) ≡ true =
      ground (arith, last_snoc stray q w) in
    rw (e, same_last) (unquoted_snoc q w rest)
read_arg-quoted stray q [] (v ∷ ws) rest e h = absurd (h.0 refl)
read_arg-quoted stray q (c ∷ w) (v ∷ ws) rest e h =
    rw (e, last-has stray q c w h.1) (join_words-close stray q (c ∷ w) v ws rest h.2)

-- A word without an opening quote is read as it is.
pub read_arg-plain :
    (stray c : ℕ) (w : Str) (rest : List Str)
    → is_quote c ≡ false
    → read_arg stray ((c ∷ w) ∷ rest) ≡ some (record { valid = true; text = c ∷ w; rest = rest })
unfolding read_arg
read_arg-plain stray c w rest e = rw e refl

-- The function returns false.
abbrev pub IsRefused : Option Arg → Type 0
IsRefused o = (a : Arg) × (o ≡ some a) × (a.valid ≡ false)

join_words-open :
    (stray q : ℕ) (arg : Str) (ws : List Str)
    → stray ≢ q
    → AreUnquoted q ws
    → IsRefused (join_words stray q arg ws)
unfolding join_words
join_words-open stray q arg [] ne h =
    (record { valid = false; text = arg; rest = [] }, ground arith, refl)
join_words-open stray q arg ([] ∷ ws) ne h = absurd (h.0 refl)
join_words-open stray q arg ((c ∷ w) ∷ ws) ne h =
    rw (last-has stray q c w h.1, h.1) (join_words-open stray q (arg ++ (32 ∷ c ∷ w)) ws ne h.2)

-- A text with an opening quote and no other one is refused, where the byte in front of an empty
-- text is not that quote.
pub read_arg-open :
    (stray q : ℕ) (w : Str) (ws : List Str)
    → is_quote q ≡ true
    → stray ≢ q
    → has q w ≡ false
    → AreUnquoted q ws
    → IsRefused (read_arg stray ((q ∷ w) ∷ ws))
unfolding read_arg quoted_arg
read_arg-open stray q [] ws e ne h k =
    let differs : (stray == q) ≡ false = ground arith in
    rw (e, differs) (join_words-open stray q [] ws ne k)
read_arg-open stray q (c ∷ w) ws e ne h k =
    rw (e, last-has stray q c w h) (join_words-open stray q (c ∷ w) ws ne k)
