-- ===== src/Command/Run.antt =====
-- What `excuteComand` of pkg/storage/bplustree/utils.cpp does with a command: the calls of the store,
-- and the replies.
use godbee.Base.{
  ℕ, ◌≡◌, ◌≢◌, refl, sym, ap, ◌∙◌, true, false, some, List, [], ◌∷◌, ◌++◌, arith, if◌then◌else◌,
}
use mathlib.Core.List.{append-nil}
use godbee.Command.{
  Str, codes, same, is_space, has, is_quote, read_arg, is_exit_command, ok, true_, false_,
  can_not_delete, syntax_error, invalid_arguments, Ops, run_args, reply_with, of_value,
  excute_comand,
}
use godbee.Command.Words.{AreNoSpaces, IsWord, AreWords, join, words-join}
use godbee.Command.Quotes.{
  AreUnquoted, quoted, close, read_arg-quoted, read_arg-plain, read_arg-open,
}

IsWord-snoc : (q : ℕ) (w : Str) → is_space q ≡ false → AreNoSpaces w → IsWord (w ++ (q ∷ []))
IsWord-snoc q [] e h = (e, tt)
IsWord-snoc q (c ∷ w) e h = (h.0, AreNoSpaces-snoc q w e h.1)
  where
    AreNoSpaces-snoc :
        (q : ℕ) (w : Str) → is_space q ≡ false → AreNoSpaces w → AreNoSpaces (w ++ (q ∷ []))
    AreNoSpaces-snoc q [] e h = (e, tt)
    AreNoSpaces-snoc q (c ∷ w) e h = (h.0, AreNoSpaces-snoc q w e h.1)

AreNoSpaces-word : (w : Str) → IsWord w → AreNoSpaces w
AreNoSpaces-word [] h = absurd h
AreNoSpaces-word (c ∷ w) h = h

AreWords-close : (q : ℕ) (ws : List Str) → is_space q ≡ false → AreWords ws → AreWords (close q ws)
AreWords-close q [] e h = tt
AreWords-close q (w ∷ []) e h = (IsWord-snoc q w e (AreNoSpaces-word w h.0), tt)
AreWords-close q (w ∷ v ∷ ws) e h = (h.0, AreWords-close q (v ∷ ws) e h.1)

AreWords-quoted :
    (q : ℕ) (ws : List Str) → is_space q ≡ false → AreWords ws → AreWords (quoted q ws)
AreWords-quoted q [] e h = tt
AreWords-quoted q (w ∷ []) e h =
    ((e, AreNoSpaces-word _ (IsWord-snoc q w e (AreNoSpaces-word w h.0))), tt)
AreWords-quoted q (w ∷ v ∷ ws) e h = ((e, AreNoSpaces-word w h.0), AreWords-close q (v ∷ ws) e h.1)

quote_no_space : (q : ℕ) → is_quote q ≡ true → is_space q ≡ false
quote_no_space q h = ground arith

module _ {S : Type 0} (ops : Ops S) (stray : ℕ) where
  -- `set`, a key that is a plain word, and a value between quotes: the store is called with the key and
  -- the text between the quotes, and the reply is `OK`.
  pub excute_comand-set :
      (q c d : ℕ) (k v : Str) (vs : List Str) (s : S)
      → is_quote q ≡ true
      → is_quote c ≡ false
      → IsWord (c ∷ k)
      → AreWords ((d ∷ v) ∷ vs)
      → AreUnquoted q ((d ∷ v) ∷ vs)
      → excute_comand ops stray (join (codes "set" ∷ (c ∷ k) ∷ quoted q ((d ∷ v) ∷ vs))) s
        ≡ reply_with ops (λ _. ok ∷ []) (ops.set (c ∷ k) (join ((d ∷ v) ∷ vs)) s)
  unfolding excute_comand is_exit_command same
  excute_comand-set q c d k v vs s e f h i j =
      rw
        (words-join ((c ∷ k) ∷ quoted q ((d ∷ v) ∷ vs))
          (h, AreWords-quoted q ((d ∷ v) ∷ vs) (quote_no_space q e) i))
        (rw (read_arg-plain stray c k (quoted q ((d ∷ v) ∷ vs)) f) (rw (read_value) (called vs)))
    where
      read_value :
          read_arg stray (quoted q ((d ∷ v) ∷ vs))
          ≡ some (record { valid = true; text = join ((d ∷ v) ∷ vs); rest = [] })
      read_value =
          ap (read_arg stray) (sym (append-nil (quoted q ((d ∷ v) ∷ vs))))
          ∙ read_arg-quoted stray q (d ∷ v) vs [] e j

      called :
          (vs : List Str)
          → run_args ops
              (codes "set")
              (record { valid = true; text = c ∷ k; rest = quoted q ((d ∷ v) ∷ vs) })
              (record { valid = true; text = join ((d ∷ v) ∷ vs); rest = [] })
              (read_arg stray [])
              s
            ≡ reply_with ops (λ _. ok ∷ []) (ops.set (c ∷ k) (join ((d ∷ v) ∷ vs)) s)
      called [] = refl
      called (u ∷ vs) = refl

  -- `get` with a key that is a plain word: the store is called with the key, and the reply is the value
  -- in quotes or `(nil)`.
  pub excute_comand-get :
      (c : ℕ) (k : Str) (s : S)
      → is_quote c ≡ false
      → IsWord (c ∷ k)
      → excute_comand ops stray (join (codes "get" ∷ (c ∷ k) ∷ [])) s
        ≡ reply_with ops (of_value ops) (ops.get (c ∷ k) s)
  unfolding excute_comand is_exit_command same
  excute_comand-get c k s f h =
      rw (words-join ((c ∷ k) ∷ []) (h, tt)) (rw (read_arg-plain stray c k [] f) refl)

  -- `exist` and `delete` with a key that is a plain word: the store is called with the key.
  pub excute_comand-exist :
      (c : ℕ) (k : Str) (s : S)
      → is_quote c ≡ false
      → IsWord (c ∷ k)
      → excute_comand ops stray (join (codes "exist" ∷ (c ∷ k) ∷ [])) s
        ≡ reply_with ops (λ b. (if b then true_ else false_) ∷ []) (ops.exist (c ∷ k) s)
  unfolding excute_comand is_exit_command same
  excute_comand-exist c k s f h =
      rw (words-join ((c ∷ k) ∷ []) (h, tt)) (rw (read_arg-plain stray c k [] f) refl)

  pub excute_comand-delete :
      (c : ℕ) (k : Str) (s : S)
      → is_quote c ≡ false
      → IsWord (c ∷ k)
      → excute_comand ops stray (join (codes "delete" ∷ (c ∷ k) ∷ [])) s
        ≡ reply_with ops (λ b. (if b then ok else can_not_delete) ∷ []) (ops.remove (c ∷ k) s)
  unfolding excute_comand is_exit_command same
  excute_comand-delete c k s f h =
      rw (words-join ((c ∷ k) ∷ []) (h, tt)) (rw (read_arg-plain stray c k [] f) refl)

  -- A quote that is not closed: the store is not called, and the reply is `Invalid argument(s)`, where
  -- the byte in front of an empty text is not that quote. This is so for any first word that makes no
  -- exit command.
  pub excute_comand-open :
      (q : ℕ) (type w : Str) (ws : List Str) (s : S)
      → is_exit_command (join (type ∷ (q ∷ w) ∷ ws)) ≡ false
      → AreWords (type ∷ (q ∷ w) ∷ ws)
      → is_quote q ≡ true
      → stray ≢ q
      → has q w ≡ false
      → AreUnquoted q ws
      → excute_comand ops stray (join (type ∷ (q ∷ w) ∷ ws)) s
        ≡ some (true, invalid_arguments ∷ [], s)
  unfolding excute_comand
  excute_comand-open q type w ws s go h e ne i j =
      let (a, run, refused) = read_arg-open stray q w ws e ne i j in
      rw (go, words-join (type ∷ (q ∷ w) ∷ ws) h, run, refused) refl

  -- Four plain words or more: the store is not called, and the reply is the syntax error, whatever the
  -- first word is, unless the command is an exit command.
  excute_comand-long :
      (type : Str) (c d f : ℕ) (k v w : Str) (ws : List Str) (s : S)
      → is_exit_command (join (type ∷ (c ∷ k) ∷ (d ∷ v) ∷ (f ∷ w) ∷ ws)) ≡ false
      → AreWords (type ∷ (c ∷ k) ∷ (d ∷ v) ∷ (f ∷ w) ∷ ws)
      → is_quote c ≡ false
      → is_quote d ≡ false
      → is_quote f ≡ false
      → excute_comand ops stray (join (type ∷ (c ∷ k) ∷ (d ∷ v) ∷ (f ∷ w) ∷ ws)) s
        ≡ some (true, syntax_error ∷ [], s)
  unfolding excute_comand
  excute_comand-long type c d f k v w ws s go h x y z =
      rw (go, words-join (type ∷ (c ∷ k) ∷ (d ∷ v) ∷ (f ∷ w) ∷ ws) h)
        (rw (read_arg-plain stray c k ((d ∷ v) ∷ (f ∷ w) ∷ ws) x) (
          rw (read_arg-plain stray d v ((f ∷ w) ∷ ws) y) (rw (read_arg-plain stray f w ws z) refl)))
