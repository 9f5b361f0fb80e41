-- ===== src/Command.antt =====
-- The interpreter of commands, `excuteComand` and `readArg` of pkg/storage/bplustree/utils.cpp. A
-- text is the list of its bytes. `sstream >> word` gives the words of the text one after the other,
-- so a stream is the list of the words that are left.
pub mod Words
pub mod Quotes
pub mod Run
use Prim.Native.Char.{code}
use Prim.Native.String.{String}
use godbee.Base.{
  ℕ, zero, suc, ◌+◌, ◌-◌, Bool, true, false, ◌&&◌, ◌||◌, Option, none, some, List, [], ◌∷◌, ◌++◌,
  ltb, leb, ◌==◌, if◌then◌else◌,
}

abbrev pub Str : Type 0
Str = List ℕ

abbrev pub codes : String → Str
codes String.[] = []
codes (String.◌∷◌ c s) = code c ∷ codes s

-- Texts compared by their bytes.
unfoldable pub same : Str → Str → Bool
same [] [] = true
same [] (d ∷ t) = false
same (c ∷ s) [] = false
same (c ∷ s) (d ∷ t) = (c == d) && same s t

abbrev pub is_space : ℕ → Bool
is_space c = (c == 32) || (leb 9 c && leb c 13)

abbrev pub is_empty : Str → Bool
is_empty [] = true
is_empty (c ∷ s) = false

-- The words of a text, `word` being read.
unfoldable pub words_from : Str → Str → List Str
words_from word [] = if is_empty word then [] else word ∷ []
words_from word (c ∷ s) =
    let next = words_from (if is_space c then [] else word ++ (c ∷ [])) s in
    if is_space c && (if is_empty word then false else true) then word ∷ next else next

abbrev pub words : Str → List Str
words = words_from []

-- `s[s.size() - 1]`: in front of an empty text stands `stray`.
abbrev pub last : ℕ → Str → ℕ
last stray [] = stray
last stray (c ∷ s) = last c s

abbrev pub drop_last : Str → Str
drop_last [] = []
drop_last (c ∷ []) = []
drop_last (c ∷ d ∷ s) = c ∷ drop_last (d ∷ s)

-- `s.find(c) != string::npos`.
abbrev pub has : ℕ → Str → Bool
has c [] = false
has c (d ∷ s) = (c == d) || has c s

pub record Arg : Type 0 where
  -- what the function returns
  pub valid : Bool
  pub text : Str
  pub rest : List Str

-- `arg1.erase(arg1.size() - 1, 1)` throws on an empty text.
abbrev pub unquoted : Str → List Str → Option Arg
unquoted [] rest = none
unquoted (c ∷ s) rest = some (record { valid = true; text = drop_last (c ∷ s); rest = rest })

-- The loop that joins the words up to one with the closing quote: a stream that ends leaves `tmp`
-- empty, and the byte in front of it is compared.
unfoldable pub join_words : ℕ → ℕ → Str → List Str → Option Arg
join_words stray quote arg [] =
    if stray == quote
    then unquoted (arg ++ (32 ∷ [])) []
    else some (record { valid = false; text = arg; rest = [] })
join_words stray quote arg (word ∷ rest) =
    let more = join_words stray quote (arg ++ (32 ∷ word)) rest in
    if last stray word == quote
    then (if has quote (drop_last word)
        then some (record { valid = false; text = arg; rest = rest })
        else unquoted (arg ++ (32 ∷ word)) rest)
    else (if has quote word then some (record { valid = false; text = arg; rest = rest }) else more)

abbrev pub is_quote : ℕ → Bool
is_quote c = (c == 39) || (c == 34)

-- The rest of a word behind its opening quote.
quoted_arg : ℕ → ℕ → Str → List Str → Option Arg
unfolding join_words
quoted_arg stray quote arg rest =
    if last stray arg == quote then unquoted arg rest else join_words stray quote arg rest

-- What the code reads in front of an empty text is undefined; it is the parameter `stray`.
unfoldable pub read_arg : ℕ → List Str → Option Arg
unfolding quoted_arg
read_arg stray [] = some (record { valid = true; text = []; rest = [] })
read_arg stray ([] ∷ rest) = some (record { valid = true; text = []; rest = rest })
read_arg stray ((c ∷ word) ∷ rest) =
    if is_quote c
    then quoted_arg stray c word rest
    else some (record { valid = true; text = c ∷ word; rest = rest })

abbrev lower : ℕ → ℕ
lower c = if leb c 90 && leb 65 c then c + 32 else c

unfoldable pub lower_case : Str → Str
lower_case [] = []
lower_case (c ∷ s) = lower c ∷ lower_case s

unfoldable pub is_exit_command : Str → Bool
unfolding same
is_exit_command command =
    same command (codes "exit") || same command (codes "quit") || same command (codes "q")

-- What is printed.
pub data Reply : Type 0 where
  invalid_arguments syntax_error unknown_command ok nil_ true_ false_ can_not_delete : Reply
  wrong_number : Str → Reply
  value : Str → Reply

-- `KeyValueStore`, the store behind the interpreter; an operation may fail as the code may.
pub record Ops (S : Type 0) : Type 0 where
  pub get : Str → S → Option (Option Str × S)
  pub set : Str → Str → S → Option (Unit {0} × S)
  pub exist : Str → S → Option (Bool × S)
  pub remove : Str → S → Option (Bool × S)
  pub traverse : S → Option (Unit {0} × S)

module _ {S : Type 0} (ops : Ops S) where
  -- Whether to go on, the replies, and the store.
  abbrev pub Outcome : Type 0
  Outcome = Option (Bool × List Reply × S)

  abbrev pub reply_with : {A : Type 0} → (A → List Reply) → Option (A × S) → Outcome
  reply_with f none = none
  reply_with f (some (a, s)) = some (true, f a, s)

  abbrev pub reply : Reply → S → Outcome
  reply r s = some (true, r ∷ [], s)

  abbrev pub of_value : Option Str → List Reply
  of_value none = nil_ ∷ []
  of_value (some v) = value v ∷ []

  abbrev pub with_arg : Str → Str → S → Outcome → Outcome
  with_arg [] command s o = reply (wrong_number command) s
  with_arg (c ∷ arg) command s o = o

  pub data Verb : Type 0 where
    set_verb get_verb exist_verb delete_verb traverse_verb unknown_verb : Verb

  unfoldable pub verb : Str → Verb
  unfolding same
  verb type =
      if same type (codes "set")
      then set_verb
      else if same type (codes "get")
      then get_verb
      else if same type (codes "exist")
      then exist_verb
      else if same type (codes "delete") || same type (codes "remove") || same type (codes "del")
      then delete_verb
      else if same type (codes "traverse") || same type (codes "t")
      then traverse_verb
      else unknown_verb

  abbrev run_set : Str → Str → S → Outcome
  run_set arg1 arg2 s =
      with_arg arg1 (codes "set") s
        (with_arg arg2 (codes "set") s (reply_with (λ _. ok ∷ []) (ops.set arg1 arg2 s)))

  -- `exist` and the forms of `delete` name `get` when they complain.
  unfoldable pub run_verb : Verb → Str → Str → S → Outcome
  run_verb set_verb arg1 arg2 s = run_set arg1 arg2 s
  run_verb get_verb arg1 arg2 s =
      with_arg arg1 (codes "get") s (reply_with of_value (ops.get arg1 s))
  run_verb exist_verb arg1 arg2 s =
      with_arg arg1 (codes "get") s
        (reply_with (λ b. (if b then true_ else false_) ∷ []) (ops.exist arg1 s))
  run_verb delete_verb arg1 arg2 s =
      with_arg arg1 (codes "get") s
        (reply_with (λ b. (if b then ok else can_not_delete) ∷ []) (ops.remove arg1 s))
  run_verb traverse_verb arg1 arg2 s = reply_with (λ _. []) (ops.traverse s)
  run_verb unknown_verb arg1 arg2 s = reply unknown_command s

  -- What follows the two arguments: a third one is an error.
  abbrev pub run_args : Str → Arg → Arg → Option Arg → S → Outcome
  run_args type arg1 arg2 none s = none
  run_args type arg1 arg2 (some arg3) s =
      if is_empty arg3.text
      then run_verb (verb (lower_case type)) arg1.text arg2.text s
      else reply syntax_error s

  abbrev with_second : ℕ → Str → Arg → Option Arg → S → Outcome
  with_second stray type arg1 none s = none
  with_second stray type arg1 (some arg2) s =
      if arg2.valid
      then run_args type arg1 arg2 (read_arg stray arg2.rest) s
      else reply invalid_arguments s

  abbrev with_first : ℕ → Str → Option Arg → S → Outcome
  with_first stray type none s = none
  with_first stray type (some arg1) s =
      if arg1.valid
      then with_second stray type arg1 (read_arg stray arg1.rest) s
      else reply invalid_arguments s

  abbrev run_words : ℕ → List Str → S → Outcome
  run_words stray [] s = with_first stray [] (read_arg stray []) s
  run_words stray (type ∷ rest) s = with_first stray type (read_arg stray rest) s

  -- The interpreter goes on unless the command is an exit command.
  unfoldable pub excute_comand : ℕ → Str → S → Outcome
  unfolding is_exit_command words_from read_arg run_verb verb lower_case
  excute_comand stray command s =
      if is_exit_command command then some (false, [], s) else run_words stray (words command) s
