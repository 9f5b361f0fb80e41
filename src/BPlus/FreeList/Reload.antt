-- ===== src/BPlus/FreeList/Reload.antt =====
-- The list of free positions and its file agree, so that a restart finds the list that was left,
-- pkg/storage/bplustree/DelNodeList.cpp.
use godbee.Base.{ℕ, zero, suc, ◌+◌, ◌<◌, ◌≡◌, refl, ap, ◌∙◌, List, [], ◌∷◌, arith, length, Array}
use godbee.BPlus.FreeList.{
  DelNodeList, set_size, set_value, get_size, get_value, push, pop_list, pop, create, read_values,
  open_file,
}

-- The words behind the size are the values, the back of the list last.
abbrev Words : Array ℕ → List ℕ → Type 0
Words file [] = Unit
Words file (x ∷ xs) = (get_value file (length xs) ≡ x) × Words file xs

record Agrees (d : DelNodeList) : Type 0 where
  size : get_size d.file ≡ length d.list
  words : Words d.file d.list

-- Words that are not changed still hold the values.
Words-kept :
    (file file' : Array ℕ) (l : List ℕ)
    → ((i : ℕ) → i < length l → file' (i + 1) ≡ file (i + 1))
    → Words file l
    → Words file' l
unfolding get_value
Words-kept file file' [] same w = tt
Words-kept file file' (x ∷ xs) same w = (
  same (length xs) (omega arith) ∙ w.0,
  Words-kept file file' xs (λ i h. same i (omega arith)) w.1,
)

create-Agrees : Agrees create
unfolding create get_size set_size
create-Agrees = record { size = refl; words = tt }

push-Agrees : (d : DelNodeList) (value : ℕ) → Agrees d → Agrees (push d value)
unfolding push get_size get_value set_size set_value
push-Agrees d value a = record {
  size = ground arith;
  words =
      (ground arith, Words-kept d.file (push d value).file d.list (λ i h. ground arith) a.words);
}

pop_list-Agrees :
    (l : List ℕ) (file : Array ℕ)
    → Words file l
    → get_size file ≡ length l
    → Agrees (pop_list l file).1
unfolding pop_list get_size set_size
pop_list-Agrees [] file w e = record { size = e; words = tt }
pop_list-Agrees (x ∷ xs) file w e = record {
  size = ground arith;
  words = Words-kept file _ xs (λ i h. ground arith) w.1;
}

-- The value read last stands in front.
read_values-last :
    (rounds i : ℕ) (file : Array ℕ) (list : List ℕ)
    → read_values (suc rounds) i file list
      ≡ get_value file (i + rounds) ∷ read_values rounds i file list
unfolding read_values
read_values-last zero i file list = ap (λ o. get_value file o ∷ list) (omega arith)
read_values-last (suc rounds) i file list =
    read_values-last rounds (i + 1) file (get_value file i ∷ list)
    ∙ ap (λ o. get_value file o ∷ read_values rounds (i + 1) file (get_value file i ∷ list))
        (omega arith)

read_values-Words :
    (l : List ℕ) (file : Array ℕ) → Words file l → read_values (length l) 0 file [] ≡ l
unfolding read_values
read_values-Words [] file w = refl
read_values-Words (x ∷ xs) file w =
    let first : 0 + length xs ≡ length xs = omega arith in
    read_values-last (length xs) 0 file [] ∙ rw (first, w.0, read_values-Words xs file w.1)

-- A change of a list: `push`, or `pop` with the value dropped.
pub data Change : Type 0 where
  pushing : ℕ → Change
  popping : Change

abbrev pub changed : List Change → DelNodeList → DelNodeList
changed [] d = d
changed (pushing value ∷ changes) d = changed changes (push d value)
changed (popping ∷ changes) d = changed changes (pop d).1

-- The file agrees with the list after every run of `push` and `pop` calls on an agreeing list.
changed-Agrees : (changes : List Change) (d : DelNodeList) → Agrees d → Agrees (changed changes d)
unfolding pop
changed-Agrees [] d a = a
changed-Agrees (pushing value ∷ changes) d a =
    changed-Agrees changes (push d value) (push-Agrees d value a)
changed-Agrees (popping ∷ changes) d a =
    changed-Agrees changes (pop d).1 (pop_list-Agrees d.list d.file a.words a.size)

-- The constructor, run on the file that any calls of `push` and `pop` on a new list have left, reads
-- back exactly the list that was in memory.
pub open_file-changed :
    (changes : List Change)
    → (open_file (changed changes create).file).list ≡ (changed changes create).list
unfolding open_file
open_file-changed changes =
    let a = changed-Agrees changes create create-Agrees in
    rw a.size (read_values-Words (changed changes create).list _ a.words)
