-- ===== src/BPlus/FreeList.antt =====
-- The stack of free positions and its file, pkg/storage/bplustree/DelNodeList.cpp.
-- `list` is `dList` with its back first. The file is an array of 8-byte words, the size and then
-- the values from the front of the list on.
pub mod Stack
pub mod Reload
use godbee.Base.{ℕ, zero, suc, ◌+◌, Option, none, some, List, [], ◌∷◌, length, Array, update}

pub record DelNodeList : Type 0 where
  pub list : List ℕ
  pub file : Array ℕ

set_size : Array ℕ → ℕ → Array ℕ
set_size file new_size = update file 0 new_size

set_value : Array ℕ → ℕ → ℕ → Array ℕ
set_value file value offset = update file (offset + 1) value

get_size : Array ℕ → ℕ
get_size file = file 0

get_value : Array ℕ → ℕ → ℕ
get_value file offset = file (offset + 1)

unfoldable pub push : DelNodeList → ℕ → DelNodeList
unfolding set_size set_value
push d value = record {
  list = value ∷ d.list;
  file = set_value (set_size d.file (length d.list + 1)) value (length d.list);
}

pop_list : List ℕ → Array ℕ → Option ℕ × DelNodeList
unfolding set_size
pop_list [] file = (none, record { list = []; file = file })
pop_list (result ∷ rest) file =
    (some result, record { list = rest; file = set_size file (length rest) })

unfoldable pub pop : DelNodeList → Option ℕ × DelNodeList
unfolding pop_list
pop d = pop_list d.list d.file

-- The constructor with `createNewFile`.
unfoldable pub create : DelNodeList
unfolding set_size
create = record { list = []; file = set_size (λ _. 0) 0 }

-- The loop of the constructor: `rounds` values are left, `list` has been read.
read_values : ℕ → ℕ → Array ℕ → List ℕ → List ℕ
unfolding get_value
read_values zero i file list = list
read_values (suc rounds) i file list = read_values rounds (i + 1) file (get_value file i ∷ list)

-- The constructor without `createNewFile`.
pub open_file : Array ℕ → DelNodeList
unfolding get_size read_values
open_file file = record { list = read_values (get_size file) 0 file []; file = file }
