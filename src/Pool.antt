-- ===== src/Pool.antt =====
-- The pool of file handles that the threads of a store share: `getpFile` and `returnpFile` of
-- pkg/storage/bplustree/fileUtils.cpp, where it is a stack, and `FileManager` of
-- pkg/storage/btree/FileManager.cpp, where it is a queue. What runs under the mutex is one step, a
-- wait on the condition variable gives the mutex back, and it may end without a call of `notify_one`.
pub mod Count
pub mod Invariant
pub mod Safety
use godbee.Base.{
  ℕ, zero, suc, ◌+◌, ◌<◌, ◌≡◌, ◌≢◌, Bool, true, false, List, [], ◌∷◌, ◌++◌, Array, update,
}

-- Where a thread stands in its use of the pool.
pub data Pc : Type 0 where
  idle : Pc
  waiting : Pc
  woken : Pc
  holding : ℕ → Pc
  -- between the push of the handle and the call of `notify_one`
  giving : Pc

pub record Pool : Type 0 where
  pub files : List ℕ
  pub pc : Array Pc

-- How a pool takes a handle back; it gives out the first one of the list.
pub data Kind : Type 0 where
  stack : Kind
  queue : Kind

abbrev pub give_back : Kind → ℕ → List ℕ → List ℕ
give_back stack file files = file ∷ files
give_back queue file files = files ++ (file ∷ [])

-- A thread asks for a handle when it begins, and again when it has been woken.
pub data Asks : Pc → Type 0 where
  first : Asks idle
  again : Asks woken

-- Steps of `n` threads. With `leaks` a call may return without giving its handle back, as `BTree::insert`
-- into an empty tree does, and `BTree::remove` and `BTree::traverseByLevel` on one do,
-- pkg/storage/btree/BTree.cpp.
pub data Step (kind : Kind) (leaks : Bool) (n : ℕ) (s t : Pool) : Type 0 where
  get :
      (i file : ℕ) (rest : List ℕ)
      → i < n
      → Asks (s.pc i)
      → s.files ≡ file ∷ rest
      → t ≡ record { files = rest; pc = update s.pc i (holding file) }
      → Step kind leaks n s t
  wait :
      (i : ℕ)
      → i < n
      → Asks (s.pc i)
      → s.files ≡ []
      → t ≡ record s { pc = update s.pc i waiting }
      → Step kind leaks n s t
  wake :
      (i : ℕ)
      → i < n
      → s.pc i ≡ waiting
      → t ≡ record s { pc = update s.pc i woken }
      → Step kind leaks n s t
  give :
      (i file : ℕ)
      → i < n
      → s.pc i ≡ holding file
      → t ≡ record { files = give_back kind file s.files; pc = update s.pc i giving }
      → Step kind leaks n s t
  notify :
      (i j : ℕ)
      → i < n
      → j < n
      → s.pc i ≡ giving
      → s.pc j ≡ waiting
      → t ≡ record s { pc = update (update s.pc i idle) j woken }
      → Step kind leaks n s t
  notify_nobody :
      (i : ℕ)
      → i < n
      → s.pc i ≡ giving
      → ((j : ℕ) → j < n → s.pc j ≢ waiting)
      → t ≡ record s { pc = update s.pc i idle }
      → Step kind leaks n s t
  leak :
      (i file : ℕ)
      → leaks ≡ true
      → i < n
      → s.pc i ≡ holding file
      → t ≡ record s { pc = update s.pc i idle }
      → Step kind leaks n s t

-- `NO_PFILES`, and `filePtrPoolSize`.
abbrev pub pool_size : ℕ
pool_size = 8

abbrev pub handles : ℕ → List ℕ
handles zero = []
handles (suc k) = k ∷ handles k

abbrev pub init : Pool
init = record { files = handles pool_size; pc = λ _. idle }

pub data Reach (kind : Kind) (leaks : Bool) (n : ℕ) : Pool → Type 0 where
  start : Reach kind leaks n init
  later : {s t : Pool} → Reach kind leaks n s → Step kind leaks n s t → Reach kind leaks n t
