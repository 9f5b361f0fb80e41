-- ===== src/Btree/File/Values.antt =====
-- A value that does not get to its position, pkg/storage/btree/DataFileIO.cpp.
use godbee.Base.{ℕ, ◌/◌, ◌%◌, ◌<◌, ◌≡◌, false, some, [], ◌==◌, update, arith}
use godbee.Btree.File.{
  Value, Page, Config, blank, node_page, value_page, Tree, value_at, write_page, read_value_in_file,
  update_value_at,
}

module _ (s : Tree) (old : Value) (i : ℕ) where
  value_at-state :
      (s' : Tree) (p : Page) → value_at p i s ≡ some (old, s) → value_at p i s' ≡ some (old, s')
  unfolding value_at
  value_at-state s' blank e = absurd (cc e)
  value_at-state s' (node_page n) e = absurd (cc e)
  value_at-state s' (value_page vs) e = cc e

-- A value that is not overwritten, at a position with index 0 of a page inside the file, is not written
-- there: the call succeeds, and the position reads as before.
pub update_value_at-lost :
    (c : Config) (s : Tree) (pos : ℕ) (v old : Value)
    → pos % 4 ≡ 0
    → pos / 4 < s.pages
    → read_value_in_file pos s ≡ some (old, s)
    → (s' : Tree) × (update_value_at c pos v false s ≡ some (tt, s'))
      × (read_value_in_file pos s' ≡ some (old, s'))
unfolding update_value_at read_value_in_file write_page
update_value_at-lost c s pos v old e h read =
    let s' = write_page s.pages (value_page (update (λ _. []) 0 v)) s in
    let other : (pos / 4 == s.pages) ≡ false = ground arith in
    (s', ground arith, rw other (value_at-state s old (pos % 4) s' (s.file (pos / 4)) read))
