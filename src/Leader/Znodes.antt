-- ===== src/Leader/Znodes.antt =====
-- internal/leader/election.go: the names of candidate znodes, as bytes, and their order.
pub mod Order
use click_dog.Common.{
  ℕ, ◌-◌, Bool, true, false, ◌&&◌, ◌||◌, List, [], ◌∷◌, length, drop, ltb, leb, ◌==◌, if◌then◌else◌,
}
unfoldable pub use click_dog.Common.Text.{bytes_lt, bytes_same}

abbrev pub Name : Type 0
Name = List ℕ

-- The last ten bytes.
unfoldable pub znode_seq : Name → Name
znode_seq name = if leb 10 (length name) then drop (length name - 10) name else name

insert_by_seq : Name → List Name → List Name
insert_by_seq c [] = c ∷ []
insert_by_seq c (d ∷ ds) =
    if bytes_lt (znode_seq d) (znode_seq c) then d ∷ insert_by_seq c ds else c ∷ d ∷ ds

-- `sort.Slice` promises a sorted permutation, and no order between equal sequence numbers.
unfoldable pub sort_by_seq : List Name → List Name
unfolding insert_by_seq
sort_by_seq [] = []
sort_by_seq (c ∷ cs) = insert_by_seq c (sort_by_seq cs)

-- The part behind the last slash, for a path that does not end in one: `path.Base` of a znode's
-- path.
has_slash : Name → Bool
has_slash [] = false
has_slash (c ∷ cs) = c == b'/' || has_slash cs

unfoldable pub base : Name → Name
unfolding has_slash
base [] = []
base (c ∷ cs) =
    let rest = base cs in if has_slash cs then rest else if c == b'/' then cs else c ∷ cs
