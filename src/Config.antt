-- ===== src/Config.antt =====
-- RpcConfig: deric_rpc/config/src/rpc_config.cpp and its header. A line that makes `parseLine` read
-- outside its string gives `none`. A file is its bytes; `none` in their place is one that cannot be
-- opened.
pub mod Lines
pub mod File
use deric_rpc.Prelude.{
  ℕ, zero, suc, ◌+◌, Bool, true, false, not, ◌||◌, Bytes, take, drop, List, [], ◌∷◌, Option, none,
  some, ◌>>=◌, get_elem?, nat_beq, if◌then◌else◌, ℤ, failure, success, Dict, lookup, insert,
  contains, bytes_equality,
}

abbrev pub space : ℕ
space = b' '

-- `buf.find(c)` and `buf.find_first_not_of(c, i)`, from an index on; `none` is `npos`.
unfoldable pub find_byte : ℕ → Bytes → ℕ → Option ℕ
find_byte c [] i = none
find_byte c (x ∷ xs) i = if nat_beq x c then some i else find_byte c xs (i + 1)

unfoldable pub find_other : ℕ → Bytes → ℕ → Option ℕ
find_other c [] i = none
find_other c (x ∷ xs) i = if nat_beq x c then find_other c xs (i + 1) else some i

abbrev is_space : Option ℕ → Bool
is_space none = false
is_space (some c) = nat_beq c space

-- The loop down from an index. `index >= 0` holds of every `size_t`, so below index 0 the loop goes
-- on at the largest index and reads there, outside the string.
unfoldable pub skip_back : ℕ → Bytes → Option ℕ
skip_back zero buf = if is_space (get_elem? buf zero) then none else some zero
skip_back (suc i) buf = if is_space (get_elem? buf (suc i)) then skip_back i buf else some (suc i)

-- `m_configItemMap.emplace`: an entry that is there already stays.
unfoldable pub emplace : Bytes → Bytes → Dict Bytes Bytes → Dict Bytes Bytes
emplace key value items = if contains key items then items else insert key value items

-- With the positions of `=` and of the end of the key.
unfoldable pub add_item : Bytes → ℕ → ℕ → Dict Bytes Bytes → Dict Bytes Bytes
add_item buf equal_pos index items =
    elim (find_other space (drop (equal_pos + 1) buf) (equal_pos + 1)) [
      | none ↦ items
      | some start ↦ emplace (take (index + 1) buf) (drop start buf) items
    ]

-- With the position of `=`. At position 0 the first index that is read is the largest one.
unfoldable pub parse_from : Bytes → ℕ → Dict Bytes Bytes → Option (Dict Bytes Bytes)
parse_from buf zero items = none
parse_from buf (suc p) items = do index ← skip_back p buf; some (add_item buf (suc p) index items)

abbrev pub is_ignored : Bytes → Bool
is_ignored [] = true
is_ignored (c ∷ cs) = nat_beq c b'#'

-- A line with no `=` is logged, and read at the largest index but one all the same.
unfoldable pub parse_line : Bytes → Dict Bytes Bytes → Option (Dict Bytes Bytes)
parse_line buf items = if is_ignored buf then some items else elim (find_byte b'=' buf zero) [
  | none ↦ none
  | some equal_pos ↦ parse_from buf equal_pos items
]

abbrev first_byte : ℕ → List Bytes → List Bytes
first_byte c [] = (c ∷ []) ∷ []
first_byte c (l ∷ ls) = (c ∷ l) ∷ ls

-- The lines that `std::getline` gives in turn.
unfoldable pub lines : Bytes → List Bytes
lines [] = []
lines (c ∷ cs) = if nat_beq c b'\n' then [] ∷ lines cs else first_byte c (lines cs)

unfoldable pub parse_lines : List Bytes → Dict Bytes Bytes → Option (Dict Bytes Bytes)
parse_lines [] items = some items
parse_lines (l ∷ ls) items = do items' ← parse_line l items; parse_lines ls items'

unfoldable pub init : Option Bytes → Dict Bytes Bytes → Option (ℤ × Dict Bytes Bytes)
init none items = some (failure, items)
init (some file) items = do items' ← parse_lines (lines file) items; some (success, items')

-- The result, and `val` behind the call.
unfoldable pub get_value : Bytes → Bytes → Dict Bytes Bytes → ℤ × Bytes
get_value key val items = elim (lookup key items) [ none ↦ (failure, val) | some v ↦ (success, v) ]
