-- ===== src/Tests/Configs.antt =====
-- A configuration file of two lines.
use deric_rpc.Prelude.{ℕ, success, Bytes, [], ◌∷◌, ◌≡◌, ◌≤◌, refl, some, arith, Dict}
use deric_rpc.Config.{init, get_value}
use deric_rpc.Config.File.{Entry, IsPlain, render, get_value-init}

abbrev entry : ℕ → Entry
entry value = record {
  front = [];
  last = b'k';
  blanks_before = 1;
  blanks_behind = 0;
  first = value;
  rest = [];
}

entry-IsPlain : (value : ℕ) → b'0' ≤ value → IsPlain (entry value)
entry-IsPlain value h = record {
  no_equals = ((λ e. omega arith), tt);
  no_comment = refl;
  key_end = λ e. omega arith;
  value_begin = λ e. omega arith;
  key_on_line = ((λ e. omega arith), tt);
  value_on_line = ((λ e. omega arith), tt);
}

get_value-init_example :
    (items : Dict Bytes Bytes) × (init (some (render (entry b'1' ∷ entry b'2' ∷ []))) []
      ≡ some (success, items))
    × (get_value (b'k' ∷ []) [] items ≡ (success, b'1' ∷ []))
get_value-init_example =
    get_value-init (entry b'1' ∷ entry b'2' ∷ []) (b'k' ∷ []) []
      (entry-IsPlain b'1' (omega arith), (entry-IsPlain b'2' (omega arith), tt))
