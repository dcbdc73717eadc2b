-- ===== src/Tests/Machine.antt =====
-- A small operating system: one stream of incoming bytes, the bytes sent, and the descriptors that
-- are open. New descriptors are the ones above those open.
use deric_rpc.Prelude.{
  ℕ, suc, ltb, ℤ, pos, negsuc, success, Bytes, length, take, take-all, length-drop, length-take-min,
  ◌≡◌, arith, drop, List, [], ◌∷◌, ◌++◌, none, some, int_beq, if◌then◌else◌, refl, Bool, true,
  false, ◌||◌,
}
use deric_rpc.Os.{Kernel, received}
use deric_rpc.Io.Connection.{IoClients}
use deric_rpc.Io.Connection.Framing.{Delivers}

pub record Machine : Type 0 where
  pub incoming : Bytes
  pub sent : Bytes
  pub opened : List ℤ
  pub handled : List Bytes

abbrev pub remove_fd : ℤ → List ℤ → List ℤ
remove_fd fd [] = []
remove_fd fd (x ∷ xs) = let rest = remove_fd fd xs in if int_beq x fd then rest else x ∷ rest

abbrev pub mem_fd : ℤ → List ℤ → Bool
mem_fd fd [] = false
mem_fd fd (x ∷ xs) = int_beq x fd || mem_fd fd xs

-- Descriptors 0 to 2 are taken.
abbrev pub fresh_fd : List ℤ → ℕ
fresh_fd [] = 3
fresh_fd (pos n ∷ xs) = let rest = fresh_fd xs in if ltb n rest then rest else suc n
fresh_fd (negsuc n ∷ xs) = fresh_fd xs

abbrev open_fd : Machine → ℤ × Machine
open_fd w = let fd = pos (fresh_fd w.opened) in (fd, record w { opened = fd ∷ w.opened })

-- A stream holds so many bytes, and what comes beyond is lost.
abbrev pub capacity : ℕ
capacity = 4096

abbrev pub machine : Kernel Machine
machine = record {
  socket = open_fd;
  connect = λ fd ip port w. (success, w);
  bind = λ fd ip port w. (success, w);
  listen = λ fd backlog w. (success, w);
  accept = λ fd w. open_fd w;
  close = λ fd w. record w { opened = remove_fd fd w.opened };
  recv = λ fd n w.
      let held = take capacity w.incoming in
      (received (take n held), record w { incoming = drop n held });
  send = λ fd bytes w. (pos (length bytes), record w { sent = w.sent ++ bytes });
  pipe = λ w. let (r, w₁) = open_fd w in let (s, w₂) = open_fd w₁ in (success, r, s, w₂);
  epoll_create = open_fd;
  epoll_ctl = λ op epfd fd w. (success, w);
  write_byte = λ fd b w. (pos 1, w);
  read_byte = λ fd w. (some b'1', w);
}

-- Clients that keep the messages handed to them.
abbrev pub recorder : IoClients Machine
recorder = record {
  alive = λ id w. true;
  handle_event = λ id event c w. some (success, c, w);
  handle_data = λ id bytes len c w.
      some
        (len, c, record w { handled = w.handled ++ (elim bytes [ none ↦ [] | some b ↦ b ]) ∷ [] });
}

abbrev pub stream : Machine → Bytes
stream w = take capacity w.incoming

take-drop-take : (m n : ℕ) (bytes : Bytes) → take m (drop n (take m bytes)) ≡ drop n (take m bytes)
take-drop-take m n bytes =
    take-all m (drop n (take m bytes))
      (omega (arith, length-drop n (take m bytes), length-take-min m bytes))

pub machine-Delivers : (fd : ℕ) → Delivers machine fd stream
machine-Delivers fd = record {
  stored = λ n w h. refl;
  consumed = λ n w h. take-drop-take capacity n w.incoming;
}

abbrev pub idle : Machine
idle = record { incoming = []; sent = []; opened = []; handled = [] }

-- The connection on the descriptor 5 is open.
abbrev pub online : Machine
online = record idle { opened = pos 5 ∷ [] }
