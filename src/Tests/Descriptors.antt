-- ===== src/Tests/Descriptors.antt =====
-- The descriptors of the small operating system, and what is in use behind the start of a service.
use deric_rpc.Prelude.{
  ℕ, ℤ, pos, negsuc, true, false, List, [], ◌∷◌, ◌≡◌, ◌<◌, arith, int_beq, int_beq_iff,
  int_equality, nat_equality,
}
use deric_rpc.Server.InStep.Guarded.{Descriptors}
use deric_rpc.Tests.Machine.{Machine, machine, mem_fd, fresh_fd, remove_fd}

abbrev pub IsOpened : ℤ → Machine → Type 0
IsOpened d w = mem_fd d w.opened ≡ true

mem_fd-below : (n : ℕ) (fds : List ℤ) → mem_fd (pos n) fds ≡ true → n < fresh_fd fds
mem_fd-below n [] found = absurd (ground (arith, found))
mem_fd-below n (pos k ∷ fds) found =
    ground (arith, found, mem_fd-below n fds, int_beq_iff (pos k) (pos n))
mem_fd-below n (negsuc k ∷ fds) found =
    ground (arith, found, mem_fd-below n fds, int_beq_iff (negsuc k) (pos n))

mem_fd-remove_fd :
    (fd d : ℤ) (fds : List ℤ)
    → int_beq fd d ≡ false
    → mem_fd d fds ≡ true
    → mem_fd d (remove_fd fd fds) ≡ true
mem_fd-remove_fd fd d [] apart found = found
mem_fd-remove_fd fd d (x ∷ fds) apart found =
    ground (arith, found, apart, mem_fd-remove_fd fd d fds apart, int_beq_iff x fd, int_beq_iff x d)

pub machine-Descriptors : Descriptors machine IsOpened
machine-Descriptors = record {
  accept_fresh =
      λ fd w fine used. absurd (ground (arith, mem_fd-below (fresh_fd w.opened) w.opened used));
  accept_opens =
      λ fd w fine. ground (arith, int_beq_iff (pos (fresh_fd w.opened)) (pos (fresh_fd w.opened)));
  socket_opens =
      λ w fine. ground (arith, int_beq_iff (pos (fresh_fd w.opened)) (pos (fresh_fd w.opened)));
  bind = λ fd ip port d w used. used;
  listen = λ fd backlog d w used. used;
  accept = λ fd d w used. ground (arith, used);
  recv = λ fd n d w used. used;
  send = λ fd bytes d w used. used;
  epoll_ctl = λ op epfd fd d w used. used;
  write_byte = λ fd b d w used. used;
  read_byte = λ fd d w used. used;
  close = λ fd d w apart used. mem_fd-remove_fd fd d w.opened apart used;
}
