-- ===== src/Os.antt =====
-- The system calls that the library makes, over a state `W` of the world. They are parameters of
-- the model: an `int` result is negative where the call failed.
use deric_rpc.Prelude.{ℕ, ℤ, Bytes, Option}

-- What `recv` gives: an error code, or the bytes that were stored, none of them at the end.
pub data Recv : Type 0 where
  failed : ℕ → Recv
  received : Bytes → Recv

pub data EpollOp : Type 0 where
  epoll_add epoll_del : EpollOp

pub record Kernel (W : Type 0) : Type 0 where
  pub socket : W → ℤ × W
  pub connect : ℤ → Bytes → ℤ → W → ℤ × W
  pub bind : ℤ → Bytes → ℤ → W → ℤ × W
  pub listen : ℤ → ℤ → W → ℤ × W
  pub accept : ℤ → W → ℤ × W
  pub close : ℤ → W → W
  pub recv : ℤ → ℕ → W → Recv × W
  pub send : ℤ → Bytes → W → ℤ × W
  -- The result, and the reading and the writing end.
  pub pipe : W → ℤ × ℤ × ℤ × W
  pub epoll_create : W → ℤ × W
  pub epoll_ctl : EpollOp → ℤ → ℤ → W → ℤ × W
  pub write_byte : ℤ → ℕ → W → ℤ × W
  pub read_byte : ℤ → W → Option ℕ × W

-- The same calls over a larger state, which `world` and `set_world` take the world of.
module _ {V S : Type 0} (world : S → V) (set_world : V → S → S) where
  abbrev on_world : {A : Type 0} → (V → A × V) → S → A × S
  on_world f s = let (a, w) = f (world s) in (a, set_world w s)

  abbrev pub lift_kernel : Kernel V → Kernel S
  lift_kernel os = record {
    socket = on_world os.socket;
    connect = λ fd ip port. on_world (os.connect fd ip port);
    bind = λ fd ip port. on_world (os.bind fd ip port);
    listen = λ fd backlog. on_world (os.listen fd backlog);
    accept = λ fd. on_world (os.accept fd);
    close = λ fd s. set_world (os.close fd (world s)) s;
    recv = λ fd n. on_world (os.recv fd n);
    send = λ fd bytes. on_world (os.send fd bytes);
    pipe = λ s.
        let (res, read_fd, write_fd, w) = os.pipe (world s) in
        (res, read_fd, write_fd, set_world w s);
    epoll_create = on_world os.epoll_create;
    epoll_ctl = λ op epfd fd. on_world (os.epoll_ctl op epfd fd);
    write_byte = λ fd b. on_world (os.write_byte fd b);
    read_byte = λ fd. on_world (os.read_byte fd);
  }
