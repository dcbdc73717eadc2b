-- ===== src/Io/Events/Members.antt =====
-- Registration with the event module: deric_rpc/io/src/io_module.cpp, `addIoMember` and
-- `removeIoMember`, and the mutex that two of their paths leave locked.
use deric_rpc.Prelude.{
  ℕ, ℤ, is_neg, int_beq, int_beq_iff, failure, success, true, false, ◌≡◌, refl, none, some, arith,
  lookup, insert, erase, contains, int_equality, lookup-insert, lookup-erase, contains-lookup,
}
use deric_rpc.Os.{Kernel, epoll_add, epoll_del}
use deric_rpc.Io.Events.{
  IoModule, IoMember, modify_epoll_event, wakeup_module, add_io_member, remove_io_member,
}
use deric_rpc.Io.Events.Loop.{EpollEvent, IoMembers, Pending, handle_event}

module _ {W : Type 0} (os : Kernel W) where
  -- No thread gets past the mutex of the members: no valid member can be added, none removed, and
  -- the event thread stops at the first event of another descriptor than its own pipe.
  abbrev pub Blocks : IoModule → Type 0
  Blocks m =
      (w : W)
      → ((other : IoMember) → is_neg other.fd ≡ false → add_io_member os (some other) m w ≡ none)
        × ((other : IoMember) → remove_io_member os (some other) m w ≡ none)
        × ((members : IoMembers W) (ev : EpollEvent) (p : Pending)
            → int_beq ev.fd m.wakeup_read_fd ≡ false
            → handle_event os members ev p m w ≡ none)

  locked-Blocks : (m : IoModule) → m.members_locked ≡ true → Blocks m
  unfolding add_io_member remove_io_member handle_event
  locked-Blocks m locked w =
      (λ other valid. ground arith, λ other. ground arith, λ members ev p differs. ground arith)

  -- Adding a member under a descriptor that is in use reports success and registers nothing; the
  -- mutex of the members, free at the start, stays locked, and blocks all that comes after: no
  -- valid member can be added, none removed, and the event thread stops at the first event that is
  -- not of its own pipe.
  pub add_io_member_again :
      (member : IoMember) (m : IoModule) (w : W)
      → is_neg member.fd ≡ false
      → m.members_locked ≡ false
      → contains member.fd m.io_members ≡ true
      → (m' : IoModule) × (add_io_member os (some member) m w ≡ some (success, m', w))
        × (m'.io_members ≡ m.io_members)
        × Blocks m'
  add_io_member_again member m w valid free used = (
    record m { members_locked = true },
    unfold add_io_member in ground arith,
    refl,
    locked-Blocks (record m { members_locked = true }) refl,
  )

  -- Removing a member that is not registered reports a failure; the mutex of the members, free at
  -- the start, stays locked, and blocks all that comes after: no valid member can be added, none
  -- removed, and the event thread stops at the first event that is not of its own pipe.
  pub remove_io_member_missing :
      (member : IoMember) (m : IoModule) (w : W)
      → m.members_locked ≡ false
      → contains member.fd m.io_members ≡ false
      → (m' : IoModule) × (remove_io_member os (some member) m w ≡ some (failure, m', w))
        × (m'.io_members ≡ m.io_members)
        × Blocks m'
  remove_io_member_missing member m w free missing = (
    record m { members_locked = true },
    unfold remove_io_member in ground arith,
    refl,
    locked-Blocks (record m { members_locked = true }) refl,
  )

  -- The module behind the addition of a member under a free descriptor.
  abbrev pub with_member : IoMember → IoModule → IoModule
  with_member member m = record m { io_members = insert member.fd member.object m.io_members }

  pub add_io_member_free :
      (member : IoMember) (m : IoModule) (w : W)
      → is_neg member.fd ≡ false
      → m.members_locked ≡ false
      → contains member.fd m.io_members ≡ false
      → let (res, w₁) = modify_epoll_event os epoll_add member.fd m w in
        add_io_member os (some member) m w
        ≡ some (res, with_member member m, wakeup_module os (with_member member m) w₁)
  unfolding add_io_member modify_epoll_event
  add_io_member_free member m w valid free fresh = ground arith

  pub remove_io_member_present :
      (member : IoMember) (m : IoModule) (w : W)
      → m.members_locked ≡ false
      → contains member.fd m.io_members ≡ true
      → let (res, w₁) = modify_epoll_event os epoll_del member.fd m w in
        remove_io_member os (some member) m w
        ≡ some (res, record m { io_members = erase member.fd m.io_members }, w₁)
  unfolding remove_io_member modify_epoll_event
  remove_io_member_present member m w free used = ground arith

  pub contains-insert_self :
      (fd : ℤ) (object : ℕ) (m : IoModule) → contains fd (insert fd object m.io_members) ≡ true
  contains-insert_self fd object m = ground (
    arith,
    contains-lookup fd (insert fd object m.io_members),
    lookup-insert fd fd object m.io_members,
    int_beq_iff fd fd,
  )

  -- A member that is added under a free descriptor, by whichever result of `epoll_ctl`, is found
  -- under it; when it is removed again the table has the entries that it had, and no mutex is left
  -- locked. The descriptor is not negative, and the mutex of the members is free at the start.
  pub remove-add_io_member :
      (member : IoMember) (m : IoModule) (w w₂ : W) (other : ℤ)
      → is_neg member.fd ≡ false
      → m.members_locked ≡ false
      → contains member.fd m.io_members ≡ false
      → (r₁ r₂ : ℤ) × (m₁ m₂ : IoModule) × (w₁ w₃ : W) × (add_io_member os (some member) m w
          ≡ some (r₁, m₁, w₁))
        × (lookup member.fd m₁.io_members ≡ some member.object)
        × (remove_io_member os (some member) m₁ w₂ ≡ some (r₂, m₂, w₃))
        × (lookup other m₂.io_members ≡ lookup other m.io_members)
        × (m₂.members_locked ≡ false)
  remove-add_io_member member m w w₂ other valid free fresh =
      let m₁ = with_member member m in
      let m₂ = record m₁ { io_members = erase member.fd m₁.io_members } in
      (
        _,
        _,
        m₁,
        m₂,
        _,
        _,
        add_io_member_free member m w valid free fresh,
        ground (
          arith,
          lookup-insert member.fd member.fd member.object m.io_members,
          int_beq_iff member.fd member.fd,
        ),
        remove_io_member_present member m₁ w₂ free (contains-insert_self member.fd member.object m),
        ground (
          arith,
          contains-lookup member.fd m.io_members,
          lookup-erase member.fd other m₁.io_members,
          lookup-insert member.fd other member.object m.io_members,
          int_beq_iff member.fd other,
        ),
        free,
      )
