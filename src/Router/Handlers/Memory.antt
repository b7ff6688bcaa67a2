-- ===== src/Router/Handlers/Memory.antt =====
-- scalerouter/scalerouter.cpp: IBV_REG_MR and IBV_DEREG_MR of `handle_process`.
use cs252aproject.Base.{
  ℕ, ◌+◌, ◌-◌, ◌%◌, ◌^◌, nat_beq, ◌||◌, List, [], ◌∷◌, none, some, Bool, true, false, not, ◌&&◌,
  if◌then◌else◌, nat_eq,
}
use cs252aproject.Base.Int.{ℤ, pos, negsuc, is_zero, is_minus_one, to_signed}
use cs252aproject.Base.Map.{find, insert, erase}
use cs252aproject.Common.Messages.{
  IbvRegMrReq, IbvDeregMrReq, Response, ibv_reg_mr, ibv_dereg_mr, ibv_reg_mr_rsp, ibv_dereg_mr_rsp,
}
use cs252aproject.Router.State.{Env, Router, Mr, ShmPiece}
use cs252aproject.Router.State
use cs252aproject.Router.Exec.{
  Exec, pure, fail, lift, or_fail, killed, undefined, gets, modify, perform, lock, unlock,
  lkey_offset, non_null, ◌>>=◌, ◌>>◌,
}
use cs252aproject.Router.Wire.{read_body}
use cs252aproject.Router.Shm.{add_shm_piece}

-- (uintptr_t)sp->ptr - (uintptr_t)req->client_addr
abbrev pub offset_of : ℕ → ℕ → ℕ
offset_of router_addr client_addr = (router_addr + 2 ^ 64 - client_addr) % 2 ^ 64

-- (uintptr_t)req->client_addr + offset
abbrev pub translate : ℕ → ℕ → ℕ
translate client_addr offset = (client_addr + offset) % 2 ^ 64

-- The offset of a key that is already mapped is kept: that is only logged.
unfoldable pub record_offset : ℕ → ℕ → Exec (Unit {0})
unfolding lock unlock ◌>>=◌
record_offset lkey offset = do
  lock lkey_offset
  modify (λ s. record s {
    lkey_offset_map = elim (find s.lkey_offset_map lkey) [
      | none ↦ insert s.lkey_offset_map lkey offset
      | some old ↦ s.lkey_offset_map
    ];
  })
  unlock lkey_offset

-- Erases a key; the result is whether it was there.
unfoldable pub erase_offset : ℕ → Exec Bool
unfolding lock unlock ◌>>=◌
erase_offset lkey = do
  lock lkey_offset
  r ← gets (λ s. find s.lkey_offset_map lkey)
  modify (λ s. record s {
    lkey_offset_map = elim r [ none ↦ s.lkey_offset_map | some old ↦ erase s.lkey_offset_map lkey ];
  })
  unlock lkey_offset
  pure (elim r [ none ↦ false | some old ↦ true ])

abbrev pub has_length : ℤ → ℕ → Bool
has_length (pos n) length = nat_beq n length
has_length (negsuc n) length = false

module _ (env : Env) where
  -- case IBV_REG_MR
  unfoldable pub handle_ibv_reg_mr : ℕ → ℤ → IbvRegMrReq → Exec Response
  handle_ibv_reg_mr process_id n req = do
    read_body n ibv_reg_mr
    piece ← add_shm_piece env process_id (to_signed 32 req.length)
    sp ← lift (or_fail piece killed)
    addr ← non_null sp.ptr
    reg ← perform (State.ibv_reg_mr addr sp.size req.access_flag) env.reg_mr
    mr ← lift (or_fail reg killed)
    record_offset mr.lkey (offset_of addr req.client_addr)
    pure (
        ibv_reg_mr_rsp (record {
          handle = mr.handle;
          lkey = mr.lkey;
          rkey = mr.rkey;
          shm_name = sp.name;
          router_mr = mr.ptr;
          router_addr = addr;
          router_shm_fd = sp.shm_fd;
        }))

  -- After a trace of calls, a pointer is a memory region that is registered,
  unfoldable pub is_registered : ℕ → List State.Call → Bool
  is_registered mr [] = false
  is_registered mr (State.ibv_reg_mr a n k ∷ h) =
      let rest = is_registered mr h in
      elim (env.reg_mr (State.ibv_reg_mr a n k ∷ h)) [
        | none ↦ rest
        | some m ↦ nat_beq m.ptr mr || rest
      ]
  is_registered mr (State.ibv_dereg_mr p ∷ h) =
      let rest = is_registered mr h in
      not (nat_beq p mr && is_zero (env.rc (State.ibv_dereg_mr p ∷ h))) && rest
  is_registered mr (_ ∷ h) = is_registered mr h

  -- and an address is the start of a mapping of a length.
  unfoldable pub is_mapping : ℕ → ℕ → List State.Call → Bool
  is_mapping addr length [] = false
  is_mapping addr length (State.mmap n fd ∷ h) =
      let rest = is_mapping addr length h in
      elim (env.mmap_ptr (State.mmap n fd ∷ h)) [
        | none ↦ rest
        | some a ↦ nat_beq a addr && has_length n length || rest
      ]
  is_mapping addr length (State.munmap a n ∷ h) =
      let rest = is_mapping addr length h in not (nat_beq a addr) && rest
  is_mapping addr length (_ ∷ h) = is_mapping addr length h

  -- The pointers of a request are the daemon's own.
  abbrev pub owns : IbvDeregMrReq → List State.Call → Bool
  owns req h = is_registered req.router_mr h && is_mapping req.router_addr req.length h

  unfoldable pub release_owned : IbvDeregMrReq → Exec Bool
  release_owned req = do
    rc ← perform (State.ibv_dereg_mr req.router_mr) env.rc
    if not (is_zero rc) then fail killed else do
      closed ← perform (State.close req.router_shm_fd) env.rc
      unmapped ← perform (State.munmap req.router_addr (pos req.length)) env.rc
      unlinked ← perform (State.shm_unlink req.shm_name) env.rc
      pure (is_zero closed && is_zero unmapped && not (is_minus_one unlinked))

  -- The memory behind a key that was mapped; the result is the final value of `flags`. The pointers
  -- are what the client sends: with others than its own the daemon's memory is gone.
  unfoldable pub release_memory : IbvDeregMrReq → Exec Bool
  release_memory req = do
    h ← gets (λ s. s.calls)
    if owns req h then release_owned req else fail undefined

  -- case IBV_DEREG_MR
  unfoldable pub handle_ibv_dereg_mr : ℕ → ℤ → IbvDeregMrReq → Exec Response
  handle_ibv_dereg_mr process_id n req = do
    read_body n ibv_dereg_mr
    mapped ← erase_offset req.lkey
    flags ← if mapped then release_memory req else pure false
    pure (ibv_dereg_mr_rsp (if flags then 1 else 0))
