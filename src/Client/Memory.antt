-- ===== src/Client/Memory.antt =====
-- libscale/verbs.c: the memory regions of a client.
use cs252aproject.Base.{ℕ, ◌%◌, Option, none, some, List, Bool, not, ◌||◌, nat_beq, if◌then◌else◌}
use cs252aproject.Base.Int.{ℤ, negsuc, is_zero, is_neg}
use cs252aproject.Common.Messages
use cs252aproject.Common.Messages.{Response, IbvRegMrRsp}
use cs252aproject.Client.State.{Transport, garbled, Verb, done_with, stop, request, released, ◌>>=◌}

-- struct scale_mr
pub record ScaleMr : Type 0 where
  pub addr : ℕ
  pub length : ℕ
  pub handle : ℕ
  pub lkey : ℕ
  pub rkey : ℕ
  pub shm_name : List ℕ
  pub shm_ptr : ℕ
  pub shm_fd : ℤ
  pub router_mr : ℕ
  pub router_addr : ℕ
  pub router_shm_fd : ℤ

-- The calls that map the shared memory of a name at an address: the descriptor, the result of
-- `ftruncate`, and the address that `mmap` returns, which is none for MAP_FAILED.
pub record SharedMemory : Type 0 where
  pub shm_open : List ℕ → ℤ
  pub ftruncate : ℤ → ℕ → ℤ
  pub mmap : ℕ → ℕ → ℤ → Option ℕ

abbrev pub page_size : ℕ
page_size = 4096

abbrev pub is_pos : ℤ → Bool
is_pos n = not (is_neg n || is_zero n)

-- From the response to the region: `none` is NULL. The bytes of the memory are copied out and in
-- again, and are not part of the model.
abbrev pub map_region : SharedMemory → ℕ → ℕ → IbvRegMrRsp → Option ScaleMr
map_region shm addr length rsp =
    let fd = shm.shm_open rsp.shm_name in
    let ret = shm.ftruncate fd length in
    elim (shm.mmap addr length fd) [
      | none ↦ none
      | some ptr ↦
          if is_pos ret
          then none
          else if not (nat_beq ptr addr)
          then none
          else some (record {
            addr = addr;
            length = length;
            handle = rsp.handle;
            lkey = rsp.lkey;
            rkey = rsp.rkey;
            shm_name = rsp.shm_name;
            shm_ptr = ptr;
            shm_fd = fd;
            router_mr = rsp.router_mr;
            router_addr = rsp.router_addr;
            router_shm_fd = rsp.router_shm_fd;
          })
    ]

module _ {S : Type 0} (t : Transport S) where
  abbrev pub after_reg : SharedMemory → ℕ → ℕ → Option Response → Verb S (Option ScaleMr)
  after_reg shm addr length none = done_with none
  after_reg shm addr length (some (Messages.ibv_reg_mr_rsp rsp)) =
      done_with (map_region shm addr length rsp)
  after_reg shm addr length (some _) = stop garbled

  -- ibv_reg_mr; ibv_reg_mr_iova2 is the same.
  unfoldable pub ibv_reg_mr : SharedMemory → ℕ → ℕ → ℕ → Verb S (Option ScaleMr)
  ibv_reg_mr shm addr length access =
      if not (nat_beq (addr % page_size) 0) then done_with none else do
        rsp ← request t (
            Messages.ibv_reg_mr_req
              (record { access_flag = access; length = length; client_addr = addr }))
        after_reg shm addr length rsp

  abbrev pub after_dereg : Option Response → Verb S ℤ
  after_dereg none = done_with (negsuc 0)
  after_dereg (some (Messages.ibv_dereg_mr_rsp flags)) = done_with (released flags)
  after_dereg (some _) = stop garbled

  -- ibv_dereg_mr
  unfoldable pub ibv_dereg_mr : ScaleMr → Verb S ℤ
  ibv_dereg_mr mr = do
    rsp ← request t (
        Messages.ibv_dereg_mr_req (record {
          shm_name = mr.shm_name;
          lkey = mr.lkey;
          router_shm_fd = mr.router_shm_fd;
          length = mr.length;
          router_mr = mr.router_mr;
          router_addr = mr.router_addr;
        }))
    after_dereg rsp
