-- ===== src/Router/State.antt =====
-- scalerouter/scalerouter.h and shared_memory.h: the state of a `ScaleRouter`, and the calls that
-- it makes of libibverbs, the sockets and the shared memory of the system.
use cs252aproject.Base.{ℕ, Bool, Option, List, [], none, false}
use cs252aproject.Base.Int.{ℤ}
use cs252aproject.Base.Map.{Map, empty}
use cs252aproject.Common.Keys.{Gid, HostKey, ConnId}
use cs252aproject.Common.Messages.{PortAttr}

-- struct config_t; `gid_idx` is an int, `disable_rdma` the truth value of the int.
pub record Config : Type 0 where
  pub ib_port : ℕ
  pub gid_idx : ℤ
  pub disable_rdma : Bool

-- `ibv_device`, as far as the router copies it; the strings stop at their terminator.
pub record Device : Type 0 where
  pub node_type : ℕ
  pub transport_type : ℕ
  pub name : List ℕ
  pub dev_name : List ℕ
  pub dev_path : List ℕ
  pub ibdev_path : List ℕ

-- struct global_resources after `init_global_res`
pub record GlobalResources : Type 0 where
  pub ib_dev : Device
  pub port_attr : PortAttr
  pub pd_handle : ℕ
  pub src_gid : Gid
  pub src_lid : ℕ

-- `ibv_qp`: its address and its number
pub record Qp : Type 0 where
  pub ptr : ℕ
  pub qp_num : ℕ

-- struct conn_resources; a pointer is `none` for NULL, and `locked` is the state of `mutex`.
pub record ConnResources : Type 0 where
  pub cq : Option ℕ
  pub qp : Option Qp
  pub ev_channel : Option ℕ
  pub ref_cnt : ℕ
  pub status : ℕ
  pub locked : Bool

-- what `calloc` returns
abbrev pub zeroed : ConnResources
zeroed = record { cq = none; qp = none; ev_channel = none; ref_cnt = 0; status = 0; locked = false }

-- class ShmPiece; `self` is the object's address, and `ptr` is `none` for MAP_FAILED.
pub record ShmPiece : Type 0 where
  pub self : ℕ
  pub name : List ℕ
  pub size : ℤ
  pub shm_fd : ℤ
  pub ptr : Option ℕ

-- The mutexes of the map structs of `ScaleRouter`.
pub record Locks : Type 0 where
  pub hostmap : Bool
  pub shmmap : Bool
  pub connmap : Bool
  pub cq_qp : Bool
  pub src_qp : Bool
  pub dst_qp : Bool
  pub lkey_offset : Bool

abbrev pub unlocked : Locks
unlocked = record {
  hostmap = false;
  shmmap = false;
  connmap = false;
  cq_qp = false;
  src_qp = false;
  dst_qp = false;
  lkey_offset = false;
}

-- `ibv_mr`
pub record Mr : Type 0 where
  pub ptr : ℕ
  pub handle : ℕ
  pub lkey : ℕ
  pub rkey : ℕ

-- `ibv_wc`, as far as the router reads it
pub record Wc : Type 0 where
  pub wr_id : ℕ
  pub status : ℕ
  pub opcode : ℕ
  pub vendor_err : ℕ

-- `ibv_ah_attr`
pub record AhAttr : Type 0 where
  pub is_global : ℕ
  pub dlid : ℕ
  pub sl : ℕ
  pub src_path_bits : ℕ
  pub port_num : ℕ
  pub dgid : Gid
  pub flow_label : ℕ
  pub hop_limit : ℕ
  pub sgid_index : ℤ
  pub traffic_class : ℕ

-- `ibv_qp_attr`, as far as the router sets it
pub record QpAttr : Type 0 where
  pub qp_state : ℕ
  pub port_num : ℕ
  pub pkey_index : ℕ
  pub qp_access_flags : ℕ
  pub path_mtu : ℕ
  pub dest_qp_num : ℕ
  pub rq_psn : ℕ
  pub max_dest_rd_atomic : ℕ
  pub min_rnr_timer : ℕ
  pub ah_attr : AhAttr
  pub timeout : ℕ
  pub retry_cnt : ℕ
  pub rnr_retry : ℕ
  pub sq_psn : ℕ
  pub max_rd_atomic : ℕ

-- `ibv_send_wr` and `ibv_recv_wr` with their one `ibv_sge`
pub record Sge : Type 0 where
  pub addr : ℕ
  pub length : ℕ
  pub lkey : ℕ

pub record SendWr : Type 0 where
  pub wr_id : ℕ
  pub sge : Sge
  pub opcode : ℕ
  pub send_flags : ℕ
  pub remote_addr : ℕ
  pub rkey : ℕ

pub record RecvWr : Type 0 where
  pub wr_id : ℕ
  pub sge : Sge

-- enum OPERATION and struct info: what one router tells another.
pub data Operation : Type 0 where
  insert delete : Operation

pub record Info : Type 0 where
  pub op : Operation
  pub gid : Gid
  pub qp_num : ℕ

-- A call of code outside the repository, with its arguments.
pub data Call : Type 0 where
  ibv_create_cq : (cqe : ℕ) → Call
  ibv_create_qp : (cq : ℕ) → Call
  ibv_destroy_qp : (qp : ℕ) → Call
  ibv_destroy_cq : (cq : ℕ) → Call
  ibv_destroy_comp_channel : (channel : ℕ) → Call
  ibv_modify_qp : (qp : ℕ) → QpAttr → (mask : ℕ) → Call
  ibv_reg_mr : (addr : ℕ) → (size : ℤ) → (access : ℕ) → Call
  ibv_dereg_mr : (mr : ℕ) → Call
  ibv_post_send : (qp : ℕ) → SendWr → Call
  ibv_post_recv : (qp : ℕ) → RecvWr → Call
  ibv_poll_cq : (cq : ℕ) → (num_entries : ℤ) → Call
  shm_open : (name : List ℕ) → Call
  ftruncate : (fd size : ℤ) → Call
  mmap : (size fd : ℤ) → Call
  munmap : (addr : ℕ) → (size : ℤ) → Call
  close : (fd : ℤ) → Call
  shm_unlink : (name : List ℕ) → Call
  get_if_addr : Call
  getaddrinfo : (address : ℕ) → Call
  socket : (address : ℕ) → Call
  connect : (address : ℕ) → Call
  send : (address : ℕ) → Info → Call

-- The answers of that code. Each depends on all calls up to and with the one that is answered.
pub record Env : Type 0 where
  pub rc : List Call → ℤ
  pub create_cq : List Call → Option ℕ
  pub create_qp : List Call → Option Qp
  pub reg_mr : List Call → Option Mr
  pub mmap_ptr : List Call → Option ℕ
  pub completions : List Call → List Wc
  pub if_addr : List Call → ℕ
  -- the list that `getaddrinfo` fills in
  pub addresses : List Call → List ℕ
  -- what is read at `qp_num` of a destroyed `ibv_qp`; none if that memory cannot be read any more
  pub freed_qp_num : List Call → Option ℕ

pub record Router : Type 0 where
  pub config : Config
  pub global_res : GlobalResources
  pub locks : Locks
  pub host_map : Map HostKey (Option ℕ)
  pub shm_map : Map ℕ (List ShmPiece)
  pub conn_map : Map ConnId (Option ℕ)
  pub cq_qp_map : Map ℕ ℕ
  pub src_qp_map : Map ℕ HostKey
  pub dst_qp_map : Map Gid ℕ
  pub lkey_offset_map : Map ℕ ℕ
  -- the `conn_resources` that are allocated, by address, and the next free address
  pub conns : Map ℕ ConnResources
  pub next_conn : ℕ
  -- the next free address of a `ShmPiece`
  pub next_shm : ℕ
  -- the calls made, newest first
  pub calls : List Call

-- ScaleRouter::ScaleRouter and `start`, when the threads of the two listeners are created
abbrev pub booted : Config → GlobalResources → Router
booted config global_res = record {
  config = config;
  global_res = global_res;
  locks = unlocked;
  host_map = empty;
  shm_map = empty;
  conn_map = empty;
  cq_qp_map = empty;
  src_qp_map = empty;
  dst_qp_map = empty;
  lkey_offset_map = empty;
  conns = empty;
  next_conn = 1;
  next_shm = 1;
  calls = [];
}
