-- ===== src/Client/Calls.antt =====
-- The verbs as calls that a program makes in any order.
use cs252aproject.Base.{ℕ, Option, none, some, List, [], ◌∷◌}
use cs252aproject.Client.State.{Client, Transport, VerbFault, VerbResult, done, fault, Verb}
use cs252aproject.Client.Device
use cs252aproject.Client.Device.{Context}
use cs252aproject.Client.Memory
use cs252aproject.Client.Memory.{SharedMemory, ScaleMr}
use cs252aproject.Client.Queue
use cs252aproject.Client.Queue.{Cq, ScaleQp, ModifyAttr}
use cs252aproject.Client.Transfer
use cs252aproject.Client.Transfer.{ClientSendWr, ClientRecvWr}

-- The verbs of libscale/verbs.c that read or write its state or ask the router
pub data VerbCall : Type 0 where
  get_device_list : VerbCall
  alloc_pd : Context → VerbCall
  reg_mr : SharedMemory → (addr length access : ℕ) → VerbCall
  query_gid : VerbCall
  query_port : VerbCall
  create_cq : (cqe : ℕ) → VerbCall
  create_qp : (send_cq recv_cq : Cq) → VerbCall
  modify_qp : ScaleQp → ModifyAttr → VerbCall
  post_send : ScaleQp → ClientSendWr → VerbCall
  post_recv : ScaleQp → ClientRecvWr → VerbCall
  poll_cq : Cq → (num_entries : ℕ) → VerbCall
  destroy_cq : Cq → VerbCall
  destroy_qp : ScaleQp → VerbCall
  dereg_mr : ScaleMr → VerbCall

-- How a call ends, its result aside
abbrev pub ending : {A : Type 0} → VerbResult A → Option VerbFault
ending (done a) = none
ending (fault f) = some f

abbrev pub ends : {S A : Type 0} → Verb S A → Client S → Option VerbFault × Client S
ends m c = let (r, c') = m c in (ending r, c')

unfoldable pub run : {S : Type 0} → Transport S → VerbCall → Client S → Option VerbFault × Client S
run t get_device_list c = ends (Device.ibv_get_device_list t) c
run t (alloc_pd ctx) c = ends (Device.ibv_alloc_pd t ctx) c
run t (reg_mr shm addr length access) c = ends (Memory.ibv_reg_mr t shm addr length access) c
run t query_gid c = ends (Device.ibv_query_gid t) c
run t query_port c = ends (Device.ibv_query_port t) c
run t (create_cq cqe) c = ends (Queue.ibv_create_cq cqe) c
run t (create_qp send_cq recv_cq) c = ends (Queue.ibv_create_qp t send_cq recv_cq) c
run t (modify_qp qp attr) c = ends (Queue.ibv_modify_qp t qp attr) c
run t (post_send qp wr) c = ends (Transfer.post_send t qp wr) c
run t (post_recv qp wr) c = ends (Transfer.post_recv t qp wr) c
run t (poll_cq cq n) c = ends (Transfer.poll_cq t cq n) c
run t (destroy_cq cq) c = ends (Queue.ibv_destroy_cq cq) c
run t (destroy_qp qp) c = ends (Queue.ibv_destroy_qp t qp) c
run t (dereg_mr mr) c = ends (Memory.ibv_dereg_mr t mr) c

-- A program's calls, one after the other, as long as they return
unfoldable pub run_all :
    {S : Type 0} → Transport S → List VerbCall → Client S → Option VerbFault × Client S
run_all t [] c = (none, c)
run_all t (call ∷ calls) c =
    let (f, c') = run t call c in elim f [ none ↦ run_all t calls c' | some e ↦ (some e, c') ]
