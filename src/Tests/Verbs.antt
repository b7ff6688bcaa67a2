-- ===== src/Tests/Verbs.antt =====
-- The verbs of a client whose process id is 7, over the concrete router.
use cs252aproject.Base.{ℕ, ◌≡◌, ◌↔◌, ◌%◌, ◌≤◌, refl, true, some, List, [], ◌∷◌, arith, nat_eq}
use cs252aproject.Base.Int.{pos}
use cs252aproject.Base.Map.{find, find-empty, empty}
use cs252aproject.Common.Messages
use cs252aproject.Router.State.{Router}
use cs252aproject.Router.Exec.{ok, lift, perform, pure}
use cs252aproject.Router.Wire.{read_body}
use cs252aproject.Router.Dispatch.{serve, handle_process}
use cs252aproject.Router.Replies.{struct_of, serve-struct_of}
use cs252aproject.Router.Shm.{add_shm_piece, shm_name_of}
use cs252aproject.Router.Handlers.Memory.{handle_ibv_reg_mr, record_offset}
use cs252aproject.Router.Handlers.QueuePair.{handle_ibv_create_qp, claim_cq}
use cs252aproject.Router.Handlers.Query.{handle_ibv_alloc_pd}
use cs252aproject.Client.State.{
  Client, done, fault, overrun, hung, request, done_with, handle_of, fresh_process, ◌>>=◌,
}
use cs252aproject.Client.Queue.{
  Cq, ScaleQp, ModifyAttr, new_qp, ibv_create_qp, ibv_destroy_cq, next_qp_handle, enter_cq,
  ask_create,
}
use cs252aproject.Client.Transfer
use cs252aproject.Client.Transfer.{ClientSendWr, ClientRecvWr, poll_request}
use cs252aproject.Client.Memory.{SharedMemory, ScaleMr, ibv_reg_mr}
use cs252aproject.Client.Calls
use cs252aproject.Client.Calls.{VerbCall}
use cs252aproject.Client.Routed.{routed, client_session}
use cs252aproject.Client.Handles.{IsProcess, handle_of_iff, poll_request-create_qp}
use cs252aproject.Client.Counting.{after_cqs, next_cq_handle, next_cq_handle_iff}
use cs252aproject.Client.Overruns.{cq_after, create_qp-overruns}
use cs252aproject.Client.EndToEnd.{Reaches, post_send-Reaches}
use cs252aproject.Client.Regions.{ibv_reg_mr-Registers}
use cs252aproject.Client.Receives.{post_recv-hangs}
use cs252aproject.Client.Faults.{create_qp-hangs}
use cs252aproject.Tests.World.{world, fresh, peer_gid}
use cs252aproject.Tests.Sessions.{registered, connected_user, registered_offset}
use cs252aproject.Tests.Instances.{live}

abbrev starting : Client Router
starting = record { process = fresh_process 7; link = fresh }

abbrev ready : Client Router
ready = record { process = fresh_process 7; link = registered }

starting-IsProcess : IsProcess (fresh_process 7)
starting-IsProcess = record { cq_small = omega arith; qp_small = omega arith; map_length = refl }

handle_of_iff_example :
    (handle_of 7 3 ≡ handle_of 0x1_0007 3)
    ↔ ((◌≡◌ {A = ℕ} (7 % 0x1_0000) (0x1_0007 % 0x1_0000)) × (◌≡◌ {A = ℕ} 3 3))
handle_of_iff_example = handle_of_iff 7 0x1_0007 3 3 (omega arith) (omega arith)

next_cq_handle_iff_example :
    (next_cq_handle 16 (after_cqs 16 2 starting) ≡ next_cq_handle 16 (after_cqs 16 3 starting))
    ↔ (2 % 0x1_0000 ≡ 3 % 0x1_0000)
next_cq_handle_iff_example = next_cq_handle_iff 16 starting 2 3 starting-IsProcess

abbrev own_cq : Cq
own_cq = record { handle = 0x7_0003; cqe = 16 }

create_qp-overruns_example :
    ((ibv_create_qp
        (routed world [])
        (cq_after 16 1024 starting)
        (cq_after 16 1024 starting)
        (after_cqs 16 1025 starting)).0
      ≡ fault overrun)
    ↔ (1024 ≤ 1024)
create_qp-overruns_example =
    create_qp-overruns (routed world []) 16 starting 1024 1025 refl (omega arith)

abbrev own_qp : ScaleQp
own_qp = new_qp 0x7_0000 own_cq 0x0a00_0001

abbrev holding : Client Router
holding = (ibv_create_qp (routed world []) own_cq own_cq starting).1

makes : ibv_create_qp (routed world []) own_cq own_cq starting ≡ (done (some own_qp), holding)
unfolding ibv_create_qp next_qp_handle enter_cq ask_create request routed handle_process serve
    handle_ibv_create_qp claim_cq read_body perform pure done_with ◌>>=◌ find empty
makes = refl

poll_request-create_qp_example :
    poll_request own_cq holding.process
    ≡ some (record { cq_handle = 0x7_0003; qp_handle = 0x7_0000; num_entries = pos 1 })
poll_request-create_qp_example =
    poll_request-create_qp (routed world []) own_cq starting own_qp holding starting-IsProcess
      (omega arith) makes

create_qp-hangs_example :
    (ibv_create_qp
      (routed world [])
      own_cq
      own_cq
      (ibv_destroy_cq own_cq (ibv_create_qp (routed world []) own_cq own_cq starting).1).1).0
    ≡ fault hung
create_qp-hangs_example =
    create_qp-hangs world [] own_cq starting (omega arith) refl (find-empty 0x7_0003)

abbrev to_rtr : ModifyAttr
to_rtr = record { has_state = true; qp_state = 2; dlid = 4; dest_qp_num = 88; dgid = peer_gid }

abbrev connected_qp : ScaleQp
connected_qp = record own_qp { handle = 0x7_0001; state = 2; dst_v_qp_num = 0x0a00_0002 }

abbrev own_wr : ClientSendWr
own_wr = record {
  wr_id = 7;
  addr = 0x5000_0010;
  length = 64;
  lkey = 31;
  opcode = 2;
  remote_addr = 0;
  rkey = 0;
}

post_send-Reaches_example :
    Reaches world [] connected_qp own_wr ready 1 0x2000_0000 live
      (Transfer.post_send (routed world []) connected_qp own_wr ready)
post_send-Reaches_example =
    post_send-Reaches world [] connected_qp own_wr ready 1 0x2000_0000 live (omega arith)
      (omega arith) registered_offset connected_user

abbrev mapping : SharedMemory
mapping = record {
  shm_open = λ name. pos 5;
  ftruncate = λ fd n. pos 0;
  mmap = λ addr n fd. some addr;
}

abbrev own_region : ScaleMr
own_region = record {
  addr = 0x5000_0000;
  length = 4096;
  handle = 5;
  lkey = 31;
  rkey = 32;
  shm_name = shm_name_of 7 (pos 4096) (pos 0);
  shm_ptr = 0x5000_0000;
  shm_fd = pos 5;
  router_mr = 1004;
  router_addr = 0x7000_0000;
  router_shm_fd = pos 0;
}

abbrev registering : Client Router
registering = (ibv_reg_mr (routed world []) mapping 0x5000_0000 4096 7 starting).1

registers :
    ibv_reg_mr (routed world []) mapping 0x5000_0000 4096 7 starting
    ≡ (done (some own_region), registering)
unfolding ibv_reg_mr request routed handle_process serve handle_ibv_reg_mr read_body add_shm_piece
    record_offset perform lift pure done_with ◌>>=◌ find empty
registers = refl

ibv_reg_mr-Registers_example : find registering.link.lkey_offset_map 31 ≡ some 0x2000_0000
ibv_reg_mr-Registers_example =
    ibv_reg_mr-Registers world [] mapping 0x5000_0000 4096 7 starting registering own_region
      registers (find-empty 31)

abbrev program : List VerbCall
program =
    Calls.get_device_list
    ∷ Calls.create_cq 16
    ∷ Calls.create_qp own_cq own_cq
    ∷ Calls.reg_mr mapping 0x5000_0000 4096 7
    ∷ Calls.modify_qp own_qp to_rtr
    ∷ Calls.post_send own_qp own_wr
    ∷ Calls.poll_cq own_cq 1
    ∷ Calls.destroy_qp own_qp
    ∷ []

allocates :
    (serve world (client_session [] 7 Messages.ibv_alloc_pd_req) fresh).0
    ≡ ok (Messages.ibv_alloc_pd_rsp 9)
unfolding serve handle_ibv_alloc_pd
allocates = refl

serve-struct_of_example : struct_of (Messages.ibv_alloc_pd_rsp 9) ≡ some Messages.ibv_alloc_pd
serve-struct_of_example =
    serve-struct_of world (client_session [] 7 Messages.ibv_alloc_pd_req) fresh
      (Messages.ibv_alloc_pd_rsp 9) allocates

abbrev own_recv : ClientRecvWr
own_recv = record { wr_id = 1; addr = 0x5000_0010; length = 64; lkey = 31 }

post_recv-hangs_example :
    ((Transfer.post_recv (routed world []) own_qp own_recv starting).0 ≡ fault hung)
    × ((Transfer.post_recv (routed world []) own_qp own_recv starting).1.link.calls
        ≡ starting.link.calls)
post_recv-hangs_example =
    post_recv-hangs world [] own_qp own_recv starting refl (λ e. absurd (omega (arith, e)))
