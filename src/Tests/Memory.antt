-- ===== src/Tests/Memory.antt =====
-- A registration of memory
use cs252aproject.Base.{◌+◌, ◌≤◌, arith, length, get_elem?, ◌≢◌, ◌≡◌, refl, some, nat_eq}
use cs252aproject.Base.Int.{pos, to_signed}
use cs252aproject.Base.Map.{find, find-empty, empty, insert}
use cs252aproject.Common.Messages
use cs252aproject.Router.State.{Router, ShmPiece}
use cs252aproject.Router.Exec.{ok, ◌>>=◌, lift, perform, pure}
use cs252aproject.Router.Wire.{read_body}
use cs252aproject.Router.Shm.{pieces_of, add_shm_piece, shm_name_of}
use cs252aproject.Router.Handlers.Memory.{handle_ibv_reg_mr, record_offset}
use cs252aproject.Router.Pieces.Runs.{start, session, run-distinct}
use cs252aproject.Router.Dispatch.{Session, handle_process, serve}
use cs252aproject.Router.Names.{length-shm_name_of}
use cs252aproject.Router.Registration.{reg_mr-Registers}
use cs252aproject.Tests.World.{world, fresh, reg_req, register, own_config, own_resources}

abbrev own_mr : Messages.IbvRegMrRsp
own_mr = record {
  handle = 5;
  lkey = 31;
  rkey = 32;
  shm_name = shm_name_of 7 (pos 4096) (pos 0);
  router_mr = 1004;
  router_addr = 0x7000_0000;
  router_shm_fd = pos 0;
}

abbrev after : Router
after = (handle_ibv_reg_mr world 7 (pos 24) reg_req fresh).1

answers :
    handle_ibv_reg_mr world 7 (pos 24) reg_req fresh ≡ (ok (Messages.ibv_reg_mr_rsp own_mr), after)
unfolding handle_ibv_reg_mr read_body add_shm_piece record_offset perform lift pure ◌>>=◌ find empty
answers = refl

reg_mr-Registers_example : find after.lkey_offset_map 31 ≡ some 0x2000_0000
reg_mr-Registers_example =
    reg_mr-Registers world 7 (pos 24) reg_req fresh after own_mr answers (find-empty 31)

-- Two clients register memory of one size.
abbrev second : Session
second = record register { process_id = 8 }

abbrev once : Router
once = (handle_process world register fresh).1

abbrev twice : Router
twice = (handle_process world second once).1

abbrev first_piece : ShmPiece
first_piece = record {
  self = 1;
  name = shm_name_of 7 (pos 4096) (pos 0);
  size = pos 4096;
  shm_fd = pos 0;
  ptr = some 0x7000_0000;
}

abbrev second_piece : ShmPiece
second_piece = record first_piece { self = 2; name = shm_name_of 8 (pos 4096) (pos 0) }

at_first : get_elem? (pieces_of twice.shm_map 7) 0 ≡ some first_piece
unfolding handle_process serve handle_ibv_reg_mr read_body add_shm_piece record_offset perform lift
    pure ◌>>=◌ find insert empty
at_first = refl

at_second : get_elem? (pieces_of twice.shm_map 8) 0 ≡ some second_piece
unfolding handle_process serve handle_ibv_reg_mr read_body add_shm_piece record_offset perform lift
    pure ◌>>=◌ find insert empty
at_second = refl

run-distinct_example : first_piece.name ≢ second_piece.name
run-distinct_example =
    run-distinct world own_config own_resources twice 7 8 0 0 first_piece second_piece
      (session (session start register) second) at_first at_second (λ e. absurd (omega (arith, e)))

length-shm_name_of_example : length (shm_name_of 7 (to_signed 32 4096) (to_signed 32 0)) + 1 ≤ 100
length-shm_name_of_example = length-shm_name_of 7 4096 0 (omega arith)
