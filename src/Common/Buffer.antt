-- ===== src/Common/Buffer.antt =====
-- The buffers of `handle_process`: `calloc(0xff, 1)` for the response by default.
use cs252aproject.Base.{ℕ, ◌≡◌, refl, Bool, true, false, not, leb}
use cs252aproject.Common.Messages
use cs252aproject.Common.Messages.{FunctionCall}
use cs252aproject.Common.Layout.{req_size, rsp_size}

abbrev pub small_buffer : ℕ
small_buffer = 0xff

abbrev pub is_device_list : FunctionCall → Bool
is_device_list Messages.ibv_get_device_list = true
is_device_list _ = false

-- Every request fits the buffer of 255 bytes, and so does every response but that of
-- IBV_GET_DEVICE_LIST, which does not.
pub messages-fit :
    (f : FunctionCall)
    → (leb (req_size f) small_buffer ≡ true)
      × (leb (rsp_size f) small_buffer ≡ not (is_device_list f))
messages-fit Messages.init_res = (refl, refl)
messages-fit Messages.create_res = (refl, refl)
messages-fit Messages.reg_mr = (refl, refl)
messages-fit Messages.setup_conn = (refl, refl)
messages-fit Messages.post_send = (refl, refl)
messages-fit Messages.post_recv = (refl, refl)
messages-fit Messages.poll_cq = (refl, refl)
messages-fit Messages.dereg_mr = (refl, refl)
messages-fit Messages.destroy_res = (refl, refl)
messages-fit Messages.ibv_get_device_list = (refl, refl)
messages-fit Messages.ibv_alloc_pd = (refl, refl)
messages-fit Messages.ibv_reg_mr = (refl, refl)
messages-fit Messages.ibv_query_gid = (refl, refl)
messages-fit Messages.ibv_query_port = (refl, refl)
messages-fit Messages.ibv_create_qp = (refl, refl)
messages-fit Messages.ibv_modify_qp = (refl, refl)
messages-fit Messages.ibv_post_send = (refl, refl)
messages-fit Messages.ibv_post_recv = (refl, refl)
messages-fit Messages.ibv_poll_cq = (refl, refl)
messages-fit Messages.ibv_destroy_cq = (refl, refl)
messages-fit Messages.ibv_destroy_qp = (refl, refl)
messages-fit Messages.ibv_dereg_mr = (refl, refl)
