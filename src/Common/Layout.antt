-- ===== src/Common/Layout.antt =====
-- The sizes of the message structs of scalerouter/common.h under the System V x86-64 layout.
use Prim.Native.Nat.{max}
use cs252aproject.Base.{ℕ, ◌+◌, ◌-◌, ◌*◌, ◌%◌, List, [], ◌∷◌}
use cs252aproject.Common.Messages.{
  FunctionCall, init_res, create_res, reg_mr, setup_conn, post_send, post_recv, poll_cq, dereg_mr,
  destroy_res, ibv_get_device_list, ibv_alloc_pd, ibv_reg_mr, ibv_query_gid, ibv_query_port,
  ibv_create_qp, ibv_modify_qp, ibv_post_send, ibv_post_recv, ibv_poll_cq, ibv_destroy_cq,
  ibv_destroy_qp, ibv_dereg_mr,
}

-- A field's size and alignment.
pub record CField : Type 0 where
  pub size : ℕ
  pub align : ℕ

abbrev pub scalar : ℕ → CField
scalar n = record { size = n; align = n }

-- An array of bytes, or a struct that is packed.
abbrev pub bytes : ℕ → CField
bytes n = record { size = n; align = 1 }

-- A padded struct as a field: its alignment is that of its widest field.
abbrev round_up : ℕ → ℕ → ℕ
round_up n a = n + (a - n % a) % a

abbrev end_of : ℕ → List CField → ℕ
end_of n [] = n
end_of n (f ∷ fs) = end_of (round_up n f.align + f.size) fs

abbrev widest : List CField → ℕ
widest [] = 1
widest (f ∷ fs) = max f.align (widest fs)

abbrev pub sizeof : List CField → ℕ
sizeof fs = round_up (end_of 0 fs) (widest fs)

-- sizeof(void*), sizeof(size_t); sizeof(int), sizeof(uint32_t)
abbrev pub word : CField
word = scalar 8

abbrev pub int32 : CField
int32 = scalar 4

abbrev pub sizeof_host_key : ℕ
sizeof_host_key = 16 + 16

abbrev pub sizeof_conn_id : ℕ
sizeof_conn_id = sizeof_host_key + 4 + 4 + 4

abbrev pub sizeof_conn_info : ℕ
sizeof_conn_info = sizeof_conn_id + 2 + 2

abbrev pub sizeof_local_mem : ℕ
sizeof_local_mem = 8 * 5 + 100 + 4 + 8 + 4 + 4

-- struct ScaleReqHeader
abbrev pub header_fields : List CField
header_fields = int32 ∷ int32 ∷ int32 ∷ []

-- The struct that the handler of each function reads into `req_body`; `[]` where it reads none.
abbrev pub req_fields : FunctionCall → List CField
req_fields init_res = []
req_fields create_res = bytes sizeof_host_key ∷ []
req_fields reg_mr = bytes sizeof_conn_id ∷ bytes sizeof_local_mem ∷ []
req_fields setup_conn = bytes sizeof_conn_info ∷ []
req_fields post_send =
    bytes sizeof_conn_id ∷ int32 ∷ word ∷ word ∷ int32 ∷ int32 ∷ word ∷ int32 ∷ []
req_fields post_recv = bytes sizeof_conn_id ∷ int32 ∷ word ∷ word ∷ int32 ∷ []
req_fields poll_cq = bytes sizeof_conn_id ∷ int32 ∷ int32 ∷ []
req_fields dereg_mr = bytes sizeof_conn_id ∷ bytes sizeof_local_mem ∷ []
req_fields destroy_res = bytes sizeof_conn_id ∷ []
req_fields ibv_get_device_list = []
req_fields ibv_alloc_pd = []
req_fields ibv_reg_mr = int32 ∷ word ∷ word ∷ []
req_fields ibv_query_gid = []
req_fields ibv_query_port = []
req_fields ibv_create_qp = int32 ∷ int32 ∷ int32 ∷ []
req_fields ibv_modify_qp = bytes 16 ∷ scalar 2 ∷ int32 ∷ int32 ∷ int32 ∷ int32 ∷ []
req_fields ibv_post_send = int32 ∷ word ∷ int32 ∷ int32 ∷ int32 ∷ word ∷ word ∷ int32 ∷ []
req_fields ibv_post_recv = int32 ∷ word ∷ int32 ∷ int32 ∷ word ∷ []
req_fields ibv_poll_cq = int32 ∷ int32 ∷ int32 ∷ []
req_fields ibv_destroy_cq = int32 ∷ []
req_fields ibv_destroy_qp = int32 ∷ int32 ∷ []
req_fields ibv_dereg_mr = bytes 100 ∷ int32 ∷ int32 ∷ word ∷ word ∷ word ∷ []

-- The struct that each handler writes into `rsp`.
abbrev pub rsp_fields : FunctionCall → List CField
rsp_fields init_res = bytes sizeof_conn_info ∷ []
rsp_fields create_res = bytes sizeof_conn_id ∷ []
rsp_fields reg_mr = bytes sizeof_local_mem ∷ []
rsp_fields setup_conn = int32 ∷ scalar 1 ∷ []
rsp_fields post_send = int32 ∷ []
rsp_fields post_recv = int32 ∷ []
rsp_fields poll_cq = int32 ∷ int32 ∷ []
rsp_fields dereg_mr = bytes sizeof_local_mem ∷ []
rsp_fields destroy_res = bytes sizeof_conn_id ∷ []
rsp_fields ibv_get_device_list = int32 ∷ int32 ∷ bytes 64 ∷ bytes 64 ∷ bytes 256 ∷ bytes 256 ∷ []
rsp_fields ibv_alloc_pd = int32 ∷ []
rsp_fields ibv_reg_mr = int32 ∷ int32 ∷ int32 ∷ bytes 100 ∷ word ∷ word ∷ int32 ∷ []
rsp_fields ibv_query_gid = bytes 16 ∷ []
rsp_fields ibv_query_port =
    int32
    ∷ int32
    ∷ int32
    ∷ int32
    ∷ int32
    ∷ int32
    ∷ int32
    ∷ int32
    ∷ scalar 2
    ∷ scalar 2
    ∷ scalar 2
    ∷ bytes 1
    ∷ bytes 1
    ∷ bytes 1
    ∷ bytes 1
    ∷ bytes 1
    ∷ bytes 1
    ∷ bytes 1
    ∷ bytes 1
    ∷ bytes 1
    ∷ []
rsp_fields ibv_create_qp = int32 ∷ []
rsp_fields ibv_modify_qp = scalar 1 ∷ []
rsp_fields ibv_post_send = int32 ∷ []
rsp_fields ibv_post_recv = int32 ∷ []
rsp_fields ibv_poll_cq = int32 ∷ word ∷ int32 ∷ int32 ∷ int32 ∷ []
rsp_fields ibv_destroy_cq = scalar 1 ∷ []
rsp_fields ibv_destroy_qp = scalar 1 ∷ []
rsp_fields ibv_dereg_mr = scalar 1 ∷ []

-- `sizeof` of the request and of the response of a function; an empty request reads 0 bytes.
abbrev pub req_size : FunctionCall → ℕ
req_size f = sizeof (req_fields f)

abbrev pub rsp_size : FunctionCall → ℕ
rsp_size f = sizeof (rsp_fields f)
