-- ===== src/Client/Structs.antt =====
-- libscale/scale_type.h: the client's own declarations of the messages, and the sizes that
-- `request_router` of libscale/scale.c takes from them.
use cs252aproject.Base.{ℕ, ◌≡◌, refl, List, [], ◌∷◌, Option, none, some}
use cs252aproject.Common.Messages
use cs252aproject.Common.Messages.{FunctionCall}
use cs252aproject.Common.Layout.{CField, sizeof, scalar, bytes, int32, word, req_size, rsp_size}

-- The request and the response struct of a function; `none` is the `default` of the switch.
abbrev pub structs_of : FunctionCall → Option (List CField × List CField)
structs_of Messages.init_res = none
structs_of Messages.create_res = none
structs_of Messages.reg_mr = none
structs_of Messages.setup_conn = none
structs_of Messages.post_send = none
structs_of Messages.post_recv = none
structs_of Messages.poll_cq = none
structs_of Messages.dereg_mr = none
structs_of Messages.destroy_res = none
structs_of Messages.ibv_get_device_list =
    some ([], int32 ∷ int32 ∷ bytes 64 ∷ bytes 64 ∷ bytes 256 ∷ bytes 256 ∷ [])
structs_of Messages.ibv_alloc_pd = some ([], int32 ∷ [])
structs_of Messages.ibv_reg_mr =
    some (int32 ∷ word ∷ word ∷ [], int32 ∷ int32 ∷ int32 ∷ bytes 100 ∷ word ∷ word ∷ int32 ∷ [])
structs_of Messages.ibv_query_gid = some ([], bytes 16 ∷ [])
structs_of Messages.ibv_query_port = some (
  [],
  int32
      ∷ int32
      ∷ int32
      ∷ int32
      ∷ int32
      ∷ int32
      ∷ int32
      ∷ int32
      ∷ scalar 2
      ∷ scalar 2
      ∷ scalar 2
      ∷ bytes 9
      ∷ [],
)
structs_of Messages.ibv_create_qp = some (int32 ∷ int32 ∷ int32 ∷ [], int32 ∷ [])
structs_of Messages.ibv_modify_qp =
    some (bytes 16 ∷ scalar 2 ∷ int32 ∷ int32 ∷ int32 ∷ int32 ∷ [], scalar 1 ∷ [])
structs_of Messages.ibv_post_send =
    some (int32 ∷ word ∷ int32 ∷ int32 ∷ int32 ∷ word ∷ word ∷ int32 ∷ [], int32 ∷ [])
structs_of Messages.ibv_post_recv = some (int32 ∷ word ∷ int32 ∷ int32 ∷ word ∷ [], int32 ∷ [])
structs_of Messages.ibv_poll_cq =
    some (int32 ∷ int32 ∷ int32 ∷ [], int32 ∷ word ∷ int32 ∷ int32 ∷ int32 ∷ [])
structs_of Messages.ibv_destroy_cq = some (int32 ∷ [], scalar 1 ∷ [])
structs_of Messages.ibv_destroy_qp = some (int32 ∷ int32 ∷ [], scalar 1 ∷ [])
structs_of Messages.ibv_dereg_mr =
    some (bytes 100 ∷ int32 ∷ int32 ∷ word ∷ word ∷ word ∷ [], scalar 1 ∷ [])

-- `header.body_size` and `*rsp_size`
abbrev pub client_sizes : FunctionCall → Option (ℕ × ℕ)
client_sizes f = elim (structs_of f) [
  | none ↦ none
  | some (req, rsp) ↦ some (sizeof req, sizeof rsp)
]

-- The sizes that the router reads and writes, where the client has the function
abbrev pub router_sizes : FunctionCall → Option (ℕ × ℕ)
router_sizes f = elim (structs_of f) [ none ↦ none | some fields ↦ some (req_size f, rsp_size f) ]

-- For every function that the client has, it sends as many bytes as the router reads, and waits for
-- as many as the router writes.
pub sizes-agree : (f : FunctionCall) → client_sizes f ≡ router_sizes f
sizes-agree Messages.init_res = refl
sizes-agree Messages.create_res = refl
sizes-agree Messages.reg_mr = refl
sizes-agree Messages.setup_conn = refl
sizes-agree Messages.post_send = refl
sizes-agree Messages.post_recv = refl
sizes-agree Messages.poll_cq = refl
sizes-agree Messages.dereg_mr = refl
sizes-agree Messages.destroy_res = refl
sizes-agree Messages.ibv_get_device_list = refl
sizes-agree Messages.ibv_alloc_pd = refl
sizes-agree Messages.ibv_reg_mr = refl
sizes-agree Messages.ibv_query_gid = refl
sizes-agree Messages.ibv_query_port = refl
sizes-agree Messages.ibv_create_qp = refl
sizes-agree Messages.ibv_modify_qp = refl
sizes-agree Messages.ibv_post_send = refl
sizes-agree Messages.ibv_post_recv = refl
sizes-agree Messages.ibv_poll_cq = refl
sizes-agree Messages.ibv_destroy_cq = refl
sizes-agree Messages.ibv_destroy_qp = refl
sizes-agree Messages.ibv_dereg_mr = refl
