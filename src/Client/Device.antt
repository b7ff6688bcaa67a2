-- ===== src/Client/Device.antt =====
-- libscale/verbs.c: the device, its protection domain and its attributes, as the router has them.
use cs252aproject.Base.{ℕ, Option, none, some, List, replicate}
use cs252aproject.Base.Int.{ℤ, pos, negsuc}
use cs252aproject.Common.Keys.{Gid}
use cs252aproject.Common.Messages
use cs252aproject.Common.Messages.{Response, PortAttr, IbvGetDeviceListRsp}
use cs252aproject.Client.State.{
  Transport, garbled, Verb, done_with, stop, updates, request, cq_qp_map_len, ◌>>=◌, ◌>>◌,
}

-- struct ibv_context with what ibv_open_device sets, its three operations aside
pub record Context : Type 0 where
  pub device : IbvGetDeviceListRsp
  pub cmd_fd : ℤ

-- struct ibv_pd
pub record Pd : Type 0 where
  pub context : Context
  pub handle : ℕ

-- ibv_get_device_name
abbrev pub ibv_get_device_name : IbvGetDeviceListRsp → List ℕ
ibv_get_device_name device = device.name

-- ibv_open_device
abbrev pub ibv_open_device : IbvGetDeviceListRsp → Context
ibv_open_device device = record { device = device; cmd_fd = pos 1 }

module _ {S : Type 0} (t : Transport S) where
  abbrev pub after_list : Option Response → Verb S (Option IbvGetDeviceListRsp)
  after_list none = done_with none
  after_list (some (Messages.ibv_get_device_list_rsp device)) = do
    updates (λ p. record p { cq_qp_map = replicate cq_qp_map_len 0 })
    done_with (some device)
  after_list (some _) = stop garbled

  -- ibv_get_device_list: the one device of the list, and the reset of `cq_qp_map`
  unfoldable pub ibv_get_device_list : Verb S (Option IbvGetDeviceListRsp)
  ibv_get_device_list = do rsp ← request t Messages.ibv_get_device_list_req; after_list rsp

  abbrev pub after_alloc : Context → Option Response → Verb S (Option Pd)
  after_alloc ctx none = done_with none
  after_alloc ctx (some (Messages.ibv_alloc_pd_rsp handle)) =
      done_with (some (record { context = ctx; handle = handle }))
  after_alloc ctx (some _) = stop garbled

  -- ibv_alloc_pd
  unfoldable pub ibv_alloc_pd : Context → Verb S (Option Pd)
  ibv_alloc_pd ctx = do rsp ← request t Messages.ibv_alloc_pd_req; after_alloc ctx rsp

  abbrev pub after_gid : Option Response → Verb S (ℤ × Option Gid)
  after_gid none = done_with (negsuc 0, none)
  after_gid (some (Messages.ibv_query_gid_rsp gid)) = done_with (pos 0, some gid)
  after_gid (some _) = stop garbled

  -- ibv_query_gid: the result, and what it writes into `*gid`
  unfoldable pub ibv_query_gid : Verb S (ℤ × Option Gid)
  ibv_query_gid = do rsp ← request t Messages.ibv_query_gid_req; after_gid rsp

  abbrev pub after_port : Option Response → Verb S (ℤ × Option PortAttr)
  after_port none = done_with (negsuc 0, none)
  after_port (some (Messages.ibv_query_port_rsp attr)) = done_with (pos 0, some attr)
  after_port (some _) = stop garbled

  -- ibv_query_port: every field of the response is copied.
  unfoldable pub ibv_query_port : Verb S (ℤ × Option PortAttr)
  ibv_query_port = do rsp ← request t Messages.ibv_query_port_req; after_port rsp
