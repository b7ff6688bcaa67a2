-- ===== src/Router/Handlers/Query.antt =====
-- scalerouter/scalerouter.cpp: IBV_GET_DEVICE_LIST, IBV_ALLOC_PD, IBV_QUERY_GID and IBV_QUERY_PORT
-- of `handle_process`, which answer from `global_res` and read no body.
use cs252aproject.Common.Messages.{
  Response, ibv_get_device_list, IbvGetDeviceListRsp, ibv_get_device_list_rsp, ibv_alloc_pd_rsp,
  ibv_query_gid_rsp, ibv_query_port_rsp,
}
use cs252aproject.Base.{◌&&◌, ltb}
use cs252aproject.Common.Layout.{rsp_size}
use cs252aproject.Common.Buffer.{small_buffer}
use cs252aproject.Router.State.{GlobalResources}
use cs252aproject.Router.Exec.{Exec, gets, fail, undefined, when, ◌>>=◌, ◌>>◌}

abbrev pub device_list_of : GlobalResources → IbvGetDeviceListRsp
device_list_of g = record {
  node_type = g.ib_dev.node_type;
  transport_type = g.ib_dev.transport_type;
  name = g.ib_dev.name;
  dev_name = g.ib_dev.dev_name;
  dev_path = g.ib_dev.dev_path;
  ibdev_path = g.ib_dev.ibdev_path;
}

-- case IBV_GET_DEVICE_LIST. Its response is written over the end of the small buffer.
unfoldable pub handle_ibv_get_device_list : Exec Response
handle_ibv_get_device_list = do
  small ← gets (λ s. s.config.disable_rdma)
  when (small && ltb small_buffer (rsp_size ibv_get_device_list)) (fail undefined)
  gets (λ s. ibv_get_device_list_rsp (device_list_of s.global_res))

-- case IBV_ALLOC_PD
unfoldable pub handle_ibv_alloc_pd : Exec Response
unfolding gets
handle_ibv_alloc_pd = gets (λ s. ibv_alloc_pd_rsp s.global_res.pd_handle)

-- case IBV_QUERY_GID
unfoldable pub handle_ibv_query_gid : Exec Response
unfolding gets
handle_ibv_query_gid = gets (λ s. ibv_query_gid_rsp s.global_res.src_gid)

-- case IBV_QUERY_PORT
unfoldable pub handle_ibv_query_port : Exec Response
unfolding gets
handle_ibv_query_port = gets (λ s. ibv_query_port_rsp s.global_res.port_attr)
