-- ===== src/Tests/Startup.antt =====
-- A platform with two devices, and the start of the router on it.
use cs252aproject.Base.{ℕ, ◌≡◌, ◌≤◌, refl, some, none, List, [], ◌∷◌, nat_eq}
use cs252aproject.Base.Int.{pos}
use cs252aproject.Router.State.{Device}
use cs252aproject.Router.Global.{
  Platform, Globals, zero_port, find_device, choose_device, open_chosen, read_port, read_gid,
  take_pd, take_epoll, set_up, release, drop_list, drop_pd, drop_ctx, drop_epoll,
  destroy_global_res, init_global_res, whole_life, ◌>>=◌,
}
use cs252aproject.Router.Startup.{IsUp, init_global_res-IsUp}
use cs252aproject.Router.Teardown.{closes, init_global_res-closes}
use cs252aproject.Router.Options
use cs252aproject.Router.Options.{
  Settings, IsSettings, default_settings, last_settings, last_of, parse, parse_lem,
}
use cs252aproject.Tests.World.{own_config, own_gid, own_port}

abbrev device_called : List ℕ → Device
device_called name = record {
  node_type = 1;
  transport_type = 0;
  name = name;
  dev_name = name;
  dev_path = [];
  ibdev_path = [];
}

abbrev mlx : List ℕ
mlx = 109 ∷ 108 ∷ 120 ∷ []

abbrev rxe : List ℕ
rxe = 114 ∷ 120 ∷ 101 ∷ []

abbrev both : List Device
both = device_called mlx ∷ device_called rxe ∷ []

abbrev platform : Platform
platform = record {
  device_list = some (record { ptr = 500; devices = both });
  open_device = λ d. some 600;
  query_port = λ ctx port. (pos 0, own_port);
  query_gid = λ ctx port index. (pos 0, own_gid);
  alloc_pd = λ ctx. some (record { ptr = 700; handle = 9 });
  epoll_create = pos 4;
  release_rc = λ h. pos 0;
}

abbrev dead_port : Platform
dead_port = record platform { query_port = λ ctx port. (pos 22, zero_port) }

abbrev before : Globals
before = record {
  dev_name = some rxe;
  ib_list = none;
  ib_dev = none;
  ib_ctx = none;
  port_attr = zero_port;
  src_lid = 0;
  src_gid = [];
  pd = none;
  epoll_fd = pos 0;
  released = [];
}

abbrev running : Globals
running = (init_global_res platform own_config before).1

starts : init_global_res platform own_config before ≡ (pos 0, running)
unfolding init_global_res set_up find_device choose_device open_chosen read_port read_gid take_pd
    take_epoll ◌>>=◌
starts = refl

init_global_res-IsUp_example : IsUp platform own_config before running
init_global_res-IsUp_example = init_global_res-IsUp platform own_config before running starts

abbrev failing : Globals
failing = (init_global_res dead_port own_config before).1

fails : init_global_res dead_port own_config before ≡ (pos 1, failing)
unfolding init_global_res set_up find_device choose_device open_chosen read_port read_gid take_pd
    take_epoll destroy_global_res drop_list drop_pd drop_ctx drop_epoll release ◌>>=◌
fails = refl

still_open : failing.ib_ctx ≡ some 600
unfolding init_global_res set_up find_device choose_device open_chosen read_port read_gid take_pd
    take_epoll destroy_global_res drop_list drop_pd drop_ctx drop_epoll release ◌>>=◌
still_open = refl

init_global_res-closes_example : 2 ≤ closes 600 (whole_life dead_port own_config before).released
init_global_res-closes_example =
    init_global_res-closes dead_port own_config before failing 600 fails still_open

abbrev choices : List Options.Choice
choices =
    Options.ib_dev rxe ∷ Options.gid_idx 1 ∷ Options.port 0x1_0000_4854 ∷ Options.gid_idx 5 ∷ []

abbrev chosen : Settings
chosen = record default_settings { dev_name = some rxe; tcp_port = 0x4854; gid_idx = pos 5 }

accepts : parse choices default_settings ≡ some chosen
unfolding parse
accepts = refl

parse_lem_example : IsSettings chosen × (chosen ≡ last_settings choices default_settings)
parse_lem_example = parse_lem choices chosen accepts
