-- ===== src/Router/Global.antt =====
-- scalerouter/scalerouter.cpp: init_global_res, destroy_global_res and the destructor of ScaleRouter.
use cs252aproject.Base.{
  ℕ, Bool, false, not, ◌||◌, Option, none, some, List, [], ◌∷◌, nat_beq, length, replicate,
  list_beq, if◌then◌else◌, nat_eq,
}
use cs252aproject.Base.Int.{ℤ, pos, is_zero, is_neg}
use cs252aproject.Common.Keys.{Gid}
use cs252aproject.Common.Messages.{PortAttr}
use cs252aproject.Router.State.{Config, Device, GlobalResources}

-- What `ibv_get_device_list` returns: the address of the array, and its devices
pub record DeviceList : Type 0 where
  pub ptr : ℕ
  pub devices : List Device

-- `ibv_pd`
pub record RouterPd : Type 0 where
  pub ptr : ℕ
  pub handle : ℕ

-- A call that gives a resource back
pub data Release : Type 0 where
  ibv_free_device_list : (list : ℕ) → Release
  ibv_dealloc_pd : (pd : ℕ) → Release
  ibv_close_device : (context : ℕ) → Release
  close : (fd : ℤ) → Release

-- The answers of libibverbs and of `epoll_create`: none is NULL. The result of a release depends on
-- the releases up to it.
pub record Platform : Type 0 where
  pub device_list : Option DeviceList
  pub open_device : Device → Option ℕ
  pub query_port : ℕ → ℕ → ℤ × PortAttr
  pub query_gid : ℕ → ℕ → ℤ → ℤ × Gid
  pub alloc_pd : ℕ → Option RouterPd
  pub epoll_create : ℤ
  pub release_rc : List Release → ℤ

-- `global_res` and `config.dev_name`; a pointer is `none` for NULL. `released` are the releases made,
-- newest first.
pub record Globals : Type 0 where
  pub dev_name : Option (List ℕ)
  pub ib_list : Option ℕ
  pub ib_dev : Option Device
  pub ib_ctx : Option ℕ
  pub port_attr : PortAttr
  pub src_lid : ℕ
  pub src_gid : Gid
  pub pd : Option RouterPd
  pub epoll_fd : ℤ
  pub released : List Release

-- An action of `init_global_res`; its result is none where it jumps to resources_create_exit.
abbrev pub Init : Type 0 → Type 0
Init A = Globals → Option A × Globals

module _ {A B : Type 0} where
  abbrev pub proceed : Option A → (A → Init B) → Init B
  proceed none f g = (none, g)
  proceed (some a) f g = f a g

  infixl 10 ◌>>=◌
  unfoldable pub ◌>>=◌ : Init A → (A → Init B) → Init B
  ◌>>=◌ m f g = let (r, g') = m g in proceed r f g'

abbrev pub zero_port : PortAttr
zero_port = record {
  state = 0;
  max_mtu = 0;
  active_mtu = 0;
  gid_tbl_len = pos 0;
  port_cap_flags = 0;
  max_msg_sz = 0;
  bad_pkey_cntr = 0;
  qkey_viol_cntr = 0;
  pkey_tbl_len = 0;
  lid = 0;
  sm_lid = 0;
  lmc = 0;
  max_vl_num = 0;
  sm_sl = 0;
  subnet_timeout = 0;
  init_type_reply = 0;
  active_width = 0;
  active_speed = 0;
  phys_state = 0;
  link_layer = 0;
}

-- memset(&global_res, 0, sizeof(global_res))
abbrev pub cleared : Globals → Globals
cleared g = record g {
  ib_list = none;
  ib_dev = none;
  ib_ctx = none;
  port_attr = zero_port;
  src_lid = 0;
  src_gid = replicate 16 0;
  pd = none;
  epoll_fd = pos 0;
}

-- The loop over the devices: the name that is looked for in the end, and the device
unfoldable pub find_device : Option (List ℕ) → List Device → Option (List ℕ) × Option Device
find_device name [] = (name, none)
find_device none (d ∷ devices) = (some d.name, some d)
find_device (some name) (d ∷ devices) =
    let rest = find_device (some name) devices in
    if list_beq d.name name then (some name, some d) else rest

module _ (p : Platform) (config : Config) where
  abbrev pub choose_from : DeviceList → Init Device
  choose_from list g =
      let (name, device) = find_device g.dev_name list.devices in
      elim device [
        | none ↦ (none, record g { dev_name = name })
        | some d ↦ (some d, record g { dev_name = name; ib_dev = some d; ib_list = some list.ptr })
      ]

  unfoldable pub choose_device : Init Device
  choose_device g = elim p.device_list [
    | none ↦ (none, g)
    | some list ↦ if nat_beq (length list.devices) 0 then (none, g) else choose_from list g
  ]

  unfoldable pub open_chosen : Device → Init ℕ
  open_chosen d g = (p.open_device d, record g { ib_ctx = p.open_device d })

  unfoldable pub read_port : ℕ → Init (Unit {0})
  read_port ctx g =
      let (rc, attr) = p.query_port ctx config.ib_port in
      if is_zero rc
      then (some tt, record g { port_attr = attr; src_lid = attr.lid })
      else (none, record g { port_attr = attr })

  unfoldable pub read_gid : ℕ → Init (Unit {0})
  read_gid ctx g =
      if is_neg config.gid_idx
      then (some tt, record g { src_gid = replicate 16 0 })
      else let (rc, gid) = p.query_gid ctx config.ib_port config.gid_idx in
        if is_zero rc
        then (some tt, record g { src_gid = gid })
        else (none, record g { src_gid = gid })

  unfoldable pub take_pd : ℕ → Init RouterPd
  take_pd ctx g = (p.alloc_pd ctx, record g { pd = p.alloc_pd ctx })

  unfoldable pub take_epoll : Init (Unit {0})
  take_epoll g =
      (if is_neg p.epoll_create then none else some tt, record g { epoll_fd = p.epoll_create })

  -- init_global_res up to resources_create_exit
  unfoldable pub set_up : Init (Unit {0})
  set_up = do
    d ← choose_device
    ctx ← open_chosen d
    read_port ctx >>= λ u. read_gid ctx >>= λ v. take_pd ctx >>= λ pd. take_epoll

-- A release: whether it failed
unfoldable pub release : Platform → Release → Globals → Bool × Globals
release p r g =
    let h = r ∷ g.released in (not (is_zero (p.release_rc h)), record g { released = h })

-- ibv_free_device_list has no result.
unfoldable pub drop_list : Globals → Globals
drop_list g = elim g.ib_list [
  | none ↦ g
  | some list ↦ record g {
    ib_list = none;
    ib_dev = none;
    released = ibv_free_device_list list ∷ g.released;
  }
]

module _ (p : Platform) where
  unfoldable pub drop_pd : Globals → Bool × Globals
  drop_pd g = elim g.pd [ none ↦ (false, g) | some pd ↦ release p (ibv_dealloc_pd pd.ptr) g ]

  unfoldable pub drop_ctx : Globals → Bool × Globals
  drop_ctx g = elim g.ib_ctx [ none ↦ (false, g) | some ctx ↦ release p (ibv_close_device ctx) g ]

  unfoldable pub drop_epoll : Globals → Bool × Globals
  drop_epoll g =
      if is_neg g.epoll_fd || is_zero g.epoll_fd then (false, g) else release p (close g.epoll_fd) g

  unfoldable pub destroy_global_res : Globals → ℤ × Globals
  destroy_global_res g =
      let (pd_failed, g1) = drop_pd (drop_list g) in
      let (ctx_failed, g2) = drop_ctx g1 in
      let (fd_failed, g3) = drop_epoll g2 in
      (if pd_failed || ctx_failed || fd_failed then pos 1 else pos 0, g3)

  unfoldable pub init_global_res : Config → Globals → ℤ × Globals
  init_global_res config g =
      let (r, g') = set_up p config (cleared g) in
      elim r [ some u ↦ (pos 0, g') | none ↦ (pos 1, (destroy_global_res g').1) ]

  -- `start` does not read the result of `init_global_res`; the destructor follows it.
  unfoldable pub whole_life : Config → Globals → Globals
  whole_life config g = (destroy_global_res (init_global_res config g).1).1

-- The parts of `global_res` that the handlers read: none if one of them is NULL
abbrev pub resources_of : Globals → Option GlobalResources
resources_of g = elim g.ib_dev [
  | none ↦ none
  | some d ↦ elim g.pd [
    | none ↦ none
    | some pd ↦ some (record {
      ib_dev = d;
      port_attr = g.port_attr;
      pd_handle = pd.handle;
      src_gid = g.src_gid;
      src_lid = g.src_lid;
    })
  ]
]
