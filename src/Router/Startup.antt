-- ===== src/Router/Startup.antt =====
-- What `init_global_res` finds and takes, and what it and the destructor give back.
use mathlib.Core.Path.{subst}
use cs252aproject.Base.{
  ℕ, ◌≡◌, ◌≢◌, ◌↔◌, ◌⊎◌, inl, inr, refl, ap, true, ◌||◌, Option, none, some, List, [], ◌∷◌, ◌++◌,
  nat_beq, nat_eq, length, get_elem?, replicate, list_beq, list_beq_iff, if◌then◌else◌, Bool-cases,
  Option-cases,
}
use cs252aproject.Base.Int.{ℤ, pos, is_zero, is_neg}
use cs252aproject.Common.Keys.{Gid}
use cs252aproject.Router.State.{Config, Device}
use cs252aproject.Router.Global.{
  DeviceList, RouterPd, ibv_free_device_list, ibv_dealloc_pd, ibv_close_device, close, Platform,
  Globals, Init, proceed, choose_from, cleared, find_device, choose_device, open_chosen, read_port,
  read_gid, take_pd, take_epoll, set_up, release, drop_list, drop_pd, drop_ctx, drop_epoll,
  destroy_global_res, init_global_res, resources_of, ◌>>=◌,
}

-- A device is the first one of a list with a name.
abbrev IsFirst : List ℕ → List Device → Device → Type 0
IsFirst name [] d = none ≡ some d
IsFirst name (e ∷ devices) d =
    ((e.name ≡ name) × (e ≡ d)) ⊎ ((e.name ≢ name) × IsFirst name devices d)

-- With a configured name, the device that is found is the first one that has it, and one is found
-- if there is one.
find_device_iff :
    (name : List ℕ) (devices : List Device) (d : Device)
    → ((find_device (some name) devices).1 ≡ some d) ↔ IsFirst name devices d
unfolding find_device
find_device_iff name [] d = (λ e. absurd (cc e), λ e. absurd (cc e))
find_device_iff name (x ∷ devices) d =
    let rest = find_device_iff name devices d in
    let same = list_beq_iff x.name name in
    elim (Bool-cases (list_beq x.name name)) [
      | inl equal ↦ rw equal (
        λ e. inl (same.0 equal, cc e),
        λ h. elim h [ inl here ↦ cc here.1 | inr later ↦ absurd (later.0 (same.0 equal)) ],
      )
      | inr other ↦ rw other (
        λ e. inr (λ equal. cc (same.1 equal, other), rest.0 e),
        λ h. elim h [ inl here ↦ absurd (cc (same.1 here.0, other)) | inr later ↦ rest.1 later.1 ],
      )
    ]

-- The device that is chosen: the first one with the configured name, or the first one of all
abbrev pub IsChosen : Option (List ℕ) → List Device → Device → Type 0
IsChosen (some name) devices d = IsFirst name devices d
IsChosen none devices d = get_elem? devices 0 ≡ some d

find_device-IsChosen :
    (name : Option (List ℕ)) (devices : List Device) (d : Device)
    → (find_device name devices).1 ≡ some d
    → IsChosen name devices d
unfolding find_device
find_device-IsChosen (some name) devices d e = (find_device_iff name devices d).0 e
find_device-IsChosen none [] d e = e
find_device-IsChosen none (x ∷ devices) d e = e

-- The GID of the router: it is asked for unless the index is negative.
abbrev pub gid_of : Platform → Config → ℕ → Gid
gid_of p config ctx =
    if is_neg config.gid_idx
    then replicate 16 0
    else (p.query_gid ctx config.ib_port config.gid_idx).1

-- What an initialisation that succeeds has taken from the platform, what the router has of it, and
-- what the destructor gives back
pub record IsUp (p : Platform) (config : Config) (start up : Globals) : Type 0 where
  pub list : DeviceList
  pub device : Device
  pub ctx : ℕ
  pub pd : RouterPd
  pub listed : p.device_list ≡ some list
  pub chosen : IsChosen start.dev_name list.devices device
  pub opened : p.open_device device ≡ some ctx
  pub allocated : p.alloc_pd ctx ≡ some pd
  pub queried : is_zero (p.query_port ctx config.ib_port).0 ≡ true
  pub resources :
      resources_of up
      ≡ some (record {
        ib_dev = device;
        port_attr = (p.query_port ctx config.ib_port).1;
        pd_handle = pd.handle;
        src_gid = gid_of p config ctx;
        src_lid = (p.query_port ctx config.ib_port).1.lid;
      })
  pub given_back :
      (destroy_global_res p up).1.released
      ≡ (if is_neg p.epoll_create || is_zero p.epoll_create then [] else close p.epoll_create ∷ [])
        ++ ibv_close_device ctx
          ∷ ibv_dealloc_pd pd.ptr
          ∷ ibv_free_device_list list.ptr
          ∷ start.released

drop_epoll-released :
    (p : Platform) (g : Globals)
    → (drop_epoll p g).1.released
      ≡ (if is_neg g.epoll_fd || is_zero g.epoll_fd then [] else close g.epoll_fd ∷ [])
        ++ g.released
unfolding drop_epoll release
drop_epoll-released p g = elim (Bool-cases (is_neg g.epoll_fd || is_zero g.epoll_fd)) [
  | inl none_open ↦ rw none_open refl
  | inr opened ↦ rw opened refl
]

module _ (p : Platform) (config : Config) (g : Globals) where
  abbrev Up : Option (Unit {0}) × Globals → Type 0
  Up (none, up) = Unit
  Up (some u, up) = IsUp p config g up

  module _ (list : DeviceList) (d : Device) (ctx : ℕ) (listed : p.device_list ≡ some list)
      (chosen : (find_device g.dev_name list.devices).1 ≡ some d)
      (opened : p.open_device d ≡ some ctx)
      (queried : is_zero (p.query_port ctx config.ib_port).0 ≡ true) where
    abbrev with_gid : Gid → Globals
    with_gid gid = record (cleared g) {
      dev_name = (find_device g.dev_name list.devices).0;
      ib_dev = some d;
      ib_list = some list.ptr;
      ib_ctx = some ctx;
      port_attr = (p.query_port ctx config.ib_port).1;
      src_lid = (p.query_port ctx config.ib_port).1.lid;
      src_gid = gid;
    }

    module _ (gid : Gid) (is_gid : gid ≡ gid_of p config ctx) where
      epoll-Up :
          (pd : RouterPd)
          → p.alloc_pd ctx ≡ some pd
          → Up (take_epoll p config (record (with_gid gid) { pd = some pd }))
      unfolding take_epoll destroy_global_res drop_list drop_pd drop_ctx release
      epoll-Up pd allocated = elim (Bool-cases (is_neg p.epoll_create)) [
        | inl failed ↦ rw (failed, Up) tt
        | inr fine ↦
            rw (fine, Up)
              (record {
                list = list;
                device = d;
                ctx = ctx;
                pd = pd;
                listed = listed;
                chosen = find_device-IsChosen g.dev_name list.devices d chosen;
                opened = opened;
                allocated = allocated;
                queried = queried;
                resources =
                    ap
                      (λ x. some (record {
                        ib_dev = d;
                        port_attr = (p.query_port ctx config.ib_port).1;
                        pd_handle = pd.handle;
                        src_gid = x;
                        src_lid = (p.query_port ctx config.ib_port).1.lid;
                      }))
                      is_gid;
                given_back = drop_epoll-released p _;
              })
      ]

      last-Up : Up ((take_pd p config ctx >>= λ pd. take_epoll p config) (with_gid gid))
      unfolding take_pd ◌>>=◌
      last-Up = elim (Option-cases (p.alloc_pd ctx)) [
        | inl missing ↦ rw (missing, Up) tt
        | inr (pd, allocated) ↦ rw (allocated, Up) (epoll-Up pd allocated)
      ]

    read_gid-Up : Up (
        (read_gid p config ctx >>= λ v. take_pd p config ctx >>= λ pd. take_epoll p config)
          (with_gid (replicate 16 0)))
    unfolding read_gid ◌>>=◌
    read_gid-Up = elim (Bool-cases (is_neg config.gid_idx)) [
      | inl unused ↦ rw (unused, Up) (last-Up (replicate 16 0) (rw unused refl))
      | inr used ↦ elim (Bool-cases (is_zero (p.query_gid ctx config.ib_port config.gid_idx).0)) [
        | inl found ↦
            rw (used, found, Up)
              (last-Up (p.query_gid ctx config.ib_port config.gid_idx).1 (rw used refl))
        | inr failed ↦ rw (used, failed, Up) tt
      ]
    ]

  abbrev after_open : ℕ → Init (Unit {0})
  after_open ctx = read_port p config ctx >>= λ u.
      read_gid p config ctx >>= λ v. take_pd p config ctx >>= λ pd. take_epoll p config

  module _ (list : DeviceList) (d : Device) (listed : p.device_list ≡ some list)
      (chosen : (find_device g.dev_name list.devices).1 ≡ some d) where
    abbrev with_device : Globals
    with_device = record (cleared g) {
      dev_name = (find_device g.dev_name list.devices).0;
      ib_dev = some d;
      ib_list = some list.ptr;
    }

    read_port-Up :
        (ctx : ℕ)
        → p.open_device d ≡ some ctx
        → Up (after_open ctx (record with_device { ib_ctx = some ctx }))
    unfolding read_port ◌>>=◌
    read_port-Up ctx opened = elim (Bool-cases (is_zero (p.query_port ctx config.ib_port).0)) [
      | inl queried ↦ rw (queried, Up) (read_gid-Up list d ctx listed chosen opened queried)
      | inr failed ↦ rw (failed, Up) tt
    ]

    open-Up : Up ((open_chosen p config d >>= after_open) with_device)
    unfolding open_chosen ◌>>=◌
    open-Up = elim (Option-cases (p.open_device d)) [
      | inl missing ↦ rw (missing, Up) tt
      | inr (ctx, opened) ↦ rw (opened, Up) (read_port-Up ctx opened)
    ]

  abbrev device_of : Option DeviceList → Init Device
  device_of o start = elim o [
    | none ↦ (none, start)
    | some list ↦
        if nat_beq (length list.devices) 0 then (none, start) else choose_from p config list start
  ]

  abbrev picked : DeviceList → Option Device → Option Device × Globals
  picked list o = elim o [
    | none ↦ (none, record (cleared g) { dev_name = (find_device g.dev_name list.devices).0 })
    | some d ↦ (
      some d,
      record (cleared g) {
        dev_name = (find_device g.dev_name list.devices).0;
        ib_dev = some d;
        ib_list = some list.ptr;
      },
    )
  ]

  chosen-Up :
      (list : DeviceList) (o : Option Device)
      → p.device_list ≡ some list
      → (find_device g.dev_name list.devices).1 ≡ o
      → Up (let x = picked list o in proceed x.0 (λ d. open_chosen p config d >>= after_open) x.1)
  chosen-Up list none listed chosen = tt
  chosen-Up list (some d) listed chosen = open-Up list d listed chosen

  listed-Up :
      (o : Option DeviceList)
      → p.device_list ≡ o
      → Up (
          let x = device_of o (cleared g) in
          proceed x.0 (λ d. open_chosen p config d >>= after_open) x.1)
  listed-Up none e = tt
  listed-Up (some list) listed = elim (Bool-cases (nat_beq (length list.devices) 0)) [
    | inl empty ↦ rw (empty, Up) tt
    | inr filled ↦ rw (filled, Up) (chosen-Up list _ listed refl)
  ]

  set_up-Up : Up (set_up p config (cleared g))
  unfolding set_up choose_device ◌>>=◌
  set_up-Up = listed-Up p.device_list refl

  abbrev finished : Option (Unit {0}) × Globals → ℤ × Globals
  finished x = elim x.0 [ some u ↦ (pos 0, x.1) | none ↦ (pos 1, (destroy_global_res p x.1).1) ]

  ended :
      (x : Option (Unit {0}) × Globals) (up : Globals)
      → Up x
      → finished x ≡ (pos 0, up)
      → IsUp p config g up
  ended (none, y) up h e = absurd (cc e)
  ended (some u, y) up h e = let same : y ≡ up = ap (λ z. z.1) e in subst (IsUp p config g) same h

  -- When init_global_res returns 0, the device is the first one with the configured name, or the
  -- first one of all where no name is configured, the port has been queried, the GID has been
  -- queried unless its index is negative, every part that the handlers read is there, and
  -- destroy_global_res gives each of the resources back once, except an epoll descriptor that is 0,
  -- which it does not close.
  pub init_global_res-IsUp :
      (up : Globals) → init_global_res p config g ≡ (pos 0, up) → IsUp p config g up
  unfolding init_global_res
  init_global_res-IsUp up e = ended (set_up p config (cleared g)) up set_up-Up e
