-- ===== src/Router/Invariant/Defs.antt =====
-- The invariant of the router between requests of the IBV_ functions.
use cs252aproject.Base.{ℕ, ◌≤◌, ◌<◌, ◌≡◌, Bool, true, false, Option, none, some, nat_eq}
use cs252aproject.Base.Map.{Map, find}
use cs252aproject.Common.Keys.{HostKey, host_key_eq}
use cs252aproject.Router.State.{Router, ConnResources, Qp, Locks, unlocked}
use cs252aproject.Router.Exec.{Fault, killed, blocked, undefined}
use cs252aproject.Router.Invariant.Users.{users}

-- What the invariant reads of a router.
pub record Core : Type 0 where
  pub locks : Locks
  pub host_map : Map HostKey (Option ℕ)
  pub src_qp_map : Map ℕ HostKey
  pub conns : Map ℕ ConnResources
  pub next_conn : ℕ

abbrev pub core_of : Router → Core
core_of s = record {
  locks = s.locks;
  host_map = s.host_map;
  src_qp_map = s.src_qp_map;
  conns = s.conns;
  next_conn = s.next_conn;
}

-- An object that serves requests: it is unlocked, it has a completion queue and a queue pair, and
-- somebody uses it.
pub record IsServing (r : ConnResources) : Type 0 where
  pub free : r.locked ≡ false
  pub qp : Qp
  pub has_qp : r.qp ≡ some qp
  pub cq : ℕ
  pub has_cq : r.cq ≡ some cq
  pub used : 0 < r.ref_cnt
  pub fits : r.ref_cnt < 0x1_0000_0000

-- The entry of a host key leads to an allocated object.
abbrev pub Serves : Core → HostKey → ℕ → ConnResources → Type 0
Serves c key p r = (find c.host_map key ≡ some (some p)) × (find c.conns p ≡ some r)

pub record IsSound (c : Core) : Type 0 where
  pub free_locks : c.locks ≡ unlocked
  -- every entry of `host_map` leads to an object that serves requests
  pub entries :
      (key : HostKey) (slot : Option ℕ)
      → find c.host_map key ≡ some slot
      → (p : ℕ) × (r : ConnResources) × Serves c key p r × IsServing r
  -- no object is shared by two host keys
  pub alone :
      (k j : HostKey) (p : ℕ)
      → find c.host_map k ≡ some (some p)
      → find c.host_map j ≡ some (some p)
      → k ≡ j
  -- nothing is allocated at an address not given out yet
  pub fresh : (p : ℕ) → c.next_conn ≤ p → find c.conns p ≡ none
  -- a host key with users has an object, whose reference count covers them
  pub orphans : (key : HostKey) → find c.host_map key ≡ none → users key c.src_qp_map ≡ 0
  pub counted :
      (key : HostKey) (p : ℕ) (r : ConnResources)
      → Serves c key p r
      → users key c.src_qp_map ≤ r.ref_cnt

abbrev pub Sound : Router → Type 0
Sound s = IsSound (core_of s)

-- The faults of a sound router: it may close the connection, and where `waits` it may wait for
-- ever; it never uses a NULL or freed pointer, and never waits for a mutex.
abbrev pub Fails : Bool → Fault → Router → Type 0
Fails waits killed s = Sound s
Fails waits blocked s = (waits ≡ true) × Sound s
Fails waits undefined s = ⊥
