-- ===== src/Router/Exec.antt =====
-- A handler's code as an action on the router. `killed` is `goto kill`, `blocked` a wait for a
-- mutex that no running handler will release, `undefined` a use of a NULL or freed pointer.
use cs252aproject.Base.{ℕ, Bool, true, false, Option, none, some, List, ◌∷◌, if◌then◌else◌, nat_eq}
use cs252aproject.Base.Map.{find, insert, erase}
use cs252aproject.Router.State.{Router, Locks, Call, ConnResources}

pub data Fault : Type 0 where
  killed blocked undefined : Fault

pub data Result {ℓ} (A : Type ℓ) : Type ℓ where
  ok : A → Result A
  err : Fault → Result A

abbrev pub Exec : Type 0 → Type 0
Exec A = Router → Result A × Router

module _ {A : Type 0} where
  unfoldable pub pure : A → Exec A
  pure a s = (ok a, s)

  unfoldable pub fail : Fault → Exec A
  fail f s = (err f, s)

  unfoldable pub lift : Result A → Exec A
  lift r s = (r, s)

  unfoldable pub gets : (Router → A) → Exec A
  gets f s = (ok (f s), s)

  -- A call of outside code; its answer is a function of the history.
  unfoldable pub perform : Call → (List Call → A) → Exec A
  perform c answer s = let h = c ∷ s.calls in (ok (answer h), record s { calls = h })

unfoldable pub modify : (Router → Router) → Exec (Unit {0})
modify f s = (ok tt, f s)

module _ {A B : Type 0} where
  abbrev pub continue : Result A → (A → Exec B) → Exec B
  continue (ok a) f s = f a s
  continue (err c) f s = (err c, s)

  infixl 10 ◌>>=◌ ◌>>◌
  unfoldable pub ◌>>=◌ : Exec A → (A → Exec B) → Exec B
  unfolding pure fail lift gets modify perform
  ◌>>=◌ m f s = let (r, s') = m s in continue r f s'

  abbrev pub ◌>>◌ : Exec A → Exec B → Exec B
  m >> n = m >>= λ _. n

abbrev pub when : Bool → Exec (Unit {0}) → Exec (Unit {0})
when true m = m
when false m = pure tt

abbrev pub or_fail {ℓ} : {A : Type ℓ} → Option A → Fault → Result A
or_fail none e = err e
or_fail (some a) e = ok a

pub data Mutex : Type 0 where
  hostmap shmmap connmap cq_qp src_qp dst_qp lkey_offset : Mutex

abbrev pub is_locked : Mutex → Locks → Bool
is_locked hostmap l = l.hostmap
is_locked shmmap l = l.shmmap
is_locked connmap l = l.connmap
is_locked cq_qp l = l.cq_qp
is_locked src_qp l = l.src_qp
is_locked dst_qp l = l.dst_qp
is_locked lkey_offset l = l.lkey_offset

abbrev pub set_locked : Mutex → Bool → Locks → Locks
set_locked hostmap b l = record l { hostmap = b }
set_locked shmmap b l = record l { shmmap = b }
set_locked connmap b l = record l { connmap = b }
set_locked cq_qp b l = record l { cq_qp = b }
set_locked src_qp b l = record l { src_qp = b }
set_locked dst_qp b l = record l { dst_qp = b }
set_locked lkey_offset b l = record l { lkey_offset = b }

-- pthread_mutex_lock(&router->...maplock.mutex)
unfoldable pub lock : Mutex → Exec (Unit {0})
lock m s =
    if is_locked m s.locks
    then (err blocked, s)
    else (ok tt, record s { locks = set_locked m true s.locks })

-- pthread_mutex_unlock
unfoldable pub unlock : Mutex → Exec (Unit {0})
unlock m s = (ok tt, record s { locks = set_locked m false s.locks })

-- `conn->...`: a read of the object at an address; a freed one is undefined behaviour.
unfoldable pub deref : ℕ → Exec ConnResources
deref p s = (or_fail (find s.conns p) undefined, s)

-- A write of the object at an address that has been read.
unfoldable pub store : ℕ → ConnResources → Exec (Unit {0})
store p c s = (ok tt, record s { conns = insert s.conns p c })

-- free(conn)
unfoldable pub free : ℕ → Exec (Unit {0})
free p s = (ok tt, record s { conns = erase s.conns p })

-- calloc(1, sizeof(struct conn_resources)) that succeeds, filled with a first value
unfoldable pub alloc : ConnResources → Exec ℕ
alloc c s = (
  ok s.next_conn,
  record s { conns = insert s.conns s.next_conn c; next_conn = Prim.Native.Nat.suc s.next_conn },
)

-- A pointer that is used without a test: NULL is undefined behaviour.
abbrev pub non_null : {A : Type 0} → Option A → Exec A
non_null none = fail undefined
non_null (some a) = pure a

-- What a map holds for a key, read under its mutex; the mutex is released, and then a missing
-- value is `goto kill`.
unfoldable pub locked_find : {A : Type 0} → Mutex → (Router → Option A) → Exec A
unfolding lock unlock ◌>>=◌
locked_find m f = do lock m; r ← gets f; unlock m; lift (or_fail r killed)

-- pthread_mutex_lock(&conn->mutex)
unfoldable pub lock_conn : ℕ → Exec ConnResources
unfolding deref store ◌>>=◌
lock_conn p = do
  c ← deref p
  let held = record c { locked = true }
  if c.locked then fail blocked else (do store p held; pure held)

-- pthread_mutex_unlock(&conn->mutex)
unfoldable pub unlock_conn : ℕ → Exec (Unit {0})
unfolding deref store ◌>>=◌
unlock_conn p = do c ← deref p; store p (record c { locked = false })
