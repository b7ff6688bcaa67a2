-- ===== src/Router/Listeners.antt =====
-- scalerouter/scalerouter.cpp: `listen_remote_router` and `listen_local_process`, the two threads that
-- `start` makes. Each opens a socket, and starts one thread for each connection that it accepts.
use cs252aproject.Base.{
  ℕ, zero, suc, Bool, true, false, not, ◌&&◌, Option, none, some, List, [], ◌∷◌, if◌then◌else◌,
}
use cs252aproject.Base.Int.{ℤ, is_zero, is_neg, is_minus_one}

-- The Unix socket at AGENT_DOMAIN, or one entry of the list of `getaddrinfo`
pub data Address : Type 0 where
  unix : Address
  inet : (entry : ℕ) → Address

pub data NetCall : Type 0 where
  getaddrinfo freeaddrinfo unlink pthread_detach : NetCall
  socket : Address → NetCall
  setsockopt close accept : (fd : ℤ) → NetCall
  bind : (fd : ℤ) → Address → NetCall
  listen : (fd : ℤ) (backlog : ℕ) → NetCall
  pthread_create : (fd : ℤ) → NetCall

-- What the system answers: each answer depends on all calls up to and with the one that is answered.
pub record Os : Type 0 where
  pub rc : List NetCall → ℤ
  -- the list that `getaddrinfo` fills in
  pub addresses : List NetCall → List ℕ

-- The calls made, and the connections whose threads were started, newest first
pub record Listener : Type 0 where
  pub calls : List NetCall
  pub handlers : List ℤ

abbrev pub idle : Listener
idle = record { calls = []; handlers = [] }

abbrev pub Net : Type 0 → Type 0
Net A = Listener → A × Listener

unfoldable pub done : {A : Type 0} → A → Net A
done a l = (a, l)

module _ {A B : Type 0} where
  infixl 10 ◌>>=◌ ◌>>◌
  unfoldable pub ◌>>=◌ : Net A → (A → Net B) → Net B
  ◌>>=◌ m f l = let (a, l') = m l in f a l'

  abbrev pub ◌>>◌ : Net A → Net B → Net B
  m >> n = m >>= λ _. n

abbrev pub accepted_remote : ℤ → Bool
accepted_remote fd = not (is_minus_one fd)

abbrev pub accepted_local : ℤ → Bool
accepted_local fd = not (is_neg fd) && not (is_zero fd)

module _ (os : Os) where
  unfoldable pub ask : NetCall → Net ℤ
  ask c l = let h = c ∷ l.calls in (os.rc h, record l { calls = h })

  -- The thread of one connection. That it cannot be started is only logged.
  unfoldable pub start_handler : ℤ → Net (Unit {0})
  unfolding ask
  start_handler fd l =
      let (rc, l') = ask (pthread_create fd) l in
      let started = if is_zero rc then record l' { handlers = fd ∷ l'.handlers } else l' in
      (tt, (ask pthread_detach started).1)

  -- The rounds of `while (true)` in which `accept` returns
  unfoldable pub accept_loop : (ℤ → Bool) → ℕ → ℤ → Net (Unit {0})
  accept_loop accepted zero fd = done tt
  accept_loop accepted (suc rounds) fd = do
    conn ← ask (accept fd)
    (if accepted conn then start_handler conn else done tt) >>= λ u. accept_loop accepted rounds fd

  -- The loop over the addresses: the first socket that can be bound. One that cannot stays open.
  unfoldable pub bind_first : List ℕ → Net (Option ℤ)
  bind_first [] = done none
  bind_first (a ∷ rest) = do
    let later = bind_first rest
    fd ← ask (socket (inet a))
    if is_minus_one fd then later else do
      reuse ← ask (setsockopt fd)
      if is_minus_one reuse
          then later
          else do rc ← ask (bind fd (inet a)); if is_minus_one rc then later else done (some fd)

  abbrev pub addresses : Net (List ℕ)
  addresses l = (os.addresses l.calls, l)

  unfoldable pub listen_on : ℕ → Option ℤ → Net Bool
  listen_on rounds none = done false
  listen_on rounds (some fd) = do
    ask freeaddrinfo
    rc ← ask (listen fd 10)
    if is_minus_one rc then done false else (do accept_loop accepted_remote rounds fd; done true)

  -- listen_remote_router; the result is whether it comes to the loop.
  unfoldable pub listen_remote_router : ℕ → Net Bool
  listen_remote_router rounds = do
    status ← ask getaddrinfo
    if is_minus_one status
        then done false
        else do list ← addresses; fd ← bind_first list; listen_on rounds fd

  -- `close(listen_fd); unlink(AGENT_DOMAIN); return NULL;`
  unfoldable pub give_up : ℤ → Net Bool
  give_up fd = do ask (close fd); ask unlink; done false

  -- listen_local_process; the result is whether it comes to the loop.
  unfoldable pub listen_local_process : ℕ → Net Bool
  listen_local_process rounds = do
    fd ← ask (socket unix)
    if is_neg fd then done false else do
      ask unlink
      bound ← ask (bind fd unix)
      if is_minus_one bound then give_up fd else do
        rc ← ask (listen fd 10)
        if is_minus_one rc then give_up fd else (do accept_loop accepted_local rounds fd; done true)
