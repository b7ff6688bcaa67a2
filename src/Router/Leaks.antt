-- ===== src/Router/Leaks.antt =====
-- The error paths of POST_SEND and POST_RECV leave a mutex locked, and later requests wait for ever.
use mathlib.Core.Path.{subst}
use cs252aproject.Base.{
  ℕ, ◌≡◌, refl, sym, true, false, none, some, nat_beq, nat_eq, List, [], ◌∷◌, inl, inr, Bool-cases,
}
use cs252aproject.Base.Int.{ℤ, to_unsigned, is_zero}
use cs252aproject.Base.Map.{find, find-insert_self}
use cs252aproject.Common.Keys.{conn_id_eq}
use cs252aproject.Common.Messages.{PostSendReq, post_send}
use cs252aproject.Common.Layout.{req_size}
use cs252aproject.Router.State.{Env, Router, Call, ConnResources, Qp}
use cs252aproject.Router.Exec.{err, blocked, killed, ◌>>=◌}
use cs252aproject.Router.Wire.{read_short, read_body}
use cs252aproject.Router.Handlers.Legacy.{find_conn_leaky, post_leaky, handle_post_send}

module _ (env : Env) (process_id : ℕ) (n : ℤ) where
  -- The header and the body of a POST_SEND are read whole, and its `wr_id` is the process id.
  abbrev pub IsOwn : PostSendReq → Type 0
  IsOwn req =
      (read_short n (req_size post_send) ≡ false)
      × (nat_beq (to_unsigned 64 req.wr_id) process_id ≡ true)

  send_locks :
      (req : PostSendReq) (s : Router)
      → IsOwn req
      → s.locks.connmap ≡ false
      → find s.conn_map req.conn_id ≡ none
      → ((handle_post_send env process_id n req s).0 ≡ err killed)
        × ((handle_post_send env process_id n req s).1.locks.connmap ≡ true)
  unfolding handle_post_send read_body find_conn_leaky ◌>>=◌
  send_locks req s own free missing = simp (own.0, own.1, free, missing) (refl, refl)

  send_blocks :
      (req : PostSendReq) (s : Router)
      → IsOwn req
      → s.locks.connmap ≡ true
      → (handle_post_send env process_id n req s).0 ≡ err blocked
  unfolding handle_post_send read_body find_conn_leaky ◌>>=◌
  send_blocks req s own held = simp (own.0, own.1, held) refl

-- What the thread of one POST_SEND reads
pub record Sent : Type 0 where
  pub process_id : ℕ
  pub body_read : ℤ
  pub req : PostSendReq

-- The router after POST_SENDs, one after the other
abbrev pub after_sends : Env → List Sent → Router → Router
after_sends env [] s = s
after_sends env (x ∷ xs) s =
    after_sends env xs (handle_post_send env x.process_id x.body_read x.req s).1

-- A POST_SEND that comes to a held mutex, or ends before it, changes nothing.
send_unchanged :
    (env : Env) (x : Sent) (s : Router)
    → s.locks.connmap ≡ true
    → (handle_post_send env x.process_id x.body_read x.req s).1 ≡ s
unfolding handle_post_send read_body find_conn_leaky ◌>>=◌
send_unchanged env x s held = elim (Bool-cases (read_short x.body_read (req_size post_send))) [
  | inl short ↦ simp short refl
  | inr whole ↦ elim (Bool-cases (nat_beq (to_unsigned 64 x.req.wr_id) x.process_id)) [
    | inl own ↦ simp (whole, own, held) refl
    | inr other ↦ simp (whole, other) refl
  ]
]

after_sends_held :
    (env : Env) (xs : List Sent) (s : Router)
    → s.locks.connmap ≡ true
    → (after_sends env xs s).locks.connmap ≡ true
after_sends_held env [] s held = held
after_sends_held env (x ∷ xs) s held =
    after_sends_held env xs (handle_post_send env x.process_id x.body_read x.req s).1
      (subst (λ t. t.locks.connmap ≡ true) (sym (send_unchanged env x s held)) held)

-- A POST_SEND, read whole and with its process id as `wr_id`, for a connection that is not set up
-- closes its own connection with the mutex of `conn_map` held: after any further POST_SENDs, a
-- POST_SEND that is read whole and has its process id as `wr_id`, of whatever process and connection,
-- waits for ever.
pub post_send-leaks :
    (env : Env) (process_id later_id : ℕ) (n later_n : ℤ) (unknown later : PostSendReq)
    (others : List Sent) (s : Router)
    → IsOwn env process_id n unknown
    → IsOwn env later_id later_n later
    → s.locks.connmap ≡ false
    → find s.conn_map unknown.conn_id ≡ none
    → ((handle_post_send env process_id n unknown s).0 ≡ err killed)
      × ((handle_post_send env later_id later_n later
            (after_sends env others (handle_post_send env process_id n unknown s).1)).0
          ≡ err blocked)
post_send-leaks env process_id later_id n later_n unknown later others s own own' free missing =
    let (closes, holds) = send_locks env process_id n unknown s own free missing in
    (closes, send_blocks env later_id later_n later _ own' (after_sends_held env others _ holds))

-- The router after posts on an object, one after the other
abbrev pub after_posts : Env → ℕ → List (ℕ → Call) → Router → Router
after_posts env p [] s = s
after_posts env p (request ∷ rest) s = after_posts env p rest (post_leaky env p request s).1

module _ (env : Env) (p : ℕ) (c : ConnResources) (held : c.locked ≡ true) where
  post_waits :
      (request : ℕ → Call) (s : Router)
      → find s.conns p ≡ some c
      → post_leaky env p request s ≡ (err blocked, s)
  unfolding post_leaky
  post_waits request s there = simp (there, held) refl

  posts_wait :
      (others : List (ℕ → Call)) (later : ℕ → Call) (s : Router)
      → find s.conns p ≡ some c
      → (post_leaky env p later (after_posts env p others s)).0 ≡ err blocked
  posts_wait [] later s there = rw (post_waits later s there) refl
  posts_wait (request ∷ others) later s there =
      rw (post_waits request s there) (posts_wait others later s there)

leaves_locked :
    (env : Env) (p : ℕ) (request : ℕ → Call) (s : Router) (c : ConnResources) (q : Qp)
    → find s.conns p ≡ some c
    → c.locked ≡ false
    → c.qp ≡ some q
    → is_zero (env.rc (request q.ptr ∷ s.calls)) ≡ false
    → find (post_leaky env p request s).1.conns p ≡ some (record c { locked = true })
unfolding post_leaky
leaves_locked env p request s c q there free has_qp refused =
    simp (there, free, has_qp, refused, find-insert_self) refl

-- A post of POST_SEND or POST_RECV that the device refuses leaves the mutex of the object locked:
-- after any further posts on the same object, a post on it waits for ever.
pub post_leaky-leaks :
    (env : Env) (p : ℕ) (request later : ℕ → Call) (others : List (ℕ → Call)) (s : Router)
    (c : ConnResources) (q : Qp)
    → find s.conns p ≡ some c
    → c.locked ≡ false
    → c.qp ≡ some q
    → is_zero (env.rc (request q.ptr ∷ s.calls)) ≡ false
    → (post_leaky env p later (after_posts env p others (post_leaky env p request s).1)).0
      ≡ err blocked
post_leaky-leaks env p request later others s c q there free has_qp refused =
    posts_wait env p (record c { locked = true }) refl others later _
      (leaves_locked env p request s c q there free has_qp refused)
