-- ===== src/Router/Addressing.antt =====
-- The addresses of IBV_POST_SEND and IBV_POST_RECV: the offset that IBV_REG_MR records for a key
-- leads from the client's mapping of the shared memory to the router's.
use mathlib.Core.Path.{subst}
use cs252aproject.Base.{
  nat_eq, ℕ, ◌+◌, ◌%◌, ◌^◌, ◌<◌, ◌≡◌, refl, true, false, some, none, ◌∷◌, arith, if◌then◌else◌, inl,
  inr, Bool-cases, nat_beq,
}
use cs252aproject.Base.Int.{ℤ, is_zero, to_unsigned}
use cs252aproject.Base.Map.{find}
use cs252aproject.Common.Keys.{host_key_eq}
use cs252aproject.Common.Messages.{
  IbvPostSendReq, IbvPostRecvReq, Response, ibv_post_send, ibv_post_recv, ibv_post_send_rsp,
  ibv_post_recv_rsp,
}
use cs252aproject.Common.Layout.{req_size}
use cs252aproject.Router.State
use cs252aproject.Router.State.{Env, Router, Call}
use cs252aproject.Router.Exec.{Result, ok, err, killed, locked_find, ◌>>=◌}
use cs252aproject.Router.Wire.{read_short, read_body}
use cs252aproject.Router.Handlers.Memory.{offset_of, translate}
use cs252aproject.Router.Handlers.Transfer.{
  send_wr, recv_wr, find_conn, handle_ibv_post_send, handle_ibv_post_recv,
}
use cs252aproject.Router.Invariant.Frame.{settled, settled_eq}
use cs252aproject.Router.Invariant.Objects.{LiveObject, post_on_lem}

-- For a client's mapping at `client` and the router's mapping of the same memory at `router`, the
-- address `client + d` of the client becomes `router + d`, modulo 2^64, wherever the two lie.
pub translate-offset_of :
    (router client d : ℕ)
    → client < 0x1_0000_0000_0000_0000
    → translate (client + d) (offset_of router client) ≡ (router + d) % 2 ^ 64
translate-offset_of router client d fits = omega arith

-- How a request that is posted on a queue pair ends: one call, and a response if it returned 0
abbrev pub Posts : Env → Call → Response → Router → Result Response × Router → Type 0
Posts env call rsp s (r, t) =
    (r ≡ (if is_zero (env.rc (call ∷ s.calls)) then ok rsp else err killed))
    × (t.calls ≡ call ∷ s.calls)

module _ (env : Env) (process_id : ℕ) (n : ℤ) (s : Router) (p : ℕ) (offset : ℕ) where
  module _ (req : IbvPostSendReq) (whole : read_short n (req_size ibv_post_send) ≡ false) where
    post_send_settled :
        (l : LiveObject (settled s) p)
        → find s.lkey_offset_map req.lkey ≡ some offset
        → find s.src_qp_map req.qp_handle ≡ some l.key
        → Posts env
            (State.ibv_post_send l.serving.qp.ptr (send_wr req offset))
            (ibv_post_send_rsp process_id)
            s
            (handle_ibv_post_send env process_id n req (settled s))
    unfolding handle_ibv_post_send read_body locked_find find_conn ◌>>=◌
    post_send_settled l known user =
        let request : ℕ → Call = λ qp. State.ibv_post_send qp (send_wr req offset) in
        let post = post_on_lem env p request (settled s) l in
        elim (Bool-cases (is_zero (env.rc (request l.serving.qp.ptr ∷ s.calls)))) [
          | inl good ↦ simp (whole, known, user, l.serves.0, post, good) (refl, refl)
          | inr bad ↦ simp (whole, known, user, l.serves.0, post, bad) (refl, refl)
        ]

    -- IBV_POST_SEND with a mapped key, on a virtual queue pair whose host key has a serving object:
    -- exactly one work request is posted, on the queue pair of that object, with the address
    -- translated; the response follows if the device takes it, and else the connection is closed.
    pub post_send-Posts :
        (l : LiveObject s p)
        → find s.lkey_offset_map req.lkey ≡ some offset
        → find s.src_qp_map req.qp_handle ≡ some l.key
        → Posts env
            (State.ibv_post_send l.serving.qp.ptr (send_wr req offset))
            (ibv_post_send_rsp process_id)
            s
            (handle_ibv_post_send env process_id n req s)
    post_send-Posts l =
        subst
          (λ t.
            (l : LiveObject t p)
            → find s.lkey_offset_map req.lkey ≡ some offset
            → find s.src_qp_map req.qp_handle ≡ some l.key
            → Posts env (State.ibv_post_send l.serving.qp.ptr (send_wr req offset))
                (ibv_post_send_rsp process_id) s (handle_ibv_post_send env process_id n req t))
          (settled_eq s l.sound.free_locks) post_send_settled l

    -- IBV_POST_SEND with a key that is mapped to the offset which IBV_REG_MR computes, on a virtual
    -- queue pair whose host key has a serving object: an address `d` bytes into the client's mapping
    -- at `client` is posted, once, as the address `d` bytes into the router's mapping at `router`,
    -- modulo 2^64.
    pub post_send-routes :
        (l : LiveObject s p) (router client d : ℕ)
        → client < 0x1_0000_0000_0000_0000
        → req.client_addr ≡ client + d
        → offset ≡ offset_of router client
        → find s.lkey_offset_map req.lkey ≡ some offset
        → find s.src_qp_map req.qp_handle ≡ some l.key
        → Posts env
            (State.ibv_post_send l.serving.qp.ptr (record (send_wr req offset) {
              sge = record {
                addr = (router + d) % 2 ^ 64;
                length = req.length % 2 ^ 32;
                lkey = req.lkey;
              };
            }))
            (ibv_post_send_rsp process_id)
            s
            (handle_ibv_post_send env process_id n req s)
    post_send-routes l router client d fits at_d is_offset known user =
        let moved : translate req.client_addr offset ≡ (router + d) % 2 ^ 64 =
          rw (at_d, is_offset) (translate-offset_of router client d fits) in
        subst
          (λ a.
            Posts env
              (State.ibv_post_send l.serving.qp.ptr (record (send_wr req offset) {
                sge = record { addr = a; length = req.length % 2 ^ 32; lkey = req.lkey };
              }))
              (ibv_post_send_rsp process_id) s (handle_ibv_post_send env process_id n req s))
          moved (post_send-Posts l known user)

  module _ (req : IbvPostRecvReq) (whole : read_short n (req_size ibv_post_recv) ≡ false)
      (own : nat_beq (to_unsigned 64 req.wr_id) process_id ≡ true) where
    post_recv_settled :
        (l : LiveObject (settled s) p)
        → find s.lkey_offset_map req.lkey ≡ some offset
        → find s.src_qp_map req.qp_handle ≡ some l.key
        → Posts env
            (State.ibv_post_recv l.serving.qp.ptr (recv_wr req offset))
            (ibv_post_recv_rsp process_id)
            s
            (handle_ibv_post_recv env process_id n req (settled s))
    unfolding handle_ibv_post_recv read_body locked_find find_conn ◌>>=◌
    post_recv_settled l known user =
        let request : ℕ → Call = λ qp. State.ibv_post_recv qp (recv_wr req offset) in
        let post = post_on_lem env p request (settled s) l in
        elim (Bool-cases (is_zero (env.rc (request l.serving.qp.ptr ∷ s.calls)))) [
          | inl good ↦ simp (whole, own, known, user, l.serves.0, post, good) (refl, refl)
          | inr bad ↦ simp (whole, own, known, user, l.serves.0, post, bad) (refl, refl)
        ]

    -- IBV_POST_RECV with a mapped key and the client's own process id as `wr_id`, on a virtual
    -- queue pair whose host key has a serving object: exactly one receive is posted, on the queue
    -- pair of that object; the response follows if the device takes it, and else the connection is
    -- closed.
    pub post_recv-Posts :
        (l : LiveObject s p)
        → find s.lkey_offset_map req.lkey ≡ some offset
        → find s.src_qp_map req.qp_handle ≡ some l.key
        → Posts env
            (State.ibv_post_recv l.serving.qp.ptr (recv_wr req offset))
            (ibv_post_recv_rsp process_id)
            s
            (handle_ibv_post_recv env process_id n req s)
    post_recv-Posts l =
        subst
          (λ t.
            (l : LiveObject t p)
            → find s.lkey_offset_map req.lkey ≡ some offset
            → find s.src_qp_map req.qp_handle ≡ some l.key
            → Posts env (State.ibv_post_recv l.serving.qp.ptr (recv_wr req offset))
                (ibv_post_recv_rsp process_id) s (handle_ibv_post_recv env process_id n req t))
          (settled_eq s l.sound.free_locks) post_recv_settled l

module _ (env : Env) (process_id : ℕ) (n : ℤ) (s : Router) (req : IbvPostSendReq) where
  -- With the mutexes of the maps free, IBV_POST_SEND, read whole, with a key that is not mapped
  -- posts nothing and makes no other call: the connection is closed.
  pub post_send-unmapped :
      read_short n (req_size ibv_post_send) ≡ false
      → s.locks ≡ State.unlocked
      → find s.lkey_offset_map req.lkey ≡ none
      → ((handle_ibv_post_send env process_id n req s).0 ≡ err killed)
        × ((handle_ibv_post_send env process_id n req s).1.calls ≡ s.calls)
  unfolding handle_ibv_post_send read_body locked_find find_conn ◌>>=◌
  post_send-unmapped whole free unknown =
      subst
        (λ t.
          ((handle_ibv_post_send env process_id n req t).0 ≡ err killed)
          × ((handle_ibv_post_send env process_id n req t).1.calls ≡ s.calls))
        (settled_eq s free) (simp (whole, unknown) (refl, refl))
