-- ===== src/Client/Faults.antt =====
-- libscale/verbs.c: what a client does not tell the router.
use mathlib.Core.Path.{subst}
use cs252aproject.Base.{
  ℕ, ◌<◌, ◌≡◌, refl, true, none, some, List, arith, ltb, set, nat_eq, nat_beq, nat_beq_iff,
}
use cs252aproject.Base.Map.{find, find-insert_self}
use cs252aproject.Common.Messages
use cs252aproject.Common.Messages.{Request, Response, ibv_modify_qp_rsp, ibv_create_qp_rsp}
use cs252aproject.Router.State.{Env, Router, Info, unlocked}
use cs252aproject.Router.Dispatch.{serve, handle_process}
use cs252aproject.Router.Handlers.QueuePair.{handle_ibv_create_qp, claim_cq}
use cs252aproject.Router.Wire.{read_body}
use cs252aproject.Router.Invariant.Frame.{settled, settled_eq}
use cs252aproject.Client.State.{
  Process, Client, Transport, Reply, failed, got, endless, then_on, settle_reply, count_on,
  handle_of, fault, hung, request, done_with, stop, low_word, cq_qp_map_len, ◌>>=◌,
}
use cs252aproject.Client.Queue.{
  Cq, after_create, ibv_create_qp, ibv_destroy_cq, next_qp_handle, enter_cq, ask_create,
}
use cs252aproject.Client.Routed.{routed}

abbrev create_request : ℕ → Cq → Request
create_request handle cq =
    Messages.ibv_create_qp_req
      (record { send_cq_handle = cq.handle; recv_cq_handle = cq.handle; qp_handle = handle })

-- A router that knows a completion queue, with no mutex held
abbrev Claimed : Cq → Router → Type 0
Claimed cq s = (s.locks ≡ unlocked) × ((other : ℕ) × (find s.cq_qp_map cq.handle ≡ some other))

module _ (env : Env) (arrivals : List (List Info)) (pid handle : ℕ) (cq : Cq) where
  claims :
      (s : Router)
      → find s.cq_qp_map cq.handle ≡ none
      → Claimed cq ((routed env arrivals).exchange pid (create_request handle cq) (settled s)).1
  unfolding routed handle_process serve handle_ibv_create_qp claim_cq read_body
  claims s fresh = simp (fresh, find-insert_self) (refl, (handle, refl))

  refuses :
      (s : Router) (other : ℕ)
      → find s.cq_qp_map cq.handle ≡ some other
      → ((routed env arrivals).exchange pid (create_request handle cq) (settled s)).0 ≡ endless
  unfolding routed handle_process serve handle_ibv_create_qp claim_cq read_body
  refuses s other known = simp known refl

  Claimed-refuses :
      (s : Router)
      → Claimed cq s
      → ((routed env arrivals).exchange pid (create_request handle cq) s).0 ≡ endless
  Claimed-refuses s (free, (other, known)) =
      subst (λ t. ((routed env arrivals).exchange pid (create_request handle cq) t).0 ≡ endless)
        (settled_eq s free) (refuses s other known)

module _ {S : Type 0} (t : Transport S) (cq : Cq) where
  -- The state in which `ibv_create_qp` sends its request
  abbrev entered : Process → Process
  entered p = record p {
    qp_refcnt = count_on p.qp_refcnt;
    cq_qp_map = set p.cq_qp_map (low_word cq.handle) (low_word (handle_of p.pid p.qp_refcnt));
  }

  create_qp-asks :
      (c : Client S)
      → low_word cq.handle < cq_qp_map_len
      → ibv_create_qp t cq cq c
        ≡ ask_create t
            (handle_of c.process.pid c.process.qp_refcnt)
            cq
            cq
            (record c { process = entered c.process })
  unfolding ibv_create_qp next_qp_handle enter_cq ◌>>=◌
  create_qp-asks c near =
      let inside : ltb (low_word cq.handle) cq_qp_map_len ≡ true = ground arith in
      let same : nat_beq cq.handle cq.handle ≡ true = (nat_beq_iff _ _).1 refl in
      simp (inside, same) refl

  settled_link :
      (handle : ℕ) (reply : Reply) (c : Client S)
      → (then_on
          (settle_reply reply c).0
          (after_create t handle cq)
          (settle_reply reply c).1).1.link
        ≡ c.link
  unfolding done_with stop
  settled_link handle (got (ibv_create_qp_rsp n)) c = refl
  settled_link handle (got _) c = refl
  settled_link handle failed c = refl
  settled_link handle endless c = refl

  ask_create-link :
      (handle : ℕ) (c : Client S)
      → (ask_create t handle cq cq c).1.link
        ≡ (t.exchange c.process.pid (create_request handle cq) c.link).1
  unfolding ask_create request ◌>>=◌
  ask_create-link handle c = settled_link handle _ _

  ask_create-hangs :
      (handle : ℕ) (c : Client S)
      → (t.exchange c.process.pid (create_request handle cq) c.link).0 ≡ endless
      → (ask_create t handle cq cq c).0 ≡ fault hung
  unfolding ask_create request ◌>>=◌
  ask_create-hangs handle c e = simp e refl

module _ (env : Env) (arrivals : List (List Info)) (cq : Cq) (c : Client Router) where
  Claimed-hangs :
      (c' : Client Router)
      → low_word cq.handle < cq_qp_map_len
      → Claimed cq c'.link
      → (ibv_create_qp (routed env arrivals) cq cq c').0 ≡ fault hung
  Claimed-hangs c' near claimed = rw (create_qp-asks (routed env arrivals) cq c' near) (
      ask_create-hangs (routed env arrivals) cq _ _
        (Claimed-refuses env arrivals c'.process.pid _ cq c'.link claimed))

  create_qp-Claimed :
      low_word cq.handle < cq_qp_map_len
      → c.link.locks ≡ unlocked
      → find c.link.cq_qp_map cq.handle ≡ none
      → Claimed cq (ibv_create_qp (routed env arrivals) cq cq c).1.link
  create_qp-Claimed near free fresh =
      rw
        (
          create_qp-asks (routed env arrivals) cq c near,
          ask_create-link (routed env arrivals) cq (handle_of c.process.pid c.process.qp_refcnt)
              (record c { process = entered (routed env arrivals) cq c.process }),
        )
        (subst
          (λ s.
            Claimed cq
              ((routed env arrivals).exchange c.process.pid
                (create_request (handle_of c.process.pid c.process.qp_refcnt) cq) s).1)
          (settled_eq c.link free) (claims env arrivals c.process.pid _ cq c.link fresh))

  -- A client makes a queue pair on a completion queue that the router does not know and whose
  -- handle ends in a number below 1024, destroys the completion queue, and makes a queue pair on
  -- one with the same handle: when no mutex of the router is held at first, the last call does
  -- not return.
  pub create_qp-hangs :
      low_word cq.handle < cq_qp_map_len
      → c.link.locks ≡ unlocked
      → find c.link.cq_qp_map cq.handle ≡ none
      → (ibv_create_qp
          (routed env arrivals)
          cq
          cq
          (ibv_destroy_cq cq (ibv_create_qp (routed env arrivals) cq cq c).1).1).0
        ≡ fault hung
  unfolding ibv_destroy_cq done_with
  create_qp-hangs near free fresh =
      Claimed-hangs (ibv_create_qp (routed env arrivals) cq cq c).1 near
        (create_qp-Claimed near free fresh)
