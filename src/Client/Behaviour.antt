-- ===== src/Client/Behaviour.antt =====
-- What every verb keeps, over a transport whose responses are the structs that were asked for.
use cs252aproject.Base.{ℕ, ◌≡◌, refl, Bool, true, false, Option, none, some, if◌then◌else◌}
use cs252aproject.Common.Messages
use cs252aproject.Common.Messages.{Request, Response, FunctionCall, IbvPollCqReq}
use cs252aproject.Router.Replies.{struct_of, answer_of}
use cs252aproject.Client.State.{
  Process, Client, Transport, Reply, failed, got, endless, VerbFault, garbled, hung, VerbResult,
  done, fault, Verb, then_on, settle_reply, request, done_with, stop, reads, updates, ◌>>=◌,
}
use cs252aproject.Client.Device.{Context, after_list, after_alloc, after_gid, after_port}
use cs252aproject.Client.Memory.{after_reg, after_dereg, SharedMemory}
use cs252aproject.Client.Queue.{Cq, ScaleQp, ModifyAttr, after_create, after_modify, after_destroy}
use cs252aproject.Client.Transfer.{after_send, after_recv, after_poll}
use cs252aproject.Client.Handles.{IsProcess}
use cs252aproject.Client.Agreement.{IsHonest}

-- The process is as it should be, with the same process id, and the verb has not read a response as
-- another struct.
abbrev pub is_garbled : VerbFault → Bool
is_garbled garbled = true
is_garbled _ = false

pub record Behaves {S A : Type 0} (pid : ℕ) (x : VerbResult A × Client S) : Type 0 where
  pub process : IsProcess x.1.process
  pub same_pid : x.1.process.pid ≡ pid
  pub understood : elim x.0 [ done a ↦ false | fault f ↦ is_garbled f ] ≡ false

-- A verb that behaves from every state of the process `p`
abbrev pub Well : {S A : Type 0} → Process → Verb S A → Type 0
Well {S} p m = (c : Client S) → c.process ≡ p → Behaves p.pid (m c)

module _ {S : Type 0} (t : Transport S) (honest : IsHonest t) (p : Process) (h : IsProcess p) where
  pub Well-done : {A : Type 0} (a : A) → Well {S = S} p (done_with a)
  unfolding done_with
  Well-done a c e = record { process = rw e h; same_pid = rw e refl; understood = refl }

  pub Well-fault :
      {A : Type 0} (f : VerbFault) → is_garbled f ≡ false → Well {S = S} {A = A} p (stop f)
  unfolding stop
  Well-fault f fine c e = record { process = rw e h; same_pid = rw e refl; understood = fine }

  pub Well-read :
      {A B : Type 0} (f : Process → A) (k : A → Verb S B)
      → ((a : A) → Well p (k a))
      → Well p (reads f >>= k)
  unfolding ◌>>=◌
  Well-read f k hk c e = hk (f c.process) c e

  -- The response is none, or the struct that was asked for.
  Well-reply :
      {A : Type 0} (f : Option FunctionCall) (k : Option Response → Verb S A)
      → Well p (k none)
      → ((rsp : Response) → struct_of rsp ≡ f → Well p (k (some rsp)))
      → (reply : Reply) → ((rsp : Response) → reply ≡ got rsp → struct_of rsp ≡ f)
      → (c : Client S) → c.process ≡ p
      → Behaves p.pid (then_on (settle_reply reply c).0 k (settle_reply reply c).1)
  unfolding stop
  Well-reply f k hn hs failed agrees c e = hn c e
  Well-reply f k hn hs (got rsp) agrees c e = hs rsp (agrees rsp refl) c e
  Well-reply f k hn hs endless agrees c e = Well-fault hung refl c e

  pub Well-request :
      {A : Type 0} (r : Request) (k : Option Response → Verb S A)
      → Well p (k none)
      → ((rsp : Response) → struct_of rsp ≡ answer_of r → Well p (k (some rsp)))
      → Well p (request t r >>= k)
  unfolding request ◌>>=◌
  Well-request r k hn hs c e =
      Well-reply (answer_of r) k hn hs (t.exchange c.process.pid r c.link).0
        (λ rsp. honest.matches c.process.pid r c.link rsp)
        (record c { link = (t.exchange c.process.pid r c.link).1 }) e

  pub Well-create :
      (handle : ℕ) (cq : Cq)
      → (rsp : Response) → struct_of rsp ≡ some Messages.ibv_create_qp
      → Well p (after_create t handle cq (some rsp))
  Well-create handle cq (Messages.ibv_create_qp_rsp x) e = Well-done _
  Well-create handle cq _ e = absurd (cc e)

  pub Well-modify :
      (qp : ScaleQp) (attr : ModifyAttr)
      → (rsp : Response) → struct_of rsp ≡ some Messages.ibv_modify_qp
      → Well p (after_modify t qp attr (some rsp))
  Well-modify qp attr (Messages.ibv_modify_qp_rsp x) e = Well-done _
  Well-modify qp attr _ e = absurd (cc e)

  pub Well-destroy :
      (rsp : Response)
      → struct_of rsp ≡ some Messages.ibv_destroy_qp
      → Well p (after_destroy t (some rsp))
  Well-destroy (Messages.ibv_destroy_qp_rsp x) e = Well-done _
  Well-destroy _ e = absurd (cc e)

  pub Well-reg :
      (shm : SharedMemory) (addr len : ℕ)
      → (rsp : Response) → struct_of rsp ≡ some Messages.ibv_reg_mr
      → Well p (after_reg t shm addr len (some rsp))
  Well-reg shm addr len (Messages.ibv_reg_mr_rsp x) e = Well-done _
  Well-reg shm addr len _ e = absurd (cc e)

  pub Well-dereg :
      (rsp : Response)
      → struct_of rsp ≡ some Messages.ibv_dereg_mr
      → Well p (after_dereg t (some rsp))
  Well-dereg (Messages.ibv_dereg_mr_rsp x) e = Well-done _
  Well-dereg _ e = absurd (cc e)

  pub Well-alloc :
      (ctx : Context)
      → (rsp : Response) → struct_of rsp ≡ some Messages.ibv_alloc_pd
      → Well p (after_alloc t ctx (some rsp))
  Well-alloc ctx (Messages.ibv_alloc_pd_rsp x) e = Well-done _
  Well-alloc ctx _ e = absurd (cc e)

  pub Well-gid :
      (rsp : Response)
      → struct_of rsp ≡ some Messages.ibv_query_gid
      → Well p (after_gid t (some rsp))
  Well-gid (Messages.ibv_query_gid_rsp x) e = Well-done _
  Well-gid _ e = absurd (cc e)

  pub Well-port :
      (rsp : Response)
      → struct_of rsp ≡ some Messages.ibv_query_port
      → Well p (after_port t (some rsp))
  Well-port (Messages.ibv_query_port_rsp x) e = Well-done _
  Well-port _ e = absurd (cc e)

  pub Well-poll :
      (rsp : Response)
      → struct_of rsp ≡ some Messages.ibv_poll_cq
      → Well {S = S} p (after_poll (some rsp))
  Well-poll (Messages.ibv_poll_cq_rsp x) e = Well-done _
  Well-poll _ e = absurd (cc e)

  pub Well-send :
      (pid : ℕ)
      → (rsp : Response) → struct_of rsp ≡ some Messages.ibv_post_send
      → Well {S = S} p (after_send (some rsp) pid)
  Well-send pid (Messages.ibv_post_send_rsp x) e = Well-done _
  Well-send pid _ e = absurd (cc e)

  pub Well-recv :
      (pid : ℕ)
      → (rsp : Response) → struct_of rsp ≡ some Messages.ibv_post_recv
      → Well {S = S} p (after_recv (some rsp) pid)
  Well-recv pid (Messages.ibv_post_recv_rsp x) e = Well-done _
  Well-recv pid _ e = absurd (cc e)

  pub Well-list :
      (rsp : Response)
      → struct_of rsp ≡ some Messages.ibv_get_device_list
      → Well p (after_list t (some rsp))
  unfolding updates done_with ◌>>=◌
  Well-list (Messages.ibv_get_device_list_rsp x) e c e' = record {
    process = record {
      cq_small = rw e' h.cq_small;
      qp_small = rw e' h.qp_small;
      map_length = refl;
    };
    same_pid = rw e' refl;
    understood = refl;
  }
  Well-list _ e c e' = absurd (cc e)

  pub Well-if :
      {A : Type 0} (b : Bool) (m n : Verb S A) → Well p m → Well p n → Well p (if b then m else n)
  Well-if true m n hm hn = hm
  Well-if false m n hm hn = hn
