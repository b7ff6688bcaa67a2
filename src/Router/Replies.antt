-- ===== src/Router/Replies.antt =====
-- The response of a handler is the struct of the request's function.
use mathlib.Core.Path.{subst}
use cs252aproject.Base.{◌≡◌, refl, Bool, true, false, Option, none, some, if◌then◌else◌}
use cs252aproject.Common.Messages
use cs252aproject.Common.Messages.{Request, Response, FunctionCall, func_of}
use cs252aproject.Router.State.{Env, Router}
use cs252aproject.Router.Exec.{Fault, Exec, Result, ok, err, pure, fail, gets, ◌>>=◌}
use cs252aproject.Router.Triple.{Post, Triple, bind_rule}
use cs252aproject.Router.Dispatch.{Session, serve}
use cs252aproject.Router.Handlers.Memory.{handle_ibv_reg_mr, handle_ibv_dereg_mr}
use cs252aproject.Router.Handlers.QueuePair.{
  handle_ibv_create_qp, handle_ibv_modify_qp, handle_ibv_destroy_cq, handle_ibv_destroy_qp,
}
use cs252aproject.Router.Handlers.Transfer.{
  handle_ibv_post_send, handle_ibv_post_recv, handle_ibv_poll_cq,
}
use cs252aproject.Router.Handlers.Query.{
  handle_ibv_get_device_list, handle_ibv_alloc_pd, handle_ibv_query_gid, handle_ibv_query_port,
}
use cs252aproject.Router.Handlers.Legacy.{
  handle_init_res, handle_create_res, handle_reg_mr, handle_setup_conn, handle_post_send,
  handle_post_recv, handle_poll_cq, handle_dereg_mr, handle_destroy_res,
}

-- The function whose response struct a response is; none for a response of size 0
abbrev pub struct_of : Response → Option FunctionCall
struct_of (Messages.init_res_rsp _ _) = some Messages.init_res
struct_of (Messages.create_res_rsp _) = some Messages.create_res
struct_of (Messages.reg_mr_rsp _) = some Messages.reg_mr
struct_of (Messages.setup_conn_rsp _ _) = some Messages.setup_conn
struct_of (Messages.post_send_rsp _) = some Messages.post_send
struct_of (Messages.post_recv_rsp _) = some Messages.post_recv
struct_of (Messages.poll_cq_rsp _ _) = some Messages.poll_cq
struct_of (Messages.dereg_mr_rsp _) = some Messages.dereg_mr
struct_of (Messages.destroy_res_rsp _) = some Messages.destroy_res
struct_of (Messages.ibv_get_device_list_rsp _) = some Messages.ibv_get_device_list
struct_of (Messages.ibv_alloc_pd_rsp _) = some Messages.ibv_alloc_pd
struct_of (Messages.ibv_reg_mr_rsp _) = some Messages.ibv_reg_mr
struct_of (Messages.ibv_query_gid_rsp _) = some Messages.ibv_query_gid
struct_of (Messages.ibv_query_port_rsp _) = some Messages.ibv_query_port
struct_of (Messages.ibv_create_qp_rsp _) = some Messages.ibv_create_qp
struct_of (Messages.ibv_modify_qp_rsp _) = some Messages.ibv_modify_qp
struct_of (Messages.ibv_post_send_rsp _) = some Messages.ibv_post_send
struct_of (Messages.ibv_post_recv_rsp _) = some Messages.ibv_post_recv
struct_of (Messages.ibv_poll_cq_rsp _) = some Messages.ibv_poll_cq
struct_of (Messages.ibv_destroy_cq_rsp _) = some Messages.ibv_destroy_cq
struct_of (Messages.ibv_destroy_qp_rsp _) = some Messages.ibv_destroy_qp
struct_of (Messages.ibv_dereg_mr_rsp _) = some Messages.ibv_dereg_mr
struct_of Messages.no_rsp = none

-- The struct that answers a request: DEREG_MR is answered with that of REG_MR.
abbrev pub answer_of : Request → Option FunctionCall
answer_of (Messages.dereg_mr_req r) = some Messages.reg_mr
answer_of r = func_of r

abbrev Any : Fault → Router → Type 0
Any f s = Unit

abbrev Anything : Router → Type 0
Anything s = Unit

anything_lem : {A : Type 0} (x : Result A × Router) → Post (λ _ _. Unit) Any x
anything_lem (ok a, s) = tt
anything_lem (err f, s) = tt

-- The action ends in a fault, or in the struct of a function.
abbrev Replies : Option FunctionCall → Exec Response → Type 0
Replies f m = Triple Any Anything m (λ rsp _. struct_of rsp ≡ f)

module _ {f : Option FunctionCall} where
  last_rule :
      {A : Type 0} (m : Exec A) (k : A → Exec Response)
      → ((a : A) → Replies f (k a))
      → Replies f (m >>= k)
  last_rule m k h =
      bind_rule Anything m k (λ _ _. Unit) (record { at = λ s _. anything_lem (m s) }) h

  pure_rule : (rsp : Response) → struct_of rsp ≡ f → Replies f (pure rsp)
  unfolding pure
  pure_rule rsp e = record { at = λ s _. e }

  gets_rule : (g : Router → Response) → ((s : Router) → struct_of (g s) ≡ f) → Replies f (gets g)
  unfolding gets
  gets_rule g e = record { at = λ s _. e s }

  fail_rule : (e : Fault) → Replies f (fail e)
  unfolding fail
  fail_rule e = record { at = λ s _. tt }

  if_rule :
      (b : Bool) (m n : Exec Response) → Replies f m → Replies f n → Replies f (if b then m else n)
  if_rule true m n km kn = km
  if_rule false m n km kn = kn

module _ (env : Env) where
  serve_rule :
      (c : Session) (r : Request) → Replies (answer_of r) (serve env (record c { request = r }))
  unfolding serve handle_init_res handle_create_res handle_reg_mr handle_setup_conn handle_post_send
      handle_post_recv handle_poll_cq handle_dereg_mr handle_destroy_res handle_ibv_get_device_list
      handle_ibv_alloc_pd handle_ibv_reg_mr handle_ibv_query_gid handle_ibv_query_port
      handle_ibv_create_qp handle_ibv_modify_qp handle_ibv_post_send handle_ibv_post_recv
      handle_ibv_poll_cq handle_ibv_destroy_cq handle_ibv_destroy_qp handle_ibv_dereg_mr
  serve_rule c Messages.init_res_req = gets_rule _ (λ s. refl)
  serve_rule c (Messages.create_res_req r) =
      last_rule _ _ λ x0. last_rule _ _ λ x1. pure_rule _ refl
  serve_rule c (Messages.reg_mr_req r) = last_rule _ _ λ x9. last_rule _ _ λ x0.
      last_rule _ _
        λ x1. last_rule _ _ λ x2. last_rule _ _ λ x3. last_rule _ _ λ x4. pure_rule _ refl
  serve_rule c (Messages.setup_conn_req r) =
      last_rule _ _
        λ x0. last_rule _ _ λ x1. last_rule _ _ λ x2. last_rule _ _ λ x3. pure_rule _ refl
  serve_rule c (Messages.post_send_req r) =
      last_rule _ _
        λ x0. last_rule _ _ λ x1. last_rule _ _ λ x2. last_rule _ _ λ x3. pure_rule _ refl
  serve_rule c (Messages.post_recv_req r) =
      last_rule _ _
        λ x0. last_rule _ _ λ x1. last_rule _ _ λ x2. last_rule _ _ λ x3. pure_rule _ refl
  serve_rule c (Messages.poll_cq_req r) =
      last_rule _ _
        λ x1. last_rule _ _ λ x2. last_rule _ _ λ x3. if_rule _ _ _ (pure_rule _ refl) (fail_rule _)
  serve_rule c (Messages.dereg_mr_req r) = last_rule _ _ λ x0. last_rule _ _ λ x1.
      last_rule _ _
        λ x2. last_rule _ _ λ x3. last_rule _ _ λ x4. last_rule _ _ λ x5. pure_rule _ refl
  serve_rule c (Messages.destroy_res_req r) =
      last_rule _ _
        λ x0. last_rule _ _ λ x1. last_rule _ _ λ x2. last_rule _ _ λ x3. pure_rule _ refl
  serve_rule c Messages.ibv_get_device_list_req =
      last_rule _ _ λ x0. last_rule _ _ λ x1. gets_rule _ (λ s. refl)
  serve_rule c Messages.ibv_alloc_pd_req = gets_rule _ (λ s. refl)
  serve_rule c (Messages.ibv_reg_mr_req r) = last_rule _ _ λ x9. last_rule _ _ λ x0.
      last_rule _ _ λ x1.
        last_rule _ _
          λ x2. last_rule _ _ λ x3. last_rule _ _ λ x4. last_rule _ _ λ x5. pure_rule _ refl
  serve_rule c Messages.ibv_query_gid_req = gets_rule _ (λ s. refl)
  serve_rule c Messages.ibv_query_port_req = gets_rule _ (λ s. refl)
  serve_rule c (Messages.ibv_create_qp_req r) =
      last_rule _ _ λ x0. last_rule _ _ λ x1. last_rule _ _ λ x2. pure_rule _ refl
  serve_rule c (Messages.ibv_modify_qp_req r) = last_rule _ _ λ x0. last_rule _ _ λ x1.
      last_rule _ _
        λ x2. last_rule _ _ λ x3. last_rule _ _ λ x4. last_rule _ _ λ x5. pure_rule _ refl
  serve_rule c (Messages.ibv_post_send_req r) =
      last_rule _ _
        λ x0. last_rule _ _ λ x1. last_rule _ _ λ x2. last_rule _ _ λ x3. pure_rule _ refl
  serve_rule c (Messages.ibv_post_recv_req r) = last_rule _ _ λ x0.
      last_rule _ _
        λ x1. last_rule _ _ λ x2. last_rule _ _ λ x3. last_rule _ _ λ x4. pure_rule _ refl
  serve_rule c (Messages.ibv_poll_cq_req r) = last_rule _ _ λ x1. last_rule _ _ λ x2.
      last_rule _ _
        λ x3. if_rule _ _ _ (if_rule _ _ _ (pure_rule _ refl) (fail_rule _)) (fail_rule _)
  serve_rule c (Messages.ibv_destroy_cq_req r) =
      last_rule _ _ λ x0. last_rule _ _ λ x1. pure_rule _ refl
  serve_rule c (Messages.ibv_destroy_qp_req r) =
      last_rule _ _ λ x0. last_rule _ _ λ x1. last_rule _ _ λ x2. pure_rule _ refl
  serve_rule c (Messages.ibv_dereg_mr_req r) =
      last_rule _ _ λ x0. last_rule _ _ λ x1. last_rule _ _ λ x2. pure_rule _ refl
  serve_rule c Messages.unknown = pure_rule _ refl

  replied_struct :
      (f : Option FunctionCall) (x : Result Response × Router) (rsp : Response)
      → Post (λ rsp' _. struct_of rsp' ≡ f) Any x
      → x.0 ≡ ok rsp
      → struct_of rsp ≡ f
  replied_struct f (ok rsp', s) rsp h e =
      let same : rsp' ≡ rsp = cc e in subst (λ y. struct_of y ≡ f) same h
  replied_struct f (err e', s) rsp h e = absurd (cc e)

  -- Whatever the state, the request and the results of the calls: a handler that answers fills in the
  -- response struct of the function that was asked for, except that DEREG_MR is answered with the
  -- struct of REG_MR; an unknown function has no response.
  pub serve-struct_of :
      (c : Session) (s : Router) (rsp : Response)
      → (serve env c s).0 ≡ ok rsp
      → struct_of rsp ≡ answer_of c.request
  serve-struct_of c s rsp e =
      replied_struct (answer_of c.request) (serve env c s) rsp ((serve_rule c c.request).at s tt) e
