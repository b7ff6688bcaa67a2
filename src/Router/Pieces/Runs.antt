-- ===== src/Router/Pieces/Runs.antt =====
-- All runs of the daemon: whatever clients ask for, and however their requests end.
use mathlib.Core.Path.{subst}
use cs252aproject.Base.{
  ℕ, zero, suc, ◌+◌, ◌≢◌, ◌≡◌, sym, ap, ◌∙◌, ◌%◌, ◌^◌, none, some, List, [], ◌∷◌, get_elem?, nat_eq,
  arith, inl, inr, Bool-cases,
}
use cs252aproject.Base.Map.{find-empty}
use cs252aproject.Base.Int.{pos, to_signed, to_unsigned}
use cs252aproject.Common.Messages
use cs252aproject.Common.Messages.{Request}
use cs252aproject.Common.Layout.{sizeof, header_fields}
use cs252aproject.Router.State.{Env, Router, Info, ShmPiece, Config, GlobalResources, booted}
use cs252aproject.Router.Exec.{Result, ok, err, pure}
use cs252aproject.Router.Triple.{Post}
use cs252aproject.Router.Wire.{read_short}
use cs252aproject.Router.Remote.{handle_remote_router}
use cs252aproject.Router.Dispatch.{Session, serve, handle_process}
use cs252aproject.Router.Shm.{pieces_of, shm_name_of}
use cs252aproject.Router.Names.{shm_name_of_injective}
use cs252aproject.Router.Handlers.Legacy.{handle_init_res}
use cs252aproject.Router.Handlers.Query.{
  handle_ibv_get_device_list, handle_ibv_alloc_pd, handle_ibv_query_gid, handle_ibv_query_port,
}
use cs252aproject.Router.Framed.Actions.{Still-handle_remote_router}
use cs252aproject.Router.Framed
use cs252aproject.Router.Pieces.{Numbered, Named, Named-Framed, Still-add_shm_piece}
use cs252aproject.Router.Pieces.Handlers as Cases

-- The states that a router comes to through any sessions and messages of other routers
pub data Runs (env : Env) (s : Router) : Router → Type 0 where
  start : Runs env s s
  session : {t : Router} → Runs env s t → (c : Session) → Runs env s (handle_process env c t).1
  message : {t : Router} → Runs env s t → (i : Info) → Runs env s (handle_remote_router i t).1

Post-Named : {A : Type 0} (x : Result A × Router) → Post (λ _. Named) (λ f. Named) x → Named x.1
Post-Named (ok a, t) k = k
Post-Named (err f, t) k = k

module _ (env : Env) (c : Session) (s : Router) (k : Named s) where
  serve-Named :
      (q : Request) → Post (λ _. Named) (λ f. Named) (serve env (record c { request = q }) s)
  unfolding serve handle_init_res handle_ibv_get_device_list handle_ibv_alloc_pd
      handle_ibv_query_gid handle_ibv_query_port pure
  serve-Named Messages.init_res_req = k
  serve-Named (Messages.create_res_req r) =
      (Cases.Still-create_res env c.process_id c.body_read r).at s k
  serve-Named (Messages.reg_mr_req r) = (Cases.Still-reg_mr env c.process_id c.body_read r).at s k
  serve-Named (Messages.setup_conn_req r) =
      (Cases.Still-setup_conn env c.process_id c.body_read r).at s k
  serve-Named (Messages.post_send_req r) =
      (Cases.Still-post_send env c.process_id c.body_read r).at s k
  serve-Named (Messages.post_recv_req r) =
      (Cases.Still-post_recv env c.process_id c.body_read r).at s k
  serve-Named (Messages.poll_cq_req r) = (Cases.Still-poll_cq env c.process_id c.body_read r).at s k
  serve-Named (Messages.dereg_mr_req r) =
      (Cases.Still-dereg_mr env c.process_id c.body_read r).at s k
  serve-Named (Messages.destroy_res_req r) =
      (Cases.Still-destroy_res env c.process_id c.body_read r).at s k
  serve-Named Messages.ibv_get_device_list_req =
      (Framed.Handlers.Still-get_device_list Named-Framed env 0 (pos 0)).at s k
  serve-Named Messages.ibv_alloc_pd_req = k
  serve-Named Messages.ibv_query_gid_req = k
  serve-Named Messages.ibv_query_port_req = k
  serve-Named (Messages.ibv_reg_mr_req r) =
      (Framed.Handlers.Still-reg_mr Named-Framed env c.process_id c.body_read r
          (Still-add_shm_piece env)).at
        s k
  serve-Named (Messages.ibv_create_qp_req r) =
      (Framed.Handlers.Still-create_qp Named-Framed env c.process_id c.body_read r).at s k
  serve-Named (Messages.ibv_post_send_req r) =
      (Framed.Handlers.Still-post_send Named-Framed env c.process_id c.body_read r).at s k
  serve-Named (Messages.ibv_post_recv_req r) =
      (Framed.Handlers.Still-post_recv Named-Framed env c.process_id c.body_read r).at s k
  serve-Named (Messages.ibv_poll_cq_req r) =
      (Framed.Handlers.Still-poll_cq Named-Framed env c.process_id c.body_read r).at s k
  serve-Named (Messages.ibv_destroy_cq_req r) =
      (Framed.Handlers.Still-destroy_cq Named-Framed env c.process_id c.body_read r).at s k
  serve-Named (Messages.ibv_dereg_mr_req r) =
      (Framed.Handlers.Still-dereg_mr Named-Framed env c.process_id c.body_read r).at s k
  serve-Named (Messages.ibv_modify_qp_req r) =
      (Cases.Still-modify_qp env c.process_id c.body_read c.arrivals r).at s k
  serve-Named (Messages.ibv_destroy_qp_req r) =
      (Cases.Still-destroy_qp env c.process_id c.body_read r).at s k
  serve-Named Messages.unknown = k

  handle_process-Named : Named (handle_process env c s).1
  unfolding handle_process
  handle_process-Named = elim (Bool-cases (read_short c.header_read (sizeof header_fields))) [
    | inl short ↦ rw short k
    | inr whole ↦ rw whole (Post-Named (serve env c s) (serve-Named c.request))
  ]

run-Named : (env : Env) (s t : Router) → Named s → Runs env s t → Named t
run-Named env s _ k start = k
run-Named env s _ k (session {t} r c) = handle_process-Named env c t (run-Named env s t k r)
run-Named env s _ k (message {t} r i) =
    Post-Named _ ((Still-handle_remote_router Named-Framed i).at t (run-Named env s t k r))

booted-Named : (config : Config) (g : GlobalResources) → Named (booted config g)
booted-Named config g id =
    subst (λ o. Numbered id 0 (elim o [ none ↦ [] | some v ↦ v ])) (sym (find-empty id)) tt

-- The name of the piece at a position
Numbered-name :
    (id i n : ℕ) (v : List ShmPiece) (sp : ShmPiece)
    → Numbered id i v
    → get_elem? v n ≡ some sp
    → sp.name ≡ shm_name_of id sp.size (to_signed 32 (i + n))
Numbered-name id i n [] sp k e = absurd (cc e)
Numbered-name id i zero (x ∷ v) sp k e =
    let same : x ≡ sp = cc e in
    subst (λ (y : ShmPiece). y.name ≡ shm_name_of id y.size (to_signed 32 (i + 0))) same
      (subst (λ j. x.name ≡ shm_name_of id x.size (to_signed 32 j)) (omega arith) (k.0))
Numbered-name id i (suc n) (x ∷ v) sp k e =
    subst (λ j. sp.name ≡ shm_name_of id sp.size (to_signed 32 j)) (omega arith)
      (Numbered-name id (suc i) n v sp (k.1) e)

-- An `int` that was made of an unsigned value has its low 32 bits.
signed_back : (n : ℕ) → to_unsigned 32 (to_signed 32 n) ≡ n % 2 ^ 32
signed_back n = ground arith

run-same :
    (env : Env) (config : Config) (g : GlobalResources) (t : Router) (p q i j : ℕ) (a b : ShmPiece)
    → Runs env (booted config g) t
    → get_elem? (pieces_of t.shm_map p) i ≡ some a
    → get_elem? (pieces_of t.shm_map q) j ≡ some b
    → a.name ≡ b.name
    → (p ≡ q) × (i % 2 ^ 32 ≡ j % 2 ^ 32)
run-same env config g t p q i j a b r at_i at_j same =
    let named = run-Named env (booted config g) t (booted-Named config g) r in
    let name_a = Numbered-name p 0 i _ a (named p) at_i in
    let name_b = Numbered-name q 0 j _ b (named q) at_j in
    let (process, size, position) =
      shm_name_of_injective p q a.size b.size (to_signed 32 (0 + i)) (to_signed 32 (0 + j))
        (sym name_a ∙ same ∙ name_b) in
    let back_i = signed_back (0 + i) in
    let back_j = signed_back (0 + j) in
    (process, omega (arith, back_i, back_j, ap (to_unsigned 32) position))

-- Whatever clients and other routers ask of a router since its start, in any order and with any
-- errors, two pieces of shared memory that it has made, for different processes or at positions of one
-- process that differ modulo 2^32, have different names.
pub run-distinct :
    (env : Env) (config : Config) (g : GlobalResources) (t : Router) (p q i j : ℕ) (a b : ShmPiece)
    → Runs env (booted config g) t
    → get_elem? (pieces_of t.shm_map p) i ≡ some a
    → get_elem? (pieces_of t.shm_map q) j ≡ some b
    → (p ≡ q → i % 2 ^ 32 ≢ j % 2 ^ 32)
    → a.name ≢ b.name
run-distinct env config g t p q i j a b r at_i at_j apart same =
    let (process, position) = run-same env config g t p q i j a b r at_i at_j same in
    apart process position
