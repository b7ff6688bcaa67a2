-- ===== src/Router/Framed/Actions.antt =====
-- The parts of the handlers that keep what is said of the maps of host keys, of users and of shared
-- memory.
use cs252aproject.Base.{ℕ, refl, true, false, Option, none, some, List, [], ◌∷◌, nat_eq, bytes_eq}
use cs252aproject.Base.Int.{ℤ}
use cs252aproject.Base.Map.{find, insert}
use cs252aproject.Common.Keys.{HostKey, host_key_eq, ConnInfo, Gid}
use cs252aproject.Common.Messages.{IbvDeregMrReq}
use cs252aproject.Router.State.{
  Env, Router, ibv_create_qp, ShmPiece, Call, Operation, Info, Wc, ConnResources, Qp,
}
use cs252aproject.Router.Exec.{lift, pure, killed, undefined, blocked, cq_qp, dst_qp, ◌>>=◌}
use cs252aproject.Router.Triple.{Keeps-bind, Keeps-pure, Keeps-if, Keeps-gets}
use cs252aproject.Router.Resources.{
  resources_create, resources_destroy, destroy_failed, create_qp_on, modify_qp_to_ready,
  modify_qp_to_init, modify_qp_to_rtr, modify_qp_to_rts,
}
use cs252aproject.Router.Remote.{
  handle_remote_router, handle_all, await_dst, connect_first, send_info, update_dst_router,
}
use cs252aproject.Router.Shm.{open_piece}
use cs252aproject.Router.Handlers.Attach.{settle, qp_num_of}
use cs252aproject.Router.Handlers.Memory.{
  record_offset, erase_offset, release_owned, release_memory,
}
use cs252aproject.Router.Handlers.Transfer.{find_conn, post_on, poll_on, poll_rsp}
use cs252aproject.Router.Handlers.QueuePair.{
  claim_cq, drop_cq, find_host_leaky, bring_up, make_ready, stale_qp_num, destroy_host,
}
use cs252aproject.Router.Framed.Rules.{
  Framed, Still, still_rules, Still-modify, Still-option, Still-lock, Still-unlock, Still-fail,
  Still-lift, Still-perform, Still-deref, Still-store,
}

module _ {P : Router → Type 0} (fr : Framed P) where
  pub Still-record_offset : (lkey offset : ℕ) → Still P (record_offset lkey offset)
  unfolding record_offset
  Still-record_offset lkey offset = search still_rules depth 20

  pub Still-erase_offset : (lkey : ℕ) → Still P (erase_offset lkey)
  unfolding erase_offset
  Still-erase_offset lkey = search still_rules depth 20

  pub Still-claim_cq : (cq qp : ℕ) → Still P (claim_cq cq qp)
  unfolding claim_cq
  Still-claim_cq cq qp = Keeps-bind _ _ (Still-lock fr cq_qp) λ u.
      Keeps-bind _ _ (Keeps-gets (λ s. find s.cq_qp_map cq)) λ entry.
        Still-option fr entry _ _
          (Keeps-bind _ _
            (Still-modify fr (λ s. record s { cq_qp_map = insert s.cq_qp_map cq qp }) (λ s. refl)
              (λ s. refl) (λ s. refl))
            λ v. Still-unlock fr cq_qp)
          (λ other. Keeps-bind _ _ (Still-unlock fr cq_qp) λ v. Still-fail fr killed)

  pub Still-drop_cq : (cq : ℕ) → Still P (drop_cq cq)
  unfolding drop_cq
  Still-drop_cq cq = search still_rules depth 20

  pub Still-find_conn : (handle : ℕ) → Still P (find_conn handle)
  unfolding find_conn
  Still-find_conn handle = search still_rules depth 20

  pub Still-handle_remote_router : (i : Info) → Still P (handle_remote_router i)
  unfolding handle_remote_router
  Still-handle_remote_router i = search still_rules depth 20

  pub Still-post_on : (env : Env) (p : ℕ) (request : ℕ → Call) → Still P (post_on env p request)
  unfolding post_on
  Still-post_on env p request = search still_rules depth 20

  pub Still-poll_on : (env : Env) (p : ℕ) (n : ℤ) → Still P (poll_on env p n)
  unfolding poll_on
  Still-poll_on env p n = search still_rules depth 20

  Still-release_owned : (env : Env) (req : IbvDeregMrReq) → Still P (release_owned env req)
  unfolding release_owned
  Still-release_owned env req = search still_rules depth 20

  pub Still-release_memory : (env : Env) (req : IbvDeregMrReq) → Still P (release_memory env req)
  unfolding release_memory
  Still-release_memory env req =
      Keeps-bind _ _ (Keeps-gets (λ s. s.calls))
        λ h. Keeps-if _ _ _ (Still-release_owned env req) (Still-fail fr undefined)

  pub Still-poll_rsp :
      (env : Env) (num poll : ℤ) (wc : List Wc) → Still P (poll_rsp env num poll wc)
  Still-poll_rsp env num poll wc = search still_rules depth 20

  pub Still-open_piece : (env : Env) (sp : ShmPiece) → Still P (open_piece env sp)
  unfolding open_piece
  Still-open_piece env sp = search still_rules depth 20

  pub Still-connect_first : (env : Env) (list : List ℕ) → Still P (connect_first env list)
  unfolding connect_first
  Still-connect_first env [] = search still_rules
  Still-connect_first env (a ∷ rest) =
      let later = Still-connect_first env rest in
      Keeps-bind _ _ (Still-perform fr _ _) λ fd.
        Keeps-if _ _ _ later
          (Keeps-bind _ _ (Still-perform fr _ _) λ rc. Keeps-if _ _ _ later (Keeps-pure _))

  pub Still-send_info :
      (env : Env) (i : Info) (target : Option (ℕ × ℤ)) → Still P (send_info env i target)
  unfolding send_info
  Still-send_info env i none = search still_rules
  Still-send_info env i (some (a, fd)) = search still_rules depth 20

  pub Still-update_dst_router :
      (env : Env) (op : Operation) (gid : Gid) (dst phy : ℕ)
      → Still P (update_dst_router env op gid dst phy)
  unfolding update_dst_router
  Still-update_dst_router env op gid dst phy =
      search (still_rules, Still-connect_first, Still-send_info) depth 20

  Still-handle_all : (batch : List Info) → Still P (handle_all batch)
  unfolding handle_all
  Still-handle_all [] = Keeps-pure tt
  Still-handle_all (i ∷ batch) =
      Keeps-bind _ _ (Still-handle_remote_router i) (λ _. Still-handle_all batch)

  pub Still-await_dst : (gid : Gid) (arrivals : List (List Info)) → Still P (await_dst gid arrivals)
  unfolding await_dst
  Still-await_dst gid [] = Keeps-bind _ _ (Still-lock fr dst_qp) λ u.
      Keeps-bind _ _ (Keeps-gets (λ s. find s.dst_qp_map gid)) λ entry.
        Keeps-bind _ _ (Still-unlock fr dst_qp)
          λ v. Still-option fr entry _ _ (Still-fail fr blocked) (λ q. Keeps-pure q)
  Still-await_dst gid (batch ∷ arrivals) = Keeps-bind _ _ (Still-lock fr dst_qp) λ u.
      Keeps-bind _ _ (Keeps-gets (λ s. find s.dst_qp_map gid)) λ entry.
        Keeps-bind _ _ (Still-unlock fr dst_qp) λ v.
          Still-option fr entry _ _
            (Keeps-bind _ _ (Still-handle_all batch) (λ _. Still-await_dst gid arrivals))
            (λ q. Keeps-pure q)

  Still-destroy_failed :
      (env : Env) (o : Option ℕ) (call : ℕ → Call) → Still P (destroy_failed env o call)
  Still-destroy_failed env none call = search still_rules
  Still-destroy_failed env (some p) call = search still_rules depth 20

  pub Still-resources_destroy : (env : Env) (p : ℕ) → Still P (resources_destroy env p)
  unfolding resources_destroy
  Still-resources_destroy env p = search (still_rules, Still-destroy_failed) depth 20

  Still-created :
      (env : Env) (p : ℕ) (qp : Option Qp)
      → Still P
          (elim qp [ none ↦ resources_destroy env p >>= λ failed. pure true | some q ↦ pure false ])
  Still-created env p none = search (still_rules, Still-resources_destroy) depth 20
  Still-created env p (some q) = Keeps-pure false

  Still-create_qp_on : (env : Env) (p : ℕ) (cq : Option ℕ) → Still P (create_qp_on env p cq)
  unfolding create_qp_on
  Still-create_qp_on env p none = search (still_rules, Still-resources_destroy) depth 20
  Still-create_qp_on env p (some cq) =
      Keeps-bind _ _ (Still-perform fr (ibv_create_qp cq) env.create_qp) λ qp.
        Keeps-bind _ _ (Still-deref fr p)
          λ c. Keeps-bind _ _ (Still-store fr p (record c { qp = qp })) λ u. Still-created env p qp

  pub Still-resources_create : (env : Env) (p : ℕ) → Still P (resources_create env p)
  unfolding resources_create
  Still-resources_create env p = search (still_rules, Still-create_qp_on) depth 20

  pub Still-qp_num_of : (p : ℕ) → Still P (qp_num_of p)
  unfolding qp_num_of
  Still-qp_num_of p = search still_rules depth 20

  pub Still-settle : (env : Env) (new : ℕ) (old : Option ℕ) → Still P (settle env new old)
  unfolding settle
  Still-settle env new none = search (still_rules, Still-resources_create, Still-qp_num_of) depth 20
  Still-settle env new (some old) =
      search (still_rules, Still-resources_destroy, Still-qp_num_of) depth 20

  pub Still-find_host_leaky : (key : HostKey) → Still P (find_host_leaky key)
  unfolding find_host_leaky
  Still-find_host_leaky key = search still_rules depth 20

  Still-modify_qp_to_ready :
      (env : Env) (info : ConnInfo) (q : Qp) → Still P (modify_qp_to_ready env info q)
  unfolding modify_qp_to_ready modify_qp_to_init modify_qp_to_rtr modify_qp_to_rts
  Still-modify_qp_to_ready env info q = search still_rules depth 20

  Still-bring_up :
      (env : Env) (info : ConnInfo) (p : ℕ) (c : ConnResources) → Still P (bring_up env info p c)
  unfolding bring_up
  Still-bring_up env info p c = search (still_rules, Still-modify_qp_to_ready) depth 20

  pub Still-make_ready : (env : Env) (info : ConnInfo) (p : ℕ) → Still P (make_ready env info p)
  unfolding make_ready
  Still-make_ready env info p = search (still_rules, Still-bring_up) depth 20

  Still-stale_qp_num : (env : Env) → Still P (stale_qp_num env)
  unfolding stale_qp_num lift
  Still-stale_qp_num env = record {
    at = λ s k. (Still-lift fr (env.freed_qp_num s.calls) undefined).at s k;
  }

  pub Still-destroy_host : (env : Env) (dst p : ℕ) → Still P (destroy_host env dst p)
  unfolding destroy_host
  Still-destroy_host env dst p =
      search (still_rules, Still-stale_qp_num, Still-resources_destroy, Still-update_dst_router)
        depth 20
