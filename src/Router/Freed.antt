-- ===== src/Router/Freed.antt =====
-- scalerouter/scalerouter.cpp: an object that is looked up, destroyed by IBV_DESTROY_QP, and used.
use mathlib.Core.Path.{subst}
use cs252aproject.Base.{
  ℕ, ◌≡◌, refl, true, false, Option, none, some, List, [], ◌∷◌, nat_eq, nat_beq, if◌then◌else◌,
}
use cs252aproject.Base.Int.{ℤ}
use cs252aproject.Base.Map.{find, insert, erase, find-insert_self, find-erase_self}
use cs252aproject.Common.Keys.{Gid, host_key_eq}
use cs252aproject.Common.Messages.{IbvDestroyQpReq, Response, ibv_destroy_qp, ibv_destroy_qp_rsp}
use cs252aproject.Common.Layout.{req_size}
use cs252aproject.Router.State.{Env, Router, Call, ConnResources, Operation, Info}
use cs252aproject.Router.Exec.{
  Fault, Result, pure, ok, err, undefined, perform, deref, store, free, lock_conn, unlock_conn,
  ◌>>=◌,
}
use cs252aproject.Router.Triple.{
  Post, Triple, Keeps, keeps_rules, bind_rule, Keeps-bind, Keeps-if, Keeps-pure, Keeps-gets,
}
use cs252aproject.Router.Wire.{read_short, read_body}
use cs252aproject.Router.Resources.{destroy_failed, resources_destroy}
use cs252aproject.Router.Remote.{connect_first, send_info, update_dst_router}
use cs252aproject.Router.Handlers.Attach.{count_down}
use cs252aproject.Router.Handlers.Transfer.{find_conn, post_on, poll_on}
use cs252aproject.Router.Handlers.QueuePair.{
  take_src_qp, release_host, drop_user, stale_qp_num, destroy_host, handle_ibv_destroy_qp,
}
use cs252aproject.Router.Invariant.Frame.{settled, settled_eq}
use cs252aproject.Router.Invariant.Objects.{LiveObject}
use cs252aproject.Router.Isolation.Held.{find_conn_lem}
use cs252aproject.Router.Isolation.Overlap.{Use, post, poll, use_conn}

-- No fault is met.
abbrev Never : Fault → Router → Type 0
Never f s = ⊥

module _ (p : ℕ) where
  -- There is an object at the address, or there is none any more.
  abbrev There : Router → Type 0
  There s = (r : ConnResources) × (find s.conns p ≡ some r)

  abbrev pub Gone : Router → Type 0
  Gone s = find s.conns p ≡ none

  There-perform :
      {A : Type 0} (c : Call) (answer : List Call → A) → Keeps Never There (perform c answer)
  unfolding perform
  There-perform c answer = record { at = λ s h. h }

  There-deref : Keeps Never There (deref p)
  unfolding deref
  There-deref = record { at = λ s h. rw h.1 h }

  There-store : (x : ConnResources) → Keeps Never There (store p x)
  unfolding store
  There-store x = record { at = λ s h. (x, find-insert_self s.conns p x) }

  There-unlock_conn : Keeps Never There (unlock_conn p)
  unfolding unlock_conn
  There-unlock_conn = Keeps-bind _ _ There-deref λ c. There-store _

  There-destroy_failed :
      (env : Env) (o : Option ℕ) (call : ℕ → Call) → Keeps Never There (destroy_failed env o call)
  There-destroy_failed env none call = Keeps-pure _
  There-destroy_failed env (some q) call = search (keeps_rules, There-perform)

  There-resources_destroy : (env : Env) → Keeps Never There (resources_destroy env p)
  unfolding resources_destroy
  There-resources_destroy env =
      search (keeps_rules, There-deref, There-store, There-destroy_failed) depth 20

  There-connect_first : (env : Env) (list : List ℕ) → Keeps Never There (connect_first env list)
  unfolding connect_first
  There-connect_first env [] = search keeps_rules
  There-connect_first env (a ∷ rest) =
      let later = There-connect_first env rest in
      Keeps-bind _ _ (There-perform _ _) λ fd.
        Keeps-if _ _ _ later
          (Keeps-bind _ _ (There-perform _ _) λ rc. Keeps-if _ _ _ later (Keeps-pure _))

  There-stale_qp_num :
      (env : Env)
      → ((h : List Call) → (q : ℕ) × (env.freed_qp_num h ≡ some q))
      → Keeps Never There (stale_qp_num env)
  unfolding stale_qp_num
  There-stale_qp_num env readable = record { at = λ s h. rw (readable s.calls).1 h }

  There-send_info :
      (env : Env) (i : Info) (target : Option (ℕ × ℤ)) → Keeps Never There (send_info env i target)
  unfolding send_info
  There-send_info env i none = search keeps_rules
  There-send_info env i (some (a, fd)) = search (keeps_rules, There-perform)

  There-update_dst_router :
      (env : Env) (op : Operation) (gid : Gid) (dst phy : ℕ)
      → Keeps Never There (update_dst_router env op gid dst phy)
  unfolding update_dst_router
  There-update_dst_router env op gid dst phy =
      search (keeps_rules, There-perform, There-connect_first, There-send_info)

  abbrev Unlocked : Router → Type 0
  Unlocked s = (r : ConnResources) × (find s.conns p ≡ some r) × (r.locked ≡ false)

  lock_conn_rule : Triple Never Unlocked (lock_conn p) (λ _. There)
  unfolding lock_conn
  lock_conn_rule = record {
    at = λ s (r, there, unheld). simp (there, unheld) (_, find-insert_self s.conns p _);
  }

  free_rule : Triple Never There (free p) (λ _. Gone)
  unfolding free
  free_rule = record { at = λ s h. find-erase_self s.conns p }

  destroy_host_rule :
      (env : Env)
      → ((h : List Call) → (q : ℕ) × (env.freed_qp_num h ≡ some q))
      → (dst : ℕ) → Triple Never Unlocked (destroy_host env dst p) (λ _. Gone)
  unfolding destroy_host
  destroy_host_rule env readable dst =
      bind_rule Unlocked _ _ (λ _. There) lock_conn_rule
        λ c.
          bind_rule There _ _ (λ _. There) (There-resources_destroy env)
            λ failed.
              bind_rule There _ _ (λ _. There) (Keeps-gets _)
                λ gid.
                  bind_rule There _ _ (λ _. There) (There-stale_qp_num env readable)
                    λ stale.
                      bind_rule There _ _ (λ _. There) (There-update_dst_router env _ _ _ _)
                        λ sent.
                          bind_rule There _ _ (λ _. There) There-unlock_conn
                            λ u. bind_rule There _ _ (λ _. Gone) free_rule λ v. Keeps-pure _

-- A freed object cannot be used.
use_conn-Gone :
    (env : Env) (p : ℕ) (u : Use) (s : Router) → Gone p s → (use_conn env p u s).0 ≡ err undefined
unfolding use_conn post_on poll_on lock_conn deref ◌>>=◌
use_conn-Gone env p (post request) s gone = simp gone refl
use_conn-Gone env p (poll n) s gone = simp gone refl

module _ (env : Env) (readable : (h : List Call) → (q : ℕ) × (env.freed_qp_num h ≡ some q))
    (process_id : ℕ) (n : ℤ) (req : IbvDestroyQpReq) (p : ℕ)
    (whole : read_short n (req_size ibv_destroy_qp) ≡ false) where
  abbrev Frees : Router → Type 0
  Frees s = Post (λ _. Gone p) Never (handle_ibv_destroy_qp env process_id n req s)

  settled-Frees :
      (s : Router) (l : LiveObject (settled s) p)
      → find s.src_qp_map req.qp_handle ≡ some l.key
      → nat_beq (count_down l.object.ref_cnt) 0 ≡ true
      → Frees (settled s)
  unfolding handle_ibv_destroy_qp read_body take_src_qp release_host drop_user ◌>>=◌
  settled-Frees s l user last =
      let object : ConnResources = record l.object { ref_cnt = count_down l.object.ref_cnt } in
      let dropped : Router = record (settled s) {
        src_qp_map = erase s.src_qp_map req.qp_handle;
        conns = insert s.conns p object;
        host_map = erase s.host_map l.key;
      } in
      let rest =
        bind_rule (Unlocked p) (destroy_host env req.dst_v_qp_num p)
          (λ flags. pure (ibv_destroy_qp_rsp (if flags then 1 else 0))) (λ _. Gone p)
          (destroy_host_rule p env readable req.dst_v_qp_num) (λ flags. Keeps-pure _) in
      simp (whole, user, l.serves.0, l.serves.1, last)
        (rest.at dropped (object, find-insert_self s.conns p object, l.serving.free))

  Gone-after : (x : Result Response × Router) → Post (λ _. Gone p) Never x → Gone p x.1
  Gone-after (ok a, s) h = h
  Gone-after (err f, s) h = absurd h

  destroyed-Gone :
      (s : Router) (l : LiveObject s p)
      → find s.src_qp_map req.qp_handle ≡ some l.key
      → nat_beq (count_down l.object.ref_cnt) 0 ≡ true
      → Gone p (handle_ibv_destroy_qp env process_id n req s).1
  destroyed-Gone s l user last = Gone-after _ (
      subst
        (λ t.
          (l : LiveObject t p)
          → find s.src_qp_map req.qp_handle ≡ some l.key
          → nat_beq (count_down l.object.ref_cnt) 0 ≡ true
          → Frees t)
        (settled_eq s l.sound.free_locks) (settled-Frees s) l user last)

  -- Where the memory of a destroyed queue pair can still be read, which IBV_DESTROY_QP does: a
  -- virtual queue pair is the last user of an object that serves. A thread looks the object up for
  -- it, and then a session destroys it with a request that is read whole, before the thread has used
  -- the object: the object is freed, and its use by the thread is undefined behaviour.
  pub use_conn-crashes :
      (s : Router) (l : LiveObject s p) (u : Use)
      → find s.src_qp_map req.qp_handle ≡ some l.key
      → l.object.ref_cnt ≡ 1
      → (find_conn req.qp_handle s ≡ (ok p, s))
        × ((use_conn env p u (handle_ibv_destroy_qp env process_id n req s).1).0 ≡ err undefined)
  use_conn-crashes s l u user one =
      let last : nat_beq (count_down l.object.ref_cnt) 0 ≡ true = rw one refl in
      (
        find_conn_lem req.qp_handle p l.key s l.sound (user, l.serves.0),
        use_conn-Gone env p u _ (destroyed-Gone s l user last),
      )
