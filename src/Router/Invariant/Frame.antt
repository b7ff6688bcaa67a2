-- ===== src/Router/Invariant/Frame.antt =====
-- Actions that keep the invariant because they touch nothing that it reads, and give back the
-- mutex that they take.
use cs252aproject.Base.{
  nat_eq, bytes_eq, ℕ, ◌≡◌, refl, sym, ap, Bool, true, Option, none, some, List, [], ◌∷◌,
  Option-cases, inl, inr,
}
use mathlib.Core.Path.{subst}
use cs252aproject.Base.Int.{ℤ}
use cs252aproject.Base.Map.{find}
use cs252aproject.Common.Messages.{FunctionCall}
use cs252aproject.Common.Keys.{Gid}
use cs252aproject.Router.State.{Operation, Env, Router, Call, Locks, unlocked, Info}
use cs252aproject.Router.Exec.{
  Exec, killed, fail, lift, or_fail, perform, Mutex, hostmap, locked_find,
}
use cs252aproject.Router.Wire.{read_body}
use cs252aproject.Router.Shm.{add_shm_piece}
use cs252aproject.Router.Remote.{
  handle_remote_router, handle_all, await_dst, connect_first, send_info, update_dst_router,
}
use cs252aproject.Router.Handlers.Memory.{record_offset, erase_offset}
use cs252aproject.Router.Handlers.QueuePair.{claim_cq, drop_cq}
use cs252aproject.Router.Triple.{
  Triple, Post, Keeps, keeps_rules, Keeps-when, Keeps-bind, Keeps-if, Keeps-pure,
}
use cs252aproject.Router.Invariant.Defs.{Core, core_of, IsSound, Fails}

abbrev pub settled : Router → Router
settled s = record s { locks = unlocked }

pub settled_eq : (s : Router) → s.locks ≡ unlocked → settled s ≡ s
settled_eq s h = ap (λ (l : Locks). record s { locks = l }) (sym h)

-- In a sound state all mutexes are free, so they may be taken for the constants that they are.
-- `K` is the invariant, or more that is said of the same parts of the router.
module _ (w : Bool) (K : Core → Type 0) (sound : (c : Core) → K c → IsSound c) where
  abbrev pub At : Router → Type 0
  At s = K (core_of s)

  pub settled_triple :
      {A : Type 0} (m : Exec A) (Q : A → Router → Type 0)
      → ((s : Router) → At (settled s) → Post Q (Fails w) (m (settled s)))
      → Triple (Fails w) At m Q
  settled_triple m Q h = record {
    at = λ s k.
        let e = settled_eq s (sound (core_of s) k).free_locks in
        subst (λ t. Post Q (Fails w) (m t)) e (h s (subst At (sym e) k));
  }

  pub settled_rule :
      {A : Type 0} (m : Exec A)
      → ((s : Router) → At (settled s) → Post (λ _. At) (Fails w) (m (settled s)))
      → Keeps (Fails w) At m
  settled_rule m h = settled_triple m (λ _. At) h

  pub Keeps-perform :
      {A : Type 0} (c : Call) (answer : List Call → A) → Keeps (Fails w) At (perform c answer)
  unfolding perform
  Keeps-perform c answer = record { at = λ s h. h }

  pub Keeps-lift_killed : {A : Type 0} (o : Option A) → Keeps (Fails w) At (lift (or_fail o killed))
  unfolding lift
  Keeps-lift_killed none = record { at = λ s h. sound (core_of s) h }
  Keeps-lift_killed (some a) = record { at = λ s h. h }

  pub Keeps-kill : {A : Type 0} → Keeps {A = A} (Fails w) At (fail killed)
  unfolding fail
  Keeps-kill = record { at = λ s h. sound (core_of s) h }

  pub Keeps-read_body : (n : ℤ) (f : FunctionCall) → Keeps (Fails w) At (read_body n f)
  unfolding read_body
  Keeps-read_body n f = Keeps-when _ _ Keeps-kill

  locked_find-settled :
      {A : Type 0} (m : Mutex) (f : Router → Option A) (s : Router)
      → At (settled s)
      → Post (λ _. At) (Fails w) (locked_find m f (settled s))
  unfolding locked_find
  locked_find-settled hostmap f s h = (Keeps-lift_killed _).at _ h
  locked_find-settled _ f s h = (Keeps-lift_killed _).at _ h

  pub Keeps-locked_find :
      {A : Type 0} (m : Mutex) (f : Router → Option A) → Keeps (Fails w) At (locked_find m f)
  Keeps-locked_find m f = settled_rule _ (locked_find-settled m f)

  pub Keeps-record_offset : (lkey offset : ℕ) → Keeps (Fails w) At (record_offset lkey offset)
  unfolding record_offset
  Keeps-record_offset lkey offset = settled_rule _ (λ s h. h)

  pub Keeps-erase_offset : (lkey : ℕ) → Keeps (Fails w) At (erase_offset lkey)
  unfolding erase_offset
  Keeps-erase_offset lkey = settled_rule _ (λ s h. h)

  pub Keeps-handle_remote_router : (i : Info) → Keeps (Fails w) At (handle_remote_router i)
  unfolding handle_remote_router
  Keeps-handle_remote_router i = settled_rule _ (λ s h. h)

  pub Keeps-add_shm_piece :
      (env : Env) (process_id : ℕ) (mem_size : ℤ)
      → Keeps (Fails w) At (add_shm_piece env process_id mem_size)
  unfolding add_shm_piece
  Keeps-add_shm_piece env process_id mem_size = settled_rule _ (λ s h. h)

  pub Keeps-claim_cq : (cq qp : ℕ) → Keeps (Fails w) At (claim_cq cq qp)
  unfolding claim_cq
  Keeps-claim_cq cq qp = settled_rule _ λ s h. elim (Option-cases (find s.cq_qp_map cq)) [
    | inl free ↦ rw (free, claim_cq) h
    | inr (other, taken) ↦ rw (taken, claim_cq) (sound _ h)
  ]

  pub Keeps-drop_cq : (cq : ℕ) → Keeps (Fails w) At (drop_cq cq)
  unfolding drop_cq
  Keeps-drop_cq cq = settled_rule _ (λ s h. h)

  pub Keeps-connect_first :
      (env : Env) (list : List ℕ) → Keeps (Fails w) At (connect_first env list)
  unfolding connect_first
  Keeps-connect_first env [] = search keeps_rules
  Keeps-connect_first env (a ∷ rest) =
      let later = Keeps-connect_first env rest in
      Keeps-bind _ _ (Keeps-perform _ _) λ fd.
        Keeps-if _ _ _ later
          (Keeps-bind _ _ (Keeps-perform _ _) λ rc. Keeps-if _ _ _ later (Keeps-pure _))

  Keeps-send_info :
      (env : Env) (i : Info) (target : Option (ℕ × ℤ)) → Keeps (Fails w) At (send_info env i target)
  unfolding send_info
  Keeps-send_info env i none = search keeps_rules
  Keeps-send_info env i (some (a, fd)) = search (keeps_rules, Keeps-perform)

  pub Keeps-update_dst_router :
      (env : Env) (op : Operation) (gid : Gid) (dst phy : ℕ)
      → Keeps (Fails w) At (update_dst_router env op gid dst phy)
  unfolding update_dst_router
  Keeps-update_dst_router env op gid dst phy =
      search (keeps_rules, Keeps-perform, Keeps-connect_first, Keeps-send_info)

-- The spin of IBV_MODIFY_QP may go on for ever, and keeps the invariant even so.
module _ (K : Core → Type 0) (sound : (c : Core) → K c → IsSound c) where
  Keeps-handle_all : (batch : List Info) → Keeps (Fails true) (At true K sound) (handle_all batch)
  unfolding handle_all
  Keeps-handle_all [] = Keeps-pure tt
  Keeps-handle_all (i ∷ batch) =
      Keeps-bind _ _ (Keeps-handle_remote_router true K sound i) (λ _. Keeps-handle_all batch)

  pub Keeps-await_dst :
      (gid : Gid) (arrivals : List (List Info))
      → Keeps (Fails true) (At true K sound) (await_dst gid arrivals)
  unfolding await_dst
  Keeps-await_dst gid [] = settled_rule true K sound _ λ s h.
      elim (Option-cases (find s.dst_qp_map gid)) [
        | inl missing ↦ rw (missing, await_dst) (refl, sound _ h)
        | inr (q, found) ↦ rw (found, await_dst) h
      ]
  Keeps-await_dst gid (batch ∷ arrivals) =
      let later = Keeps-bind _ _ (Keeps-handle_all batch) (λ _. Keeps-await_dst gid arrivals) in
      settled_rule true K sound _ λ s h. elim (Option-cases (find s.dst_qp_map gid)) [
        | inl missing ↦ rw (missing, await_dst) (later.at _ h)
        | inr (q, found) ↦ rw (found, await_dst) h
      ]
