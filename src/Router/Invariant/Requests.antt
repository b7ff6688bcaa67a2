-- ===== src/Router/Invariant/Requests.antt =====
-- Each handler of an IBV_ request keeps the invariant.
use mathlib.Core.Path.{subst}
use cs252aproject.Base.Map.{find}
use cs252aproject.Router.Wire.{read_body}
use cs252aproject.Base.{
  ◌⊎◌, false, if◌then◌else◌, ℕ, ◌≡◌, refl, Bool, true, Option, none, some, List, Option-cases, inl,
  inr, ltb, nat_eq, ◌∷◌, length,
}
use cs252aproject.Base.Int.{ℤ, to_signed}
use cs252aproject.Common.Messages.{
  ibv_dereg_mr, IbvRegMrReq, IbvDeregMrReq, IbvCreateQpReq, IbvPostSendReq, IbvPostRecvReq,
  IbvPollCqReq,
}
use cs252aproject.Router.State.{Env, Router, ShmPiece, Wc, shm_open, ftruncate, mmap}
use cs252aproject.Router.Exec.{fail, gets, ◌>>=◌, pure, non_null, lift, or_fail, killed}
use cs252aproject.Router.Triple.{
  Post, Triple, Keeps, bind_rule, Keeps-bind, Keeps-pure, Keeps-if, Keeps-when,
}
use cs252aproject.Router.Shm.{add_shm_piece, pieces_of, shm_name_of}
use cs252aproject.Router.Handlers.Memory.{
  handle_ibv_reg_mr, handle_ibv_dereg_mr, erase_offset, release_owned, release_memory, owns,
}
use cs252aproject.Router.Handlers.Query.{handle_ibv_get_device_list}
use cs252aproject.Router.Handlers.Transfer.{
  handle_ibv_post_send, handle_ibv_post_recv, handle_ibv_poll_cq, poll_rsp, count_of,
}
use cs252aproject.Router.Handlers.QueuePair.{handle_ibv_create_qp, handle_ibv_destroy_cq}
use cs252aproject.Router.Invariant.Defs.{IsSound, Sound, Fails}
use cs252aproject.Router.Invariant.Frame.{
  settled_eq, settled_triple, Keeps-locked_find, Keeps-perform, Keeps-lift_killed, Keeps-kill,
  Keeps-read_body, Keeps-record_offset, Keeps-claim_cq, Keeps-drop_cq,
}
use cs252aproject.Router.Invariant.Objects.{Live, post_on_rule, poll_on_rule}
use cs252aproject.Router.Invariant.Lookup.{find_conn_rule}

abbrev Piece : Option ShmPiece → Router → Type 0
Piece none s = Sound s
Piece (some sp) s = Sound s × ((p : ℕ) × (sp.ptr ≡ some p))

-- IBV_DEREG_MR touches no memory, or only the daemon's own.
abbrev pub Releasable : Env → IbvDeregMrReq → Router → Type 0
Releasable env req s = (find s.lkey_offset_map req.lkey ≡ none) ⊎ (owns env req s.calls ≡ true)

module _ (w : Bool) (env : Env) where
  -- A piece that is handed out is mapped.
  add_shm_piece_rule :
      (process_id : ℕ) (size : ℤ) → Triple (Fails w) Sound (add_shm_piece env process_id size) Piece
  unfolding add_shm_piece
  add_shm_piece_rule process_id size =
      settled_triple w IsSound (λ c h. h) _ _
        λ s h.
          let fd = env.rc (
            shm_open
              (shm_name_of process_id size (to_signed 32 (length (pieces_of s.shm_map process_id))))
            ∷ s.calls) in
          let calls =
            mmap size fd
            ∷ ftruncate fd size
            ∷ shm_open (
                shm_name_of process_id size
                  (to_signed 32 (length (pieces_of s.shm_map process_id))))
            ∷ s.calls in
          elim (Option-cases (env.mmap_ptr calls)) [
            | inl failed ↦ rw (failed, add_shm_piece) h
            | inr (p, mapped) ↦ rw (mapped, add_shm_piece) (h, (p, refl))
          ]

  or_killed_rule :
      (o : Option ShmPiece)
      → Triple (Fails w) (Piece o) (lift (or_fail o killed)) (λ sp. Piece (some sp))
  unfolding lift
  or_killed_rule none = record { at = λ s h. h }
  or_killed_rule (some sp) = record { at = λ s h. h }

  mapped_rule : (sp : ShmPiece) → Triple (Fails w) (Piece (some sp)) (non_null sp.ptr) (λ _. Sound)
  unfolding pure
  mapped_rule sp = record { at = λ s h. rw (h.1.1, pure) h.0 }

  pub Keeps-reg_mr :
      (process_id : ℕ) (n : ℤ) (req : IbvRegMrReq)
      → Keeps (Fails w) Sound (handle_ibv_reg_mr env process_id n req)
  unfolding handle_ibv_reg_mr
  Keeps-reg_mr process_id n req = Keeps-bind _ _ (Keeps-read_body w IsSound (λ c h. h) n _) λ u.
      bind_rule Sound _ _ Piece (add_shm_piece_rule _ _) λ piece.
        bind_rule (Piece piece) _ _ (λ sp. Piece (some sp)) (or_killed_rule piece)
          λ sp.
            bind_rule (Piece (some sp)) _ _ (λ _. Sound) (mapped_rule sp)
              λ addr. Keeps-bind _ _ (Keeps-perform w IsSound (λ c h. h) _ _) λ reg.
                Keeps-bind _ _ (Keeps-lift_killed w IsSound (λ c h. h) reg) λ mr.
                  Keeps-bind _ _ (Keeps-record_offset w IsSound (λ c h. h) _ _) λ v. Keeps-pure _

module _ (w : Bool) (env : Env) (process_id : ℕ) (n : ℤ) where
  pub Keeps-post_send :
      (req : IbvPostSendReq) → Keeps (Fails w) Sound (handle_ibv_post_send env process_id n req)
  unfolding handle_ibv_post_send
  Keeps-post_send req = Keeps-bind _ _ (Keeps-read_body w IsSound (λ c h. h) n _) λ u.
      Keeps-bind _ _ (Keeps-locked_find w IsSound (λ c h. h) _ _) λ offset.
        bind_rule Sound _ _ Live (find_conn_rule w _)
          λ p. bind_rule (Live p) _ _ (λ _. Sound) (post_on_rule env p _) λ v. Keeps-pure _

  pub Keeps-post_recv :
      (req : IbvPostRecvReq) → Keeps (Fails w) Sound (handle_ibv_post_recv env process_id n req)
  unfolding handle_ibv_post_recv
  Keeps-post_recv req = Keeps-bind _ _ (Keeps-read_body w IsSound (λ c h. h) n _) λ u.
      Keeps-bind _ _ (Keeps-locked_find w IsSound (λ c h. h) _ _) λ offset.
        Keeps-bind _ _ (Keeps-when _ _ (Keeps-kill w IsSound (λ c h. h))) λ v.
          bind_rule Sound _ _ Live (find_conn_rule w _)
            λ p. bind_rule (Live p) _ _ (λ _. Sound) (post_on_rule env p _) λ v. Keeps-pure _

  Keeps-poll_rsp :
      (num poll : ℤ) (wc : List Wc)
      → ltb 0 (count_of num) ≡ true
      → Keeps (Fails w) Sound (poll_rsp env num poll wc)
  Keeps-poll_rsp num poll wc room = rw room (Keeps-pure _)

  -- With room for one completion
  pub Keeps-poll_cq :
      (req : IbvPollCqReq)
      → ltb 0 (count_of req.num_entries) ≡ true
      → Keeps (Fails w) Sound (handle_ibv_poll_cq env process_id n req)
  unfolding handle_ibv_poll_cq
  Keeps-poll_cq req room = Keeps-bind _ _ (Keeps-read_body w IsSound (λ c h. h) n _) λ u.
      bind_rule Sound _ _ Live (find_conn_rule w _) λ p.
        bind_rule (Live p) _ _ (λ _. Sound) (poll_on_rule env p _)
          λ r.
            Keeps-if _ _ _ (Keeps-poll_rsp req.num_entries r.0 r.1 room)
              (Keeps-kill w IsSound (λ c h. h))

  Keeps-release_owned : (req : IbvDeregMrReq) → Keeps (Fails w) Sound (release_owned env req)
  unfolding release_owned
  Keeps-release_owned req = Keeps-bind _ _ (Keeps-perform w IsSound (λ c h. h) _ _) λ rc.
      Keeps-if _ _ _ (Keeps-kill w IsSound (λ c h. h)) (
        Keeps-bind _ _ (Keeps-perform w IsSound (λ c h. h) _ _) λ a.
          Keeps-bind _ _ (Keeps-perform w IsSound (λ c h. h) _ _)
            λ b. Keeps-bind _ _ (Keeps-perform w IsSound (λ c h. h) _ _) λ c. Keeps-pure _)

  abbrev Own : IbvDeregMrReq → Bool → Router → Type 0
  Own req true s = Sound s × (owns env req s.calls ≡ true)
  Own req false s = Sound s

  erase_offset_rule :
      (req : IbvDeregMrReq)
      → Triple (Fails w) (λ s. Sound s × Releasable env req s) (erase_offset req.lkey) (Own req)
  unfolding erase_offset
  erase_offset_rule req = record {
    at = λ s (h, ready).
        let e = settled_eq s h.free_locks in
        subst
          (λ t. Sound t × Releasable env req t → Post (Own req) (Fails w) (erase_offset req.lkey t))
          e
          (λ k. elim (Option-cases (find s.lkey_offset_map req.lkey)) [
            | inl absent ↦ rw (absent, erase_offset) k.0
            | inr (offset, there) ↦ elim k.1 [
              | inl absent ↦ absurd (cc (absent, there))
              | inr own ↦ rw (there, erase_offset) (k.0, own)
            ]
          ])
          (h, ready);
  }

  release_memory_rule :
      (req : IbvDeregMrReq) (mapped : Bool)
      → Triple
          (Fails w)
          (Own req mapped)
          (if mapped then release_memory env req else pure false)
          (λ _. Sound)
  unfolding release_memory gets ◌>>=◌
  release_memory_rule req true = record {
    at = λ s (h, own). rw own ((Keeps-release_owned req).at s h);
  }
  release_memory_rule req false = Keeps-pure false

  fail_ready_rule :
      (req : IbvDeregMrReq)
      → Keeps {A = Unit {0}} (Fails w) (λ s. Sound s × Releasable env req s) (fail killed)
  unfolding fail
  fail_ready_rule req = record { at = λ s h. h.0 }

  read_ready_rule :
      (req : IbvDeregMrReq)
      → Keeps (Fails w) (λ s. Sound s × Releasable env req s) (read_body n ibv_dereg_mr)
  unfolding read_body
  read_ready_rule req = Keeps-when _ _ (fail_ready_rule req)

  pub dereg_mr_rule :
      (req : IbvDeregMrReq)
      → Triple
          (Fails w)
          (λ s. Sound s × Releasable env req s)
          (handle_ibv_dereg_mr env process_id n req)
          (λ _. Sound)
  unfolding handle_ibv_dereg_mr
  dereg_mr_rule req =
      bind_rule _ _ _ (λ _ s. Sound s × Releasable env req s) (read_ready_rule req)
        λ u. bind_rule _ _ _ (Own req) (erase_offset_rule req) λ mapped.
          bind_rule _ _ _ (λ _. Sound) (release_memory_rule req mapped) λ flags. Keeps-pure _

  pub Keeps-create_qp :
      (req : IbvCreateQpReq) → Keeps (Fails w) Sound (handle_ibv_create_qp env process_id n req)
  unfolding handle_ibv_create_qp
  Keeps-create_qp req = Keeps-bind _ _ (Keeps-read_body w IsSound (λ c h. h) n _) λ u.
      Keeps-bind _ _ (Keeps-claim_cq w IsSound (λ c h. h) _ _)
        λ v. Keeps-bind _ _ (Keeps-perform w IsSound (λ c h. h) _ _) λ a. Keeps-pure _

  -- With the large buffer
  pub get_device_list_lem :
      (s : Router)
      → s.config.disable_rdma ≡ false
      → Sound s
      → Post (λ _. Sound) (Fails w) (handle_ibv_get_device_list s)
  unfolding handle_ibv_get_device_list gets ◌>>=◌
  get_device_list_lem s big h = simp big h

  pub Keeps-destroy_cq : (cq : ℕ) → Keeps (Fails w) Sound (handle_ibv_destroy_cq process_id n cq)
  unfolding handle_ibv_destroy_cq
  Keeps-destroy_cq cq =
      Keeps-bind _ _ (Keeps-read_body w IsSound (λ c h. h) n _)
        λ u. Keeps-bind _ _ (Keeps-drop_cq w IsSound (λ c h. h) _) λ found. Keeps-pure _
