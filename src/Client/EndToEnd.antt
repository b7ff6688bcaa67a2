-- ===== src/Client/EndToEnd.antt =====
-- A verb of the client, carried by `handle_process`, reaches the device.
use mathlib.Core.Path.{subst}
use cs252aproject.Base.{
  Option, get_or, ℕ, ◌≡◌, refl, true, some, List, ◌∷◌, nat_eq, nat_beq, nat_beq_iff, if◌then◌else◌,
  ◌⊎◌, inl, inr, Bool-cases, ◌<◌, ◌%◌, ◌^◌, ◌+◌, arith,
}
use cs252aproject.Base.Int.{ℤ, pos, is_zero, to_signed, to_unsigned}
use cs252aproject.Base.Map.{find}
use cs252aproject.Router.State
use cs252aproject.Router.State.{Env, Router, Call, Info, Wc, SendWr}
use cs252aproject.Router.Dispatch.{serve, handle_process}
use cs252aproject.Router.Handlers.Transfer
use cs252aproject.Router.Handlers.Transfer.{
  handle_ibv_post_send, handle_ibv_poll_cq, all_good, count_of, zero_wc,
}
use cs252aproject.Router.Invariant.Objects.{LiveObject}
use cs252aproject.Router.Completions.{Counted, IsSuccess, poll_cq-Polls}
use cs252aproject.Common.Messages.{IbvPollCqReq, ibv_post_send_rsp}
use cs252aproject.Router.Addressing.{Posts, post_send-Posts}
use cs252aproject.Client.State.{
  Client, VerbResult, done, fault, hung, request, done_with, reads, ◌>>=◌,
}
use cs252aproject.Client.Routed.{routed}
use cs252aproject.Client.Queue.{Cq, ScaleQp}
use cs252aproject.Client.Transfer.{
  ClientSendWr, ClientWc, send_request, post_send, poll_request, poll_with, poll_cq,
}

module _ (env : Env) (arrivals : List (List Info)) (qp : ScaleQp) (wr : ClientSendWr)
    (c : Client Router) (p offset : ℕ) (l : LiveObject c.link p) where
  -- The work request of the client as the device is to see it: its address moved by the offset, its
  -- wr_id through the `int` of the request, and no remote address where IBV_WR_SEND has none
  abbrev posted_wr : SendWr
  posted_wr = record {
    wr_id = to_unsigned 64 (to_signed 32 wr.wr_id);
    sge = record { addr = (wr.addr + offset) % 2 ^ 64; length = wr.length; lkey = wr.lkey };
    opcode = wr.opcode;
    send_flags = 2;
    remote_addr = if nat_beq wr.opcode 2 then 0 else wr.remote_addr;
    rkey = if nat_beq wr.opcode 2 then 0 else wr.rkey;
  }

  posted_wr_lem :
      wr.opcode < 0x1_0000_0000
      → wr.length < 0x1_0000_0000
      → Transfer.send_wr (send_request qp wr) offset ≡ posted_wr
  posted_wr_lem fits fits' =
      let code : wr.opcode % 2 ^ 32 ≡ wr.opcode = omega arith in
      let bytes : wr.length % 2 ^ 32 ≡ wr.length = omega arith in
      elim (Bool-cases (nat_beq wr.opcode 2)) [
        | inl send ↦ simp (code, bytes, send) refl
        | inr other ↦ simp (code, bytes, other) refl
      ]

  abbrev posted_call : Call
  posted_call = State.ibv_post_send l.serving.qp.ptr posted_wr

  -- How a verb that posts one request ends: with 0 if the device takes it; if the device refuses it,
  -- the call does not return.
  abbrev pub Reaches : VerbResult ℤ × Client Router → Type 0
  Reaches x =
      (x.0 ≡ (if is_zero (env.rc (posted_call ∷ c.link.calls)) then done (pos 0) else fault hung))
      × (x.1.link.calls ≡ posted_call ∷ c.link.calls)

  -- post_send with a mapped key, with an opcode and a length of 32 bits, on a queue pair whose handle
  -- the router knows and whose host key has a serving object: the device is asked once, on the queue
  -- pair of that object, to post the client's own request: its opcode, length, key and, unless it is
  -- IBV_WR_SEND, its remote address and key, with its address moved by the offset modulo 2^64.
  -- post_send returns 0 if the device takes the request, and does not return if the device refuses
  -- it.
  pub post_send-Reaches :
      wr.opcode < 0x1_0000_0000
      → wr.length < 0x1_0000_0000
      → find c.link.lkey_offset_map wr.lkey ≡ some offset
      → find c.link.src_qp_map qp.handle ≡ some l.key
      → Reaches (post_send (routed env arrivals) qp wr c)
  unfolding post_send request routed handle_process serve reads done_with ◌>>=◌
  post_send-Reaches fits fits' known user =
      let posts =
        subst
          (λ w.
            Posts env (State.ibv_post_send l.serving.qp.ptr w) (ibv_post_send_rsp c.process.pid)
              c.link (handle_ibv_post_send env c.process.pid (pos 56) (send_request qp wr) c.link))
          (posted_wr_lem fits fits')
          (post_send-Posts env c.process.pid (pos 56) c.link p offset (send_request qp wr) refl l
            known user) in
      let own : nat_beq c.process.pid c.process.pid ≡ true = (nat_beq_iff _ _).1 refl in
      elim (Bool-cases (is_zero (env.rc (posted_call ∷ c.link.calls)))) [
        | inl good ↦ simp (posts.0, posts.1, good, own) (refl, refl)
        | inr bad ↦ simp (posts.0, posts.1, bad) (refl, refl)
      ]

module _ (env : Env) (arrivals : List (List Info)) (cq : Cq) (c : Client Router) (p : ℕ)
    (l : LiveObject c.link p) where
  abbrev polled_calls : List Call
  polled_calls = State.ibv_poll_cq l.serving.cq (pos 1) ∷ c.link.calls

  -- All completions that the device counts are successes of the process, and poll_cq returns the
  -- result of the device and the first of them; or one is not, and poll_cq does not return.
  abbrev pub Outcome : ℤ → List Wc → VerbResult (ℤ × Option ClientWc) → Type 0
  Outcome rc wc result =
      let first = get_or wc 0 zero_wc in
      let written : ClientWc = record {
        status = first.status;
        opcode = first.opcode;
        wr_id = first.wr_id;
      } in
      (((i : ℕ) → Counted rc i → IsSuccess c.process.pid wc i) × (result ≡ done (rc, some written)))
      ⊎ (((i : ℕ) × Counted rc i × ¬ IsSuccess c.process.pid wc i) × (result ≡ fault hung))

  abbrev pub Gives : VerbResult (ℤ × Option ClientWc) × Client Router → Type 0
  Gives x =
      Outcome (env.rc polled_calls) (env.completions polled_calls) x.0
      × (x.1.link.calls ≡ polled_calls)

  -- poll_cq for one completion, on a completion queue whose request the process can put together
  -- and whose queue pair the router leads to a serving object: the device is asked once, for the
  -- completion queue of that object, which all clients of its host key share. poll_cq returns the
  -- result of the device and its completion if every completion that the result counts has status 0
  -- and this process as its wr_id, and does not return if one has not.
  pub poll_cq-Gives :
      (handle : ℕ)
      → poll_request cq c.process
        ≡ some (record { cq_handle = cq.handle; qp_handle = handle; num_entries = pos 1 })
      → find c.link.src_qp_map handle ≡ some l.key
      → Gives (poll_cq (routed env arrivals) cq 1 c)
  unfolding poll_cq poll_with request routed handle_process serve reads done_with ◌>>=◌
  poll_cq-Gives handle asked user =
      let req : IbvPollCqReq = record {
        cq_handle = cq.handle;
        qp_handle = handle;
        num_entries = pos 1;
      } in
      let polls = poll_cq-Polls env c.process.pid (pos 12) p req refl refl c.link l user in
      elim polls.0 [
        | inl (all, answer) ↦ simp (asked, answer, polls.1) (inl (all, refl), refl)
        | inr (one, answer) ↦ simp (asked, answer, polls.1) (inr (one, refl), refl)
      ]
