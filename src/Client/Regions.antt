-- ===== src/Client/Regions.antt =====
-- A memory region that `ibv_reg_mr` returns is known to the router under its key.
use mathlib.Core.Path.{subst}
use cs252aproject.Base.{
  ℕ, ◌%◌, ◌≡◌, refl, some, none, Option, List, nat_eq, nat_beq, inl, inr, Bool-cases, Option-cases,
}
use cs252aproject.Base.Int.{pos}
use cs252aproject.Base.Map.{Map, find}
use cs252aproject.Common.Messages
use cs252aproject.Common.Messages.{Response, IbvRegMrRsp, IbvRegMrReq}
use cs252aproject.Router.State.{Env, Router, Info}
use cs252aproject.Router.Exec.{Result, ok, err, killed, blocked, undefined}
use cs252aproject.Router.Dispatch.{finish, serve, handle_process}
use cs252aproject.Router.Triple.{Post}
use cs252aproject.Router.Handlers.Memory.{handle_ibv_reg_mr, offset_of}
use cs252aproject.Router.Registration
use cs252aproject.Router.Registration.{reg_mr_rule, Registers, Records}
use cs252aproject.Client.State.{
  Client, VerbResult, done, then_on, settle_reply, request, done_with, stop, ◌>>=◌,
}
use cs252aproject.Client.Routed.{routed, client_session, reply_of}
use cs252aproject.Client.Memory.{
  SharedMemory, ScaleMr, ibv_reg_mr, map_region, is_pos, after_reg, page_size,
}

module _ (env : Env) (arrivals : List (List Info)) (shm : SharedMemory) (addr length access : ℕ)
    (m : Map ℕ ℕ) where
  abbrev asked : IbvRegMrReq
  asked = record { access_flag = access; length = length; client_addr = addr }

  -- A region that is returned is recorded, unless its key was there before.
  abbrev Known : VerbResult (Option ScaleMr) × Client Router → Type 0
  Known (done (some mr), c) = Records m mr.lkey (offset_of mr.router_addr mr.addr) c.link
  Known _ = Unit

  module _ (rsp : IbvRegMrRsp) (c : Client Router)
      (known : Records m rsp.lkey (offset_of rsp.router_addr addr) c.link) where
    region-Known : Known (done (map_region shm addr length rsp), c)
    region-Known = elim (Option-cases (shm.mmap addr length (shm.shm_open rsp.shm_name))) [
      | inl failed ↦ rw (failed, Known) tt
      | inr (ptr, mapped) ↦
          rw (mapped, Known)
            (elim (Bool-cases (is_pos (shm.ftruncate (shm.shm_open rsp.shm_name) length))) [
              | inl short ↦ rw (short, Known) tt
              | inr full ↦ elim (Bool-cases (nat_beq ptr addr)) [
                | inl there ↦ rw (full, there, Known) known
                | inr elsewhere ↦ rw (full, elsewhere, Known) tt
              ]
            ])
    ]

  answer-Known :
      (x : Result Response × Router) (c : Client Router)
      → Post (Registers m asked) Registration.Any x
      → Known (
          then_on
            (settle_reply
              (reply_of (
                finish (client_session arrivals c.process.pid (Messages.ibv_reg_mr_req asked)) x.0))
              (record c { link = x.1 })).0
            (after_reg (routed env arrivals) shm addr length)
            (settle_reply
              (reply_of (
                finish (client_session arrivals c.process.pid (Messages.ibv_reg_mr_req asked)) x.0))
              (record c { link = x.1 })).1)
  unfolding done_with stop
  answer-Known (ok (Messages.ibv_reg_mr_rsp rsp), s) c k =
      region-Known rsp (record c { link = s }) k
  answer-Known (ok _, s) c k = tt
  answer-Known (err killed, s) c k = tt
  answer-Known (err blocked, s) c k = tt
  answer-Known (err undefined, s) c k = tt

  ibv_reg_mr-Known :
      (c : Client Router)
      → c.link.lkey_offset_map ≡ m
      → Known (ibv_reg_mr (routed env arrivals) shm addr length access c)
  unfolding ibv_reg_mr request routed handle_process serve ◌>>=◌ done_with
  ibv_reg_mr-Known c h = elim (Bool-cases (nat_beq (addr % page_size) 0)) [
    | inl aligned ↦ rw aligned (
        answer-Known (handle_ibv_reg_mr env c.process.pid (pos 24) asked c.link) c
          ((reg_mr_rule m env c.process.pid (pos 24) asked).at c.link h))
    | inr unaligned ↦ rw unaligned tt
  ]

-- When `ibv_reg_mr` of a client returns a region whose key was not mapped by the router, the
-- router maps the key to the offset between its own mapping and the address of the region.
pub ibv_reg_mr-Registers :
    (env : Env) (arrivals : List (List Info)) (shm : SharedMemory) (addr length access : ℕ)
    (c c' : Client Router) (mr : ScaleMr)
    → ibv_reg_mr (routed env arrivals) shm addr length access c ≡ (done (some mr), c')
    → find c.link.lkey_offset_map mr.lkey ≡ none
    → find c'.link.lkey_offset_map mr.lkey ≡ some (offset_of mr.router_addr mr.addr)
ibv_reg_mr-Registers env arrivals shm addr length access c c' mr returns absent =
    subst (Known env arrivals shm addr length access c.link.lkey_offset_map) returns
      (ibv_reg_mr-Known env arrivals shm addr length access c.link.lkey_offset_map c refl) absent
