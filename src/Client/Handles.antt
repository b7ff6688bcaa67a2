-- ===== src/Client/Handles.antt =====
-- The handles that a client makes of its process id and two counters.
use mathlib.Core.Path.{subst}
use cs252aproject.Base.{
  ℕ, suc, ◌%◌, ◌<◌, ◌≡◌, ◌↔◌, refl, true, Option, none, some, List, [], ◌∷◌, arith, length, set,
  get_elem?, ltb, nat_beq, nat_beq_iff,
}
use Prim.Native.Nat.{zero}
use cs252aproject.Base.Int.{pos}
use cs252aproject.Common.Messages.{ibv_create_qp_rsp}
use cs252aproject.Client.State.{
  Process, Client, Transport, Reply, got, then_on, VerbResult, done, fault, settle_reply, done_with,
  stop, request, handle_of, low_word, count_on, cq_qp_map_len, ◌>>=◌,
}
use cs252aproject.Client.Queue.{
  Cq, ScaleQp, ibv_create_qp, next_qp_handle, enter_cq, ask_create, after_create,
}
use cs252aproject.Client.Transfer.{poll_request}

-- Two handles of 16-bit counters are equal exactly when the process ids agree in their low 16
-- bits and the counters are equal: the handles of two processes may be the same.
pub handle_of_iff :
    (p q n m : ℕ)
    → n < 0x1_0000
    → m < 0x1_0000
    → (handle_of p n ≡ handle_of q m) ↔ ((p % 0x1_0000 ≡ q % 0x1_0000) × (n ≡ m))
handle_of_iff p q n m small small' = (λ e. (omega arith, omega arith), λ h. omega (arith, h.0, h.1))

-- The static variables of a process: two 16-bit counters and an array of 1024 entries
pub record IsProcess (p : Process) : Type 0 where
  pub cq_small : p.cq_refcnt < 0x1_0000
  pub qp_small : p.qp_refcnt < 0x1_0000
  pub map_length : length p.cq_qp_map ≡ cq_qp_map_len

get_elem-set : (l : List ℕ) (i v : ℕ) → i < length l → get_elem? (set l i v) i ≡ some v
get_elem-set [] i v below = absurd (omega arith)
get_elem-set (x ∷ l) zero v below = refl
get_elem-set (x ∷ l) (suc i) v below = get_elem-set l i v (omega arith)

module _ {S : Type 0} (t : Transport S) (cq : Cq) (c : Client S) where
  -- The state in which `ibv_create_qp` sends its request
  abbrev entered : Process
  entered = record c.process {
    qp_refcnt = count_on c.process.qp_refcnt;
    cq_qp_map =
        set c.process.cq_qp_map (low_word cq.handle)
          (low_word (handle_of c.process.pid c.process.qp_refcnt));
  }

  entered_polls :
      IsProcess c.process
      → low_word cq.handle < 1024
      → poll_request cq entered
        ≡ some (record {
          cq_handle = cq.handle;
          qp_handle = handle_of c.process.pid c.process.qp_refcnt;
          num_entries = pos 1;
        })
  entered_polls h near =
      let inside : ltb (low_word cq.handle) cq_qp_map_len ≡ true = ground arith in
      let low : low_word (handle_of c.process.pid c.process.qp_refcnt) ≡ c.process.qp_refcnt =
        omega (arith, h.qp_small) in
      let found =
        get_elem-set c.process.cq_qp_map (low_word cq.handle)
          (low_word (handle_of c.process.pid c.process.qp_refcnt)) (omega (arith, h.map_length)) in
      ground (arith, found, low)

  -- A queue pair that is made has a given handle, and the process is in a given state.
  abbrev Made : Process → ℕ → VerbResult (Option ScaleQp) × Client S → Type 0
  Made p handle (done (some qp), c') = (qp.handle ≡ handle) × (c'.process ≡ p)
  Made p handle _ = Unit

  Made-settled :
      (handle : ℕ) (reply : Reply) (c' : Client S)
      → Made c'.process handle
          (then_on (settle_reply reply c').0 (after_create t handle cq) (settle_reply reply c').1)
  unfolding done_with stop
  Made-settled handle (got (ibv_create_qp_rsp n)) c' = (refl, refl)
  Made-settled handle _ c' = tt

  ask_create-Made :
      (handle : ℕ) (c' : Client S) → Made c'.process handle (ask_create t handle cq cq c')
  unfolding ask_create request ◌>>=◌
  ask_create-Made handle c' = Made-settled handle _ _

  abbrev Polls : VerbResult (Option ScaleQp) × Client S → Type 0
  Polls (done (some qp), c') =
      poll_request cq c'.process
      ≡ some (record { cq_handle = cq.handle; qp_handle = qp.handle; num_entries = pos 1 })
  Polls _ = Unit

  Polls-Made :
      IsProcess c.process
      → low_word cq.handle < 1024
      → (x : VerbResult (Option ScaleQp) × Client S)
      → Made entered (handle_of c.process.pid c.process.qp_refcnt) x
      → Polls x
  Polls-Made h near (done (some qp), c') m = rw (m.1, m.0) (entered_polls h near)
  Polls-Made h near (done none, c') m = tt
  Polls-Made h near (fault f, c') m = tt

  Polls-create_qp :
      IsProcess c.process → low_word cq.handle < 1024 → Polls (ibv_create_qp t cq cq c)
  unfolding ibv_create_qp next_qp_handle enter_cq ◌>>=◌
  Polls-create_qp h near =
      let inside : ltb (low_word cq.handle) cq_qp_map_len ≡ true = ground arith in
      let same : nat_beq cq.handle cq.handle ≡ true = (nat_beq_iff _ _).1 refl in
      simp (same, inside)
        (Polls-Made h near _ (
          ask_create-Made (handle_of c.process.pid c.process.qp_refcnt)
            (record c { process = entered })))

  -- In a process whose static variables are in their bounds, after ibv_create_qp has made a queue
  -- pair with one completion queue as both queues, whose handle ends in a number below 1024,
  -- poll_cq on that completion queue asks the router for exactly that queue pair.
  pub poll_request-create_qp :
      (qp : ScaleQp) (c' : Client S)
      → IsProcess c.process
      → low_word cq.handle < 1024
      → ibv_create_qp t cq cq c ≡ (done (some qp), c')
      → poll_request cq c'.process
        ≡ some (record { cq_handle = cq.handle; qp_handle = qp.handle; num_entries = pos 1 })
  poll_request-create_qp qp c' h near made = subst Polls made (Polls-create_qp h near)
