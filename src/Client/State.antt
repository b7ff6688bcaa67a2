-- ===== src/Client/State.antt =====
-- libscale/verbs.c: the state of a client process, and a verb as an action on it and on what the
-- process is connected to.
use cs252aproject.Base.{
  ℕ, ◌+◌, ◌*◌, ◌%◌, ◌^◌, Option, none, some, List, replicate, nat_beq, if◌then◌else◌,
}
use cs252aproject.Base.Int.{ℤ, pos, negsuc}
use cs252aproject.Common.Messages.{Request, Response}

-- The static variables of verbs.c; `pid` is what `getpid` returns.
pub record Process : Type 0 where
  pub pid : ℕ
  pub cq_refcnt : ℕ
  pub qp_refcnt : ℕ
  pub cq_qp_map : List ℕ

-- How `request_router` ends: rc is -1, or rc is 0 with a response, or it does not return.
pub data Reply : Type 0 where
  failed : Reply
  got : Response → Reply
  endless : Reply

-- What carries the requests of a process, with its own state `S`
pub record Transport (S : Type 0) : Type 0 where
  pub exchange : ℕ → Request → S → Reply × S

-- `overrun` is an access out of the bounds of an array, `garbled` a response that is another struct
-- than the verb reads, `hung` a call that does not return.
pub data VerbFault : Type 0 where
  overrun garbled hung : VerbFault

pub data VerbResult (A : Type 0) : Type 0 where
  done : A → VerbResult A
  fault : VerbFault → VerbResult A

pub record Client (S : Type 0) : Type 0 where
  pub process : Process
  pub link : S

abbrev pub Verb : Type 0 → Type 0 → Type 0
Verb S A = Client S → VerbResult A × Client S

module _ {S A : Type 0} where
  unfoldable pub done_with : A → Verb S A
  done_with a c = (done a, c)

  unfoldable pub stop : VerbFault → Verb S A
  stop f c = (fault f, c)

  unfoldable pub reads : (Process → A) → Verb S A
  reads f c = (done (f c.process), c)

unfoldable pub updates : {S : Type 0} → (Process → Process) → Verb S (Unit {0})
updates f c = (done tt, record c { process = f c.process })

module _ {S A B : Type 0} where
  abbrev pub then_on : VerbResult A → (A → Verb S B) → Verb S B
  then_on (done a) f c = f a c
  then_on (fault e) f c = (fault e, c)

  infixl 10 ◌>>=◌ ◌>>◌
  unfoldable pub ◌>>=◌ : Verb S A → (A → Verb S B) → Verb S B
  unfolding done_with stop reads updates
  ◌>>=◌ m f c = let (r, c') = m c in then_on r f c'

  abbrev pub ◌>>◌ : Verb S A → Verb S B → Verb S B
  m >> n = m >>= λ _. n

-- `rc` and `rsp` of `request_router`: none if rc is -1
abbrev pub settle_reply : {S : Type 0} → Reply → Verb S (Option Response)
settle_reply failed c = (done none, c)
settle_reply (got rsp) c = (done (some rsp), c)
settle_reply endless c = (fault hung, c)

unfoldable pub request : {S : Type 0} → Transport S → Request → Verb S (Option Response)
request t r c =
    let (reply, s) = t.exchange c.process.pid r c.link in settle_reply reply (record c { link = s })

-- ((uint32_t)pid << 16) | refcnt: the low 16 bits of the first are 0, so the sum is the disjunction.
abbrev pub handle_of : ℕ → ℕ → ℕ
handle_of pid refcnt = (pid * 2 ^ 16) % 2 ^ 32 + refcnt

-- handle & 0xFFFF
abbrev pub low_word : ℕ → ℕ
low_word handle = handle % 2 ^ 16

-- uint16_t refcnt++
abbrev pub count_on : ℕ → ℕ
count_on refcnt = (refcnt + 1) % 2 ^ 16

-- sizeof(cq_qp_map) / sizeof(uint16_t)
abbrev pub cq_qp_map_len : ℕ
cq_qp_map_len = 1024

-- The static variables of a process that starts
abbrev pub fresh_process : ℕ → Process
fresh_process pid = record {
  pid = pid;
  cq_refcnt = 0;
  qp_refcnt = 0;
  cq_qp_map = replicate cq_qp_map_len 0;
}

-- What `flags` of a response makes of a verb that frees its object
abbrev pub released : ℕ → ℤ
released flags = if nat_beq flags 0 then negsuc 0 else pos 0
