-- ===== src/Client/Socket.antt =====
-- libscale/scale.c: `request_router`, which sends one request on a new connection and waits for the
-- response.
use Prim.Native.Nat.{zero, suc}
use cs252aproject.Base.{
  ℕ, ◌+◌, ◌≤◌, ◌<◌, ◌≡◌, refl, List, [], ◌∷◌, none, some, Bool, true, false, ◌&&◌, if◌then◌else◌,
  ltb, arith, inl, inr, Bool-cases, replicate,
}
use cs252aproject.Base.Int.{ℤ, pos, negsuc, is_neg, to_unsigned}
use cs252aproject.Common.Messages.{FunctionCall}
use cs252aproject.Common.Layout.{header_fields, sizeof}
use cs252aproject.Client.Structs.{client_sizes}

-- What a call of `request_router` meets: the socket (-1 if `connect` fails), the results of its two
-- writes, and the results of its reads.
pub record Peer : Type 0 where
  pub sock : ℤ
  pub header_written : ℤ
  pub body_written : ℤ
  pub reads : List ℤ

-- `waiting`: all the results of `reads` are used up, and the loop has not ended.
pub data Outcome : Type 0 where
  returned : ℤ → Outcome
  waiting : Outcome

-- `while (bytes < *rsp_size)`
unfoldable pub read_rsp : ℕ → ℕ → List ℤ → Outcome
read_rsp size got [] = if ltb got size then waiting else returned (pos 0)
read_rsp size got (pos n ∷ reads) =
    let rest = read_rsp size (got + n) reads in if ltb got size then rest else returned (pos 0)
read_rsp size got (negsuc n ∷ reads) =
    if ltb got size then returned (negsuc 0) else returned (pos 0)

-- The result of `write` is compared in `size_t` for the header, and in `uint32_t` for the body.
abbrev pub header_short : ℤ → Bool
header_short n = ltb (to_unsigned 64 n) (sizeof header_fields)

abbrev pub body_short : ℤ → ℕ → Bool
body_short n size = ltb 0 size && ltb (to_unsigned 32 n) size

-- request_router
unfoldable pub request_router : Peer → FunctionCall → Outcome
request_router p f = if is_neg p.sock then returned (negsuc 0) else elim (client_sizes f) [
  | none ↦ returned (negsuc 0)
  | some (body, size) ↦
      if header_short p.header_written
      then returned (negsuc 0)
      else if body_short p.body_written body
      then returned (negsuc 0)
      else read_rsp size 0 p.reads
]

-- Reads of one byte more than each number
abbrev pub chunks : List ℕ → List ℤ
chunks [] = []
chunks (n ∷ l) = pos (n + 1) ∷ chunks l

abbrev pub total : List ℕ → ℕ
total [] = 0
total (n ∷ l) = n + 1 + total l

read_rsp-chunks :
    (size got : ℕ) (l : List ℕ)
    → size ≤ got + total l
    → read_rsp size got (chunks l) ≡ returned (pos 0)
unfolding read_rsp
read_rsp-chunks size got [] enough = ground arith
read_rsp-chunks size got (n ∷ l) enough = elim (Bool-cases (ltb got size)) [
  | inl more ↦ rw more (read_rsp-chunks size (got + (n + 1)) l (omega arith))
  | inr done ↦ rw done refl
]

read_rsp-eof :
    (size got : ℕ) (k : ℕ) → got < size → read_rsp size got (replicate k (pos 0)) ≡ waiting
unfolding read_rsp
read_rsp-eof size got zero more = ground arith
read_rsp-eof size got (suc k) more =
    let behind : ltb got size ≡ true = ground arith in
    rw behind (read_rsp-eof size (got + 0) k (omega arith))

module _ (p : Peer) (f : FunctionCall) (body size : ℕ) (connected : is_neg p.sock ≡ false)
    (known : client_sizes f ≡ some (body, size)) (header : header_short p.header_written ≡ false)
    (whole : body_short p.body_written body ≡ false) where
  past_writes : request_router p f ≡ read_rsp size 0 p.reads
  unfolding request_router
  past_writes = rw (connected, known, header, whole) refl

  -- On a connection that takes the whole request, `request_router` returns 0 as soon as reads of at
  -- least one byte each have brought the response, however the bytes are divided.
  pub request_router-returns :
      (l : List ℕ) → p.reads ≡ chunks l → size ≤ total l → request_router p f ≡ returned (pos 0)
  request_router-returns l is enough = rw (past_writes, is) (read_rsp-chunks size 0 l (omega arith))

  -- When the router closes such a connection without a response, which is its answer to every
  -- error, each further read returns 0 and `request_router` goes on reading: it has not returned
  -- after any number of reads.
  pub request_router-spins :
      (k : ℕ) → p.reads ≡ replicate k (pos 0) → 0 < size → request_router p f ≡ waiting
  request_router-spins k is some_bytes = rw (past_writes, is) (read_rsp-eof size 0 k some_bytes)
