-- ===== src/Router/Wire.antt =====
-- `read(client_sock, req_body, sizeof(...)) < sizeof(...)`: the test is made in `size_t`, to which
-- the result is converted.
use cs252aproject.Base.{ℕ, Bool, ltb}
use cs252aproject.Base.Int.{ℤ, to_unsigned}
use cs252aproject.Common.Messages.{FunctionCall}
use cs252aproject.Common.Layout.{req_size}
use cs252aproject.Router.Exec.{Exec, killed, fail, pure, when}

abbrev pub read_short : ℤ → ℕ → Bool
read_short n size = ltb (to_unsigned 64 n) size

-- A request body that is read short is `goto kill`.
unfoldable pub read_body : ℤ → FunctionCall → Exec (Unit {0})
unfolding fail pure
read_body n f = when (read_short n (req_size f)) (fail killed)
