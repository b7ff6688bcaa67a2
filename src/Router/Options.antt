-- ===== src/Router/Options.antt =====
-- scalerouter/main.cpp: the options of the command line.
use mathlib.Core.Path.{subst}
use cs252aproject.Base.{
  ◌∙◌, ap, ℕ, ◌%◌, ◌^◌, ◌≡◌, refl, false, not, Option, none, some, List, [], ◌∷◌, inl, inr,
  if◌then◌else◌, Bool-cases,
}
use cs252aproject.Base.Int.{ℤ, pos, is_zero, is_neg, to_signed, to_unsigned}
use cs252aproject.Router.State.{Config}

-- What `getopt_long` returns before its -1, each number as `strtoul` reads it; `unknown` is '?'.
pub data Choice : Type 0 where
  port : (n : ℕ) → Choice
  ib_dev : (name : List ℕ) → Choice
  ib_port : (n : ℕ) → Choice
  gid_idx : (n : ℕ) → Choice
  disable_rdma : (n : ℕ) → Choice
  unknown : Choice

-- struct config_t, as main fills it in; server_name stays NULL.
pub record Settings : Type 0 where
  pub dev_name : Option (List ℕ)
  pub tcp_port : ℕ
  pub ib_port : ℤ
  pub gid_idx : ℤ
  pub disable_rdma : ℤ

-- struct config_t config
abbrev pub default_settings : Settings
default_settings = record {
  dev_name = none;
  tcp_port = 0;
  ib_port = pos 1;
  gid_idx = pos 3;
  disable_rdma = pos 1;
}

-- A value that is stored into an int, and refused if the int is negative
abbrev pub refuse_neg : ℤ → Settings → Option Settings
refuse_neg value settings = if is_neg value then none else some settings

-- switch (c); none is `return 1`
abbrev pub choose : Choice → Settings → Option Settings
choose (port n) s = some (record s { tcp_port = n % 2 ^ 32 })
choose (ib_dev name) s = some (record s { dev_name = some name })
choose (ib_port n) s = refuse_neg (to_signed 32 n) (record s { ib_port = to_signed 32 n })
choose (gid_idx n) s = refuse_neg (to_signed 32 n) (record s { gid_idx = to_signed 32 n })
choose (disable_rdma n) s = refuse_neg (to_signed 32 n) (record s { disable_rdma = to_signed 32 n })
choose unknown s = none

-- while (1)
unfoldable pub parse : List Choice → Settings → Option Settings
parse [] s = some s
parse (c ∷ choices) s = elim (choose c s) [ none ↦ none | some s' ↦ parse choices s' ]

-- The part of it that the router reads later
abbrev pub config_of : Settings → Config
config_of s = record {
  ib_port = to_unsigned 32 s.ib_port;
  gid_idx = s.gid_idx;
  disable_rdma = not (is_zero s.disable_rdma);
}

-- Settings with which the router may start
pub record IsSettings (s : Settings) : Type 0 where
  pub port_there : is_neg s.ib_port ≡ false
  pub gid_there : is_neg s.gid_idx ≡ false
  pub rdma_there : is_neg s.disable_rdma ≡ false

-- The last number or name that the choices give by `pick`, and else the one before
unfoldable pub last_of : {A : Type 0} → (Choice → Option A) → List Choice → A → A
last_of pick [] before = before
last_of pick (c ∷ choices) before =
    last_of pick choices (elim (pick c) [ none ↦ before | some a ↦ a ])

abbrev pub port_pick : Choice → Option ℕ
port_pick (port n) = some (n % 2 ^ 32)
port_pick _ = none

abbrev pub ib_dev_pick : Choice → Option (Option (List ℕ))
ib_dev_pick (ib_dev name) = some (some name)
ib_dev_pick _ = none

abbrev pub ib_port_pick : Choice → Option ℤ
ib_port_pick (ib_port n) = some (to_signed 32 n)
ib_port_pick _ = none

abbrev pub gid_idx_pick : Choice → Option ℤ
gid_idx_pick (gid_idx n) = some (to_signed 32 n)
gid_idx_pick _ = none

abbrev pub disable_rdma_pick : Choice → Option ℤ
disable_rdma_pick (disable_rdma n) = some (to_signed 32 n)
disable_rdma_pick _ = none

abbrev pub last_settings : List Choice → Settings → Settings
last_settings choices s = record {
  dev_name = last_of ib_dev_pick choices s.dev_name;
  tcp_port = last_of port_pick choices s.tcp_port;
  ib_port = last_of ib_port_pick choices s.ib_port;
  gid_idx = last_of gid_idx_pick choices s.gid_idx;
  disable_rdma = last_of disable_rdma_pick choices s.disable_rdma;
}

-- Settings that main goes on with
abbrev pub Accepted : Settings → Settings → Option Settings → Type 0
Accepted before next (some s) = (IsSettings before → IsSettings s) × (s ≡ next)
Accepted before next none = Unit

refuse_neg-Accepted :
    (value : ℤ) (before next : Settings)
    → (is_neg value ≡ false → IsSettings before → IsSettings next)
    → Accepted before next (refuse_neg value next)
refuse_neg-Accepted value before next k = elim (Bool-cases (is_neg value)) [
  | inl negative ↦ rw negative tt
  | inr fine ↦ rw fine (k fine, refl)
]

choose-Accepted : (c : Choice) (s : Settings) → Accepted s (last_settings (c ∷ []) s) (choose c s)
unfolding last_of
choose-Accepted (port n) s = (
  λ h. record { port_there = h.port_there; gid_there = h.gid_there; rdma_there = h.rdma_there },
  refl,
)
choose-Accepted (ib_dev name) s = (
  λ h. record { port_there = h.port_there; gid_there = h.gid_there; rdma_there = h.rdma_there },
  refl,
)
choose-Accepted (ib_port n) s =
    refuse_neg-Accepted (to_signed 32 n) s (record s { ib_port = to_signed 32 n })
      (λ f h. record { port_there = f; gid_there = h.gid_there; rdma_there = h.rdma_there })
choose-Accepted (gid_idx n) s =
    refuse_neg-Accepted (to_signed 32 n) s (record s { gid_idx = to_signed 32 n })
      (λ f h. record { port_there = h.port_there; gid_there = f; rdma_there = h.rdma_there })
choose-Accepted (disable_rdma n) s =
    refuse_neg-Accepted (to_signed 32 n) s (record s { disable_rdma = to_signed 32 n })
      (λ f h. record { port_there = h.port_there; gid_there = h.gid_there; rdma_there = f })
choose-Accepted unknown s = tt

parse-step :
    (s next : Settings) (choices : List Choice) (x : Option Settings)
    → Accepted s next x
    → ((s' : Settings) → Accepted s' (last_settings choices s') (parse choices s'))
    → Accepted s (last_settings choices next) (elim x [ none ↦ none | some s' ↦ parse choices s' ])
parse-step s next choices none a k = tt
parse-step s next choices (some s') (good, same) k = joined (parse choices s') (k s')
  where
    joined :
        (y : Option Settings)
        → Accepted s' (last_settings choices s') y
        → Accepted s (last_settings choices next) y
    joined none b = tt
    joined (some t) b = (λ h. b.0 (good h), b.1 ∙ ap (last_settings choices) same)

parse-Accepted :
    (choices : List Choice) (s : Settings) → Accepted s (last_settings choices s) (parse choices s)
unfolding parse last_of
parse-Accepted [] s = (λ h. h, refl)
parse-Accepted (c ∷ choices) s =
    parse-step s (last_settings (c ∷ []) s) choices (choose c s) (choose-Accepted c s)
      (parse-Accepted choices)

default-IsSettings : IsSettings default_settings
default-IsSettings = record { port_there = refl; gid_there = refl; rdma_there = refl }

-- When main goes on after the options, the port, the GID index and disable_rdma are not negative, and
-- each setting is the one that the last option of its kind gives, or its default.
pub parse_lem :
    (choices : List Choice) (s : Settings)
    → parse choices default_settings ≡ some s
    → IsSettings s × (s ≡ last_settings choices default_settings)
parse_lem choices s accepted =
    let all =
      subst (Accepted default_settings (last_settings choices default_settings)) accepted
        (parse-Accepted choices default_settings) in
    (all.0 default-IsSettings, all.1)
