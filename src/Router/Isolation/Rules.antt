-- ===== src/Router/Isolation/Rules.antt =====
-- A handle with its host key, and the host key with its object.
use cs252aproject.Base.{ℕ, ◌≡◌, ◌∙◌, ap, some, nat_eq}
use cs252aproject.Base.Map.{find}
use cs252aproject.Common.Keys.{HostKey, host_key_eq}
use cs252aproject.Router.State.{Router}
use cs252aproject.Router.Framed.Rules.{Framed}

module _ (h : ℕ) (own : HostKey) (object : ℕ) where
  abbrev pub Holds : Router → Type 0
  Holds s = (find s.src_qp_map h ≡ some own) × (find s.host_map own ≡ some (some object))

  pub Holds-Framed : Framed Holds
  Holds-Framed = record {
    move = λ s t users hosts pieces k.
        (ap (λ m. find m h) users ∙ k.0, ap (λ m. find m own) hosts ∙ k.1);
  }
