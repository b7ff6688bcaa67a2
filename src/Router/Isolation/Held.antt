-- ===== src/Router/Isolation/Held.antt =====
-- An object that a thread has looked up stays the object of its handle until the thread uses it.
use mathlib.Core.Path.{subst}
use cs252aproject.Base.{
  ◌⊎◌, ℕ, ◌≡◌, refl, ap, ◌∙◌, sym, Bool, false, List, ◌∷◌, nat_eq, nat_beq, inl, inr, Bool-cases,
  Option-cases, if◌then◌else◌,
}
use cs252aproject.Base.Int.{is_zero}
use cs252aproject.Base.Map.{find}
use cs252aproject.Common.Keys.{HostKey, host_key_eq}
use cs252aproject.Router.State.{Env, Router, Call}
use cs252aproject.Router.Exec.{Fault, Result, ok, err, killed, locked_find, ◌>>=◌}
use cs252aproject.Router.Triple.{Post, Triple, Keeps-pure, Keeps-bind}
use cs252aproject.Router.Handlers.Transfer.{find_conn}
use cs252aproject.Router.Invariant.Defs.{IsSound, Sound, Fails}
use cs252aproject.Router.Invariant.Frame.{settled_eq, settled_triple}
use cs252aproject.Router.Invariant.Shared.{Creates}
use cs252aproject.Router.Invariant.Objects.{
  LiveObject, posted-Sound, post_on_lem, poll_on_lem, polled-Sound,
}
use cs252aproject.Router.Invariant.Safety.{handle_process-IsSafe, message-Sound}
use cs252aproject.Router.Framed.Rules.{Still}
use cs252aproject.Router.Framed.Actions.{
  Still-find_conn, Still-post_on, Still-poll_on, Still-handle_remote_router,
}
use cs252aproject.Router.Isolation.Rules.{Holds, Holds-Framed}
use cs252aproject.Router.Isolation.Sessions.{
  IsRouted, Post-Holds, handle_process-Holds, held-IsRouted,
}
use cs252aproject.Router.Isolation.Overlap.{
  Use, post, poll, call_of, use_conn, Pc, idle, holding, System, update, Step, look, carry_out,
  session, message, Reach, start, later,
}

-- The object at an address is the one that the router leads a handle to.
abbrev Leads : ℕ → ℕ → Router → Type 0
Leads handle ptr s = (key : HostKey) × Holds handle key ptr s

abbrev Leading : Pc → Router → Type 0
Leading idle s = Unit
Leading (holding handle ptr u) s = Leads handle ptr s

Post-ok :
    {A : Type 0} (Q : A → Router → Type 0) (E : Fault → Router → Type 0) (x : Result A × Router)
    (a : A)
    → Post Q E x
    → x.0 ≡ ok a
    → Q a x.1
Post-ok Q E (ok b, s) a h e = subst (λ y. Q y s) (cc e) h
Post-ok Q E (err f, s) a h e = absurd (cc e)

-- The lookup gives the object that the handle leads to, and changes nothing.
find_conn-Leads :
    (handle : ℕ) → Triple (Fails false) Sound (find_conn handle) (λ p s. Sound s × Leads handle p s)
unfolding find_conn locked_find ◌>>=◌
find_conn-Leads handle =
    settled_triple false IsSound (λ c h. h) _ _
      λ s h. elim (Option-cases (find s.src_qp_map handle)) [
        | inl absent ↦ rw absent h
        | inr (key, user) ↦ elim (Option-cases (find s.host_map key)) [
          | inl missing ↦ simp (user, missing) h
          | inr (slot, there) ↦
              let (p, r, e, v) = h.entries key slot there in
              simp (user, e.0) (h, (key, (refl, e.0)))
        ]
      ]

-- The lookup of a connected handle finds its object.
pub find_conn_lem :
    (handle ptr : ℕ) (key : HostKey) (s : Router)
    → Sound s
    → Holds handle key ptr s
    → find_conn handle s ≡ (ok ptr, s)
unfolding find_conn locked_find ◌>>=◌
find_conn_lem handle ptr key s sound k =
    subst (λ t. find_conn handle t ≡ (ok ptr, t)) (settled_eq s sound.free_locks)
      (simp (k.0, k.1) refl)

module _ (env : Env) where
  -- The result of a use after its call outside
  abbrev pub outcome : Use → List Call → Result (Unit {0})
  outcome (post request) calls = if is_zero (env.rc calls) then ok tt else err killed
  outcome (poll n) calls = ok tt

  -- A use makes one call outside, on the object, and ends as the call did.
  abbrev pub Uses : (u : Use) (s : Router) (p : ℕ) → LiveObject s p → Type 0
  Uses u s p l =
      ((use_conn env p u s).0 ≡ outcome u (call_of u l ∷ s.calls))
      × ((use_conn env p u s).1.calls ≡ call_of u l ∷ s.calls)

  use_conn-Uses : (u : Use) (s : Router) (p : ℕ) (l : LiveObject s p) → Uses u s p l
  unfolding use_conn ◌>>=◌
  use_conn-Uses (post request) s p l =
      elim (Bool-cases (is_zero (env.rc (request l.serving.qp.ptr ∷ s.calls)))) [
        | inl good ↦ simp (post_on_lem env p request s l, good) (refl, refl)
        | inr bad ↦ simp (post_on_lem env p request s l, bad) (refl, refl)
      ]
  use_conn-Uses (poll n) s p l = simp (poll_on_lem env p n s l) (refl, refl)

  use_conn-Sound : (u : Use) (s : Router) (p : ℕ) → LiveObject s p → Sound (use_conn env p u s).1
  unfolding use_conn ◌>>=◌
  use_conn-Sound (post request) s p l =
      elim (Bool-cases (is_zero (env.rc (request l.serving.qp.ptr ∷ s.calls)))) [
        | inl good ↦ simp (post_on_lem env p request s l, good) (posted-Sound env p request s l)
        | inr bad ↦ simp (post_on_lem env p request s l, bad) (posted-Sound env p request s l)
      ]
  use_conn-Sound (poll n) s p l = simp (poll_on_lem env p n s l) (polled-Sound env p n s l)

  Still-use_conn :
      (h : ℕ) (own : HostKey) (object ptr : ℕ) (u : Use)
      → Still (Holds h own object) (use_conn env ptr u)
  unfolding use_conn
  Still-use_conn h own object ptr (post request) =
      Still-post_on (Holds-Framed h own object) env ptr request
  Still-use_conn h own object ptr (poll n) =
      Keeps-bind _ _ (Still-poll_on (Holds-Framed h own object) env ptr n) λ r. Keeps-pure _

-- The router is sound, and what a thread holds for a handle is what the router leads it to.
record IsHeld (c : System) : Type 0 where
  sound : Sound c.router
  held : (i handle ptr : ℕ) (u : Use) → c.pc i ≡ holding handle ptr u → Leads handle ptr c.router

-- After a thread's place is set, each thread that holds an object held it before, or is that thread.
updated-holding : (f : ℕ → Pc) (i j : ℕ) (a b : Pc) → update f i a j ≡ b → (f j ≡ b) ⊎ (a ≡ b)
updated-holding f i j a b e = elim (Bool-cases (nat_beq i j)) [
  | inl same ↦ inr (sym (ap (λ (t : Bool). if t then a else f j) same) ∙ e)
  | inr other ↦ inl (sym (ap (λ (t : Bool). if t then a else f j) other) ∙ e)
]

module _ (env : Env) (creates : Creates env) where
  Step-IsHeld : (c d : System) → IsHeld c → Step env c d → IsHeld d
  Step-IsHeld c _ k (look i handle ptr u is_idle found) =
      let (sound, leads) = Post-ok _ _ _ ptr ((find_conn-Leads handle).at c.router k.sound) found in
      record {
        sound = sound;
        held = λ j h p v e. elim (updated-holding c.pc i j (holding handle ptr u) _ e) [
          | inl before ↦
              let (own, holds) = k.held j h p v before in
              (
                own,
                Post-Holds h own p _
                    ((Still-find_conn (Holds-Framed h own p) handle).at c.router holds),
              )
          | inr mine ↦ subst (λ x. Leading x (find_conn handle c.router).1) mine leads
        ];
      }
  Step-IsHeld c _ k (carry_out i handle ptr u at_use) =
      let (key, holds) = k.held i handle ptr u at_use in
      let routed = held-IsRouted c.router handle key ptr k.sound holds in
      record {
        sound = use_conn-Sound env u c.router ptr routed.object;
        held = λ j h p v e. elim (updated-holding c.pc i j idle _ e) [
          | inl before ↦
              let (own, holds) = k.held j h p v before in
              (own, Post-Holds h own p _ ((Still-use_conn env h own p ptr u).at c.router holds))
          | inr mine ↦ absurd (cc mine)
        ];
      }
  Step-IsHeld c _ k (session r ready spares) = record {
    sound = (handle_process-IsSafe env creates r c.router k.sound ready).sound;
    held = λ j h p v e.
        let (own, holds) = k.held j h p v e in
        (own, handle_process-Holds h own p env r c.router k.sound holds ready (spares j h p v e));
  }
  Step-IsHeld c _ k (message i) = record {
    sound = message-Sound i c.router k.sound;
    held = λ j h p v e.
        let (own, holds) = k.held j h p v e in
        (
          own,
          Post-Holds h own p _
              ((Still-handle_remote_router (Holds-Framed h own p) i).at c.router holds),
        );
  }

  reach-IsHeld : (s : Router) (c : System) → Sound s → Reach env s c → IsHeld c
  reach-IsHeld s _ sound start = record { sound = sound; held = λ i h p u e. absurd (cc e) }
  reach-IsHeld s _ sound (later {c} {d} r step) = Step-IsHeld c d (reach-IsHeld s c sound r) step

-- With a device that makes completion queues and queue pairs, and where the memory of a destroyed
-- queue pair can still be read, threads look up the objects of their virtual queue pairs and use
-- them later, in any interleaving with each other, with whole servable sessions and with messages
-- of other routers, as long as no session connects or destroys a virtual queue pair for which a
-- thread holds an object: then a thread that holds an object for a handle uses the one that the
-- router still leads the handle to; the use makes exactly one call of libibverbs, on that object's
-- queue pair or completion queue, and returns, or closes the connection where a post is refused; it
-- never waits for a mutex for ever, and never touches a freed object.
pub reach-Uses :
    (env : Env) (s : Router) (c : System) (i handle ptr : ℕ) (u : Use)
    → Creates env
    → Sound s
    → Reach env s c
    → c.pc i ≡ holding handle ptr u
    → (key : HostKey) × (routed : IsRouted c.router handle key ptr) × Uses env u c.router ptr
        routed.object
reach-Uses env s c i handle ptr u creates sound r at_use =
    let k = reach-IsHeld env creates s c sound r in
    let (key, holds) = k.held i handle ptr u at_use in
    let routed = held-IsRouted c.router handle key ptr k.sound holds in
    (key, routed, use_conn-Uses env u c.router ptr routed.object)
