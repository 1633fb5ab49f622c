-- ===== src/Gateway/Life/Balance.antt =====
-- What a gateway holds from its creation to its end.
use aspira_broker.Prelude.{
  ℕ, zero, suc, ◌≡◌, ◌⊎◌, inl, inr, refl, ap, sym, ◌∙◌, Bool, true, false, Option, none, some, List,
  [], ◌∷◌, ◌++◌, append_assoc, ◌==◌, eq→==, if◌then◌else◌, Option-cases,
}
use aspira_broker.Messages.{GwOmsMsg}
use aspira_broker.Ring.{RingQueue}
use aspira_broker.Gateway.State.{Conn}
use aspira_broker.Gateway.Loop.{Server}
use aspira_broker.Gateway.Life.{
  Context, Effect, gets, frees, opens, closes, Answers, create_listen, unused_conns, fresh_server,
  create, close_conns, stop, destroy,
}

-- The memory and the descriptors that are held.
pub record Held : Type 0 where
  pub blocks : List ℕ
  pub fds : List ℕ

abbrev pub nothing : Held
nothing = record { blocks = []; fds = [] }

-- Removing one entry, if it is there.
abbrev pub drop_one : ℕ → List ℕ → List ℕ
drop_one x [] = []
drop_one x (y ∷ ys) = let rest = drop_one x ys in if y == x then ys else y ∷ rest

abbrev pub effect : Effect → Held → Held
effect (gets p) h = record h { blocks = p ∷ h.blocks }
effect (frees p) h = record h { blocks = drop_one p h.blocks }
effect (opens fd) h = record h { fds = h.fds ++ fd ∷ [] }
effect (closes fd) h = record h { fds = drop_one fd h.fds }

-- What is held after some effects.
abbrev pub held : List Effect → Held → Held
held [] h = h
held (e ∷ es) h = held es (effect e h)

-- The descriptors of the connections that are open.
unfoldable pub open_fds : List Conn → List ℕ
open_fds [] = []
open_fds (conn ∷ conns) = elim conn.fd [ none ↦ open_fds conns | some fd ↦ fd ∷ open_fds conns ]

-- What belongs to a gateway: its two blocks, its connections and its two own descriptors.
abbrev pub owned : Context → Held
owned ctx = record {
  blocks = ctx.conns_address ∷ ctx.address ∷ [];
  fds = open_fds ctx.server.pool.conns ++ ctx.listen_fd ∷ ctx.epoll_fd ∷ [];
}

drop_one_first : (x : ℕ) (xs : List ℕ) → drop_one x (x ∷ xs) ≡ xs
drop_one_first x xs = rw (eq→== x x refl) refl

open_fds-unused : (n : ℕ) → open_fds (unused_conns n) ≡ []
unfolding open_fds unused_conns
open_fds-unused zero = refl
open_fds-unused (suc n) = open_fds-unused n

-- Closing the connections leaves what is held beside them.
held-close_conns :
    (conns : List Conn) (es : List Effect) (blocks rest : List ℕ)
    → held (close_conns conns ++ es) record { blocks = blocks; fds = open_fds conns ++ rest }
      ≡ held es record { blocks = blocks; fds = rest }
unfolding close_conns open_fds
held-close_conns [] es blocks rest = refl
held-close_conns (conn ∷ conns) es blocks rest = elim (Option-cases conn.fd) [
  | inl e ↦ rw e (held-close_conns conns es blocks rest)
  | inr (fd, e) ↦
      rw (e, drop_one_first fd (open_fds conns ++ rest)) (held-close_conns conns es blocks rest)
]

held-append : (cs ds : List Effect) (h : Held) → held (cs ++ ds) h ≡ held ds (held cs h)
held-append [] ds h = refl
held-append (c ∷ cs) ds h = held-append cs ds (effect c h)

-- bt_gateway_stop gives back every descriptor, and what is done after it finds the two blocks.
stop-held :
    (ctx : Context) (es : List Effect)
    → held ((stop ctx).1 ++ es) (owned ctx)
      ≡ held es record { blocks = ctx.conns_address ∷ ctx.address ∷ []; fds = [] }
unfolding stop
stop-held ctx es =
    let own = closes ctx.listen_fd ∷ closes ctx.epoll_fd ∷ [] in
    let blocks = ctx.conns_address ∷ ctx.address ∷ [] in
    let fds = ctx.listen_fd ∷ ctx.epoll_fd ∷ [] in
    ap (λ cs. held cs (owned ctx)) (append_assoc (close_conns ctx.server.pool.conns) own es)
    ∙ held-close_conns ctx.server.pool.conns (own ++ es) blocks fds
    ∙ ap (λ left. held es record { blocks = blocks; fds = left })
        (ap (drop_one ctx.epoll_fd) (drop_one_first ctx.listen_fd (ctx.epoll_fd ∷ []))
          ∙ drop_one_first ctx.epoll_fd [])

freed-held :
    (a b : ℕ) → held (frees a ∷ frees b ∷ []) record { blocks = a ∷ b ∷ []; fds = [] } ≡ nothing
freed-held a b = rw (drop_one_first a (b ∷ []), drop_one_first b []) refl

-- The end of a gateway, with and without bt_gateway_stop before bt_gateway_destroy.
destroy-held :
    (ctx : Context)
    → ctx.running ≡ true
    → (held (destroy ctx) (owned ctx) ≡ nothing)
      × (held ((stop ctx).1 ++ destroy (stop ctx).0) (owned ctx) ≡ nothing)
unfolding destroy stop
destroy-held ctx runs =
    let freed = frees ctx.conns_address ∷ frees ctx.address ∷ [] in
    let end = stop-held ctx freed ∙ freed-held ctx.conns_address ctx.address in (rw runs end, end)

module _ (tid cpu port max_conns sched_id : ℕ) (out : RingQueue GwOmsMsg)
    (responses : RingQueue (List ℕ)) where
  -- What bt_gateway_create leaves.
  abbrev Made : Answers → Type 0
  Made answers =
      let (result, effects) = create answers tid cpu port max_conns sched_id out responses in
      ((result ≡ none) × (held effects nothing ≡ nothing))
      ⊎ ((ctx : Context) × (result ≡ some ctx)
          × (ctx.running ≡ true)
          × (ctx.server ≡ fresh_server max_conns out responses)
          × (held effects nothing ≡ owned ctx))

  made :
      (context conns socket : Option ℕ) (bind listen : Bool) (epoll : Option ℕ)
      → Made record {
        context = context;
        conns = conns;
        socket = socket;
        bind = bind;
        listen = listen;
        epoll_create = epoll;
      }
  unfolding create create_listen
  made none conns socket bind listen epoll = inl (refl, refl)
  made (some a) none socket bind listen epoll = inl (refl, rw (eq→== a a refl) refl)
  made (some a) (some b) none bind listen none = inl (refl, freed-held b a)
  made (some a) (some b) none bind listen (some p) =
      inl (refl, rw (eq→== p p refl) (freed-held b a))
  made (some a) (some b) (some l) false listen none =
      inl (refl, rw (eq→== l l refl) (freed-held b a))
  made (some a) (some b) (some l) false listen (some p) =
      inl (refl, rw (eq→== l l refl, eq→== p p refl) (freed-held b a))
  made (some a) (some b) (some l) true false none = inl (refl, rw (eq→== l l refl) (freed-held b a))
  made (some a) (some b) (some l) true false (some p) =
      inl (refl, rw (eq→== l l refl, eq→== p p refl) (freed-held b a))
  made (some a) (some b) (some l) true true none = inl (refl, rw (eq→== l l refl) (freed-held b a))
  made (some a) (some b) (some l) true true (some p) = inr (
    _,
    refl,
    refl,
    refl,
    ap (λ fds. record { blocks = b ∷ a ∷ []; fds = fds ++ l ∷ p ∷ [] })
        (sym (open_fds-unused max_conns)),
  )

  create-held : (answers : Answers) → Made answers
  create-held answers =
      made answers.context answers.conns answers.socket answers.bind answers.listen
        answers.epoll_create

-- Whatever its calls answer, bt_gateway_create fails and leaves nothing behind, or gives a gateway that
-- holds two blocks, its two descriptors and no connection. Then, whatever its thread leaves in the table
-- of connections, bt_gateway_destroy of a gateway that holds these connections gives back everything,
-- and so does bt_gateway_stop followed by bt_gateway_destroy.
pub create-destroy :
    (answers : Answers) (tid cpu port max_conns sched_id : ℕ) (out : RingQueue GwOmsMsg)
    (responses : RingQueue (List ℕ)) (server : Server)
    → let (result, effects) = create answers tid cpu port max_conns sched_id out responses in
      ((result ≡ none) × (held effects nothing ≡ nothing))
      ⊎ ((ctx : Context) × (result ≡ some ctx)
          × (held effects nothing ≡ owned ctx)
          × (open_fds ctx.server.pool.conns ≡ [])
          × (let left = record ctx { server = server } in
              (held (destroy left) (owned left) ≡ nothing)
              × (held ((stop left).1 ++ destroy (stop left).0) (owned left) ≡ nothing)))
create-destroy answers tid cpu port max_conns sched_id out responses server =
    elim (create-held tid cpu port max_conns sched_id out responses answers) [
      | inl failed ↦ inl failed
      | inr (ctx, e, runs, server_fresh, own) ↦ inr (
        ctx,
        e,
        own,
        ap (λ (s : Server). open_fds s.pool.conns) server_fresh ∙ open_fds-unused max_conns,
        destroy-held (record ctx { server = server }) runs,
      )
    ]
