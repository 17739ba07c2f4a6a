-- ===== src/World/Calm.antt =====
-- With an empty schedule every call succeeds and nothing happens between calls. The rules about a
-- call of a service.
use krmed_cloud_services.Base.{ℕ, ◌≡◌, refl, ◌∙◌, List, [], ◌∷◌}
use krmed_cloud_services.Effects.{ok}
use krmed_cloud_services.Effects.Rules.{Keeps, Preorder, After, Triple}
use krmed_cloud_services.World.{
  World, Event, Fault, up, refused, reply_lost, killed_before, killed_after, Action, act, act_all,
  happen, respond, serve, service,
}

-- Nothing goes wrong from here on, and nobody else acts.
abbrev pub IsCalm : World → Type 0
IsCalm w = w.schedule ≡ []

pub service_calm :
    {A : Type 0} (op : World → A × World) (w : World)
    → IsCalm w
    → service op w ≡ (ok (op w).0, (op w).1)
unfolding service
service_calm op w h = rw (h, serve)

-- A relation that holds of every change from outside: of time and the schedule passing, and of
-- every action of the others.
pub record AllowsOutside (R : World → World → Type 0) : Type 0 where
  pub order : Preorder R
  pub passing :
      (w : World) (n : ℕ) (rest : List Event) → R w (record w { now = n; schedule = rest })
  pub acting : (a : Action) (w : World) → R w (act a w)

module _ {R : World → World → Type 0} (allows : AllowsOutside R) where
  act_all-allowed : (acts : List Action) (w : World) → R w (act_all acts w)
  unfolding act_all
  act_all-allowed [] w = allows.order.reflexive w
  act_all-allowed (a ∷ rest) w =
      allows.order.transitive w (act a w) _ (allows.acting a w) (act_all-allowed rest (act a w))

  pub happen-allowed : (e : Event) (rest : List Event) (w : World) → R w (happen e rest w)
  unfolding happen
  happen-allowed e rest w =
      allows.order.transitive w _ _ (allows.passing w _ rest) (act_all-allowed e.others _)

  respond-allowed :
      {A : Type 0} (f : Fault) (op : World → A × World) (w v : World)
      → R w v
      → R v (op v).1
      → R w (respond f op v).1
  respond-allowed up op w v h k = allows.order.transitive w v _ h k
  respond-allowed refused op w v h k = h
  respond-allowed reply_lost op w v h k = allows.order.transitive w v _ h k
  respond-allowed killed_before op w v h k = h
  respond-allowed killed_after op w v h k = allows.order.transitive w v _ h k

  serve-allowed :
      {A : Type 0} (events : List Event) (op : World → A × World) (w : World)
      → ((v : World) → R v (op v).1)
      → R w (serve events op w).1
  serve-allowed [] op w k = k w
  serve-allowed (e ∷ rest) op w k =
      respond-allowed e.fault op w (happen e rest w) (happen-allowed e rest w) (k _)

  -- A call keeps what its operation keeps.
  pub Keeps-service :
      {A : Type 0} (op : World → A × World) → ((v : World) → R v (op v).1) → Keeps R (service op)
  unfolding service
  Keeps-service op k = record { at = λ w. serve-allowed w.schedule op w k }

-- What a returning call leaves is what its operation leaves, whatever went before.
module _ {A : Type 0} (Q : A → World → Type 0) (op : World → A × World) where
  respond-After :
      (f : Fault) (v : World)
      → Q (op v).0 (op v).1
      → After Q (λ _ _. Unit) (λ _. Unit) (respond f op v)
  respond-After up v h = h
  respond-After refused v h = tt
  respond-After reply_lost v h = tt
  respond-After killed_before v h = tt
  respond-After killed_after v h = tt

  serve-After :
      (events : List Event) (w : World)
      → ((v : World) → Q (op v).0 (op v).1)
      → After Q (λ _ _. Unit) (λ _. Unit) (serve events op w)
  serve-After [] w k = k w
  serve-After (e ∷ rest) w k = respond-After e.fault (happen e rest w) (k _)

  pub Triple-service :
      {P : World → Type 0}
      → ((v : World) → Q (op v).0 (op v).1)
      → Triple P (service op) Q (λ _ _. Unit) (λ _. Unit)
  unfolding service
  Triple-service k = record { at = λ w _. serve-After w.schedule w k }

-- Calls may fail and time may pass, but nobody else does anything.
abbrev pub QuietEvents : List Event → Type 0
QuietEvents [] = Unit
QuietEvents (e ∷ rest) = (e.others ≡ []) × QuietEvents rest

abbrev pub IsQuiet : World → Type 0
IsQuiet w = QuietEvents w.schedule

-- A number that neither time nor the operation changes is unchanged by the call, however it ends.
module _ (f : World → ℕ)
    (passing : (w : World) (n : ℕ) (rest : List Event)
      → f (record w { now = n; schedule = rest }) ≡ f w) where
  respond_same :
      {A : Type 0} (fault : Fault) (op : World → A × World) (v : World)
      → f (op v).1 ≡ f v
      → f (respond fault op v).1 ≡ f v
  respond_same up op v h = h
  respond_same refused op v h = refl
  respond_same reply_lost op v h = h
  respond_same killed_before op v h = refl
  respond_same killed_after op v h = h

  happen_same :
      (e : Event) (rest : List Event) (w : World) → e.others ≡ [] → f (happen e rest w) ≡ f w
  unfolding happen act_all
  happen_same e rest w h = rw (h, act_all) (passing w _ rest)

  serve_same :
      {A : Type 0} (events : List Event) (op : World → A × World) (w : World)
      → QuietEvents events
      → ((v : World) → f (op v).1 ≡ f v)
      → f (serve events op w).1 ≡ f w
  serve_same [] op w q k = k w
  serve_same (e ∷ rest) op w q k =
      respond_same e.fault op (happen e rest w) (k _) ∙ happen_same e rest w q.0

  pub service_same :
      {A : Type 0} (op : World → A × World) (w : World)
      → IsQuiet w
      → ((v : World) → f (op v).1 ≡ f v)
      → f (service op w).1 ≡ f w
  unfolding service
  service_same op w q k = serve_same w.schedule op w q k
