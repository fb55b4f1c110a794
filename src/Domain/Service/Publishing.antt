-- ===== src/Domain/Service/Publishing.antt =====
-- Which events the domain service hands to the publisher.
use mathlib.Core.List.{append-nil}
use enterprise_system.Prelude.{
  ℕ, Bool, true, false, ◌≡◌, List, [], ◌∷◌, ◌++◌, refl, suc, length, lt→ltb, if◌then◌else◌, sym,
  ◌∙◌, ap, arith, Except, ok, throw,
}
use enterprise_system.Prelude.Action.{Action, continue, ◌>>=◌}
use enterprise_system.Domain.Fault.{Fault}
use enterprise_system.Domain.Identity.{UniqueId}
use enterprise_system.Domain.Password.{from_hash}
use enterprise_system.Domain.Event.{DomainEvent}
use enterprise_system.Domain.User as Entity
use enterprise_system.Domain.User.{User, Stamp, CreateParams}
use enterprise_system.Domain.Port.{UserRepository, PasswordHasher}
use enterprise_system.Domain.Service.{
  World, publish, RegisterParams, at_store, dispatch, register_new, register_user,
}

publish-published :
    {Store : Type 0} (events : List DomainEvent) (w : World Store)
    → (publish events w).published ≡ w.published ++ events
unfolding publish
publish-published [] w = sym (append-nil w.published)
publish-published (e ∷ events) w = rw (lt→ltb 0 (suc (length events)) (omega arith))

dispatch-published :
    {Store : Type 0} (saved : User) (w : World Store)
    → (dispatch saved w).1.published ≡ w.published ++ saved.domain_events
unfolding dispatch
dispatch-published saved w = publish-published saved.domain_events w

-- A chain whose steps leave the published events alone leaves them alone.
continue-published :
    {Store A B : Type 0} (r : Except Fault A) (f : A → Action Fault (World Store) B)
    → ((a : A) (w : World Store) → (f a w).1.published ≡ w.published)
    → (w : World Store) → (continue r f w).1.published ≡ w.published
continue-published (ok a) f h w = h a w
continue-published (throw e) f h w = refl

if-published :
    {Store B : Type 0} (b : Bool) (m n : Action Fault (World Store) B)
    → ((w : World Store) → (m w).1.published ≡ w.published)
    → ((w : World Store) → (n w).1.published ≡ w.published)
    → (w : World Store) → ((if b then m else n) w).1.published ≡ w.published
if-published true m n h k w = h w
if-published false m n h k w = k w

module _ {Store : Type 0} (repository : UserRepository Store) (hasher : PasswordHasher) where
  module _
      (silent : (u v : User) (s : Store)
        → (repository.save u s).0 ≡ ok v
        → v.domain_events ≡ []) where
    save_dispatch-silent :
        (user : User) (w : World Store)
        → ((at_store (repository.save user) >>= dispatch) w).1.published ≡ w.published
    unfolding at_store
    save_dispatch-silent user w =
        let (r, t) = repository.save user w.store in go r t (λ v. silent user v w.store)
      where
        go :
            (r : Except Fault User) (t : Store)
            → ((v : User) → r ≡ ok v → v.domain_events ≡ [])
            → ((at_store (λ _. (r, t)) >>= dispatch) w).1.published ≡ w.published
        go (ok v) t k =
            dispatch-published v (record w { store = t })
            ∙ ap (λ x. w.published ++ x) (k v refl)
            ∙ append-nil w.published
        go (throw e) t k = refl

    register_new-silent :
        (id : UniqueId) (now : ℕ) (st : Stamp) (p : RegisterParams) (w : World Store)
        → (register_new repository hasher id now st p w).1.published ≡ w.published
    unfolding register_new
    register_new-silent id now st p w =
        continue-published (from_hash (hasher.hash p.raw_password.raw_value)) _
          (λ hashed s. continue-published (Entity.create id now st _) _ save_dispatch-silent s) w

    -- With a repository whose saved users carry no events, a registration publishes nothing, whether
    -- it returns or throws.
    pub register_user-silent :
        (id : UniqueId) (now : ℕ) (st : Stamp) (p : RegisterParams) (w : World Store)
        → (register_user repository hasher id now st p w).1.published ≡ w.published
    unfolding register_user
    register_user-silent id now st p w =
        continue-published (repository.exists_by_email p.email w.store).0 _
          (λ taken s. if-published taken _ _ (λ v. refl) (register_new-silent id now st p) s)
          (record w { store = (repository.exists_by_email p.email w.store).1 })
