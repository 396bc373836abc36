-- ===== src/Application/Service.antt =====
-- internal/application/kitchen_service.go and internal/repository/kitchen_repo.go: the service and
-- the repository handle, of each of which a process has one.
use kitchen_ops.Base.{ℕ, ◌≡◌, refl, ap, Option, none, some, List, [], ◌∷◌, map, Bytes}
use kitchen_ops.Models.{DomainEvent}
use kitchen_ops.Runtime.{Float64}
use kitchen_ops.Application.Scores.{aging_factor, weight_load, weight_util, weight_eff, assign_ttl}

pub record KitchenRepository (D : Type 0) : Type 0 where
  pub db : D

-- `P` is the type of the publisher; a nil publisher is none.
pub record KitchenAppService (F D Q P : Type 0) : Type 0 where
  pub repo : KitchenRepository D
  pub ready_queue : Q
  pub publisher : Option P
  pub aging_factor : F
  pub weight_load : F
  pub weight_util : F
  pub weight_eff : F
  pub assign_ttl : ℕ

-- sync.Once on a variable that is nil at first: the value after it.
abbrev pub do_once : {A : Type 0} → A → Option A → A
do_once new none = new
do_once new (some old) = old

-- The instance that stands, or none, is the last argument; the result is returned, and stands.
abbrev pub new_kitchen_repository :
    {D : Type 0} → D → Option (KitchenRepository D) → KitchenRepository D
new_kitchen_repository db standing = do_once (record { db = db }) standing

module _ {F D Q P : Type 0} (fl : Float64 F) where
  abbrev pub new_kitchen_app_service :
      KitchenRepository D
      → Q
      → Option P
      → Option (KitchenAppService F D Q P)
      → KitchenAppService F D Q P
  new_kitchen_app_service repo ready_queue publisher standing =
      do_once
        (record {
          repo = repo;
          ready_queue = ready_queue;
          publisher = publisher;
          aging_factor = aging_factor fl;
          weight_load = weight_load fl;
          weight_util = weight_util fl;
          weight_eff = weight_eff fl;
          assign_ttl = assign_ttl;
        })
        standing

-- `send` is the publisher's Publish.
abbrev pub publish_to :
    {P : Type 0} → (P → DomainEvent → Option Bytes) → Option P → DomainEvent → Option Bytes
publish_to send none event = none
publish_to send (some p) event = send p event

-- What the calls of NewKitchenRepository return, one after another.
unfoldable pub repositories :
    {D : Type 0} → List D → Option (KitchenRepository D) → List (KitchenRepository D)
repositories [] standing = []
repositories (db ∷ dbs) standing =
    let r = new_kitchen_repository db standing in r ∷ repositories dbs (some r)

-- Every call of NewKitchenRepository returns the repository of the first, on the first database.
pub repositories_same :
    {D : Type 0} (db : D) (dbs : List D)
    → repositories (db ∷ dbs) none ≡ map (λ _. record { db = db }) (db ∷ dbs)
unfolding repositories
repositories_same {D} db dbs = ap (λ rs. record { db = db } ∷ rs) (later dbs)
  where
    later :
        (more : List D)
        → repositories more (some (record { db = db })) ≡ map (λ _. record { db = db }) more
    later [] = refl
    later (x ∷ more) = ap (λ rs. record { db = db } ∷ rs) (later more)
