-- ===== src/Executor/Monad.antt =====
-- What the executor's methods run in (internal/controller/partition/executor.go): the two objects
-- that it holds, the calls that it has made of the API server, and the events it has recorded.
-- The server is not part of the repository: a `Client` answers each call from the history of all
-- calls before it, so every deterministic behaviour of a server is one, errors included.
use batch_release.Base.{ℕ, Bool, Option, none, some, List, ◌∷◌, get_elem?, ◌≡◌, refl, sym, subst}
use batch_release.Base.Int.{ℤ, pos, negsuc}
use batch_release.Base.Text.{Text}
use batch_release.Objects.{ReplicaSet, Deployment, Selector}
use batch_release.Release.{BatchRelease}
use batch_release.Vendor.{Vendor}

-- A request, with the objects it carries.
pub data Call : Type 0 where
  patch_replica_set : ReplicaSet → ReplicaSet → Call  -- from, to
  create_replica_set : ReplicaSet → Call
  get_replica_set : Text → Text → Call
  list_replica_sets : Text → Option Selector → Call
  get_deployment : Text → Text → Call
  update_deployment : Deployment → Call
  update_deployment_status : Deployment → Call
  patch_deployment : Deployment → Deployment → Call
  get_batch_release : Text → Text → Call
  update_batch_release : BatchRelease → Call
  update_batch_release_status : BatchRelease → Call

-- What the program distinguishes among the errors of the server.
pub data ServerError : Type 0 where
  not_found conflict already_exists namespace_terminating other_error : ServerError

-- An error of the server, or one that the program makes itself.
pub data Error : Type 0 where
  server : ServerError → Error
  invalid_selector no_rolling_update_strategy invalid_scale_down bad_yaml : Error
  updated_replicas_not_satisfied ready_replicas_not_satisfied no_ready_replicas : Error

-- A run-time panic ends the reconciliation.
pub data Fault : Type 0 where
  nil_dereference index_out_of_range : Fault

pub data Result (A : Type 0) : Type 0 where
  ok : A → Result A
  err : Error → Result A
  panic : Fault → Result A

-- The server refuses a request with an error, and never panics.
pub data Answer (A : Type 0) : Type 0 where
  answer : A → Answer A
  refuse : ServerError → Answer A

abbrev pub result_of : {A : Type 0} → Answer A → Result A
result_of (answer a) = ok a
result_of (refuse x) = err (server x)

pub record Client : Type 0 where
  pub on_patch_replica_set : List Call → ReplicaSet → ReplicaSet → Answer ReplicaSet
  pub on_create_replica_set : List Call → ReplicaSet → Answer ReplicaSet
  pub on_get_replica_set : List Call → Text → Text → Answer ReplicaSet
  pub on_list_replica_sets : List Call → Text → Option Selector → Answer (List ReplicaSet)
  pub on_get_deployment : List Call → Text → Text → Answer Deployment
  pub on_update_deployment : List Call → Deployment → Answer Deployment
  pub on_update_deployment_status : List Call → Deployment → Answer Deployment
  pub on_patch_deployment : List Call → Deployment → Deployment → Answer Deployment
  pub on_get_batch_release : List Call → Text → Text → Answer BatchRelease
  pub on_update_batch_release : List Call → BatchRelease → Answer BatchRelease
  pub on_update_batch_release_status : List Call → BatchRelease → Answer BatchRelease

-- `Executor`; `calls` and `events` are the latest first. An event is kept as its reason.
pub record Executor : Type 0 where
  pub br : BatchRelease
  pub de : Deployment
  pub calls : List Call
  pub events : List Text

abbrev pub M : Type 0 → Type 0
M A = Executor → Result A × Executor

module _ {A : Type 0} where
  abbrev pub pure : A → M A
  pure a e = (ok a, e)

  abbrev pub throw : Error → M A
  throw x e = (err x, e)

  abbrev pub fault : Fault → M A
  fault x e = (panic x, e)

  abbrev pub gets : (Executor → A) → M A
  gets f e = (ok (f e), e)

  -- A pointer that must not be nil.
  abbrev pub deref : Option A → M A
  deref none = fault nil_dereference
  deref (some a) = pure a

  -- `xs[i]`
  abbrev pub index : List A → ℤ → M A
  index xs (negsuc n) = fault index_out_of_range
  index xs (pos n) = elim (get_elem? xs n) [ none ↦ fault index_out_of_range | some a ↦ pure a ]

abbrev pub modify : (Executor → Executor) → M (Unit {0})
modify f e = (ok tt, f e)

infixl 5 ◌>>=◌ ◌>>◌
abbrev pub ◌>>=◌ : {A B : Type 0} → M A → (A → M B) → M B
◌>>=◌ m f e =
    let (r, e') = m e in elim r [ ok a ↦ f a e' | err x ↦ (err x, e') | panic x ↦ (panic x, e') ]

abbrev pub ◌>>◌ : {A B : Type 0} → M A → M B → M B
m >> k = m >>= λ _. k

-- `eventRecorder.Eventf` with the reason given
abbrev pub record_event : Text → M (Unit {0})
record_event reason = modify (λ e. record e { events = reason ∷ e.events })

-- What a run depends on from outside: the server, the packages, the clock, and the runtime's
-- choice of capacities: whether a slice that grew by `append` to n elements has a spare slot.
pub record Env : Type 0 where
  pub client : Client
  pub vendor : Vendor
  pub now : ℕ
  pub error_text : ServerError → Text
  pub spare_capacity : ℕ → Bool
  -- retry.RetryOnConflict with its default back-off
  pub retry_on_conflict : M (Unit {0}) → M (Unit {0})

-- A handler for the error of a call, as in `if err != nil { return ... }`; a panic goes on.
abbrev pub catch : {A B : Type 0} → M A → M B → (A → M B) → M B
catch m handler k e =
    let (r, e') = m e in elim r [ ok a ↦ k a e' | err x ↦ handler e' | panic x ↦ (panic x, e') ]

-- A call that is made, and noted, whatever the answer is.
abbrev pub send : {A : Type 0} → (List Call → Answer A) → Call → M A
send on_call call e = (result_of (on_call e.calls), record e { calls = call ∷ e.calls })

-- What a run ends with: `P` of its value and the state, `E` of its error, and never a panic.
abbrev pub Ends :
    {A : Type 0} → (A → Executor → Type 0) → (Error → Type 0) → Result A × Executor → Type 0
Ends P E (ok a, e) = P a e
Ends P E (err x, e) = E x
Ends P E (panic x, e) = ⊥

module _ {A B : Type 0} (P : A → Executor → Type 0) (E : Error → Type 0)
    (Q : B → Executor → Type 0) where
  pub Ends-bind :
      (m : M A) (f : A → M B) (e : Executor)
      → Ends P E (m e)
      → ((a : A) (e' : Executor) → P a e' → Ends Q E (f a e'))
      → Ends Q E ((m >>= f) e)
  Ends-bind m f e h k = step (m e) h
    where
      step :
          (r : Result A × Executor)
          → Ends P E r
          → Ends Q E (elim r.0 [ ok a ↦ f a r.1 | err x ↦ (err x, r.1) | panic x ↦ (panic x, r.1) ])
      step (ok a, e') h = k a e' h
      step (err x, e') h = h
      step (panic x, e') h = h

module _ {A B : Type 0} (E : Error → Type 0) (Q : B → Executor → Type 0) where
  -- A method that is known to succeed and to change nothing.
  pub Ends-ok :
      (m : M A) (f : A → M B) (a : A) (e : Executor)
      → m e ≡ (ok a, e)
      → Ends Q E (f a e)
      → Ends Q E ((m >>= f) e)
  Ends-ok m f a e h k =
      subst
        (λ (r : Result A × Executor).
          Ends Q E (elim r.0 [ ok a ↦ f a r.1 | err x ↦ (err x, r.1) | panic x ↦ (panic x, r.1) ]))
        (sym h) k

-- The only errors are those of the server.
abbrev pub IsServer : Error → Type 0
IsServer (server x) = Unit
IsServer _ = ⊥

module _ {A B : Type 0} (Q : B → Executor → Type 0) where
  -- A request ends by the server's error, or goes on with its answer.
  pub Ends-send :
      (on_call : List Call → Answer A) (call : Call) (k : A → M B) (e : Executor)
      → ((a : A)
          → on_call e.calls ≡ answer a
          → Ends Q IsServer (k a (record e { calls = call ∷ e.calls })))
      → Ends Q IsServer ((send on_call call >>= k) e)
  Ends-send on_call call k e h = step (on_call e.calls) h
    where
      asked : Executor
      asked = record e { calls = call ∷ e.calls }

      step :
          (a : Answer A)
          → ((b : A) → a ≡ answer b → Ends Q IsServer (k b asked))
          → Ends Q IsServer (elim (result_of a) [
            | ok b ↦ k b asked
            | err x ↦ (err x, asked)
            | panic x ↦ (panic x, asked)
          ])
      step (answer b) h = h b refl
      step (refuse x) h = tt

module _ {A : Type 0} (P Q : A → Executor → Type 0) (E : Error → Type 0) where
  pub Ends-mono :
      (r : Result A × Executor) → Ends P E r → ((a : A) (e : Executor) → P a e → Q a e) → Ends Q E r
  Ends-mono (ok a, e) h k = k a e h
  Ends-mono (err x, e) h k = h
  Ends-mono (panic x, e) h k = h
