-- ===== src/Command/Order.antt =====
-- In which order the command starts, and when it exits.
use batch_release.Base.{
  ◌≡◌, refl, sym, ap, ◌∙◌, subst, Bool, true, false, List, [], ◌∷◌, ◌++◌, append_assoc,
}
use batch_release.Base.Text.{Text, codes}
use batch_release.Command.{
  Flags, settings_of, manager_options, SetupCall, new_manager, get_event_recorder_for, complete,
  add_healthz_check, add_readyz_check, start, batch_release_kind, replica_set_kind, deployment_kind,
  enqueue_request_for_replicaset, enqueue_request_for_deployment, Progress, going, exited, Main,
  after, ◌>>◌, or_exit, attempt, perform, setup_with_manager, main,
}

-- The calls in the order in which they are made.
abbrev pub plan : Flags → List SetupCall
plan flags =
    new_manager (manager_options (settings_of flags))
    ∷ get_event_recorder_for (codes "batch-release-controller")
    ∷ complete (codes "batchrelease") batch_release_kind (
        (replica_set_kind, enqueue_request_for_replicaset)
        ∷ (deployment_kind, enqueue_request_for_deployment)
        ∷ [])
    ∷ add_healthz_check (codes "healthz")
    ∷ add_readyz_check (codes "readyz")
    ∷ start
    ∷ []

-- What main logs where the call fails.
abbrev pub message_of : SetupCall → Text
message_of (new_manager o) = codes "unable to start manager"
message_of (get_event_recorder_for n) = []
message_of (complete n k ws) = codes "unable to create controller"
message_of (add_healthz_check n) = codes "unable to set up health check"
message_of (add_readyz_check n) = codes "unable to set up ready check"
message_of start = codes "problem running manager"

-- The calls `made`, in their order, after `calls`.
abbrev pub onto : List SetupCall → List SetupCall → List SetupCall
onto calls [] = calls
onto calls (c ∷ made) = onto (c ∷ calls) made

onto-append : (calls p q : List SetupCall) → onto calls (p ++ q) ≡ onto (onto calls p) q
onto-append calls [] q = refl
onto-append calls (c ∷ p) q = onto-append (c ∷ calls) p q

module _ (accepts : List SetupCall → SetupCall → Bool) where
  -- A call that may fail was accepted.
  abbrev pub Passed : List SetupCall → SetupCall → Type 0
  Passed before (get_event_recorder_for n) = Unit {0}
  Passed before c = accepts before c ≡ true

  abbrev pub Accepted : List SetupCall → Type 0
  Accepted [] = Unit {0}
  Accepted (c ∷ before) = Passed before c × Accepted before

  -- All the calls of `p` are made and accepted, or main exits at the first one that is refused, with
  -- its message, and makes none after it.
  abbrev pub Ended : List SetupCall → List SetupCall → Progress × List SetupCall → Type 0
  Ended calls p (going, made) = (made ≡ onto calls p) × Accepted made
  Ended calls p (exited message, made) =
      (q : List SetupCall) × (c : SetupCall) × (rest : List SetupCall) × (p ≡ q ++ c ∷ rest)
      × (made ≡ c ∷ onto calls q)
      × Accepted (onto calls q)
      × (accepts (onto calls q) c ≡ false)
      × (message ≡ message_of c)

  record Runs (k : Main) (p : List SetupCall) : Type 0 where
    at : (calls : List SetupCall) → Accepted calls → Ended calls p (k calls)

  Runs-perform :
      (n : Text) → Runs (perform accepts (get_event_recorder_for n)) (get_event_recorder_for n ∷ [])
  Runs-perform n = record { at = λ calls h. (refl, (tt, h)) }

  Runs-then : (m k : Main) (p q : List SetupCall) → Runs m p → Runs k q → Runs (m >> k) (p ++ q)
  Runs-then m k p q s t = record { at = λ calls h. go calls (m calls) (s.at calls h) }
    where
      onward :
          (calls made : List SetupCall)
          → made ≡ onto calls p
          → (r : Progress × List SetupCall) → Ended made q r
          → Ended calls (p ++ q) r
      onward calls made same (going, made') h =
          (h.0 ∙ ap (λ l. onto l q) same ∙ sym (onto-append calls p q), h.1)
      onward calls made same (exited message, made')
            (q', c, rest, split, last, passed, refused, said) =
          let moved = ap (λ (l : List SetupCall). onto l q') same ∙ sym (onto-append calls p q') in
          (
            p ++ q',
            c,
            rest,
            ap (λ (l : List SetupCall). p ++ l) split ∙ sym (append_assoc p q' (c ∷ rest)),
            last ∙ ap (λ (l : List SetupCall). c ∷ l) moved,
            subst Accepted moved passed,
            subst (λ (l : List SetupCall). accepts l c ≡ false) moved refused,
            said,
          )

      go :
          (calls : List SetupCall) (r : Progress × List SetupCall)
          → Ended calls p r
          → Ended calls (p ++ q) (after k r)
      go calls (going, made) h = onward calls made h.0 (k made) (t.at made h.1)
      go calls (exited message, made) (q', c, rest, split, last, passed, refused, said) = (
        q',
        c,
        rest ++ q,
        ap (λ (l : List SetupCall). l ++ q) split ∙ append_assoc q' (c ∷ rest) q,
        last,
        passed,
        refused,
        said,
      )

  Passed-accepted :
      (before : List SetupCall) (c : SetupCall) → accepts before c ≡ true → Passed before c
  Passed-accepted before (new_manager o) h = h
  Passed-accepted before (get_event_recorder_for n) h = tt
  Passed-accepted before (complete n k ws) h = h
  Passed-accepted before (add_healthz_check n) h = h
  Passed-accepted before (add_readyz_check n) h = h
  Passed-accepted before start h = h

  Runs-attempt : (c : SetupCall) → Runs (attempt accepts c (message_of c)) (c ∷ [])
  Runs-attempt c = record { at = λ calls h. go calls h (accepts calls c) refl }
    where
      go :
          (calls : List SetupCall)
          → Accepted calls
          → (b : Bool) → accepts calls c ≡ b
          → Ended calls (c ∷ []) (or_exit b (message_of c), c ∷ calls)
      go calls h true e = (refl, (Passed-accepted calls c e, h))
      go calls h false e = ([], c, [], refl, refl, h, e, refl)

  Runs-main : (flags : Flags) → Runs (main accepts flags) (plan flags)
  unfolding main setup_with_manager
  Runs-main flags = Runs-then _ _ (_ ∷ []) _ (Runs-attempt _) (
      Runs-then _ _ (_ ∷ _ ∷ []) _ (Runs-then _ _ (_ ∷ []) _ (Runs-perform _) (Runs-attempt _)) (
        Runs-then _ _ (_ ∷ []) _ (Runs-attempt _)
          (Runs-then _ _ (_ ∷ []) _ (Runs-attempt _) (Runs-attempt _))))

  -- main creates the manager, sets up the controller with its two watches, adds the two health checks
  -- and starts the manager, in this order. It goes on only while controller-runtime accepts
  -- the calls: it exits at the first one that is refused, with that call's message, and makes none
  -- after it.
  pub main-Ended : (flags : Flags) → Ended [] (plan flags) (main accepts flags [])
  main-Ended flags = (Runs-main flags).at [] tt
