-- ===== src/Executor/OldSets/Partition.antt =====
-- The current step of a release, and the new replica set among those of the deployment: what the
-- scale-down of the old sets looks up before it removes anything.
use batch_release.Base.{
  Option, false, All-append, ℕ, ◌≡◌, ◌≢◌, refl, sym, ap, ◌∙◌, inl, inr, Bool, true, none, some,
  List, [], ◌∷◌, ◌++◌, get_elem?, All, arith, Bool-cases, if◌then◌else◌,
}
use batch_release.Base.Int.{ℤ, pos, pos_part, neg_part, ◌≤ℤ◌, int_laws}
use batch_release.Base.Sort.{sort, sort-perm, All-sort}
use batch_release.Base.Sum.{total, total-append, total_of_perm}
use batch_release.Objects.{ReplicaSet, PodTemplate}
use batch_release.Release.{Step}
use batch_release.Vendor.{Vendor}
use batch_release.Deployment.Find.{equal_ignore_hash, first_matching}
use batch_release.Deployment.Order.{by_creation_timestamp}
use batch_release.Executor.Monad.{Executor, M, Result, ok, err, panic, pure, index, ◌>>=◌}
use batch_release.Executor.OldSets.{current_partition}

-- The index of the current step is in range.
pub record IsAtStep (e : Executor) : Type 0 where
  pub step : Step
  pub position : ℕ
  pub at_position : e.br.status.current_step_index ≡ pos position
  pub held : get_elem? e.br.spec.strategy.steps position ≡ some step

index_held :
    (xs : List Step) (i : ℤ) (n : ℕ) (x : Step) (e : Executor)
    → i ≡ pos n
    → get_elem? xs n ≡ some x
    → index xs i e ≡ (ok x, e)
index_held xs i n x e at held = rw at (ground (arith, held))

bind_held :
    (m : M Step) (x : Step) (e : Executor)
    → m e ≡ (ok x, e)
    → (m >>= λ step. pure step.replicas) e ≡ (ok x.replicas, e)
bind_held m x e h =
    ap
      (λ (r : Result Step × Executor). elim r.0 [
        | ok a ↦ pure a.replicas r.1
        | err x ↦ (err x, r.1)
        | panic x ↦ (panic x, r.1)
      ])
      h

pub current_partition-IsAtStep :
    (e : Executor) (h : IsAtStep e) → current_partition e ≡ (ok h.step.replicas, e)
unfolding current_partition
current_partition-IsAtStep e h =
    let found =
      index_held e.br.spec.strategy.steps e.br.status.current_step_index h.position h.step e
        h.at_position h.held in
    bind_held (index e.br.spec.strategy.steps e.br.status.current_step_index) h.step e found

pub some_of : {A : Type 0} (o : Option A) → o ≢ none → (a : A) × (o ≡ some a)
some_of none h = absurd (h refl)
some_of (some a) h = (a, refl)

module _ (v : Vendor) (t : PodTemplate) where
  -- 1 for a set that has the template, apart from its hash label.
  abbrev matches : ReplicaSet → ℤ
  matches rs = if equal_ignore_hash v rs.template t then pos 1 else pos 0

  matches_nonneg : (rss : List ReplicaSet) → pos 0 ≤ℤ total matches rss
  matches_nonneg [] = omega arith
  matches_nonneg (rs ∷ rss) = grind (int_laws, matches_nonneg rss)

  first_matching_missed :
      (rss : List ReplicaSet) → first_matching v t rss ≡ none → total matches rss ≡ pos 0
  unfolding first_matching
  first_matching_missed [] h = refl
  first_matching_missed (rs ∷ rss) h = elim (Bool-cases (equal_ignore_hash v rs.template t)) [
    | inl found ↦ absurd (ground (arith, found, h))
    | inr missed ↦
        rw (missed, first_matching_missed rss (ground (arith, missed, h))) (omega int_laws)
  ]

  All-first_matching :
      (P : ReplicaSet → Type 0) (rss : List ReplicaSet) (rs : ReplicaSet)
      → All P rss
      → first_matching v t rss ≡ some rs
      → P rs
  unfolding first_matching
  All-first_matching P [] rs hs h = absurd (ground (arith, h))
  All-first_matching P (x ∷ rss) rs hs h = elim (Bool-cases (equal_ignore_hash v x.template t)) [
    | inl found ↦ let same : x ≡ rs = ground (arith, found, h) in rw (← same) hs.0
    | inr missed ↦ All-first_matching P rss rs hs.1 (ground (arith, missed, h))
  ]

  -- A list with a matching set at its end has a first match, whatever order it is sorted to.
  pub first_matching-sort :
      (less : ReplicaSet → ReplicaSet → Bool) (rss : List ReplicaSet) (appended : ReplicaSet)
      → equal_ignore_hash v appended.template t ≡ true
      → first_matching v t (sort less (rss ++ appended ∷ [])) ≢ none
  first_matching-sort less rss appended same missed =
      let all = rss ++ appended ∷ [] in
      let nothing = first_matching_missed (sort less all) missed in
      let one : matches appended ≡ pos 1 = rw same refl in
      let counted = total-append matches rss (appended ∷ []) in
      let kept = total_of_perm matches (sort-perm less all) in
      absurd (
        omega (
          int_laws,
          matches_nonneg rss,
          ap pos_part (sym nothing ∙ kept ∙ counted),
          ap pos_part one,
          ap neg_part one,
        ))

module _ (v : Vendor) (t : PodTemplate) where
  pub first_matching-matches :
      (rss : List ReplicaSet) (rs : ReplicaSet)
      → first_matching v t rss ≡ some rs
      → equal_ignore_hash v rs.template t ≡ true
  unfolding first_matching
  first_matching-matches [] rs h = absurd (ground (arith, h))
  first_matching-matches (x ∷ rss) rs h = elim (Bool-cases (equal_ignore_hash v x.template t)) [
    | inl found ↦ let same : x ≡ rs = ground (arith, found, h) in rw (← same) found
    | inr missed ↦ first_matching-matches rss rs (ground (arith, missed, h))
  ]

  -- Only the new replica set has the template.
  abbrev Others : List ReplicaSet → Type 0
  Others = All (λ rs. equal_ignore_hash v rs.template t ≡ false)

  abbrev IsThe : ReplicaSet → ReplicaSet → Type 0
  IsThe a rs = equal_ignore_hash v rs.template t ≡ true → rs ≡ a

  Others-IsThe : (a : ReplicaSet) (rss : List ReplicaSet) → Others rss → All (IsThe a) rss
  Others-IsThe a [] h = tt
  Others-IsThe a (rs ∷ rss) h = (λ same. absurd (ground (arith, same, h.0)), Others-IsThe a rss h.1)

  pub found_new :
      (rss : List ReplicaSet) (a : ReplicaSet)
      → Others rss
      → equal_ignore_hash v a.template t ≡ true
      → first_matching v t (sort by_creation_timestamp (rss ++ a ∷ [])) ≡ some a
  found_new rss a others same =
      let all = sort by_creation_timestamp (rss ++ a ∷ []) in
      let (rs, found) =
        some_of (first_matching v t all)
          (first_matching-sort v t by_creation_timestamp rss a same) in
      let each =
        All-sort by_creation_timestamp (IsThe a) (rss ++ a ∷ [])
          (All-append (IsThe a) rss (a ∷ []) (Others-IsThe a rss others) (λ _. refl, tt)) in
      found
      ∙ ap some
          (All-first_matching v t (IsThe a) all rs each found (first_matching-matches all rs found))
