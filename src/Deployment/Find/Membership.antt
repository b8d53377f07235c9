-- ===== src/Deployment/Find/Membership.antt =====
-- Which replica sets FindOldReplicaSets returns (pkg/util/deployment/deployment.go).
use mathlib.Core.List.{Mem, filter, mem-filter}
use mathlib.Core.List.Perm
use mathlib.Core.Logic.{ite}
use batch_release.Base.{
  ◌≡◌, ◌≢◌, ◌↔◌, refl, ap, ◌∙◌, sym, Bool, true, false, Option, none, some, List, [], ◌∷◌, arith,
  if◌then◌else◌,
}
use batch_release.Base.Int.{pos, eqb_ℤ, eq_of_parts}
use batch_release.Base.Sort.{sort, sort-perm}
use batch_release.Base.Text.{text_eq, text_eq→eq, text_eq_refl}
use batch_release.Objects.{ReplicaSet, Deployment}
use batch_release.Vendor.{Vendor}
use batch_release.Deployment.Find.{
  find_new_replica_set, is_new, all_but, with_replicas, find_old_replica_sets,
}
use batch_release.Deployment.Order.{by_creation_timestamp}

-- The set has another UID than the new one, if there is a new one.
abbrev pub IsOld : Option ReplicaSet → ReplicaSet → Type 0
IsOld none rs = Unit {0}
IsOld (some new_rs) rs = rs.uid ≢ new_rs.uid

-- A test that is false where `P` holds decides it.
abbrev decide : {P : Type 0} (b : Bool) → (b ≡ true → ¬ P) → (b ≡ false → P) → Dec P
decide true f g = no (f refl)
decide false f g = yes (g refl)

skip-decide :
    {P : Type 0} (b : Bool) (f : b ≡ true → ¬ P) (g : b ≡ false → P) (rs : ReplicaSet)
    (rest : List ReplicaSet)
    → (if b then rest else rs ∷ rest) ≡ ite {C = List ReplicaSet} (decide b f g) (rs ∷ rest) rest
skip-decide true f g rs rest = refl
skip-decide false f g rs rest = refl

module _ (v : Vendor) where
  is_new-same :
      (new_rs : Option ReplicaSet) (rs : ReplicaSet) → is_new v new_rs rs ≡ true → ¬ IsOld new_rs rs
  unfolding is_new
  is_new-same none rs h old = ground arith
  is_new-same (some new_rs) rs h old = old (text_eq→eq rs.uid new_rs.uid h)

  is_new-other :
      (new_rs : Option ReplicaSet) (rs : ReplicaSet) → is_new v new_rs rs ≡ false → IsOld new_rs rs
  unfolding is_new
  is_new-other none rs h = tt
  is_new-other (some new_rs) rs h =
      λ same. let yes_new = ap (text_eq rs.uid) (sym same) ∙ text_eq_refl rs.uid in cc

  abbrev old? : (new_rs : Option ReplicaSet) (rs : ReplicaSet) → Dec (IsOld new_rs rs)
  old? new_rs rs = decide (is_new v new_rs rs) (is_new-same new_rs rs) (is_new-other new_rs rs)

  all_but-filter :
      (new_rs : Option ReplicaSet) (rss : List ReplicaSet)
      → all_but v new_rs rss ≡ filter (old? new_rs) rss
  unfolding all_but
  all_but-filter new_rs [] = refl
  all_but-filter new_rs (rs ∷ rss) = rw (all_but-filter new_rs rss) (
      skip-decide (is_new v new_rs rs) (is_new-same new_rs rs) (is_new-other new_rs rs) rs
        (filter (old? new_rs) rss))

  zero-eqb : (rs : ReplicaSet) → eqb_ℤ rs.replicas (pos 0) ≡ true → ¬ (rs.replicas ≢ pos 0)
  zero-eqb rs h some_left = some_left (eq_of_parts rs.replicas (pos 0) (ground (arith, h)))

  nonzero-eqb : (rs : ReplicaSet) → eqb_ℤ rs.replicas (pos 0) ≡ false → rs.replicas ≢ pos 0
  nonzero-eqb rs h none_left = let empty = ap (λ n. eqb_ℤ n (pos 0)) none_left in cc

  abbrev left? : (rs : ReplicaSet) → Dec (rs.replicas ≢ pos 0)
  left? rs = decide (eqb_ℤ rs.replicas (pos 0)) (zero-eqb rs) (nonzero-eqb rs)

  with_replicas-filter : (rss : List ReplicaSet) → with_replicas v rss ≡ filter left? rss
  unfolding with_replicas
  with_replicas-filter [] = refl
  with_replicas-filter (rs ∷ rss) =
      rw (with_replicas-filter rss) (
        skip-decide (eqb_ℤ rs.replicas (pos 0)) (zero-eqb rs) (nonzero-eqb rs) rs
          (filter left? rss))

  -- A replica set is among all the old ones that FindOldReplicaSets returns second exactly if it is
  -- one of the sets given, and FindNewReplicaSet finds no new one or one with another UID; and it
  -- is among those returned first exactly if it is an old one whose size is not 0.
  pub mem-find_old_replica_sets :
      (d : Deployment) (rss : List ReplicaSet) (rs : ReplicaSet)
      → let (required, old) = find_old_replica_sets v d rss in
        (Mem rs old ↔ (Mem rs rss × IsOld (find_new_replica_set v d rss) rs))
        × (Mem rs required ↔ (Mem rs old × (rs.replicas ≢ pos 0)))
  unfolding find_old_replica_sets
  mem-find_old_replica_sets d rss rs =
      let new_rs = find_new_replica_set v d rss in
      let sorted = sort by_creation_timestamp rss in
      let same = Perm.mem_iff {a = rs} (sort-perm by_creation_timestamp rss) in
      let found = mem-filter (old? new_rs) {l = sorted} {x = rs} in
      (
        rw (all_but-filter new_rs sorted)
            (λ m. (same.0 (found.0 m).0, (found.0 m).1), λ k. found.1 (same.1 k.0, k.1)),
        rw (with_replicas-filter (all_but v new_rs sorted))
            (mem-filter left? {l = all_but v new_rs sorted} {x = rs}),
      )
