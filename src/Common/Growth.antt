-- ===== src/Common/Growth.antt =====
-- A search that visits ids round by round: what one round adds, and what a number of hops reaches.
use Prim.Native.Nat.{ℕ, zero, suc, ◌+◌}
use Prim.Native.String.{String}
use mathlib.Core.Path.{◌≡◌, subst}
use mathlib.Core.Logic.{◌⊎◌, ◌↔◌, inl, inr, ⊎_elim}
use mathlib.Core.Bool.{true}
use mathlib.Core.List.{List, [], ◌++◌}
use native.Mathlib.Omega.{arith}
use lynxes_mojo.Common.Sets.{member, member-append_left, member-append_right, member-append_split}

-- The ids of `S` are visited, and what is new stands in the next frontier.
pub record Grows (S : String → Type 0) (visited next visited' next' : List String) : Type 0 where
  pub visits : (v : String) → (member v visited' ≡ true) ↔ ((member v visited ≡ true) ⊎ S v)
  pub fresh :
      (v : String) → member v visited' ≡ true → (member v visited ≡ true) ⊎ (member v next' ≡ true)
  pub keeps_next : (v : String) → member v next ≡ true → member v next' ≡ true
  pub next_visited :
      (v : String) → member v next' ≡ true → (member v next ≡ true) ⊎ (member v visited' ≡ true)

pub Grows-none : (visited next : List String) → Grows (λ v. ⊥) visited next visited next
Grows-none visited next = record {
  visits = λ v. (inl, ⊎_elim (λ old. old) (λ never. absurd never));
  fresh = λ v. inl;
  keeps_next = λ v h. h;
  next_visited = λ v. inl;
}

pub Grows-then :
    (S T : String → Type 0) (a n b m c k : List String)
    → Grows S a n b m
    → Grows T b m c k
    → Grows (λ v. S v ⊎ T v) a n c k
Grows-then S T a n b m c k first second = record {
  visits = λ v. (
    λ h.
        ⊎_elim (λ mid. ⊎_elim inl (λ s. inr (inl s)) ((first.visits v).0 mid)) (λ t. inr (inr t))
          ((second.visits v).0 h),
    λ h. (second.visits v).1 (
        ⊎_elim (λ old. inl ((first.visits v).1 (inl old)))
          (⊎_elim (λ s. inl ((first.visits v).1 (inr s))) inr) h),
  );
  fresh = λ v h.
      ⊎_elim (λ mid. ⊎_elim inl (λ new. inr (second.keeps_next v new)) (first.fresh v mid)) inr
        (second.fresh v h);
  keeps_next = λ v h. second.keeps_next v (first.keeps_next v h);
  next_visited = λ v h.
      ⊎_elim
        (λ mid.
          ⊎_elim inl (λ seen. inr ((second.visits v).1 (inl seen))) (first.next_visited v mid))
        inr (second.next_visited v h);
}

pub Grows-map :
    (S T : String → Type 0) (a n b m : List String)
    → ((v : String) → ((member v a ≡ true) ⊎ S v) ↔ ((member v a ≡ true) ⊎ T v))
    → Grows S a n b m
    → Grows T a n b m
Grows-map S T a n b m iff g = record {
  visits = λ v. (λ h. (iff v).0 ((g.visits v).0 h), λ h. (g.visits v).1 ((iff v).1 h));
  fresh = g.fresh;
  keeps_next = g.keeps_next;
  next_visited = g.next_visited;
}

module _ (Arc : String → String → Type 0) (seeds : List String) where
  -- At most so many arcs lead from the seeds to `v`.
  abbrev pub WithinHops : ℕ → String → Type 0
  WithinHops zero v = member v seeds ≡ true
  WithinHops (suc hops) v = WithinHops hops v ⊎ ((u : String) × WithinHops hops u × Arc u v)

  -- If one more hop finds nothing new, no number of hops does.
  pub WithinHops-stable :
      (n m : ℕ)
      → ((v : String) → WithinHops (suc n) v → WithinHops n v)
      → (v : String) → WithinHops (m + n) v
      → WithinHops n v
  WithinHops-stable n zero stays v h = subst (λ k. WithinHops k v) (omega arith) h
  WithinHops-stable n (suc m) stays v h =
      let same : suc m + n ≡ suc (m + n) = omega arith in
      let next : WithinHops (suc (m + n)) v = subst (λ k. WithinHops k v) same h in
      ⊎_elim (λ old. WithinHops-stable n m stays v old)
        (λ (u, near, arc). stays v (inr (u, WithinHops-stable n m stays u near, arc))) next

  pub WithinHops-more : (n m : ℕ) (v : String) → WithinHops n v → WithinHops (m + n) v
  WithinHops-more n zero v h = subst (λ k. WithinHops k v) (omega arith) h
  WithinHops-more n (suc m) v h =
      let same : suc (m + n) ≡ suc m + n = omega arith in
      let step : WithinHops (suc (m + n)) v = inl (WithinHops-more n m v h) in
      subst (λ k. WithinHops k v) same step

-- What is within the hops of two lists of seeds is within those of one of them.
pub WithinHops-append :
    (Arc : String → String → Type 0) (xs ys : List String) (n : ℕ) (v : String)
    → WithinHops Arc (xs ++ ys) n v ↔ (WithinHops Arc xs n v ⊎ WithinHops Arc ys n v)
WithinHops-append Arc xs ys zero v =
    (member-append_split v xs ys, ⊎_elim (member-append_left v xs ys) (member-append_right v xs ys))
WithinHops-append Arc xs ys (suc n) v =
    let before = WithinHops-append Arc xs ys n in
    (
      ⊎_elim (λ old. ⊎_elim (λ left. inl (inl left)) (λ right. inr (inl right)) ((before v).0 old))
          (λ (u, near, arc).
            ⊎_elim (λ left. inl (inr (u, left, arc))) (λ right. inr (inr (u, right, arc)))
              ((before u).0 near)),
      ⊎_elim
          (⊎_elim (λ old. inl ((before v).1 (inl old)))
            (λ (u, near, arc). inr (u, (before u).1 (inl near), arc)))
          (⊎_elim (λ old. inl ((before v).1 (inr old)))
            (λ (u, near, arc). inr (u, (before u).1 (inr near), arc))),
    )

pub WithinHops-map :
    (Arc Link : String → String → Type 0) (seeds : List String)
    → ((u v : String) → Arc u v → Link u v)
    → (n : ℕ) (v : String) → WithinHops Arc seeds n v
    → WithinHops Link seeds n v
WithinHops-map Arc Link seeds f zero v h = h
WithinHops-map Arc Link seeds f (suc n) v h =
    ⊎_elim (λ old. inl (WithinHops-map Arc Link seeds f n v old))
      (λ (u, near, arc). inr (u, WithinHops-map Arc Link seeds f n u near, f u v arc)) h

pub WithinHops-none :
    (Arc : String → String → Type 0) (n : ℕ) (v : String) → WithinHops Arc [] n v → ⊥
unfolding member
WithinHops-none Arc zero v h = absurd cc
WithinHops-none Arc (suc n) v h =
    ⊎_elim (WithinHops-none Arc n v) (λ (u, near, _). WithinHops-none Arc n u near) h
