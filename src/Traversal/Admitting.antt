-- ===== src/Traversal/Admitting.antt =====
-- crates/lynxes-lazy/src/query/executor/traversal.rs, `expand_graph_raw`: what a candidate adds, and a stop.
use lynxes_mojo.Common.{
  ℕ, ◌≡◌, ◌↔◌, ◌⊎◌, subst, String, true, Option, Bool-cases, inl, inr, ⊎_elim, member, set_insert,
  member-set_insert, set_insert-keeps, set_insert-adds, Grows, Grows-then, Grows-map,
}
use lynxes_mojo.Traversal.{reached_limit}
use lynxes_mojo.Traversal.Expand.{Expanded, Flow, going, stopped, admit_candidate}

pub admit_candidate-Grows :
    (id : String) (e_row : ℕ) (x : Expanded)
    → Grows
        (λ v. id ≡ v)
        x.visited
        x.next
        (admit_candidate id e_row x).visited
        (admit_candidate id e_row x).next
unfolding admit_candidate
admit_candidate-Grows id e_row x = record {
  visits = λ v. (
    λ h. ⊎_elim inr inl (member-set_insert v id x.visited h),
    ⊎_elim (λ old. set_insert-keeps v id x.visited old)
        (λ same.
          subst (λ w. member w (set_insert id x.visited) ≡ true) same
            (set_insert-adds id x.visited)),
  );
  fresh = λ v h.
      ⊎_elim
        (λ same. elim (Bool-cases (member id x.visited)) [
          | inl old ↦ inl (subst (λ w. member w x.visited ≡ true) same old)
          | inr new ↦ inr (
              rw new (
                subst (λ w. member w (set_insert id x.next) ≡ true) same
                  (set_insert-adds id x.next)))
        ])
        inl (member-set_insert v id x.visited h);
  keeps_next = λ v h. elim (Bool-cases (member id x.visited)) [
    | inl old ↦ rw old h
    | inr new ↦ rw new (set_insert-keeps v id x.next h)
  ];
  next_visited = λ v h. elim (Bool-cases (member id x.visited)) [
    | inl old ↦ inl (rw old at h)
    | inr new ↦
        ⊎_elim
          (λ same. inr (
            subst (λ w. member w (set_insert id x.visited) ≡ true) same
              (set_insert-adds id x.visited)))
          inl (member-set_insert v id x.next (rw new at h))
  ];
}

-- What a round that goes on, or is stopped at the limit, makes of the sets.
abbrev pub FlowOk : Option ℕ → (String → Type 0) → Expanded → Flow → Type 0
FlowOk stop_at S x (going y) = Grows S x.visited x.next y.visited y.next
FlowOk stop_at S x (stopped y) =
    ((v : String) → member v y.visited ≡ true → (member v x.visited ≡ true) ⊎ S v)
    × ((v : String) → member v x.visited ≡ true → member v y.visited ≡ true)
    × (reached_limit stop_at y.visited ≡ true)

pub FlowOk-map :
    (stop_at : Option ℕ) (S T : String → Type 0) (x : Expanded) (flow : Flow)
    → ((v : String) → S v ↔ T v)
    → FlowOk stop_at S x flow
    → FlowOk stop_at T x flow
FlowOk-map stop_at S T x (going y) iff h =
    Grows-map S T _ _ _ _
      (λ v. (⊎_elim inl (λ s. inr ((iff v).0 s)), ⊎_elim inl (λ t. inr ((iff v).1 t)))) h
FlowOk-map stop_at S T x (stopped y) iff (sound, keeps, full) =
    (λ v h. ⊎_elim inl (λ s. inr ((iff v).0 s)) (sound v h), keeps, full)

pub FlowOk-after :
    (stop_at : Option ℕ) (S T : String → Type 0) (x y : Expanded) (flow : Flow)
    → Grows S x.visited x.next y.visited y.next
    → FlowOk stop_at T y flow
    → FlowOk stop_at (λ v. S v ⊎ T v) x flow
FlowOk-after stop_at S T x y (going z) first second = Grows-then S T _ _ _ _ _ _ first second
FlowOk-after stop_at S T x y (stopped z) first (sound, keeps, full) = (
  λ v h.
      ⊎_elim (λ mid. ⊎_elim inl (λ s. inr (inl s)) ((first.visits v).0 mid)) (λ t. inr (inr t))
        (sound v h),
  λ v h. keeps v ((first.visits v).1 (inl h)),
  full,
)

pub FlowOk-stop :
    (stop_at : Option ℕ) (S T : String → Type 0) (x y : Expanded)
    → Grows S x.visited x.next y.visited y.next
    → reached_limit stop_at y.visited ≡ true
    → FlowOk stop_at (λ v. S v ⊎ T v) x (stopped y)
FlowOk-stop stop_at S T x y g full =
    (λ v h. ⊎_elim inl (λ s. inr (inl s)) ((g.visits v).0 h), λ v h. (g.visits v).1 (inl h), full)
