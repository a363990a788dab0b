-- ===== src/Components/Labels.antt =====
-- crates/lynxes-core/src/algo/connected_components.rs: what visiting a row's neighbors does to the labels
-- and to the queue.
use lynxes_mojo.Common.{
  ℕ, zero, suc, ◌+◌, ◌<◌, ◌≡◌, ◌⊎◌, refl, ap, sym, ◌∙◌, Option, none, some, List, [], ◌∷◌, ◌++◌,
  length, get_elem?, get_or, set, arith, ◌==◌, ==_iff, if◌then◌else◌, Bool-cases, inl, inr, ⊎_elim,
  Has, Option-cases, length-append,
}
use lynxes_mojo.Outcome.{ok}
use lynxes_mojo.Csr.Packing.{AllBelow}
use lynxes_mojo.Components.{Labelling, mark, visit}
use lynxes_mojo.Traversal.{IndexedEdges}

abbrev pub label : List (Option ℕ) → ℕ → Option ℕ
label ids u = get_or ids u none

abbrev pub unlabelled : List (Option ℕ) → ℕ
unlabelled [] = 0
unlabelled (none ∷ ids) = suc (unlabelled ids)
unlabelled (some _ ∷ ids) = unlabelled ids

pub length-set :
    (ids : List (Option ℕ)) (row : ℕ) (v : Option ℕ) → length (set ids row v) ≡ length ids
length-set [] row v = refl
length-set (x ∷ ids) zero v = refl
length-set (x ∷ ids) (suc row) v = ap suc (length-set ids row v)

pub get_elem-label :
    (ids : List (Option ℕ)) (row : ℕ) → row < length ids → get_elem? ids row ≡ some (label ids row)
get_elem-label [] row inside = absurd (omega (arith, inside))
get_elem-label (x ∷ ids) zero inside = refl
get_elem-label (x ∷ ids) (suc row) inside = get_elem-label ids row (omega (arith, inside))

pub label-set :
    (ids : List (Option ℕ)) (row u : ℕ) (v : Option ℕ)
    → row < length ids
    → label (set ids row v) u ≡ (if row == u then v else label ids u)
label-set [] row u v inside = absurd (omega (arith, inside))
label-set (x ∷ ids) zero zero v inside = refl
label-set (x ∷ ids) zero (suc u) v inside = ground arith
label-set (x ∷ ids) (suc row) zero v inside = ground arith
label-set (x ∷ ids) (suc row) (suc u) v inside = ground (arith, label-set ids row u v)

pub label_some-inside : (ids : List (Option ℕ)) (u k : ℕ) → label ids u ≡ some k → u < length ids
label_some-inside [] u k h = absurd cc
label_some-inside (x ∷ ids) zero k h = omega arith
label_some-inside (x ∷ ids) (suc u) k h = omega (arith, label_some-inside ids u k h)

pub unlabelled-set :
    (ids : List (Option ℕ)) (row cid : ℕ)
    → row < length ids
    → label ids row ≡ none
    → suc (unlabelled (set ids row (some cid))) ≡ unlabelled ids
unlabelled-set [] row cid inside h = absurd (omega (arith, inside))
unlabelled-set (none ∷ ids) zero cid inside h = refl
unlabelled-set (some k ∷ ids) zero cid inside h = absurd cc
unlabelled-set (none ∷ ids) (suc row) cid inside h =
    ap suc (unlabelled-set ids row cid (omega (arith, inside)) h)
unlabelled-set (some k ∷ ids) (suc row) cid inside h =
    unlabelled-set ids row cid (omega (arith, inside)) h

pub unlabelled-le : (ids : List (Option ℕ)) → unlabelled ids < suc (length ids)
unlabelled-le [] = omega arith
unlabelled-le (none ∷ ids) = omega (arith, unlabelled-le ids)
unlabelled-le (some k ∷ ids) = omega (arith, unlabelled-le ids)

pub Has-append_left : (u : ℕ) (xs ys : List ℕ) → Has u xs → Has u (xs ++ ys)
Has-append_left u [] ys h = absurd h
Has-append_left u (x ∷ xs) ys h = ⊎_elim inl (λ later. inr (Has-append_left u xs ys later)) h

pub Has-append_right : (u : ℕ) (xs ys : List ℕ) → Has u ys → Has u (xs ++ ys)
Has-append_right u [] ys h = h
Has-append_right u (x ∷ xs) ys h = inr (Has-append_right u xs ys h)

pub Has-append_split : (u : ℕ) (xs ys : List ℕ) → Has u (xs ++ ys) → Has u xs ⊎ Has u ys
Has-append_split u [] ys h = inr h
Has-append_split u (x ∷ xs) ys h =
    ⊎_elim (λ here. inl (inl here))
      (λ later. ⊎_elim (λ l. inl (inr l)) inr (Has-append_split u xs ys later)) h

-- What marking the rows of a list does.
pub record Visited (cid : ℕ) (rows : List ℕ) (l l' : Labelling) : Type 0 where
  pub as_long : length l'.ids ≡ length l.ids
  pub keeps : (u k : ℕ) → label l.ids u ≡ some k → label l'.ids u ≡ some k
  pub fresh :
      (u k : ℕ)
      → label l'.ids u ≡ some k
      → (label l.ids u ≡ some k) ⊎ ((k ≡ cid) × Has u rows × Has u l'.queue)
  pub covers : (u : ℕ) → Has u rows → (k : ℕ) × (label l'.ids u ≡ some k)
  pub keeps_queue : (u : ℕ) → Has u l.queue → Has u l'.queue
  pub queued : (u : ℕ) → Has u l'.queue → Has u l.queue ⊎ (label l'.ids u ≡ some cid)
  pub measured : length l'.queue + unlabelled l'.ids ≡ length l.queue + unlabelled l.ids

pub Visited-nothing : (cid : ℕ) (l : Labelling) → Visited cid [] l l
Visited-nothing cid l = record {
  as_long = refl;
  keeps = λ u k h. h;
  fresh = λ u k. inl;
  covers = λ u h. absurd h;
  keeps_queue = λ u h. h;
  queued = λ u. inl;
  measured = refl;
}

pub Visited-append :
    (cid : ℕ) (rs ss : List ℕ) (l m l' : Labelling)
    → Visited cid rs l m
    → Visited cid ss m l'
    → Visited cid (rs ++ ss) l l'
Visited-append cid rs ss l m l' first second = record {
  as_long = second.as_long ∙ first.as_long;
  keeps = λ u k h. second.keeps u k (first.keeps u k h);
  fresh = λ u k h.
      ⊎_elim
        (λ old.
          ⊎_elim inl
            (λ (same, listed, waits).
              inr (same, Has-append_left u rs ss listed, second.keeps_queue u waits))
            (first.fresh u k old))
        (λ (same, listed, waits). inr (same, Has-append_right u rs ss listed, waits))
        (second.fresh u k h);
  covers = λ u h.
      ⊎_elim (λ early. let (k, has) = first.covers u early in (k, second.keeps u k has))
        (λ late. second.covers u late) (Has-append_split u rs ss h);
  keeps_queue = λ u h. second.keeps_queue u (first.keeps_queue u h);
  queued = λ u h.
      ⊎_elim (λ old. ⊎_elim inl (λ has. inr (second.keeps u cid has)) (first.queued u old)) inr
        (second.queued u h);
  measured = second.measured ∙ first.measured;
}

abbrev pub marked : ℕ → ℕ → Labelling → Labelling
marked cid row l = record { ids = set l.ids row (some cid); queue = l.queue ++ row ∷ [] }

module _ (cid row : ℕ) (l : Labelling) (inside : row < length l.ids) where
  pub label-marked_self : (u : ℕ) → u ≡ row → label (set l.ids row (some cid)) u ≡ some cid
  label-marked_self u same =
      label-set l.ids row u (some cid) inside ∙ rw ((==_iff row u).1 (sym same)) refl

  pub marked-Visited : label l.ids row ≡ none → Visited cid (row ∷ []) l (marked cid row l)
  marked-Visited absent = record {
    as_long = length-set l.ids row (some cid);
    keeps = λ u k h. label-set l.ids row u (some cid) inside ∙ elim (Bool-cases (row == u)) [
      | inl here ↦
          absurd
            let same : row ≡ u = (==_iff row u).0 here in
              let gone : label l.ids u ≡ none = rw (← same) absent in cc
      | inr there ↦ rw there h
    ];
    fresh = λ u k h.
        let now : (if row == u then some cid else label l.ids u) ≡ some k =
          sym (label-set l.ids row u (some cid) inside) ∙ h in
        elim (Bool-cases (row == u)) [
          | inl here ↦
              let same : u ≡ row = sym ((==_iff row u).0 here) in
              let one : some cid ≡ some k = rw here at now in
              let eq : k ≡ cid = cc in
              inr (eq, inl same, Has-append_right u l.queue (row ∷ []) (inl same))
          | inr there ↦ inl (rw there at now)
        ];
    covers = λ u h. (cid, ⊎_elim (λ same. label-marked_self u same) (λ nowhere. absurd nowhere) h);
    keeps_queue = λ u h. Has-append_left u l.queue (row ∷ []) h;
    queued = λ u h.
        ⊎_elim inl
          (λ last. inr (⊎_elim (λ same. label-marked_self u same) (λ nowhere. absurd nowhere) last))
          (Has-append_split u l.queue (row ∷ []) h);
    measured =
        omega (arith, length-append l.queue (row ∷ []), unlabelled-set l.ids row cid inside absent);
  }

  labelled-Visited : (k : ℕ) → label l.ids row ≡ some k → Visited cid (row ∷ []) l l
  labelled-Visited k has = record {
    as_long = refl;
    keeps = λ u k' h. h;
    fresh = λ u k'. inl;
    covers = λ u h. (k, ⊎_elim (λ same. rw same has) (λ nowhere. absurd nowhere) h);
    keeps_queue = λ u h. h;
    queued = λ u. inl;
    measured = refl;
  }

  pub mark-Visited : (l' : Labelling) × (mark cid row l ≡ ok l') × Visited cid (row ∷ []) l l'
  unfolding mark
  mark-Visited = elim (Option-cases (label l.ids row)) [
    | inl absent ↦ (
      marked cid row l,
      rw (mark, get_elem-label l.ids row inside, absent) refl,
      marked-Visited absent,
    )
    | inr (k, has) ↦
        (l, rw (mark, get_elem-label l.ids row inside, has) refl, labelled-Visited k has)
  ]

-- The rows that neighbors stand for.
abbrev pub targets : List (Option ℕ) → List ℕ → List ℕ
targets slots [] = []
targets slots (nb ∷ nbs) = elim (get_or slots nb none) [
  | none ↦ targets slots nbs
  | some row ↦ row ∷ targets slots nbs
]

module _ (es : IndexedEdges) (links slots : List (Option ℕ)) (n : ℕ)
    (rows_below : (e row : ℕ) → label slots e ≡ some row → row < n) where
  pub visit-Visited :
      (cid : ℕ) (nbs : List ℕ) (l : Labelling)
      → AllBelow (length slots) nbs
      → length l.ids ≡ n
      → (l' : Labelling) × (visit es links slots cid nbs l ≡ ok l')
        × Visited cid (targets slots nbs) l l'
  unfolding visit
  visit-Visited cid [] l below long = (l, refl, Visited-nothing cid l)
  visit-Visited cid (nb ∷ nbs) l below long = elim (Option-cases (label slots nb)) [
    | inl absent ↦
        let (l', run, visited) = visit-Visited cid nbs l below.1 long in
        (l', rw (get_elem-label slots nb below.0, absent) run, rw (targets, absent) visited)
    | inr (row, found) ↦
        let (m, run, one) = mark-Visited cid row l (rw long (rows_below nb row found)) in
        let (l', run', visited) = visit-Visited cid nbs m below.1 (one.as_long ∙ long) in
        (
          l',
          rw (get_elem-label slots nb below.0, found, run) run',
          rw (targets, found)
              (Visited-append cid (row ∷ []) (targets slots nbs) l m l' one visited),
        )
  ]
