-- ===== src/Traversal/Bounds.antt =====
-- crates/lynxes-lazy/src/query/executor/traversal.rs, `expand_graph_raw` with `stop_at`: how many ids it
-- visits.
use lynxes_mojo.Common.{
  ℕ, zero, suc, ◌≤◌, ◌≡◌, refl, subst, String, Bool, true, false, Option, none, some, List, [], ◌∷◌,
  length, member, set_insert, set_extend, leb, arith, Bool-cases, inl, inr,
}
use lynxes_mojo.Direction.{Direction}
use lynxes_mojo.Outcome.{Outcome, ok, ◌>>=◌, >>=-eq-ok}
use lynxes_mojo.Plan.Expressions.{EdgeTypeSpec, Expr}
use lynxes_mojo.Mutable.{get_id}
use lynxes_mojo.Executor.Values.{Floats}
use lynxes_mojo.Traversal.{IndexedEdges, build_edge_node_ids, entries_of, reached_limit}
use lynxes_mojo.Traversal.Expand.{
  NodeRows, Expanded, Flow, going, stopped, admit_candidate, entry_candidate, expand_entries,
  expand_current, expand_rounds, expand_graph_raw,
}

length-set_insert :
    (id : String) (ids : List String) → length (set_insert id ids) ≤ suc (length ids)
unfolding set_insert
length-set_insert id ids = elim (Bool-cases (member id ids)) [
  | inl old ↦ rw old (omega arith)
  | inr new ↦ rw new (omega arith)
]

ok_visited :
    {a b : List String} {c d : List ℕ}
    → ◌≡◌ {A = Outcome (List String × List ℕ)} (ok (a, c)) (ok (b, d))
    → a ≡ b
ok_visited h = cc

module _ (fl : Floats) (es : IndexedEdges) (dir_col : List ℕ) (nodes : NodeRows)
    (names : List String) (spec : EdgeTypeSpec) (direction : Direction) (pre_filter : Option Expr)
    (limit bound : ℕ) (enough : limit ≤ bound) where
  -- One more id may be visited.
  abbrev Room : Expanded → Type 0
  Room x = suc (length x.visited) ≤ bound

  abbrev Bounded : Flow → Type 0
  Bounded (going y) = Room y
  Bounded (stopped y) = length y.visited ≤ bound

  abbrev entries_run : List (ℕ × ℕ) → Expanded → Outcome Flow
  entries_run = expand_entries fl es dir_col nodes names spec direction pre_filter (some limit)

  admitted_length :
      (id : String) (row : ℕ) (x : Expanded)
      → length (admit_candidate id row x).visited ≤ suc (length x.visited)
  unfolding admit_candidate
  admitted_length id row x = length-set_insert id x.visited

  same-Bounded : (f flow : Flow) → ok f ≡ ok flow → Bounded f → Bounded flow
  same-Bounded f flow same h = let one : f ≡ flow = cc in subst Bounded one h

  after_test :
      (entries : List (ℕ × ℕ)) (y : Expanded) (flow : Flow) (b : Bool)
      → leb limit (length y.visited) ≡ b
      → length y.visited ≤ bound
      → (Room y → entries_run entries y ≡ ok flow → Bounded flow)
      → (elim b as (λ _. Outcome Flow) [ true ↦ ok (stopped y) | false ↦ entries_run entries y ])
        ≡ ok flow
      → Bounded flow
  after_test entries y flow true full fits later run = same-Bounded (stopped y) flow run fits
  after_test entries y flow false below fits later run =
      let less : suc (length y.visited) ≤ limit = ground (arith, below) in
      later (omega (arith, less, enough)) run

  after_candidate :
      (entries : List (ℕ × ℕ)) (row : ℕ) (x : Expanded) (o : Option String) (flow : Flow)
      → Room x
      → ((y : Expanded) → Room y → entries_run entries y ≡ ok flow → Bounded flow)
      → (elim o as (λ _. Outcome Flow) [
        | none ↦ entries_run entries x
        | some id ↦
            elim (reached_limit (some limit) (admit_candidate id row x).visited)
              as (λ _. Outcome Flow) [
                | true ↦ ok (stopped (admit_candidate id row x))
                | false ↦ entries_run entries (admit_candidate id row x)
              ]
      ])
        ≡ ok flow
      → Bounded flow
  after_candidate entries row x none flow room later run = later x room run
  after_candidate entries row x (some id) flow room later run =
      let y = admit_candidate id row x in
      let grown = admitted_length id row x in
      after_test entries y flow (leb limit (length y.visited)) refl (omega (arith, grown, room))
        (later y) run

  expand_entries-Bounded :
      (entries : List (ℕ × ℕ)) (x : Expanded) (flow : Flow)
      → Room x
      → entries_run entries x ≡ ok flow
      → Bounded flow
  unfolding expand_entries
  expand_entries-Bounded [] x flow room run = same-Bounded (going x) flow run room
  expand_entries-Bounded (entry ∷ entries) x flow room run =
      let (o, _, rest) =
        >>=-eq-ok
          (entry_candidate fl es dir_col nodes names spec direction pre_filter (some limit) entry) _
          run in
      after_candidate entries entry.1 x o flow room
        (λ y room'. expand_entries-Bounded entries y flow room') rest

  abbrev ids_run : List String → Expanded → Outcome Flow
  ids_run = expand_current fl es dir_col nodes names spec direction pre_filter (some limit)

  after_flow :
      (ids : List String) (f flow : Flow)
      → Bounded f
      → ((y : Expanded) → Room y → ids_run ids y ≡ ok flow → Bounded flow)
      → (elim f as (λ _. Outcome Flow) [ stopped y ↦ ok (stopped y) | going y ↦ ids_run ids y ])
        ≡ ok flow
      → Bounded flow
  after_flow ids (stopped y) flow fits later run = same-Bounded (stopped y) flow run fits
  after_flow ids (going y) flow room later run = later y room run

  after_index :
      (ids : List String) (x : Expanded) (o : Option ℕ) (flow : Flow)
      → Room x
      → ((y : Expanded) → Room y → ids_run ids y ≡ ok flow → Bounded flow)
      → (elim o as (λ _. Outcome Flow) [
        | none ↦ ids_run ids x
        | some local_idx ↦ do
          f ← entries_run (entries_of es direction local_idx) x
          elim f as (λ _. Outcome Flow) [ stopped y ↦ ok (stopped y) | going y ↦ ids_run ids y ]
      ])
        ≡ ok flow
      → Bounded flow
  after_index ids x none flow room later run = later x room run
  after_index ids x (some local_idx) flow room later run =
      let (f, entered, rest) =
        >>=-eq-ok (entries_run (entries_of es direction local_idx) x) _ run in
      after_flow ids f flow
        (expand_entries-Bounded (entries_of es direction local_idx) x f room entered) later rest

  expand_current-Bounded :
      (ids : List String) (x : Expanded) (flow : Flow)
      → Room x
      → ids_run ids x ≡ ok flow
      → Bounded flow
  unfolding expand_current
  expand_current-Bounded [] x flow room run = same-Bounded (going x) flow run room
  expand_current-Bounded (id ∷ ids) x flow room run =
      after_index ids x (get_id id es.node_index) flow room
        (λ y room'. expand_current-Bounded ids y flow room') run

  abbrev rounds_run : ℕ → List String → Expanded → Outcome Expanded
  rounds_run = expand_rounds fl es dir_col nodes names spec direction pre_filter (some limit)

  fits_by : (x y : Expanded) → ok x ≡ ok y → length x.visited ≤ bound → length y.visited ≤ bound
  fits_by x y same h = let one : x ≡ y = cc in subst (λ z. length z.visited ≤ bound) one h

  abbrev next_frontier : ℕ → Expanded → List String → Outcome Expanded
  next_frontier hops y [] = ok y
  next_frontier hops y (id ∷ ids) = rounds_run hops (id ∷ ids) y

  after_frontier :
      (hops : ℕ) (y : Expanded) (ids : List String) (z : Expanded)
      → Room y
      → ((id : String) (ids : List String) (y : Expanded)
          → Room y
          → rounds_run hops (id ∷ ids) y ≡ ok z
          → length z.visited ≤ bound)
      → next_frontier hops y ids ≡ ok z
      → length z.visited ≤ bound
  after_frontier hops y [] z room later run = fits_by y z run (omega (arith, room))
  after_frontier hops y (id ∷ ids) z room later run = later id ids y room run

  after_round :
      (hops : ℕ) (f : Flow) (z : Expanded)
      → Bounded f
      → ((id : String) (ids : List String) (y : Expanded)
          → Room y
          → rounds_run hops (id ∷ ids) y ≡ ok z
          → length z.visited ≤ bound)
      → (elim f as (λ _. Outcome Expanded) [
        | stopped y ↦ ok y
        | going y ↦ next_frontier hops y y.next
      ])
        ≡ ok z
      → length z.visited ≤ bound
  after_round hops (stopped y) z fits later run = fits_by y z run fits
  after_round hops (going y) z room later run = after_frontier hops y y.next z room later run

  expand_rounds-bound :
      (hops : ℕ) (current : List String) (x z : Expanded)
      → Room x
      → rounds_run hops current x ≡ ok z
      → length z.visited ≤ bound
  unfolding expand_rounds
  expand_rounds-bound zero current x z room run = fits_by x z run (omega (arith, room))
  expand_rounds-bound (suc hops) current x z room run =
      let (f, went, rest) = >>=-eq-ok (ids_run current (record x { next = [] })) _ run in
      after_round hops f z (expand_current-Bounded current (record x { next = [] }) f room went)
        (λ id ids y room'. expand_rounds-bound hops (id ∷ ids) y z room') rest

-- Whenever it returns, it visits at most as many ids as the limit, or as one more than it starts from.
pub expand_graph_raw-bound :
    (fl : Floats) (es : IndexedEdges) (dir_col : List ℕ) (nodes : NodeRows) (spec : EdgeTypeSpec)
    (direction : Direction) (pre_filter : Option Expr) (limit hops : ℕ)
    (frontier_ids visited : List String) (rows : List ℕ) (bound : ℕ)
    → expand_graph_raw fl es dir_col nodes spec direction pre_filter (some limit) hops frontier_ids
      ≡ ok (visited, rows)
    → limit ≤ bound
    → suc (length (set_extend [] frontier_ids)) ≤ bound
    → length visited ≤ bound
unfolding expand_graph_raw
expand_graph_raw-bound fl es dir_col nodes spec direction pre_filter limit hops frontier_ids visited
      rows bound run enough starts =
    let (names, _, rest) = >>=-eq-ok (build_edge_node_ids es) _ run in
    let current = set_extend [] frontier_ids in
    let (x, went, last) =
      >>=-eq-ok
        (expand_rounds fl es dir_col nodes names spec direction pre_filter (some limit) hops current
          (record { visited = current; next = []; retained_rows = [] }))
        _ rest in
    let same : x.visited ≡ visited = ok_visited last in
    subst (λ ids. length ids ≤ bound) same
      (expand_rounds-bound fl es dir_col nodes names spec direction pre_filter limit bound enough
        hops current (record { visited = current; next = []; retained_rows = [] }) x starts went)
