-- ===== src/Schema/Lineage.antt =====
-- crates/lynxes-core/src/schema/schema.rs: what `resolve_node_fields` returns: the fields along the line
-- of parents, the first undeclared label, or a cycle.
use lynxes_mojo.Common.{
  ℕ, suc, ◌<◌, ◌≤◌, ◌≡◌, refl, ap, subst, String, true, false, none, some, List, [], ◌∷◌, ◌++◌,
  length, drop, member, member_head, member_tail, lookup, if◌then◌else◌, str_eq, eq_iff, Bool-cases,
  inl, inr, arith,
}
use lynxes_mojo.Outcome.{Outcome, ok, ◌>>=◌}
use lynxes_mojo.Schema.Types.{FieldDef}
use lynxes_mojo.Schema.Inheritance.{NodeSchema, Schema, node_schema, add_fields, position, cycle_of}

-- The schema of `a` names `b` as its parent.
abbrev pub Extends : Schema → String → String → Type 0
Extends s a b = (n : NodeSchema) × (node_schema s a ≡ some n) × (n.extends ≡ some b)

-- The schemas from a label up to one without a parent.
pub data Lineage (s : Schema) : String → List NodeSchema → Type 0 where
  root :
      {label : String} {n : NodeSchema}
      → node_schema s label ≡ some n
      → n.extends ≡ none
      → Lineage s label (n ∷ [])
  child :
      {label parent : String} {n : NodeSchema} {ns : List NodeSchema}
      → node_schema s label ≡ some n
      → n.extends ≡ some parent
      → Lineage s parent ns
      → Lineage s label (n ∷ ns)

-- Parents lead from `a` to `b`.
pub data Leads (s : Schema) : String → String → Type 0 where
  here : {a : String} → Leads s a a
  up : {a b c : String} → Extends s a b → Leads s b c → Leads s a c

-- Each label of the list extends the next one.
abbrev pub Chain : Schema → List String → Type 0
Chain s [] = Unit
Chain s (a ∷ []) = Unit
Chain s (a ∷ b ∷ labels) = Extends s a b × Chain s (b ∷ labels)

-- The fields along a line of schemas, from the root down.
abbrev pub inherited_fields : List NodeSchema → Outcome (List FieldDef)
inherited_fields [] = ok []
inherited_fields (n ∷ ns) = inherited_fields ns >>= λ fields. add_fields fields n.fields

pub Chain-append_one :
    (s : Schema) (labels : List String) (a b : String)
    → Chain s (labels ++ a ∷ [])
    → Extends s a b
    → Chain s ((labels ++ a ∷ []) ++ b ∷ [])
Chain-append_one s [] a b chain link = (link, tt)
Chain-append_one s (x ∷ []) a b chain link = (chain.0, (link, tt))
Chain-append_one s (x ∷ y ∷ labels) a b chain link =
    (chain.0, Chain-append_one s (y ∷ labels) a b chain.1 link)

Chain-tail :
    (s : Schema) (x : String) (labels : List String) → Chain s (x ∷ labels) → Chain s labels
Chain-tail s x [] chain = tt
Chain-tail s x (y ∷ labels) chain = chain.1

position_lem :
    (s : Schema) (label : String) (path : List String)
    → member label path ≡ true
    → Chain s (path ++ label ∷ [])
    → (i : ℕ) × (after : List String) × (position label path ≡ some i)
      × (drop i path ≡ label ∷ after)
      × Chain s (drop i path ++ label ∷ [])
unfolding member position
position_lem s label [] listed chain = absurd cc
position_lem s label (x ∷ path) listed chain = elim (Bool-cases (str_eq x label)) [
  | inl found ↦
      let same : x ≡ label = (eq_iff x label).0 found in
      (0, path, rw found refl, ap (λ l. l ∷ path) same, chain)
  | inr missed ↦
      let rest : member label path ≡ true = rw missed at listed in
      let (i, after, at, shape, closed) =
        position_lem s label path rest (Chain-tail s x (path ++ label ∷ []) chain) in
      (suc i, after, rw (missed, at) refl, shape, closed)
]

-- The reported cycle starts and ends with the label.
pub cycle_of_lem :
    (s : Schema) (label : String) (path : List String)
    → member label path ≡ true
    → Chain s (path ++ label ∷ [])
    → (middle : List String) × (cycle_of label path ≡ label ∷ middle ++ label ∷ [])
      × Chain s (label ∷ middle ++ label ∷ [])
unfolding cycle_of
cycle_of_lem s label path listed chain =
    let (i, after, at, shape, closed) = position_lem s label path listed chain in
    let form : drop i path ++ label ∷ [] ≡ label ∷ after ++ label ∷ [] =
      ap (λ l. l ++ label ∷ []) shape in
    (after, rw at form, subst (Chain s) form closed)

-- The schemas that are not yet on the stack.
abbrev pub unvisited : List String → List (String × NodeSchema) → ℕ
unvisited stack [] = 0
unvisited stack ((key, n) ∷ nodes) =
    let rest = unvisited stack nodes in if member key stack then rest else suc rest

pub unvisited-le :
    (stack : List String) (nodes : List (String × NodeSchema))
    → unvisited stack nodes ≤ length nodes
unvisited-le stack [] = omega arith
unvisited-le stack ((key, n) ∷ nodes) = ground (arith, unvisited-le stack nodes)

-- A label that was not on the stack has left fewer.
unvisited-weaken :
    (label : String) (stack : List String) (nodes : List (String × NodeSchema))
    → unvisited (label ∷ stack) nodes ≤ unvisited stack nodes
unvisited-weaken label stack [] = omega arith
unvisited-weaken label stack ((key, n) ∷ nodes) =
    let rest = unvisited-weaken label stack nodes in
    elim (Bool-cases (member key stack)) [
      | inl old ↦ rw (old, member_tail key label stack old) rest
      | inr new ↦ elim (Bool-cases (member key (label ∷ stack))) [
        | inl now ↦ rw (new, now) (omega (arith, rest))
        | inr still ↦ rw (new, still) (omega (arith, rest))
      ]
    ]

pub unvisited-enter :
    (label : String) (stack : List String) (nodes : List (String × NodeSchema)) (n : NodeSchema)
    → member label stack ≡ false
    → lookup label nodes ≡ some n
    → unvisited (label ∷ stack) nodes < unvisited stack nodes
unfolding lookup
unvisited-enter label stack [] n absent found = absurd cc
unvisited-enter label stack ((key, m) ∷ nodes) n absent found =
    elim (Bool-cases (str_eq key label)) [
      | inl hit ↦
          let same : key ≡ label = (eq_iff key label).0 hit in
          let new : member key stack ≡ false = rw same absent in
          let now : member key (label ∷ stack) ≡ true = rw same (member_head label stack) in
          let weaker = unvisited-weaken label stack nodes in rw (new, now) (omega (arith, weaker))
      | inr other ↦
          let rest : lookup label nodes ≡ some n = rw other at found in
          let fewer = unvisited-enter label stack nodes n absent rest in
          elim (Bool-cases (member key stack)) [
            | inl old ↦ rw (old, member_tail key label stack old) fewer
            | inr new ↦ elim (Bool-cases (member key (label ∷ stack))) [
              | inl now ↦ rw (new, now) (omega (arith, fewer))
              | inr still ↦ rw (new, still) (omega (arith, fewer))
            ]
          ]
    ]
