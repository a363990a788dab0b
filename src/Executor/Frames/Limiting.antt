-- ===== src/Executor/Frames/Limiting.antt =====
-- crates/lynxes-lazy/src/query/executor/filter.rs, `limit_edges`, and the slice of nodes: the two ways
-- of taking the first rows.
use lynxes_mojo.Common.{
  ◌≡◌, refl, ap, sym, ◌∙◌, ℕ, zero, suc, ◌+◌, ◌≤◌, min, arith, true, false, List, [], ◌∷◌, length,
  take, ltb, ==_refl,
}
use lynxes_mojo.Outcome.{ok}
use lynxes_mojo.Executor.Frames.{
  Row, Batch, masked, filter_frame, limit_mask, limit_edges, limit_nodes,
}

length-limit_mask : (len idx : ℕ) (rows : List Row) → length (limit_mask len idx rows) ≡ length rows
unfolding limit_mask
length-limit_mask len idx [] = refl
length-limit_mask len idx (row ∷ rows) = ap suc (length-limit_mask len (suc idx) rows)

add_suc : (idx n : ℕ) → idx + suc n ≡ suc idx + n
add_suc idx n = omega arith

zero_add : (n : ℕ) → 0 + n ≡ n
zero_add n = omega arith

min_zero : (n : ℕ) → min 0 n ≡ 0
min_zero n = ground arith

min_of_zero : (n : ℕ) → min n 0 ≡ 0
min_of_zero n = ground arith

min-suc : (n m : ℕ) → min (suc n) (suc m) ≡ suc (min n m)
min-suc n m = ground arith

abbrev with_rows : Batch → List Row → Batch
with_rows b rs = record b { rows = rs }

ltb_ge : (a b : ℕ) → b ≤ a → ltb a b ≡ false
ltb_ge a b h = ground arith

ltb_add : (idx n : ℕ) → ltb idx (idx + suc n) ≡ true
ltb_add idx n = ground arith

masked-past :
    (len idx : ℕ) (rows : List Row) → len ≤ idx → masked (limit_mask len idx rows) rows ≡ []
unfolding limit_mask masked
masked-past len idx [] h = refl
masked-past len idx (row ∷ rows) h =
    rw (ltb_ge idx len h) (masked-past len (suc idx) rows (omega arith))

masked-limit_mask :
    (n idx : ℕ) (rows : List Row) → masked (limit_mask (idx + n) idx rows) rows ≡ take n rows
unfolding limit_mask masked
masked-limit_mask zero idx rows = masked-past (idx + 0) idx rows (omega arith)
masked-limit_mask (suc n) idx [] = refl
masked-limit_mask (suc n) idx (row ∷ rows) = rw (ltb_add idx n) (
    ap (λ rs. row ∷ rs)
      (ap (λ len. masked (limit_mask len (suc idx) rows) rows) (add_suc idx n)
        ∙ masked-limit_mask n (suc idx) rows))

-- Taking the first `n` edges by a mask is taking the first `n` rows.
pub limit_edges-limit_nodes : (es : Batch) (n : ℕ) → limit_edges es n ≡ ok (limit_nodes es n)
unfolding limit_edges limit_nodes filter_frame
limit_edges-limit_nodes es n =
    let len = min n (length es.rows) in
    let first : masked (limit_mask len 0 es.rows) es.rows ≡ take len es.rows =
      ap (λ m. masked (limit_mask m 0 es.rows) es.rows) (sym (zero_add len))
      ∙ masked-limit_mask len 0 es.rows in
    rw (length-limit_mask len 0 es.rows, ==_refl (length es.rows), first) refl

take-nil : (n : ℕ) → take {A = Row} n [] ≡ []
take-nil zero = refl
take-nil (suc n) = refl

take-min : (n : ℕ) (rows : List Row) → take (min n (length rows)) rows ≡ take n rows
take-min n [] = take-nil (min n 0) ∙ sym (take-nil n)
take-min zero (row ∷ rows) = ap (λ k. take k (row ∷ rows)) (min_zero (suc (length rows)))
take-min (suc n) (row ∷ rows) =
    ap (λ k. take k (row ∷ rows)) (min-suc n (length rows)) ∙ ap (λ rs. row ∷ rs) (take-min n rows)

take-take : (n m : ℕ) (rows : List Row) → take n (take m rows) ≡ take (min n m) rows
take-take n m [] = ap (take n) (take-nil m) ∙ take-nil n ∙ sym (take-nil (min n m))
take-take n zero (row ∷ rows) = take-nil n ∙ ap (λ k. take k (row ∷ rows)) (sym (min_of_zero n))
take-take zero (suc m) (row ∷ rows) = ap (λ k. take k (row ∷ rows)) (sym (min_zero (suc m)))
take-take (suc n) (suc m) (row ∷ rows) =
    ap (λ rs. row ∷ rs) (take-take n m rows) ∙ ap (λ k. take k (row ∷ rows)) (sym (min-suc n m))

-- Two limits in turn are the smaller one.
pub limit_nodes-limit_nodes :
    (ns : Batch) (n m : ℕ) → limit_nodes (limit_nodes ns m) n ≡ limit_nodes ns (min n m)
unfolding limit_nodes
limit_nodes-limit_nodes ns n m =
    ap (λ rs. with_rows ns rs)
      (take-min n (take (min m (length ns.rows)) ns.rows)
        ∙ ap (take n) (take-min m ns.rows)
        ∙ take-take n m ns.rows
        ∙ sym (take-min (min n m) ns.rows))
