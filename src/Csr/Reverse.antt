-- ===== src/Csr/Reverse.antt =====
-- crates/lynxes-core/src/frame/csr.rs, `build_reverse`: the inbound index against the outbound one.
use lynxes_mojo.Common.{ℕ, ◌<◌, ◌^◌, ◌≡◌, ◌↔◌, List, some, arith, length, Has, sym, ==_refl}
use lynxes_mojo.Csr.{CsrIndex, build, build_reverse}
use lynxes_mojo.Csr.Packing.{AllBelow}
use lynxes_mojo.Csr.Adjacency.{entries, indexed, build_lem, Has-entries_all}

-- The reverse index is the index of the swapped rows.
pub build_reverse-eq-build :
    (src dst : List ℕ) (n : ℕ) → length src ≡ length dst → build_reverse src dst n ≡ build dst src n
unfolding build_reverse build
build_reverse-eq-build src dst n same = rw (same, ==_refl (length dst))

-- If both row lists have one length and name only nodes, with fewer than 2^32 edges, then both
-- indexes are built, and row `i` leads from `u` to `v` in one exactly when it does in the other.
pub build_reverse_dual :
    (src dst : List ℕ) (n : ℕ)
    → length src ≡ length dst
    → AllBelow n src
    → AllBelow n dst
    → length src < 2 ^ 32
    → (c r : CsrIndex) × (build src dst n ≡ some c)
      × (build_reverse src dst n ≡ some r)
      × ((u v i : ℕ) → Has (u, i) (entries r v) ↔ Has (v, i) (entries c u))
build_reverse_dual src dst n same sources targets small = (
  indexed n src dst,
  indexed n dst src,
  build_lem src dst n same sources small,
  rw (build_reverse-eq-build src dst n same) (build_lem dst src n (sym same) targets (omega arith)),
  λ u v i.
      let (into, from) = Has-entries_all dst src n (sym same) targets (omega arith) v u i in
      let (ahead, back) = Has-entries_all src dst n same sources small u v i in
      (λ h. let (a, b) = into h in back (b, a), λ h. let (a, b) = ahead h in from (b, a)),
)
