-- ===== src/Schema/Checks.antt =====
-- crates/lynxes-core/src/schema/schema.rs: when the loops over rows and fields report nothing.
use lynxes_mojo.Common.{
  ◌≡◌, refl, ap, sym, ◌∙◌, subst, Bool, true, false, ◌&&◌, String, str_eq, List, [], ◌∷◌, ◌++◌,
  if◌then◌else◌, length, length-append, arith, eq_iff,
}
use lynxes_mojo.Plan.Expressions.{
  DataType, utf8, int8, int64, float64, boolean, null_type, list_of, other,
}
use lynxes_mojo.Schema.Validation.{
  SchemaValidationError, Claim, Report, push, dtype_eq, bool_eq, metadata_eq, seen,
}

both_true : (a b : Bool) → (a && b) ≡ true → (a ≡ true) × (b ≡ true)
both_true true b h = (refl, h)
both_true false b h = cc

bool_eq_sound : (a b : Bool) → bool_eq a b ≡ true → a ≡ b
bool_eq_sound true b h = sym h
bool_eq_sound false true h = cc
bool_eq_sound false false h = refl

bool_eq_refl : (a : Bool) → bool_eq a a ≡ true
bool_eq_refl true = refl
bool_eq_refl false = refl

metadata_eq_sound : (m m' : List (String × String)) → metadata_eq m m' ≡ true → m ≡ m'
metadata_eq_sound [] [] h = refl
metadata_eq_sound [] (_ ∷ _) h = cc
metadata_eq_sound (_ ∷ _) [] h = cc
metadata_eq_sound ((k, v) ∷ m) ((k', v') ∷ m') h =
    let (keys, rest) = both_true (str_eq k k') (str_eq v v' && metadata_eq m m') h in
    let (values, later) = both_true (str_eq v v') (metadata_eq m m') rest in
    let key : k ≡ k' = (eq_iff k k').0 keys in
    let value : v ≡ v' = (eq_iff v v').0 values in
    rw (key, value, metadata_eq_sound m m' later) refl

metadata_eq_refl : (m : List (String × String)) → metadata_eq m m ≡ true
metadata_eq_refl [] = refl
metadata_eq_refl ((k, v) ∷ m) =
    let key : str_eq k k ≡ true = (eq_iff k k).1 refl in
    let value : str_eq v v ≡ true = (eq_iff v v).1 refl in rw (key, value, metadata_eq_refl m) refl

pub dtype_eq_sound : (a b : DataType) → dtype_eq a b ≡ true → a ≡ b
unfolding dtype_eq
dtype_eq_sound utf8 utf8 h = refl
dtype_eq_sound int8 int8 h = refl
dtype_eq_sound int64 int64 h = refl
dtype_eq_sound float64 float64 h = refl
dtype_eq_sound boolean boolean h = refl
dtype_eq_sound null_type null_type h = refl
dtype_eq_sound (list_of n a k m) (list_of n' b k' m') h =
    let (names, rest) =
      both_true (str_eq n n') (dtype_eq a b && (bool_eq k k' && metadata_eq m m')) h in
    let (items, rest') = both_true (dtype_eq a b) (bool_eq k k' && metadata_eq m m') rest in
    let (nullables, metadata) = both_true (bool_eq k k') (metadata_eq m m') rest' in
    let name : n ≡ n' = (eq_iff n n').0 names in
    rw
      (
        name,
        dtype_eq_sound a b items,
        bool_eq_sound k k' nullables,
        metadata_eq_sound m m' metadata,
      )
      refl
dtype_eq_sound (other a) (other b) h = ap DataType.other ((eq_iff a b).0 h)
dtype_eq_sound _ _ h = absurd cc

pub dtype_eq_refl : (a : DataType) → dtype_eq a a ≡ true
unfolding dtype_eq
dtype_eq_refl utf8 = refl
dtype_eq_refl int8 = refl
dtype_eq_refl int64 = refl
dtype_eq_refl float64 = refl
dtype_eq_refl boolean = refl
dtype_eq_refl null_type = refl
dtype_eq_refl (list_of n a k m) =
    let name : str_eq n n ≡ true = (eq_iff n n).1 refl in
    rw (name, dtype_eq_refl a, bool_eq_refl k, metadata_eq_refl m) refl
dtype_eq_refl (other a) = (eq_iff a a).1 refl

-- The claims that the list adds to the ones before.
abbrev pub noted : List Claim → List Claim → List Claim
noted before [] = before
noted before (claim ∷ claims) = noted (claim ∷ before) claims

-- No claim is made twice, nor was made before.
abbrev pub IsUnclaimed : List Claim → List Claim → Type 0
IsUnclaimed before [] = Unit
IsUnclaimed before (claim ∷ claims) =
    (seen claim before ≡ false) × IsUnclaimed (claim ∷ before) claims

pub noted-append :
    (before xs ys : List Claim) → noted before (xs ++ ys) ≡ noted (noted before xs) ys
noted-append before [] ys = refl
noted-append before (x ∷ xs) ys = noted-append (x ∷ before) xs ys

IsUnclaimed-join :
    (before xs ys : List Claim)
    → IsUnclaimed before xs
    → IsUnclaimed (noted before xs) ys
    → IsUnclaimed before (xs ++ ys)
IsUnclaimed-join before [] ys hx hy = hy
IsUnclaimed-join before (x ∷ xs) ys hx hy = (hx.0, IsUnclaimed-join (x ∷ before) xs ys hx.1 hy)

IsUnclaimed-split :
    (before xs ys : List Claim)
    → IsUnclaimed before (xs ++ ys)
    → IsUnclaimed before xs × IsUnclaimed (noted before xs) ys
IsUnclaimed-split before [] ys h = (tt, h)
IsUnclaimed-split before (x ∷ xs) ys h =
    let (hx, hy) = IsUnclaimed-split (x ∷ before) xs ys h.1 in ((h.0, hx), hy)

abbrev pub passing : Report → List Claim → Report
passing r claims = record r { unique_trackers = noted r.unique_trackers claims }

-- A step reports nothing exactly if `P` holds and its claims are new; then it notes them.
pub record Checks (step : Report → Report) (P : Type 0) (claims : List Claim) : Type 0 where
  pub passes : (r : Report) → P → IsUnclaimed r.unique_trackers claims → step r ≡ passing r claims
  pub clean :
      (r : Report)
      → (step r).errors ≡ []
      → (r.errors ≡ []) × P × IsUnclaimed r.unique_trackers claims

pub Checks-nothing : Checks (λ r. r) Unit []
Checks-nothing = record { passes = λ r p h. refl; clean = λ r h. (h, tt, tt) }

pub Checks-then :
    (first second : Report → Report) (P Q : Type 0) (xs ys : List Claim)
    → Checks first P xs
    → Checks second Q ys
    → Checks (λ r. second (first r)) (P × Q) (xs ++ ys)
Checks-then first second P Q xs ys one two = record {
  passes = λ r p h.
      let (hx, hy) = IsUnclaimed-split r.unique_trackers xs ys h in
      ap second (one.passes r p.0 hx)
      ∙ two.passes (passing r xs) p.1 hy
      ∙ ap (λ (cs : List Claim). record r { unique_trackers = cs })
          (sym (noted-append r.unique_trackers xs ys));
  clean = λ r h.
      let (mid, q, hy) = two.clean (first r) h in
      let (start, p, hx) = one.clean r mid in
      let same = one.passes r p hx in
      (
        start,
        (p, q),
        IsUnclaimed-join r.unique_trackers xs ys hx
            (subst (λ (m : Report). IsUnclaimed m.unique_trackers ys) same hy),
      );
}

pub push-not_empty :
    (failure : SchemaValidationError) (r : Report) → (push failure r).errors ≡ [] → ⊥
push-not_empty failure r h =
    let long = length-append r.errors (failure ∷ []) in
    let zero_long : length (r.errors ++ failure ∷ []) ≡ 0 = ap length h in
    omega (arith, long, zero_long)

pub Checks-never :
    (failure : SchemaValidationError) (P : Type 0) (claims : List Claim)
    → (P → ⊥)
    → Checks (push failure) P claims
Checks-never failure P claims never = record {
  passes = λ r p h. absurd (never p);
  clean = λ r h. absurd (push-not_empty failure r h);
}

pub Checks-if :
    (b : Bool) (failure : SchemaValidationError)
    → Checks (λ r. if b then push failure r else r) (b ≡ false) []
Checks-if true failure = Checks-never failure (true ≡ false) [] (λ h. cc)
Checks-if false failure = record { passes = λ r p h. refl; clean = λ r h. (h, refl, tt) }
