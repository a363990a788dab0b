-- ===== src/ExprJson/Tags.antt =====
-- crates/lynxes-core/src/query/expr.rs: the names of data types, `dtype_to_name` and `name_to_dtype`.
-- `debug` is what derived Debug prints of a type that has no name of its own.
use Prim.Native.Char.{code}
use lynxes_mojo.Common.{
  ℕ, zero, suc, ◌+◌, ◌<◌, ◌≡◌, refl, ap, ◌∙◌, String, true, false, [], Option, none, some, ◌==◌,
  if◌then◌else◌, str_eq, eq_iff, arith, Bool-cases, inl, inr, ◌>>=◌,
}
use lynxes_mojo.Plan.Expressions.{
  DataType, utf8, int8, int64, float64, boolean, null_type, list_of, list_of_items, other,
}

-- What `format!` makes of two parts.
abbrev pub text_append : String → String → String
text_append String.[] t = t
text_append (String.◌∷◌ c s) t = String.◌∷◌ c (text_append s t)

-- `strip_prefix`
unfoldable pub strip_prefix : String → String → Option String
strip_prefix String.[] s = some s
strip_prefix (String.◌∷◌ c p) String.[] = none
strip_prefix (String.◌∷◌ c p) (String.◌∷◌ d s) =
    let rest = strip_prefix p s in if code c == code d then rest else none

-- The text without a last `>`.
unfoldable pub strip_close : String → Option String
strip_close String.[] = none
strip_close (String.◌∷◌ c s) =
    let rest = strip_close s in
    elim s [
      | String.[] ↦ if code c == b'>' then some String.[] else none
      | String.◌∷◌ _ _ ↦ do inner ← rest; some (String.◌∷◌ c inner)
    ]

unfoldable pub list_tag : String → String
list_tag inner = text_append "List<" (text_append inner ">")

-- `list.starts_with("List<") && list.ends_with('>')`, with the text between.
unfoldable pub list_inner : String → Option String
unfolding strip_prefix strip_close
list_inner name = do rest ← strip_prefix "List<" name; strip_close rest

module _ (debug : DataType → String) where
  unfoldable pub dtype_to_name : DataType → String
  unfolding list_tag
  dtype_to_name utf8 = "String"
  dtype_to_name int64 = "Int"
  dtype_to_name float64 = "Float"
  dtype_to_name boolean = "Bool"
  dtype_to_name null_type = "Null"
  dtype_to_name (list_of _ item _ _) = list_tag (dtype_to_name item)
  dtype_to_name dtype = debug dtype

test_tag : dtype_to_name (λ _. "?") (list_of_items (list_of_items int64)) ≡ "List<List<Int>>"
unfolding dtype_to_name
test_tag = refl

test_inner : list_inner "List<List<Int>>" ≡ some "List<Int>"
unfolding list_inner
test_inner = refl

-- The number of characters.
abbrev pub chars : String → ℕ
chars String.[] = 0
chars (String.◌∷◌ c s) = suc (chars s)

-- The recursion is on the length of the text: the inner name is shorter.
unfoldable pub read_dtype : ℕ → String → Option DataType
unfolding list_inner
read_dtype zero name = none
read_dtype (suc fuel) name =
    if str_eq name "String"
    then some utf8
    else if str_eq name "Int"
    then some int64
    else if str_eq name "Float"
    then some float64
    else if str_eq name "Bool"
    then some boolean
    else if str_eq name "Null"
    then some null_type
    else elim (list_inner name) [
      | none ↦ none
      | some inner ↦ do item ← read_dtype fuel inner; some (list_of_items item)
    ]

unfoldable pub name_to_dtype : String → Option DataType
unfolding read_dtype
name_to_dtype name = read_dtype (suc (chars name)) name

strip_close-append : (s : String) → strip_close (text_append s ">") ≡ some s
unfolding strip_close
strip_close-append String.[] = refl
strip_close-append (String.◌∷◌ c String.[]) = refl
strip_close-append (String.◌∷◌ c (String.◌∷◌ d s)) = rw (strip_close-append (String.◌∷◌ d s)) refl

pub list_inner-list_tag : (s : String) → list_inner (list_tag s) ≡ some s
unfolding list_inner list_tag
list_inner-list_tag s = strip_close-append s

chars-append : (s t : String) → chars (text_append s t) ≡ chars s + chars t
chars-append String.[] t = omega arith
chars-append (String.◌∷◌ c s) t = omega (arith, chars-append s t)

pub chars-list_tag : (s : String) → chars (list_tag s) ≡ chars s + 6
unfolding list_tag
chars-list_tag s = omega (arith, chars-append s ">")

-- A name that is no list name is another text than every list name.
pub list_tag-ne : (s name : String) → list_inner name ≡ none → str_eq (list_tag s) name ≡ false
list_tag-ne s name none_inner = elim (Bool-cases (str_eq (list_tag s) name)) [
  | inl same ↦
      absurd
        let tag : list_tag s ≡ name = (eq_iff (list_tag s) name).0 same in
          let read : list_inner name ≡ some s = rw (← tag) (list_inner-list_tag s) in cc
  | inr different ↦ different
]

-- The types that a name stands for: the five scalar types, and lists of such in a nullable item field
-- named "item" without metadata.
abbrev pub IsNameable : DataType → Type 0
IsNameable (list_of name item nullable metadata) =
    (name ≡ "item") × (nullable ≡ true) × (metadata ≡ []) × IsNameable item
IsNameable int8 = ⊥
IsNameable (other name) = ⊥
IsNameable dtype = Unit

-- The type that the name stands for: every list has a nullable item field named "item".
abbrev pub with_items : DataType → DataType
with_items (list_of _ item _ _) = list_of_items (with_items item)
with_items dtype = dtype

-- The types that have a name of their own: the five scalar types, and lists of such.
abbrev pub IsNamed : DataType → Type 0
IsNamed (list_of _ item _ _) = IsNamed item
IsNamed int8 = ⊥
IsNamed (other name) = ⊥
IsNamed dtype = Unit

IsNameable-IsNamed :
    (dtype : DataType) → IsNameable dtype → IsNamed dtype × (with_items dtype ≡ dtype)
IsNameable-IsNamed utf8 named = (tt, refl)
IsNameable-IsNamed int8 named = absurd named
IsNameable-IsNamed int64 named = (tt, refl)
IsNameable-IsNamed float64 named = (tt, refl)
IsNameable-IsNamed boolean named = (tt, refl)
IsNameable-IsNamed null_type named = (tt, refl)
IsNameable-IsNamed (other name) named = absurd named
IsNameable-IsNamed (list_of name item nullable metadata) (item_name, always, plain, named) =
    let (has_name, same) = IsNameable-IsNamed item named in
    (has_name, rw (item_name, always, plain, same) refl)

module _ (debug : DataType → String) where
  read_dtype-dtype_to_name :
      (fuel : ℕ) (dtype : DataType)
      → IsNamed dtype
      → chars (dtype_to_name debug dtype) < fuel
      → read_dtype fuel (dtype_to_name debug dtype) ≡ some (with_items dtype)
  unfolding read_dtype dtype_to_name
  read_dtype-dtype_to_name zero dtype named enough = absurd (omega (arith, enough))
  read_dtype-dtype_to_name (suc fuel) utf8 named enough = refl
  read_dtype-dtype_to_name (suc fuel) int64 named enough = refl
  read_dtype-dtype_to_name (suc fuel) float64 named enough = refl
  read_dtype-dtype_to_name (suc fuel) boolean named enough = refl
  read_dtype-dtype_to_name (suc fuel) null_type named enough = refl
  read_dtype-dtype_to_name (suc fuel) int8 named enough = absurd named
  read_dtype-dtype_to_name (suc fuel) (other name) named enough = absurd named
  read_dtype-dtype_to_name (suc fuel) (list_of name item nullable metadata) named enough =
      let inner = dtype_to_name debug item in
      let shorter = chars-list_tag inner in
      rw
        (
          list_tag-ne inner "String" refl,
          list_tag-ne inner "Int" refl,
          list_tag-ne inner "Float" refl,
          list_tag-ne inner "Bool" refl,
          list_tag-ne inner "Null" refl,
          list_inner-list_tag inner,
          read_dtype-dtype_to_name fuel item named (omega (arith, shorter, enough)),
        )
        refl

  pub name_to_dtype-with_items :
      (dtype : DataType)
      → IsNamed dtype
      → name_to_dtype (dtype_to_name debug dtype) ≡ some (with_items dtype)
  unfolding name_to_dtype
  name_to_dtype-with_items dtype named =
      read_dtype-dtype_to_name (suc (chars (dtype_to_name debug dtype))) dtype named (omega arith)

  pub name_to_dtype-dtype_to_name :
      (dtype : DataType) → IsNameable dtype → name_to_dtype (dtype_to_name debug dtype) ≡ some dtype
  name_to_dtype-dtype_to_name dtype named =
      let (has_name, same) = IsNameable-IsNamed dtype named in
      name_to_dtype-with_items dtype has_name ∙ ap some same
