-- ===== src/Services/Query/Lookup.antt =====
-- What a key of a query holds after a helper of internal.go.
use warmbly_go.Common.{
  ◌≡◌, refl, inl, inr, Bool, true, false, Option, none, some, List, [], ◌∷◌, if◌then◌else◌, arith,
  Bool-cases,
}
use warmbly_go.Common.Int.{ℤ, pos, ltb_ℤ}
use warmbly_go.Common.Text.{String, Bytes, str_eq, eq_iff}
use warmbly_go.Services.Query.{
  Query, Format, get_all, set, set_non_empty, set_bool, format_bool, set_positive, apply,
  ListOptions,
}

-- The values that a parameter with this text sends, if it is sent only when not empty.
abbrev pub unless_empty : Bytes → List Bytes → List Bytes
unless_empty [] before = before
unless_empty (b ∷ bs) before = (b ∷ bs) ∷ []

pub get_all-set :
    (q : Query) (j : String) (v : Bytes) (k : String)
    → get_all (set q j v) k ≡ (if str_eq k j then v ∷ [] else get_all q k)
unfolding get_all set
get_all-set [] j v k = refl
get_all-set ((i, vs) ∷ q) j v k =
    ground (arith, get_all-set q j v k, eq_iff k j, eq_iff k i, eq_iff j i)

pub get_all-set_non_empty :
    (q : Query) (j : String) (v : Bytes) (k : String)
    → get_all (set_non_empty q j v) k
      ≡ (if str_eq k j then unless_empty v (get_all q k) else get_all q k)
unfolding set_non_empty
get_all-set_non_empty q j [] k = ground arith
get_all-set_non_empty q j (b ∷ bs) k = get_all-set q j (b ∷ bs) k

-- The same for a parameter that may be absent.
abbrev pub unless_absent : Option Bytes → List Bytes → List Bytes
unless_absent none before = before
unless_absent (some v) before = v ∷ []

abbrev pub bool_text : Option Bool → Option Bytes
bool_text none = none
bool_text (some b) = some (format_bool b)

abbrev pub keep_if : Bool → Bytes → Option Bytes
keep_if true v = some v
keep_if false v = none

pub get_all-set_bool :
    (q : Query) (j : String) (b : Option Bool) (k : String)
    → get_all (set_bool q j b) k
      ≡ (if str_eq k j then unless_absent (bool_text b) (get_all q k) else get_all q k)
unfolding set_bool
get_all-set_bool q j none k = ground arith
get_all-set_bool q j (some b) k = get_all-set q j (format_bool b) k

module _ {T : Type 0} (format : Format T) where
  abbrev pub positive_text : ℤ → Option Bytes
  positive_text n = keep_if (ltb_ℤ (pos 0) n) (format.itoa n)

  pub get_all-set_positive :
      (q : Query) (j : String) (n : ℤ) (k : String)
      → get_all (set_positive format q j n) k
        ≡ (if str_eq k j then unless_absent (positive_text n) (get_all q k) else get_all q k)
  unfolding set_positive
  get_all-set_positive q j n k = elim (Bool-cases (ltb_ℤ (pos 0) n)) [
    | inl h ↦ rw (h) (get_all-set q j (format.itoa n) k)
    | inr h ↦ rw (h) ground arith
  ]

  -- `apply` touches no key but "limit" and "cursor", and fills these.
  pub get_all-apply :
      (o : ListOptions) (q : Query) (k : String)
      → get_all (apply format (some o) q) k ≡ (
          if str_eq k "cursor"
          then unless_empty o.cursor (get_all (set_positive format q "limit" o.limit) k)
          else if str_eq k "limit"
          then unless_absent (positive_text o.limit) (get_all q k)
          else get_all q k)
  unfolding apply
  get_all-apply o q k =
      rw (get_all-set_non_empty (set_positive format q "limit" o.limit) "cursor" o.cursor k)
        (rw (get_all-set_positive q "limit" o.limit k) refl)
