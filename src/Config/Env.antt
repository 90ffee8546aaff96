-- ===== src/Config/Env.antt =====
-- go/internal/config/config.go: how one variable is read.
use automation_agent.Common.{
  ℕ, ◌≡◌, ◌↔◌, refl, inl, inr, Bool, true, false, not, Option, none, some, List, [], ◌∷◌, any, keep,
  map, ◌==◌, if◌then◌else◌, Text, codes, eq_text, is_empty, trim_space, atoi, ℤ, signed_64, Result,
  ok, err, Bool-cases, Option-cases,
}

-- The value of a variable, where it is present.
abbrev pub Lookup : Type 0
Lookup = Text → Option Text

abbrev or_default : Option Text → Text → Text
or_default none def = def
or_default (some v) def = if is_empty (trim_space v) then def else trim_space v

unfoldable pub get_or : Lookup → Text → Text → Text
get_or get key def = or_default (get key) def

abbrev has_value : Option Text → Bool
has_value none = false
has_value (some v) = not (is_empty (trim_space v))

unfoldable pub is_set : Lookup → Text → Bool
is_set get key = has_value (get key)

full_default : (t : Text) → is_empty t ≡ false → t ≡ [] → ⊥
full_default [] h e = cc
full_default (c ∷ t) h e = cc

-- The two agree: a variable is set exactly where its value is not the default, whatever that is.
pub is_set-get_or :
    (get : Lookup) (key : Text)
    → ((is_set get key ≡ false) ↔ ((def : Text) → get_or get key def ≡ def))
      × ((is_set get key ≡ true) ↔ (is_empty (get_or get key []) ≡ false))
unfolding is_set get_or
is_set-get_or get key = elim (Option-cases (get key)) [
  | inl e ↦ rw e (((λ h def. refl), λ h. refl), ((λ h. cc), λ h. cc))
  | inr (v, e) ↦ rw e (elim (Bool-cases (is_empty (trim_space v))) [
    | inl blank ↦ rw blank (((λ h def. refl), λ h. refl), ((λ h. cc), λ h. cc))
    | inr full ↦ rw full (
      ((λ h def. cc), λ h. absurd (full_default (trim_space v) full (h []))),
      ((λ h. full), λ h. refl),
    )
  ])
]

-- An error names the variable.
abbrev pub Error : Type 0
Error = Text

abbrev or_error : {A : Type 0} → Text → Option A → Result Error A
or_error key none = err key
or_error key (some a) = ok a

-- What `parse` reads in a variable that is set: its failure is an error.
abbrev parsed : {A : Type 0} → Text → (Text → Option A) → A → Text → Result Error A
parsed key parse def v = if is_empty v then ok def else or_error key (parse v)

-- strconv.ParseBool(s)
unfoldable pub parse_bool : Text → Option Bool
parse_bool s =
    if any (eq_text s)
      (codes "1" ∷ codes "t" ∷ codes "T" ∷ codes "TRUE" ∷ codes "true" ∷ codes "True" ∷ [])
    then some true
    else if any (eq_text s)
        (codes "0" ∷ codes "f" ∷ codes "F" ∷ codes "FALSE" ∷ codes "false" ∷ codes "False" ∷ [])
    then some false
    else none

abbrev signed : Option ℕ → Option ℤ
signed none = none
signed (some n) = some (signed_64 n)

-- strconv.Atoi(s), and ParseInt at base 10 and 64 bits.
unfoldable pub parse_int : Text → Option ℤ
parse_int s = signed (atoi s)

-- `getBool`, `getInt` and `getFloat`.
unfoldable pub get_parsed : {A : Type 0} → (Text → Option A) → Lookup → Text → A → Result Error A
get_parsed parse get key def = parsed key parse def (get_or get key [])

-- `time.ParseDuration(getOr(get, key, def))` and its kin, which have no other default.
unfoldable pub get_required :
    {A : Type 0} → (Text → Option A) → Lookup → Text → Text → Result Error A
get_required parse get key def = or_error key (parse (get_or get key def))

-- strings.Split(s, ","), the first part apart from the others.
abbrev cons_part : ℕ → Text × List Text → Text × List Text
cons_part c (part, parts) = if c == b',' then ([], part ∷ parts) else (c ∷ part, parts)

abbrev split_first : Text → Text × List Text
split_first [] = ([], [])
split_first (c ∷ s) = cons_part c (split_first s)

abbrev split_commas : Text → List Text
split_commas s = let (part, parts) = split_first s in part ∷ parts

unfoldable pub split_list : Text → List Text
split_list s =
    if is_empty (trim_space s)
    then []
    else keep (λ t. not (is_empty t)) (map trim_space (split_commas s))
