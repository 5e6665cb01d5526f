-- ===== src/Api/Inventory.antt =====
-- scripts/check-api-docs.py: the inventory that the compiler writes, and its public declarations. A
-- key that a JSON object does not have is `none`; `none` also stands for the KeyError.
use Prim.Native.String.{◌++◌ as join}
use text.Mathlib.Text.{◌==◌ as str_eq, starts_with}
use antfarm.Prelude.{
  ℕ, Bool, true, false, ◌&&◌, ◌||◌, not, List, [], ◌∷◌, ◌++◌, Option, none, some, String, ◌==◌,
  if◌then◌else◌,
}
use antfarm.Text.{Line, is_visible}

pub record Info : Type 0 where
  pub name : Option String
  pub kind : Option String
  pub protection : Option String
  pub line : Option ℕ
  pub comment : Option Line

mutual
  pub data Member : Type 0 where
    member : Info → Members → Member

  -- An object without members has an empty list of them.
  pub data Members : Type 0 where
    nil : Members
    cons : Member → Members → Members

abbrev pub info : Member → Info
info (member i ms) = i

abbrev pub items : Members → List Member
items nil = []
items (cons m ms) = m ∷ items ms

abbrev pub nested_in : Member → List Member
nested_in (member i ms) = items ms

unfoldable pub one_of : List String → Option String → Bool
one_of ks none = false
one_of [] (some k) = false
one_of (j ∷ ks) (some k) = str_eq k j || one_of ks (some k)

-- DOCUMENTED_KINDS, SKIPPED_KINDS and TYPE_KINDS
abbrev pub documented_kinds : List String
documented_kinds =
    "variable" ∷ "enum" ∷ "enum member" ∷ "alias" ∷ "struct" ∷ "class" ∷ "interface" ∷ "union"
    ∷ "function" ∷ "template" ∷ "constructor" ∷ "copy constructor" ∷ []

abbrev pub skipped_kinds : List String
skipped_kinds = "import" ∷ "unittest" ∷ "generated function" ∷ []

abbrev pub type_kinds : List String
type_kinds = "struct" ∷ "class" ∷ "interface" ∷ "union" ∷ "enum" ∷ []

-- protections.get(line, "public")
unfoldable pub protection_at : List (ℕ × String) → ℕ → String
protection_at [] line = "public"
protection_at ((n, p) ∷ rest) line = if n == line then p else protection_at rest line

unfoldable pub is_public : Member → Option (List (ℕ × String)) → Bool
unfolding protection_at
is_public m protections = elim ((info m).protection) [
  | some p ↦ str_eq p "public"
  | none ↦ elim protections [
    | none ↦ true
    | some known ↦ elim ((info m).line) [
      | none ↦ true
      | some n ↦ str_eq (protection_at known n) "public"
    ]
  ]
]

abbrev pub name_or_empty : Option String → String
name_or_empty none = ""
name_or_empty (some name) = name

abbrev pub is_missing : Option ℕ → Bool
is_missing none = true
is_missing (some n) = false

unfoldable pub is_required : Option (List (ℕ × String)) → Member → Bool
unfolding is_public one_of
is_required protections m =
    let name = name_or_empty (info m).name in
    is_public m protections
    && one_of documented_kinds (info m).kind
    && not (one_of skipped_kinds (info m).kind)
    && not (starts_with name "__")
    && not (str_eq name "~this" && is_missing (info m).line)

unfoldable pub is_documented : Member → Bool
unfolding is_visible
is_documented m = elim ((info m).comment) [ none ↦ false | some text ↦ is_visible text ]

-- The first member of the name `name` that is a type.
unfoldable pub body_in : String → List Member → Option Member
unfolding one_of
body_in name [] = none
body_in name (m ∷ ms) =
    if elim ((info m).name) [ none ↦ false | some n ↦ str_eq n name ]
      && one_of type_kinds (info m).kind
    then some m
    else body_in name ms

-- `body`
unfoldable pub body_of : Member → String → Option Member
unfolding one_of body_in
body_of m name =
    if one_of type_kinds (info m).kind
    then some m
    else if one_of ("template" ∷ []) (info m).kind
    then body_in name (nested_in m)
    else none

abbrev pub Declaration : Type 0
Declaration = String × Member

abbrev pub both {ℓ} : {A : Type ℓ} → Option (List A) → Option (List A) → Option (List A)
both none b = none
both (some a) none = none
both (some a) (some b) = some (a ++ b)

abbrev pub under : String → Member → Option String → Option (List Declaration)
under owner m none = none
under owner m (some n) = some ((join owner (join "." n), m) ∷ [])

-- for nested in body.get("members", [])
unfoldable pub nested_declarations :
    Option (List (ℕ × String)) → String → List Member → Option (List Declaration)
unfolding is_required
nested_declarations protections owner [] = some []
nested_declarations protections owner (m ∷ ms) =
    both (if is_required protections m then under owner m (info m).name else some [])
      (nested_declarations protections owner ms)

abbrev pub members_of_body : Option Member → List Member
members_of_body none = []
members_of_body (some body) = nested_in body

abbrev pub with_nested :
    Option (List (ℕ × String)) → Member → Option String → Option (List Declaration)
with_nested protections m none = none
with_nested protections m (some name) =
    both (some ((name, m) ∷ []))
      (nested_declarations protections name (members_of_body (body_of m name)))

-- The round of `for member in members`.
unfoldable pub declarations_of : Option (List (ℕ × String)) → Member → Option (List Declaration)
unfolding is_required body_of nested_declarations
declarations_of protections m =
    if is_required protections m then with_nested protections m (info m).name else some []

unfoldable pub public_declarations :
    Option (List (ℕ × String)) → List Member → Option (List Declaration)
unfolding declarations_of
public_declarations protections [] = some []
public_declarations protections (m ∷ ms) =
    both (declarations_of protections m) (public_declarations protections ms)
