-- ===== src/Api/Tests.antt =====
-- The theorems on scripts/check-api-docs.py at concrete sources and inventories.
use antfarm.Prelude.{
  ℕ, ◌≡◌, ◌↔◌, ◌<◌, refl, Bool, true, false, List, [], ◌∷◌, none, some, String, arith, All, In,
}
use antfarm.Text.{Line, codes, line_eq, count}
use antfarm.Api.Comments.{strip_comments}
use antfarm.Api.Automaton.{outside}
use antfarm.Api.Outside.{strip_comments-eq-outside}
use antfarm.Api.Protections.{scan_lines, scan_protections, label_of}
use antfarm.Api.Scopes.{Scoped, scan_lines-block}
use antfarm.Api.Inventory.{
  Member, member, nil, cons, Declaration, public_declarations, is_documented,
}
use antfarm.Api.Surface.{Declares, public_declarations-Declares}
use antfarm.Api.Check.{
  Module, Files, main, resolution_names, index_symbols, has, coverage_of, required_total, Coverage,
}
use antfarm.Api.Verdict.{IsDocumented, main-zero}

abbrev no_letter : ℕ → Bool
no_letter c = false

strip_comments-eq-outside_example :
    strip_comments (codes "a /+ /+ b +/ */ c") [] ≡ outside [] (codes "a /+ /+ b +/ */ c")
strip_comments-eq-outside_example = strip_comments-eq-outside (codes "a /+ /+ b +/ */ c") []

abbrev struct_lines : List Line
struct_lines = codes "struct S {" ∷ codes "private:" ∷ codes "  void f() { g(); }" ∷ codes "}" ∷ []

struct-Scoped : Scoped 0 struct_lines 0
unfolding label_of count
struct-Scoped = (omega arith, (omega arith, (omega arith, (omega arith, refl))))

scan_lines-block_example :
    (entries : List (ℕ × String)) × (scan_lines no_letter 7 struct_lines ("public" ∷ [])
      ≡ some (entries, "public" ∷ []))
scan_lines-block_example = scan_lines-block no_letter struct_lines 7 "public" [] struct-Scoped

abbrev field : Member
field =
    member
      (record {
        name = some "size";
        kind = some "variable";
        protection = some "public";
        line = some 3;
        comment = some (codes "the size");
      })
      nil

abbrev hidden : Member
hidden =
    member
      (record {
        name = some "next";
        kind = some "variable";
        protection = some "private";
        line = some 4;
        comment = none;
      })
      nil

abbrev farm : Member
farm =
    member
      (record {
        name = some "Farm";
        kind = some "struct";
        protection = none;
        line = some 1;
        comment = some (codes "a farm");
      })
      (cons field (cons hidden nil))

abbrev farm_declarations : List Declaration
farm_declarations = ("Farm", farm) ∷ ("Farm.size", field) ∷ []

farm_public : public_declarations (some []) (farm ∷ hidden ∷ []) ≡ some farm_declarations
unfolding public_declarations
farm_public = refl

public_declarations-Declares_example :
    In ("Farm.size", field) farm_declarations
    ↔ ((m : Member) × (In m (farm ∷ hidden ∷ []) × Declares (some []) m "Farm.size" field))
public_declarations-Declares_example =
    public_declarations-Declares (some []) (farm ∷ hidden ∷ []) farm_declarations "Farm.size" field
      farm_public

abbrev files : Files
files = record {
  is_letter = no_letter;
  lines_of = λ f. codes "struct Farm {" ∷ [];
  is_covered = λ f. true;
}

abbrev modules : List Module
modules = record { name = "antfarm"; file = some "antfarm/package.d"; members = farm ∷ [] } ∷ []

abbrev page : List Line
page = codes "| Module | Symbol |" ∷ codes "| x | `Farm`, `Farm.size` |" ∷ []

main-zero_example : (main files modules page ≡ some 0) ↔ (
    (names : List Line) × (resolution_names files modules ≡ some names)
    × All (λ s. has s names ≡ true) (index_symbols page)
    × (cs : List Coverage) × (coverage_of files modules ≡ some cs)
    × (0 < required_total cs)
    × All (IsDocumented files) modules)
main-zero_example = main-zero files modules page

farm_clean : main files modules page ≡ some 0
unfolding main scan_protections public_declarations line_eq is_documented
farm_clean = refl
