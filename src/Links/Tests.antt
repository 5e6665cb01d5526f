-- ===== src/Links/Tests.antt =====
-- The theorems on scripts/check-doc-links.py at concrete pages.
use antfarm.Prelude.{
  ◌+◌, ◌<◌, ◌≡◌, ◌≢◌, ◌↔◌, inl, inr, refl, true, false, List, [], ◌∷◌, ◌++◌, Option, none, some,
  arith, In, length, if◌then◌else◌,
}
use antfarm.Text.{Line, codes, line_eq}
use antfarm.Links.Fences.{Fence, fence_of, is_closing, unfence}
use antfarm.Links.Blocks.{blanks, unfence-block}
use antfarm.Links.Anchors.{anchor_slug, is_setext_underline, is_paragraph_line}
use antfarm.Links.Headings.{heading_of, anchors, numbered, ascii}
use antfarm.Links.Titles.{titles, repeats, anchors-numbered}
use antfarm.Links.Slugs.{anchors-heading}
use antfarm.Links.Paths.{is_within}
use antfarm.Links.Check.{Checkout, parents, main}
use antfarm.Links.Parents.{IsProper, parents-enough}
use antfarm.Links.Clean.{is_clean}
use antfarm.Links.Verdict.{main-is_clean}

abbrev page : List Line
page =
    codes "# Ants [1](#x)"
    ∷ codes "```d"
    ∷ codes "~~~"
    ∷ codes "```"
    ∷ codes "see [a](#ants-1) `[b](c)`"
    ∷ []

abbrev fence : Line → Fence
fence rest = record { char = b'`'; length = 3; rest = rest }

abbrev other : Fence
other = record { char = b'~'; length = 3; rest = [] }

opens : fence_of (codes "```d") ≡ some (fence (codes "d"))
unfolding fence_of
opens = refl

stays : fence_of (codes "~~~") ≡ some other
unfolding fence_of
stays = refl

closes : fence_of (codes "```") ≡ some (fence [])
unfolding fence_of
closes = refl

is_other : is_closing (b'`', 3) other ≡ false
unfolding is_closing
is_other = refl

is_same : is_closing (b'`', 3) (fence []) ≡ true
unfolding is_closing
is_same = refl

unfence-block_example :
    unfence (codes "```d" ∷ ((codes "~~~" ∷ []) ++ codes "```" ∷ page))
    ≡ [] ∷ (blanks (codes "~~~" ∷ []) ++ [] ∷ unfence page)
unfence-block_example =
    unfence-block (codes "```d") (codes "```") (codes "~~~" ∷ []) page (fence (codes "d"))
      (fence []) opens (inr (other, stays, is_other), tt) closes is_same

abbrev spanned : Line
spanned = codes "a `b` c"

abbrev twice : List Line
twice = codes "# a" ∷ codes "a" ∷ codes "===" ∷ []

two-titles : 1 < repeats ascii (codes "a") (titles ascii (unfence twice))
unfolding repeats titles unfence line_eq is_setext_underline heading_of anchor_slug
    is_paragraph_line
two-titles = omega arith

a-visible : codes "a" ≢ []
a-visible e = cc

anchors-numbered_example : In (codes "a-1") (anchors ascii twice)
unfolding numbered
anchors-numbered_example = anchors-numbered ascii twice (codes "a") 1 a-visible two-titles

heads : heading_of (codes "# Ants [1](#x)") ≡ some (codes "Ants [1](#x)")
unfolding heading_of
heads = refl

first_line : In (codes "# Ants [1](#x)") (unfence page)
unfolding unfence
first_line = inl refl

slugged : anchor_slug ascii (codes "Ants [1](#x)") ≡ codes "nts-1"
unfolding anchor_slug
slugged = refl

not_empty : anchor_slug ascii (codes "Ants [1](#x)") ≡ [] → ⊥
unfolding anchor_slug
not_empty h = cc

anchors-heading_example : In (anchor_slug ascii (codes "Ants [1](#x)")) (anchors ascii page)
anchors-heading_example =
    anchors-heading ascii page (codes "Ants [1](#x)")
      (inl (codes "# Ants [1](#x)", (first_line, heads))) not_empty

-- Two pages in /r, of which the second is linked from the first.
abbrev texts : Line → Option (List Line)
texts p =
    if line_eq p (codes "/r/a.md")
    then some (codes "# a" ∷ codes "[b](docs/b.md#b) [c](#a) [d](https://e) [e](docs)" ∷ [])
    else if line_eq p (codes "/r/docs/b.md")
    then some (codes "## b" ∷ codes "[a](../a.md)" ∷ [])
    else none

abbrev checkout : Checkout
checkout = record {
  unicode = ascii;
  root = codes "/r";
  real_root = codes "/r";
  names = codes "a.md" ∷ codes "docs/b.md" ∷ [] ∷ [];
  markdown_names = codes "a.md" ∷ codes "docs/b.md" ∷ [] ∷ [];
  is_link = λ p. false;
  is_there = λ p. true;
  realpath = λ p. p;
  lines_of = texts;
  unquote = λ p. p;
}

main-is_clean_example : (main checkout ≡ some 0) ↔ (is_clean checkout ≡ true)
main-is_clean_example = main-is_clean checkout

returns_0 : main checkout ≡ some 0
unfolding main line_eq
returns_0 = refl

abbrev lost : Checkout
lost = record checkout { names = codes "a.md" ∷ [] }

returns_1 : main lost ≡ some 1
unfolding main line_eq
returns_1 = refl

proper : IsProper checkout
unfolding is_within line_eq
proper = (refl, refl, refl)

below : length (codes "/r/docs") < 8
below = omega arith

parents-enough_example :
    parents checkout (8 + 5) (codes "/r/docs") ≡ parents checkout 8 (codes "/r/docs")
parents-enough_example = parents-enough checkout proper 5 8 (codes "/r/docs") below

found : parents checkout 8 (codes "/r/docs") ≡ codes "/r/docs" ∷ []
unfolding parents line_eq
found = refl
