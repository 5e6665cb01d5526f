-- ===== src/Links/Clean.antt =====
-- scripts/check-doc-links.py: the links that are right, without the order and the cache of `main`.
use antfarm.Prelude.{Bool, true, false, ◌&&◌, ◌||◌, not, List, [], ◌∷◌, Option, none, some}
use antfarm.Text.{Line}
use antfarm.Links.Fences.{unfence}
use antfarm.Links.Targets.{targets_of, strip_angles, is_external, partition}
use antfarm.Links.Paths.{normpath, join_path, dirname, is_within}
use antfarm.Links.Check.{
  Checkout, has, ends_in_md, anchors_at, tracked_markdown, is_tracked, part_of,
}

abbrev pub holds : Option (List Line) → Line → Bool
holds none name = false
holds (some ids) name = has name ids

module _ (c : Checkout) where
  -- There is no fragment, or the page is no Markdown, or it can be read and has the anchor.
  abbrev pub is_anchored : Line → Line → Bool
  is_anchored [] p = true
  is_anchored (f ∷ fs) p = not (ends_in_md p) || holds (anchors_at c p) (c.unquote (f ∷ fs))

  -- The path is inside of the checkout, links followed, and git knows it.
  abbrev pub is_inside : Line → Bool
  is_inside p =
      is_within c.root p
      && (not (c.is_there p) || is_within c.real_root (c.realpath p))
      && is_tracked c p

  abbrev pub is_right : Line → Line → Line → Bool
  is_right path [] frag = is_anchored frag path
  is_right path (p ∷ ps) frag =
      is_inside (normpath (join_path (dirname path) (p ∷ ps)))
      && is_anchored frag (normpath (join_path (dirname path) (p ∷ ps)))

  abbrev pub is_good : Line → Line → Bool
  is_good path word =
      is_external (strip_angles word)
      || is_right path (part_of c (strip_angles word)) (partition b'#' (strip_angles word)).1

  abbrev pub all_good : Line → List Line → Bool
  all_good path [] = true
  all_good path (t ∷ ts) = is_good path t && all_good path ts

  abbrev pub lines_good : Line → List Line → Bool
  lines_good path [] = true
  lines_good path (line ∷ lines) = all_good path (targets_of line) && lines_good path lines

  abbrev pub text_good : Line → Option (List Line) → Bool
  text_good path none = false
  text_good path (some lines) = lines_good path (unfence lines)

  abbrev pub pages_good : List Line → Bool
  pages_good [] = true
  pages_good (path ∷ paths) = text_good path (c.lines_of path) && pages_good paths

  -- Every link outside of a fenced block of every page is right.
  unfoldable pub is_clean : Bool
  is_clean = pages_good (tracked_markdown c)
