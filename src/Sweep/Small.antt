-- ===== src/Sweep/Small.antt =====
-- tools/perf/offccd_sweep.py: what `summarize` says of the cells of the suite ctl-small.
use antfarm.Prelude.{
  ◌≡◌, refl, inl, inr, sym, subst, Bool, true, false, ◌&&◌, ◌||◌, not, List, [], ◌∷◌, arith, All,
  In,
}
use antfarm.Sweep.Cells.{Cell, cell}
use antfarm.Sweep.Suites.{ctl_small}
use antfarm.Sweep.Summary.{Entry, is_off, has_off, has_off_measured, off_ccd_measured}

-- A cell of the summary that comes from a cell of ctl-small, whatever its runs were.
abbrev pub IsSmall : Entry → Type 0
IsSmall e = (c : Cell) × In c ctl_small × (e.labels ≡ c.labels)

abbrev none_off : List Cell → Bool
none_off [] = true
none_off (c ∷ cells) = not (is_off c.labels) && none_off cells

none_off-ctl_small : none_off ctl_small ≡ true
unfolding ctl_small cell is_off
none_off-ctl_small = refl

none_off-In :
    (cells : List Cell) (c : Cell) → none_off cells ≡ true → In c cells → is_off c.labels ≡ false
none_off-In [] c h m = absurd m
none_off-In (d ∷ cells) c h (inl e) =
    subst (λ d. is_off d.labels ≡ false) (sym e) (not_off (is_off d.labels) (none_off cells) h)
  where
    not_off : (a b : Bool) → (not a && b) ≡ true → a ≡ false
    not_off a b h = ground arith
none_off-In (d ∷ cells) c h (inr m) =
    none_off-In cells c (others (is_off d.labels) (none_off cells) h) m
  where
    others : (a b : Bool) → (not a && b) ≡ true → b ≡ true
    others a b h = ground arith

is_off-small : (e : Entry) → IsSmall e → is_off e.labels ≡ false
is_off-small e (c, m, q) = rw q (none_off-In ctl_small c none_off-ctl_small m)

has_off-small : (es : List Entry) → All IsSmall es → has_off es ≡ false
unfolding has_off
has_off-small [] h = refl
has_off-small (e ∷ es) (s, h) = rw (is_off-small e s) (has_off-small es h)

-- A sweep of cells of ctl-small only is reported as one that measured off-CCD runs, also where all of
-- its cells were skipped: their sweep is "small", and OFF_SWEEPS has "small-off".
pub off_ccd_measured-small : (es : List Entry) → All IsSmall es → off_ccd_measured es ≡ true
unfolding off_ccd_measured
off_ccd_measured-small es h = rw (has_off-small es h) (or_true (has_off_measured es))
  where
    or_true : (b : Bool) → (b || true) ≡ true
    or_true b = ground arith
