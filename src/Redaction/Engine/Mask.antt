-- ===== src/Redaction/Engine/Mask.antt =====
-- The redacted text, byte by byte.
use native.Mathlib.Nat.{add-zero, le_refl}
use mathlib.Core.List.{append-nil}
use hidden_steps.Prelude.{
  Bool, List, Text, [], any, ap, arith, drop, drop-drop, false, if◌then◌else◌, leb, length,
  length-drop, le→leb, ltb, refl, some, suc, sym, take, take_all, true, zero, ℕ, ◌&&◌, ◌++◌, ◌+◌,
  ◌-◌, ◌<◌, ◌==◌, ◌∙◌, ◌∷◌, ◌≡◌, ◌≤◌,
}
use hidden_steps.Redaction.{Detection, is_char_boundary, slice}
use hidden_steps.Redaction.Engine.{apply_redactions, join, marker, redact_from}

pub covered : ℕ → List Detection → Bool
covered i ds = any (λ (d : Detection). leb d.start i && ltb i d.end) ds

pub markers_at : ℕ → List Detection → Text
markers_at i [] = []
markers_at i (d ∷ ds) =
    if d.start == i then marker d.category ++ markers_at i ds else markers_at i ds

-- At each position: the markers of the detections that begin there, and the byte unless some
-- detection covers it.
pub mask : ℕ → Text → List Detection → Text
mask i [] ds = markers_at i ds
mask i (b ∷ s) ds = markers_at i ds ++ ((if covered i ds then [] else b ∷ []) ++ mask (i + 1) s ds)

-- Detections in order, none of them empty, none overlapping another, all inside the text and
-- on character boundaries.
abbrev pub Separate : Text → ℕ → List Detection → Type 0
Separate text from [] = Unit
Separate text from (d ∷ ds) =
    (from ≤ d.start)
    × (d.start < d.end)
    × (d.end ≤ length text)
    × (is_char_boundary text d.start ≡ true)
    × (is_char_boundary text d.end ≡ true)
    × Separate text d.end ds

-- Nothing begins or covers a position before the first detection.
quiet-covered :
    (text : Text) (ds : List Detection) (from i : ℕ)
    → i < from
    → Separate text from ds
    → covered i ds ≡ false
unfolding covered
quiet-covered text [] from i h s = refl
quiet-covered text (d ∷ ds) from i h s =
    ground (arith, quiet-covered text ds d.end i (omega (arith, s.0, s.1)) s.5)

quiet-markers :
    (text : Text) (ds : List Detection) (from i : ℕ)
    → i < from
    → Separate text from ds
    → markers_at i ds ≡ []
unfolding markers_at
quiet-markers text [] from i h s = refl
quiet-markers text (d ∷ ds) from i h s =
    ground (arith, quiet-markers text ds d.end i (omega (arith, s.0, s.1)) s.5)

Separate-weaken :
    (text : Text) (ds : List Detection) (from lower : ℕ)
    → lower ≤ from
    → Separate text from ds
    → Separate text lower ds
Separate-weaken text [] from lower h s = tt
Separate-weaken text (d ∷ ds) from lower h s = (omega (arith, s.0), s.1, s.2, s.3, s.4, s.5)

-- Before the first detection the mask copies.
mask-copy :
    (text s : Text) (ds : List Detection) (n i : ℕ)
    → Separate text (i + n) ds
    → n ≤ length s
    → mask i s ds ≡ take n s ++ mask (i + n) (drop n s) ds
unfolding mask
mask-copy text s ds zero i sep fits = rw add-zero
mask-copy text [] ds (suc n) i sep fits = absurd (omega arith)
mask-copy text (b ∷ s) ds (suc n) i sep fits =
    let shift : i + suc n ≡ i + 1 + n = omega arith in
    rw (quiet-markers text ds (i + suc n) i (omega arith) sep) (
      rw (quiet-covered text ds (i + suc n) i (omega arith) sep) (
        rw shift (ap (λ l. b ∷ l) (mask-copy text s ds n (i + 1) (rw shift at sep) (omega arith)))))

-- Behind a detection the mask has forgotten it.
mask-past :
    (s : Text) (d : Detection) (ds : List Detection) (i : ℕ)
    → d.start < d.end
    → d.end ≤ i
    → mask i s (d ∷ ds) ≡ mask i s ds
unfolding mask markers_at covered
mask-past [] d ds i h past = ground arith
mask-past (b ∷ s) d ds i h past = ground (arith, mask-past s d ds (i + 1) h (omega arith))

mask-step :
    (text s : Text) (b : ℕ) (d : Detection) (ds : List Detection) (i : ℕ)
    → Separate text d.end ds
    → d.start < i
    → i < d.end
    → mask i (b ∷ s) (d ∷ ds) ≡ mask (i + 1) s (d ∷ ds)
unfolding mask markers_at covered
mask-step text s b d ds i sep inside more = ground (arith, quiet-markers text ds d.end i more sep)

-- Inside a detection it drops the bytes.
mask-skip :
    (text s : Text) (d : Detection) (ds : List Detection) (n i : ℕ)
    → Separate text d.end ds
    → d.start < i
    → i + n ≡ d.end
    → n ≤ length s
    → mask i s (d ∷ ds) ≡ mask d.end (drop n s) ds
mask-skip text s d ds zero i sep inside e fits =
    let here : i ≡ d.end = omega arith in
    mask-past s d ds i (omega arith) (omega arith) ∙ ap (λ (j : ℕ). mask j s ds) here
mask-skip text [] d ds (suc n) i sep inside e fits = absurd (omega arith)
mask-skip text (b ∷ s) d ds (suc n) i sep inside e fits =
    mask-step text s b d ds i sep inside (omega arith)
    ∙ mask-skip text s d ds n (i + 1) sep (omega arith) (omega arith) (omega arith)

-- At a detection it puts the marker.
mask-enter :
    (text s : Text) (d : Detection) (ds : List Detection)
    → Separate text d.end ds
    → d.start < d.end
    → d.end - d.start ≤ length s
    → mask d.start s (d ∷ ds) ≡ marker d.category ++ mask d.end (drop (d.end - d.start) s) ds
mask-enter text [] d ds sep h fits = absurd (omega arith)
mask-enter text (b ∷ s) d ds sep h fits =
    let none_here = quiet-markers text ds d.end d.start h sep in
    let n : ℕ = d.end - d.start - 1 in
    let width : d.end - d.start ≡ suc n = omega arith in
    let rest =
      mask-skip text s d ds n (d.start + 1) sep (omega arith) (omega arith) (omega arith) in
    rw width (
      unfold mask markers_at covered in
      ground (arith, none_here, rest, append-nil (marker d.category)))

mask-nil : (s : Text) (i : ℕ) → mask i s [] ≡ s
unfolding mask markers_at covered
mask-nil [] i = refl
mask-nil (b ∷ s) i = ap (λ l. b ∷ l) (mask-nil s (i + 1))

pub boundary_at_end : (text : Text) → is_char_boundary text (length text) ≡ true
unfolding is_char_boundary
boundary_at_end [] = refl
boundary_at_end (b ∷ s) = boundary_at_end s

pub slice-eq :
    (text : Text) (a b : ℕ)
    → a ≤ b
    → is_char_boundary text a ≡ true
    → is_char_boundary text b ≡ true
    → slice text a b ≡ some (take (b - a) (drop a text))
unfolding slice
slice-eq text a b h ha hb = rw (le→leb a b h, ha, hb)

mask-replace :
    (text : Text) (d : Detection) (ds : List Detection) (cursor : ℕ)
    → Separate text cursor (d ∷ ds)
    → mask cursor (drop cursor text) (d ∷ ds)
      ≡ take (d.start - cursor) (drop cursor text)
        ++ (marker d.category ++ mask d.end (drop d.end text) ds)
mask-replace text d ds cursor sep =
    let k : ℕ = d.start - cursor in
    let rest = drop cursor text in
    let long : length rest ≡ length text - cursor = length-drop cursor text in
    let there : cursor + k ≡ d.start = omega (arith, sep.0) in
    let beyond : d.start + (d.end - d.start) ≡ d.end = omega (arith, sep.1) in
    let at_start = drop-drop k cursor text ∙ ap (λ (n : ℕ). drop n text) there in
    let at_end = drop-drop (d.end - d.start) d.start text ∙ ap (λ (n : ℕ). drop n text) beyond in
    let copied =
      mask-copy text rest (d ∷ ds) k cursor
        (Separate-weaken text (d ∷ ds) d.start (cursor + k) (omega arith)
          (le_refl d.start, sep.1, sep.2, sep.3, sep.4, sep.5))
        (omega (arith, sep.1, sep.2)) in
    let entered =
      mask-enter text (drop d.start text) d ds sep.5 sep.1
        (omega (arith, length-drop {0} d.start text, sep.2)) in
    copied
    ∙ ap (λ l. take k rest ++ l)
        (ap (λ (n : ℕ). mask n (drop k rest) (d ∷ ds)) there
          ∙ (ap (λ l. mask d.start l (d ∷ ds)) at_start
              ∙ (entered ∙ ap (λ l. marker d.category ++ mask d.end l ds) at_end)))

redact_from-eq-mask :
    (text : Text) (ds : List Detection) (cursor : ℕ)
    → Separate text cursor ds
    → cursor ≤ length text
    → is_char_boundary text cursor ≡ true
    → redact_from text cursor ds ≡ some (mask cursor (drop cursor text) ds)
unfolding redact_from join
redact_from-eq-mask text [] cursor sep h at_cursor =
    slice-eq text cursor (length text) h at_cursor (boundary_at_end text)
    ∙ ap some (
        take_all (length text - cursor) (drop cursor text)
          (omega (arith, length-drop {0} cursor text))
        ∙ sym (mask-nil (drop cursor text) cursor))
redact_from-eq-mask text (d ∷ ds) cursor sep h at_cursor =
    let rest = redact_from-eq-mask text ds d.end sep.5 sep.2 sep.4 in
    ground (
      arith,
      sep.0,
      slice-eq text cursor d.start sep.0 at_cursor sep.3,
      rest,
      mask-replace text d ds cursor sep,
    )

-- When the detections are in order, not empty, apart from one another and on character boundaries,
-- the redacted text is the text with each detected byte taken out and a marker at the start of each
-- detection: every other byte is kept, and nothing panics.
pub apply_redactions-eq-mask :
    (text : Text) (ds : List Detection)
    → Separate text 0 ds
    → is_char_boundary text 0 ≡ true
    → apply_redactions text ds ≡ some (mask 0 text ds)
unfolding apply_redactions
apply_redactions-eq-mask text ds sep starts = redact_from-eq-mask text ds 0 sep (omega arith) starts
