-- ===== src/History/Examples.antt =====
-- Runs of the buffer of pinned files.
use nomad_dev.Base.{◌≡◌, refl, [], ◌∷◌, lit, lookup, text_eq, delete}
use nomad_dev.History.Pins.{ReferenceBuffer, pins, unpins, run, unpin, files_of, is_pinned, render}
use nomad_dev.History.Pins.Bounds.{IsValid, pin_run-IsValid}

abbrev one : ReferenceBuffer
one = (lit "ann", (lit "go.mod", lit "go 1") ∷ []) ∷ []

pin_run-IsValid_example :
    IsValid (
      run []
        (pins (lit "ann") (lit "go.mod") (lit "go 1") ∷ unpins (lit "ann") (lit "go.sum") ∷ []))
pin_run-IsValid_example =
    pin_run-IsValid
      (pins (lit "ann") (lit "go.mod") (lit "go 1") ∷ unpins (lit "ann") (lit "go.sum") ∷ [])

last_unpin : (unpin one (lit "ann") (lit "go.mod")).0 ≡ []
unfolding unpin is_pinned files_of lookup delete text_eq
last_unpin = refl

nothing_to_render : render one (lit "bob") ≡ []
unfolding render files_of lookup text_eq
nothing_to_render = refl
