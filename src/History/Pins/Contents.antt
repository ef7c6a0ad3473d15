-- ===== src/History/Pins/Contents.antt =====
-- Lemmas about Pin and Unpin of internal/history/pins.go.
use nomad_dev.Base.{
  ◌≡◌, refl, true, ◌&&◌, [], ◌∷◌, none, some, arith, Text, text_eq, text_eq_iff, lookup, insert,
  delete, lookup-insert, lookup-delete, length, ◌==◌, ok, if◌then◌else◌,
}
use nomad_dev.History.Pins.{ReferenceBuffer, Files, files_of, is_pinned, pin, unpin}
use nomad_dev.History.Pins.Bounds.{pin-eq-ok}

files_of-insert :
    (b : ReferenceBuffer) (sid sid' : Text) (files : Files)
    → files_of (insert sid files b) sid' ≡ (if text_eq sid sid' then files else files_of b sid')
unfolding files_of
files_of-insert b sid sid' files = ground (arith, lookup-insert sid sid' files b)

files_of-delete :
    (b : ReferenceBuffer) (sid sid' : Text)
    → files_of (delete sid b) sid' ≡ (if text_eq sid sid' then [] else files_of b sid')
unfolding files_of
files_of-delete b sid sid' = ground (arith, lookup-delete sid sid' b)

-- A pin that succeeds sets the content of that path in that session, and no other path of any session.
pub pin-lookup :
    (b b' : ReferenceBuffer) (sid path content sid' path' : Text)
    → pin b sid path content ≡ ok b'
    → lookup path' (files_of b' sid') ≡ (
        if text_eq sid sid' && text_eq path path'
        then some content
        else lookup path' (files_of b sid'))
pin-lookup b b' sid path content sid' path' h =
    let (_, _, _, e) = pin-eq-ok b b' sid path content h in
    ground (
      arith,
      e,
      files_of-insert b sid sid' (insert path content (files_of b sid)),
      lookup-insert path path' content (files_of b sid),
      text_eq_iff sid sid',
    )

nil-lookup : (files : Files) (p : Text) → (length files == 0) ≡ true → lookup p files ≡ none
unfolding lookup
nil-lookup [] p h = refl
nil-lookup (x ∷ files) p h = ground arith

-- An unpin removes that path of that session, reports whether it was there, and leaves all others.
pub unpin-lookup :
    (b : ReferenceBuffer) (sid path sid' path' : Text)
    → ((unpin b sid path).1 ≡ is_pinned path (files_of b sid))
      × (lookup path' (files_of (unpin b sid path).0 sid') ≡ (
          if text_eq sid sid' && text_eq path path' then none else lookup path' (files_of b sid')))
unfolding unpin is_pinned lookup
unpin-lookup b sid path sid' path' = ground (
  arith,
  files_of-delete b sid sid',
  files_of-insert b sid sid' (delete path (files_of b sid)),
  lookup-delete path path' (files_of b sid),
  nil-lookup (delete path (files_of b sid)) path',
  text_eq_iff sid sid',
  text_eq_iff path path',
)
