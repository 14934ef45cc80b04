-- ===== src/Compat/Content/Sequence.antt =====
-- internal/compat/common.go: the parts of a content, in order.
use mathlib.Core.List.{append_assoc, append-nil}
use copilot_sdkapi.Base.{String, List, [], ◌∷◌, ◌++◌, All, ◌≡◌, refl, sym, ap, ◌∙◌, inl, inr}
use copilot_sdkapi.Strings.{join}
use copilot_sdkapi.Json.{Value, Elements, elements, object, array, text, number, boolean, null}
use copilot_sdkapi.Errors.{Result, ok, Result-cases, ◌>>=◌, bind_ok}
use copilot_sdkapi.Compat.Types.{ImageAttachment}
use copilot_sdkapi.Compat.Images.{Decoders}
use copilot_sdkapi.Compat.Content.{
  Part, text_part, image_part, parse_item, add_part, collect_parts, extract_conversation_content,
}
use copilot_sdkapi.Compat.Content.Accepted.{IsImage, IsPart, parse_item-IsPart}

-- The texts and the images among parts.
unfoldable pub texts : List Part → List String
texts [] = []
texts (text_part t ∷ ps) = t ∷ texts ps
texts (image_part a ∷ ps) = texts ps

unfoldable pub images : List Part → List ImageAttachment
images [] = []
images (text_part t ∷ ps) = images ps
images (image_part a ∷ ps) = a ∷ images ps

module _ (library : Decoders) where
  -- Every item, in order; the first error if there is one.
  unfoldable pub parse_all : List Value → Result (List Part)
  unfolding parse_item
  parse_all [] = ok []
  parse_all (v ∷ vs) = parse_item library v >>= λ p. parse_all vs >>= λ ps. ok (p ∷ ps)

  abbrev pub found_in :
      List String × List ImageAttachment → List Part → List String × List ImageAttachment
  found_in found ps = (found.0 ++ texts ps, found.1 ++ images ps)

  found_in-cons :
      (p : Part) (found : List String × List ImageAttachment) (ps : List Part)
      → found_in (add_part library p found) ps ≡ found_in found (p ∷ ps)
  unfolding texts images
  found_in-cons (text_part t) (parts, attached) ps =
      ap (λ x. (x, attached ++ images ps)) (append_assoc parts (t ∷ []) (texts ps))
  found_in-cons (image_part a) (parts, attached) ps =
      ap (λ x. (parts ++ texts ps, x)) (append_assoc attached (a ∷ []) (images ps))

  collect_parts-parse_all :
      (vs : List Value) (found : List String × List ImageAttachment)
      → collect_parts library vs found ≡ (parse_all vs >>= λ ps. ok (found_in found ps))
  unfolding collect_parts parse_all texts images
  collect_parts-parse_all [] (parts, attached) =
      ap ok (rw (append-nil parts, append-nil attached) refl)
  collect_parts-parse_all (v ∷ vs) found = elim (Result-cases (parse_item library v)) [
    | inr (e, f) ↦ rw (collect_parts, parse_all, f) refl
    | inl (p, f) ↦
        let rest = collect_parts-parse_all vs (add_part library p found) in
        elim (Result-cases (parse_all vs)) [
          | inr (e, g) ↦ rw (collect_parts, parse_all, f, rest, g) refl
          | inl (ps, g) ↦
              rw (collect_parts, parse_all, f, rest, g) (ap ok (found_in-cons p found ps))
        ]
  ]

  -- The content of an array is that of its items, each parsed on its own and in order: the texts,
  -- joined without a separator, and the images; the first item that fails gives the error.
  pub extract_conversation_content-parse_all :
      (items : Elements)
      → extract_conversation_content library (array items)
        ≡ (parse_all (elements items) >>= λ ps. ok (join "" (texts ps), images ps))
  unfolding extract_conversation_content
  extract_conversation_content-parse_all items =
      let loop = collect_parts-parse_all (elements items) ([], []) in
      elim (Result-cases (parse_all (elements items))) [
        | inr (e, g) ↦ rw (extract_conversation_content, loop, g) refl
        | inl (ps, g) ↦ rw (extract_conversation_content, loop, g) refl
      ]

  parse_all-IsPart :
      (vs : List Value) (ps : List Part) → parse_all vs ≡ ok ps → All (IsPart library) ps
  unfolding parse_all
  parse_all-IsPart [] [] h = tt
  parse_all-IsPart [] (p ∷ ps) h = absurd (cc h)
  parse_all-IsPart (v ∷ vs) ps h =
      let (p, first, rest) =
        bind_ok (parse_item library v) (λ p. parse_all vs >>= λ qs. ok (p ∷ qs)) ps h in
      let (qs, more, end) = bind_ok (parse_all vs) (λ qs. ok (p ∷ qs)) ps rest in
      let same : p ∷ qs ≡ ps = cc end in
      rw (← same) (parse_item-IsPart library v p first, parse_all-IsPart vs qs more)

  images-IsImage : (ps : List Part) → All (IsPart library) ps → All (IsImage library) (images ps)
  unfolding images
  images-IsImage [] h = tt
  images-IsImage (text_part t ∷ ps) h = images-IsImage ps h.1
  images-IsImage (image_part a ∷ ps) h = (h.0, images-IsImage ps h.1)

  -- Each image of an accepted content has either an address of the web and no bytes, or bytes of
  -- one of the four supported image types and no address.
  pub extract_conversation_content-IsImage :
      (value : Value) (content : String) (attached : List ImageAttachment)
      → extract_conversation_content library value ≡ ok (content, attached)
      → All (IsImage library) attached
  unfolding extract_conversation_content
  extract_conversation_content-IsImage null content attached h =
      let none_found : [] ≡ attached = cc h in rw (← none_found) tt
  extract_conversation_content-IsImage (text s) content attached h =
      let none_found : [] ≡ attached = cc h in rw (← none_found) tt
  extract_conversation_content-IsImage (number s) content attached h = absurd (cc h)
  extract_conversation_content-IsImage (boolean b) content attached h = absurd (cc h)
  extract_conversation_content-IsImage (object fs) content attached h = absurd (cc h)
  extract_conversation_content-IsImage (array items) content attached h =
      let whole = sym (extract_conversation_content-parse_all items) ∙ h in
      let (ps, all, end) =
        bind_ok (parse_all (elements items)) (λ ps. ok (join "" (texts ps), images ps))
          (content, attached) whole in
      let same : images ps ≡ attached = cc end in
      rw (← same) (images-IsImage ps (parse_all-IsPart (elements items) ps all))
