-- ===== src/Tags/Identity/Canonical.antt =====
-- internal/tags/identity.go: the canonical label of a pair does not depend on the order of the pair.
use edub_kushim.Base.{◌≡◌, refl, true, List, [], ◌∷◌, arith, ◌⊎◌, inl, inr}
use edub_kushim.Tags.Names.{
  Text, same_text, same_text_iff, same_texts, text_leb, fields, sort_texts,
}
use edub_kushim.Tags.Identity.Forms.{
  Language, is_variant, variant_class, same_token_multiset, orthographic_form, tie_break,
  prefer_canonical,
}

same_text_comm : (s t : Text) → same_text s t ≡ same_text t s
unfolding same_text
same_text_comm [] [] = refl
same_text_comm [] (d ∷ t) = refl
same_text_comm (c ∷ s) [] = refl
same_text_comm (c ∷ s) (d ∷ t) = ground (arith, same_text_comm s t)

same_texts_comm : (s t : List Text) → same_texts s t ≡ same_texts t s
unfolding same_texts
same_texts_comm [] [] = refl
same_texts_comm [] (d ∷ t) = refl
same_texts_comm (c ∷ s) [] = refl
same_texts_comm (c ∷ s) (d ∷ t) = ground (arith, same_texts_comm s t, same_text_comm c d)

is_variant_comm : (a b : Text) → is_variant a b ≡ is_variant b a
unfolding is_variant variant_class same_token_multiset
is_variant_comm a b = ground (
  arith,
  same_text_comm a b,
  same_texts_comm (sort_texts (fields a)) (sort_texts (fields b)),
  same_text_comm (orthographic_form a) (orthographic_form b),
)

text_leb_total : (s t : Text) → (text_leb s t ≡ true) ⊎ (text_leb t s ≡ true)
unfolding text_leb
text_leb_total [] t = inl refl
text_leb_total (c ∷ s) [] = inr refl
text_leb_total (c ∷ s) (d ∷ t) = ground (arith, text_leb_total s t)

text_leb_antisym : (s t : Text) → text_leb s t ≡ true → text_leb t s ≡ true → s ≡ t
unfolding text_leb
text_leb_antisym [] [] h k = refl
text_leb_antisym [] (d ∷ t) h k = ground arith
text_leb_antisym (c ∷ s) [] h k = ground arith
text_leb_antisym (c ∷ s) (d ∷ t) h k = ground (arith, text_leb_antisym s t)

tie_break_comm : (a b : Text) → tie_break a b ≡ tie_break b a
unfolding tie_break
tie_break_comm a b = ground (arith, text_leb_total a b, text_leb_antisym a b)

-- PreferCanonical takes the same label of two names in either order.
pub prefer_canonical_comm :
    (lang : Language) (a b : Text) → prefer_canonical lang a b ≡ prefer_canonical lang b a
unfolding prefer_canonical
prefer_canonical_comm lang a b =
    ground (arith, same_text_comm a b, same_text_iff a b, is_variant_comm a b, tie_break_comm a b)
