-- ===== src/Tags/Completeness/Words.antt =====
-- internal/tags/completeness.go: the store forms of the content words of a compound.
use mathlib.Core.List.{Memᴰ}
use edub_kushim.Base.{
  ◌≡◌, ◌≢◌, ◌↔◌, refl, sym, subst, ap, ◌∙◌, ◌⊎◌, inl, inr, Bool, true, false, not, ◌&&◌, List, [],
  ◌∷◌, arith, Bool-cases, if◌then◌else◌,
}
use edub_kushim.Base.Members.{mem-cons_inv}
use edub_kushim.Tags.Names.{Text, same_text, same_text_iff, is_empty}
use edub_kushim.Tags.Identity.Forms.{Language}
use edub_kushim.Tags.Identity.Anchors.{anchored_fold}
use edub_kushim.Tags.Atomicity.{is_time_designation_drop}
use edub_kushim.Tags.Completeness.{resolved_single, resolved_singles, full_singles}

pub is_empty_iff : (t : Text) → (is_empty t ≡ true) ↔ (t ≡ [])
unfolding is_empty
is_empty_iff [] = (λ h. refl, λ h. refl)
is_empty_iff (c ∷ t) = (λ h. cc, λ h. ground arith)

full_iff : (t : Text) → (is_empty t ≡ false) ↔ (t ≢ [])
unfolding is_empty
full_iff [] = (λ h. cc, λ h. elim (h refl) [ ])
full_iff (c ∷ t) = (λ h e. ground (arith, e), λ h. refl)

abbrev form_of : Bool → Text → Text → Text
form_of dropped anchor word =
    if dropped
    then []
    else if not (is_empty anchor) && not (same_text anchor word)
    then anchor
    else word

-- An anchor that is not empty is the form, also where it is the word itself.
form_of_anchor : (anchor word : Text) → is_empty anchor ≡ false → form_of false anchor word ≡ anchor
form_of_anchor anchor word full = elim (Bool-cases (same_text anchor word)) [
  | inl same ↦
      let word_is : word ≡ anchor = sym ((same_text_iff anchor word).0 same) in
      let taken : form_of false anchor word ≡ word = ground (arith, same) in taken ∙ word_is
  | inr apart ↦ ground (arith, full, apart)
]

form_of_word : (anchor word : Text) → is_empty anchor ≡ true → form_of false anchor word ≡ word
form_of_word anchor word h = ground (arith, h)

module _ (lang : Language) (promoted_names : List (Text × Text)) (live_names : List Text) where
  -- The applied store form of a content word: the word is no time designation that the store lacks, and it is
  -- its anchor in the attested folds, or itself where it has none.
  pub record Resolves (word form : Text) : Type 0 where
    pub kept : is_time_designation_drop lang word live_names ≡ false
    pub form_is :
        ((anchored_fold lang word promoted_names live_names ≡ []) × (form ≡ word))
        ⊎ ((anchored_fold lang word promoted_names live_names ≢ [])
            × (form ≡ anchored_fold lang word promoted_names live_names))
    pub not_empty : form ≢ []

  abbrev pub single : Text → Text
  single word = resolved_single lang promoted_names live_names word

  abbrev anchor_of : Text → Text
  anchor_of word = anchored_fold lang word promoted_names live_names

  abbrev pub dropped : Text → Bool
  dropped word = is_time_designation_drop lang word live_names

  single_is : (word : Text) → single word ≡ form_of (dropped word) (anchor_of word) word
  unfolding resolved_single
  single_is word = refl

  form_when :
      (word : Text) (drop : Bool)
      → dropped word ≡ drop
      → single word ≡ form_of drop (anchor_of word) word
  form_when word drop h = single_is word ∙ ap (λ d. form_of d (anchor_of word) word) h

  pub single-Resolves : (word : Text) → is_empty (single word) ≡ false → Resolves word (single word)
  single-Resolves word h = elim (Bool-cases (dropped word)) [
    | inl d ↦
        let nothing : is_empty (single word) ≡ true =
          (is_empty_iff (single word)).1 (form_when word true d) in
        ground (arith, nothing, h)
    | inr d ↦ elim (Bool-cases (is_empty (anchor_of word))) [
      | inl e ↦ record {
        kept = d;
        form_is = inl (
          (is_empty_iff (anchor_of word)).0 e,
          form_when word false d ∙ form_of_word (anchor_of word) word e,
        );
        not_empty = (full_iff (single word)).0 h;
      }
      | inr e ↦ record {
        kept = d;
        form_is = inr (
          (full_iff (anchor_of word)).0 e,
          form_when word false d ∙ form_of_anchor (anchor_of word) word e,
        );
        not_empty = (full_iff (single word)).0 h;
      }
    ]
  ]

  pub Resolves-single :
      (word form : Text) → Resolves word form → (single word ≡ form) × (is_empty form ≡ false)
  Resolves-single word form r = (
    elim r.form_is [
      | inl (none_there, same) ↦
          form_when word false r.kept
          ∙ form_of_word (anchor_of word) word ((is_empty_iff (anchor_of word)).1 none_there)
          ∙ sym same
      | inr (there, same) ↦
          form_when word false r.kept
          ∙ form_of_anchor (anchor_of word) word ((full_iff (anchor_of word)).1 there)
          ∙ sym same
    ],
    (full_iff form).1 r.not_empty,
  )

  abbrev pub singles : List Text → List Text
  singles words = resolved_singles lang promoted_names live_names words

  abbrev pub full : List Text → List Text
  full forms = full_singles lang promoted_names live_names forms

  pub single_mem :
      (words : List Text) (segment : Text)
      → Memᴰ segment (full (singles words))
      → (word : Text) × Memᴰ word words × Resolves word segment
  unfolding full_singles resolved_singles
  single_mem [] segment m = elim m [ ]
  single_mem (word ∷ words) segment m = elim (Bool-cases (is_empty (single word))) [
    | inl e ↦
        let (w, k, r) = single_mem words segment (subst (Memᴰ segment) (ground arith) m) in
        (w, Memᴰ.tail k, r)
    | inr e ↦
        let here : full (singles (word ∷ words)) ≡ single word ∷ full (singles words) =
          ground arith in
        elim (mem-cons_inv (subst (Memᴰ segment) here m)) [
          | inl later ↦ let (w, k, r) = single_mem words segment later in (w, Memᴰ.tail k, r)
          | inr same ↦
              (word, Memᴰ.head refl, subst (Resolves word) (sym same) (single-Resolves word e))
        ]
  ]

  pub mem_single :
      (words : List Text) (word segment : Text)
      → Memᴰ word words
      → Resolves word segment
      → Memᴰ segment (full (singles words))
  unfolding full_singles resolved_singles
  mem_single [] word segment m r = elim m [ ]
  mem_single (x ∷ words) word segment (Memᴰ.head same) r =
      let (form, not_empty) = Resolves-single word segment r in
      let at : single x ≡ segment = ap single (sym same) ∙ form in
      let here : full (singles (x ∷ words)) ≡ single x ∷ full (singles words) = ground arith in
      subst (Memᴰ segment) (sym here) (Memᴰ.head (sym at))
  mem_single (x ∷ words) word segment (Memᴰ.tail m) r =
      let rest = mem_single words word segment m r in
      elim (Bool-cases (is_empty (single x))) [
        | inl e ↦ subst (Memᴰ segment) (ground arith) rest
        | inr e ↦
            let here : full (singles (x ∷ words)) ≡ single x ∷ full (singles words) =
              ground arith in
            subst (Memᴰ segment) (sym here) (Memᴰ.tail rest)
      ]
