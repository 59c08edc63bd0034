-- ===== src/Tags/Identity/Evidence.antt =====
-- internal/tags/identity.go: the registrations of a plan and its pending evidence belong together.
use mathlib.Core.List.{Memᴰ}
use edub_kushim.Base.{
  ◌≡◌, refl, sym, ap, ◌∙◌, subst, inl, inr, Bool, true, false, not, ◌||◌, List, [], ◌∷◌, ◌++◌, map,
  some, if◌then◌else◌, arith, Bool-cases, Option-cases,
}
use edub_kushim.Base.Members.{mem-cons_inv, mem-append, mem-append_left, mem-append_right}
use edub_kushim.Tags.Names.{Text, is_empty}
use edub_kushim.Tags.Identity.Forms.{Language, stored_name, shape_related}
use edub_kushim.Tags.Identity.Anchors.{store_names_of}
use edub_kushim.Tags.Identity.Plan.{
  Disposition, Registration, EvidenceRow, StoreView, Plan, settled_registration, shape_evidence,
  fold_evidence, has_row, new_registration, plan_name, plan_names, plan_deterministic, planned_fold,
}

-- A provisional new registration.
pub Flagged : Registration → Type 0
Flagged reg = (reg.disposition ≡ Disposition.register) × (reg.provisional ≡ true)

-- Every row is about the registration, which is flagged, and a flagged one has a row.
record Backed (reg : Registration) (rows : List EvidenceRow) : Type 0 where
  rows_flagged : (row : EvidenceRow) → Memᴰ row rows → (row.candidate ≡ reg.name) × Flagged reg
  flagged_row :
      reg.provisional ≡ true → (row : EvidenceRow) × Memᴰ row rows × (row.candidate ≡ reg.name)

fold_evidence-candidate :
    (stored : Text) (row : EvidenceRow) → Memᴰ row (fold_evidence stored) → row.candidate ≡ stored
fold_evidence-candidate stored row m = elim (mem-cons_inv m) [
  | inr e ↦ ap (λ (r : EvidenceRow). r.candidate) e
  | inl n ↦ elim (mem-cons_inv n) [
    | inr e ↦ ap (λ (r : EvidenceRow). r.candidate) e
    | inl k ↦ elim (mem-cons_inv k) [
      | inr e ↦ ap (λ (r : EvidenceRow). r.candidate) e
      | inl none_left ↦ elim none_left [ ]
    ]
  ]
]

-- The rows of a new registration, by whether it has a fold.
rows_candidate :
    (shapes : List EvidenceRow) (plain : Bool) (stored : Text)
    → ((row : EvidenceRow) → Memᴰ row shapes → row.candidate ≡ stored)
    → (row : EvidenceRow) → Memᴰ row (shapes ++ (if plain then [] else fold_evidence stored))
    → row.candidate ≡ stored
rows_candidate shapes plain stored of_shapes row m = elim (mem-append shapes _ m) [
  | inl k ↦ of_shapes row k
  | inr k ↦ of_fold plain k
]
  where
    of_fold :
        (p : Bool) → Memᴰ row (if p then [] else fold_evidence stored) → row.candidate ≡ stored
    of_fold true k = elim k [ ]
    of_fold false k = fold_evidence-candidate stored row k

rows_flag :
    (shapes : List EvidenceRow) (plain : Bool) (stored : Text)
    → (has_row shapes || not plain)
      ≡ has_row (shapes ++ (if plain then [] else fold_evidence stored))
rows_flag [] true stored = refl
rows_flag [] false stored = refl
rows_flag (row ∷ shapes) plain stored = refl

flagged_by_row :
    (rows : List EvidenceRow) (stored : Text)
    → ((row : EvidenceRow) → Memᴰ row rows → row.candidate ≡ stored)
    → has_row rows ≡ true
    → (row : EvidenceRow) × Memᴰ row rows × (row.candidate ≡ stored)
flagged_by_row [] stored of_rows h = cc
flagged_by_row (row ∷ rows) stored of_rows h = (row, Memᴰ.head refl, of_rows row (Memᴰ.head refl))

row_flags : (row : EvidenceRow) (rows : List EvidenceRow) → Memᴰ row rows → has_row rows ≡ true
row_flags row [] m = elim m [ ]
row_flags row (r ∷ rows) m = refl

Backed-none : (reg : Registration) → reg.provisional ≡ false → Backed reg []
Backed-none reg e = record {
  rows_flagged = λ row m. elim m [ ];
  flagged_row = λ h. ground (arith, e, h);
}

Backed-rows :
    (reg : Registration) (rows : List EvidenceRow)
    → ((row : EvidenceRow) → Memᴰ row rows → row.candidate ≡ reg.name)
    → reg.disposition ≡ Disposition.register
    → reg.provisional ≡ has_row rows
    → Backed reg rows
unfolding Flagged
Backed-rows reg rows of_rows kind flag = record {
  rows_flagged = λ row m. (of_rows row m, (kind, flag ∙ row_flags row rows m));
  flagged_row = λ h. flagged_by_row rows reg.name of_rows (sym flag ∙ h);
}

-- What a plan for the candidates holds.
pub record Planned (names : List Text) (plan : Plan) : Type 0 where
  pub one_each : map (λ (r : Registration). r.input) plan.registrations ≡ names
  pub no_alias : plan.aliases ≡ []
  pub evidence_flagged :
      (row : EvidenceRow)
      → Memᴰ row plan.evidence
      → (reg : Registration) × Memᴰ reg plan.registrations
        × (row.candidate ≡ reg.name)
        × Flagged reg
  pub flagged_evidence :
      (reg : Registration)
      → Memᴰ reg plan.registrations
      → reg.provisional ≡ true
      → (row : EvidenceRow) × Memᴰ row plan.evidence × (row.candidate ≡ reg.name)

-- One more candidate.
abbrev cons_plan : Registration → List EvidenceRow → Plan → Plan
cons_plan reg rows plan = record {
  registrations = reg ∷ plan.registrations;
  aliases = plan.aliases;
  evidence = rows ++ plan.evidence;
}

cons_plan-Planned :
    (raw : Text) (names : List Text) (reg : Registration) (rows : List EvidenceRow) (plan : Plan)
    → reg.input ≡ raw
    → Backed reg rows
    → Planned names plan
    → Planned (raw ∷ names) (cons_plan reg rows plan)
cons_plan-Planned raw names reg rows plan same backed planned = record {
  one_each = λ i. same i ∷ planned.one_each i;
  no_alias = planned.no_alias;
  evidence_flagged = λ row m. elim (mem-append rows plan.evidence m) [
    | inl k ↦ let (about, flag) = backed.rows_flagged row k in (reg, Memᴰ.head refl, about, flag)
    | inr k ↦
        let (r, listed, about, flag) = planned.evidence_flagged row k in
        (r, Memᴰ.tail listed, about, flag)
  ];
  flagged_evidence = λ r m flag. elim (mem-cons_inv m) [
    | inr e ↦
        let (row, listed, about) =
          backed.flagged_row (subst (λ (x : Registration). x.provisional ≡ true) e flag) in
        (
          row,
          mem-append_left rows plan.evidence listed,
          about ∙ ap (λ (x : Registration). x.name) (sym e),
        )
    | inl k ↦
        let (row, listed, about) = planned.flagged_evidence r k flag in
        (row, mem-append_right rows plan.evidence listed, about)
  ];
}

module _ (lang : Language) where
  shape_evidence-candidate :
      (stored : Text) (names : List Text) (row : EvidenceRow)
      → Memᴰ row (shape_evidence lang stored names)
      → row.candidate ≡ stored
  unfolding shape_evidence
  shape_evidence-candidate stored [] row m = elim m [ ]
  shape_evidence-candidate stored (existing ∷ names) row m =
      elim (Bool-cases (shape_related lang stored existing)) [
        | inl e ↦ elim (mem-cons_inv (rw e at m)) [
          | inr k ↦ ap (λ (r : EvidenceRow). r.candidate) k
          | inl k ↦ shape_evidence-candidate stored names row k
        ]
        | inr e ↦ shape_evidence-candidate stored names row (rw e at m)
      ]

  new_registration-Backed :
      (view : StoreView) (by_key : List (Text × Text)) (raw stored : Text)
      → Backed
          (new_registration lang view by_key raw stored).0
          (new_registration lang view by_key raw stored).1
  unfolding new_registration
  new_registration-Backed view by_key raw stored =
      let plain = is_empty (planned_fold lang by_key stored) in
      let shapes = shape_evidence lang stored view.names in
      Backed-rows _ _
        (rows_candidate shapes plain stored (shape_evidence-candidate stored view.names)) refl
        (rows_flag shapes plain stored)

  settled_plain :
      (view : StoreView) (by_key : List (Text × Text)) (raw stored : Text) (reg : Registration)
      → settled_registration lang view by_key raw stored ≡ some reg
      → (reg.input ≡ raw) × (reg.provisional ≡ false)
  unfolding settled_registration
  settled_plain view by_key raw stored reg h = ground (arith, h)

  plan_name-Backed :
      (view : StoreView) (by_key : List (Text × Text)) (raw : Text)
      → ((plan_name lang view by_key raw).0.input ≡ raw)
        × Backed (plan_name lang view by_key raw).0 (plan_name lang view by_key raw).1
  unfolding plan_name
  plan_name-Backed view by_key raw =
      elim (Option-cases (settled_registration lang view by_key raw (stored_name lang raw))) [
        | inl e ↦
            rw (e, plan_name) (refl, new_registration-Backed view by_key raw (stored_name lang raw))
        | inr (reg, e) ↦
            let (same, plain) = settled_plain view by_key raw (stored_name lang raw) reg e in
            rw (e, plan_name) (same, Backed-none reg plain)
      ]

  plan_names-Planned :
      (view : StoreView) (by_key : List (Text × Text)) (names : List Text)
      → Planned names (plan_names lang view by_key names)
  unfolding plan_names
  plan_names-Planned view by_key [] = record {
    one_each = refl;
    no_alias = refl;
    evidence_flagged = λ row m. elim m [ ];
    flagged_evidence = λ reg m. elim m [ ];
  }
  plan_names-Planned view by_key (raw ∷ names) =
      let (same, backed) = plan_name-Backed view by_key raw in
      cons_plan-Planned raw names _ _ _ same backed (plan_names-Planned view by_key names)

  -- A plan has one registration for every candidate, in order, and no alias; every evidence row is about
  -- a registration that is new and provisional, and every provisional registration has a row about it.
  pub plan_deterministic-Planned :
      (names : List Text) (view : StoreView) → Planned names (plan_deterministic lang names view)
  unfolding plan_deterministic
  plan_deterministic-Planned names view =
      plan_names-Planned view (store_names_of lang view.names) names
