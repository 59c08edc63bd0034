-- ===== src/Ops/Launch/Fitness.antt =====
-- internal/ops/dispatch/launcher.go: which batches have a command to fork.
use mathlib.Core.List.{Memᴰ}
use text.Mathlib.Text.{◌==◌ as str_eq}
use edub_kushim.Base.{
  ℕ, ◌≡◌, refl, sym, ap, ◌∙◌, subst, ◌⊎◌, inl, inr, true, false, ◌||◌, List, [], ◌∷◌, some, arith,
  Bool-cases, Option-cases,
}
use edub_kushim.Base.Members.{mem-cons_inv}
use edub_kushim.Types.{TaskType, Host, same_type}
use edub_kushim.Task.Catalog.{Catalog, TypeDefinition}
use edub_kushim.Ops.Launch.{
  LaunchError, LaunchTarget, launch, Resolved, failed, definitions, has_host, resolve_types,
  resolve_launch_target, choose_target, preferred, definition_in, target_of, tag_group_target,
  batch_executor_precedence, is_routine, tag_group_distinct, agree_with,
}

-- The host can fork the command of the type.
pub record Dispatchable (catalog : Catalog) (host : Host) (t : TaskType) : Type 0 where
  pub definition : TypeDefinition
  pub known : catalog t ≡ some definition
  pub has_cli : str_eq definition.cli "" ≡ false
  pub has_selector : str_eq definition.batch_selector "" ≡ false
  pub on_host : has_host definition.hosts host ≡ true

Resolved-cases :
    (r : Resolved)
    → ((e : LaunchError) × (r ≡ failed e))
      ⊎ ((ds : List (TaskType × TypeDefinition)) × (r ≡ definitions ds))
Resolved-cases (failed e) = inl (e, refl)
Resolved-cases (definitions ds) = inr (ds, refl)

module _ (catalog : Catalog) (host : Host) where
  pub AllFit : List TaskType → Type 0
  AllFit types = (t : TaskType) → Memᴰ t types → Dispatchable catalog host t

  resolve_types-cons :
      (t : TaskType) (types : List TaskType) (ds : List (TaskType × TypeDefinition))
      → resolve_types catalog host (t ∷ types) ≡ definitions ds
      → (rest : List (TaskType × TypeDefinition)) × (fit : Dispatchable catalog host t)
        × (resolve_types catalog host types ≡ definitions rest)
        × (ds ≡ (t, fit.definition) ∷ rest)
  unfolding resolve_types
  resolve_types-cons t types ds h = elim (Option-cases (catalog t)) [
    | inl e ↦ ground (arith, e, h)
    | inr (d, e) ↦ elim (Bool-cases (str_eq d.cli "" || str_eq d.batch_selector "")) [
      | inl bad ↦ ground (arith, e, h, bad)
      | inr good ↦ elim (Bool-cases (has_host d.hosts host)) [
        | inr off ↦ ground (arith, e, h, good, off)
        | inl on ↦ elim (Resolved-cases (resolve_types catalog host types)) [
          | inl (bad, q) ↦ ground (arith, e, h, good, on, q)
          | inr (rest, q) ↦ (
            rest,
            record {
              definition = d;
              known = e;
              has_cli = ground (arith, good);
              has_selector = ground (arith, good);
              on_host = on;
            },
            q,
            ground (arith, e, h, good, on, q),
          )
        ]
      ]
    ]
  ]

  -- The pairs are the types in order, each with its definition.
  pub data Pairs : List TaskType → List (TaskType × TypeDefinition) → Type 0 where
    done : Pairs [] []
    pair :
        {t : TaskType} {types : List TaskType} {ds : List (TaskType × TypeDefinition)}
        (fit : Dispatchable catalog host t)
        → Pairs types ds
        → Pairs (t ∷ types) ((t, fit.definition) ∷ ds)

  resolve_types-Pairs :
      (types : List TaskType) (ds : List (TaskType × TypeDefinition))
      → resolve_types catalog host types ≡ definitions ds
      → Pairs types ds
  unfolding resolve_types
  resolve_types-Pairs [] ds h =
      let e : [] ≡ ds = ground (arith, h) in subst (λ xs. Pairs [] xs) e Pairs.done
  resolve_types-Pairs (t ∷ types) ds h =
      let (rest, fit, q, e) = resolve_types-cons t types ds h in
      subst (λ xs. Pairs (t ∷ types) xs) (sym e) (Pairs.pair fit (resolve_types-Pairs types rest q))

  Pairs-fit :
      {types : List TaskType} {ds : List (TaskType × TypeDefinition)}
      → Pairs types ds
      → AllFit types
  unfolding AllFit
  Pairs-fit done t m = elim m [ ]
  Pairs-fit (pair fit pairs) t m = elim (mem-cons_inv m) [
    | inl k ↦ Pairs-fit pairs t k
    | inr e ↦ subst (λ u. Dispatchable catalog host u) (sym e) fit
  ]

  -- The target is the command of a type of the batch.
  pub Own : ℕ → List TaskType → LaunchTarget → Type 0
  Own b types target =
      (t : TaskType) × Memᴰ t types
      × (fit : Dispatchable catalog host t) × (target ≡ target_of b fit.definition)

  definition_in-Pairs :
      {types : List TaskType} {ds : List (TaskType × TypeDefinition)} (pairs : Pairs types ds)
      (t : TaskType) (d : TypeDefinition)
      → definition_in ds t ≡ some d
      → (u : TaskType) × Memᴰ u types × (fit : Dispatchable catalog host u) × (d ≡ fit.definition)
  unfolding definition_in
  definition_in-Pairs done t d h = ground (arith, h)
  definition_in-Pairs (pair {t = u} fit pairs) t d h = elim (Bool-cases (same_type t u)) [
    | inl e ↦ (u, Memᴰ.head refl, fit, ground (arith, e, h))
    | inr e ↦
        let (v, m, other, q) = definition_in-Pairs pairs t d (ground (arith, e, h)) in
        (v, Memᴰ.tail m, other, q)
  ]

  preferred-Pairs :
      {types : List TaskType} {ds : List (TaskType × TypeDefinition)} (pairs : Pairs types ds)
      (order : List TaskType) (d : TypeDefinition)
      → preferred order ds ≡ some d
      → (u : TaskType) × Memᴰ u types × (fit : Dispatchable catalog host u) × (d ≡ fit.definition)
  unfolding preferred
  preferred-Pairs pairs [] d h = ground (arith, h)
  preferred-Pairs {types} {ds} pairs (t ∷ order) d h = elim (Option-cases (definition_in ds t)) [
    | inl e ↦ preferred-Pairs pairs order d (ground (arith, e, h))
    | inr (x, e) ↦ definition_in-Pairs pairs t d (ground (arith, e, h))
  ]

  pub Chosen : ℕ → List TaskType → LaunchTarget → Type 0
  Chosen b types target =
      ((is_routine (tag_group_distinct types) ≡ true) × (target ≡ tag_group_target b))
      ⊎ Own b types target

  choose_target-Chosen :
      (b : ℕ) (types : List TaskType) (ds : List (TaskType × TypeDefinition))
      (target : LaunchTarget)
      → Pairs types ds
      → choose_target b types ds ≡ launch target
      → Chosen b types target
  unfolding choose_target Chosen Own
  choose_target-Chosen b types ds target done h = ground (arith, h)
  choose_target-Chosen b types ds target (pair {t} {types = us} {ds = es} fit pairs) h =
      elim (Bool-cases (is_routine (tag_group_distinct types))) [
        | inl e ↦ inl (e, ground (arith, e, h))
        | inr e ↦
            elim (Option-cases (preferred batch_executor_precedence ((t, fit.definition) ∷ es))) [
              | inr (d, q) ↦
                  let (u, m, other, same) =
                    preferred-Pairs (Pairs.pair fit pairs) batch_executor_precedence d q in
                  let target_d : target ≡ target_of b d = ground (arith, e, h, q) in
                  inr (u, m, other, target_d ∙ ap (target_of b) same)
              | inl q ↦ elim (Bool-cases (agree_with fit.definition es)) [
                | inl k ↦ inr (t, Memᴰ.head refl, fit, ground (arith, e, h, q, k))
                | inr k ↦ ground (arith, e, h, q, k)
              ]
            ]
      ]

  -- Where a launch target is resolved, every type of the batch is known, has a command and a selector, and
  -- lists the host; the target is the tag routine's command, for a batch of several tag types, or the
  -- command of one of the batch's types.
  pub resolve_launch_target-Chosen :
      (b : ℕ) (types : List TaskType) (target : LaunchTarget)
      → resolve_launch_target catalog b types host ≡ launch target
      → AllFit types × Chosen b types target
  unfolding resolve_launch_target
  resolve_launch_target-Chosen b types target h =
      elim (Resolved-cases (resolve_types catalog host types)) [
        | inl (e, q) ↦ ground (arith, h, q)
        | inr (ds, q) ↦
            let pairs = resolve_types-Pairs types ds q in
            (Pairs-fit pairs, choose_target-Chosen b types ds target pairs (ground (arith, h, q)))
      ]
