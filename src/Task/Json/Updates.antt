-- ===== src/Task/Json/Updates.antt =====
-- Reading a field after a field was written.
use text.Mathlib.Text.{◌==◌ as str_eq}
use edub_kushim.Base.{◌≡◌, sym, inl, inr, arith, String, false, some, Bool-cases, subst}
use edub_kushim.Base.Texts.{str_eq_refl, str_eq_iff}
use edub_kushim.Task.Json.{Raw, Fields, field, end, get_field, set_field}

pub get-set_same :
    (fs : Fields) (key : String) (value : Raw) → get_field (set_field fs key value) key ≡ some value
unfolding get_field set_field
get-set_same end key value = ground (arith, str_eq_refl key)
get-set_same (field k v rest) key value = elim (Bool-cases (str_eq k key)) [
  | inl e ↦ ground arith
  | inr e ↦ ground (arith, get-set_same rest key value)
]

pub get-set_other :
    (fs : Fields) (key : String) (value : Raw) (other : String)
    → str_eq key other ≡ false
    → get_field (set_field fs key value) other ≡ get_field fs other
unfolding get_field set_field
get-set_other end key value other h = ground arith
get-set_other (field k v rest) key value other h = elim (Bool-cases (str_eq k key)) [
  | inl e ↦
      let apart : str_eq k other ≡ false =
        subst (λ s. str_eq s other ≡ false) (sym ((str_eq_iff k key).0 e)) h in
      ground arith
  | inr e ↦ ground (arith, get-set_other rest key value other h)
]
