-- ===== src/Ops/Schedule/Windows.antt =====
-- internal/config/config.go: the polling windows, their validation and whether polling is active.
use edub_kushim.Base.{
  ℕ, ◌≤◌, ◌<◌, ◌≡◌, refl, ap, ◌∙◌, inl, inr, Bool, true, false, ◌&&◌, ◌||◌, not, Option, none, some,
  List, [], ◌∷◌, any, all, leb, ltb, arith,
}
use mathlib.Core.List.{Memᴰ}
use edub_kushim.Tags.Names.{Text, codes, same_text, is_empty}
use edub_kushim.Ops.Schedule.Times.{parse_hhmm, parse_with}

-- One entry of a submitted section, its bounds empty where they are missing or no texts.
pub data Submitted : Type 0 where
  not_object : Submitted
  window : (start stop : Text) → Submitted

pub data Section : Type 0 where
  absent not_array : Section
  listed : List Submitted → Section

abbrev in_order : Option ℕ → Option ℕ → Bool
in_order (some a) (some b) = ltb a b
in_order _ _ = false

unfoldable pub valid_entry : Submitted → Bool
valid_entry not_object = false
valid_entry (window start stop) =
    not (is_empty start || is_empty stop)
    && (not (same_text stop (codes "00:00"))
        && in_order (parse_hhmm start false) (parse_hhmm stop true))

-- ValidatePollingWindows: true is no error.
unfoldable pub validate_polling_windows : Section → Bool
validate_polling_windows absent = true
validate_polling_windows not_array = false
validate_polling_windows (listed entries) = all valid_entry entries

abbrev or_zero : Option ℕ → ℕ
or_zero none = 0
or_zero (some m) = m

abbrev covers : ℕ → Text × Text → Bool
covers now (start, stop) =
    leb (or_zero (parse_hhmm start false)) now && ltb now (or_zero (parse_hhmm stop true))

-- IsWithinActiveWindows, at a minute of the day
unfoldable pub is_within_active_windows : List (Text × Text) → ℕ → Bool
is_within_active_windows [] now = true
is_within_active_windows (w ∷ windows) now = any (covers now) (w ∷ windows)

-- The windows of the entries, as the configuration has them once they are stored.
abbrev pub windows_of : List Submitted → List (Text × Text)
windows_of [] = []
windows_of (not_object ∷ entries) = windows_of entries
windows_of (window start stop ∷ entries) = (start, stop) ∷ windows_of entries

parse_bound : (s : Text) {m : ℕ} → parse_hhmm s true ≡ some m → m ≤ 1440
parse_bound s {m} h = elim (parse_with s m h) [
  | inl r ↦ omega (arith, r.0)
  | inr r ↦ omega (arith, r.1)
]

-- What a valid window amounts to.
pub record Opens (start stop : Text) (windows : List (Text × Text)) : Type 0 where
  pub from : ℕ
  pub until : ℕ
  pub reads_from : parse_hhmm start false ≡ some from
  pub reads_until : parse_hhmm stop true ≡ some until
  pub in_day : (from < until) × (until ≤ 1440)
  pub active : (now : ℕ) → from ≤ now → now < until → is_within_active_windows windows now ≡ true

any-windows :
    (start stop : Text) (now : ℕ) (entries : List Submitted)
    → Memᴰ (window start stop) entries
    → covers now (start, stop) ≡ true
    → any (covers now) (windows_of entries) ≡ true
any-windows start stop now [] m h = elim m [ ]
any-windows start stop now (not_object ∷ entries) (Memᴰ.head e) h = cc
any-windows start stop now (not_object ∷ entries) (Memᴰ.tail m) h =
    any-windows start stop now entries m h
any-windows start stop now (window a b ∷ entries) (Memᴰ.head e) h = ground arith
any-windows start stop now (window a b ∷ entries) (Memᴰ.tail m) h =
    ground (arith, any-windows start stop now entries m h)

within_of_any :
    (windows : List (Text × Text)) (now : ℕ)
    → any (covers now) windows ≡ true
    → is_within_active_windows windows now ≡ true
unfolding is_within_active_windows
within_of_any [] now h = refl
within_of_any (w ∷ windows) now h = h

entry_valid :
    (entry : Submitted) (entries : List Submitted)
    → Memᴰ entry entries
    → all valid_entry entries ≡ true
    → valid_entry entry ≡ true
entry_valid entry [] m h = elim m [ ]
entry_valid entry (x ∷ entries) (Memᴰ.head e) h = ap valid_entry e ∙ ground arith
entry_valid entry (x ∷ entries) (Memᴰ.tail m) h = entry_valid entry entries m (ground arith)

bounds_of :
    (start stop : Option ℕ)
    → in_order start stop ≡ true
    → (a : ℕ) × (b : ℕ) × (start ≡ some a) × (stop ≡ some b) × (a < b)
bounds_of (some a) (some b) h = (a, b, refl, refl, ground arith)
bounds_of (some a) none h = cc
bounds_of none stop h = cc

valid_bounds :
    (start stop : Text)
    → valid_entry (window start stop) ≡ true
    → in_order (parse_hhmm start false) (parse_hhmm stop true) ≡ true
unfolding valid_entry
valid_bounds start stop h = ground arith

-- In a section that passes the validation every window begins before it ends, within the day, and polling
-- is active at each minute from its start to before its end.
pub validate_polling_windows-Opens :
    (entries : List Submitted) (start stop : Text)
    → validate_polling_windows (listed entries) ≡ true
    → Memᴰ (window start stop) entries
    → Opens start stop (windows_of entries)
unfolding validate_polling_windows
validate_polling_windows-Opens entries start stop valid member =
    let fits = valid_bounds start stop (entry_valid (window start stop) entries member valid) in
    let (a, b, at_a, at_b, order) =
      bounds_of (parse_hhmm start false) (parse_hhmm stop true) fits in
    record {
      from = a;
      until = b;
      reads_from = at_a;
      reads_until = at_b;
      in_day = (order, parse_bound stop at_b);
      active = λ now after before.
          within_of_any (windows_of entries) now
            (any-windows start stop now entries member (ground arith));
    }
