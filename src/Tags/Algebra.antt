-- ===== src/Tags/Algebra.antt =====
-- internal/tags/algebra.go: document sets and the readings of the evidence algebra. A set of ids is a
-- list without duplicates; a Go map has no order, so only membership and size count.
pub mod Readings
pub mod Counting
pub mod Laws
use edub_kushim.Base.{ℕ, not, List, [], ◌∷◌, ◌++◌, length, any, ltb, ◌==◌, Bool, if◌then◌else◌}
use edub_kushim.Base.Tables.{select_where}

abbrev pub Set : Type 0
Set = List ℕ

abbrev pub contains : Set → ℕ → Bool
contains s id = any (λ k. k == id) s

-- NewSet: an id that is there already changes nothing.
unfoldable pub new_set : List ℕ → Set
new_set [] = []
new_set (id ∷ ids) = let rest = new_set ids in if contains rest id then rest else id ∷ rest

abbrev pub size : Set → ℕ
size s = length s

unfoldable pub union : Set → Set → Set
unfolding select_where
union s other = s ++ select_where (λ id. not (contains s id)) other

abbrev pub common : Set → Set → Set
common small large = select_where (contains large) small

-- Intersect walks the smaller set.
unfoldable pub intersect : Set → Set → Set
unfolding select_where
intersect s other = if ltb (size other) (size s) then common other s else common s other

unfoldable pub difference : Set → Set → Set
unfolding select_where
difference s other = select_where (λ id. not (contains other id)) s

pub data EvidenceState : Type 0 where
  sufficient insufficient gray : EvidenceState

-- The loop over the parts after the first.
unfoldable pub intersect_rest : Set → List Set → Set
unfolding intersect
intersect_rest acc [] = acc
intersect_rest acc (p ∷ ps) = intersect_rest (intersect acc p) ps

-- The intersection of the parts' sets, empty where there is no part.
unfoldable pub intersect_all : List Set → Set
unfolding union intersect_rest
intersect_all [] = []
intersect_all (first ∷ rest) = intersect_rest (union first []) rest
