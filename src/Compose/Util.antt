-- ===== src/Compose/Util.antt =====
-- local/compose/util.go and the helper `remove` of local/compose/dependencies.go.
use compose_cli.Prelude.{
  eq_refl, String, ◌≡◌, refl, ◌⊎◌, Bool, true, false, ◌||◌, List, [], ◌∷◌, ◌++◌, arith, ◌==◌,
  eq_iff, if◌then◌else◌,
}

-- `contains` of util.go
unfoldable pub contains : List String → String → Bool
contains [] item = false
contains (v ∷ slice) item = if v == item then true else contains slice item

-- `remove` of dependencies.go
unfoldable pub remove : List String → String → List String
remove [] item = []
remove (i ∷ slice) item = let rest = remove slice item in if i == item then rest else i ∷ rest

abbrev pub In : String → List String → Type 0
In item slice = contains slice item ≡ true

pub contains-append :
    (xs ys : List String) (a : String) → contains (xs ++ ys) a ≡ contains xs a || contains ys a
unfolding contains
contains-append [] ys a = refl
contains-append (x ∷ xs) ys a = ground (arith, contains-append xs ys a)

pub contains-remove :
    (xs : List String) (k a : String)
    → contains (remove xs k) a ≡ (if k == a then false else contains xs a)
unfolding contains remove
contains-remove [] k a = ground arith
contains-remove (x ∷ xs) k a =
    ground (arith, contains-remove xs k a, eq_iff x k, eq_iff x a, eq_iff k a)

pub contains-snoc :
    (xs : List String) (k a : String) → contains (xs ++ k ∷ []) a ≡ contains xs a || (k == a)
unfolding contains
contains-snoc [] k a = ground arith
contains-snoc (x ∷ xs) k a = ground (arith, contains-snoc xs k a)

pub In-snoc_cases : (xs : List String) (k a : String) → In a (xs ++ k ∷ []) → In a xs ⊎ (k ≡ a)
In-snoc_cases xs k a here = ground (arith, contains-snoc xs k a, eq_iff k a)

pub In-snoc_left : (xs : List String) (k a : String) → In a xs → In a (xs ++ k ∷ [])
In-snoc_left xs k a here = ground (arith, contains-snoc xs k a)

pub In-snoc_self : (xs : List String) (k : String) → In k (xs ++ k ∷ [])
In-snoc_self xs k = ground (arith, contains-snoc xs k k, eq_refl k)

pub In-singleton : {k a : String} → In a (k ∷ []) → k ≡ a
unfolding contains
In-singleton {k} {a} here = ground (arith, eq_iff k a)

pub not-In-nil : (a : String) → ¬ In a []
unfolding contains
not-In-nil a here = cc

pub In-cons_cases : (k a : String) (xs : List String) → In a (k ∷ xs) → (k ≡ a) ⊎ In a xs
unfolding contains
In-cons_cases k a xs here = ground (arith, eq_iff k a)

pub In-head : (k : String) (xs : List String) → In k (k ∷ xs)
unfolding contains
In-head k xs = ground (arith, eq_refl k)

pub In-tail : (k a : String) (xs : List String) → In a xs → In a (k ∷ xs)
unfolding contains
In-tail k a xs here = ground arith
