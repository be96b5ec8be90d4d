-- ===== src/Activity/Scan/Stretches.antt =====
-- What a list of stretches holds, and the tests of it that its growth keeps.
use vtr.Prelude.{
  ℕ, ◌+◌, ◌-◌, ◌≤◌, ◌≡◌, refl, Bool, false, ◌&&◌, ◌||◌, List, [], ◌∷◌, ◌++◌, leb, arith,
}
use vtr.Activity.Scan.{Stretch}

abbrev pub holds : Stretch → ℕ → Bool
holds x t = leb x.start t && leb t x.end

abbrev pub covers : List Stretch → ℕ → Bool
covers [] t = false
covers (x ∷ xs) t = holds x t || covers xs t

-- How many times the stretches hold.
abbrev pub measure : List Stretch → ℕ
measure [] = 0
measure (x ∷ xs) = x.end + 1 - x.start + measure xs

-- Each time is at least the one before it.
abbrev pub IsAscending : ℕ → List ℕ → Type 0
IsAscending low [] = Unit
IsAscending low (t ∷ ts) = (low ≤ t) × IsAscending t ts

-- Every stretch starts at `low` or later, is not reversed, and the next one starts at least two later.
abbrev pub IsSeparated : ℕ → List Stretch → Type 0
IsSeparated low [] = Unit
IsSeparated low (x ∷ xs) = (low ≤ x.start) × (x.start ≤ x.end) × IsSeparated (x.end + 2) xs

pub covers-append :
    (xs ys : List Stretch) (t : ℕ) → covers (xs ++ ys) t ≡ (covers xs t || covers ys t)
covers-append [] ys t = refl
covers-append (x ∷ xs) ys t = ground (arith, covers-append xs ys t)

pub measure-append : (xs ys : List Stretch) → measure (xs ++ ys) ≡ measure xs + measure ys
measure-append [] ys = omega arith
measure-append (x ∷ xs) ys = omega (arith, measure-append xs ys)

pub IsSeparated-grown :
    (low e : ℕ) (front : List Stretch) (prev : Stretch)
    → IsSeparated low (front ++ prev ∷ [])
    → prev.end ≤ e
    → IsSeparated low (front ++ record prev { end = e } ∷ [])
IsSeparated-grown low e [] prev h le = (h.0, omega (arith, h.1), tt)
IsSeparated-grown low e (x ∷ xs) prev h le =
    (h.0, h.1, IsSeparated-grown (x.end + 2) e xs prev h.2 le)

pub IsSeparated-new :
    (low e : ℕ) (front : List Stretch) (prev : Stretch)
    → IsSeparated low (front ++ prev ∷ [])
    → prev.end + 2 ≤ e
    → IsSeparated low ((front ++ prev ∷ []) ++ record { start = e; end = e } ∷ [])
IsSeparated-new low e [] prev h le = (h.0, h.1, (le, omega arith, tt))
IsSeparated-new low e (x ∷ xs) prev h le = (h.0, h.1, IsSeparated-new (x.end + 2) e xs prev h.2 le)

pub IsSeparated-last :
    (low : ℕ) (front : List Stretch) (prev : Stretch)
    → IsSeparated low (front ++ prev ∷ [])
    → prev.start ≤ prev.end
IsSeparated-last low [] prev h = h.1
IsSeparated-last low (x ∷ xs) prev h = IsSeparated-last (x.end + 2) xs prev h.2
