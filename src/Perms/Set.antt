-- ===== src/Perms/Set.antt =====
-- internal/perms/permissions.go: a Go map with empty values is a set of names. It is kept as the
-- list of the names that were added, the last one first; only membership is ever observed.
use solve.Prelude.{
  String, Bool, true, false, not, ◌||◌, List, [], ◌∷◌, ◌≡◌, refl, arith, str_eq, eq_iff, ◌&&◌,
}

unfoldable pub contains : List String → String → Bool
contains [] name = false
contains (x ∷ xs) name = str_eq x name || contains xs name

abbrev pub PermissionSet : Type 0
PermissionSet = List String

-- the loop of `AddPermission`
unfoldable pub add_permission : PermissionSet → List String → PermissionSet
add_permission p [] = p
add_permission p (name ∷ names) = add_permission (name ∷ p) names

unfoldable pub has_permission : PermissionSet → String → Bool
unfolding contains
has_permission p name = contains p name

-- the loop of `Clone`
unfoldable pub clone : PermissionSet → PermissionSet
unfolding add_permission
clone p = add_permission [] p

-- `AddPermission` adds exactly the names that it is given.
pub has_permission-add_permission :
    (p : PermissionSet) (names : List String) (name : String)
    → has_permission (add_permission p names) name ≡ (contains names name || has_permission p name)
unfolding add_permission has_permission
has_permission-add_permission p [] name = refl
has_permission-add_permission p (n ∷ ns) name =
    ground (arith, has_permission-add_permission (n ∷ p) ns name)

pub has_permission-clone :
    (p : PermissionSet) (name : String) → has_permission (clone p) name ≡ has_permission p name
unfolding clone has_permission
has_permission-clone p name = ground (arith, has_permission-add_permission [] p name)

-- Adding permissions takes none away.
pub add_permission_keeps :
    (p : PermissionSet) (names : List String) (name : String)
    → has_permission p name ≡ true
    → has_permission (add_permission p names) name ≡ true
add_permission_keeps p names name h = ground (arith, has_permission-add_permission p names name)

-- Every name of the first list is in the second.
abbrev pub subset : List String → List String → Bool
subset [] ys = true
subset (x ∷ xs) ys = contains ys x && subset xs ys

pub contains-subset :
    (xs ys : List String) (name : String)
    → subset xs ys ≡ true
    → contains xs name ≡ true
    → contains ys name ≡ true
unfolding contains
contains-subset [] ys name h m = absurd (ground arith)
contains-subset (x ∷ xs) ys name h m = ground (arith, eq_iff x name, contains-subset xs ys name)

-- No name of the first list is in the second.
abbrev pub disjoint : List String → List String → Bool
disjoint [] ys = true
disjoint (x ∷ xs) ys = not (contains ys x) && disjoint xs ys

pub contains-disjoint :
    (xs ys : List String) (name : String)
    → disjoint xs ys ≡ true
    → contains ys name ≡ true
    → contains xs name ≡ false
unfolding contains
contains-disjoint [] ys name h m = refl
contains-disjoint (x ∷ xs) ys name h m = ground (arith, eq_iff x name, contains-disjoint xs ys name)

-- What is added besides a name does not change whether the name is there.
pub has_permission-add_permission-disjoint :
    (p : PermissionSet) (names ys : List String) (name : String)
    → disjoint names ys ≡ true
    → contains ys name ≡ true
    → has_permission (add_permission p names) name ≡ has_permission p name
has_permission-add_permission-disjoint p names ys name d m =
    ground (arith, has_permission-add_permission p names name, contains-disjoint names ys name)
