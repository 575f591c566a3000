-- ===== src/Prm/Counts.antt =====
-- The number of parameters in the open folder.
use vray_for_houdini.Base.{◌++◌, suc, ℕ, ◌+◌, ◌≡◌, refl, ap, ◌∙◌, false, List, [], ◌∷◌, arith}
use vray_for_houdini.Qt.Text.{QString, is_empty}
use vray_for_houdini.Prm.List.{FolderInfo, SwitcherInfo, bump_last}

-- The open switcher, if any, has a folder.
abbrev pub IsOpen : List SwitcherInfo → Type 0
IsOpen [] = Unit {0}
IsOpen (info ∷ rest) = is_empty info.folders ≡ false

abbrev pub bump : ℕ → List SwitcherInfo → List SwitcherInfo
bump n [] = []
bump n (info ∷ rest) = record info { folders = bump_last n info.folders } ∷ rest

bump_last_ne : (n : ℕ) (fs : List FolderInfo) → is_empty (bump_last n fs) ≡ is_empty fs
bump_last_ne n [] = refl
bump_last_ne n (f ∷ []) = refl
bump_last_ne n (f ∷ g ∷ fs) = refl

pub bump-IsOpen : (n : ℕ) (stack : List SwitcherInfo) → IsOpen stack → IsOpen (bump n stack)
bump-IsOpen n [] h = tt
bump-IsOpen n (info ∷ rest) h = bump_last_ne n info.folders ∙ h

bump_last_zero : (fs : List FolderInfo) → bump_last 0 fs ≡ fs
bump_last_zero [] = refl
bump_last_zero (f ∷ []) = ground arith
bump_last_zero (f ∷ g ∷ fs) = ap (◌∷◌ f) (bump_last_zero (g ∷ fs))

bump_last_add :
    (m n : ℕ) (fs : List FolderInfo) → bump_last n (bump_last m fs) ≡ bump_last (m + n) fs
bump_last_add m n [] = refl
bump_last_add m n (f ∷ []) = ground arith
bump_last_add m n (f ∷ g ∷ []) = ground arith
bump_last_add m n (f ∷ g ∷ k ∷ fs) = ap (◌∷◌ f) (bump_last_add m n (g ∷ k ∷ fs))

pub bump_zero : (stack : List SwitcherInfo) → bump 0 stack ≡ stack
bump_zero [] = refl
bump_zero (info ∷ rest) =
    ap (λ fs. record info { folders = fs } ∷ rest) (bump_last_zero info.folders)

pub bump_add : (m n : ℕ) (stack : List SwitcherInfo) → bump n (bump m stack) ≡ bump (m + n) stack
bump_add m n [] = refl
bump_add m n (info ∷ rest) =
    ap (λ fs. record info { folders = fs } ∷ rest) (bump_last_add m n info.folders)

pub one_more : (n : ℕ) (stack : List SwitcherInfo) → bump n (bump 1 stack) ≡ bump (suc n) stack
one_more n stack = bump_add 1 n stack ∙ ap (λ m. bump m stack) (omega arith)

pub bump_last_new :
    (n : ℕ) (label : QString) (done : List FolderInfo)
    → bump_last n (done ++ record { ordinal = 0; label = label } ∷ [])
      ≡ done ++ record { ordinal = n; label = label } ∷ []
bump_last_new n label [] = ground arith
bump_last_new n label (f ∷ []) = ground arith
bump_last_new n label (f ∷ g ∷ done) = ap (◌∷◌ f) (bump_last_new n label (g ∷ done))

pub new_ne :
    (label : QString) (done : List FolderInfo)
    → is_empty (done ++ record { ordinal = 0; label = label } ∷ []) ≡ false
new_ne label [] = refl
new_ne label (f ∷ done) = refl
