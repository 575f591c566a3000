-- ===== src/Mesh/Bits.antt =====
-- Masks of three bits in a word, as the edge visibility keeps them: `|=` with a shifted mask, and
-- what is read back.
use Prim.Native.Nat.{digits, bit_or, bit_or-bitwise}
use vray_for_houdini.Base.{
  ℕ, zero, suc, ◌+◌, ◌*◌, ◌/◌, ◌%◌, ◌^◌, ◌≤◌, ◌<◌, max, ◌≡◌, refl, ◌∙◌, ◌==◌, ==_iff, Bool-cases,
  inl, inr, arith,
}

-- A mask at the place of the `r`th face of a word.
abbrev pub shift_mask : ℕ → ℕ → ℕ
shift_mask mask r = mask * 2 ^ (r * 3)

-- The mask of the `r`th face of a word.
unfoldable pub read_mask : ℕ → ℕ → ℕ
read_mask word zero = word % 8
read_mask word (suc r) = read_mask (word / 8) r

-- A word that holds masks of its first `r` faces only.
unfoldable pub Holds : ℕ → ℕ → Type 0
Holds word zero = word ≡ 0
Holds word (suc r) = Holds (word / 8) r

abbrev or_rounds : ℕ → ℕ → ℕ → ℕ
or_rounds rounds a b = digits (λ x. x) max rounds a b

-- A round that is not needed changes nothing.
one_more : (rounds a b : ℕ) → a ≤ rounds → or_rounds (suc rounds) a b ≡ or_rounds rounds a b
one_more zero zero b h = refl
one_more zero (suc a) b h = absurd (omega arith)
one_more (suc rounds) zero b h = refl
one_more (suc rounds) (suc a) b h = rw (one_more rounds (suc a / 2) (b / 2) (omega arith)) refl

settled : (rounds a b : ℕ) → a ≤ rounds → or_rounds rounds a b ≡ or_rounds a a b
settled zero zero b h = refl
settled zero (suc a) b h = absurd (omega arith)
settled (suc rounds) a b h = elim (Bool-cases (a == suc rounds)) [
  | inl same ↦ let e : a ≡ suc rounds = (==_iff _ _).0 same in rw e refl
  | inr ne ↦ one_more rounds a b (ground arith) ∙ settled rounds a b (ground arith)
]

zero-bit_or : (b : ℕ) → bit_or 0 b ≡ b
zero-bit_or b = bit_or-bitwise 0 b

bit_or_step : (a b : ℕ) → bit_or a b ≡ bit_or (a / 2) (b / 2) * 2 + max (a % 2) (b % 2)
bit_or_step zero b = omega (arith, zero-bit_or b, zero-bit_or (b / 2))
bit_or_step (suc a) b =
    let half = settled a (suc a / 2) (b / 2) (omega arith) in
    omega (arith, half, bit_or-bitwise (suc a) b, bit_or-bitwise (suc a / 2) (b / 2))

bit_or_eight : (a b : ℕ) → bit_or a (b * 8) ≡ bit_or (a / 8) b * 8 + a % 8
bit_or_eight a b =
    let e : a / 2 / 2 / 2 ≡ a / 8 = omega arith in
    let f : b * 8 / 2 / 2 / 2 ≡ b = omega arith in
    let third = rw (e, f) at (bit_or_step (a / 2 / 2) (b * 8 / 2 / 2)) in
    omega (arith, bit_or_step a (b * 8), bit_or_step (a / 2) (b * 8 / 2), third)

shift_mask-suc : (mask r : ℕ) → shift_mask mask (suc r) ≡ shift_mask mask r * 8
shift_mask-suc mask r =
    let e : suc r * 3 ≡ suc (suc (suc (r * 3))) = omega arith in
    let p : 2 ^ suc (suc (suc (r * 3))) ≡ 2 ^ (r * 3) * 8 = omega arith in rw (e, p) (grind arith)

-- On a word with the masks of earlier faces `|=` adds.
pub bit_or-shift_mask :
    (word mask r : ℕ) → Holds word r → bit_or word (shift_mask mask r) ≡ word + shift_mask mask r
unfolding Holds
bit_or-shift_mask word mask zero h =
    let e : word ≡ 0 = h in rw e (omega (arith, zero-bit_or (mask * 1)))
bit_or-shift_mask word mask (suc r) h =
    rw (shift_mask-suc mask r)
      (omega (arith, bit_or_eight word (shift_mask mask r), bit_or-shift_mask (word / 8) mask r h))

pub Holds-add :
    (word mask r : ℕ) → Holds word r → mask < 8 → Holds (word + shift_mask mask r) (suc r)
unfolding Holds
Holds-add word mask zero h m = let e : word ≡ 0 = h in omega arith
Holds-add word mask (suc r) h m =
    let e : (word + shift_mask mask r * 8) / 8 ≡ word / 8 + shift_mask mask r = omega arith in
    rw (shift_mask-suc mask r, e) (Holds-add (word / 8) mask r h m)

pub read_mask-add :
    (word mask r : ℕ) → Holds word r → mask < 8 → read_mask (word + shift_mask mask r) r ≡ mask
unfolding Holds read_mask
read_mask-add word mask zero h m = let e : word ≡ 0 = h in omega arith
read_mask-add word mask (suc r) h m =
    let e : (word + shift_mask mask r * 8) / 8 ≡ word / 8 + shift_mask mask r = omega arith in
    rw (shift_mask-suc mask r, e) (read_mask-add (word / 8) mask r h m)

pub read_mask-add_earlier :
    (word mask r i : ℕ) → i < r → read_mask (word + shift_mask mask r) i ≡ read_mask word i
unfolding read_mask
read_mask-add_earlier word mask zero i h = absurd (omega arith)
read_mask-add_earlier word mask (suc r) zero h = rw (shift_mask-suc mask r) (omega arith)
read_mask-add_earlier word mask (suc r) (suc i) h =
    let e : (word + shift_mask mask r * 8) / 8 ≡ word / 8 + shift_mask mask r = omega arith in
    rw (shift_mask-suc mask r, e) (read_mask-add_earlier (word / 8) mask r i (omega arith))
