-- ===== src/Matmul/Product.antt =====
-- pthreads/matrixmul/matrixmul.c: the product, and the places of the threads in `v` and `tid`.

-- the entry of a matrix, 0 where there is none
use native.Mathlib.Decide.{dec_lt}
use experimentation.Matmul.Setup.{numthreads}
use experimentation.Matmul.Threads.{tid_room, v_room, slot}
use experimentation.Matmul.Types.{put, get, Abi, Matrix}
use experimentation.Base.{
  ◌-◌, ◌∙◌, sym, zero, none, refl, Option, ◌&&◌, ◌==◌, inr, inl, if◌then◌else◌, ◌*ℤ◌, ◌+ℤ◌, ◌+◌,
  suc, arith, ◌^◌, ◌≤◌, ◌*◌, ◌⊎◌, some, pos, ◌≡◌, to_int, ◌<◌, ℤ, ℕ,
}

abbrev pub entry : Matrix → ℕ → ℕ → ℤ
entry m i j = elim (get m i j) [ none ↦ pos 0 | some x ↦ x ]

pub entry-eq : (m : Matrix) (i j : ℕ) {x : ℤ} → get m i j ≡ some x → entry m i j ≡ x
entry-eq m i j e = ground arith

-- the sum of the first `n` products of a row and a column
unfoldable pub product : Matrix → Matrix → ℕ → ℕ → ℕ → ℤ
product a b i j zero = pos 0
product a b i j (suc n) = product a b i j n +ℤ entry a i n *ℤ entry b n j

pub product-zero : (a b : Matrix) (i j : ℕ) → product a b i j 0 ≡ pos 0
unfolding product
product-zero a b i j = refl

pub product-suc :
    (a b : Matrix) (i j n : ℕ) {x y : ℤ}
    → get a i n ≡ some x
    → get b n j ≡ some y
    → product a b i j (suc n) ≡ product a b i j n +ℤ x *ℤ y
unfolding product
product-suc a b i j n e f = rw (entry-eq a i n e, entry-eq b n j f) refl

pub to_int-eq : (x : ℤ) {y : ℤ} → to_int x ≡ some y → y ≡ x
to_int-eq x h = ground arith

pub get-put :
    (m : Matrix) (i j a b : ℕ) (x : Option ℤ) {m' : Matrix}
    → put m i j x ≡ some m'
    → get m' a b ≡ (if a == i && b == j then x else get m a b)
unfolding get put
get-put m i j a b x h = ground arith

pub get-put_self :
    (m : Matrix) (i j : ℕ) (x : Option ℤ) {m' : Matrix} → put m i j x ≡ some m' → get m' i j ≡ x
unfolding get put
get-put_self m i j x h = ground arith

-- one round of `mulvect`
pub product-round :
    (a b : Matrix) (i j n : ℕ) (x y p c : ℤ) {z : ℤ}
    → get a i n ≡ some x
    → get b n j ≡ some y
    → to_int (x *ℤ y) ≡ some p
    → to_int (c +ℤ p) ≡ some z
    → c ≡ product a b i j n
    → z ≡ product a b i j (suc n)
product-round a b i j n x y p c e f mul add same =
    to_int-eq (c +ℤ p) add ∙ rw (same, to_int-eq (x *ℤ y) mul) (sym (product-suc a b i j n e f))

-- how the cells are laid out in `v` and `tid`: each has a place of its own
pub record Layout (abi : Abi) (mat1 mat2 : Matrix) : Type 0 where
  pub inside :
      (i j : ℕ) → i < mat1.rows → j < mat2.cols → slot abi mat1 mat2 i j < numthreads abi mat1 mat2
  pub apart :
      (i j a b : ℕ)
      → i < mat1.rows
      → j < mat2.cols
      → a < mat1.rows
      → b < mat2.cols
      → slot abi mat1 mat2 i j ≡ slot abi mat1 mat2 a b
      → (i ≡ a) × (j ≡ b)
  pub small : (mat1.rows ≤ 2 ^ 31) × (mat2.cols ≤ 2 ^ 31)

place_lt : (i j r c : ℕ) → i < r → j < c → i * c + j < r * c
place_lt i j r c li lj = grind arith

place_unique : (i j a b c : ℕ) → j < c → b < c → i * c + j ≡ a * c + b → (i ≡ a) × (j ≡ b)
place_unique zero j zero b c lj lb e = omega arith
place_unique zero j (suc a) b c lj lb e = absurd (grind arith)
place_unique (suc i) j zero b c lj lb e = absurd (grind arith)
place_unique (suc i) j (suc a) b c lj lb e =
    let (same, same') = place_unique i j a b c lj lb (grind arith) in (omega arith, same')

place_onto : (r c k : ℕ) → k < r * c → (i : ℕ) × (j : ℕ) × (i < r) × (j < c) × (i * c + j ≡ k)
place_onto zero c k l = absurd (omega arith)
place_onto (suc r) c k l = elim (dec_lt k c) [
  | yes first ↦ (0, k, omega arith, first, omega arith)
  | no later_on ↦
      let whole : suc r * c ≡ r * c + c = grind arith in
      let (i, j, li, lj, e) = place_onto r c (k - c) (omega arith) in
      let next : suc i * c ≡ i * c + c = grind arith in (suc i, j, omega arith, lj, omega arith)
]

factor_le' : (r c : ℕ) → 0 < r → c ≤ r * c
factor_le' r c l = grind arith

factor_le : (r c : ℕ) → 0 < c → r ≤ r * c
factor_le r c l = grind arith

-- with one row, or as many rows as columns, the stride of `main` is the width of the product
stride : (i j r c : ℕ) → (r ≡ 1) ⊎ (r ≡ c) → i < r → i * r + j ≡ i * c + j
stride i j r c (inl one) l = let first : i ≡ 0 = omega arith in rw first (omega arith)
stride i j r c (inr square) l = rw square refl

module _ (mat1 mat2 : Matrix) (shape : (mat1.rows ≡ 1) ⊎ (mat1.rows ≡ mat2.cols))
    (fit : mat1.rows * mat2.cols * 8 < 2 ^ 32) where
  slot-place :
      (i j : ℕ) → i < mat1.rows → j < mat2.cols → slot Abi.ilp32 mat1 mat2 i j ≡ i * mat2.cols + j
  unfolding slot
  slot-place i j li lj =
      rw (stride i j mat1.rows mat2.cols shape li)
        (omega (arith, place_lt i j mat1.rows mat2.cols li lj))

  -- every place is that of a cell
  pub slot-onto :
      (k : ℕ)
      → k < numthreads Abi.ilp32 mat1 mat2
      → (i : ℕ) × (j : ℕ) × (i < mat1.rows) × (j < mat2.cols) × (slot Abi.ilp32 mat1 mat2 i j ≡ k)
  unfolding numthreads
  slot-onto k l =
      let (i, j, li, lj, e) = place_onto mat1.rows mat2.cols k (omega arith) in
      (i, j, li, lj, slot-place i j li lj ∙ e)

  -- `v` and `tid` have an element for each thread
  pub rooms :
      (numthreads Abi.ilp32 mat1 mat2 ≤ v_room Abi.ilp32 mat1 mat2)
      × (numthreads Abi.ilp32 mat1 mat2 ≤ tid_room Abi.ilp32 mat1 mat2)
  unfolding numthreads v_room tid_room
  rooms = (omega arith, omega arith)

  -- the places of the threads, where they fit in memory
  pub shape-Layout : 0 < mat1.rows → 0 < mat2.cols → Layout Abi.ilp32 mat1 mat2
  shape-Layout lr lc = record {
    inside = λ i j li lj.
        rw (slot-place i j li lj)
          (unfold numthreads in omega (arith, place_lt i j mat1.rows mat2.cols li lj));
    apart = λ i j a b li lj la lb e.
        place_unique i j a b mat2.cols lj lb
          (sym (slot-place i j li lj) ∙ e ∙ slot-place a b la lb);
    small = (
      omega (arith, factor_le mat1.rows mat2.cols lc),
      omega (arith, factor_le' mat1.rows mat2.cols lr),
    );
  }
