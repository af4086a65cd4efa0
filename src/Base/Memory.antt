-- ===== src/Base/Memory.antt =====
-- The C library's block operations on byte arrays.
use Prim.Native.Nat.{◌-◌, ℕ, zero, suc, ◌+◌, ◌≤◌, ◌<◌}
use mathlib.Core.Path.{◌≡◌, refl, subst, ap, sym, ◌∙◌}
use mathlib.Core.Logic.{◌≢◌, inl, inr}
use mathlib.Core.List.{List, [], ◌∷◌, ◌++◌, append_assoc}
use mathlib.Core.Option.{Option, none, some}
use mathlib.Core.Option
use mathlib.Core.Bool.{true, false, ◌&&◌}
use native.Mathlib.Omega.{arith}
use mini_gdbstub.Base.Tests.{
  ◌==◌, if◌then◌else◌, ltb, leb, ltb→lt, Bool-cases, ne→==, ==_refl, Option-cases,
}
use mini_gdbstub.Base.Lists.{
  length, take, drop, All, get_or, get_or-drop, length-append, length-take, length-drop,
  take-append, drop-append, take-drop, take-take,
}

-- `memcpy(dst + off, src, ...)` inside the bounds of `dst`.
abbrev pub blit : List ℕ → ℕ → List ℕ → List ℕ
blit dst off src = take off dst ++ (src ++ drop (off + length src) dst)

-- `memmove(dst, dst + from, n)`
abbrev pub move_down : List ℕ → ℕ → ℕ → List ℕ
move_down dst from n = blit dst 0 (take n (drop from dst))

-- `memchr`: the first place of a byte.
unfoldable pub find_index : ℕ → List ℕ → Option ℕ
find_index c [] = none
find_index c (x ∷ xs) = if x == c then some 0 else Option.map suc (find_index c xs)

-- The byte does not occur.
abbrev pub Lacks : ℕ → List ℕ → Type 0
Lacks c = All (λ x. x ≢ c)

-- The C string at the start of a block: up to the first NUL.
unfoldable pub cstr : List ℕ → List ℕ
cstr [] = []
cstr (x ∷ xs) = if x == 0 then [] else x ∷ cstr xs

pub length-blit :
    (dst : List ℕ) (off : ℕ) (src : List ℕ)
    → off + length src ≤ length dst
    → length (blit dst off src) ≡ length dst
length-blit dst off src h = omega (
  arith,
  length-append (take off dst) (src ++ drop (off + length src) dst),
  length-append src (drop (off + length src) dst),
  length-take off dst,
  length-drop (off + length src) dst,
)

pub length-move_down :
    (dst : List ℕ) (from n : ℕ) → n ≤ length dst → length (move_down dst from n) ≡ length dst
length-move_down dst from n h =
    length-blit dst 0 (take n (drop from dst))
      (omega (arith, length-take n (drop from dst), length-drop from dst))

pub take-move_down :
    (dst : List ℕ) (from n : ℕ)
    → from + n ≤ length dst
    → take n (move_down dst from n) ≡ take n (drop from dst)
take-move_down dst from n h =
    let e : length (take n (drop from dst)) ≡ n =
      omega (arith, length-take n (drop from dst), length-drop from dst) in
    subst (λ k. take k (move_down dst from n) ≡ take n (drop from dst)) e
      (take-append (take n (drop from dst)) (drop (0 + length (take n (drop from dst))) dst))

pub take-blit :
    (dst src : List ℕ) (n : ℕ)
    → n ≤ length dst
    → take (n + length src) (blit dst n src) ≡ take n dst ++ src
take-blit dst src n h =
    let e : length (take n dst ++ src) ≡ n + length src =
      omega (arith, length-append (take n dst) src, length-take n dst) in
    subst (λ k. take k (blit dst n src) ≡ take n dst ++ src) e
      (rw (← append_assoc (take n dst) src (drop (n + length src) dst))
        (take-append (take n dst ++ src) (drop (n + length src) dst)))

pub take-blit_zero : (dst src : List ℕ) → take (length src) (blit dst 0 src) ≡ src
take-blit_zero dst src = take-append src (drop (0 + length src) dst)

pub find_index-append :
    (c : ℕ) (xs ys : List ℕ) → Lacks c xs → find_index c (xs ++ (c ∷ ys)) ≡ some (length xs)
unfolding find_index
find_index-append c [] ys h = rw (==_refl c)
find_index-append c (x ∷ xs) ys h = rw (ne→== x c h.0, find_index-append c xs ys h.1)

pub find_index-none : (c : ℕ) (xs : List ℕ) → Lacks c xs → find_index c xs ≡ none
unfolding find_index
find_index-none c [] h = refl
find_index-none c (x ∷ xs) h = rw (ne→== x c h.0, find_index-none c xs h.1)

pub find_index-lt : (c : ℕ) (xs : List ℕ) (i : ℕ) → find_index c xs ≡ some i → i < length xs
unfolding find_index
find_index-lt c [] i h = cc
find_index-lt c (x ∷ xs) i h = elim (Option-cases (find_index c xs)) [
  | inl e ↦ ground arith
  | inr (j, e) ↦ ground (arith, find_index-lt c xs j e)
]

pub cstr-append_nul : (xs ys : List ℕ) → Lacks 0 xs → cstr (xs ++ (0 ∷ ys)) ≡ xs
unfolding cstr
cstr-append_nul [] ys h = refl
cstr-append_nul (x ∷ xs) ys h = rw (ne→== x 0 h.0, cstr-append_nul xs ys h.1)

pub Lacks-append : (c : ℕ) (xs ys : List ℕ) → Lacks c xs → Lacks c ys → Lacks c (xs ++ ys)
Lacks-append c [] ys h k = k
Lacks-append c (x ∷ xs) ys h k = (h.0, Lacks-append c xs ys h.1 k)

-- What `blit` wrote stands where it was written, and what lies before it is unchanged.
pub slice-blit :
    (dst src : List ℕ) (n : ℕ) → n ≤ length dst → take (length src) (drop n (blit dst n src)) ≡ src
slice-blit dst src n h =
    let e : length (take n dst) ≡ n = omega (arith, length-take n dst) in
    ap (take (length src)) (
      subst (λ k. drop k (blit dst n src) ≡ src ++ drop (n + length src) dst) e
        (drop-append (take n dst) (src ++ drop (n + length src) dst)))
    ∙ take-append src (drop (n + length src) dst)

pub slice-blit_before :
    (dst src : List ℕ) (n from k : ℕ)
    → n ≤ length dst
    → from + k ≤ n
    → take k (drop from (blit dst n src)) ≡ take k (drop from dst)
slice-blit_before dst src n from k h before =
    let e : k ≡ from + k - from = omega arith in
    let head : length (take n dst) ≡ n = omega (arith, length-take n dst) in
    let same : take n (blit dst n src) ≡ take n dst =
      subst (λ m. take m (blit dst n src) ≡ take n dst) head
        (take-append (take n dst) (src ++ drop (n + length src) dst)) in
    ap (λ m. take m (drop from (blit dst n src))) e
    ∙ take-drop from (from + k) (blit dst n src)
    ∙ ap (drop from) (
        sym (take-take (from + k) n (blit dst n src) before)
        ∙ ap (take (from + k)) same
        ∙ take-take (from + k) n dst before)
    ∙ sym (take-drop from (from + k) dst)
    ∙ ap (λ m. take m (drop from dst)) (sym e)

get_or-append :
    (xs ys : List ℕ) (i : ℕ)
    → get_or (xs ++ ys) i 0
      ≡ (if ltb i (length xs) then get_or xs i 0 else get_or ys (i - length xs) 0)
get_or-append [] ys i = let e : i - 0 ≡ i = omega arith in rw e (ground arith)
get_or-append (x ∷ xs) ys zero = ground arith
get_or-append (x ∷ xs) ys (suc i) =
    let test : ltb (suc i) (suc (length xs)) ≡ ltb i (length xs) = ground arith in
    let place : suc i - suc (length xs) ≡ i - length xs = omega arith in
    rw (test, place) (get_or-append xs ys i)

get_or-take : (n i : ℕ) (xs : List ℕ) → i < n → get_or (take n xs) i 0 ≡ get_or xs i 0
get_or-take zero i xs h = absurd (omega arith)
get_or-take (suc n) i [] h = refl
get_or-take (suc n) zero (x ∷ xs) h = refl
get_or-take (suc n) (suc i) (x ∷ xs) h = get_or-take n i xs (omega arith)

-- A byte of a block behind `blit`.
pub get_or-blit :
    (dst src : List ℕ) (off i : ℕ)
    → off + length src ≤ length dst
    → get_or (blit dst off src) i 0
      ≡ (if leb off i && ltb i (off + length src) then get_or src (i - off) 0 else get_or dst i 0)
get_or-blit dst src off i h =
    let size : length (take off dst) ≡ off = omega (arith, length-take off dst) in
    get_or-append (take off dst) (src ++ drop (off + length src) dst) i
    ∙ rw (size, get_or-append src (drop (off + length src) dst) (i - off))
        (elim (Bool-cases (ltb i off)) [
          | inl low ↦
              let test : (leb off i && ltb i (off + length src)) ≡ false = ground arith in
              rw (low, test) (get_or-take off i dst (ltb→lt i off low))
          | inr high ↦ elim (Bool-cases (ltb (i - off) (length src))) [
            | inl mid ↦
                let test : (leb off i && ltb i (off + length src)) ≡ true = ground arith in
                rw (high, mid, test)
            | inr past ↦
                let test : (leb off i && ltb i (off + length src)) ≡ false = ground arith in
                let place : off + length src + (i - off - length src) ≡ i = ground arith in
                rw (
                  high,
                  past,
                  test,
                  get_or-drop (off + length src) (i - off - length src) dst,
                  place,
                )
          ]
        ])
