-- ===== src/Common/Memory.antt =====
-- Memory behind a C pointer as the list of the bytes that may be read and written through it.
-- An access outside it is a fault, as is a division by zero: C leaves both undefined.
use Prim.Native.Nat.{ℕ, ◌+◌, ◌/◌, ◌≤◌, ◌<◌}
use mathlib.Core.Path.{◌≡◌, refl, ap, ◌∙◌}
use mathlib.Core.List.{List, [], ◌∷◌, ◌++◌, append_assoc}
use mathlib.Core.Logic.{◌⊎◌, inl, inr}
use mathlib.Core.Option.{Option, none, some}
use native.Mathlib.Omega.{arith}
use fw_bootloader.Common.Tests.{leb, ◌==◌, if◌then◌else◌}
use fw_bootloader.Common.Lists.{length, get_elem?, take, drop, get_elem?-some}
use fw_bootloader.Common.Lists.{
  length-append, length-take, length-drop, take-length_append, drop-length_append, drop-drop,
}
use fw_bootloader.Common.Words.{word16, word32}

pub data Result {ℓ} (A : Type ℓ) : Type ℓ where
  fault : Result A
  ok : (value : A) → Result A

infixl 5 ◌>>=◌
abbrev pub ◌>>=◌ {ℓ κ} : {A : Type ℓ} {B : Type κ} (r : Result A) (next : A → Result B) → Result B
fault >>= next = fault
ok value >>= next = next value

abbrev pub or_fault {ℓ} : {A : Type ℓ} → Option A → Result A
or_fault none = fault
or_fault (some a) = ok a

-- `p[i]`
abbrev pub load : List ℕ → ℕ → Result ℕ
load mem i = or_fault (get_elem? mem i)

-- A field of two or four bytes at offset `i`, low byte first.
abbrev pub load16 : List ℕ → ℕ → Result ℕ
load16 mem i = do a ← load mem i; b ← load mem (i + 1); ok (word16 a b)

abbrev pub load32 : List ℕ → ℕ → Result ℕ
load32 mem i = do
  a ← load mem i
  b ← load mem (i + 1)
  c ← load mem (i + 2)
  d ← load mem (i + 3)
  ok (word32 a b c d)

-- The `n` bytes from offset `i` on.
unfoldable pub slice : List ℕ → ℕ → ℕ → Result (List ℕ)
slice mem i n = if leb (i + n) (length mem) then ok (take n (drop i mem)) else fault

-- `memcpy(p + i, bytes, n)`
unfoldable pub splice : List ℕ → ℕ → List ℕ → Result (List ℕ)
splice mem i bytes =
    if leb (i + length bytes) (length mem)
    then ok (take i mem ++ (bytes ++ drop (i + length bytes) mem))
    else fault

-- Unsigned division.
unfoldable pub divide : ℕ → ℕ → Result ℕ
divide a b = if b == 0 then fault else ok (a / b)

-- What returns has been put together of two that return.
pub >>=-eq-ok {ℓ κ} :
    {A : Type ℓ} {B : Type κ} {out : B} (first : Result A) (next : A → Result B)
    → first >>= next ≡ ok out
    → (got : A) × (first ≡ ok got) × (next got ≡ ok out)
>>=-eq-ok fault next e = cc
>>=-eq-ok (ok got) next e = (got, refl, e)

pub ok-injective {ℓ} : {A : Type ℓ} {a b : A} → ok a ≡ ok b → a ≡ b
ok-injective e = cc

pub Result-cases {ℓ} : {A : Type ℓ} (r : Result A) → (r ≡ fault) ⊎ ((got : A) × (r ≡ ok got))
Result-cases fault = inl refl
Result-cases (ok got) = inr (got, refl)

pub slice-ok :
    (mem : List ℕ) (i n : ℕ) → i + n ≤ length mem → slice mem i n ≡ ok (take n (drop i mem))
unfolding slice
slice-ok mem i n h = ground arith

pub slice-fault : (mem : List ℕ) (i n : ℕ) → length mem < i + n → slice mem i n ≡ fault
unfolding slice
slice-fault mem i n h = ground arith

pub splice-ok :
    (mem : List ℕ) (i : ℕ) (bytes : List ℕ)
    → i + length bytes ≤ length mem
    → splice mem i bytes ≡ ok (take i mem ++ (bytes ++ drop (i + length bytes) mem))
unfolding splice
splice-ok mem i bytes h = ground arith

pub splice-fault :
    (mem : List ℕ) (i : ℕ) (bytes : List ℕ)
    → length mem < i + length bytes
    → splice mem i bytes ≡ fault
unfolding splice
splice-fault mem i bytes h = ground arith

-- A write inside the memory keeps its size.
pub length-splice :
    (mem : List ℕ) (i : ℕ) (bytes : List ℕ) {mem' : List ℕ}
    → splice mem i bytes ≡ ok mem'
    → length mem' ≡ length mem
unfolding splice
length-splice mem i bytes h = ground (
  arith,
  length-append (take i mem) (bytes ++ drop (i + length bytes) mem),
  length-append bytes (drop (i + length bytes) mem),
  length-take i mem,
  length-drop (i + length bytes) mem,
)

pub load-ok : (mem : List ℕ) (i : ℕ) → i < length mem → (a : ℕ) × (load mem i ≡ ok a)
load-ok mem i h = let (a, e) = get_elem?-some mem i h in (a, rw e)

pub load16-ok : (mem : List ℕ) (i : ℕ) → i + 1 < length mem → (a : ℕ) × (load16 mem i ≡ ok a)
load16-ok mem i h =
    let (a, e) = get_elem?-some mem i (omega arith) in
    let (b, f) = get_elem?-some mem (i + 1) (omega arith) in (word16 a b, rw (e, f))

pub load32-ok : (mem : List ℕ) (i : ℕ) → i + 3 < length mem → (a : ℕ) × (load32 mem i ≡ ok a)
load32-ok mem i h =
    let (a, e) = get_elem?-some mem i (omega arith) in
    let (b, f) = get_elem?-some mem (i + 1) (omega arith) in
    let (c, g) = get_elem?-some mem (i + 2) (omega arith) in
    let (d, k) = get_elem?-some mem (i + 3) (omega arith) in (word32 a b c d, rw (e, f, g, k))

-- A write over a block that is as long as what is written.
pub splice-append :
    (xs old ys bytes : List ℕ) (i : ℕ)
    → i ≡ length xs
    → length old ≡ length bytes
    → splice (xs ++ (old ++ ys)) i bytes ≡ ok (xs ++ (bytes ++ ys))
splice-append xs old ys bytes i at size =
    splice-ok (xs ++ (old ++ ys)) i bytes
      (omega (arith, length-append xs (old ++ ys), length-append old ys))
    ∙ ap ok (rw (at, take-length_append, drop-drop, drop-length_append, ← size, drop-length_append))

pub slice-append : (xs ys : List ℕ) (n : ℕ) → n ≡ length xs → slice (xs ++ ys) 0 n ≡ ok xs
slice-append xs ys n size =
    slice-ok (xs ++ ys) 0 n (omega (arith, length-append xs ys))
    ∙ ap ok (rw (size, take-length_append))

pub splice_front :
    (mem bytes : List ℕ)
    → length bytes ≤ length mem
    → splice mem 0 bytes ≡ ok (bytes ++ drop (length bytes) mem)
splice_front mem bytes fits =
    let zero_add : 0 + length bytes ≡ length bytes = omega arith in
    splice-ok mem 0 bytes (omega arith) ∙ ap ok (rw zero_add)

-- The byte behind one that has just been written.
pub splice_second :
    (xs ys : List ℕ) (x r y i : ℕ)
    → i ≡ length xs + 1
    → splice (xs ++ x ∷ r ∷ ys) i (y ∷ []) ≡ ok (xs ++ x ∷ y ∷ ys)
splice_second xs ys x r y i at =
    rw (append_assoc xs (x ∷ []) (r ∷ ys), append_assoc xs (x ∷ []) (y ∷ ys)) at
      (splice-append (xs ++ x ∷ []) (r ∷ []) ys (y ∷ []) i
        (omega (arith, length-append xs (x ∷ []))) refl)

pub divide-ok : (a b : ℕ) → 0 < b → divide a b ≡ ok (a / b)
unfolding divide
divide-ok a b h = ground arith

pub divide-eq-ok : (a b : ℕ) {q : ℕ} → divide a b ≡ ok q → q ≡ a / b
unfolding divide
divide-eq-ok a b e = ground arith
