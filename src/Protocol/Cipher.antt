-- ===== src/Protocol/Cipher.antt =====
-- `enc_dec_data` against a pure description of the stream that it writes.
use fw_bootloader.Common.{
  leb, Bool-cases, inl, inr, ℕ, zero, suc, ◌+◌, ◌≤◌, ◌<◌, ◌≡◌, refl, ap, ◌∙◌, List, [], ◌∷◌, ◌++◌,
  length, take, drop, arith, length-append, length-take, take-append-drop, bit_xor,
}
use fw_bootloader.Common.Xor.{xor-xor}
use fw_bootloader.Common.Memory.{ok, fault}
use fw_bootloader.Protocol.{enc_key, enc_dec_loop, enc_dec_data}

-- The bytes from index `i` of the stream on, each under its byte of the key.
abbrev pub encode : ℕ → ℕ → List ℕ → List ℕ
encode key i [] = []
encode key i (x ∷ xs) = bit_xor x (enc_key key i) ∷ encode key (i + 1) xs

pub length-encode : (key i : ℕ) (xs : List ℕ) → length (encode key i xs) ≡ length xs
length-encode key i [] = refl
length-encode key i (x ∷ xs) = ap suc (length-encode key (i + 1) xs)

pub encode-encode : (key i : ℕ) (xs : List ℕ) → encode key i (encode key i xs) ≡ xs
encode-encode key i [] = refl
encode-encode key i (x ∷ xs) = rw (xor-xor, encode-encode key (i + 1) xs)

enc_dec_loop-append :
    (key i : ℕ) (xs ys : List ℕ)
    → enc_dec_loop key (length xs) i (xs ++ ys) ≡ ok (encode key i xs ++ ys)
unfolding enc_dec_loop
enc_dec_loop-append key i [] ys = refl
enc_dec_loop-append key i (x ∷ xs) ys = rw (enc_dec_loop-append key (i + 1) xs ys)

enc_dec_loop-fault :
    (key n i : ℕ) (mem : List ℕ) → length mem < n → enc_dec_loop key n i mem ≡ fault
unfolding enc_dec_loop
enc_dec_loop-fault key zero i mem h = absurd (omega arith)
enc_dec_loop-fault key (suc n) i [] h = refl
enc_dec_loop-fault key (suc n) i (x ∷ mem) h =
    rw (enc_dec_loop-fault key n (i + 1) mem (omega arith))

-- The loop changes exactly the first bytes, and those by the stream of the key.
pub enc_dec_data-append :
    (key : ℕ) (xs ys : List ℕ) {n : ℕ}
    → length xs ≡ n
    → enc_dec_data key (xs ++ ys) n ≡ ok (encode key 0 xs ++ ys)
unfolding enc_dec_data
enc_dec_data-append key xs ys e = rw (← e) (enc_dec_loop-append key 0 xs ys)

pub enc_dec_data-ok :
    (key : ℕ) (mem : List ℕ) (n : ℕ)
    → n ≤ length mem
    → enc_dec_data key mem n ≡ ok (encode key 0 (take n mem) ++ drop n mem)
enc_dec_data-ok key mem n h =
    rw (take-append-drop n mem) at
      (enc_dec_data-append key (take n mem) (drop n mem) {n = n} (omega (arith, length-take n mem)))

pub enc_dec_data-fault :
    (key : ℕ) (mem : List ℕ) (n : ℕ) → length mem < n → enc_dec_data key mem n ≡ fault
unfolding enc_dec_data
enc_dec_data-fault key mem n h = enc_dec_loop-fault key n 0 mem h

-- Encoding a block that lies in memory succeeds, and doing it twice gives the memory back.
pub enc_dec_data_twice :
    (key : ℕ) (mem : List ℕ) (n : ℕ)
    → n ≤ length mem
    → (mid : List ℕ) × (enc_dec_data key mem n ≡ ok mid) × (enc_dec_data key mid n ≡ ok mem)
enc_dec_data_twice key mem n h = (
  encode key 0 (take n mem) ++ drop n mem,
  enc_dec_data-ok key mem n h,
  enc_dec_data-append key (encode key 0 (take n mem)) (drop n mem) {n = n}
        (omega (arith, length-encode key 0 (take n mem), length-take n mem))
      ∙ ap ok (rw encode-encode (take-append-drop n mem)),
)

pub length-enc_dec_data :
    (key : ℕ) (mem out : List ℕ) (n : ℕ) → enc_dec_data key mem n ≡ ok out → length out ≡ length mem
length-enc_dec_data key mem out n e = elim (Bool-cases (leb n (length mem))) [
  | inl t ↦ same (take-append-drop n mem) (inside (ground arith))
  | inr t ↦ absurd (cc (enc_dec_data-fault key mem n (ground arith)))
]
  where
    inside : n ≤ length mem → out ≡ encode key 0 (take n mem) ++ drop n mem
    inside h = cc (enc_dec_data-ok key mem n h)

    same :
        take n mem ++ drop n mem ≡ mem
        → out ≡ encode key 0 (take n mem) ++ drop n mem
        → length out ≡ length mem
    same whole f = omega (
      arith,
      ap length f,
      ap length whole,
      length-append (encode key 0 (take n mem)) (drop n mem),
      length-append (take n mem) (drop n mem),
      length-encode key 0 (take n mem),
    )

pub enc_dec_data-le :
    (key : ℕ) (mem out : List ℕ) (n : ℕ) → enc_dec_data key mem n ≡ ok out → n ≤ length mem
enc_dec_data-le key mem out n e = elim (Bool-cases (leb n (length mem))) [
  | inl t ↦ ground arith
  | inr t ↦ absurd (cc (enc_dec_data-fault key mem n (ground arith)))
]
