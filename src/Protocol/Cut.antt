-- ===== src/Protocol/Cut.antt =====
-- Memory cut at the header of a frame and at its CRC.
use fw_bootloader.Common.{
  ℕ, zero, suc, ◌+◌, ◌≤◌, ◌<◌, ◌≡◌, refl, ap, List, [], ◌∷◌, ◌++◌, length, arith, All,
}

abbrev pub IsBytes : List ℕ → Type 0
IsBytes = All (λ x. x < 256)

-- A body of `n` bytes with two bytes behind it.
pub record TailOf (n : ℕ) (l : List ℕ) : Type 0 where
  pub lo : ℕ
  pub hi : ℕ
  pub body : List ℕ
  pub rest : List ℕ
  pub at : l ≡ body ++ lo ∷ hi ∷ rest
  pub size : length body ≡ n
  pub small_bytes : (lo < 256) × (hi < 256)

pub cut_tail : (n : ℕ) (l : List ℕ) → IsBytes l → n + 2 ≤ length l → TailOf n l
cut_tail n [] b h = absurd (omega arith)
cut_tail n (lo ∷ []) b h = absurd (omega arith)
cut_tail zero (lo ∷ hi ∷ rest) b h = record {
  lo = lo;
  hi = hi;
  body = [];
  rest = rest;
  at = refl;
  size = refl;
  small_bytes = (b.0, b.1.0);
}
cut_tail (suc n) (x ∷ y ∷ l) b h = longer (cut_tail n (y ∷ l) b.1 (omega arith))
  where
    longer : TailOf n (y ∷ l) → TailOf (suc n) (x ∷ y ∷ l)
    longer t = record {
      lo = t.lo;
      hi = t.hi;
      body = x ∷ t.body;
      rest = t.rest;
      at = ap (◌∷◌ x) t.at;
      size = ap suc t.size;
      small_bytes = t.small_bytes;
    }

-- Memory that begins with the four bytes of a header.
pub record HeaderOf (l : List ℕ) : Type 0 where
  pub a : ℕ
  pub b : ℕ
  pub c : ℕ
  pub d : ℕ
  pub tail : List ℕ
  pub start : l ≡ a ∷ b ∷ c ∷ d ∷ tail
  pub tail_bytes : IsBytes tail
  pub small_bytes : (c < 256) × (d < 256)

pub cut_header : (l : List ℕ) → IsBytes l → 4 ≤ length l → HeaderOf l
cut_header (a ∷ b ∷ c ∷ d ∷ l) h e = record {
  a = a;
  b = b;
  c = c;
  d = d;
  tail = l;
  start = refl;
  tail_bytes = h.1.1.1.1;
  small_bytes = (h.1.1.0, h.1.1.1.0);
}
cut_header _ h e = absurd (omega arith)
