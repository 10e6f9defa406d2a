-- ===== src/Host/Serial/Chunks.antt =====
-- How the port cuts the bytes makes no difference to the packets.
use fw_bootloader.Common.{
  ℕ, ◌+◌, ◌≤◌, ◌<◌, ◌≡◌, refl, ap, sym, ◌∙◌, List, [], ◌∷◌, ◌++◌, length, take, drop, false, some,
  ltb, ◌==◌, Bool-cases, ◌⊎◌, inl, inr, ltb→lt, lt→ltb, ltb-le, le-ltb, some-injective, ◌≢◌, subst,
  length-append, length-drop, take-append_le, drop-append_le, split_two, arith, word16,
}
use fw_bootloader.Host.Crc.{crc16}
use fw_bootloader.Host.Serial.{
  SerialPort, advance, parse_round, from_head, remove_until_find_head, Scanned, not_enough, invalid,
  packet, check_packet, read_packet,
}
use fw_bootloader.Host.Serial.Heads.{remove-append, length-remove, remove_twice}

-- More bytes behind a packet stay behind it.
abbrev behind : List ℕ → Scanned → Scanned
behind more not_enough = not_enough
behind more (invalid left) = invalid (left ++ more)
behind more (packet cmd left) = packet cmd (left ++ more)

check_packet-append :
    (a b c d lo hi : ℕ) (body payload left more : List ℕ)
    → check_packet (a ∷ b ∷ c ∷ d ∷ (body ++ more)) payload (lo ∷ hi ∷ (left ++ more))
      ≡ behind more (check_packet (a ∷ b ∷ c ∷ d ∷ body) payload (lo ∷ hi ∷ left))
unfolding check_packet
check_packet-append a b c d lo hi body payload left more =
    elim (Bool-cases (word16 lo hi == crc16 (a ∷ b ∷ c ∷ d ∷ payload))) [
      | inl t ↦ rw t refl
      | inr t ↦ rw t refl
    ]

read_packet-append :
    (buf more : List ℕ)
    → (read_packet buf ≡ not_enough) ⊎ (read_packet (buf ++ more) ≡ behind more (read_packet buf))
unfolding read_packet
read_packet-append [] more = inl refl
read_packet-append (a ∷ []) more = inl refl
read_packet-append (a ∷ b ∷ []) more = inl refl
read_packet-append (a ∷ b ∷ c ∷ []) more = inl refl
read_packet-append (a ∷ b ∷ c ∷ d ∷ body) more =
    let n : ℕ = word16 c d in
    elim (Bool-cases (ltb (4 + length body) (2 + 2 + n + 2))) [
      | inl t ↦ inl (rw t refl)
      | inr t ↦
          let room : n + 2 ≤ length body =
            omega (arith, ltb-le (4 + length body) (2 + 2 + n + 2) t) in
          let longer : ltb (4 + length (body ++ more)) (2 + 2 + n + 2) ≡ false =
            le-ltb (4 + length (body ++ more)) (2 + 2 + n + 2)
              (omega (arith, length-append body more)) in
          let (lo, hi, left, e) = split_two (drop n body) (omega (arith, length-drop n body)) in
          inr (
            rw
              (
                t,
                longer,
                take-append_le n body more (omega arith),
                drop-append_le n body more (omega arith),
                e,
              )
              (check_packet-append a b c d lo hi body (take n body) left more))
    ]

-- A round leaves fewer bytes.
abbrev Shrinks : ℕ → Scanned → Type 0
Shrinks n not_enough = Unit {0}
Shrinks n (invalid left) = length left < n
Shrinks n (packet cmd left) = length left < n

check_packet-Shrinks :
    (a b c d : ℕ) (body payload rest : List ℕ)
    → length rest ≤ length body
    → Shrinks (length (a ∷ b ∷ c ∷ d ∷ body)) (check_packet (a ∷ b ∷ c ∷ d ∷ body) payload rest)
unfolding check_packet
check_packet-Shrinks a b c d body payload [] h = tt
check_packet-Shrinks a b c d body payload (lo ∷ []) h = tt
check_packet-Shrinks a b c d body payload (lo ∷ hi ∷ left) h =
    elim (Bool-cases (word16 lo hi == crc16 (a ∷ b ∷ c ∷ d ∷ payload))) [
      | inl t ↦ rw t (omega arith)
      | inr t ↦ rw t (omega arith)
    ]

read_packet-Shrinks : (buf : List ℕ) → Shrinks (length buf) (read_packet buf)
unfolding read_packet
read_packet-Shrinks [] = tt
read_packet-Shrinks (a ∷ []) = tt
read_packet-Shrinks (a ∷ b ∷ []) = tt
read_packet-Shrinks (a ∷ b ∷ c ∷ []) = tt
read_packet-Shrinks (a ∷ b ∷ c ∷ d ∷ body) =
    elim (Bool-cases (ltb (4 + length body) (2 + 2 + word16 c d + 2))) [
      | inl t ↦ rw t tt
      | inr t ↦ rw t (
          check_packet-Shrinks a b c d body (take (word16 c d) body) (drop (word16 c d) body)
            (omega (arith, length-drop (word16 c d) body)))
    ]

-- The port with more bytes behind.
abbrev pub with_more : SerialPort → List ℕ → SerialPort
with_more port more = record port { already_read = port.already_read ++ more }

-- A round that goes on: what it leaves begins at a head, and it does the same with more bytes behind.
pub record Goes (port next : SerialPort) : Type 0 where
  pub size : 6 < length port.already_read
  pub fewer : length next.already_read < length port.already_read
  pub aligned : remove_until_find_head next.already_read ≡ next.already_read
  pub longer :
      (more : List ℕ) → parse_round (with_more port more) ≡ some (from_head (with_more next more))

read_packet_longer :
    (buf more : List ℕ) (f : Scanned)
    → read_packet buf ≡ f
    → f ≢ not_enough
    → read_packet (buf ++ more) ≡ behind more f
read_packet_longer buf more f e found = elim (read_packet-append buf more) [
  | inl none_yet ↦ absurd (found (sym e ∙ none_yet))
  | inr same ↦ same ∙ ap (behind more) e
]

module _ (port : SerialPort) (left : List ℕ) (size : 6 < length port.already_read) where
  module _ (e : read_packet port.already_read ≡ invalid left) where
    invalid-Goes : Goes port (record port { already_read = remove_until_find_head left })
    unfolding parse_round advance from_head
    invalid-Goes = record {
      size = size;
      fewer = omega (arith, length-remove left, rw e at (read_packet-Shrinks port.already_read));
      aligned = remove_twice left;
      longer = λ more.
          rw
            (
              lt→ltb 6 (length (port.already_read ++ more))
                  (omega (arith, size, length-append port.already_read more)),
              read_packet_longer port.already_read more (invalid left) e (λ q. cc),
              remove-append left more,
            )
            refl;
    }

  module _ (cmd : List ℕ) (e : read_packet port.already_read ≡ packet cmd left) where
    packet-Goes : Goes port (record {
      already_read = remove_until_find_head left;
      remote_cmds = port.remote_cmds ++ cmd ∷ [];
    })
    unfolding parse_round advance from_head
    packet-Goes = record {
      size = size;
      fewer = omega (arith, length-remove left, rw e at (read_packet-Shrinks port.already_read));
      aligned = remove_twice left;
      longer = λ more.
          rw
            (
              lt→ltb 6 (length (port.already_read ++ more))
                  (omega (arith, size, length-append port.already_read more)),
              read_packet_longer port.already_read more (packet cmd left) e (λ q. cc),
              remove-append left more,
            )
            refl;
    }

advance-Goes :
    (port next : SerialPort) (f : Scanned)
    → read_packet port.already_read ≡ f
    → 6 < length port.already_read
    → advance port f ≡ some next
    → Goes port next
unfolding advance
advance-Goes port next not_enough e size a = cc
advance-Goes port next (invalid left) e size a =
    subst (Goes port) (some-injective a) (invalid-Goes port left size e)
advance-Goes port next (packet cmd left) e size a =
    subst (Goes port) (some-injective a) (packet-Goes port left size cmd e)

pub parse_round-Goes :
    (port : SerialPort) {next : SerialPort} → parse_round port ≡ some next → Goes port next
unfolding parse_round
parse_round-Goes port {next} e = elim (Bool-cases (ltb 6 (length port.already_read))) [
  | inl t ↦
      advance-Goes port next (read_packet port.already_read) refl
        (ltb→lt 6 (length port.already_read) t) (rw t at e)
  | inr t ↦ cc (rw t at e)
]
