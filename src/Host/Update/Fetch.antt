-- ===== src/Host/Update/Fetch.antt =====
-- The CRC list of the chip, as the host asks for it.
use fw_bootloader.Common.{
  ℕ, zero, suc, ◌+◌, ◌-◌, ◌*◌, ◌/◌, ◌^◌, ◌≤◌, ◌<◌, ◌≡◌, refl, List, [], ◌++◌, length, true, false,
  Bool-cases, inl, inr, Option, none, some, ltb, ◌==◌, if◌then◌else◌, length-append, arith, u32,
}
use fw_bootloader.Common.Memory.{Result, ok}
use fw_bootloader.Protocol.Scan.{seal}
use fw_bootloader.Session.Spec.{Request, Legal, payload}
use fw_bootloader.Host.Crc.{crc16}
use fw_bootloader.Host.Command.{is_reply_flash_crc_cmd}
use fw_bootloader.Host.Command.Replies.{Sized, is_reply_flash_crc_cmd-ok}
use fw_bootloader.Host.Command.Requests.{crc_list, make, InRange}
use fw_bootloader.Host.Update.Thread.{done, go_on, Host, ◌>>=◌, return, require}
use fw_bootloader.Host.Update.{query, fetch_chip_crc_list, max_crc_list_count}
use native.Mathlib.Nat.{mul-div_cancel}
use fw_bootloader.Host.Update.Safe.{Safe, Any, Safe-go_on, query-Safe}

asked_range :
    (address n size : ℕ)
    → address < 2 ^ 32
    → n ≤ 16
    → 0 < size
    → size ≤ 65525
    → InRange (crc_list address (u32 (n * size)) size)
asked_range address n size word few pos fits =
    let small : n * size ≤ 16 * 65525 = grind arith in
    let whole : u32 (n * size) ≡ n * size = omega arith in
    let blocks : n * size / size ≡ n = mul-div_cancel n pos in
    (word, omega arith, omega arith, pos, rw whole (omega (arith, blocks)))

module _ {D : Type 0} (answer : List ℕ → D → Option (List ℕ) × D) (key : ℕ) (P : D → Type 0)
    (keeps : (q : Request) (d : D)
      → Legal q
      → P d
      → P (answer (seal key crc16 (payload 0 q)) d).1) where
  abbrev asked_for : ℕ → ℕ
  asked_for count = if ltb max_crc_list_count count then max_crc_list_count else count

  abbrev fetch_later : ℕ → ℕ → ℕ → ℕ → List ℕ → Host D (List ℕ)
  fetch_later rounds address count size cmd =
      require (is_reply_flash_crc_cmd (asked_for count) cmd) >>= λ crcs.
      fetch_chip_crc_list answer key rounds (u32 (address + asked_for count * size))
        (count - asked_for count) size
      >>= λ more. return (crcs ++ more)

  fetch_next :
      (rounds address count size : ℕ) (d : D)
      → (count == 0) ≡ false
      → fetch_chip_crc_list answer key (suc rounds) address count size d
        ≡ go_on
            (query answer key (make key (crc_list address (u32 (asked_for count * size)) size)) d)
            (fetch_later rounds address count size)
  unfolding fetch_chip_crc_list
  fetch_next rounds address count size d t = rw (t, fetch_chip_crc_list) refl

  fetch_stops :
      (rounds address count size : ℕ) (d : D)
      → (count == 0) ≡ true
      → fetch_chip_crc_list answer key (suc rounds) address count size d ≡ done [] d
  unfolding fetch_chip_crc_list
  fetch_stops rounds address count size d t = rw (t, fetch_chip_crc_list) refl

  require-Safe :
      (n : ℕ) (r : Result (Option (List ℕ))) (got : Option (List ℕ)) (d : D)
      → r ≡ ok got
      → Sized n got
      → P d
      → Safe P (λ crcs. length crcs ≡ n) (require r d)
  require-Safe n r none d e sized p = rw e p
  require-Safe n r (some crcs) d e sized p = rw e (p, sized)

  -- The list that is fetched has two bytes for each block.
  pub fetch_chip_crc_list-Safe :
      (rounds address count size : ℕ) (d : D)
      → count < rounds
      → 0 < size
      → size ≤ 65525
      → address < 2 ^ 32
      → P d
      → Safe P
          (λ crcs. length crcs ≡ 2 * count)
          (fetch_chip_crc_list answer key rounds address count size d)
  fetch_chip_crc_list-Safe zero address count size d enough pos fits word p = absurd (omega arith)
  fetch_chip_crc_list-Safe (suc rounds) address count size d enough pos fits word p =
      elim (Bool-cases (count == 0)) [
        | inl t ↦ rw (fetch_stops rounds address count size d t) (p, ground arith)
        | inr t ↦
            let n = asked_for count in
            let few : n ≤ 16 = ground arith in
            let some_blocks : 0 < n = ground arith in
            let within : n ≤ count = ground arith in
            rw (fetch_next rounds address count size d t) (
              Safe-go_on P Any (λ crcs. length crcs ≡ 2 * count)
                (query answer key (make key (crc_list address (u32 (n * size)) size)) d) _
                (query-Safe answer key P keeps (crc_list address (u32 (n * size)) size) d
                  (asked_range address n size word few pos fits) p)
                (λ cmd d1 p1 q.
                  let (got, e, sized) = is_reply_flash_crc_cmd-ok n cmd few in
                  Safe-go_on P (λ crcs. length crcs ≡ 2 * n) (λ crcs. length crcs ≡ 2 * count)
                    (require (is_reply_flash_crc_cmd n cmd) d1) _
                    (require-Safe (2 * n) (is_reply_flash_crc_cmd n cmd) got d1 e sized p1)
                    (λ crcs d2 p2 size2.
                      Safe-go_on P (λ more. length more ≡ 2 * (count - n))
                        (λ all. length all ≡ 2 * count)
                        (fetch_chip_crc_list answer key rounds (u32 (address + n * size))
                          (count - n) size d2)
                        _
                        (fetch_chip_crc_list-Safe rounds (u32 (address + n * size)) (count - n) size
                          d2 (omega arith) pos fits (omega arith) p2)
                        (λ more d3 p3 size3. (p3, omega (arith, length-append crcs more))))))
      ]
