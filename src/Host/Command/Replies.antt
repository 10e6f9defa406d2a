-- ===== src/Host/Command/Replies.antt =====
-- The tests of the replies read inside the reply, whatever it holds.
use fw_bootloader.Common.{
  ℕ, ◌+◌, ◌*◌, ◌≤◌, ◌≡◌, refl, ap, sym, ◌∙◌, replicate, length-replicate, leb, leb-le, leb-lt, List,
  length, take, drop, true-false, Bool, true, false, ◌&&◌, Bool-cases, inl, inr, Option, none, some,
  ◌==◌, ==_iff, length-take, length-drop, u32, arith, if◌then◌else◌,
}
use fw_bootloader.Common.Memory.{
  ok, ok-injective, load-ok, load32-ok, slice, slice-ok, splice, splice-ok, splice-fault, >>=-eq-ok,
}
use fw_bootloader.Host.Command.{
  DeviceInitInfo, su_device_init, is_reply_device_init_cmd, take_init_info, is_success,
  reply_status, is_reply_flash_crc_cmd, su_flash_crc, is_reply_device_check_cmd, take_ids,
  su_device_check, is_reply_erase_cmd, is_reply_write_cmd, su_erase, su_write,
}

reply_status-ok : (cmd : ℕ) (bin : List ℕ) → (got : Option ℕ) × (reply_status cmd bin ≡ ok got)
unfolding reply_status
reply_status-ok cmd bin = elim (Bool-cases (length bin == 2)) [
  | inl t ↦
      let size : length bin ≡ 2 = (==_iff (length bin) 2).0 t in
      let (c, e) = load-ok bin 0 (omega arith) in
      let (s, f) = load-ok bin 1 (omega arith) in
      (if c == cmd then some s else none, rw (t, e, f) refl)
  | inr t ↦ (none, rw t refl)
]

pub is_reply_erase_cmd-ok : (bin : List ℕ) → (got : Option ℕ) × (is_reply_erase_cmd bin ≡ ok got)
unfolding is_reply_erase_cmd
is_reply_erase_cmd-ok bin = reply_status-ok su_erase bin

pub is_reply_write_cmd-ok : (bin : List ℕ) → (got : Option ℕ) × (is_reply_write_cmd bin ≡ ok got)
unfolding is_reply_write_cmd
is_reply_write_cmd-ok bin = reply_status-ok su_write bin

-- A reply that is taken has the size asked for.
is_success-ok :
    (n cmd : ℕ) (bin : List ℕ)
    → 2 ≤ n
    → (got : Bool) × (is_success n cmd bin ≡ ok got) × (got ≡ true → length bin ≡ n)
unfolding is_success
is_success-ok n cmd bin two = elim (Bool-cases (length bin == n)) [
  | inl t ↦
      let size : length bin ≡ n = (==_iff (length bin) n).0 t in
      let (c, e) = load-ok bin 0 (omega arith) in
      let (s, f) = load-ok bin 1 (omega arith) in
      (c == cmd && s == 0, rw (t, e, f) refl, λ taken. size)
  | inr t ↦ (false, rw t refl, λ taken. absurd (true-false (sym taken)))
]

-- The CRCs of a reply are two bytes for each block.
abbrev pub Sized : ℕ → Option (List ℕ) → Type 0
Sized n none = Unit {0}
Sized n (some crcs) = length crcs ≡ n

pub is_reply_flash_crc_cmd-ok :
    (count : ℕ) (bin : List ℕ)
    → count ≤ 16
    → (got : Option (List ℕ)) × (is_reply_flash_crc_cmd count bin ≡ ok got) × Sized (2 * count) got
unfolding is_reply_flash_crc_cmd
is_reply_flash_crc_cmd-ok count bin few =
    let (taken, e, sized) =
      is_success-ok (u32 (1 + 1 + 2 * count)) su_flash_crc bin (omega arith) in
    elim (Bool-cases taken) [
      | inl t ↦
          let size : length bin ≡ u32 (1 + 1 + 2 * count) = sized t in
          (
            some (take (count * 2) (drop 2 bin)),
            rw (e, t, slice-ok bin 2 (count * 2) (omega arith)) refl,
            omega (arith, length-take (count * 2) (drop 2 bin), length-drop 2 bin),
          )
      | inr t ↦ (none, rw (e, t) refl, tt)
    ]

take_ids-room :
    (room : ℕ) (bin : List ℕ) {taken : Bool}
    → length bin ≡ 26
    → take_ids room bin ≡ ok taken
    → 16 ≤ room
unfolding take_ids
take_ids-room room bin size e =
    let (vid, e1, f1) = >>=-eq-ok (slice bin 2 4) _ e in
    let (vid_slot, e2, f2) = >>=-eq-ok (splice (replicate room 0) 0 vid) _ f1 in
    let (pid, e3, f3) = >>=-eq-ok (slice bin (2 + 4) 16) _ f2 in
    let (pid_slot, e4, f4) = >>=-eq-ok (splice (replicate room 0) 0 pid) _ f3 in
    let bytes : pid ≡ take 16 (drop 6 bin) =
      ok-injective (sym e3 ∙ slice-ok bin (2 + 4) 16 (omega arith)) in
    let pid_size : length pid ≡ 16 =
      omega (arith, ap length bytes, length-take 16 (drop 6 bin), length-drop 6 bin) in
    elim (Bool-cases (leb 16 room)) [
      | inl t ↦ leb-le 16 room t
      | inr t ↦ absurd (
          cc (
            e4,
            splice-fault (replicate room 0) 0 pid
                (omega (arith, pid_size, length-replicate {A = ℕ} room 0, leb-lt 16 room t)),
          ))
    ]

-- A success of the device check is taken only where 16 bytes may be written at the address of a parameter.
pub is_reply_device_check_cmd-room :
    (room : ℕ) (bin : List ℕ) → is_reply_device_check_cmd room bin ≡ ok true → 16 ≤ room
unfolding is_reply_device_check_cmd
is_reply_device_check_cmd-room room bin e =
    let (taken, f, sized) = is_success-ok (1 + 1 + 4 + 16 + 4) su_device_check bin (omega arith) in
    elim (Bool-cases taken) [
      | inl t ↦ take_ids-room room bin (sized t) (rw (f, t) at e)
      | inr t ↦ absurd (false-true (ok-injective (rw (f, t) at e)))
    ]
  where
    false-true : false ≡ true → ⊥
    false-true h = cc

pub is_reply_device_init_cmd-ok :
    (bin : List ℕ) → (got : Option DeviceInitInfo) × (is_reply_device_init_cmd bin ≡ ok got)
unfolding is_reply_device_init_cmd take_init_info
is_reply_device_init_cmd-ok bin =
    let (taken, e, sized) =
      is_success-ok (1 + 1 + 4 + 4 + 4 + 4) su_device_init bin (omega arith) in
    elim (Bool-cases taken) [
      | inl t ↦
          let size : length bin ≡ 18 = sized t in
          let (addr, e1) = load32-ok bin 2 (omega arith) in
          let (len, e2) = load32-ok bin 6 (omega arith) in
          let (eoffset, e3) = load32-ok bin 10 (omega arith) in
          let (align, e4) = load32-ok bin 14 (omega arith) in
          (
            some (record {
              zone_addr = addr;
              upgrade_len = len;
              flash_eoffset_size = eoffset;
              erase_unit_size = align;
            }),
            rw (e, t, e1, e2, e3, e4) refl,
          )
      | inr t ↦ (none, rw (e, t) refl)
    ]

take_ids-ok :
    (room : ℕ) (bin : List ℕ)
    → length bin ≡ 26
    → 16 ≤ room
    → (taken : Bool) × (take_ids room bin ≡ ok taken)
unfolding take_ids
take_ids-ok room bin size fits = (
  true,
  rw
      (
        slice-ok bin 2 4 (omega arith),
        splice-ok (replicate room 0) 0 (take 4 (drop 2 bin)) (
            omega (
              arith,
              length-replicate {A = ℕ} room 0,
              length-take 4 (drop 2 bin),
              length-drop 2 bin,
            )),
        slice-ok bin (2 + 4) 16 (omega arith),
        splice-ok (replicate room 0) 0 (take 16 (drop (2 + 4) bin)) (
            omega (
              arith,
              length-replicate {A = ℕ} room 0,
              length-take 16 (drop (2 + 4) bin),
              length-drop (2 + 4) bin,
            )),
      )
      refl,
)

pub is_reply_device_check_cmd-ok :
    (room : ℕ) (bin : List ℕ)
    → 16 ≤ room
    → (got : Bool) × (is_reply_device_check_cmd room bin ≡ ok got)
unfolding is_reply_device_check_cmd
is_reply_device_check_cmd-ok room bin fits =
    let (taken, f, sized) = is_success-ok (1 + 1 + 4 + 16 + 4) su_device_check bin (omega arith) in
    elim (Bool-cases taken) [
      | inl t ↦ let (got, e) = take_ids-ok room bin (sized t) fits in (got, rw (f, t, e) refl)
      | inr t ↦ (false, rw (f, t) refl)
    ]
