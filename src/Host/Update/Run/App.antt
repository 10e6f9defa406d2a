-- ===== src/Host/Update/Run/App.antt =====
-- The upgrade of the application is carried out in legal requests, whatever the device answers.
use fw_bootloader.Common.{
  ℕ, zero, suc, ◌+◌, ◌-◌, ◌*◌, ◌^◌, ◌≤◌, ◌<◌, ◌≡◌, List, [], ◌∷◌, length, drop, Bool, true, false,
  Bool-cases, ◌⊎◌, inl, inr, Option, ◌==◌, if◌then◌else◌, length-drop, arith, u32,
}
use fw_bootloader.Common.Memory.{load16-ok, divide-ok}
use fw_bootloader.Protocol.Scan.{seal}
use fw_bootloader.Session.Spec.{Request, Legal, payload}
use fw_bootloader.Host.Crc.{crc16}
use fw_bootloader.Host.Command.{DeviceInitInfo}
use fw_bootloader.Host.Command.Requests.{make_reboot_cmd_lem}
use fw_bootloader.Host.Update.Thread.{Host, ◌>>◌, return}
use fw_bootloader.Host.Update.{erase_flash, write_flash, fetch_chip_crc_list}
use fw_bootloader.Host.Update.Crcs.{same_crcs}
use fw_bootloader.Host.Update.Run.{
  Finish, ensure_crc_match, send_reboot, update_units, write_app, update_app, updated, same_crc,
}
use fw_bootloader.Host.Update.Run.Blocks.{
  file_size, block_count, content, size, counted, length-content,
}
use fw_bootloader.Host.Update.Safe.{
  Safe, Any, Safe-go_on, erase_flash-Safe, write_flash-Safe, guard-Safe,
}
use fw_bootloader.Host.Update.Crcs.Laws.{get_buffer_crc_list-ok}
use fw_bootloader.Host.Update.Fetch.{fetch_chip_crc_list-Safe}

-- A unit that `eraseFlash` erases to its end: a page, or sectors, and no more than a frame has room for.
abbrev pub Erasable : ℕ → ℕ → Type 0
Erasable rounds unit = (unit ≡ 256) ⊎ ((sectors : ℕ) × (unit ≡ sectors * 4096) × (sectors < rounds))

module _ {D : Type 0} (answer : List ℕ → D → Option (List ℕ) × D) (key room rounds : ℕ)
    (P : D → Type 0)
    (keeps : (q : Request) (d : D) → Legal q → P d → P (answer (seal key crc16 (payload 0 q)) d).1)
    (unit : ℕ) (erasable : Erasable rounds unit) (positive : 0 < unit) (fits : unit ≤ 65525)
    (enough : unit < rounds) where
  pub ensure_crc_match-Safe :
      (crcs : List ℕ) (address count : ℕ) (d : D)
      → count < rounds
      → address < 2 ^ 32
      → P d
      → Safe P Any (ensure_crc_match answer key room rounds crcs address count unit d)
  unfolding ensure_crc_match
  ensure_crc_match-Safe crcs address count d few word p =
      Safe-go_on P (λ got. length got ≡ 2 * count) Any
        (fetch_chip_crc_list answer key rounds address count unit d) _
        (fetch_chip_crc_list-Safe answer key P keeps rounds address count unit d few positive fits
          word p)
        (λ got d' p' size. guard-Safe answer key P keeps (same_crcs got crcs) d' p')

  -- A unit is erased and written, or left alone.
  module _ (buf file_crcs chip_crcs : List ℕ) (count address : ℕ)
      (buf_size : count * unit ≤ length buf) (small : length buf < 2 ^ 32)
      (file_size : length file_crcs ≡ 2 * count) (chip_size : length chip_crcs ≡ 2 * count) where
    -- The unit at an offset.
    abbrev one_unit : Bool → ℕ → Host D (Unit {0})
    one_unit same off = if same then return tt else (do
      erase_flash answer key rounds (u32 (address + off)) unit
      write_flash answer key rounds (drop off buf) (u32 (address + off)) unit unit)

    one_unit-Safe :
        (same : Bool) (off : ℕ) (d : D)
        → off + unit ≤ length buf
        → P d
        → Safe P Any (one_unit same off d)
    one_unit-Safe true off d inside p = (p, tt)
    one_unit-Safe false off d inside p =
        Safe-go_on P Any Any (erase_flash answer key rounds (u32 (address + off)) unit d) _
          (erase_flash-Safe answer key P keeps rounds (u32 (address + off)) unit d erasable
            (omega arith) (omega arith) p)
          (λ a d' p' q.
            write_flash-Safe answer key P keeps rounds (drop off buf) (u32 (address + off)) unit
              unit d' enough positive fits (omega (arith, length-drop off buf)) (omega arith) p')

    update_units-Safe :
        (left i : ℕ) (d : D)
        → i + left ≤ count
        → P d
        → Safe P Any
            (update_units answer key room rounds buf file_crcs chip_crcs address unit left i d)
    unfolding update_units
    update_units-Safe zero i d within p = (p, tt)
    update_units-Safe (suc left) i d within p =
        let inside : i * unit + unit ≤ length buf = grind arith in
        let at : u32 (i * unit) ≡ i * unit = omega arith in
        let (new, e) = load16-ok file_crcs (2 * i) (omega arith) in
        let (old, f) = load16-ok chip_crcs (2 * i) (omega arith) in
        rw (e, f)
          (Safe-go_on P Any Any (one_unit (new == old) (u32 (i * unit)) d) _
            (one_unit-Safe (new == old) (u32 (i * unit)) d (omega arith) p)
            (λ a d' p' q. update_units-Safe left (i + 1) d' (omega arith) p'))

    module _ (keeps_reboot : (d : D) → P d → P (answer (seal key crc16 (0xCA ∷ 0 ∷ [])) d).1) where
      send_reboot-Safe :
          (how : Finish) (d : D) → P d → Safe P Any (send_reboot answer key room rounds how d)
      unfolding send_reboot
      send_reboot-Safe how d p = rw (make_reboot_cmd_lem key) (keeps_reboot d p, tt)

      write_app-Safe :
          (d : D)
          → 0 < count
          → count < rounds
          → address < 2 ^ 32
          → P d
          → Safe P Any
              (write_app answer key room rounds buf file_crcs chip_crcs address count unit d)
      unfolding write_app
      write_app-Safe d some_blocks few word p =
          let first : unit ≤ length buf = grind arith in
          Safe-go_on P Any Any (erase_flash answer key rounds address unit d) _
            (erase_flash-Safe answer key P keeps rounds address unit d erasable (omega arith) word
              p)
            (λ a d1 p1 q1.
              Safe-go_on P Any Any
                (update_units answer key room rounds buf file_crcs chip_crcs address unit
                  (count - 1) 1 d1)
                _ (update_units-Safe (count - 1) 1 d1 (omega arith) p1)
                (λ a2 d2 p2 q2.
                  Safe-go_on P Any Any (write_flash answer key rounds buf address unit unit d2) _
                    (write_flash-Safe answer key P keeps rounds buf address unit unit d2 enough
                      positive fits first word p2)
                    (λ a3 d3 p3 q3.
                      Safe-go_on P Any Any
                        (ensure_crc_match answer key room rounds file_crcs address count unit d3) _
                        (ensure_crc_match-Safe file_crcs address count d3 few word p3)
                        (λ a4 d4 p4 q4. send_reboot-Safe updated d4 p4))))

module _ {D : Type 0} (answer : List ℕ → D → Option (List ℕ) × D) (key room rounds : ℕ)
    (P : D → Type 0)
    (keeps : (q : Request) (d : D) → Legal q → P d → P (answer (seal key crc16 (payload 0 q)) d).1)
    (keeps_reboot : (d : D) → P d → P (answer (seal key crc16 (0xCA ∷ 0 ∷ [])) d).1) where
  -- The upgrade of the application sends legal requests only, accesses no memory out of bounds and ends,
  -- whatever answers. If a predicate on the state of the other end is kept by the frames of legal requests
  -- and by that of the reboot, and holds at the start, then `update_app` returns, true or false, in a state
  -- where it holds. The unit of erasing has 256 bytes or whole sectors of 4096 bytes, fewer than the rounds,
  -- and at most 65525 bytes; the zone begins within the file; the file and a unit together have fewer bytes
  -- than 2 ^ 32 and than the rounds, and the offset of the flash is below 2 ^ 32.
  pub update_app-Safe :
      (file : List ℕ) (app : DeviceInitInfo) (d : D)
      → Erasable rounds app.erase_unit_size
      → 0 < app.erase_unit_size
      → app.erase_unit_size ≤ 65525
      → app.zone_addr < length file
      → length file + app.erase_unit_size < 2 ^ 32
      → length file + app.erase_unit_size < rounds
      → app.flash_eoffset_size < 2 ^ 32
      → P d
      → Safe P Any (update_app answer key room rounds file app d)
  unfolding update_app
  update_app-Safe file app d erasable positive fits zone small enough word p =
      let unit = app.erase_unit_size in
      let count = block_count file app.zone_addr unit in
      let buf = drop app.zone_addr (content file app.zone_addr unit) in
      let (below, above, some_blocks, bound) =
        counted file app.zone_addr unit zone positive small in
      let sized = size file app.zone_addr unit zone positive small in
      let whole : length buf ≡ count * unit = omega (
        arith,
        length-drop app.zone_addr (content file app.zone_addr unit),
        length-content file app.zone_addr unit zone positive small,
      ) in
      let (crcs, e, crcs_size) =
        get_buffer_crc_list-ok buf count unit (omega arith) (omega arith) in
      rw (divide-ok (u32 (file_size file app.zone_addr unit + unit + 2 ^ 32 - 1)) unit positive, e)
        (Safe-go_on P (λ got. length got ≡ 2 * count) Any
          (fetch_chip_crc_list answer key rounds (0 + app.flash_eoffset_size) count unit d) _
          (fetch_chip_crc_list-Safe answer key P keeps rounds (0 + app.flash_eoffset_size) count
            unit d (omega arith) positive fits (omega arith) p)
          (λ chip d' p' chip_size. elim (Bool-cases (same_crcs crcs chip)) [
            | inl t ↦ rw t (
                send_reboot-Safe answer key room rounds P keeps unit erasable positive fits
                  (omega arith) buf crcs chip count (0 + app.flash_eoffset_size) (omega arith)
                  (omega arith) crcs_size chip_size keeps_reboot same_crc d' p')
            | inr t ↦ rw t (
                write_app-Safe answer key room rounds P keeps unit erasable positive fits
                  (omega arith) buf crcs chip count (0 + app.flash_eoffset_size) (omega arith)
                  (omega arith) crcs_size chip_size keeps_reboot d' some_blocks (omega arith)
                  (omega arith) p')
          ]))
