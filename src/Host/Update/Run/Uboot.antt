-- ===== src/Host/Update/Run/Uboot.antt =====
-- The upgrade of the boot loader is carried out in legal requests, whatever the device answers.
use fw_bootloader.Common.{
  ℕ, zero, suc, ◌+◌, ◌-◌, ◌*◌, ◌/◌, ◌^◌, ◌≤◌, ◌<◌, ◌≡◌, List, length, take, drop, Bool-cases, inl,
  inr, Option, some, none, ltb, ltb→lt, if◌then◌else◌, length-drop, length-take, arith, u32,
}
use native.Mathlib.Nat.{div-mul-le_self, mul-le-mul_left}
use fw_bootloader.Common.Memory.{Result, ok, divide-ok}
use fw_bootloader.Protocol.Scan.{seal}
use fw_bootloader.Session.Spec.{Request, Legal, payload}
use fw_bootloader.Host.Crc.{crc16}
use fw_bootloader.Host.Command.{DeviceInitInfo, is_reply_device_init_cmd}
use fw_bootloader.Host.Command.Replies.{is_reply_device_init_cmd-ok}
use fw_bootloader.Host.Command.Requests.{make, init_zone}
use fw_bootloader.Host.Update.Thread.{
  Outcome, faulted, running, failed, done, Host, ◌>>=◌, ◌>>◌, return, require, go_on_anyway,
}
use fw_bootloader.Host.Update.{query, device_update_zone_init, erase_flash, write_flash}
use fw_bootloader.Host.Update.Safe.{
  Safe, Any, Safe-go_on, query-Safe, erase_flash-Safe, write_flash-Safe,
}
use fw_bootloader.Host.Update.Crcs.Laws.{get_buffer_crc_list-ok}
use fw_bootloader.Host.Update.Run.{
  fill, app_dir_head_name, uboot_zone_name, ensure_crc_match, update_uboot,
}
use fw_bootloader.Host.Update.Run.Blocks.{length-fill}
use fw_bootloader.Host.Update.Run.App.{Erasable, ensure_crc_match-Safe}

-- What the upgrade of the boot loader asks of the zone: the flash in front of the backup area at 64K can be
-- erased to its end, holds a unit at least, and has fewer bytes than the rounds.
pub record UbootFits (rounds : ℕ) (app : DeviceInitInfo) : Type 0 where
  pub front : app.flash_eoffset_size + app.erase_unit_size ≤ 65536
  pub whole : Erasable rounds (65536 - app.flash_eoffset_size)
  pub few : 65536 - app.flash_eoffset_size < rounds
  pub zone_word : app.zone_addr < 2 ^ 32

-- All units but the first.
but_one : (count unit : ℕ) → 0 < count → (count - 1) * unit + unit ≡ count * unit
but_one zero unit h = absurd (omega arith)
but_one (suc n) unit h = let less : suc n - 1 ≡ n = omega arith in rw less (omega arith)

module _ {D : Type 0} (answer : List ℕ → D → Option (List ℕ) × D) (key room rounds : ℕ)
    (P : D → Type 0)
    (keeps : (q : Request) (d : D)
      → Legal q
      → P d
      → P (answer (seal key crc16 (payload 0 q)) d).1) where
  require-Any :
      {A : Type 0} (r : Result (Option A)) (got : Option A) (d : D)
      → r ≡ ok got
      → P d
      → Safe P Any (require r d)
  require-Any r none d e p = rw e p
  require-Any r (some a) d e p = rw e (p, tt)

  pub device_update_zone_init-Safe :
      (name : List ℕ) (type : ℕ) (d : D)
      → P d
      → Safe P Any (device_update_zone_init answer key name type d)
  unfolding device_update_zone_init
  device_update_zone_init-Safe name type d p =
      Safe-go_on P Any Any (query answer key (make key (init_zone name type)) d) _
        (query-Safe answer key P keeps (init_zone name type) d tt p)
        (λ cmd d' p' q.
          let (got, e) = is_reply_device_init_cmd-ok cmd in
          require-Any (is_reply_device_init_cmd cmd) got d' e p')

  go_on_anyway-Safe :
      (m : Host D (Unit {0})) (d : D) → Safe P Any (m d) → Safe P Any (go_on_anyway m d)
  go_on_anyway-Safe m d s = at_end (m d) s
    where
      at_end :
          (r : Outcome D (Unit {0}))
          → Safe P Any r
          → Safe {A = Unit {0}} P Any (elim r [
            | faulted ↦ faulted
            | running ↦ running
            | failed d' ↦ done tt d'
            | done a d' ↦ done tt d'
          ])
      at_end faulted s = absurd s
      at_end running s = absurd s
      at_end (failed d') s = (s, tt)
      at_end (done a d') s = s

  module _ (unit : ℕ) (erasable : Erasable rounds unit) (positive : 0 < unit) (fits : unit ≤ 65525)
      (enough : unit < rounds) (buf crcs : List ℕ) (len count : ℕ) (size : length buf ≡ len)
      (whole : Erasable rounds len) (few : len < rounds) (small : len ≤ 65536)
      (within : count * unit ≤ len) (some_blocks : count ≤ len) (first : unit ≤ len) where
    -- The first unit is written last.
    abbrev others : ℕ → Host D (Unit {0})
    others eoffset =
        if ltb 1 count
        then go_on_anyway (
            write_flash answer key rounds (drop (1 * unit) buf) (u32 (1 * unit + eoffset))
              (u32 ((count - 1) * unit)) unit)
        else return tt

    others-Safe : (eoffset : ℕ) (d : D) → P d → Safe P Any (others eoffset d)
    others-Safe eoffset d p = elim (Bool-cases (ltb 1 count)) [
      | inl t ↦
          let more : 1 < count = ltb→lt 1 count t in
          let rest = but_one count unit (omega arith) in
          rw t (
            go_on_anyway-Safe
              (write_flash answer key rounds (drop (1 * unit) buf) (u32 (1 * unit + eoffset))
                (u32 ((count - 1) * unit)) unit)
              d
              (write_flash-Safe answer key P keeps rounds (drop (1 * unit) buf)
                (u32 (1 * unit + eoffset)) (u32 ((count - 1) * unit)) unit d (omega arith) positive
                fits (omega (arith, length-drop (1 * unit) buf)) (omega arith) p))
      | inr t ↦ rw t (p, tt)
    ]

    -- The boot loader at its own place.
    abbrev in_place : ℕ → Host D (Unit {0})
    in_place eoffset = do
      erase_flash answer key rounds (0 + eoffset) len
      others eoffset
      write_flash answer key rounds buf (0 + eoffset) unit unit
      ensure_crc_match answer key room rounds crcs (0 + eoffset) count unit
      again ← device_update_zone_init answer key app_dir_head_name 0
      return tt

    in_place-Safe : (eoffset : ℕ) (d : D) → eoffset < 2 ^ 32 → P d → Safe P Any (in_place eoffset d)
    in_place-Safe eoffset d word p =
        Safe-go_on P Any Any (erase_flash answer key rounds (0 + eoffset) len d) _
          (erase_flash-Safe answer key P keeps rounds (0 + eoffset) len d whole (omega arith)
            (omega arith) p)
          (λ a1 d1 p1 q1.
            Safe-go_on P Any Any (others eoffset d1) _ (others-Safe eoffset d1 p1) (λ a2 d2 p2 q2.
              Safe-go_on P Any Any (write_flash answer key rounds buf (0 + eoffset) unit unit d2) _
                (write_flash-Safe answer key P keeps rounds buf (0 + eoffset) unit unit d2 enough
                  positive fits (omega (arith, size)) (omega arith) p2)
                (λ a3 d3 p3 q3.
                  Safe-go_on P Any Any
                    (ensure_crc_match answer key room rounds crcs (0 + eoffset) count unit d3) _
                    (ensure_crc_match-Safe answer key room rounds P keeps unit erasable positive
                      fits enough crcs (0 + eoffset) count d3 (omega arith) (omega arith) p3)
                    (λ a4 d4 p4 q4.
                      Safe-go_on P Any Any
                        (device_update_zone_init answer key app_dir_head_name 0 d4) _
                        (device_update_zone_init-Safe app_dir_head_name 0 d4 p4)
                        (λ a5 d5 p5 q5. (p5, tt))))))

  pub update_uboot-Safe :
      (file : List ℕ) (app : DeviceInitInfo) (d : D)
      → Erasable rounds app.erase_unit_size
      → 0 < app.erase_unit_size
      → app.erase_unit_size ≤ 65525
      → app.erase_unit_size < rounds
      → UbootFits rounds app
      → P d
      → Safe P Any (update_uboot answer key room rounds file app d)
  unfolding update_uboot
  update_uboot-Safe file app d erasable positive fits enough zone p =
      let unit = app.erase_unit_size in
      let eoffset = app.flash_eoffset_size in
      let front : eoffset + unit ≤ 65536 = zone.front in
      let len : ℕ = 65536 - eoffset in
      let at : u32 (65536 + 2 ^ 32 - eoffset) ≡ len = omega arith in
      let buf = fill (take len file) len in
      let size : length buf ≡ len =
        length-fill (take len file) len (omega (arith, length-take len file)) in
      let count = len / unit in
      let within : count * unit ≤ len = div-mul-le_self len unit in
      let some_blocks : count * 1 ≤ count * unit = mul-le-mul_left count (omega arith) in
      let (crcs, e, crcs_size) =
        get_buffer_crc_list-ok buf count unit (omega arith) (omega arith) in
      rw at (
        Safe-go_on P Any Any (device_update_zone_init answer key uboot_zone_name 0 d) _
          (device_update_zone_init-Safe uboot_zone_name 0 d p)
          (λ a1 d1 p1 q1.
            Safe-go_on P Any Any (erase_flash answer key rounds app.zone_addr unit d1) _
              (erase_flash-Safe answer key P keeps rounds app.zone_addr unit d1 erasable
                (omega arith) zone.zone_word p1)
              (λ a2 d2 p2 q2.
                Safe-go_on P Any Any (erase_flash answer key rounds 65536 len d2) _
                  (erase_flash-Safe answer key P keeps rounds 65536 len d2 zone.whole (omega arith)
                    (omega arith) p2)
                  (λ a3 d3 p3 q3. rw (divide-ok len unit positive) (
                    Safe-go_on P Any Any (write_flash answer key rounds buf 65536 len unit d3) _
                      (write_flash-Safe answer key P keeps rounds buf 65536 len unit d3 zone.few
                        positive fits (omega arith) (omega arith) p3)
                      (λ a4 d4 p4 q4. rw e (
                        Safe-go_on P Any Any
                          (ensure_crc_match answer key room rounds crcs 65536 count unit d4) _
                          (ensure_crc_match-Safe answer key room rounds P keeps unit erasable
                            positive fits enough crcs 65536 count d4 (omega (arith, zone.few))
                            (omega arith) p4)
                          (λ a5 d5 p5 q5.
                            in_place-Safe unit erasable positive fits enough buf crcs len count size
                              zone.whole zone.few (omega arith) within (omega arith) (omega arith)
                              eoffset d5 (omega arith) p5))))))))
